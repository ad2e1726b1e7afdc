-- ===== src/Network/ReliableSender.antt =====
-- network/src/reliable_sender.rs: `ReliableSender`, which keeps a channel to the connection task of each
-- address. A channel is the list of the messages put into it; the task receives them in this order. The
-- shuffle is a parameter, and a new cancel handler is the next number.
use tusk_ubuntu.Prelude.{
  ℕ, suc, ◌≡◌, ◌∙◌, refl, sym, zero, List, [], ◌∷◌, ◌++◌, length, take, min, ◌==◌, if◌then◌else◌,
  Bool-cases, inl, inr, ==→eq, ap, arith,
}
use tusk_ubuntu.Prelude.Map
use mathlib.Core.List.{append-nil, append_assoc}
use tusk_ubuntu.Config.{SocketAddr}
use tusk_ubuntu.Network.Connection.{Bytes, Handler, InnerMessage}

pub record ReliableSender : Type 0 where
  pub connections : List (SocketAddr × List InnerMessage)
  pub next_handler : Handler

unfoldable pub send : SocketAddr → Bytes → ReliableSender → ReliableSender × Handler
unfolding Map.entry_or Map.insert
send address bytes s =
    let queue = Map.entry_or address [] s.connections in
    let m : InnerMessage = record { data_of = bytes; cancel_handler = s.next_handler } in
    (
      record {
        connections = Map.insert address (queue ++ m ∷ []) s.connections;
        next_handler = suc s.next_handler;
      },
      s.next_handler,
    )

unfoldable pub broadcast : List SocketAddr → Bytes → ReliableSender → ReliableSender × List Handler
unfolding send
broadcast [] bytes s = (s, [])
broadcast (address ∷ addresses) bytes s =
    let (s', handler) = send address bytes s in
    let (s'', handlers) = broadcast addresses bytes s' in (s'', handler ∷ handlers)

unfoldable pub lucky_broadcast :
    (List SocketAddr → List SocketAddr)
    → List SocketAddr
    → Bytes
    → ℕ
    → ReliableSender
    → ReliableSender × List Handler
unfolding broadcast
lucky_broadcast shuffle addresses bytes nodes s = broadcast (take nodes (shuffle addresses)) bytes s

-- What is in the channel to an address.
unfoldable pub queued : SocketAddr → ReliableSender → List InnerMessage
unfolding Map.entry_or
queued address s = Map.entry_or address [] s.connections

-- The messages for one address, when the addresses get handlers from `n` on.
unfoldable pub messages_to : SocketAddr → Bytes → Handler → List SocketAddr → List InnerMessage
messages_to address bytes n [] = []
messages_to address bytes n (x ∷ addresses) =
    let rest = messages_to address bytes (suc n) addresses in
    if x == address then record { data_of = bytes; cancel_handler = n } ∷ rest else rest

queued-send :
    (address x : SocketAddr) (bytes : Bytes) (s : ReliableSender)
    → queued address (send x bytes s).0
      ≡ queued address s ++ messages_to address bytes s.next_handler (x ∷ [])
unfolding queued send messages_to
queued-send address x bytes s =
    let m : InnerMessage = record { data_of = bytes; cancel_handler = s.next_handler } in
    let at_address = Map.entry_or-insert_at x address [] (queued x s ++ m ∷ []) s.connections in
    elim (Bool-cases (x == address)) [
      | inl q ↦ rw (at_address, q, ==→eq x address q) refl
      | inr q ↦ rw (at_address, q, append-nil) refl
    ]

messages_to-cons :
    (address x : SocketAddr) (bytes : Bytes) (n : Handler) (xs : List SocketAddr)
    → messages_to address bytes n (x ∷ xs)
      ≡ messages_to address bytes n (x ∷ []) ++ messages_to address bytes (suc n) xs
unfolding messages_to
messages_to-cons address x bytes n xs = elim (Bool-cases (x == address)) [
  | inl q ↦ rw q refl
  | inr q ↦ rw q refl
]

-- The numbers from `n` on.
abbrev pub from : Handler → List SocketAddr → List Handler
from n [] = []
from n (x ∷ xs) = n ∷ from (suc n) xs

-- A broadcast adds to the channel of each address one message for each time that it is addressed, and
-- to no other, in order; the handlers that it returns are new and stand in the order of the addresses.
pub broadcast_lem :
    (address : SocketAddr) (addresses : List SocketAddr) (bytes : Bytes) (s : ReliableSender)
    → (queued address (broadcast addresses bytes s).0
        ≡ queued address s ++ messages_to address bytes s.next_handler addresses)
      × ((broadcast addresses bytes s).1 ≡ from s.next_handler addresses)
unfolding broadcast messages_to send
broadcast_lem address [] bytes s = (sym (append-nil (queued address s)), refl)
broadcast_lem address (x ∷ xs) bytes s =
    let (ih, hs) = broadcast_lem address xs bytes (send x bytes s).0 in
    let rest = messages_to address bytes (suc s.next_handler) xs in
    (
      ih
          ∙ ap (λ l. l ++ rest) (queued-send address x bytes s)
          ∙ append_assoc (queued address s) (messages_to address bytes s.next_handler (x ∷ [])) rest
          ∙ ap (λ l. queued address s ++ l)
              (sym (messages_to-cons address x bytes s.next_handler xs)),
      ap (◌∷◌ s.next_handler) hs,
    )

length-from : (n : Handler) (xs : List SocketAddr) → length (from n xs) ≡ length xs
length-from n [] = refl
length-from n (x ∷ xs) = ap suc (length-from (suc n) xs)

length-take : (n : ℕ) (xs : List SocketAddr) → length (take n xs) ≡ min n (length xs)
length-take zero xs = omega arith
length-take (suc n) [] = omega arith
length-take (suc n) (x ∷ xs) = omega (arith, length-take n xs)

-- If the shuffle keeps the number of addresses, a lucky broadcast sends to `nodes` of them, or to all if
-- they are fewer.
pub lucky_broadcast-length :
    (shuffle : List SocketAddr → List SocketAddr)
    → ((xs : List SocketAddr) → length (shuffle xs) ≡ length xs)
    → (addresses : List SocketAddr) (bytes : Bytes) (nodes : ℕ) (s : ReliableSender)
    → length (lucky_broadcast shuffle addresses bytes nodes s).1 ≡ min nodes (length addresses)
unfolding lucky_broadcast
lucky_broadcast-length shuffle keeps addresses bytes nodes s =
    let chosen = take nodes (shuffle addresses) in
    ap length (broadcast_lem 0 chosen bytes s).1
    ∙ length-from s.next_handler chosen
    ∙ length-take nodes (shuffle addresses)
    ∙ ap (min nodes) (keeps addresses)
