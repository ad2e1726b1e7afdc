-- ===== src/Primary/HeaderWaiter/Parents.antt =====
-- primary/src/header_waiter.rs: the parents that a header makes the waiter ask for.
use tusk_ubuntu.Prelude.{
  ℕ, ◌≡◌, refl, true, false, not, ◌&&◌, some, List, [], ◌∷◌, ◌++◌, map, if◌then◌else◌, is_some,
  Bool-cases, inl, inr, arith,
}
use tusk_ubuntu.Prelude.Map
use mathlib.Core.List.{append-nil}
use tusk_ubuntu.Prelude.Set
use tusk_ubuntu.Prelude.Set.{Distinct}
use tusk_ubuntu.Prelude.Result.{ok}
use tusk_ubuntu.Prelude.Outcome.{returned}
use tusk_ubuntu.Config.{PrimaryAddresses, primary}
use tusk_ubuntu.Crypto.{Digest}
use tusk_ubuntu.Messages.{Round, Header}
use tusk_ubuntu.Store.{digest_key}
use tusk_ubuntu.Primary.{certificates_request}
use tusk_ubuntu.Primary.HeaderWaiter.{
  Request, to_primary, Setup, HeaderWaiter, note_parents, wait_for, handle_parents, ask_primary,
}

-- The digests are asked for that are missing and not on record, each once, and they come on record with
-- the entry; the rest of the record stays.
abbrev pub Notes :
    Round × ℕ
    → List Digest
    → List (Digest × (Round × ℕ))
    → List (Digest × (Round × ℕ)) × List Digest
    → Type 0
Notes entry missing noted (noted', asked) =
    Distinct asked
    × ((d : Digest)
        → Set.contains d asked ≡ (Set.contains d missing && not (is_some (Map.get d noted))))
    × ((d : Digest)
        → Map.get d noted' ≡ (if Set.contains d asked then some entry else Map.get d noted))

Notes-skip :
    (entry : Round × ℕ) (digest : Digest) (missing : List Digest)
    (noted : List (Digest × (Round × ℕ))) (r : List (Digest × (Round × ℕ)) × List Digest)
    → is_some (Map.get digest noted) ≡ true
    → Notes entry missing noted r
    → Notes entry (digest ∷ missing) noted r
unfolding Set.contains
Notes-skip entry digest missing noted r q (distinct, asked, kept) =
    (distinct, λ d. ground (arith, q, asked d), kept)

Notes-ask :
    (entry : Round × ℕ) (digest : Digest) (missing : List Digest)
    (noted : List (Digest × (Round × ℕ))) (r : List (Digest × (Round × ℕ)) × List Digest)
    → is_some (Map.get digest noted) ≡ false
    → Notes entry missing (Map.insert digest entry noted) r
    → Notes entry (digest ∷ missing) noted (r.0, digest ∷ r.1)
unfolding Set.contains
Notes-ask entry digest missing noted r q (distinct, asked, kept) = (
  (ground (arith, asked digest, Map.get-insert digest digest entry noted), distinct),
  λ d. ground (arith, q, asked d, Map.get-insert digest d entry noted),
  λ d. ground (arith, kept d, Map.get-insert digest d entry noted),
)

note_parents-Notes :
    (entry : Round × ℕ) (missing : List Digest) (noted : List (Digest × (Round × ℕ)))
    → Notes entry missing noted (note_parents entry missing noted)
unfolding note_parents Set.contains Map.contains_key
note_parents-Notes entry [] noted = (tt, λ d. refl, λ d. refl)
note_parents-Notes entry (digest ∷ missing) noted =
    elim (Bool-cases (is_some (Map.get digest noted))) [
      | inl q ↦
          rw q (Notes-skip entry digest missing noted _ q (note_parents-Notes entry missing noted))
      | inr q ↦ rw q (
          Notes-ask entry digest missing noted _ q
            (note_parents-Notes entry missing (Map.insert digest entry noted)))
    ]

-- What is sent for the digests to ask for.
abbrev pub parents_request : Setup → PrimaryAddresses → List Digest → List Request
parents_request setup address [] = []
parents_request setup address (d ∷ ds) =
    to_primary address.primary_to_primary (certificates_request (d ∷ ds) setup.name) ∷ []

ask_primary_lem :
    (setup : Setup) (address : PrimaryAddresses) (digests : List Digest) (s : HeaderWaiter)
    → ask_primary setup digests (ok address) s
      ≡ returned (record s { requests = s.requests ++ parents_request setup address digests })
ask_primary_lem setup address [] s = rw append-nil refl
ask_primary_lem setup address (d ∷ ds) s = refl

-- If the author is in the committee, a header that misses parents joins the pending headers, and its wait
-- for the parents begins. The waiter asks the author, in one message, for the parents that were missing
-- and not on record, each once, and for nothing if there are none. These come on record with the round
-- and the time; what was on record stays, unchanged.
pub handle_parents_lem :
    (setup : Setup) (missing : List Digest) (h : Header) (now : ℕ) (s : HeaderWaiter)
    (address : PrimaryAddresses)
    → primary setup.committee h.author ≡ ok address
    → (t : HeaderWaiter) × (asked : List Digest) × (handle_parents setup missing h now s
        ≡ returned t)
      × Notes (h.round, now) missing s.parent_requests (t.parent_requests, asked)
      × (t.requests ≡ s.requests ++ parents_request setup address asked)
      × (t.waiting ≡ s.waiting ++ (map digest_key missing, h) ∷ [])
      × (Map.get h.id t.pending ≡ some h.round)
      × (t.batch_requests ≡ s.batch_requests)
unfolding handle_parents
handle_parents_lem setup missing h now s address p =
    let noted = note_parents (h.round, now) missing s.parent_requests in
    let before : HeaderWaiter = record (wait_for setup (map digest_key missing) h s) {
      parent_requests = noted.0;
    } in
    (
      record before { requests = s.requests ++ parents_request setup address noted.1 },
      noted.1,
      rw p (ask_primary_lem setup address noted.1 before),
      note_parents-Notes (h.round, now) missing s.parent_requests,
      refl,
      refl,
      rw (Map.get-insert h.id h.id h.round s.pending) (ground arith),
      refl,
    )
