-- ===== src/Network/Connection/Delivery.antt =====
-- network/src/reliable_sender.rs: the connection task neither loses, repeats nor reorders the messages
-- whose cancel handlers are held.
use tusk_ubuntu.Prelude.{
  ◌≡◌, ◌∙◌, refl, sym, ap, Bool, false, Option, none, some, inl, inr, List, [], ◌∷◌, ◌++◌, map,
  filter, Bool-cases, arith,
}
use tusk_ubuntu.Prelude.Set
use mathlib.Core.List.{append-nil, append_assoc, map-append, reverse, reverse-cons, reverse-reverse}
use tusk_ubuntu.Network.Connection.Events.{some-injective, run-cons, Cases, step_in-elim}
use tusk_ubuntu.Network.Connection.{
  Handler, Bytes, InnerMessage, Phase, connecting, waiting, sending, writing, selecting, Connection,
  Event, connected, failed_to_connect, timer, message, pop, written, response, close, spawn,
  is_open, push_all, disconnect, pop_front, reply, run,
}

ruleset list_laws = (append-nil, append_assoc, map-append)

-- The message that is being written.
unfoldable pub in_writing : Phase → List InnerMessage
in_writing (writing m) = m ∷ []
in_writing connecting = []
in_writing waiting = []
in_writing sending = []
in_writing selecting = []

abbrev pub acknowledged : Connection → List InnerMessage
acknowledged s = map (λ e. e.0) s.notified

-- The messages that the task was given and keeps, acknowledged or not, in the order in which it sends.
unfoldable pub track : Phase → Connection → List InnerMessage
unfolding in_writing
track p s = acknowledged s ++ s.pending_replies ++ in_writing p ++ s.buffer

unfoldable pub message_of : Event → List InnerMessage
message_of connected = []
message_of failed_to_connect = []
message_of timer = []
message_of (message m) = m ∷ []
message_of pop = []
message_of (written w) = []
message_of (response r) = []
message_of (close h) = []

-- The messages that the task took from its channel.
unfoldable pub received : List Event → List InnerMessage
unfolding message_of
received [] = []
received (e ∷ es) = message_of e ++ received es

push_all-eq : (ms buffer : List InnerMessage) → push_all ms buffer ≡ reverse ms ++ buffer
unfolding push_all
push_all-eq [] buffer = refl
push_all-eq (m ∷ ms) buffer =
    push_all-eq ms (m ∷ buffer)
    ∙ sym (rw (reverse-cons m ms) (append_assoc (reverse ms) (m ∷ []) buffer))

push_all-reverse : (ms buffer : List InnerMessage) → push_all (reverse ms) buffer ≡ ms ++ buffer
push_all-reverse ms buffer =
    push_all-eq (reverse ms) buffer ∙ ap (λ l. l ++ buffer) (reverse-reverse ms)

filter-append :
    (p : InnerMessage → Bool) (xs ys : List InnerMessage)
    → filter p (xs ++ ys) ≡ filter p xs ++ filter p ys
filter-append p [] ys = refl
filter-append p (x ∷ xs) ys = elim (Bool-cases (p x)) [
  | inl q ↦ rw q (ap (◌∷◌ x) (filter-append p xs ys))
  | inr q ↦ rw q (filter-append p xs ys)
]

-- A test that only messages with open handlers pass.
abbrev Sees : (InnerMessage → Bool) → List Handler → Type 0
Sees p closed = (m : InnerMessage) → is_open closed m ≡ false → p m ≡ false

filter-skip :
    (p : InnerMessage → Bool) (closed : List Handler) (xs : List InnerMessage)
    → Sees p closed
    → filter p (filter (is_open closed) xs) ≡ filter p xs
filter-skip p closed [] w = refl
filter-skip p closed (x ∷ xs) w = elim (Bool-cases (is_open closed x)) [
  | inl q ↦ rw (q, filter-skip p closed xs w) refl
  | inr q ↦ rw (q, w x q) (filter-skip p closed xs w)
]

filter-skip_end :
    (p : InnerMessage → Bool) (closed : List Handler) (xs ys : List InnerMessage)
    → Sees p closed
    → filter p (xs ++ filter (is_open closed) ys) ≡ filter p (xs ++ ys)
filter-skip_end p closed xs ys w =
    filter-append p xs _
    ∙ ap (λ l. filter p xs ++ l) (filter-skip p closed ys w)
    ∙ sym (filter-append p xs ys)

filter-drop :
    (p : InnerMessage → Bool) (xs : List InnerMessage) (m : InnerMessage) (ms : List InnerMessage)
    → p m ≡ false
    → filter p (xs ++ ms) ≡ filter p (xs ++ m ∷ ms)
filter-drop p xs m ms f = rw (filter-append p xs ms, filter-append p xs (m ∷ ms), f) refl

-- Before a connection no reply is pending.
abbrev Idle : Phase → List InnerMessage → Type 0
Idle connecting pending = pending ≡ []
Idle waiting pending = pending ≡ []
Idle sending pending = Unit
Idle (writing m) pending = Unit
Idle selecting pending = Unit

-- The same messages as far as the handlers stay open, and those that the event brings.
abbrev Same : Connection → List InnerMessage → Type 0
Same t ms = (p : InnerMessage → Bool) → Sees p t.closed → filter p (track t.phase t) ≡ filter p ms

-- An event adds its message to what the task keeps.
abbrev Tracks : Phase → Event → Connection → Connection → Type 0
Tracks q e s t =
    s.phase ≡ q
    → Idle q s.pending_replies
    → Idle t.phase t.pending_replies × Same t (track q s ++ message_of e)

disconnect-track :
    (s : Connection)
    → track connecting (disconnect s) ≡ acknowledged s ++ s.pending_replies ++ s.buffer
unfolding track in_writing disconnect
disconnect-track s = rw (push_all-reverse s.pending_replies s.buffer) (simp list_laws)

Tracks-pop_front :
    (ms : List InnerMessage) (s : Connection)
    → s.phase ≡ sending
    → s.buffer ≡ ms
    → Idle (pop_front ms s).phase (pop_front ms s).pending_replies
      × Same (pop_front ms s) (track sending s)
unfolding track in_writing pop_front
Tracks-pop_front [] s e b = (tt, λ p w. rw b refl)
Tracks-pop_front (m ∷ ms) s e b = elim (Bool-cases (is_open s.closed m)) [
  | inl q ↦ rw q (tt, λ p w. ap (filter p) (rw b (simp list_laws)))
  | inr q ↦ rw (q, e) (tt, λ p w. filter-drop p _ m ms (w m q) ∙ ap (filter p) (rw b refl))
]

Tracks-reply :
    (ms : List InnerMessage) (r : Option Bytes) (s : Connection)
    → s.pending_replies ≡ ms
    → Idle (reply ms r s).phase (reply ms r s).pending_replies
      × Same (reply ms r s) (track selecting s)
unfolding track in_writing reply disconnect
Tracks-reply [] r s b = (refl, λ p w. ap (filter p) (disconnect-track s ∙ simp list_laws))
Tracks-reply (m ∷ ms) none s b = (refl, λ p w. ap (filter p) (disconnect-track s ∙ simp list_laws))
Tracks-reply (m ∷ ms) (some x) s b = (tt, λ p w. ap (filter p) (rw b (simp list_laws)))

Tracks-Cases : Cases Tracks
unfolding message_of track in_writing disconnect
Tracks-Cases = record {
  closes = λ h s e i. (i, λ p w. ap (filter p) (sym (append-nil (track s.phase s))));
  connects = λ s e i. (tt, λ p w. ap (filter p) (rw i (simp list_laws)));
  fails = λ s e i. (i, λ p w. ap (filter p) (simp list_laws));
  times_out = λ s e i. (i, λ p w. ap (filter p) (simp list_laws));
  buffers = λ m s e i.
      rw e
        (i, λ p w. filter-skip_end p _ _ (s.buffer ++ m ∷ []) w ∙ ap (filter p) (simp list_laws));
  pops = λ s e i.
      let (j, h) = Tracks-pop_front s.buffer s e refl in
      (j, λ p w. h p w ∙ ap (filter p) (sym (append-nil (track sending s))));
  writes = λ m s e i. (tt, λ p w. ap (filter p) (simp list_laws));
  write_fails = λ m s e i. (
    refl,
    λ p w. ap (filter p) (disconnect-track (record s { buffer = m ∷ s.buffer }) ∙ simp list_laws),
  );
  takes = λ m s e i. (tt, λ p w. ap (filter p) (simp list_laws));
  answers = λ r s e i.
      let (j, h) = Tracks-reply s.pending_replies r s refl in
      (j, λ p w. h p w ∙ ap (filter p) (sym (append-nil (track selecting s))));
}

-- A handler that is closed stays closed.
abbrev Closes : Phase → Event → Connection → Connection → Type 0
Closes q e s t = (p : InnerMessage → Bool) → Sees p t.closed → Sees p s.closed

stays_closed :
    (h : Handler) (closed : List Handler) (m : InnerMessage)
    → is_open closed m ≡ false
    → is_open (Set.insert h closed) m ≡ false
unfolding is_open
stays_closed h closed m f = rw (Set.contains-insert h m.cancel_handler closed) (ground (arith, f))

pop_front_closed : (ms : List InnerMessage) (s : Connection) → (pop_front ms s).closed ≡ s.closed
unfolding pop_front
pop_front_closed [] s = refl
pop_front_closed (m ∷ ms) s = elim (Bool-cases (is_open s.closed m)) [
  | inl q ↦ rw q refl
  | inr q ↦ rw q refl
]

reply_closed :
    (ms : List InnerMessage) (r : Option Bytes) (s : Connection) → (reply ms r s).closed ≡ s.closed
unfolding reply disconnect
reply_closed [] r s = refl
reply_closed (m ∷ ms) none s = refl
reply_closed (m ∷ ms) (some x) s = refl

Closes-Cases : Cases Closes
unfolding disconnect
Closes-Cases = record {
  closes = λ h s p w m f. w m (stays_closed h s.closed m f);
  connects = λ s p w. w;
  fails = λ s p w. w;
  times_out = λ s p w. w;
  buffers = λ m s p w. w;
  pops = λ s p w. rw (← pop_front_closed s.buffer s) w;
  writes = λ m s p w. w;
  write_fails = λ m s p w. w;
  takes = λ m s p w. w;
  answers = λ r s p w. rw (← reply_closed s.pending_replies r s) w;
}

run-closes :
    (es : List Event) (s : Connection) {t : Connection}
    → run es s ≡ some t
    → (p : InnerMessage → Bool) → Sees p t.closed
    → Sees p s.closed
unfolding run
run-closes [] s h p w = rw (some-injective h) w
run-closes (e ∷ es) s h p w =
    let (u, q, r) = run-cons e es s h in
    step_in-elim Closes Closes-Cases s.phase e s refl q p (run-closes es u r p w)

run-Same :
    (es : List Event) (s : Connection) {t : Connection}
    → run es s ≡ some t
    → Idle s.phase s.pending_replies
    → Same t (track s.phase s ++ received es)
unfolding run received
run-Same [] s h i p w = rw (← some-injective h) (ap (filter p) (sym (append-nil (track s.phase s))))
run-Same (e ∷ es) s {t} h i p w =
    let (u, q, r) = run-cons e es s h in
    let (j, same) = step_in-elim Tracks Tracks-Cases s.phase e s refl q refl i in
    let now = same p (run-closes es u r p w) in
    run-Same es u r j p w
    ∙ filter-append p (track u.phase u) (received es)
    ∙ ap (λ l. l ++ filter p (received es)) now
    ∙ sym (filter-append p (track s.phase s ++ message_of e) (received es))
    ∙ ap (filter p) (append_assoc (track s.phase s) (message_of e) (received es))

-- Whatever connections, failures and replies the task goes through, the messages that it took from its
-- channel and whose handlers are open are, in the same order and each once, those that it had
-- acknowledged, followed by those that wait for a reply, are being written, or are in the buffer.
pub run-delivers :
    (es : List Event) {t : Connection}
    → run es spawn ≡ some t
    → filter (is_open t.closed) (track t.phase t) ≡ filter (is_open t.closed) (received es)
unfolding track in_writing
run-delivers es {t} h = run-Same es spawn h refl (is_open t.closed) (λ m f. f)
