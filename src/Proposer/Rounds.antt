-- ===== src/Proposer/Rounds.antt =====
-- primary/src/proposer.rs: the rounds of the headers that the proposer makes.
use tusk_ubuntu.Prelude.{
  ℕ, ◌≡◌, ◌≢◌, ◌+◌, ◌≤◌, ◌<◌, refl, inl, inr, Bool, true, false, not, ◌&&◌, ◌||◌, List, [], ◌∷◌,
  ◌++◌, length, ltb, leb, ◌==◌, if◌then◌else◌, Bool-cases, &&_parts, All, All-append, arith,
  u64_add, u64_mod,
}
use tusk_ubuntu.Crypto.{Digest}
use tusk_ubuntu.Messages.{Round, Header, new_header}
use tusk_ubuntu.Proposer.{
  Setup, Proposer, Event, parents, batch, timer, is_silent_in, enter_round, make_header, propose,
  receive, turn, run, start,
}

-- The rounds go up, from above `low`.
abbrev pub Ascending : Round → List Header → Type 0
Ascending low [] = Unit
Ascending low (h ∷ hs) = (low < h.round) × Ascending h.round hs

Ascending-snoc :
    (low : Round) (hs : List Header) (h : Header)
    → Ascending low hs
    → low < h.round
    → All (λ k. k.round < h.round) hs
    → Ascending low (hs ++ h ∷ [])
Ascending-snoc low [] h a l b = (l, tt)
Ascending-snoc low (k ∷ hs) h a l b = (a.0, Ascending-snoc k.round hs h a.1 b.0 b.1)

All-weaken :
    {P Q : Header → Type 0} (hs : List Header) → ((h : Header) → P h → Q h) → All P hs → All Q hs
All-weaken [] f a = tt
All-weaken (h ∷ hs) f a = (f h a.0, All-weaken hs f a.1)

nonempty : (ds : List Digest) → not (length ds == 0) ≡ true → ds ≢ []
nonempty [] h = absurd (cc)
nonempty (d ∷ ds) h = λ e. cc

-- A round that the core sends with parents has a round after it.
abbrev pub IsBounded : Bool × Event → Type 0
IsBounded (_, parents _ round) = round + 1 < u64_mod
IsBounded (_, batch _ _) = Unit
IsBounded (_, timer) = Unit

module _ (setup : Setup) where
  -- The header is of this authority, and of a round in which it is not to be silent.
  abbrev pub IsAllowed : Header → Type 0
  IsAllowed h = (h.author ≡ setup.name) × (is_silent_in setup h.round ≡ false)

  record Sound (s : Proposer) : Type 0 where
    ascending : Ascending 0 s.headers
    positive : 0 < s.round
    past : All (λ h. h.round ≤ s.round) s.headers
    fresh : s.last_parents ≢ [] → All (λ h. h.round < s.round) s.headers
    allowed : All IsAllowed s.headers
    silence : s.silent ≡ is_silent_in setup s.round

  make_header-Sound :
      (s : Proposer)
      → Sound s
      → s.last_parents ≢ []
      → s.silent ≡ false
      → Sound (make_header setup s)
  unfolding make_header new_header
  make_header-Sound s v ne q = record {
    ascending = Ascending-snoc 0 s.headers _ v.ascending v.positive (v.fresh ne);
    positive = v.positive;
    past = All-append (λ h. h.round ≤ s.round) s.headers _ v.past (omega arith, tt);
    fresh = λ n. absurd (n refl);
    allowed = All-append IsAllowed s.headers _ v.allowed ((refl, rw (← v.silence) q), tt);
    silence = v.silence;
  }

  drained : (s : Proposer) → Sound s → Sound (record s { last_parents = [] })
  drained s v = record {
    ascending = v.ascending;
    positive = v.positive;
    past = v.past;
    fresh = λ n. absurd (n refl);
    allowed = v.allowed;
    silence = v.silence;
  }

  spent : (n : ℕ) (s : Proposer) → Sound s → Sound (record s { payload_size = n })
  spent n s v = record {
    ascending = v.ascending;
    positive = v.positive;
    past = v.past;
    fresh = v.fresh;
    allowed = v.allowed;
    silence = v.silence;
  }

  if-Sound :
      (b : Bool) (x y : Proposer) → Sound x → (b ≡ false → Sound y) → Sound (if b then x else y)
  if-Sound true x y f g = f
  if-Sound false x y f g = g refl

  propose-Sound : (expired : Bool) (s : Proposer) → Sound s → Sound (propose setup expired s)
  unfolding propose make_header new_header
  propose-Sound expired s v =
      elim (Bool-cases
        ((expired || leb setup.header_size s.payload_size) && not (length s.last_parents == 0))) [
          | inr q ↦ rw q v
          | inl q ↦
              let ne = nonempty s.last_parents (&&_parts _ _ q).1 in
              rw q (
                if-Sound s.silent _ _ (drained s v)
                  λ t. spent 0 (make_header setup s) (make_header-Sound s v ne t))
        ]

  entered :
      (round : Round) (ds : List Digest) (sent : List (Round × Bool)) (s : Proposer)
      → Sound s
      → s.round < round
      → Sound (record s {
        round = round;
        silent = is_silent_in setup round;
        last_parents = ds;
        batch_silent = sent;
      })
  entered round ds sent s v l = record {
    ascending = v.ascending;
    positive = omega (arith, v.positive, l);
    past = All-weaken s.headers (λ h k. omega (arith, k, l)) v.past;
    fresh = λ n. All-weaken s.headers (λ h k. omega (arith, k, l)) v.past;
    allowed = v.allowed;
    silence = refl;
  }

  enter_round-Sound :
      (round : Round) (ds : List Digest) (s : Proposer)
      → Sound s
      → s.round < round
      → Sound (record (enter_round setup round s) { last_parents = ds })
  unfolding enter_round is_silent_in
  enter_round-Sound round ds s v l = elim (Bool-cases (setup.adversary_faults == 0)) [
    | inl q ↦ rw q (entered round ds s.batch_silent s v l)
    | inr q ↦ rw q (entered round ds _ s v l)
  ]

  receive-Sound :
      (expired : Bool) (e : Event) (s : Proposer)
      → IsBounded (expired, e)
      → Sound s
      → Sound (receive setup e s)
  unfolding receive
  receive-Sound expired (parents ds round) s b v = elim (Bool-cases (ltb round s.round)) [
    | inl q ↦ rw q v
    | inr q ↦ rw q (enter_round-Sound (u64_add round 1) ds s v (ground arith))
  ]
  receive-Sound expired (batch d w) s b v = record {
    ascending = v.ascending;
    positive = v.positive;
    past = v.past;
    fresh = v.fresh;
    allowed = v.allowed;
    silence = v.silence;
  }
  receive-Sound expired timer s b v = v

  run-Sound :
      (turns : List (Bool × Event)) (s : Proposer)
      → All IsBounded turns
      → Sound s
      → Sound (run setup turns s)
  unfolding run turn
  run-Sound [] s b v = v
  run-Sound ((expired, e) ∷ turns) s b v =
      run-Sound turns (receive setup e (propose setup expired s)) b.1
        (receive-Sound expired e (propose setup expired s) b.0 (propose-Sound expired s v))

  began :
      (genesis : List Digest) (sent : List (Round × Bool))
      → Sound (record {
        round = 1;
        silent = is_silent_in setup 1;
        last_parents = genesis;
        digests = [];
        payload_size = 0;
        headers = [];
        batch_silent = sent;
      })
  began genesis sent = record {
    ascending = tt;
    positive = omega arith;
    past = tt;
    fresh = λ n. tt;
    allowed = tt;
    silence = refl;
  }

  start-Sound : (genesis : List Digest) → Sound (start setup genesis)
  unfolding start enter_round is_silent_in
  start-Sound genesis = elim (Bool-cases (setup.adversary_faults == 0)) [
    | inl q ↦ rw q (began genesis [])
    | inr q ↦ rw q (began genesis _)
  ]

  -- From its start, over any sequence of turns in which the core sends no parents of the last `u64`
  -- round, the proposer makes headers of strictly increasing rounds, so never two for one round. Each
  -- is of its own authority, and of a round in which the adversary's schedule does not silence it.
  pub run-Ascending :
      (genesis : List Digest) (turns : List (Bool × Event))
      → All IsBounded turns
      → Ascending 0 (run setup turns (start setup genesis)).headers
        × All IsAllowed (run setup turns (start setup genesis)).headers
  run-Ascending genesis turns b =
      let v = run-Sound turns (start setup genesis) b (start-Sound genesis) in
      (v.ascending, v.allowed)
