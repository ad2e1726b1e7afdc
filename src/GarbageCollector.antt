-- ===== src/GarbageCollector.antt =====
-- primary/src/garbage_collector.rs: the round that the other tasks clean up to, and the messages to our
-- workers.
use tusk_ubuntu.Prelude.{
  ◌≡◌, ◌<◌, ◌≤◌, refl, inl, inr, List, [], ◌∷◌, ◌++◌, max, ltb, if◌then◌else◌, Bool-cases, arith,
}
use tusk_ubuntu.Messages.{Round, Certificate, cert_round}

-- `consensus_round` is shared with the other tasks; `cleanups` are the rounds sent to our workers.
pub record GarbageCollector : Type 0 where
  pub last_committed_round : Round
  pub consensus_round : Round
  pub cleanups : List Round

unfoldable pub collect : Certificate → GarbageCollector → GarbageCollector
collect x s =
    if ltb s.last_committed_round (cert_round x)
    then record {
      last_committed_round = cert_round x;
      consensus_round = cert_round x;
      cleanups = s.cleanups ++ cert_round x ∷ [];
    }
    else s

unfoldable pub run : List Certificate → GarbageCollector → GarbageCollector
unfolding collect
run [] s = s
run (x ∷ xs) s = run xs (collect x s)

abbrev pub new_garbage_collector : GarbageCollector
new_garbage_collector = record { last_committed_round = 0; consensus_round = 0; cleanups = [] }

abbrev pub highest : List Certificate → Round
highest [] = 0
highest (x ∷ xs) = max (cert_round x) (highest xs)

-- The rounds go up from above `low`, to `high`, which is `low` if there are none.
abbrev pub Climbs : Round → List Round → Round → Type 0
Climbs low [] high = low ≡ high
Climbs low (r ∷ rs) high = (low < r) × Climbs r rs high

Climbs-snoc :
    (low r high : Round) (rs : List Round)
    → Climbs low rs high
    → high < r
    → Climbs low (rs ++ r ∷ []) r
Climbs-snoc low r high [] c l = (omega (arith, c, l), refl)
Climbs-snoc low r high (s ∷ rs) c l = (c.0, Climbs-snoc s r high rs c.1 l)

run-from :
    (xs : List Certificate) (s : GarbageCollector)
    → s.consensus_round ≡ s.last_committed_round
    → Climbs 0 s.cleanups s.consensus_round
    → ((run xs s).consensus_round ≡ max s.consensus_round (highest xs))
      × Climbs 0 (run xs s).cleanups (run xs s).consensus_round
unfolding run collect
run-from [] s e c = (omega arith, c)
run-from (x ∷ xs) s e c = elim (Bool-cases (ltb s.last_committed_round (cert_round x))) [
  | inl q ↦
      let l : s.last_committed_round < cert_round x = ground arith in
      let (m, d) =
        run-from xs
          (record {
            last_committed_round = cert_round x;
            consensus_round = cert_round x;
            cleanups = s.cleanups ++ cert_round x ∷ [];
          })
          refl (Climbs-snoc 0 (cert_round x) s.consensus_round s.cleanups c (rw e l)) in
      rw (run, q) (omega (arith, m, l, e), d)
  | inr q ↦
      let l : cert_round x ≤ s.last_committed_round = ground arith in
      let (m, d) = run-from xs s e c in rw (run, q) (omega (arith, m, l, e), d)
]

-- After any sequence of certificates from consensus, in whatever order, the shared round is the highest
-- round among them, and the rounds that were sent to our workers go up strictly and end with it.
pub run-highest :
    (xs : List Certificate)
    → ((run xs new_garbage_collector).consensus_round ≡ highest xs)
      × Climbs 0
          (run xs new_garbage_collector).cleanups
          (run xs new_garbage_collector).consensus_round
run-highest xs = let (m, d) = run-from xs new_garbage_collector refl refl in (omega (arith, m), d)
