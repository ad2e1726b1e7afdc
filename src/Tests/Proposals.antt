-- ===== src/Tests/Proposals.antt =====
-- The properties of the proposer, at concrete inputs.
use tusk_ubuntu.Prelude.{◌≡◌, Bool, true, false, List, [], ◌∷◌, All, arith}
use tusk_ubuntu.Proposer
use tusk_ubuntu.Proposer.{Setup, Event, parents, batch, timer}
use tusk_ubuntu.Proposer.Digests.{IsCounted, has, mentions, reported, run-reports}
use tusk_ubuntu.Proposer.Rounds.{Ascending, IsAllowed, run-Ascending}
use tusk_ubuntu.Tests.Samples.{stub}

abbrev proposer_setup : Proposer.Setup
proposer_setup = record {
  name = 1;
  authorities = 1 ∷ 2 ∷ 3 ∷ 4 ∷ [];
  adversary_faults = 1;
  adversary_seed = 3;
  pause_batches_during_silence = true;
  header_size = 1000;
  primitives = stub;
}

-- A batch arrives, the timer ends, and parents of round 1 and then of round 2 arrive.
abbrev turns : List (Bool × Event)
turns =
    (false, batch 5 0)
    ∷ (true, parents (1 ∷ 2 ∷ 3 ∷ []) 1)
    ∷ (true, parents (4 ∷ 5 ∷ 6 ∷ []) 2)
    ∷ (true, timer)
    ∷ []

run-Ascending_example :
    Ascending 0 (Proposer.run proposer_setup turns (Proposer.start proposer_setup (7 ∷ []))).headers
    × All
        (IsAllowed proposer_setup)
        (Proposer.run proposer_setup turns (Proposer.start proposer_setup (7 ∷ []))).headers
run-Ascending_example =
    run-Ascending proposer_setup (7 ∷ []) turns (tt, (omega arith, (omega arith, (tt, tt))))

run-reports_example :
    (has 5 (Proposer.run proposer_setup turns (Proposer.start proposer_setup (7 ∷ [])))
      ≡ mentions 5 (reported turns))
    × IsCounted (Proposer.run proposer_setup turns (Proposer.start proposer_setup (7 ∷ [])))
run-reports_example = run-reports proposer_setup (7 ∷ []) turns 5
