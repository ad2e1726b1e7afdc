-- ===== src/Tests/Sequence.antt =====
-- What the main loop of the consensus commits, on the DAG of the sample.
use tusk_ubuntu.Prelude.{
  ℕ, ◌+◌, ◌≡◌, ◌<◌, ◌≤◌, ◌∙◌, sym, some, u64_mod, refl, Bool, List, [], ◌∷◌, In, arith, be_bytes32,
}
use tusk_ubuntu.Prelude.Map
use tusk_ubuntu.Prelude.Set
use tusk_ubuntu.Prelude.Set.{Distinct}
use tusk_ubuntu.Prelude.Outcome.{returned}
use tusk_ubuntu.Config.{PublicKey, validity_threshold, stake}
use tusk_ubuntu.Messages.{Round, Certificate, cert_round, cert_origin, cert_digest}
use tusk_ubuntu.Consensus.{State, round_of, max_round}
use tusk_ubuntu.Consensus.Cleanup.{entry_of}
use tusk_ubuntu.Consensus.WellFormed.{WellFormed, insert-WellFormed}
use tusk_ubuntu.Consensus.Process.{support, process, run}
use tusk_ubuntu.Consensus.Flatten.Once.{times}
use tusk_ubuntu.Consensus.Process.Once.{certificates}
use tusk_ubuntu.Consensus.Process.Sequence.{run-once}
use tusk_ubuntu.Consensus.Process.Leader.{process_commits}
use tusk_ubuntu.Consensus.Process.Commits.{HasSupport, grown}
use tusk_ubuntu.Adversary.{direct_commit_selected}
use tusk_ubuntu.Prelude.Sort.{sort_by}
use tusk_ubuntu.Tests.Samples.{stub, certified}
use tusk_ubuntu.Tests.Dag.{named, above, state, setup, lead, fifth, out, fifth-out}

-- The state before the certificates of rounds 2 to 4.
abbrev empty : State
empty = record state { dag = [] }

empty-WellFormed : WellFormed empty
unfolding entry_of round_of Map.entry_or Map.get max_round
empty-WellFormed = record {
  rounds = tt;
  authors = tt;
  placed = λ r n e h. absurd (cc);
  bounded = λ r n e h. absurd (cc);
  current = λ r n e last h g. absurd (cc);
  sound = omega arith;
}

-- A certificate of an author of whom nothing but genesis is committed.
enter :
    {s : State} (d : ℕ) (x : Certificate)
    → WellFormed s
    → cert_round x + 1 < u64_mod
    → Map.get (cert_origin x) s.last_committed ≡ some 0
    → WellFormed (record s {
      dag =
          Map.insert
            (cert_round x)
            (Map.insert (cert_origin x) (d, x) (round_of s.dag (cert_round x)))
            s.dag;
    })
enter {s} d x w b z =
    insert-WellFormed s d x w b (λ last g. omega (arith, some-injective (sym z ∙ g)))
  where
    some-injective : {a b : ℕ} → some a ≡ some b → a ≡ b
    some-injective h = cc

second_round-WellFormed : WellFormed (record state { dag = (2, above 1) ∷ [] })
unfolding Map.get Map.insert Map.entry_or round_of
second_round-WellFormed =
    enter 204 (certified 4 2 (named 1))
      (enter 203 (certified 3 2 (named 1))
        (enter 202 (certified 2 2 (named 1))
          (enter 201 (certified 1 2 (named 1)) empty-WellFormed (omega arith) refl) (omega arith)
          refl)
        (omega arith) refl)
      (omega arith) refl

third_round-WellFormed : WellFormed (record state { dag = (2, above 1) ∷ (3, above 2) ∷ [] })
unfolding Map.get Map.insert Map.entry_or round_of
third_round-WellFormed =
    enter 304 (certified 4 3 (named 2))
      (enter 303 (certified 3 3 (named 2))
        (enter 302 (certified 2 3 (named 2))
          (enter 301 (certified 1 3 (named 2)) second_round-WellFormed (omega arith) refl)
          (omega arith) refl)
        (omega arith) refl)
      (omega arith) refl

state-WellFormed : WellFormed state
unfolding Map.get Map.insert Map.entry_or round_of
state-WellFormed =
    enter 404 (certified 4 4 (named 3))
      (enter 403 (certified 3 4 (named 3))
        (enter 402 (certified 2 4 (named 3))
          (enter 401 (certified 1 4 (named 3)) third_round-WellFormed (omega arith) refl)
          (omega arith) refl)
        (omega arith) refl)
      (omega arith) refl

fifth_late : (last : Round) → Map.get 1 state.last_committed ≡ some last → last ≤ 5
unfolding Map.get
fifth_late last g = omega (arith, some-injective g)
  where
    some-injective : {a b : ℕ} → some a ≡ some b → a ≡ b
    some-injective h = cc

run-once_example :
    WellFormed out.0
    × ((r : Round) (n : PublicKey) → times r n (certificates out.1) ≤ 1)
    × ((r last : Round) (n : PublicKey)
        → Map.get n state.last_committed ≡ some last
        → r ≤ last
        → times r n (certificates out.1) ≡ 0)
unfolding run
run-once_example =
    run-once stub setup (fifth ∷ []) state out state-WellFormed (omega arith, fifth_late, λ o h. tt)
      (rw fifth-out refl)

fifth-HasSupport : HasSupport stub setup 4 lead (grown stub state fifth)
unfolding process support stake validity_threshold Map.insert Set.contains Map.get cert_digest
    be_bytes32
fifth-HasSupport = record { authorities = above 2; known = refl; enough = omega arith }

process_commits_example :
    (o : State × List (Certificate × Bool)) × (process stub setup state fifth ≡ returned o)
    × In lead.1 (certificates o.1)
unfolding process direct_commit_selected sort_by Map.entry_or Map.insert Set.contains cert_digest
    be_bytes32
process_commits_example =
    process_commits stub setup state fifth state-WellFormed (omega arith) fifth_late
      (record {
        even = refl;
        late = omega arith;
        ahead = omega arith;
        allowed = refl;
        entry = lead;
        elected = refl;
      })
      fifth-HasSupport (λ r a b. absurd (omega (arith, a, b)))
