-- ===== src/Consensus/Process.antt =====
-- consensus/src/lib.rs, `run`: what one certificate does to the state, and the sequence it commits.
pub mod Support
pub mod Commits
pub mod Once
pub mod Sequence
pub mod Returns
pub mod Leader
use tusk_ubuntu.Prelude.Outcome.{Outcome, returned, ◌>>=◌, expect}
use tusk_ubuntu.Prelude.{
  ◌%◌, Bool, true, false, not, ◌||◌, none, some, List, [], ◌∷◌, ◌++◌, map, leb, ltb, ◌==◌,
  if◌then◌else◌, u32_add, u64_sub,
}
use mathlib.Core.List.{reverse}
use tusk_ubuntu.Prelude.Map
use tusk_ubuntu.Prelude.Set
use tusk_ubuntu.Config.{PublicKey, Stake, Committee, stake, validity_threshold}
use tusk_ubuntu.Crypto.{Digest, Primitives}
use tusk_ubuntu.Messages.{Round, Certificate, cert_digest, cert_round, cert_origin}
use tusk_ubuntu.Adversary.{direct_commit_selected}
use tusk_ubuntu.Consensus.{Entry, Dag, State, Setup, round_of, update}
use tusk_ubuntu.Consensus.Leaders.{leader, order_leaders}
use tusk_ubuntu.Consensus.Flatten.{order_dag}

-- The stake of the certificates of a round that have the digest among their parents.
unfoldable pub support : Committee → Digest → List (PublicKey × Entry) → Stake
support c digest [] = 0
support c digest ((_, (_, x)) ∷ rest) =
    let others = support c digest rest in
    if Set.contains digest x.header.parents
    then u32_add (stake c (cert_origin x)) others
    else others

module _ (p : Primitives) where
  -- A certificate enters the DAG under its round and origin.
  unfoldable pub add_certificate : Certificate → Dag → Dag
  unfolding round_of
  add_certificate x dag =
      Map.insert (cert_round x)
        (Map.insert (cert_origin x) (cert_digest p x, x) (round_of dag (cert_round x))) dag

  -- Whether an ordered certificate is the leader of its round.
  unfoldable pub is_leader : Committee → Certificate → Dag → Outcome Bool
  unfolding leader
  is_leader c x dag = elim (cert_round x % 2 == 0) [
    | false ↦ returned false
    | true ↦ leader c (cert_round x) dag >>= λ found. elim found [
      | none ↦ returned false
      | some e ↦ returned (e.0 == cert_digest p x)
    ]
  ]

  -- The two nested loops of the commit: over the leaders, and over what each of them orders.
  unfoldable pub commit_ordered :
      Setup
      → List Certificate
      → State
      → List (Certificate × Bool)
      → Outcome (State × List (Certificate × Bool))
  unfolding is_leader update
  commit_ordered setup [] s sequence = returned (s, sequence)
  commit_ordered setup (x ∷ xs) s sequence = do
    lead ← is_leader setup.committee x s.dag
    commit_ordered setup xs (update s x setup.gc_depth) (sequence ++ (x, lead) ∷ [])

  unfoldable pub commit_leaders :
      Setup
      → List Certificate
      → State
      → List (Certificate × Bool)
      → Outcome (State × List (Certificate × Bool))
  unfolding commit_ordered order_dag
  commit_leaders setup [] s sequence = returned (s, sequence)
  commit_leaders setup (x ∷ xs) s sequence = do
    ordered ← order_dag setup.gc_depth x s
    (s', sequence') ← commit_ordered setup ordered s sequence
    commit_leaders setup xs s' sequence'

  -- What follows once the leader of round `r - 2` is known.
  unfoldable pub try_commit :
      Setup → Round → Entry → State → Outcome (State × List (Certificate × Bool))
  unfolding support order_leaders commit_leaders
  try_commit setup r (digest, x) s = do
    authorities ← expect (Map.get (u64_sub r 1) s.dag)
    elim (ltb (support setup.committee digest authorities) (validity_threshold setup.committee)) [
      | true ↦ returned (s, [])
      | false ↦ order_leaders setup.committee x s >>= λ leaders.
          commit_leaders setup (reverse leaders) s []
    ]

  -- The body of the main loop, for one certificate: the new state and the committed sequence.
  unfoldable pub process : Setup → State → Certificate → Outcome (State × List (Certificate × Bool))
  unfolding add_certificate leader try_commit
  process setup s x =
      let s' : State = record s { dag = add_certificate x s.dag } in
      let r = u64_sub (cert_round x) 1 in
      let leader_round = u64_sub r 2 in
      let keys = map (λ e. e.0) setup.committee.authorities in
      if not (r % 2 == 0) || ltb r 4
      then returned (s', [])
      else if leb leader_round s'.last_committed_round
      then returned (s', [])
      else if not (direct_commit_selected p keys leader_round setup.faults setup.seed)
      then returned (s', [])
      else leader setup.committee leader_round s'.dag >>= λ found. elim found [
        | none ↦ returned (s', [])
        | some e ↦ try_commit setup r e s'
      ]

  -- The main loop, over the certificates that it receives.
  unfoldable pub run :
      Setup
      → List Certificate
      → State
      → List (Certificate × Bool)
      → Outcome (State × List (Certificate × Bool))
  unfolding process
  run setup [] s sequence = returned (s, sequence)
  run setup (x ∷ xs) s sequence = do
    (s', committed) ← process setup s x
    run setup xs s' (sequence ++ committed)
