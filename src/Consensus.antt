-- ===== src/Consensus.antt =====
-- consensus/src/lib.rs: the Tusk commit rule over the local view of the DAG. A `HashMap` is the list of
-- its entries in iteration order, which is arbitrary. `returned` is a value,
-- `panicked` a failed `expect` or index, and `exhausted` a loop that was given too little fuel. Logs are
-- left out, and the two output channels receive the sequence that `process` returns.
pub mod Cleanup
pub mod WellFormed
pub mod Leaders
pub mod Flatten
pub mod Process
use tusk_ubuntu.Prelude.Outcome.{Outcome, returned, panicked, exhausted, ◌>>=◌, expect}
use tusk_ubuntu.Prelude.{
  ℕ, zero, suc, ◌+◌, ◌-◌, ◌*◌, ◌/◌, ◌%◌, max, Bool, true, false, not, ◌&&◌, ◌||◌, Option, none,
  some, List, [], ◌∷◌, ◌++◌, map, filter, find, any, length, get_elem?, sum, leb, ltb, ◌==◌,
  if◌then◌else◌, u32_add, u64_add, u64_sub,
}
use mathlib.Core.List.{reverse}
use tusk_ubuntu.Prelude.Map
use tusk_ubuntu.Prelude.Set
use tusk_ubuntu.Prelude.Sort.{sort_by, range}
use tusk_ubuntu.Config.{PublicKey, Stake, Committee, size, stake, validity_threshold}
use tusk_ubuntu.Crypto.{Digest, Primitives}
use tusk_ubuntu.Messages.{Round, Certificate, cert_digest, cert_round, cert_origin, certificate_eq}
use tusk_ubuntu.Adversary.{direct_commit_selected}

abbrev pub Entry : Type 0
Entry = Digest × Certificate

abbrev pub Dag : Type 0
Dag = List (Round × List (PublicKey × Entry))

pub record State : Type 0 where
  pub last_committed_round : Round
  pub last_committed : List (PublicKey × Round)
  pub dag : Dag

-- What `Consensus` holds besides its channels, with the variables that it reads from the environment.
pub record Setup : Type 0 where
  pub committee : Committee
  pub gc_depth : Round
  pub faults : ℕ
  pub seed : ℕ

-- `map(|(_, x)| ..)` over `values()`.
abbrev pub values {ℓ} : {V : Type ℓ} → List (ℕ × V) → List V
values m = map (λ e. e.1) m

unfoldable pub round_of : Dag → Round → List (PublicKey × Entry)
unfolding Map.get
round_of dag r = Map.entry_or r [] dag

-- `State::update`: the loop's body for one authority, and the loop.
unfoldable pub retain_round : PublicKey → Round → Round → Round → Dag → Dag
retain_round name round gc_depth last [] = []
retain_round name round gc_depth last ((r, authorities) ∷ dag) =
    let kept = Map.retain (λ n _. not (n == name) || leb round r) authorities in
    let rest = retain_round name round gc_depth last dag in
    if not (length kept == 0) && leb last (u64_add r gc_depth) then (r, kept) ∷ rest else rest

unfoldable pub clean_dag : List (PublicKey × Round) → Round → Round → Dag → Dag
unfolding retain_round
clean_dag [] gc_depth last dag = dag
clean_dag ((name, round) ∷ committed) gc_depth last dag =
    clean_dag committed gc_depth last (retain_round name round gc_depth last dag)

unfoldable pub max_round : List (PublicKey × Round) → Round
max_round [] = 0
max_round ((_, r) ∷ rest) = max r (max_round rest)

unfoldable pub commit_round :
    PublicKey → Round → List (PublicKey × Round) → List (PublicKey × Round)
commit_round name round committed =
    Map.insert name (elim (Map.get name committed) [ none ↦ round | some r ↦ max r round ])
      committed

unfoldable pub update : State → Certificate → Round → State
unfolding commit_round max_round clean_dag
update s x gc_depth =
    let committed = commit_round (cert_origin x) (cert_round x) s.last_committed in
    let last = max_round committed in
    record {
      last_committed_round = last;
      last_committed = committed;
      dag = clean_dag committed gc_depth last s.dag;
    }

module _ (p : Primitives) where
  unfoldable pub collect_genesis :
      List Certificate → List (PublicKey × Entry) → List (PublicKey × Entry)
  collect_genesis [] m = m
  collect_genesis (x ∷ xs) m =
      collect_genesis xs (Map.insert (cert_origin x) (cert_digest p x, x) m)

  unfoldable pub new_state : List Certificate → State
  unfolding collect_genesis
  new_state xs = record {
    last_committed_round = 0;
    last_committed = map (λ e. (e.0, cert_round e.1.1)) (collect_genesis xs []);
    dag = (0, collect_genesis xs []) ∷ [];
  }
