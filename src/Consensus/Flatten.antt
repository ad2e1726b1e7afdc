-- ===== src/Consensus/Flatten.antt =====
-- consensus/src/lib.rs, `order_dag`: the depth-first search from a leader.
pub mod Returns
pub mod Search
pub mod Ancestors
pub mod Once
pub mod Fresh
use tusk_ubuntu.Prelude.Outcome.{Outcome, returned, exhausted, ◌>>=◌}
use tusk_ubuntu.Prelude.{
  ℕ, zero, suc, ◌+◌, Bool, false, ◌||◌, Option, none, some, List, [], ◌∷◌, ◌++◌, filter, find,
  length, leb, ◌==◌, if◌then◌else◌, u64_add, u64_sub,
}
use tusk_ubuntu.Prelude.Map
use tusk_ubuntu.Prelude.Set
use tusk_ubuntu.Prelude.Sort.{sort_by}
use tusk_ubuntu.Crypto.{Digest}
use tusk_ubuntu.Messages.{Round, Certificate, cert_round, cert_origin}
use tusk_ubuntu.Consensus.{Entry, Dag, State, values, round_of}

-- `order_dag`: the entry of a parent, whether it is skipped, and the loop over the parents. The head
-- of `buffer` is the end of the source's vector.
unfoldable pub find_parent : Dag → Certificate → Digest → Option Entry
unfolding round_of
find_parent dag x parent =
    find (λ e. e.0 == parent) (values (round_of dag (u64_sub (cert_round x) 1)))

unfoldable pub skips : State → List Digest → Entry → Bool
skips s already e = Set.contains e.0 already || elim (Map.get (cert_origin e.1) s.last_committed) [
  | none ↦ false
  | some r ↦ r == cert_round e.1
]

unfoldable pub push_parent :
    State → Option Entry → List Certificate × List Digest → List Certificate × List Digest
unfolding skips
push_parent s none (buffer, already) = (buffer, already)
push_parent s (some e) (buffer, already) =
    if skips s already e then (buffer, already) else (e.1 ∷ buffer, Set.insert e.0 already)

unfoldable pub push_parents :
    State
    → Certificate
    → List Digest
    → List Certificate × List Digest
    → List Certificate × List Digest
unfolding push_parent find_parent
push_parents s x [] work = work
push_parents s x (d ∷ ds) work = push_parents s x ds (push_parent s (find_parent s.dag x d) work)

unfoldable pub flatten_loop :
    ℕ → State → List Certificate × List Digest → List Certificate → Outcome (List Certificate)
unfolding push_parents
flatten_loop zero s work ordered = exhausted
flatten_loop (suc fuel) s ([], already) ordered = returned ordered
flatten_loop (suc fuel) s (x ∷ buffer, already) ordered =
    flatten_loop fuel s (push_parents s x x.header.parents (buffer, already)) (ordered ++ x ∷ [])

-- Enough for every entry of the DAG to be pushed once.
unfoldable pub dag_size : Dag → ℕ
dag_size [] = 0
dag_size ((_, authorities) ∷ dag) = length authorities + dag_size dag

-- What `order_dag` does with the certificates it found: drop the old ones, and sort by round.
abbrev pub by_round : Certificate → Certificate → Bool
by_round a b = leb (cert_round a) (cert_round b)

unfoldable pub finish : Round → State → List Certificate → List Certificate
finish gc_depth s ordered =
    sort_by by_round
      (filter (λ y. leb s.last_committed_round (u64_add (cert_round y) gc_depth)) ordered)

unfoldable pub order_dag : Round → Certificate → State → Outcome (List Certificate)
unfolding flatten_loop dag_size finish
order_dag gc_depth x s = do
  ordered ← flatten_loop (dag_size s.dag + 2) s (x ∷ [], []) []
  returned (finish gc_depth s ordered)
