-- ===== src/Consensus/Flatten/Returns.antt =====
-- consensus/src/lib.rs, `order_dag`: how long the search runs. What is pushed has a digest in the DAG
-- that was not pushed before.
use tusk_ubuntu.Prelude.{
  ℕ, zero, suc, ◌+◌, ◌≤◌, ◌<◌, ◌≡◌, refl, inl, inr, false, not, some, List, [], ◌∷◌, ◌++◌, length,
  filter, In, here, there, In-append_left, In-append_right, find-In, arith, ◌==◌, if◌then◌else◌,
  Bool-cases, Option-cases, ap, length-append, length-map, length-filter-le, u64_sub,
}
use tusk_ubuntu.Prelude.Map
use tusk_ubuntu.Prelude.Set
use tusk_ubuntu.Prelude.Outcome.{returned}
use tusk_ubuntu.Config.{PublicKey}
use tusk_ubuntu.Crypto.{Digest}
use tusk_ubuntu.Messages.{Round, Certificate, cert_round}
use tusk_ubuntu.Consensus.{Entry, Dag, State, values, round_of}
use tusk_ubuntu.Consensus.Flatten.{
  find_parent, skips, push_parent, push_parents, flatten_loop, dag_size, finish, order_dag,
}

-- All the entries of the DAG.
unfoldable pub entries : Dag → List Entry
entries [] = []
entries ((_, authorities) ∷ dag) = values authorities ++ entries dag

dag_size-length : (dag : Dag) → dag_size dag ≡ length (entries dag)
unfolding dag_size entries
dag_size-length [] = refl
dag_size-length ((r, authorities) ∷ dag) = omega (
  arith,
  dag_size-length dag,
  length-append (values authorities) (entries dag),
  length-map (λ (e : PublicKey × Entry). e.1) authorities,
)

round_of-cons :
    (r k : Round) (authorities : List (PublicKey × Entry)) (dag : Dag)
    → round_of ((k, authorities) ∷ dag) r ≡ (if k == r then authorities else round_of dag r)
unfolding round_of Map.entry_or Map.get
round_of-cons r k authorities dag = ground arith

round_of-nil : (r : Round) → round_of [] r ≡ []
unfolding round_of Map.entry_or Map.get
round_of-nil r = refl

pub round_of-entries :
    (dag : Dag) (r : Round) {e : Entry} → In e (values (round_of dag r)) → In e (entries dag)
unfolding entries
round_of-entries [] r {e} i = rw (round_of-nil r) at i
round_of-entries ((k, authorities) ∷ dag) r {e} i = elim (Bool-cases (k == r)) [
  | inl q ↦
      let j : In e (values authorities) = rw (round_of-cons r k authorities dag, q) at i in
      In-append_left (values authorities) (entries dag) j
  | inr q ↦
      let j : In e (values (round_of dag r)) = rw (round_of-cons r k authorities dag, q) at i in
      In-append_right (values authorities) (entries dag) (round_of-entries dag r j)
]

pub find_parent-In :
    (dag : Dag) (x : Certificate) (d : Digest) (e : Entry)
    → find_parent dag x d ≡ some e
    → In e (entries dag) × (e.0 ≡ d)
unfolding find_parent
find_parent-In dag x d e h =
    let (i, t) =
      find-In (λ (e : Entry). e.0 == d) (values (round_of dag (u64_sub (cert_round x) 1))) e h in
    (round_of-entries dag (u64_sub (cert_round x) 1) i, ground (arith, t))

-- The entries whose digest was not pushed yet.
unseen : List Digest → List Entry → ℕ
unseen already es = length (filter (λ e. not (Set.contains e.0 already)) es)

unseen-insert-le :
    (d : Digest) (already : List Digest) (es : List Entry)
    → unseen (Set.insert d already) es ≤ unseen already es
unfolding unseen
unseen-insert-le d already [] = omega arith
unseen-insert-le d already (e ∷ es) =
    ground (arith, unseen-insert-le d already es, Set.contains-insert d e.0 already)

unseen-insert-lt :
    (e : Entry) (already : List Digest) (es : List Entry)
    → In e es
    → Set.contains e.0 already ≡ false
    → unseen (Set.insert e.0 already) es < unseen already es
unfolding unseen
unseen-insert-lt e already [] i h = elim i [ ]
unseen-insert-lt e already (x ∷ es) (here q) h =
    let q' = ap (λ (y : Entry). y.0) q in
    let l : unseen (Set.insert e.0 already) es ≤ unseen already es =
      unseen-insert-le e.0 already es in
    ground (arith, q', l, h, Set.contains-insert e.0 x.0 already)
unseen-insert-lt e already (x ∷ es) (there i) h =
    ground (arith, unseen-insert-lt e already es i h, Set.contains-insert e.0 x.0 already)

-- The work left: what is on the stack, and what can still be pushed.
abbrev work_left : State → List Certificate × List Digest → ℕ
work_left s work = length work.0 + unseen work.1 (entries s.dag)

push_parent-le :
    (s : State) (x : Certificate) (d : Digest) (work : List Certificate × List Digest)
    → work_left s (push_parent s (find_parent s.dag x d) work) ≤ work_left s work
unfolding push_parent skips
push_parent-le s x d (buffer, already) = elim (Option-cases (find_parent s.dag x d)) [
  | inl h ↦ rw h (omega arith)
  | inr (e, h) ↦ elim (Bool-cases (Set.contains e.0 already)) [
    | inl q ↦ rw h (ground (arith, q))
    | inr q ↦
        let l = unseen-insert-lt e already (entries s.dag) (find_parent-In s.dag x d e h).0 q in
        rw h (ground (arith, q, l))
  ]
]

push_parents-le :
    (s : State) (x : Certificate) (ds : List Digest) (work : List Certificate × List Digest)
    → work_left s (push_parents s x ds work) ≤ work_left s work
unfolding push_parents
push_parents-le s x [] work = omega arith
push_parents-le s x (d ∷ ds) work = omega (
  arith,
  push_parent-le s x d work,
  push_parents-le s x ds (push_parent s (find_parent s.dag x d) work),
)

flatten_loop-returns :
    (fuel : ℕ) (s : State) (work : List Certificate × List Digest) (ordered : List Certificate)
    → work_left s work < fuel
    → (ys : List Certificate) × (flatten_loop fuel s work ordered ≡ returned ys)
unfolding flatten_loop
flatten_loop-returns zero s work ordered h = absurd (omega arith)
flatten_loop-returns (suc fuel) s ([], already) ordered h = (ordered, refl)
flatten_loop-returns (suc fuel) s (x ∷ buffer, already) ordered h =
    flatten_loop-returns fuel s (push_parents s x x.header.parents (buffer, already))
      (ordered ++ x ∷ []) (omega (arith, push_parents-le s x x.header.parents (buffer, already)))

-- In every state, the search from any certificate ends within the fuel that `order_dag` gives it, and
-- returns a list.
pub order_dag-returns :
    (gc_depth : Round) (x : Certificate) (s : State)
    → (ys : List Certificate) × (order_dag gc_depth x s ≡ returned ys)
unfolding order_dag unseen
order_dag-returns gc_depth x s =
    let (ys, e) =
      flatten_loop-returns (dag_size s.dag + 2) s (x ∷ [], []) []
        (omega (
          arith,
          dag_size-length s.dag,
          length-filter-le (λ (y : Entry). not (Set.contains y.0 [])) (entries s.dag),
        )) in
    (finish gc_depth s ys, rw e)
