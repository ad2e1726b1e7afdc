-- ===== src/Consensus/Flatten/Ancestors.antt =====
-- consensus/src/lib.rs, `order_dag`: the leader's uncommitted ancestors.
use tusk_ubuntu.Prelude.{
  ◌+◌, ◌≡◌, ◌↔◌, refl, inl, inr, true, false, some, List, [], ◌∷◌, filter, All-In, In, here, there,
  In-filter, filter-In, In-sort_by, sort_by-In, arith, ◌==◌, leb, Bool-cases, Option-cases, u64_add,
  u64_sub, find, find-In, ap, sym, ◌∙◌,
}
use tusk_ubuntu.Prelude.Map
use tusk_ubuntu.Prelude.Outcome.{returned, returned-injective, >>=-returned}
use tusk_ubuntu.Config.{PublicKey}
use tusk_ubuntu.Crypto.{Digest}
use tusk_ubuntu.Messages.{Round, Certificate, cert_round}
use tusk_ubuntu.Consensus.{Entry, Dag, State, values, round_of}
use tusk_ubuntu.Consensus.Flatten.{find_parent, flatten_loop, dag_size, by_round, finish, order_dag}
use tusk_ubuntu.Consensus.Flatten.Returns.{find_parent-In, round_of-entries}
use tusk_ubuntu.Consensus.Flatten.Search.{
  is_committed, HasUniqueDigests, Reached, origin, child, flatten_loop-Inv, Inv-complete, start-Inv,
}

-- The entry of the DAG that the digest names in the round below the certificate's.
abbrev pub IsParent : Dag → Certificate → Digest → Entry → Type 0
IsParent dag y d e =
    (e.0 ≡ d)
    × (authorities : List (PublicKey × Entry)) × (Map.get (u64_sub (cert_round y) 1) dag
        ≡ some authorities)
    × In e (values authorities)

-- The leader, and the parents of an ancestor that are in the DAG and are not committed.
pub data Ancestor (s : State) (x : Certificate) : Certificate → Type 0 where
  itself : Ancestor s x x
  parent :
      {y : Certificate} (d : Digest) (e : Entry)
      → Ancestor s x y
      → In d y.header.parents
      → IsParent s.dag y d e
      → is_committed s e.1 ≡ false
      → Ancestor s x e.1

round_of-get :
    (dag : Dag) (r : Round) (authorities : List (PublicKey × Entry))
    → Map.get r dag ≡ some authorities
    → round_of dag r ≡ authorities
unfolding round_of Map.entry_or
round_of-get dag r authorities h = rw (round_of, Map.entry_or, h) refl

round_of-held :
    (dag : Dag) (r : Round) (e : Entry)
    → In e (values (round_of dag r))
    → (authorities : List (PublicKey × Entry)) × (Map.get r dag ≡ some authorities)
      × In e (values authorities)
unfolding round_of Map.entry_or
round_of-held dag r e i = elim (Option-cases (Map.get r dag)) [
  | inl n ↦ let none_held : In e [] = rw (round_of, Map.entry_or, n) at i in elim none_held [ ]
  | inr (authorities, q) ↦ (authorities, q, rw (round_of-get dag r authorities q) at i)
]

find_parent-IsParent :
    (dag : Dag) (y : Certificate) (d : Digest) (e : Entry)
    → find_parent dag y d ≡ some e
    → IsParent dag y d e
unfolding find_parent
find_parent-IsParent dag y d e h =
    let r = u64_sub (cert_round y) 1 in
    let (i, t) = find-In (λ (f : Entry). f.0 == d) (values (round_of dag r)) e h in
    let (authorities, h, j) = round_of-held dag r e i in (ground (arith, t), authorities, h, j)

find-found :
    (d : Digest) (es : List Entry) (e : Entry)
    → In e es
    → e.0 ≡ d
    → (f : Entry) × (find (λ (g : Entry). g.0 == d) es ≡ some f)
find-found d [] e i q = elim i [ ]
find-found d (g ∷ es) e i q = elim (Bool-cases (g.0 == d)) [
  | inl t ↦ (g, rw t refl)
  | inr t ↦ let (f, h) = find-found d es e (later i t) q in (f, rw t h)
]
  where
    later : In e (g ∷ es) → (g.0 == d) ≡ false → In e es
    later (here r) t = let same = ap (λ (z : Entry). z.0) r in absurd (ground (arith, q, same))
    later (there j) t = j

IsParent-find_parent :
    (dag : Dag) (y : Certificate) (d : Digest) (e : Entry)
    → HasUniqueDigests dag
    → IsParent dag y d e
    → find_parent dag y d ≡ some e
unfolding find_parent
IsParent-find_parent dag y d e u (q, authorities, h, i) =
    let r = u64_sub (cert_round y) 1 in
    let held : In e (values (round_of dag r)) = rw (round_of-get dag r authorities h) i in
    let (f, looked) = find-found d (values (round_of dag r)) e held q in
    let (j, k) = find_parent-In dag y d f looked in
    let same : f ≡ e = u f e j (round_of-entries dag r held) (k ∙ sym q) in rw same at looked

module _ (s : State) (x : Certificate) where
  Reached-Ancestor : {z : Certificate} → Reached s x z → Ancestor s x z
  Reached-Ancestor origin = itself
  Reached-Ancestor (child {y} d e a i f live) =
      Ancestor.parent d e (Reached-Ancestor a) i (find_parent-IsParent s.dag y d e f) live

  Ancestor-Reached : HasUniqueDigests s.dag → {z : Certificate} → Ancestor s x z → Reached s x z
  Ancestor-Reached u itself = origin
  Ancestor-Reached u (parent {y} d e a i f live) =
      child d e (Ancestor-Reached u a) i (IsParent-find_parent s.dag y d e u f) live

  -- If a digest names one entry of the DAG, then `order_dag` returns exactly the certificates that are
  -- the leader itself or are reached from it through parents in the DAG that are not committed, each in the round below, less
  -- those whose round plus the garbage collection depth is below the last committed round.
  pub order_dag_iff :
      (gc_depth : Round) (ys : List Certificate)
      → HasUniqueDigests s.dag
      → order_dag gc_depth x s ≡ returned ys
      → (z : Certificate)
      → In z ys
        ↔ (Ancestor s x z × (leb s.last_committed_round (u64_add (cert_round z) gc_depth) ≡ true))
  unfolding order_dag finish
  order_dag_iff gc_depth ys u h z =
      let (found, eo, k) = >>=-returned (flatten_loop (dag_size s.dag + 2) s (x ∷ [], []) []) _ h in
      let e : finish gc_depth s found ≡ ys = returned-injective k in
      let (seen, v) =
        flatten_loop-Inv s x (dag_size s.dag + 2) (x ∷ []) [] [] found (start-Inv s x) eo in
      let recent =
        λ (y : Certificate). leb s.last_committed_round (u64_add (cert_round y) gc_depth) in
      (
        λ i.
            let (j, t) =
              filter-In recent found (sort_by-In by_round (filter recent found) (rw (← e) at i)) in
            (Reached-Ancestor (All-In (Reached s x) found v.sound j), t),
        λ (a, t). rw (← e) (
            In-sort_by by_round (filter recent found)
              (In-filter recent found (Inv-complete s x found seen u v (Ancestor-Reached u a)) t)),
      )
