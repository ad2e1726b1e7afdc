-- ===== src/Consensus/Flatten/Search.antt =====
-- consensus/src/lib.rs, `order_dag`: what the search reaches from the leader.
use tusk_ubuntu.Prelude.{
  ℕ, zero, suc, ◌≡◌, ◌⊎◌, refl, inl, inr, Bool, true, false, none, some, List, [], ◌∷◌, ◌++◌, All,
  All-append, In, here, there, In-cons, In-append, In-append_left, In-append_right, arith, ◌==◌,
  Bool-cases, Option-cases,
}
use tusk_ubuntu.Prelude.Map
use tusk_ubuntu.Prelude.Set
use tusk_ubuntu.Prelude.Outcome.{returned, returned-injective}
use tusk_ubuntu.Crypto.{Digest}
use tusk_ubuntu.Messages.{Certificate, cert_round, cert_origin}
use tusk_ubuntu.Consensus.{Entry, Dag, State}
use tusk_ubuntu.Consensus.Flatten.{find_parent, skips, push_parent, push_parents, flatten_loop}
use tusk_ubuntu.Consensus.Flatten.Returns.{entries, find_parent-In}

-- The certificate is the one that was committed last for its author.
abbrev pub is_committed : State → Certificate → Bool
is_committed s y = elim (Map.get (cert_origin y) s.last_committed) [
  | none ↦ false
  | some r ↦ r == cert_round y
]

-- Reached from `x` through parents that the search looks up and that are not committed.
pub data Reached (s : State) (x : Certificate) : Certificate → Type 0 where
  origin : Reached s x x
  child :
      {y : Certificate} (d : Digest) (e : Entry)
      → Reached s x y
      → In d y.header.parents
      → find_parent s.dag y d ≡ some e
      → is_committed s e.1 ≡ false
      → Reached s x e.1

-- A digest names one entry of the DAG.
abbrev pub HasUniqueDigests : Dag → Type 0
HasUniqueDigests dag = (e f : Entry) → In e (entries dag) → In f (entries dag) → e.0 ≡ f.0 → e ≡ f

module _ (s : State) (x : Certificate) where
  -- An entry with the digest was found, and is waiting or ordered.
  abbrev pub Found : List Certificate → List Certificate → Digest → Type 0
  Found buffer ordered d =
      (e : Entry) × In e (entries s.dag) × (e.0 ≡ d) × (In e.1 buffer ⊎ In e.1 ordered)

  -- If the parent `d` of `y` counts, it was pushed.
  abbrev pub Pushed : List Digest → Certificate → Digest → Type 0
  Pushed already y d =
      (e : Entry)
      → find_parent s.dag y d ≡ some e
      → is_committed s e.1 ≡ false
      → Set.contains e.0 already ≡ true

  pub record Work (ordered : List Certificate) (work : List Certificate × List Digest)
      : Type 0 where
    pub start : In x work.0 ⊎ In x ordered
    waiting : All (Reached s x) work.0
    found : (d : Digest) → Set.contains d work.1 ≡ true → Found work.0 ordered d

  -- What the loop over the parents keeps.
  record Grows (ordered : List Certificate) (already : List Digest)
      (work : List Certificate × List Digest) : Type 0 where
    holds : Work ordered work
    keeps : (k : Digest) → Set.contains k already ≡ true → Set.contains k work.1 ≡ true

  skips_parts :
      (already : List Digest) (e : Entry)
      → (skips s already e ≡ false → is_committed s e.1 ≡ false)
        × (skips s already e ≡ true → is_committed s e.1 ≡ false → Set.contains e.0 already ≡ true)
  unfolding skips
  skips_parts already e = (λ q. ground arith, λ q live. ground arith)

  push_new :
      (ordered : List Certificate) (y : Certificate) (d : Digest) (e : Entry)
      (buffer : List Certificate) (already : List Digest)
      → Reached s x y
      → In d y.header.parents
      → find_parent s.dag y d ≡ some e
      → is_committed s e.1 ≡ false
      → Work ordered (buffer, already)
      → Work ordered (e.1 ∷ buffer, Set.insert e.0 already)
  push_new ordered y d e buffer already a i h live w = record {
    start = elim w.start [ inl j ↦ inl (there j) | inr j ↦ inr j ];
    waiting = (child d e a i h live, w.waiting);
    found = λ k t. elim (Bool-cases (e.0 == k)) [
      | inl q ↦ (e, (find_parent-In s.dag y d e h).0, ground (arith, q), inl (here refl))
      | inr q ↦
          let (f, j, p, m) = w.found k (ground (arith, t, q, Set.contains-insert e.0 k already)) in
          (f, j, p, elim m [ inl b ↦ inl (there b) | inr o ↦ inr o ])
    ];
  }

  push_parent-Grows :
      (ordered : List Certificate) (y : Certificate) (d : Digest) (buffer : List Certificate)
      (already : List Digest)
      → Reached s x y
      → In d y.header.parents
      → Work ordered (buffer, already)
      → let work = push_parent s (find_parent s.dag y d) (buffer, already) in
        Grows ordered already work × Pushed work.1 y d
  unfolding push_parent
  push_parent-Grows ordered y d buffer already a i w = elim (Option-cases (find_parent s.dag y d)) [
    | inl h ↦ rw h (record { holds = w; keeps = λ k t. t }, λ f g live. absurd (cc))
    | inr (e, h) ↦ elim (Bool-cases (skips s already e)) [
      | inl q ↦
          rw (h, q)
            (
              record { holds = w; keeps = λ k t. t },
              λ f g live.
                  let same : f ≡ e = cc in rw same ((skips_parts already e).1 q (rw same at live)),
            )
      | inr q ↦
          rw (h, q)
            (
              record {
                holds = push_new ordered y d e buffer already a i h ((skips_parts already e).0 q) w;
                keeps = λ k t. ground (arith, t, Set.contains-insert e.0 k already);
              },
              λ f g live.
                  let same : f ≡ e = cc in
                  rw same (ground (arith, Set.contains-insert e.0 e.0 already)),
            )
    ]
  ]

  push_parents-Grows :
      (ordered : List Certificate) (y : Certificate) (ds : List Digest)
      (work : List Certificate × List Digest)
      → Reached s x y
      → ((d : Digest) → In d ds → In d y.header.parents)
      → Work ordered work
      → let work' = push_parents s y ds work in
        Grows ordered work.1 work' × ((d : Digest) → In d ds → Pushed work'.1 y d)
  unfolding push_parents
  push_parents-Grows ordered y [] work a sub w =
      (record { holds = w; keeps = λ k t. t }, λ d i. elim i [ ])
  push_parents-Grows ordered y (d ∷ ds) (buffer, already) a sub w =
      let (g, p) = push_parent-Grows ordered y d buffer already a (sub d (here refl)) w in
      let next = push_parent s (find_parent s.dag y d) (buffer, already) in
      let (g', p') = push_parents-Grows ordered y ds next a (λ k i. sub k (there i)) g.holds in
      (
        record { holds = g'.holds; keeps = λ k t. g'.keeps k (g.keeps k t) },
        λ k i. elim (In-cons i) [
          | inl q ↦ rw q (λ e h live. g'.keeps e.0 (p e h live))
          | inr j ↦ p' k j
        ],
      )

  pub record Inv (ordered : List Certificate) (work : List Certificate × List Digest) : Type 0 where
    pub holds : Work ordered work
    pub sound : All (Reached s x) ordered
    pub closed :
        (y : Certificate) → In y ordered → (d : Digest) → In d y.header.parents → Pushed work.1 y d

  -- The certificate on top of the stack moves to the ordered ones.
  pop_top :
      (ordered buffer : List Certificate) (y : Certificate) (already : List Digest)
      → Work ordered (y ∷ buffer, already)
      → Work (ordered ++ y ∷ []) (buffer, already)
  pop_top ordered buffer y already w = record {
    start = moved w.start;
    waiting = w.waiting.1;
    found = λ d t. let (e, i, q, m) = w.found d t in (e, i, q, moved m);
  }
    where
      moved :
          {z : Certificate}
          → In z (y ∷ buffer) ⊎ In z ordered
          → In z buffer ⊎ In z (ordered ++ y ∷ [])
      moved (inl (here q)) = inr (In-append_right ordered (y ∷ []) (here q))
      moved (inl (there j)) = inl j
      moved (inr j) = inr (In-append_left ordered (y ∷ []) j)

  pub flatten_loop-Inv :
      (fuel : ℕ) (buffer : List Certificate) (already : List Digest) (ordered ys : List Certificate)
      → Inv ordered (buffer, already)
      → flatten_loop fuel s (buffer, already) ordered ≡ returned ys
      → (seen : List Digest) × Inv ys ([], seen)
  unfolding flatten_loop
  flatten_loop-Inv zero buffer already ordered ys v h = cc
  flatten_loop-Inv (suc fuel) [] already ordered ys v h =
      let e : ordered ≡ ys = returned-injective h in (already, rw e at v)
  flatten_loop-Inv (suc fuel) (y ∷ buffer) already ordered ys v h =
      let ordered' = ordered ++ y ∷ [] in
      let a = v.holds.waiting.0 in
      let (g, p) =
        push_parents-Grows ordered' y y.header.parents (buffer, already) a (λ d i. i)
          (pop_top ordered buffer y already v.holds) in
      let work = push_parents s y y.header.parents (buffer, already) in
      flatten_loop-Inv fuel work.0 work.1 ordered' ys
        (record {
          holds = g.holds;
          sound = All-append (Reached s x) ordered (y ∷ []) v.sound (a, tt);
          closed = λ z i. elim (In-append ordered (y ∷ []) i) [
            | inl j ↦ λ d k e f live. g.keeps e.0 (v.closed z j d k e f live)
            | inr j ↦ elim (In-cons j) [ inl q ↦ rw q p | inr k ↦ elim k [ ] ]
          ];
        })
        h

  -- Every ancestor is in a list that the search ended with.
  pub Inv-complete :
      (ys : List Certificate) (seen : List Digest)
      → HasUniqueDigests s.dag
      → Inv ys ([], seen)
      → {z : Certificate} → Reached s x z
      → In z ys
  Inv-complete ys seen u v origin = elim v.holds.start [ inl i ↦ elim i [ ] | inr i ↦ i ]
  Inv-complete ys seen u v (child {y} d e a i f live) =
      let t = v.closed y (Inv-complete ys seen u v a) d i e f live in
      let (e', j, q, m) = v.holds.found e.0 t in
      let same : e' ≡ e = u e' e j (find_parent-In s.dag y d e f).0 q in
      elim m [ inl k ↦ elim k [ ] | inr k ↦ rw same at k ]

  pub start-Inv : Inv [] (x ∷ [], [])
  unfolding Set.contains
  start-Inv = record {
    holds = record { start = inl (here refl); waiting = (origin, tt); found = λ d t. absurd (cc) };
    sound = tt;
    closed = λ y i. elim i [ ];
  }
