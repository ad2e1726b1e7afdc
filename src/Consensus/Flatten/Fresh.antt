-- ===== src/Consensus/Flatten/Fresh.antt =====
-- consensus/src/lib.rs, `order_dag`: the order in which the certificates of an author are committed.
use tusk_ubuntu.Prelude.{
  ℕ, ◌+◌, ◌≤◌, ◌<◌, ◌≡◌, ◌∙◌, ap, sym, refl, inl, inr, Bool, Option, none, some, List, [], ◌∷◌,
  filter, All, max, arith, ◌==◌, leb, if◌then◌else◌, Bool-cases, Option-cases, ==→eq, u64_add,
  u64_mod,
}
use tusk_ubuntu.Prelude.Map
use tusk_ubuntu.Prelude.Sort.{insert_by, sort_by}
use tusk_ubuntu.Prelude.Outcome.{returned, returned-injective, >>=-returned}
use tusk_ubuntu.Config.{PublicKey}
use tusk_ubuntu.Messages.{Round, Certificate, cert_round, cert_origin}
use tusk_ubuntu.Consensus.{State, commit_round}
use tusk_ubuntu.Consensus.WellFormed.{WellFormed}
use tusk_ubuntu.Consensus.Flatten.{flatten_loop, dag_size, by_round, finish, order_dag}
use tusk_ubuntu.Consensus.Flatten.Once.{is_at, times, IsLive, flatten_loop-once}

abbrev pub Committed : Type 0
Committed = List (PublicKey × Round)

-- Each certificate is of a round above the one committed for its author, when those before it are.
abbrev pub Fresh : Committed → List Certificate → Type 0
Fresh committed [] = Unit
Fresh committed (y ∷ ys) =
    IsLive committed y × Fresh (commit_round (cert_origin y) (cert_round y) committed) ys

-- The rounds do not go down.
abbrev Ordered : List Certificate → Type 0
Ordered [] = Unit
Ordered (y ∷ ys) = All (λ z. cert_round y ≤ cert_round z) ys × Ordered ys

module _ (P : Certificate → Type 0) where
  All-insert_by :
      (x : Certificate) (xs : List Certificate) → P x → All P xs → All P (insert_by by_round x xs)
  unfolding insert_by
  All-insert_by x [] p a = (p, tt)
  All-insert_by x (y ∷ ys) p a = elim (Bool-cases (by_round x y)) [
    | inl q ↦ rw q (p, a)
    | inr q ↦ rw q (a.0, All-insert_by x ys p a.1)
  ]

  All-sort_by : (xs : List Certificate) → All P xs → All P (sort_by by_round xs)
  unfolding sort_by
  All-sort_by [] a = tt
  All-sort_by (x ∷ xs) a = All-insert_by x (sort_by by_round xs) a.0 (All-sort_by xs a.1)

  All-filter : (p : Certificate → Bool) (xs : List Certificate) → All P xs → All P (filter p xs)
  All-filter p [] a = tt
  All-filter p (x ∷ xs) a = elim (Bool-cases (p x)) [
    | inl q ↦ rw q (a.0, All-filter p xs a.1)
    | inr q ↦ rw q (All-filter p xs a.1)
  ]

  All-map :
      (Q : Certificate → Type 0) (xs : List Certificate)
      → ((z : Certificate) → P z → Q z)
      → All P xs
      → All Q xs
  All-map Q [] f a = tt
  All-map Q (x ∷ xs) f a = (f x a.0, All-map Q xs f a.1)

insert_by-Ordered :
    (x : Certificate) (xs : List Certificate) → Ordered xs → Ordered (insert_by by_round x xs)
unfolding insert_by
insert_by-Ordered x [] o = (tt, tt)
insert_by-Ordered x (y ∷ ys) o = elim (Bool-cases (by_round x y)) [
  | inl q ↦
      let l : cert_round x ≤ cert_round y = ground (arith, q) in
      rw q (
        (
          l,
          All-map (λ z. cert_round y ≤ cert_round z) (λ z. cert_round x ≤ cert_round z) ys
              (λ z m. omega (arith, l, m)) o.0,
        ),
        o,
      )
  | inr q ↦ rw q (
    All-insert_by (λ z. cert_round y ≤ cert_round z) x ys (ground (arith, q)) o.0,
    insert_by-Ordered x ys o.1,
  )
]

sort_by-Ordered : (xs : List Certificate) → Ordered (sort_by by_round xs)
unfolding sort_by
sort_by-Ordered [] = tt
sort_by-Ordered (x ∷ xs) = insert_by-Ordered x (sort_by by_round xs) (sort_by-Ordered xs)

module _ (r : Round) (n : PublicKey) where
  times-insert_by :
      (x : Certificate) (xs : List Certificate)
      → times r n (insert_by by_round x xs) ≡ times r n (x ∷ xs)
  unfolding insert_by times
  times-insert_by x [] = refl
  times-insert_by x (y ∷ ys) = elim (Bool-cases (by_round x y)) [
    | inl q ↦ rw q refl
    | inr q ↦ rw q (omega (arith, times-insert_by x ys))
  ]

  times-sort_by : (xs : List Certificate) → times r n (sort_by by_round xs) ≡ times r n xs
  unfolding sort_by times
  times-sort_by [] = refl
  times-sort_by (x ∷ xs) = omega (arith, times-insert_by x (sort_by by_round xs), times-sort_by xs)

  times-filter :
      (p : Certificate → Bool) (xs : List Certificate) → times r n (filter p xs) ≤ times r n xs
  unfolding times
  times-filter p [] = omega arith
  times-filter p (x ∷ xs) = elim (Bool-cases (p x)) [
    | inl q ↦ rw q (omega (arith, times-filter p xs))
    | inr q ↦ rw q (omega (arith, times-filter p xs))
  ]

-- The round that is committed for an author once a certificate of the author is.
abbrev pub above : Round → Option Round → Round
above round none = round
above round (some r) = max r round

pub get-commit_round :
    (k j : PublicKey) (round : Round) (committed : Committed)
    → Map.get j (commit_round k round committed)
      ≡ (if k == j then some (above round (Map.get k committed)) else Map.get j committed)
unfolding commit_round
get-commit_round k j round committed = elim (Option-cases (Map.get k committed)) [
  | inl q ↦ rw (q, Map.get-insert k j round committed) refl
  | inr (r, q) ↦ rw (q, Map.get-insert k j (max r round) committed) refl
]

above-lt :
    (round high : Round) (o : Option Round)
    → round < high
    → ((r : Round) → o ≡ some r → r < high)
    → above round o < high
above-lt round high none l h = l
above-lt round high (some r) l h = omega (arith, l, h r refl)

commit-IsLive :
    (committed : Committed) (y z : Certificate)
    → IsLive committed z
    → (cert_origin y ≡ cert_origin z → cert_round y < cert_round z)
    → IsLive (commit_round (cert_origin y) (cert_round y) committed) z
commit-IsLive committed y z live higher last g =
    let now = get-commit_round (cert_origin y) (cert_origin z) (cert_round y) committed in
    elim (Bool-cases (cert_origin y == cert_origin z)) [
      | inl q ↦
          let e = ==→eq (cert_origin y) (cert_origin z) q in
          let top = above (cert_round y) (Map.get (cert_origin y) committed) in
          let same : top ≡ last = some-injective (sym (rw q at now) ∙ g) in
          let low =
            above-lt (cert_round y) (cert_round z) (Map.get (cert_origin y) committed) (higher e)
              (λ r h. live r (sym (ap (λ k. Map.get k committed) e) ∙ h)) in
          omega (arith, low, same)
      | inr q ↦ live last (sym (rw q at now) ∙ g)
    ]
  where
    some-injective : {a b : Round} → some a ≡ some b → a ≡ b
    some-injective h = cc

-- Later certificates stay live, if none is of the round and the author of the one that is committed.
later-IsLive :
    (committed : Committed) (y : Certificate) (zs : List Certificate)
    → All (IsLive committed) zs
    → All (λ z. cert_round y ≤ cert_round z) zs
    → times (cert_round y) (cert_origin y) zs ≡ 0
    → All (IsLive (commit_round (cert_origin y) (cert_round y) committed)) zs
unfolding times
later-IsLive committed y [] a o t = tt
later-IsLive committed y (z ∷ zs) a o t =
    elim (Bool-cases (is_at (cert_round y) (cert_origin y) z)) [
      | inl q ↦ absurd (positive (times (cert_round y) (cert_origin y) zs) (rw q at t))
      | inr q ↦ (
        commit-IsLive committed y z a.0 (λ e. ground (arith, e, q, o.0)),
        later-IsLive committed y zs a.1 o.1 (omega (arith, (rw q at t))),
      )
    ]
  where
    positive : (n : ℕ) → 1 + n ≡ 0 → ⊥
    positive n h = omega arith

Ordered-Fresh :
    (committed : Committed) (ys : List Certificate)
    → All (IsLive committed) ys
    → Ordered ys
    → ((r : Round) (n : PublicKey) → times r n ys ≤ 1)
    → Fresh committed ys
unfolding times
Ordered-Fresh committed [] a o t = tt
Ordered-Fresh committed (y ∷ ys) a o t =
    let here_once : times (cert_round y) (cert_origin y) ys ≡ 0 =
      ground (arith, t (cert_round y) (cert_origin y)) in
    (
      a.0,
      Ordered-Fresh (commit_round (cert_origin y) (cert_round y) committed) ys
          (later-IsLive committed y ys a.1 o.0 here_once) o.1 (λ r n. ground (arith, t r n)),
    )

-- In a well-formed state, what `order_dag` returns for a leader that is live is at most of its round, and
-- each certificate is of a round above the one committed for its author when those before it are.
pub order_dag-Fresh :
    (gc_depth : Round) (x : Certificate) (s : State) (ys : List Certificate)
    → WellFormed s
    → cert_round x < u64_mod
    → IsLive s.last_committed x
    → order_dag gc_depth x s ≡ returned ys
    → Fresh s.last_committed ys × All (λ y. cert_round y ≤ cert_round x) ys
unfolding order_dag finish
order_dag-Fresh gc_depth x s ys w b live h =
    let fuel = dag_size s.dag + 2 in
    let (found, eo, k) = >>=-returned (flatten_loop fuel s (x ∷ [], []) []) _ h in
    let e : finish gc_depth s found ≡ ys = returned-injective k in
    let (good, once) = flatten_loop-once s w x b fuel found live eo in
    let recent =
      λ (y : Certificate). leb s.last_committed_round (u64_add (cert_round y) gc_depth) in
    let kept = filter recent found in
    let Good = λ (y : Certificate). (cert_round y ≤ cert_round x) × IsLive s.last_committed y in
    let sorted = All-sort_by Good kept (All-filter Good recent found good) in
    rw (← e) (
      Ordered-Fresh s.last_committed (sort_by by_round kept)
          (All-map Good (IsLive s.last_committed) (sort_by by_round kept) (λ z g. g.1) sorted)
          (sort_by-Ordered kept)
          (λ r n. omega (arith, times-sort_by r n kept, times-filter r n recent found, once r n)),
      All-map Good (λ y. cert_round y ≤ cert_round x) (sort_by by_round kept) (λ z g. g.0) sorted,
    )
