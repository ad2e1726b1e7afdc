-- ===== src/Aggregators/Tally.antt =====
-- primary/src/aggregators.rs: the counting that both aggregators do. `names` are the authorities
-- counted so far, in order; the weight is theirs until it reaches the quorum, and from then on it is
-- the stake that came after.
use tusk_ubuntu.Prelude.{
  ◌+◌, ◌≤◌, ◌<◌, ◌≡◌, refl, ◌⊎◌, inl, inr, true, false, ◌||◌, List, [], ◌∷◌, ◌++◌, arith, leb, ◌==◌,
  u32_add,
}
use tusk_ubuntu.Prelude.Set
use tusk_ubuntu.Prelude.Set.{Distinct}
use tusk_ubuntu.Config.{PublicKey, Stake, Committee, stake, quorum_threshold}
use tusk_ubuntu.Config.Quorum.{
  IsValid, total_stake, votes_weight, votes_weight-le_total, quorum_threshold-total,
}

abbrev pub snoc : List PublicKey → PublicKey → List PublicKey
snoc names a = names ++ a ∷ []

contains-snoc :
    (n a : PublicKey) (names : List PublicKey)
    → Set.contains n (snoc names a) ≡ (a == n || Set.contains n names)
unfolding Set.contains
contains-snoc n a [] = ground arith
contains-snoc n a (x ∷ names) = ground (arith, contains-snoc n a names)

snoc-Distinct :
    (names : List PublicKey) (a : PublicKey)
    → Distinct names
    → Set.contains a names ≡ false
    → Distinct (snoc names a)
unfolding Set.contains
snoc-Distinct [] a d h = (refl, tt)
snoc-Distinct (x ∷ names) a d h = ground (arith, contains-snoc x a names, snoc-Distinct names a d.1)

pub votes_weight-snoc :
    (c : Committee) (names : List PublicKey) (a : PublicKey)
    → votes_weight c (snoc names a) ≡ votes_weight c names + stake c a
unfolding votes_weight
votes_weight-snoc c [] a = omega arith
votes_weight-snoc c (x ∷ names) a = omega (arith, votes_weight-snoc c names a)

-- The weight is still below the quorum, or the quorum was reached and the weight starts anew.
abbrev pub Phase : Committee → List PublicKey → Stake → Type 0
Phase c names w =
    ((w ≡ votes_weight c names) × (votes_weight c names < quorum_threshold c))
    ⊎ (quorum_threshold c + w ≤ votes_weight c names)

pub record Tally (c : Committee) (names used : List PublicKey) (w : Stake) : Type 0 where
  pub distinct : Distinct names
  pub same : (n : PublicKey) → Set.contains n used ≡ Set.contains n names
  pub phase : Phase c names w

pub Tally-empty : (c : Committee) → IsValid c → Tally c [] [] 0
unfolding votes_weight
Tally-empty c v = record {
  distinct = tt;
  same = λ n. refl;
  phase = inl (refl, omega (arith, quorum_threshold-total c v));
}

module _ (c : Committee) (v : IsValid c) (names used : List PublicKey) (w : Stake) (a : PublicKey)
    (t : Tally c names used w) (new : Set.contains a used ≡ false) where
  snoc-weight-le : votes_weight c names + stake c a ≤ total_stake c
  snoc-weight-le = omega (
    arith,
    votes_weight-snoc c names a,
    votes_weight-le_total c v (snoc names a)
        (snoc-Distinct names a t.distinct (ground (arith, t.same a))),
  )

  insert-same : (n : PublicKey) → Set.contains n (Set.insert a used) ≡ Set.contains n (snoc names a)
  insert-same n = ground (arith, Set.contains-insert a n used, contains-snoc n a names, t.same n)

  -- A vote below the quorum is added to the weight.
  pub Tally-below :
      leb (quorum_threshold c) (u32_add w (stake c a)) ≡ false
      → Tally c (snoc names a) (Set.insert a used) (u32_add w (stake c a))
  Tally-below h = record {
    distinct = snoc-Distinct names a t.distinct (ground (arith, t.same a));
    same = insert-same;
    phase = ground (
      arith,
      snoc-weight-le,
      v.fits,
      t.phase,
      votes_weight-snoc c names a,
      quorum_threshold-total c v,
    );
  }

  -- It does not move the names counted across the quorum.
  pub below-same :
      leb (quorum_threshold c) (u32_add w (stake c a)) ≡ false
      → leb (quorum_threshold c) (votes_weight c (snoc names a))
        ≡ leb (quorum_threshold c) (votes_weight c names)
  below-same h = ground (
    arith,
    snoc-weight-le,
    v.fits,
    t.phase,
    votes_weight-snoc c names a,
    quorum_threshold-total c v,
  )

  -- A vote that reaches the quorum does so from below, and the weight starts anew.
  pub Tally-reached :
      leb (quorum_threshold c) (u32_add w (stake c a)) ≡ true
      → Tally c (snoc names a) (Set.insert a used) 0
        × (votes_weight c names < quorum_threshold c)
        × (w ≡ votes_weight c names)
        × (quorum_threshold c ≤ votes_weight c (snoc names a))
  Tally-reached h =
      let e = votes_weight-snoc c names a in
      let q = quorum_threshold-total c v in
      let below : (votes_weight c names < quorum_threshold c)
          × (w ≡ votes_weight c names)
          × (quorum_threshold c ≤ votes_weight c (snoc names a)) =
        ground (arith, snoc-weight-le, v.fits, t.phase, e, q) in
      (
        record {
          distinct = snoc-Distinct names a t.distinct (ground (arith, t.same a));
          same = insert-same;
          phase = inr (omega (arith, below.2));
        },
        below.0,
        below.1,
        below.2,
      )
