-- ===== src/Config/Quorum.antt =====
-- config/src/lib.rs: what the two thresholds promise of sets of authorities. A committee is valid if
-- its keys are distinct, as those of a `BTreeMap` are, and twice its total stake fits a `u32`.
use tusk_ubuntu.Prelude.{
  ℕ, ◌+◌, ◌-◌, ◌*◌, ◌/◌, ◌≤◌, ◌<◌, ◌≡◌, refl, Bool, true, false, ◌&&◌, ◌||◌, List, [], ◌∷◌, map,
  arith, ◌==◌, if◌then◌else◌, u32_mod,
}
use tusk_ubuntu.Prelude.Map
use tusk_ubuntu.Prelude.Set
use tusk_ubuntu.Prelude.Set.{Distinct, common}
use tusk_ubuntu.Config.{
  PublicKey, Authority, Committee, stake, stake_or_zero, u32_sum, quorum_threshold,
  validity_threshold,
}

-- The stake of the authorities whose names pass a test.
unfoldable pub weight_in : (PublicKey → Bool) → List (PublicKey × Authority) → ℕ
weight_in p [] = 0
weight_in p ((n, a) ∷ rest) = (if p n then a.stake_of else 0) + weight_in p rest

abbrev pub total_stake : Committee → ℕ
total_stake c = weight_in (λ _. true) c.authorities

pub record IsValid (c : Committee) : Type 0 where
  pub distinct : Distinct (map (λ e. e.0) c.authorities)
  pub fits : 2 * total_stake c < u32_mod

-- The stake of the named authorities, one by one.
unfoldable pub votes_weight : Committee → List PublicKey → ℕ
votes_weight c [] = 0
votes_weight c (n ∷ ns) = stake c n + votes_weight c ns

weight_in-le :
    (p q : PublicKey → Bool) (auths : List (PublicKey × Authority))
    → ((n : PublicKey) → p n ≡ true → q n ≡ true)
    → weight_in p auths ≤ weight_in q auths
unfolding weight_in
weight_in-le p q [] h = omega arith
weight_in-le p q ((n, a) ∷ rest) h = ground (arith, h n, weight_in-le p q rest h)

weight_in-none : (auths : List (PublicKey × Authority)) → weight_in (λ _. false) auths ≡ 0
unfolding weight_in
weight_in-none [] = refl
weight_in-none ((n, a) ∷ rest) = ground (arith, weight_in-none rest)

weight_in-ext :
    (p q : PublicKey → Bool) (auths : List (PublicKey × Authority))
    → ((n : PublicKey) → p n ≡ q n)
    → weight_in p auths ≡ weight_in q auths
unfolding weight_in
weight_in-ext p q [] h = refl
weight_in-ext p q ((n, a) ∷ rest) h = ground (arith, h n, weight_in-ext p q rest h)

weight_in-absent :
    (x : PublicKey) (q : PublicKey → Bool) (auths : List (PublicKey × Authority))
    → Set.contains x (map (λ e. e.0) auths) ≡ false
    → weight_in (λ n. x == n || q n) auths ≡ weight_in q auths
unfolding weight_in Set.contains
weight_in-absent x q [] h = refl
weight_in-absent x q ((n, a) ∷ rest) h = ground (arith, weight_in-absent x q rest)

-- One more name weighs its stake more.
weight_in-insert :
    (x : PublicKey) (q : PublicKey → Bool) (auths : List (PublicKey × Authority))
    → Distinct (map (λ e. e.0) auths)
    → q x ≡ false
    → weight_in (λ n. x == n || q n) auths ≡ stake_or_zero (Map.get x auths) + weight_in q auths
unfolding weight_in Map.get
weight_in-insert x q [] d h = refl
weight_in-insert x q ((n, a) ∷ rest) d h =
    ground (arith, weight_in-insert x q rest d.1 h, weight_in-absent x q rest)

weight_in-and :
    (p q : PublicKey → Bool) (auths : List (PublicKey × Authority))
    → weight_in p auths + weight_in q auths
      ≤ weight_in (λ _. true) auths + weight_in (λ n. p n && q n) auths
unfolding weight_in
weight_in-and p q [] = omega arith
weight_in-and p q ((n, a) ∷ rest) = ground (arith, weight_in-and p q rest)

module _ (c : Committee) (v : IsValid c) where
  pub votes_weight-eq-weight_in :
      (xs : List PublicKey)
      → Distinct xs
      → votes_weight c xs ≡ weight_in (λ n. Set.contains n xs) c.authorities
  unfolding votes_weight stake Set.contains
  votes_weight-eq-weight_in [] d = omega (arith, weight_in-none c.authorities)
  votes_weight-eq-weight_in (x ∷ xs) d = omega (
    arith,
    votes_weight-eq-weight_in xs d.1,
    weight_in-insert x (λ n. Set.contains n xs) c.authorities v.distinct d.0,
  )

  pub votes_weight-le_total :
      (xs : List PublicKey) → Distinct xs → votes_weight c xs ≤ total_stake c
  votes_weight-le_total xs d = omega (
    arith,
    votes_weight-eq-weight_in xs d,
    weight_in-le (λ n. Set.contains n xs) (λ _. true) c.authorities (λ _ _. refl),
  )

  u32_sum-le :
      (auths : List (PublicKey × Authority))
      → weight_in (λ _. true) auths < u32_mod
      → u32_sum auths ≡ weight_in (λ _. true) auths
  unfolding u32_sum weight_in
  u32_sum-le [] h = refl
  u32_sum-le ((n, a) ∷ rest) h = omega (arith, u32_sum-le rest (omega arith))

  pub quorum_threshold-total : quorum_threshold c ≡ 2 * total_stake c / 3 + 1
  unfolding quorum_threshold
  quorum_threshold-total = omega (arith, u32_sum-le c.authorities (omega arith))

  pub validity_threshold-total : validity_threshold c ≡ (total_stake c + 2) / 3
  unfolding validity_threshold
  validity_threshold-total = omega (arith, u32_sum-le c.authorities (omega arith))

  weight-common :
      (xs ys : List PublicKey)
      → Distinct xs
      → Distinct ys
      → votes_weight c xs + votes_weight c ys ≤ total_stake c + votes_weight c (common xs ys)
  unfolding common
  weight-common xs ys dx dy = omega (
    arith,
    votes_weight-eq-weight_in xs dx,
    votes_weight-eq-weight_in ys dy,
    votes_weight-eq-weight_in (common xs ys) (Set.filter-Distinct _ xs dx),
    weight_in-and (λ n. Set.contains n xs) (λ n. Set.contains n ys) c.authorities,
    weight_in-ext (λ n. Set.contains n (common xs ys)) (λ n. Set.contains n xs && Set.contains n ys)
        c.authorities (λ n. Set.contains-filter (λ x. Set.contains x ys) n xs),
  )

  -- In a valid committee, if two sets of authorities without repetition each weigh at least
  -- `quorum_threshold`, then the authorities that are in both weigh at least `validity_threshold`.
  pub quorum_intersection :
      (xs ys : List PublicKey)
      → Distinct xs
      → Distinct ys
      → quorum_threshold c ≤ votes_weight c xs
      → quorum_threshold c ≤ votes_weight c ys
      → validity_threshold c ≤ votes_weight c (common xs ys)
  quorum_intersection xs ys dx dy hx hy =
      omega (arith, quorum_threshold-total, validity_threshold-total, weight-common xs ys dx dy)

  -- In a valid committee, a set of authorities that weighs at least `quorum_threshold` and one that
  -- weighs at least `validity_threshold`, both without repetition, share authorities of positive
  -- stake.
  pub quorum_meets_availability :
      (xs ys : List PublicKey)
      → Distinct xs
      → Distinct ys
      → quorum_threshold c ≤ votes_weight c xs
      → validity_threshold c ≤ votes_weight c ys
      → 0 < votes_weight c (common xs ys)
  quorum_meets_availability xs ys dx dy hx hy =
      omega (arith, quorum_threshold-total, validity_threshold-total, weight-common xs ys dx dy)

  -- In a valid committee whose total stake is N = 3f + 1 + k with k below 3, `quorum_threshold` is
  -- N - f and `validity_threshold` is f + 1, and the authorities left when stake f is missing still
  -- weigh `quorum_threshold`.
  pub thresholds_lem :
      (f k : ℕ)
      → total_stake c ≡ 3 * f + 1 + k
      → k < 3
      → (quorum_threshold c ≡ total_stake c - f)
        × (validity_threshold c ≡ f + 1)
        × (quorum_threshold c + f ≤ total_stake c)
  thresholds_lem f k e h = (
    omega (arith, quorum_threshold-total),
    omega (arith, validity_threshold-total),
    omega (arith, quorum_threshold-total),
  )
