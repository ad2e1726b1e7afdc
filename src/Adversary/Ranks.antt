-- ===== src/Adversary/Ranks.antt =====
-- primary/src/adversary.rs, `selected`: how many authorities it silences in an odd round.
use tusk_ubuntu.Prelude.{
  ℕ, suc, ◌≡◌, ◌≢◌, ◌≤◌, ◌<◌, ◌-◌, ◌%◌, min, refl, ◌∙◌, inl, inr, Bool, true, false, List, [], ◌∷◌,
  length, filter, In, here, there, arith, ltb, if◌then◌else◌, Bool-cases,
}
use tusk_ubuntu.Prelude.Set
use tusk_ubuntu.Prelude.Set.{Distinct}
use tusk_ubuntu.Config.{PublicKey}
use tusk_ubuntu.Crypto.{Primitives}
use tusk_ubuntu.Messages.{Round}
use tusk_ubuntu.Adversary.{pair_lt, score, rank, selected}

amount : (ℕ → Bool) → List ℕ → ℕ
amount q [] = 0
amount q (x ∷ xs) = let rest = amount q xs in if q x then suc rest else rest

length-filter : (q : ℕ → Bool) (xs : List ℕ) → length (filter q xs) ≡ amount q xs
unfolding amount
length-filter q [] = refl
length-filter q (x ∷ xs) = ground (arith, length-filter q xs)

amount_ext :
    (q r : ℕ → Bool) (xs : List ℕ) → ((a : ℕ) → In a xs → q a ≡ r a) → amount q xs ≡ amount r xs
unfolding amount
amount_ext q r [] h = refl
amount_ext q r (x ∷ xs) h =
    let e = h x (here refl) in
    let k = amount_ext q r xs (λ a i. h a (there i)) in ground (arith, e, k)

amount-le :
    (q r : ℕ → Bool) (xs : List ℕ) → ((a : ℕ) → q a ≡ true → r a ≡ true) → amount q xs ≤ amount r xs
unfolding amount
amount-le q r [] h = omega arith
amount-le q r (x ∷ xs) h = let k = amount-le q r xs h in ground (arith, h x, k)

amount-lt :
    (q r : ℕ → Bool) (b : ℕ) (xs : List ℕ)
    → ((a : ℕ) → q a ≡ true → r a ≡ true)
    → In b xs
    → q b ≡ false
    → r b ≡ true
    → amount q xs < amount r xs
unfolding amount
amount-lt q r b [] h i n t = elim i [ ]
amount-lt q r b (x ∷ xs) h (here e) n t =
    let k = amount-le q r xs h in
    let n' : q x ≡ false = rw e at n in let t' : r x ≡ true = rw e at t in ground (arith, k, n', t')
amount-lt q r b (x ∷ xs) h (there i) n t =
    let k = amount-lt q r b xs h i n t in ground (arith, h x, k)

amount-length : (q : ℕ → Bool) (xs : List ℕ) → amount q xs ≤ length xs
unfolding amount
amount-length q [] = omega arith
amount-length q (x ∷ xs) = ground (arith, amount-length q xs)

absent : (x a : ℕ) (xs : List ℕ) → Set.contains x xs ≡ false → In a xs → x ≢ a
unfolding Set.contains
absent x a [] h i = elim i [ ]
absent x a (y ∷ xs) h (here e) = λ q. ground arith
absent x a (y ∷ xs) h (there i) = let k = absent x a xs in ground (arith, k)

-- A strict total order of the numbers.
record IsOrder (lt : ℕ → ℕ → Bool) : Type 0 where
  irreflexive : (a : ℕ) → lt a a ≡ false
  transitive : (a b c : ℕ) → lt a b ≡ true → lt b c ≡ true → lt a c ≡ true
  total : (a b : ℕ) → a ≢ b → lt a b ≡ false → lt b a ≡ true

module _ (lt : ℕ → ℕ → Bool) (o : IsOrder lt) where
  abbrev below : ℕ → List ℕ → ℕ
  below a xs = amount (λ c. lt c a) xs

  below-lt : (a x : ℕ) (xs : List ℕ) → In a xs → lt a x ≡ true → below a xs < below x xs
  below-lt a x xs i h =
      amount-lt (λ c. lt c a) (λ c. lt c x) a xs (λ c k. o.transitive c a x k h) i (o.irreflexive a)
        h

  below-le : (a x : ℕ) (xs : List ℕ) → lt x a ≡ true → below x xs ≤ below a xs
  below-le a x xs h = amount-le (λ c. lt c x) (λ c. lt c a) xs (λ c k. o.transitive c x a k h)

  below-cons :
      (a x : ℕ) (xs : List ℕ) → below a (x ∷ xs) ≡ (if lt x a then suc (below a xs) else below a xs)
  unfolding amount
  below-cons a x xs = refl

  -- The bound that the others meet once `x` is counted.
  abbrev less_one : ℕ → ℕ → ℕ
  less_one k f = if ltb k f then f - 1 else f

  shift :
      (f a x : ℕ) (xs : List ℕ)
      → In a xs
      → x ≢ a
      → ltb (below a (x ∷ xs)) f ≡ ltb (below a xs) (less_one (below x xs) f)
  shift f a x xs i ne = elim (Bool-cases (lt x a)) [
    | inl h ↦ let le = below-le a x xs h in rw (below-cons a x xs, h) (ground (arith, le))
    | inr h ↦
        let le = below-lt a x xs i (o.total x a ne h) in
        rw (below-cons a x xs, h) (ground (arith, le))
  ]

  head_below : (x : ℕ) (xs : List ℕ) → below x (x ∷ xs) ≡ below x xs
  head_below x xs = rw (below-cons x x xs, o.irreflexive x) refl

  -- As many members come after fewer than `f` others as there can be.
  amount-below :
      (f : ℕ) (xs : List ℕ) → Distinct xs → amount (λ a. ltb (below a xs) f) xs ≡ min f (length xs)
  unfolding amount
  amount-below f [] d = omega arith
  amount-below f (x ∷ xs) d =
      let k = below x xs in
      let e =
        amount_ext (λ a. ltb (below a (x ∷ xs)) f) (λ a. ltb (below a xs) (less_one k f)) xs
          (λ a i. shift f a x xs i (λ q. absent x a xs d.0 i q)) in
      let ih = amount-below (less_one k f) xs d.1 in
      let le = amount-length (λ c. lt c x) xs in rw (o.irreflexive x, e, ih) (ground (arith, le))

module _ (p : Primitives) (authorities : List PublicKey) (round : Round) (seed : ℕ) where
  abbrev before : PublicKey → PublicKey → Bool
  before a b = pair_lt (score p a round seed 0, a) (score p b round seed 0, b)

  before-IsOrder : IsOrder before
  before-IsOrder = record {
    irreflexive = λ a. ground arith;
    transitive = λ a b c h k. ground arith;
    total = λ a b ne h. ground arith;
  }

  selected-rank :
      (faults : ℕ) (a : PublicKey)
      → round % 2 ≡ 1
      → selected p a authorities round faults seed
        ≡ ltb (amount (λ c. before c a) authorities) (min faults (length authorities))
  unfolding selected rank
  selected-rank faults a odd =
      let n = length-filter (λ c. before c a) authorities in ground (arith, n)

  -- In an odd round, of distinct authorities exactly `faults` are selected to be silent, or all of them if
  -- they are fewer.
  pub selected_odd :
      (faults : ℕ)
      → Distinct authorities
      → round % 2 ≡ 1
      → length (filter (λ a. selected p a authorities round faults seed) authorities)
        ≡ min faults (length authorities)
  selected_odd faults d odd =
      length-filter (λ a. selected p a authorities round faults seed) authorities
      ∙ amount_ext _
          (λ a. ltb (amount (λ c. before c a) authorities) (min faults (length authorities)))
          authorities (λ a i. selected-rank faults a odd)
      ∙ amount-below before before-IsOrder (min faults (length authorities)) authorities d
      ∙ omega arith
