-- ===== src/Prelude/Members.antt =====
-- Membership with its position, `In`, under the list functions that the models use.

use mathlib.Core.Path.{◌≡◌, refl, ap}
use mathlib.Core.Bool.{Bool, true}
use mathlib.Core.Logic.{◌⊎◌, inl, inr}
use mathlib.Core.List.{List, [], ◌∷◌, ◌++◌, map}
use mathlib.Core.Option.{some}
use native.Mathlib.Omega.{arith}
use tusk_ubuntu.Prelude.Tests.{Bool-cases}
use tusk_ubuntu.Prelude.Lists.{In, here, there, filter, find, any, All}
use tusk_ubuntu.Prelude.Sort.{insert_by, sort_by}

module _ {ℓ} {A : Type ℓ} where
  pub In-append_left : {a : A} (xs ys : List A) → In a xs → In a (xs ++ ys)
  In-append_left [] ys i = elim i [ ]
  In-append_left (x ∷ xs) ys (here e) = here e
  In-append_left (x ∷ xs) ys (there i) = there (In-append_left xs ys i)

  pub In-append_right : {a : A} (xs ys : List A) → In a ys → In a (xs ++ ys)
  In-append_right [] ys i = i
  In-append_right (x ∷ xs) ys i = there (In-append_right xs ys i)

  pub In-append : {a : A} (xs ys : List A) → In a (xs ++ ys) → In a xs ⊎ In a ys
  In-append [] ys i = inr i
  In-append (x ∷ xs) ys (here e) = inl (here e)
  In-append (x ∷ xs) ys (there i) = elim (In-append xs ys i) [
    | inl j ↦ inl (there j)
    | inr j ↦ inr j
  ]

  pub find-In : (p : A → Bool) (xs : List A) (a : A) → find p xs ≡ some a → In a xs × (p a ≡ true)
  find-In p [] a h = cc
  find-In p (x ∷ xs) a h = elim (Bool-cases (p x)) [
    | inl t ↦ let e : some x ≡ some a = rw t at h in (here (cc), ground (arith, t, e))
    | inr f ↦ let (i, t) = find-In p xs a (rw f at h) in (there i, t)
  ]

  pub In-filter : (p : A → Bool) {a : A} (xs : List A) → In a xs → p a ≡ true → In a (filter p xs)
  In-filter p [] i t = elim i [ ]
  In-filter p {a} (x ∷ xs) (here e) t = let t' : p x ≡ true = rw e at t in rw t' (here e)
  In-filter p {a} (x ∷ xs) (there i) t = elim (Bool-cases (p x)) [
    | inl q ↦ rw q (there (In-filter p xs i t))
    | inr q ↦ rw q (In-filter p xs i t)
  ]

  pub In-cons : {a x : A} {xs : List A} → In a (x ∷ xs) → (a ≡ x) ⊎ In a xs
  In-cons (here e) = inl e
  In-cons (there i) = inr i

  filter-In_cons :
      (p : A → Bool) {a : A} (x : A) (xs : List A)
      → (In a (filter p xs) → In a xs × (p a ≡ true))
      → In a (filter p (x ∷ xs))
      → In a (x ∷ xs) × (p a ≡ true)
  filter-In_cons p {a} x xs rec i = elim (Bool-cases (p x)) [
    | inl q ↦
        let j : In a (x ∷ filter p xs) = rw q at i in
        elim (In-cons j) [ inl e ↦ (here e, rw e q) | inr k ↦ (there (rec k).0, (rec k).1) ]
    | inr q ↦ let k : In a (filter p xs) = rw q at i in (there (rec k).0, (rec k).1)
  ]

  pub filter-In : (p : A → Bool) {a : A} (xs : List A) → In a (filter p xs) → In a xs × (p a ≡ true)
  filter-In p [] i = elim i [ ]
  filter-In p (x ∷ xs) i = filter-In_cons p x xs (filter-In p xs) i

  pub In-insert_by :
      (le : A → A → Bool) {a : A} (x : A) (xs : List A) → In a (x ∷ xs) → In a (insert_by le x xs)
  unfolding insert_by
  In-insert_by le x [] i = i
  In-insert_by le x (y ∷ ys) i = elim (Bool-cases (le x y)) [
    | inl q ↦ rw q i
    | inr q ↦ elim (In-cons i) [
      | inl e ↦ rw q (there (In-insert_by le x ys (here e)))
      | inr j ↦ elim (In-cons j) [
        | inl e ↦ rw q (here e)
        | inr k ↦ rw q (there (In-insert_by le x ys (there k)))
      ]
    ]
  ]

  pub insert_by-In :
      (le : A → A → Bool) {a : A} (x : A) (xs : List A) → In a (insert_by le x xs) → In a (x ∷ xs)
  unfolding insert_by
  insert_by-In le x [] i = i
  insert_by-In le {a} x (y ∷ ys) i = elim (Bool-cases (le x y)) [
    | inl q ↦ let j : In a (x ∷ y ∷ ys) = rw q at i in j
    | inr q ↦
        let j : In a (y ∷ insert_by le x ys) = rw q at i in
        elim (In-cons j) [
          | inl e ↦ there (here e)
          | inr k ↦ elim (In-cons (insert_by-In le x ys k)) [
            | inl e ↦ here e
            | inr m ↦ there (there m)
          ]
        ]
  ]

  pub In-sort_by : (le : A → A → Bool) {a : A} (xs : List A) → In a xs → In a (sort_by le xs)
  unfolding sort_by
  In-sort_by le [] i = i
  In-sort_by le (x ∷ xs) i = elim (In-cons i) [
    | inl e ↦ In-insert_by le x (sort_by le xs) (here e)
    | inr j ↦ In-insert_by le x (sort_by le xs) (there (In-sort_by le xs j))
  ]

  pub sort_by-In : (le : A → A → Bool) {a : A} (xs : List A) → In a (sort_by le xs) → In a xs
  unfolding sort_by
  sort_by-In le [] i = i
  sort_by-In le (x ∷ xs) i = elim (In-cons (insert_by-In le x (sort_by le xs) i)) [
    | inl e ↦ here e
    | inr j ↦ there (sort_by-In le xs j)
  ]

  pub any-In : (p : A → Bool) (xs : List A) → any p xs ≡ true → (a : A) × In a xs × (p a ≡ true)
  any-In p [] h = cc
  any-In p (x ∷ xs) h = elim (Bool-cases (p x)) [
    | inl q ↦ (x, here refl, q)
    | inr q ↦ let (a, i, t) = any-In p xs (rw q at h) in (a, there i, t)
  ]

  pub In-any : (p : A → Bool) {a : A} (xs : List A) → In a xs → p a ≡ true → any p xs ≡ true
  In-any p [] i t = elim i [ ]
  In-any p {a} (x ∷ xs) (here e) t = let t' : p x ≡ true = rw e at t in rw t'
  In-any p (x ∷ xs) (there i) t = ground (arith, In-any p xs i t)

  pub All-In {κ} : (P : A → Type κ) {a : A} (xs : List A) → All P xs → In a xs → P a
  All-In P [] h i = elim i [ ]
  All-In P (x ∷ xs) h (here e) = rw e h.0
  All-In P (x ∷ xs) h (there i) = All-In P xs h.1 i

module _ {ℓ κ} {A : Type ℓ} {B : Type κ} where
  pub In-map : (f : A → B) {a : A} (xs : List A) → In a xs → In (f a) (map f xs)
  In-map f [] i = elim i [ ]
  In-map f (x ∷ xs) (here e) = here (ap f e)
  In-map f (x ∷ xs) (there i) = there (In-map f xs i)

  pub map-In : (f : A → B) {b : B} (xs : List A) → In b (map f xs) → (a : A) × In a xs × (b ≡ f a)
  map-In f [] i = elim i [ ]
  map-In f (x ∷ xs) i = elim (In-cons i) [
    | inl e ↦ (x, here refl, e)
    | inr j ↦ let (a, k, e) = map-In f xs j in (a, there k, e)
  ]
