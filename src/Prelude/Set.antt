-- ===== src/Prelude/Set.antt =====
-- `HashSet` of keys read as numbers: a list without repetition, in iteration order.
use Prim.Native.Nat.{ℕ}
use mathlib.Core.Path.{◌≡◌, refl}
use mathlib.Core.Bool.{Bool, true, false, ◌||◌, ◌&&◌}
use mathlib.Core.List.{List, [], ◌∷◌}
use native.Mathlib.Omega.{arith}
use tusk_ubuntu.Prelude.Tests.{◌==◌, if◌then◌else◌}
use tusk_ubuntu.Prelude.Lists.{filter}

unfoldable pub contains : ℕ → List ℕ → Bool
contains k [] = false
contains k (x ∷ xs) = x == k || contains k xs

-- `insert`; whether the key was new is `not (contains k xs)`.
unfoldable pub insert : ℕ → List ℕ → List ℕ
unfolding contains
insert k xs = if contains k xs then xs else k ∷ xs

pub contains-insert : (k j : ℕ) (xs : List ℕ) → contains j (insert k xs) ≡ (k == j || contains j xs)
unfolding insert contains
contains-insert k j xs = ground (arith, contains_eq k j xs)
  where
    contains_eq : (k j : ℕ) (xs : List ℕ) → contains k xs ≡ true → k ≡ j → contains j xs ≡ true
    contains_eq k j xs h e = ground arith

pub contains-cons : (k x : ℕ) (xs : List ℕ) → contains k (x ∷ xs) ≡ (x == k || contains k xs)
unfolding contains
contains-cons k x xs = refl

-- No element twice.
abbrev pub Distinct : List ℕ → Type 0
Distinct [] = Unit
Distinct (x ∷ xs) = (contains x xs ≡ false) × Distinct xs

-- The members of `xs` that `ys` has too.
unfoldable pub common : List ℕ → List ℕ → List ℕ
common xs ys = filter (λ x. contains x ys) xs

pub contains-filter :
    (p : ℕ → Bool) (k : ℕ) (xs : List ℕ) → contains k (filter p xs) ≡ (contains k xs && p k)
unfolding contains
contains-filter p k [] = refl
contains-filter p k (x ∷ xs) = ground (arith, contains-filter p k xs)

pub filter-Distinct : (p : ℕ → Bool) (xs : List ℕ) → Distinct xs → Distinct (filter p xs)
filter-Distinct p [] d = tt
filter-Distinct p (x ∷ xs) d = ground (arith, filter-Distinct p xs d.1, contains-filter p x xs)

pub insert-Distinct : (k : ℕ) (xs : List ℕ) → Distinct xs → Distinct (insert k xs)
unfolding insert
insert-Distinct k xs d = ground arith

pub contains-insert_self : (k : ℕ) (xs : List ℕ) → contains k (insert k xs) ≡ true
contains-insert_self k xs = ground (arith, contains-insert k k xs)
