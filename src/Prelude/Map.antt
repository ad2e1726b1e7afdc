-- ===== src/Prelude/Map.antt =====
-- `HashMap` and `BTreeMap` with keys read as numbers: association lists, in iteration order.
use Prim.Native.Nat.{ℕ}
use mathlib.Core.Path.{◌≡◌, refl}
use mathlib.Core.Bool.{Bool, not}
use mathlib.Core.List.{List, [], ◌∷◌}
use mathlib.Core.Option.{Option, none, some}
use native.Mathlib.Omega.{arith}
use tusk_ubuntu.Prelude.Tests.{◌==◌, if◌then◌else◌, is_some}

module _ {ℓ} {V : Type ℓ} where
  unfoldable pub get : ℕ → List (ℕ × V) → Option V
  get k [] = none
  get k ((j, v) ∷ m) = if j == k then some v else get k m

  unfoldable pub insert : ℕ → V → List (ℕ × V) → List (ℕ × V)
  insert key value [] = (key, value) ∷ []
  insert key value ((k, old) ∷ entries) =
      if k == key then (key, value) ∷ entries else (k, old) ∷ insert key value entries

  -- `retain(|k, v| p k v)`
  unfoldable pub retain : (ℕ → V → Bool) → List (ℕ × V) → List (ℕ × V)
  retain p [] = []
  retain p ((j, w) ∷ m) = let rest = retain p m in if p j w then (j, w) ∷ rest else rest

  unfoldable pub remove : ℕ → List (ℕ × V) → List (ℕ × V)
  unfolding retain
  remove k = retain (λ j _. not (j == k))

  unfoldable pub contains_key : ℕ → List (ℕ × V) → Bool
  unfolding get
  contains_key k m = is_some (get k m)

  -- `entry(k).or_insert_with(|| d)`, read.
  unfoldable pub entry_or : ℕ → V → List (ℕ × V) → V
  unfolding get
  entry_or k d m = elim (get k m) [ none ↦ d | some v ↦ v ]

  pub get-insert :
      (k j : ℕ) (v : V) (m : List (ℕ × V))
      → get j (insert k v m) ≡ (if k == j then some v else get j m)
  unfolding get insert
  get-insert k j v [] = refl
  get-insert k j v ((i, w) ∷ m) = ground (arith, get-insert k j v m)

  pub get-retain_key :
      (p : ℕ → Bool) (j : ℕ) (m : List (ℕ × V))
      → get j (retain (λ k _. p k) m) ≡ (if p j then get j m else none)
  unfolding get retain
  get-retain_key p j [] = ground arith
  get-retain_key p j ((i, w) ∷ m) = ground (arith, get-retain_key p j m)

  pub get-remove :
      (k j : ℕ) (m : List (ℕ × V)) → get j (remove k m) ≡ (if j == k then none else get j m)
  unfolding remove
  get-remove k j m = ground (arith, get-retain_key (λ i. not (i == k)) j m)

  pub entry_or-insert : (k : ℕ) (d v : V) (m : List (ℕ × V)) → entry_or k d (insert k v m) ≡ v
  unfolding entry_or
  entry_or-insert k d v m = rw (entry_or, get-insert k k v m) (ground arith)

  pub entry_or-insert_at :
      (k j : ℕ) (d v : V) (m : List (ℕ × V))
      → entry_or j d (insert k v m) ≡ (if k == j then v else entry_or j d m)
  unfolding entry_or
  entry_or-insert_at k j d v m = rw (entry_or, get-insert k j v m) (ground arith)

  pub entry_or-remove :
      (k j : ℕ) (d : V) (m : List (ℕ × V))
      → entry_or j d (remove k m) ≡ (if j == k then d else entry_or j d m)
  unfolding entry_or
  entry_or-remove k j d m = rw (entry_or, get-remove k j m) (ground arith)
