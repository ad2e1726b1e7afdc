-- ===== src/Prelude/Btree.antt =====
-- `BTreeMap` and `BTreeSet` collected from an iterator: entries in the order of their keys, of which
-- the last for a key stays.
use Prim.Native.Nat.{ℕ}
use mathlib.Core.List.{List, [], ◌∷◌, map}
use tusk_ubuntu.Prelude.Tests.{ltb, ◌==◌, if◌then◌else◌}

module _ {ℓ} {V : Type ℓ} where
  unfoldable pub insert : ℕ → V → List (ℕ × V) → List (ℕ × V)
  insert key value [] = (key, value) ∷ []
  insert key value ((k, old) ∷ entries) =
      if ltb key k
      then (key, value) ∷ (k, old) ∷ entries
      else (if k == key then (key, value) ∷ entries else (k, old) ∷ insert key value entries)

  unfoldable pub collect_into : List (ℕ × V) → List (ℕ × V) → List (ℕ × V)
  unfolding insert
  collect_into m [] = m
  collect_into m ((k, v) ∷ entries) = collect_into (insert k v m) entries

  unfoldable pub collect : List (ℕ × V) → List (ℕ × V)
  unfolding collect_into
  collect entries = collect_into [] entries

abbrev units : List ℕ → List (ℕ × Unit {0})
units [] = []
units (k ∷ ks) = (k, tt) ∷ units ks

unfoldable pub collect_set : List ℕ → List ℕ
unfolding collect
collect_set keys = map (λ e. e.0) (collect (units keys))
