-- ===== src/Prelude/Keys.antt =====
-- The keys of a map, each of which stands for one entry.
use Prim.Native.Nat.{ℕ}
use mathlib.Core.Path.{◌≡◌, refl}
use mathlib.Core.Bool.{Bool, true, false}
use mathlib.Core.List.{List, [], ◌∷◌}
use mathlib.Core.Logic.{inl, inr}
use mathlib.Core.Option.{Option, none, some}
use native.Mathlib.Omega.{arith}
use tusk_ubuntu.Prelude.Tests.{◌==◌, if◌then◌else◌, is_some, Bool-cases, Option-cases, ==→eq}
use tusk_ubuntu.Prelude.Map.{get, insert, retain, get-insert}
use tusk_ubuntu.Prelude.Set.{contains, Distinct}

module _ {ℓ} {V : Type ℓ} where
  abbrev pub keys : List (ℕ × V) → List ℕ
  keys [] = []
  keys ((k, _) ∷ m) = k ∷ keys m

  -- An entry that passes the test.
  abbrev pub keep_if : (V → Bool) → Option V → Option V
  keep_if p none = none
  keep_if p (some v) = if p v then some v else none

  pub contains-keys : (j : ℕ) (m : List (ℕ × V)) → contains j (keys m) ≡ is_some (get j m)
  unfolding contains get
  contains-keys j [] = refl
  contains-keys j ((k, v) ∷ m) = ground (arith, contains-keys j m)

  pub keys-insert-Distinct :
      (k : ℕ) (v : V) (m : List (ℕ × V)) → Distinct (keys m) → Distinct (keys (insert k v m))
  unfolding insert contains
  keys-insert-Distinct k v [] d = (refl, tt)
  keys-insert-Distinct k v ((j, w) ∷ m) d = elim (Bool-cases (j == k)) [
    | inl q ↦ let e = ==→eq j k q in rw (q, ← e) d
    | inr q ↦ rw q (
      ground (arith, q, d.0, contains-keys j (insert k v m), contains-keys j m, get-insert k j v m),
      keys-insert-Distinct k v m d.1,
    )
  ]

  keys-retain :
      (p : ℕ → V → Bool) (j : ℕ) (m : List (ℕ × V))
      → contains j (keys (retain p m)) ≡ true
      → contains j (keys m) ≡ true
  unfolding retain contains
  keys-retain p j [] h = h
  keys-retain p j ((k, v) ∷ m) h = ground (arith, keys-retain p j m)

  pub keys-retain-Distinct :
      (p : ℕ → V → Bool) (m : List (ℕ × V)) → Distinct (keys m) → Distinct (keys (retain p m))
  unfolding retain
  keys-retain-Distinct p [] d = tt
  keys-retain-Distinct p ((k, v) ∷ m) d =
      ground (arith, keys-retain p k m, keys-retain-Distinct p m d.1)

  get-absent : (j : ℕ) (m : List (ℕ × V)) → contains j (keys m) ≡ false → get j m ≡ none
  get-absent j m h = elim (Option-cases (get j m)) [
    | inl n ↦ n
    | inr (v, e) ↦ absurd (present j m v e h)
  ]
    where
      present :
          (j : ℕ) (m : List (ℕ × V)) (v : V) → get j m ≡ some v → contains j (keys m) ≡ false → ⊥
      present j m v e h = let c : contains j (keys m) ≡ true = rw (contains-keys j m, e) refl in cc

  -- With distinct keys, `retain` by the value keeps exactly the entries whose value passes.
  pub get-retain :
      (p : V → Bool) (j : ℕ) (m : List (ℕ × V))
      → Distinct (keys m)
      → get j (retain (λ _ v. p v) m) ≡ keep_if p (get j m)
  unfolding get retain
  get-retain p j [] d = refl
  get-retain p j ((k, v) ∷ m) d = elim (Bool-cases (k == j)) [
    | inl q ↦
        let n : get j m ≡ none = get-absent j m (rw (← ==→eq k j q) d.0) in
        elim (Bool-cases (p v)) [
          | inl t ↦ rw (t, q, t) refl
          | inr f ↦ rw (f, q, f, get-retain p j m d.1, n) refl
        ]
    | inr q ↦ elim (Bool-cases (p v)) [
      | inl t ↦ rw (t, q) (get-retain p j m d.1)
      | inr f ↦ rw (f, q) (get-retain p j m d.1)
    ]
  ]
