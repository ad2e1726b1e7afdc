-- ===== src/Primary/HeaderWaiter/Asked.antt =====
-- primary/src/header_waiter.rs: the loop that collects the batches to ask each worker for.
use tusk_ubuntu.Prelude.{
  ℕ, ◌≡◌, refl, Bool, true, false, not, ◌&&◌, ◌||◌, Option, none, some, List, [], ◌∷◌, ◌++◌, ◌==◌,
  if◌then◌else◌, All, is_some, Bool-cases, ==→eq, inl, inr, arith,
}
use tusk_ubuntu.Prelude.Map
use tusk_ubuntu.Prelude.Set
use tusk_ubuntu.Prelude.Set.{Distinct}
use tusk_ubuntu.Config.{WorkerId}
use tusk_ubuntu.Crypto.{Digest}
use tusk_ubuntu.Messages.{Round}
use tusk_ubuntu.Primary.HeaderWaiter.{note_batches}

-- The digests to ask a worker for.
unfoldable pub asked_of : WorkerId → List (WorkerId × List Digest) → List Digest
unfolding Map.entry_or
asked_of id requires_sync = Map.entry_or id [] requires_sync

-- The batch is missing, at this worker, and not on record.
unfoldable pub is_new : List (Digest × WorkerId) → List (Digest × Round) → WorkerId → Digest → Bool
is_new missing noted id d = is_at id (Map.get d missing) && not (is_some (Map.get d noted))
  where
    is_at : WorkerId → Option WorkerId → Bool
    is_at id none = false
    is_at id (some i) = i == id

abbrev pub Missing : Type 0
Missing = List (Digest × WorkerId)

-- What is asked for is on record, and once.
abbrev pub IsNoted : List (Digest × Round) → List (WorkerId × List Digest) → Type 0
IsNoted noted requires_sync =
    (id : WorkerId)
    → Distinct (asked_of id requires_sync)
      × ((d : Digest)
          → Set.contains d (asked_of id requires_sync) ≡ true
          → is_some (Map.get d noted) ≡ true)

contains-snoc :
    (d x : Digest) (xs : List Digest)
    → Set.contains d (xs ++ x ∷ []) ≡ (Set.contains d xs || x == d)
unfolding Set.contains
contains-snoc d x [] = ground arith
contains-snoc d x (y ∷ ys) = ground (arith, contains-snoc d x ys)

snoc-Distinct :
    (x : Digest) (xs : List Digest)
    → Set.contains x xs ≡ false
    → Distinct xs
    → Distinct (xs ++ x ∷ [])
unfolding Set.contains
snoc-Distinct x [] n d = (refl, tt)
snoc-Distinct x (y ∷ ys) n d = ground (arith, contains-snoc y x ys, snoc-Distinct x ys)

abbrev ask : WorkerId → Digest → List (WorkerId × List Digest) → List (WorkerId × List Digest)
ask id digest requires_sync =
    Map.insert id (Map.entry_or id [] requires_sync ++ digest ∷ []) requires_sync

asked_of-ask :
    (id i : WorkerId) (digest : Digest) (requires_sync : List (WorkerId × List Digest))
    → asked_of i (ask id digest requires_sync)
      ≡ (if id == i then asked_of id requires_sync ++ digest ∷ [] else asked_of i requires_sync)
unfolding asked_of
asked_of-ask id i digest requires_sync =
    Map.entry_or-insert_at id i [] (Map.entry_or id [] requires_sync ++ digest ∷ []) requires_sync

contains-ask :
    (id i : WorkerId) (digest d : Digest) (requires_sync : List (WorkerId × List Digest))
    → Set.contains d (asked_of i (ask id digest requires_sync))
      ≡ (Set.contains d (asked_of i requires_sync) || (id == i && digest == d))
contains-ask id i digest d requires_sync = elim (Bool-cases (id == i)) [
  | inl q ↦
      let e = ==→eq id i q in
      rw (asked_of-ask id i digest requires_sync, q, e)
        (contains-snoc d digest (asked_of i requires_sync))
  | inr q ↦ rw (asked_of-ask id i digest requires_sync, q) (ground arith)
]

IsNoted-ask :
    (round : Round) (id : WorkerId) (digest : Digest) (noted : List (Digest × Round))
    (requires_sync : List (WorkerId × List Digest))
    → is_some (Map.get digest noted) ≡ false
    → IsNoted noted requires_sync
    → IsNoted (Map.insert digest round noted) (ask id digest requires_sync)
IsNoted-ask round id digest noted requires_sync f n i = elim (Bool-cases (id == i)) [
  | inl q ↦
      let (once, known) = n id in
      let fresh : Set.contains digest (asked_of id requires_sync) ≡ false =
        ground (arith, known digest, f) in
      rw (asked_of-ask id i digest requires_sync, q)
        (
          snoc-Distinct digest (asked_of id requires_sync) fresh once,
          λ d c. ground (
            arith,
            known d,
            contains-snoc d digest (asked_of id requires_sync),
            Map.get-insert digest d round noted,
            c,
          ),
        )
  | inr q ↦
      let (once, known) = n i in
      rw (asked_of-ask id i digest requires_sync, q)
        (once, λ d c. ground (arith, known d c, Map.get-insert digest d round noted))
]

-- The result of the loop: the digests that are new for a worker join those to ask it for, and all new
-- ones come on record with the round.
pub record Notes (round : Round) (missing : Missing) (noted : List (Digest × Round))
    (requires_sync : List (WorkerId × List Digest))
    (r : List (Digest × Round) × List (WorkerId × List Digest)) : Type 0 where
  pub once : IsNoted r.0 r.1
  pub asked :
      (id : WorkerId) (d : Digest)
      → Set.contains d (asked_of id r.1)
        ≡ (Set.contains d (asked_of id requires_sync) || is_new missing noted id d)
  pub kept :
      (d : Digest)
      → Map.get d r.0 ≡ (
          if is_some (Map.get d missing) && not (is_some (Map.get d noted))
          then some round
          else Map.get d noted)

Notes-skip :
    (round : Round) (digest : Digest) (id : WorkerId) (missing : Missing)
    (noted : List (Digest × Round)) (requires_sync : List (WorkerId × List Digest))
    (r : List (Digest × Round) × List (WorkerId × List Digest))
    → is_some (Map.get digest noted) ≡ true
    → Notes round missing noted requires_sync r
    → Notes round ((digest, id) ∷ missing) noted requires_sync r
unfolding Map.get is_new
Notes-skip round digest id missing noted requires_sync r q n = record {
  once = n.once;
  asked = λ i d. ground (arith, q, n.asked i d);
  kept = λ d. ground (arith, q, n.kept d);
}

Notes-ask :
    (round : Round) (digest : Digest) (id : WorkerId) (missing : Missing)
    (noted : List (Digest × Round)) (requires_sync : List (WorkerId × List Digest))
    (r : List (Digest × Round) × List (WorkerId × List Digest))
    → is_some (Map.get digest noted) ≡ false
    → Notes round missing (Map.insert digest round noted) (ask id digest requires_sync) r
    → Notes round ((digest, id) ∷ missing) noted requires_sync r
unfolding Map.get is_new
Notes-ask round digest id missing noted requires_sync r q n = record {
  once = n.once;
  asked = λ i d. ground (
    arith,
    q,
    n.asked i d,
    contains-ask id i digest d requires_sync,
    Map.get-insert digest d round noted,
  );
  kept = λ d. ground (arith, q, n.kept d, Map.get-insert digest d round noted);
}

pub note_batches-Notes :
    (round : Round) (missing : Missing) (noted : List (Digest × Round))
    (requires_sync : List (WorkerId × List Digest))
    → IsNoted noted requires_sync
    → Notes round missing noted requires_sync (note_batches round missing noted requires_sync)
unfolding note_batches Map.contains_key is_new
note_batches-Notes round [] noted requires_sync n = record {
  once = n;
  asked = λ id d. ground arith;
  kept = λ d. refl;
}
note_batches-Notes round ((digest, id) ∷ missing) noted requires_sync n =
    elim (Bool-cases (is_some (Map.get digest noted))) [
      | inl q ↦ rw q (
          Notes-skip round digest id missing noted requires_sync _ q
            (note_batches-Notes round missing noted requires_sync n))
      | inr q ↦ rw q (
          Notes-ask round digest id missing noted requires_sync _ q (
            note_batches-Notes round missing (Map.insert digest round noted)
              (ask id digest requires_sync) (IsNoted-ask round id digest noted requires_sync q n)))
    ]

All-insert :
    {V : Type 0} (P : ℕ → Type 0) (k : ℕ) (v : V) (m : List (ℕ × V))
    → P k
    → All (λ e. P e.0) m
    → All (λ e. P e.0) (Map.insert k v m)
unfolding Map.insert
All-insert P k v [] p a = (p, tt)
All-insert P k v ((j, w) ∷ m) p a = elim (Bool-cases (j == k)) [
  | inl q ↦ rw q (p, a.1)
  | inr q ↦ rw q (a.0, All-insert P k v m p a.1)
]

-- Only workers of missing batches are asked.
pub note_batches-All :
    (P : WorkerId → Type 0) (round : Round) (missing : Missing) (noted : List (Digest × Round))
    (requires_sync : List (WorkerId × List Digest))
    → All (λ e. P e.1) missing
    → All (λ e. P e.0) requires_sync
    → All (λ e. P e.0) (note_batches round missing noted requires_sync).1
unfolding note_batches Map.contains_key
note_batches-All P round [] noted requires_sync m a = a
note_batches-All P round ((digest, id) ∷ missing) noted requires_sync m a =
    elim (Bool-cases (is_some (Map.get digest noted))) [
      | inl q ↦ rw q (note_batches-All P round missing noted requires_sync m.1 a)
      | inr q ↦ rw q (
          note_batches-All P round missing (Map.insert digest round noted)
            (ask id digest requires_sync) m.1 (All-insert P id _ requires_sync m.0 a))
    ]
