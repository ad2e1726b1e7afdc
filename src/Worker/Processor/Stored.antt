-- ===== src/Worker/Processor/Stored.antt =====
-- worker/src/processor.rs: what the processor leaves in the store, under the digests of the batches.
use tusk_ubuntu.Prelude.{
  ℕ, ◌^◌, ◌<◌, ◌≡◌, ◌⊎◌, ◌∙◌, sym, ap, false, Option, some, List, [], ◌∷◌, map, ◌==◌, if◌then◌else◌,
  In, In-cons, All, Bool-cases, inl, inr, ==→eq, arith,
}
use tusk_ubuntu.Prelude.Result.{Result, ok}
use tusk_ubuntu.Crypto.{Digest, Primitives}
use tusk_ubuntu.Store.{Key, Value, StoreError, Database, digest_key}
use tusk_ubuntu.Store.Keys.{digest_key-injective}
use tusk_ubuntu.Network.Connection.{Bytes}
use tusk_ubuntu.Worker.BatchMaker.{Batch}
use tusk_ubuntu.Worker.Processor.{Setup, Processor, process, run}
use tusk_ubuntu.Worker.Dispatch.{WorkerMessage, batch}

-- What the code relies on: the database answers what was put last, and a digest has 32 bytes.
pub record Laws {D : Type 0} (ops : Database D) (c : Primitives) : Type 0 where
  pub get_put :
      (d : D) (k j : Key) (v : Value)
      → ops.get (ops.put d k v) j ≡ (if k == j then ok (some v) else ops.get d j)
  pub fits : (bytes : List ℕ) → c.sha512 bytes < 256 ^ 32

-- The bytes are a message with a batch.
abbrev pub IsBatch : (Bytes → Option WorkerMessage) → Bytes → Type 0
IsBatch decode bytes = (b : Batch) × (decode bytes ≡ some (batch b))

module _ {D : Type 0} (setup : Setup D) where
  -- What stands in the store under a digest is a batch with this digest.
  abbrev pub IsAddressed : (Bytes → Option WorkerMessage) → D → Type 0
  IsAddressed decode store =
      (d : Digest) (value : Value)
      → d < 256 ^ 32
      → setup.database.get store (digest_key d) ≡ ok (some value)
      → (setup.primitives.sha512 value ≡ d) × IsBatch decode value

  abbrev pub Holds : D → Digest → Type 0
  Holds store d = (value : Value) × (setup.database.get store (digest_key d) ≡ ok (some value))

stored-injective :
    {v w : Value} → ◌≡◌ {A = Result StoreError (Option Value)} (ok (some v)) (ok (some w)) → v ≡ w
stored-injective h = cc

module _ {D : Type 0} (setup : Setup D) (laws : Laws setup.database setup.primitives)
    (decode : Bytes → Option WorkerMessage) where
  open setup use {primitives, database}

  process-IsAddressed :
      (bytes : Value) (s : Processor D)
      → IsBatch decode bytes
      → IsAddressed setup decode s.store
      → IsAddressed setup decode (process setup bytes s).store
  unfolding process
  process-IsAddressed bytes s b a d value fits h =
      let key = digest_key (primitives.sha512 bytes) in
      let put = laws.get_put s.store key (digest_key d) bytes in
      elim (Bool-cases (key == digest_key d)) [
        | inl q ↦
            let e = digest_key-injective _ d (laws.fits bytes) fits (==→eq key (digest_key d) q) in
            let v = stored-injective (sym (rw q at put) ∙ h) in rw (← v) (e, b)
        | inr q ↦ a d value fits (sym (rw q at put) ∙ h)
      ]

  process-Holds :
      (bytes : Value) (s : Processor D) (d : Digest)
      → (primitives.sha512 bytes ≡ d) ⊎ Holds setup s.store d
      → Holds setup (process setup bytes s).store d
  unfolding process
  process-Holds bytes s d known =
      let key = digest_key (primitives.sha512 bytes) in
      let put = laws.get_put s.store key (digest_key d) bytes in
      elim (Bool-cases (key == digest_key d)) [
        | inl q ↦ (bytes, rw q at put)
        | inr q ↦ elim known [
          | inl e ↦ absurd (differ key (digest_key d) (ap digest_key e) q)
          | inr (value, h) ↦ (value, (rw q at put) ∙ h)
        ]
      ]
    where
      differ : (k j : ℕ) → k ≡ j → (k == j) ≡ false → ⊥
      differ k j e q = ground arith

  -- What was stored, or is processed, is in the store at the end.
  pub run-Holds :
      (batches : List Value) (s : Processor D) (d : Digest)
      → In d (map primitives.sha512 batches) ⊎ Holds setup s.store d
      → Holds setup (run setup batches s).store d
  unfolding run
  run-Holds [] s d (inl i) = elim i [ ]
  run-Holds [] s d (inr h) = h
  run-Holds (b ∷ bs) s d (inl i) = elim (In-cons i) [
    | inl e ↦ run-Holds bs (process setup b s) d (inr (process-Holds b s d (inl (sym e))))
    | inr j ↦ run-Holds bs (process setup b s) d (inl j)
  ]
  run-Holds (b ∷ bs) s d (inr h) =
      run-Holds bs (process setup b s) d (inr (process-Holds b s d (inr h)))

  pub run-IsAddressed :
      (batches : List Value) (s : Processor D)
      → All (IsBatch decode) batches
      → IsAddressed setup decode s.store
      → IsAddressed setup decode (run setup batches s).store
  unfolding run
  run-IsAddressed [] s b a = a
  run-IsAddressed (x ∷ xs) s b a =
      run-IsAddressed xs (process setup x s) b.1 (process-IsAddressed x s b.0 a)
