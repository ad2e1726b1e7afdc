-- ===== src/Core/Synchronizer.antt =====
-- primary/src/synchronizer.rs: whether the parents, the payload and the ancestors that a message refers
-- to are at hand, and the requests for what is missing.
use tusk_ubuntu.Prelude.{
  Bool, true, false, Option, none, some, List, [], ◌∷◌, ◌++◌, map, find, any, length, ◌==◌,
  if◌then◌else◌,
}
use tusk_ubuntu.Prelude.Map
use tusk_ubuntu.Prelude.Result.{Result, ok, err}
use tusk_ubuntu.Config.{WorkerId}
use tusk_ubuntu.Crypto.{Digest}
use tusk_ubuntu.Messages.{
  store_error, serialization_error, Header, Certificate, genesis, cert_digest,
}
use tusk_ubuntu.Store.{Key, Value, StoreError, digest_key, payload_key}
use tusk_ubuntu.Core.{Core, Setup, sync_parents, sync_batches, wait_certificate}
use tusk_ubuntu.Core.Actions.{Action, Answer, done, failed, ◌>>=◌, ◌>>◌, pure, send}

module _ {D : Type 0} (setup : Setup D) where
  open setup use {name, committee, primitives, database, decode_certificate}

  -- `Synchronizer::new` computes the genesis with its digests.
  unfoldable pub genesis_digests : List (Digest × Certificate)
  genesis_digests = map (λ x. (cert_digest primitives x, x)) (genesis committee)

  abbrev from_store : {A : Type 0} → Core D → Result StoreError A → Core D × Answer A
  from_store s (ok a) = (s, done a)
  from_store s (err e) = (s, failed store_error)

  -- `self.store.read(key).await?`
  abbrev pub read_store : Key → Action D (Option Value)
  read_store key s = from_store s (database.get s.store key)

  abbrev decode : Option Certificate → Action D Certificate
  decode none s = (s, failed serialization_error)
  decode (some x) s = (s, done x)

  unfoldable pub missing_batches :
      List (Digest × WorkerId) → List (Digest × WorkerId) → Action D (List (Digest × WorkerId))
  missing_batches [] missing = pure missing
  missing_batches ((digest, worker_id) ∷ payload) missing =
      read_store (payload_key digest worker_id) >>= λ found. elim found [
        | none ↦ missing_batches payload (Map.insert digest worker_id missing)
        | some _ ↦ missing_batches payload missing
      ]

  unfoldable pub missing_payload : Header → Action D Bool
  unfolding missing_batches
  missing_payload h =
      if h.author == name
      then pure false
      else (missing_batches h.payload [] >>= λ missing.
          if length missing == 0 then pure false else (send (sync_batches missing h) >> pure true))

  -- The loop over the parents; `parents` and `missing` grow at their ends.
  unfoldable pub collect_parents :
      List Digest → List Certificate → List Digest → Action D (List Certificate × List Digest)
  unfolding genesis_digests
  collect_parents [] parents missing = pure (parents, missing)
  collect_parents (d ∷ ds) parents missing = elim (find (λ e. e.0 == d) genesis_digests) [
    | some (_, x) ↦ collect_parents ds (parents ++ x ∷ []) missing
    | none ↦ read_store (digest_key d) >>= λ found. elim found [
      | none ↦ collect_parents ds parents (missing ++ d ∷ [])
      | some value ↦
          decode (decode_certificate value) >>= λ x. collect_parents ds (parents ++ x ∷ []) missing
    ]
  ]

  unfoldable pub get_parents : Header → Action D (List Certificate)
  unfolding collect_parents
  get_parents h = collect_parents h.parents [] [] >>= λ (parents, missing).
      if length missing == 0 then pure parents else (send (sync_parents missing h) >> pure [])

  unfoldable pub deliver_parents : Certificate → List Digest → Action D Bool
  unfolding genesis_digests
  deliver_parents x [] = pure true
  deliver_parents x (d ∷ ds) =
      let rest = deliver_parents x ds in
      if any (λ e. e.0 == d) genesis_digests
      then rest
      else (read_store (digest_key d) >>= λ found. elim found [
        | none ↦ (send (wait_certificate x) >> pure false)
        | some _ ↦ rest
      ])

  unfoldable pub deliver_certificate : Certificate → Action D Bool
  unfolding deliver_parents
  deliver_certificate x = deliver_parents x x.header.parents
