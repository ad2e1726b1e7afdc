-- ===== src/Primary/PayloadReceiver/Payload.antt =====
-- primary/src/payload_receiver.rs and synchronizer.rs together: which batches of a header are missing,
-- once the workers have reported some.
use tusk_ubuntu.Prelude.{
  ℕ, ◌^◌, ◌<◌, ◌≡◌, ◌∙◌, refl, sym, ap, Bool, true, false, not, ◌&&◌, Option, none, some, List, [],
  ◌∷◌, ◌++◌, ◌==◌, any, length, if◌then◌else◌, All, &&_parts, Bool-cases, inl, inr, ==→eq, u32_mod,
  arith,
}
use tusk_ubuntu.Prelude.Map
use tusk_ubuntu.Prelude.Result.{Result, ok}
use tusk_ubuntu.Config.{WorkerId}
use tusk_ubuntu.Crypto.{Digest}
use tusk_ubuntu.Messages.{Header}
use tusk_ubuntu.Store.{Key, Value, StoreError, Database, payload_key}
use tusk_ubuntu.Store.Keys.{payload_key-injective}
use tusk_ubuntu.Core.{Core, Setup, sync_batches}
use tusk_ubuntu.Core.Actions.{done}
use tusk_ubuntu.Core.Synchronizer.{missing_batches, missing_payload}
use tusk_ubuntu.Primary.PayloadReceiver.{receive}

abbrev pub Reports : Type 0
Reports = List (Digest × WorkerId)

-- The worker has reported the batch.
unfoldable pub is_reported : Reports → Digest → WorkerId → Bool
is_reported reports d w = any (λ r. r.0 == d && r.1 == w) reports

-- A digest of 32 bytes, and a worker of a `u32`.
abbrev pub Fits : Digest × WorkerId → Type 0
Fits e = (e.0 < 256 ^ 32) × (e.1 < u32_mod)

module _ {D : Type 0} (database : Database D)
    (get_put : (d : D) (k j : Key) (v : Value)
      → database.get (database.put d k v) j
        ≡ (if k == j then ok (some v) else database.get d j)) where
  same_key :
      (x d : Digest) (y w : WorkerId)
      → Fits (x, y)
      → Fits (d, w)
      → (payload_key x y == payload_key d w) ≡ (x == d && y == w)
  same_key x d y w f g = elim (Bool-cases (payload_key x y == payload_key d w)) [
    | inl q ↦
        let (e, i) =
          payload_key-injective x d y w f.0 g.0 f.1 g.1
            (==→eq (payload_key x y) (payload_key d w) q) in
        q ∙ ground (arith, e, i)
    | inr q ↦ elim (Bool-cases (x == d && y == w)) [
      | inl t ↦
          let (i, j) = &&_parts (x == d) (y == w) t in
          let e : payload_key x y ≡ payload_key d w = rw (==→eq x d i, ==→eq y w j) refl in
          absurd (ground (arith, e, q))
      | inr n ↦ q ∙ sym n
    ]
  ]

  get-receive :
      (reports : Reports) (store : D) (d : Digest) (w : WorkerId)
      → All Fits reports
      → Fits (d, w)
      → database.get (receive database reports store) (payload_key d w)
        ≡ (if is_reported reports d w then ok (some []) else database.get store (payload_key d w))
  unfolding receive is_reported
  get-receive [] store d w f g = refl
  get-receive ((x, y) ∷ reports) store d w f g =
      let stored = database.put store (payload_key x y) [] in
      let later = get-receive reports stored d w f.1 g in
      let put = get_put store (payload_key x y) (payload_key d w) [] in
      let same = same_key x d y w f.0 g in
      later ∙ elim (Bool-cases (x == d && y == w)) [
        | inl t ↦ rw (put, same, t) (same_either (is_reported reports d w))
        | inr n ↦ rw (put, same, n) refl
      ]
    where
      same_either : {v : Result StoreError (Option Value)} (b : Bool) → (if b then v else v) ≡ v
      same_either true = refl
      same_either false = refl

abbrev pub unreported : Reports → Digest × WorkerId → Bool
unreported reports e = not (is_reported reports e.0 e.1)

-- What a request for missing batches leaves of the state.
abbrev Asks : {D : Type 0} → Core D → Header → Bool → Core D → Type 0
Asks s h false t = t ≡ s
Asks s h true t =
    (found : List (Digest × WorkerId)) × (t
      ≡ record s { sent = s.sent ++ sync_batches found h ∷ [] })

-- A list that is not empty stays so.
length-insert :
    {V : Type 0} (k : ℕ) (v : V) (m : List (ℕ × V)) → (length (Map.insert k v m) == 0) ≡ false
unfolding Map.insert
length-insert k v [] = ground arith
length-insert k v ((j, w) ∷ m) = ground arith

module _ {D : Type 0} (setup : Setup D)
    (get_put : (d : D) (k j : Key) (v : Value)
      → setup.database.get (setup.database.put d k v) j
        ≡ (if k == j then ok (some v) else setup.database.get d j))
    (reports : Reports) (store : D) (fit : All Fits reports) (s : Core D)
    (received : s.store ≡ receive setup.database reports store) where
  missing_batches_lem :
      (payload missing : List (Digest × WorkerId))
      → All (λ e. Fits e × (setup.database.get store (payload_key e.0 e.1) ≡ ok none)) payload
      → (found : List (Digest × WorkerId)) × (missing_batches setup payload missing s
          ≡ (s, done found))
        × ((length found == 0) ≡ (length missing == 0 && not (any (unreported reports) payload)))
  unfolding missing_batches
  missing_batches_lem [] missing a = (missing, refl, ground arith)
  missing_batches_lem ((d, w) ∷ payload) missing a =
      let read =
        ap (λ st. setup.database.get st (payload_key d w)) received
        ∙ get-receive setup.database get_put reports store d w fit a.0.0 in
      elim (Bool-cases (is_reported reports d w)) [
        | inl t ↦
            let (found, e, n) = missing_batches_lem payload missing a.1 in
            (found, rw (rw t at read) e, n ∙ rw t refl)
        | inr f ↦
            let (found, e, n) = missing_batches_lem payload (Map.insert d w missing) a.1 in
            (
              found,
              rw (rw f at read ∙ a.0.1) e,
              n ∙ rw (f, length-insert d w missing) (ground arith),
            )
      ]

  asks :
      (h : Header) (found : List (Digest × WorkerId)) (b : Bool)
      → missing_batches setup h.payload [] s ≡ (s, done found)
      → (length found == 0) ≡ not b
      → (h.author == setup.name) ≡ false
      → (t : Core D) × (missing_payload setup h s ≡ (t, done b)) × Asks s h b t
  unfolding missing_payload
  asks h found true e n o =
      (record s { sent = s.sent ++ sync_batches found h ∷ [] }, rw (o, e, n) refl, (found, refl))
  asks h found false e n o = (s, rw (o, e, n) refl, refl)

  -- If the database answers what was put last, digests have 32 bytes and workers are numbered by `u32`,
  -- then for the header of another author, of whose batches the store knew none before the reports,
  -- `missing_payload` is `true` exactly if some batch was not reported by the worker that the header
  -- names for it; it asks for batches in this case, and changes nothing in the other.
  pub missing_payload_iff :
      (h : Header)
      → (h.author == setup.name) ≡ false
      → All (λ e. Fits e × (setup.database.get store (payload_key e.0 e.1) ≡ ok none)) h.payload
      → (t : Core D) × (missing_payload setup h s ≡ (t, done (any (unreported reports) h.payload)))
        × Asks s h (any (unreported reports) h.payload) t
  missing_payload_iff h o a =
      let (found, e, n) = missing_batches_lem h.payload [] a in
      asks h found (any (unreported reports) h.payload) e n o
