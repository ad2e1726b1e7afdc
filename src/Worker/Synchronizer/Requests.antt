-- ===== src/Worker/Synchronizer/Requests.antt =====
-- worker/src/synchronizer.rs: which digests a request of the primary makes the worker ask for.
use tusk_ubuntu.Prelude.{
  ℕ, ◌≡◌, ◌≢◌, ◌⊎◌, ◌∙◌, sym, refl, inl, inr, true, false, Option, none, some, List, [], ◌∷◌, ◌++◌,
  ◌==◌, Bool-cases, Option-cases, All, arith, ==→eq,
}
use tusk_ubuntu.Prelude.Map
use tusk_ubuntu.Prelude.Set
use tusk_ubuntu.Prelude.Set.{Distinct}
use tusk_ubuntu.Prelude.Result.{Result, Result-cases, ok, err}
use tusk_ubuntu.Crypto.{Digest}
use tusk_ubuntu.Messages.{Round}
use tusk_ubuntu.Config.{PublicKey, WorkerAddresses, worker}
use tusk_ubuntu.Store.{digest_key, StoreError, Value}
use tusk_ubuntu.Worker.Synchronizer.{
  Setup, Synchronizer, synchronize, send, wait_for, request_step, request_all, turn,
}

module _ {D : Type 0} (setup : Setup D) (now : ℕ) where
  -- The digest was not waited for, and the store does not hold it.
  abbrev pub IsMissing : Synchronizer D → Digest → Type 0
  IsMissing s d =
      (Map.get d s.pending ≡ none) × (setup.database.get s.store (digest_key d) ≡ ok none)

  -- What becomes of a digest of the request.
  abbrev pub IsHandled : Synchronizer D → Synchronizer D → Digest → Type 0
  IsHandled s t d =
      (Map.get d t.pending ≢ none)
      ⊎ ((e : StoreError) × (setup.database.get s.store (digest_key d) ≡ err e))

  record Requested (ds : List Digest) (s : Synchronizer D) (r : Synchronizer D × List Digest)
      : Type 0 where
    distinct : Distinct r.1
    missing : All (IsMissing s) r.1
    asked : All (λ d. IsMissing s d → Set.contains d r.1 ≡ true) ds
    given : (d : Digest) → Set.contains d r.1 ≡ true → Set.contains d ds ≡ true
    kept : (d : Digest) → Map.get d s.pending ≢ none → Map.get d r.0.pending ≡ Map.get d s.pending
    handled : All (IsHandled s r.0) ds
    store : r.0.store ≡ s.store
    requests : r.0.requests ≡ s.requests

  -- What a request makes of the state, with the digests that the worker asks for.
  pub record IsRequest (ds : List Digest) (s t : Synchronizer D) (asked_for : List Digest)
      : Type 0 where
    pub distinct : Distinct asked_for
    pub missing : All (IsMissing s) asked_for
    pub asked : All (λ d. IsMissing s d → Set.contains d asked_for ≡ true) ds
    pub given : (d : Digest) → Set.contains d asked_for ≡ true → Set.contains d ds ≡ true
    pub kept : (d : Digest) → Map.get d s.pending ≢ none → Map.get d t.pending ≡ Map.get d s.pending
    pub handled : All (IsHandled s t) ds

  get-wait_for :
      (d : Digest) (s : Synchronizer D) → Map.get d (wait_for setup d now s).pending ≢ none
  get-wait_for d s = rw (Map.get-insert d d (s.round, now) s.pending) (ground arith)

  -- What is missing once `d` is waited for is not `d`, and was missing before.
  IsMissing-wait_for :
      (d : Digest) (s : Synchronizer D) (ks : List Digest)
      → All (IsMissing (wait_for setup d now s)) ks
      → (Set.contains d ks ≡ false) × All (IsMissing s) ks
  unfolding Set.contains
  IsMissing-wait_for d s [] a = (refl, tt)
  IsMissing-wait_for d s (k ∷ ks) a =
      ground (arith, Map.get-insert d k (s.round, now) s.pending, IsMissing-wait_for d s ks a.1)

  kept-wait_for :
      (d k : Digest) (s : Synchronizer D)
      → Map.get d s.pending ≡ none
      → Map.get k s.pending ≢ none
      → Map.get k (wait_for setup d now s).pending ≡ Map.get k s.pending
  kept-wait_for d k s n h = elim (Bool-cases (d == k)) [
    | inl q ↦ absurd (h (rw (← ==→eq d k q) n))
    | inr q ↦ rw (Map.get-insert d k (s.round, now) s.pending, q) refl
  ]

  -- What is missing of the rest of a request is `d`, or still missing once `d` is waited for.
  asked-wait_for :
      (d : Digest) (s : Synchronizer D) (ds missing ms : List Digest)
      → All (λ k. IsMissing (wait_for setup d now s) k → Set.contains k missing ≡ true) ds
      → ((k : Digest)
          → IsMissing s k
          → ((d == k) ≡ true) ⊎ (Set.contains k missing ≡ true)
          → Set.contains k ms ≡ true)
      → All (λ k. IsMissing s k → Set.contains k ms ≡ true) ds
  asked-wait_for d s [] missing ms a f = tt
  asked-wait_for d s (k ∷ ds) missing ms a f = (
    λ m. elim (Bool-cases (d == k)) [
      | inl q ↦ f k m (inl q)
      | inr q ↦ f k m (inr (a.0 (rw (Map.get-insert d k (s.round, now) s.pending, q) m.0, m.1)))
    ],
    asked-wait_for d s ds missing ms a.1 f,
  )

  -- What a request leaves once it has waited for `d`, with the list of the missing digests.
  waited-Requested :
      (d : Digest) (ds : List Digest) (s : Synchronizer D) (w : Synchronizer D × List Digest)
      (ms : List Digest)
      → Map.get d s.pending ≡ none
      → Requested ds (wait_for setup d now s) w
      → Distinct ms
      → All (IsMissing s) ms
      → All (λ k. IsMissing s k → Set.contains k ms ≡ true) (d ∷ ds)
      → ((k : Digest) → Set.contains k ms ≡ true → Set.contains k (d ∷ ds) ≡ true)
      → Requested (d ∷ ds) s (w.0, ms)
  waited-Requested d ds s w ms n u distinct missing asked given = record {
    given = given;
    distinct = distinct;
    missing = missing;
    asked = asked;
    kept = λ k h. let e = kept-wait_for d k s n h in u.kept k (λ z. h (sym e ∙ z)) ∙ e;
    handled = (inl (λ z. get-wait_for d s (sym (u.kept d (get-wait_for d s)) ∙ z)), u.handled);
    store = u.store;
    requests = u.requests;
  }

  contains_either :
      (d k : Digest) (ks : List Digest)
      → ((d == k) ≡ true) ⊎ (Set.contains k ks ≡ true)
      → Set.contains k (d ∷ ks) ≡ true
  unfolding Set.contains
  contains_either d k ks (inl q) = ground arith
  contains_either d k ks (inr c) = ground arith

  either_contains :
      (d k : Digest) (ks ds : List Digest)
      → Set.contains k (d ∷ ks) ≡ true
      → (Set.contains k ks ≡ true → Set.contains k ds ≡ true)
      → Set.contains k (d ∷ ds) ≡ true
  unfolding Set.contains
  either_contains d k ks ds c f = ground arith

  request_step-Requested :
      (d : Digest) (ds : List Digest) (s : Synchronizer D) (r w : Synchronizer D × List Digest)
      → Requested ds s r
      → Requested ds (wait_for setup d now s) w
      → Requested (d ∷ ds) s (request_step setup d s r w)
  unfolding request_step
  request_step-Requested d ds s r w v u = elim (Option-cases (Map.get d s.pending)) [
    | inr (x, q) ↦
        let held : Map.get d r.0.pending ≡ some x = v.kept d (λ z. cc) ∙ q in
        rw q (record {
          distinct = v.distinct;
          missing = v.missing;
          asked = (λ m. absurd (some-none (sym q ∙ m.0)), v.asked);
          given = λ k c. contains_either d k ds (inr (v.given k c));
          kept = v.kept;
          handled = (inl (λ z. cc), v.handled);
          store = v.store;
          requests = v.requests;
        })
    | inl n ↦ elim (Result-cases (setup.database.get s.store (digest_key d))) [
      | inr (e, f) ↦
          rw (n, f)
            (record {
              distinct = v.distinct;
              missing = v.missing;
              asked =
                  (λ m. absurd (err-ok (setup.database.get s.store (digest_key d)) f m.1), v.asked);
              given = λ k c. contains_either d k ds (inr (v.given k c));
              kept = v.kept;
              handled = (inr (e, f), v.handled);
              store = v.store;
              requests = v.requests;
            })
      | inl (none, f) ↦
          let (fresh, missing) = IsMissing-wait_for d s w.1 u.missing in
          let asked =
            asked-wait_for d s ds w.1 (d ∷ w.1) u.asked (λ k m c. contains_either d k w.1 c) in
          rw (n, f)
            (waited-Requested d ds s w (d ∷ w.1) n u (fresh, u.distinct) ((n, f), missing)
              (λ m. contains_either d d w.1 (inl (ground arith)), asked)
              (λ k c. either_contains d k w.1 ds c (u.given k)))
      | inl (some o, f) ↦
          let asked = asked-wait_for d s ds w.1 w.1 u.asked (λ k m. elim [
            | inl q ↦
                absurd (held (setup.database.get s.store (digest_key d)) f (rw (==→eq d k q) m.1))
            | inr c ↦ c
          ]) in
          rw (n, f)
            (waited-Requested d ds s w w.1 n u u.distinct (IsMissing-wait_for d s w.1 u.missing).1
              (λ m. absurd (held (setup.database.get s.store (digest_key d)) f m.1), asked)
              (λ k c. contains_either d k ds (inr (u.given k c))))
    ]
  ]
    where
      some-none : {x : Round × ℕ} → some x ≡ none → ⊥
      some-none e = cc

      err-ok : (r : Result StoreError (Option Value)) {e : StoreError} → r ≡ err e → r ≡ ok none → ⊥
      err-ok r f g = cc

      held : (r : Result StoreError (Option Value)) {v : Value} → r ≡ ok (some v) → r ≡ ok none → ⊥
      held r f g = cc

  request_all-Requested :
      (ds : List Digest) (s : Synchronizer D) → Requested ds s (request_all setup ds now s)
  unfolding request_all
  request_all-Requested [] s = record {
    distinct = tt;
    missing = tt;
    asked = tt;
    given = λ d c. c;
    kept = λ d h. refl;
    handled = tt;
    store = refl;
    requests = refl;
  }
  request_all-Requested (d ∷ ds) s =
      request_step-Requested d ds s (request_all setup ds now s)
        (request_all setup ds now (wait_for setup d now s)) (request_all-Requested ds s)
        (request_all-Requested ds (wait_for setup d now s))

  -- If the committee has this worker of the target, a request of the primary makes the worker send one
  -- message to the address that the target's worker has for other workers. It asks, without repetition, for exactly those
  -- digests of the request that it did not wait for and whose batch the store does not hold. What the
  -- worker waited for before it still waits for, unchanged, and by the end it waits for every digest of
  -- the request, but those that the store failed to read.
  pub turn-Requested :
      (ds : List Digest) (target : PublicKey) (address : WorkerAddresses) (s : Synchronizer D)
      → worker setup.committee target setup.id ≡ ok address
      → let t = turn setup (synchronize ds target now) s in
        (asked : List Digest) × (t.requests
          ≡ s.requests ++ send address.worker_to_worker asked ∷ [])
        × IsRequest ds s t asked
  unfolding turn
  turn-Requested ds target address s e =
      let r = request_all-Requested ds s in
      (
        (request_all setup ds now s).1,
        rw e (rw r.requests refl),
        rw e (record {
          distinct = r.distinct;
          missing = r.missing;
          asked = r.asked;
          given = r.given;
          kept = r.kept;
          handled = r.handled;
        }),
      )
