-- ===== src/Primary/HeaderWaiter/Cleanup.antt =====
-- primary/src/header_waiter.rs: the cleanup that ends a turn, and the maps that it works on.
use tusk_ubuntu.Prelude.{
  ℕ, ◌+◌, ◌<◌, ◌≡◌, refl, ap, true, none, some, List, [], ◌∷◌, ◌++◌, map, filter, ltb, leb, is_some,
  u64_sub, u64_mod, Bool-cases, inl, inr, arith,
}
use tusk_ubuntu.Prelude.Map
use tusk_ubuntu.Prelude.Keys.{keys, keep_if, keys-insert-Distinct, keys-retain-Distinct, get-retain}
use tusk_ubuntu.Prelude.Set.{Distinct}
use tusk_ubuntu.Prelude.Result.{Result, ok, err}
use tusk_ubuntu.Prelude.Outcome.{Outcome, returned, returned-injective, >>=-returned}
use tusk_ubuntu.Config.{PublicKey, WorkerId, WorkerAddresses, PrimaryAddresses, ConfigError, worker}
use tusk_ubuntu.Crypto.{Digest}
use tusk_ubuntu.Messages.{Round, Header}
use tusk_ubuntu.Primary.HeaderWaiter.{
  Setup, HeaderWaiter, Event, sync_batches, sync_parents, waited, timer, note_batches, note_parents,
  remove_all, ask_worker, unless_pending, ask_workers, ask_primary, handle_batches, handle_parents,
  resume, retry, clean, turn,
}

-- No key has two entries.
pub record IsWaiter (s : HeaderWaiter) : Type 0 where
  pub pending : Distinct (keys s.pending)
  pub batches : Distinct (keys s.batch_requests)
  pub parents : Distinct (keys s.parent_requests)

note_batches-Distinct :
    (round : Round) (missing : List (Digest × WorkerId)) (noted : List (Digest × Round))
    (requires_sync : List (WorkerId × List Digest))
    → Distinct (keys noted)
    → Distinct (keys (note_batches round missing noted requires_sync).0)
unfolding note_batches Map.contains_key
note_batches-Distinct round [] noted requires_sync d = d
note_batches-Distinct round ((digest, id) ∷ missing) noted requires_sync d =
    elim (Bool-cases (is_some (Map.get digest noted))) [
      | inl q ↦ rw q (note_batches-Distinct round missing noted requires_sync d)
      | inr q ↦ rw q (
          note_batches-Distinct round missing (Map.insert digest round noted) _
            (keys-insert-Distinct digest round noted d))
    ]

note_parents-Distinct :
    (entry : Round × ℕ) (missing : List Digest) (noted : List (Digest × (Round × ℕ)))
    → Distinct (keys noted)
    → Distinct (keys (note_parents entry missing noted).0)
unfolding note_parents Map.contains_key
note_parents-Distinct entry [] noted d = d
note_parents-Distinct entry (digest ∷ missing) noted d =
    elim (Bool-cases (is_some (Map.get digest noted))) [
      | inl q ↦ rw q (note_parents-Distinct entry missing noted d)
      | inr q ↦ rw q (
          note_parents-Distinct entry missing (Map.insert digest entry noted)
            (keys-insert-Distinct digest entry noted d))
    ]

remove_all-Distinct :
    {V : Type 0} (ks : List ℕ) (m : List (ℕ × V))
    → Distinct (keys m)
    → Distinct (keys (remove_all ks m))
unfolding remove_all Map.remove
remove_all-Distinct [] m d = d
remove_all-Distinct (k ∷ ks) m d =
    remove_all-Distinct ks (Map.remove k m) (keys-retain-Distinct _ m d)

module _ (setup : Setup) where
  ask_worker-IsWaiter :
      (author : PublicKey) (digests : List Digest) (r : Result ConfigError WorkerAddresses)
      (s : HeaderWaiter) {t : HeaderWaiter}
      → ask_worker setup author digests r s ≡ returned t
      → IsWaiter s
      → IsWaiter t
  ask_worker-IsWaiter author digests (err e) s h w = absurd (cc)
  ask_worker-IsWaiter author digests (ok a) s h w =
      rw (← returned-injective h)
        (record { pending = w.pending; batches = w.batches; parents = w.parents })

  ask_workers-IsWaiter :
      (author : PublicKey) (requires_sync : List (WorkerId × List Digest)) (s : HeaderWaiter)
      {t : HeaderWaiter}
      → ask_workers setup author requires_sync s ≡ returned t
      → IsWaiter s
      → IsWaiter t
  unfolding ask_workers
  ask_workers-IsWaiter author [] s h w = rw (← returned-injective h) w
  ask_workers-IsWaiter author ((id, digests) ∷ rest) s h w =
      let (u, q, r) = >>=-returned _ (ask_workers setup author rest) h in
      ask_workers-IsWaiter author rest u r
        (ask_worker-IsWaiter author digests (worker setup.committee author id) s q w)

  ask_primary-IsWaiter :
      (digests : List Digest) (r : Result ConfigError PrimaryAddresses) (s : HeaderWaiter)
      {t : HeaderWaiter}
      → ask_primary setup digests r s ≡ returned t
      → IsWaiter s
      → IsWaiter t
  ask_primary-IsWaiter [] r s h w = rw (← returned-injective h) w
  ask_primary-IsWaiter (d ∷ ds) (err e) s h w = absurd (cc)
  ask_primary-IsWaiter (d ∷ ds) (ok a) s h w =
      rw (← returned-injective h)
        (record { pending = w.pending; batches = w.batches; parents = w.parents })

  handle_batches-IsWaiter :
      (missing : List (Digest × WorkerId)) (h : Header) (s : HeaderWaiter) {t : HeaderWaiter}
      → handle_batches setup missing h s ≡ returned t
      → IsWaiter s
      → IsWaiter t
  unfolding handle_batches
  handle_batches-IsWaiter missing h s e w = ask_workers-IsWaiter h.author _ _ e (record {
    pending = keys-insert-Distinct h.id h.round s.pending w.pending;
    batches = note_batches-Distinct h.round missing s.batch_requests [] w.batches;
    parents = w.parents;
  })

  handle_parents-IsWaiter :
      (missing : List Digest) (h : Header) (now : ℕ) (s : HeaderWaiter) {t : HeaderWaiter}
      → handle_parents setup missing h now s ≡ returned t
      → IsWaiter s
      → IsWaiter t
  unfolding handle_parents
  handle_parents-IsWaiter missing h now s e w = ask_primary-IsWaiter _ _ _ e (record {
    pending = keys-insert-Distinct h.id h.round s.pending w.pending;
    batches = w.batches;
    parents = note_parents-Distinct (h.round, now) missing s.parent_requests w.parents;
  })

  clean-IsWaiter : (round : Round) (s : HeaderWaiter) → IsWaiter s → IsWaiter (clean setup round s)
  unfolding clean
  clean-IsWaiter round s w = elim (Bool-cases (ltb setup.gc_depth round)) [
    | inl q ↦ rw q (record {
      pending = keys-retain-Distinct _ s.pending w.pending;
      batches = keys-retain-Distinct _ s.batch_requests w.batches;
      parents = keys-retain-Distinct _ s.parent_requests w.parents;
    })
    | inr q ↦ rw q w
  ]

  -- Of a map of the waiter, the entries that the cleanup leaves: those of later rounds.
  abbrev pub IsCut :
      {V : Type 0} → (V → Round) → Round → List (Digest × V) → List (Digest × V) → Type 0
  IsCut round_of limit before after =
      (d : Digest) → Map.get d after ≡ keep_if (λ v. ltb limit (round_of v)) (Map.get d before)

  -- Once the committed round exceeds the depth, and if no key has two entries, the cleanup leaves in the
  -- three maps exactly the entries whose round is above the committed one less the depth, and tells
  -- exactly the waits of the other pending headers to stop; nothing else changes.
  pub clean_lem :
      (round : Round) (s : HeaderWaiter)
      → round < u64_mod
      → setup.gc_depth < round
      → IsWaiter s
      → (limit : Round) × (limit + setup.gc_depth ≡ round)
        × IsCut (λ r. r) limit s.pending (clean setup round s).pending
        × IsCut (λ r. r) limit s.batch_requests (clean setup round s).batch_requests
        × IsCut (λ v. v.0) limit s.parent_requests (clean setup round s).parent_requests
        × ((clean setup round s).cancelled
            ≡ s.cancelled ++ keys (filter (λ e. leb e.1 limit) s.pending))
        × ((clean setup round s).requests ≡ s.requests)
        × ((clean setup round s).waiting ≡ s.waiting)
        × ((clean setup round s).to_core ≡ s.to_core)
  unfolding clean
  clean_lem round s b l w =
      let t : ltb setup.gc_depth round ≡ true = ground (arith, l) in
      rw t (
        u64_sub round setup.gc_depth,
        omega (arith, b, l),
        (λ d. get-retain _ d s.pending w.pending),
        (λ d. get-retain _ d s.batch_requests w.batches),
        (λ d. get-retain _ d s.parent_requests w.parents),
        ap (λ l. s.cancelled ++ l) (map-keys _),
        refl,
        refl,
        refl,
      )
    where
      map-keys : {V : Type 0} (m : List (ℕ × V)) → map (λ e. e.0) m ≡ keys m
      map-keys [] = refl
      map-keys ((k, v) ∷ m) = ap (◌∷◌ k) (map-keys m)

  settled :
      (round : Round) (h : Header) (next : HeaderWaiter → Outcome HeaderWaiter) (s : HeaderWaiter)
      {t : HeaderWaiter}
      → unless_pending setup round h next s ≡ returned t
      → IsWaiter s
      → ((u : HeaderWaiter) → next s ≡ returned u → IsWaiter s → IsWaiter u)
      → IsWaiter t
  unfolding Map.contains_key
  settled round h next s e w keeps = elim (Bool-cases (is_some (Map.get h.id s.pending))) [
    | inl q ↦ rw (← returned-injective (rw q at e)) w
    | inr q ↦
        let (u, f, g) = >>=-returned (next s) _ (rw q at e) in
        rw (← returned-injective g) (clean-IsWaiter round u (keeps u f w))
  ]

  -- No turn that goes on gives a key a second entry.
  pub turn-IsWaiter :
      (round : Round) (e : Event) (s : HeaderWaiter) {t : HeaderWaiter}
      → turn setup round e s ≡ returned t
      → IsWaiter s
      → IsWaiter t
  unfolding turn resume retry Map.remove
  turn-IsWaiter round (sync_batches missing h) s e w =
      settled round h (handle_batches setup missing h) s e w
        (λ u. handle_batches-IsWaiter missing h s)
  turn-IsWaiter round (sync_parents missing h now) s e w =
      settled round h (handle_parents setup missing h now) s e w
        (λ u. handle_parents-IsWaiter missing h now s)
  turn-IsWaiter round (waited (ok (some h))) s e w = rw (← returned-injective e) (
      clean-IsWaiter round (resume setup h s) (record {
        pending = keys-retain-Distinct _ s.pending w.pending;
        batches = remove_all-Distinct (map (λ e. e.0) h.payload) s.batch_requests w.batches;
        parents = remove_all-Distinct h.parents s.parent_requests w.parents;
      }))
  turn-IsWaiter round (waited (ok none)) s e w =
      rw (← returned-injective e) (clean-IsWaiter round s w)
  turn-IsWaiter round (waited (err _)) s e w = absurd (cc)
  turn-IsWaiter round (timer now) s e w = rw (← returned-injective e) (
      clean-IsWaiter round (retry setup now s)
        (record { pending = w.pending; batches = w.batches; parents = w.parents }))
