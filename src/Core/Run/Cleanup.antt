-- ===== src/Core/Run/Cleanup.antt =====
-- primary/src/core.rs, the cleanup at the end of a turn of `run`: what stays in the four maps.
use tusk_ubuntu.Prelude.{
  ℕ, ◌≡◌, ◌≢◌, ◌⊎◌, ◌&&◌, ◌==◌, Bool-cases, ◌<◌, ◌+◌, refl, inl, inr, none, List, leb,
  if◌then◌else◌, lt→ltb, u64_mod, u64_sub, arith,
}
use tusk_ubuntu.Prelude.Map
use tusk_ubuntu.Prelude.Result.{Result, ok, err, Result-cases}
use tusk_ubuntu.Messages.{Round, DagError, DagResult, store_error, cert_round}
use tusk_ubuntu.Messages.Errors.{
  NotOfStore, verify_header-NotOfStore, verify_vote-NotOfStore, verify_certificate-NotOfStore,
}
use tusk_ubuntu.Core.{Core, Setup}
use tusk_ubuntu.Core.Actions.{Action, Answer, done, failed, panicked, exhausted}
use tusk_ubuntu.Core.Process.{sanitize_header, sanitize_vote, sanitize_certificate}
use tusk_ubuntu.Core.Process.Total.{handlers_end}
use tusk_ubuntu.Core.Run.{
  Input, peer_header, loopback_header, own_header, peer_vote, peer_certificate,
  loopback_certificate, if_sane, handle, cleanup, settle, turn,
}

u64_sub-below : (a b : ℕ) → a < u64_mod → b < a → u64_sub a b + b ≡ a
u64_sub-below a b h k = omega arith

module _ {D : Type 0} (setup : Setup D) (round r : Round) where
  -- Round `r` is in `new` what it was in `old`, unless it is more than the depth below `round`.
  abbrev pub IsCut : {V : Type 0} → List (Round × V) → List (Round × V) → Type 0
  IsCut old new = Map.get r new ≡ (if leb round (r + setup.gc_depth) then Map.get r old else none)

module _ {D : Type 0} (setup : Setup D) (round : Round) (low : round < u64_mod)
    (late : setup.gc_depth < round) (r : Round) where
  cut :
      {V : Type 0} (m : List (Round × V))
      → IsCut setup round r m (Map.retain (λ k _. leb (u64_sub round setup.gc_depth) k) m)
  cut m = ground (
    arith,
    Map.get-retain_key (leb (u64_sub round setup.gc_depth)) r m,
    u64_sub-below round setup.gc_depth low late,
  )

  -- Once the committed round exceeds the depth, the cleanup drops from the four maps exactly the rounds
  -- more than the depth below it, records that bound, and leaves all else as it was.
  pub cleanup_lem :
      (s : Core D)
      → (((cleanup setup round s).gc_round + setup.gc_depth ≡ round)
          × IsCut setup round r s.last_voted (cleanup setup round s).last_voted
          × IsCut setup round r s.processing (cleanup setup round s).processing
          × IsCut setup round r s.certificates_aggregators
              (cleanup setup round s).certificates_aggregators
          × IsCut setup round r s.cancel_handlers (cleanup setup round s).cancel_handlers)
        × ((cleanup setup round s).store ≡ s.store)
        × ((cleanup setup round s).votes_aggregator ≡ s.votes_aggregator)
        × ((cleanup setup round s).current_header ≡ s.current_header)
        × ((cleanup setup round s).sent ≡ s.sent)
  unfolding cleanup
  cleanup_lem s = rw (lt→ltb setup.gc_depth round late) (
    (
      u64_sub-below round setup.gc_depth low late,
      cut s.last_voted,
      cut s.processing,
      cut s.certificates_aggregators,
      cut s.cancel_handlers,
    ),
    refl,
    refl,
    refl,
    refl,
  )

module _ {D : Type 0} (setup : Setup D) where
  if_sane-ends :
      (c : Result DagError (Unit {0})) (m : Action D (Unit {0})) (s : Core D)
      → (m s).1 ≢ exhausted
      → (if_sane setup c m s).1 ≢ exhausted
  if_sane-ends (ok _) m s h = h
  if_sane-ends (err e) m s h = λ q. cc

  handle-ends : (input : Input) (s : Core D) → (handle setup input s).1 ≢ exhausted
  unfolding handle
  handle-ends (peer_header h) s =
      if_sane-ends (sanitize_header setup s h) _ s ((handlers_end setup s).0 h)
  handle-ends (peer_vote v) s =
      if_sane-ends (sanitize_vote setup s v) _ s ((handlers_end setup s).2 v)
  handle-ends (peer_certificate x) s =
      if_sane-ends (sanitize_certificate setup s x) _ s ((handlers_end setup s).1 x)
  handle-ends (loopback_header h) s = (handlers_end setup s).0 h
  handle-ends (loopback_certificate x) s = (handlers_end setup s).1 x
  handle-ends (own_header h) s = (handlers_end setup s).3 h

  -- How a turn ends, given what the handler left: the node dies, of a panic or a failure of the store,
  -- or there was neither and the turn is the cleanup of the handler's state.
  abbrev pub IsSettled : Round → Core D × Answer (Unit {0}) → Core D × Answer (Unit {0}) → Type 0
  IsSettled round r t =
      ((t.1 ≡ panicked) × ((r.1 ≡ panicked) ⊎ (r.1 ≡ failed store_error)))
      ⊎ ((t ≡ (cleanup setup round r.0, done tt)) × (r.1 ≢ panicked) × (r.1 ≢ failed store_error))

  settle-failed :
      (round : Round) (s : Core D) (e : DagError)
      → IsSettled round (s, failed e) (settle setup round (s, failed e))
  settle-failed round s store_error = inl (refl, inr refl)
  settle-failed round s e = inr (refl, λ q. cc, λ q. cc)

  settle-IsSettled :
      (round : Round) (r : Core D × Answer (Unit {0}))
      → r.1 ≢ exhausted
      → IsSettled round r (settle setup round r)
  settle-IsSettled round (s, done tt) h = inr (refl, λ q. cc, λ q. cc)
  settle-IsSettled round (s, failed e) h = settle-failed round s e
  settle-IsSettled round (s, panicked) h = inl (refl, inl refl)
  settle-IsSettled round (s, exhausted) h = absurd (h refl)

  -- The check that a message of another primary has to pass.
  abbrev pub sanitized : Input → Core D → DagResult (Unit {0})
  sanitized (peer_header h) s = sanitize_header setup s h
  sanitized (peer_vote v) s = sanitize_vote setup s v
  sanitized (peer_certificate x) s = sanitize_certificate setup s x
  sanitized (loopback_header h) s = ok tt
  sanitized (loopback_certificate x) s = ok tt
  sanitized (own_header h) s = ok tt

  sanitized-NotOfStore : (input : Input) (s : Core D) → NotOfStore (sanitized input s)
  unfolding sanitize_header sanitize_vote sanitize_certificate
  sanitized-NotOfStore (peer_header h) s = elim (Bool-cases (leb s.gc_round h.round)) [
    | inl q ↦ rw q (verify_header-NotOfStore setup.primitives setup.committee h)
    | inr q ↦ rw q (λ e. cc)
  ]
  sanitized-NotOfStore (peer_vote v) s =
      let current = s.current_header in
      elim (Bool-cases (leb current.round v.round)) [
        | inr q ↦ rw q (λ e. cc)
        | inl q ↦
            elim (Bool-cases
              (v.id == current.id && (v.origin == current.author && v.round == current.round))) [
                | inl t ↦ rw (q, t) (verify_vote-NotOfStore setup.primitives setup.committee v)
                | inr t ↦ rw (q, t) (λ e. cc)
              ]
      ]
  sanitized-NotOfStore (peer_certificate x) s = elim (Bool-cases (leb s.gc_round (cert_round x))) [
    | inl q ↦ rw q (verify_certificate-NotOfStore setup.primitives setup.committee x)
    | inr q ↦ rw q (λ e. cc)
  ]
  sanitized-NotOfStore (loopback_header h) s = λ e. cc
  sanitized-NotOfStore (loopback_certificate x) s = λ e. cc
  sanitized-NotOfStore (own_header h) s = λ e. cc

  handle-rejected :
      (input : Input) (s : Core D) (e : DagError)
      → sanitized input s ≡ err e
      → handle setup input s ≡ (s, failed e)
  unfolding handle
  handle-rejected (peer_header h) s e q = rw q refl
  handle-rejected (peer_vote v) s e q = rw q refl
  handle-rejected (peer_certificate x) s e q = rw q refl
  handle-rejected (loopback_header h) s e q = absurd (cc)
  handle-rejected (loopback_certificate x) s e q = absurd (cc)
  handle-rejected (own_header h) s e q = absurd (cc)

  settle-rejected :
      (round : Round) (input : Input) (s : Core D) (e : DagError)
      → sanitized input s ≡ err e
      → settle setup round (handle setup input s) ≡ (cleanup setup round s, done tt)
  settle-rejected round input s store_error q = absurd (sanitized-NotOfStore input s q)
  settle-rejected round input s e q = rw (handle-rejected input s e q) refl

  -- How a turn ends in each case: for a message of another primary that does not pass its check, and for
  -- any other input.
  abbrev pub IsTurn : Round → Input → Core D → Core D × Answer (Unit {0}) → Type 0
  IsTurn round input s t =
      ((e : DagError) × (sanitized input s ≡ err e) × (t ≡ (cleanup setup round s, done tt)))
      ⊎ ((sanitized input s ≡ ok tt) × IsSettled round (handle setup input s) t)

  -- Every turn of the loop ends. A message of another primary that does not pass its check, be it too
  -- old, unexpected or not verified, never kills the node: the turn is the cleanup of the state before
  -- it. On any other input the node dies exactly if the handler panics or fails with an error of the
  -- store, and else the turn is the cleanup of the state that the handler left.
  pub turn_lem :
      (round : Round) (input : Input) (s : Core D) → IsTurn round input s (turn setup round input s)
  unfolding turn
  turn_lem round input s = elim (Result-cases (sanitized input s)) [
    | inl (tt, q) ↦ inr (q, settle-IsSettled round (handle setup input s) (handle-ends input s))
    | inr (e, q) ↦ inl (e, q, settle-rejected round input s e q)
  ]
