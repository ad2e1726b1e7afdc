-- ===== src/Worker/Dispatch/Silence.antt =====
-- worker/src/worker.rs and network/src/receiver.rs: the value of the watch that pauses the batch maker,
-- over the messages of one connection of the primary.
use tusk_ubuntu.Prelude.{
  suc, ◌≡◌, ◌≤◌, ◌<◌, ◌⊎◌, refl, sym, ap, inl, inr, Bool, true, Option, none, some, List, [], ◌∷◌,
  leb, if◌then◌else◌, All, Bool-cases, Option-cases, arith,
}
use tusk_ubuntu.Messages.{Round}
use tusk_ubuntu.Network.Connection.{Bytes}
use tusk_ubuntu.Network.Receiver.{serve}
use tusk_ubuntu.Primary.{PrimaryWorkerMessage, synchronize, cleanup, batch_silent}
use tusk_ubuntu.Worker.Dispatch.{PrimaryReceiverHandler, dispatch_command, dispatch_primary}

abbrev pub Silence : Type 0
Silence = Round × Bool

-- The last of those with the highest round.
abbrev pub Latest : Silence → List Silence → Type 0
Latest v [] = ⊥
Latest v (x ∷ xs) = ((x ≡ v) × All (λ y. y.0 < v.0) xs) ⊎ ((x.0 ≤ v.0) × Latest v xs)

abbrev pub with_silence : Option PrimaryWorkerMessage → List Silence → List Silence
with_silence none rest = rest
with_silence (some (synchronize digests target)) rest = rest
with_silence (some (cleanup round)) rest = rest
with_silence (some (batch_silent round silent)) rest = (round, silent) ∷ rest

Latest-at : {v w : Silence} (xs : List Silence) → v ≡ w → Latest v xs → Latest w xs
Latest-at xs e l = rw (← e) l

module _ (decode : Bytes → Option PrimaryWorkerMessage) where
  -- What the primary sent before the first frame that could not be read.
  unfoldable pub silences : List (Option Bytes) → List Silence
  silences [] = []
  silences (none ∷ frames) = []
  silences (some message ∷ frames) = with_silence (decode message) (silences frames)

  -- The value on record is replaced by one of no smaller round.
  Latest-next :
      (v old new : Silence) (rest : List Silence)
      → Latest v ((if leb old.0 new.0 then new else old) ∷ rest)
      → Latest v (old ∷ new ∷ rest)
  Latest-next v old new rest l = elim (Bool-cases (leb old.0 new.0)) [
    | inl q ↦ elim (rw q at l) [
      | inl (e, a) ↦ inr (rw (← e) (ground (arith, q)), inl (e, a))
      | inr (b, m) ↦ inr (ground (arith, q, b), inr (b, m))
    ]
    | inr q ↦ elim (rw q at l) [
      | inl (e, a) ↦ inl (e, (rw (← e) (ground (arith, q)), a))
      | inr (b, m) ↦ inr (b, inr (ground (arith, q, b), m))
    ]
  ]

  abbrev handled : Option PrimaryWorkerMessage → PrimaryReceiverHandler → PrimaryReceiverHandler
  handled none s = s
  handled (some m) s = dispatch_command m s

  serve-cons :
      (message : Bytes) (frames : List (Option Bytes)) (s : PrimaryReceiverHandler)
      → serve (dispatch_primary decode) (some message ∷ frames) s
        ≡ serve
            (dispatch_primary decode)
            frames
            (handled (decode message) (record s { acks = suc s.acks }))
  unfolding serve dispatch_primary
  serve-cons message frames s = rw (dispatched message s) refl
    where
      dispatched :
          (message : Bytes) (s : PrimaryReceiverHandler)
          → dispatch_primary decode message s
            ≡ (handled (decode message) (record s { acks = suc s.acks }), true)
      dispatched message s = elim (Option-cases (decode message)) [
        | inl n ↦ rw (dispatch_primary, n) refl
        | inr (m, q) ↦ rw (dispatch_primary, q) refl
      ]

  after_command :
      (m : PrimaryWorkerMessage) (frames : List (Option Bytes)) (s : PrimaryReceiverHandler)
      → Latest
          (serve (dispatch_primary decode) frames (dispatch_command m s)).tx_batch_silent
          ((dispatch_command m s).tx_batch_silent ∷ silences frames)
      → Latest
          (serve (dispatch_primary decode) frames (dispatch_command m s)).tx_batch_silent
          (s.tx_batch_silent ∷ with_silence (some m) (silences frames))
  unfolding dispatch_command
  after_command (synchronize digests target) frames s l = l
  after_command (cleanup round) frames s l = l
  after_command (batch_silent round silent) frames s l =
      Latest-next _ s.tx_batch_silent (round, silent) (silences frames)
        (rw (← command_watch round silent s) l)
    where
      command_watch :
          (round : Round) (silent : Bool) (s : PrimaryReceiverHandler)
          → (dispatch_command (batch_silent round silent) s).tx_batch_silent
            ≡ (if leb s.tx_batch_silent.0 round then (round, silent) else s.tx_batch_silent)
      command_watch round silent s = elim (Bool-cases (leb s.tx_batch_silent.0 round)) [
        | inl q ↦ rw q refl
        | inr q ↦ rw q refl
      ]

  after_message :
      (m : Option PrimaryWorkerMessage) (frames : List (Option Bytes)) (s : PrimaryReceiverHandler)
      → Latest
          (serve (dispatch_primary decode) frames (handled m s)).tx_batch_silent
          ((handled m s).tx_batch_silent ∷ silences frames)
      → Latest
          (serve (dispatch_primary decode) frames (handled m s)).tx_batch_silent
          (s.tx_batch_silent ∷ with_silence m (silences frames))
  after_message none frames s l = l
  after_message (some m) frames s l = after_command m frames s l

  -- After any frames from the primary, the watch holds the last of the values with the highest round
  -- among those that it held at first and those that the primary sent.
  pub serve-Latest :
      (frames : List (Option Bytes)) (s : PrimaryReceiverHandler)
      → Latest
          (serve (dispatch_primary decode) frames s).tx_batch_silent
          (s.tx_batch_silent ∷ silences frames)
  unfolding serve silences
  serve-Latest [] s = inl (refl, tt)
  serve-Latest (none ∷ frames) s = inl (refl, tt)
  serve-Latest (some message ∷ frames) s =
      let acked : PrimaryReceiverHandler = record s { acks = suc s.acks } in
      Latest-at (s.tx_batch_silent ∷ silences (some message ∷ frames))
        (sym (ap (λ t. t.tx_batch_silent) (serve-cons message frames s)))
        (after_message (decode message) frames acked
          (serve-Latest frames (handled (decode message) acked)))
