-- ===== src/Network/Connection/Events.antt =====
-- network/src/reliable_sender.rs: the events that the connection task waits for, phase by phase.
use tusk_ubuntu.Prelude.{
  ◌≡◌, inl, inr, Option-cases, List, [], ◌∷◌, ◌++◌, true, false, Option, none, some, filter, min,
  ◌*◌, u16_add,
}
use tusk_ubuntu.Prelude.Set
use tusk_ubuntu.Network.Connection.{
  Handler, Bytes, InnerMessage, Phase, connecting, waiting, sending, writing, selecting, Connection,
  Event, connected, failed_to_connect, timer, message, pop, written, response, close, is_open,
  retry_delay, disconnect, pop_front, reply, step_in, step, run,
}

pub some-injective : {a b : Connection} → some a ≡ some b → a ≡ b
some-injective h = cc

-- What is to be shown of every event that the task waits for, to have it of every step.
pub record Cases (P : Phase → Event → Connection → Connection → Type 0) : Type 0 where
  pub closes :
      (h : Handler) (s : Connection)
      → P s.phase (close h) s (record s { closed = Set.insert h s.closed })
  pub connects :
      (s : Connection)
      → P connecting connected s
          (record s { phase = sending; delay = retry_delay; retry = 0; pending_replies = [] })
  pub fails : (s : Connection) → P connecting failed_to_connect s (record s { phase = waiting })
  pub times_out :
      (s : Connection)
      → P waiting timer s (record s {
        phase = connecting;
        delay = min (2 * s.delay) 60_000;
        retry = u16_add s.retry 1;
      })
  pub buffers :
      (m : InnerMessage) (s : Connection)
      → P waiting
          (message m)
          s
          (record s { buffer = filter (is_open s.closed) (s.buffer ++ m ∷ []) })
  pub pops : (s : Connection) → P sending pop s (pop_front s.buffer s)
  pub writes :
      (m : InnerMessage) (s : Connection)
      → P
          (writing m)
          (written true)
          s
          (record s { phase = sending; pending_replies = s.pending_replies ++ m ∷ [] })
  pub write_fails :
      (m : InnerMessage) (s : Connection)
      → P (writing m) (written false) s (disconnect (record s { buffer = m ∷ s.buffer }))
  pub takes :
      (m : InnerMessage) (s : Connection)
      → P selecting (message m) s (record s { phase = sending; buffer = s.buffer ++ m ∷ [] })
  pub answers :
      (r : Option Bytes) (s : Connection) → P selecting (response r) s (reply s.pending_replies r s)

module _ (P : Phase → Event → Connection → Connection → Type 0) (c : Cases P) where
  pub step_in-elim :
      (p : Phase) (e : Event) (s : Connection) {t : Connection}
      → s.phase ≡ p
      → step_in p e s ≡ some t
      → P p e s t
  unfolding step_in
  step_in-elim p (close h) s {t} e r = rw (← some-injective r, ← e) (c.closes h s)
  step_in-elim connecting connected s {t} _ h = rw (← some-injective h) (c.connects s)
  step_in-elim connecting failed_to_connect s {t} _ h = rw (← some-injective h) (c.fails s)
  step_in-elim connecting timer s _ h = absurd (cc)
  step_in-elim connecting (message x) s _ h = absurd (cc)
  step_in-elim connecting pop s _ h = absurd (cc)
  step_in-elim connecting (written true) s _ h = absurd (cc)
  step_in-elim connecting (written false) s _ h = absurd (cc)
  step_in-elim connecting (response r) s _ h = absurd (cc)
  step_in-elim waiting connected s _ h = absurd (cc)
  step_in-elim waiting failed_to_connect s _ h = absurd (cc)
  step_in-elim waiting timer s {t} _ h = rw (← some-injective h) (c.times_out s)
  step_in-elim waiting (message x) s {t} _ h = rw (← some-injective h) (c.buffers x s)
  step_in-elim waiting pop s _ h = absurd (cc)
  step_in-elim waiting (written true) s _ h = absurd (cc)
  step_in-elim waiting (written false) s _ h = absurd (cc)
  step_in-elim waiting (response r) s _ h = absurd (cc)
  step_in-elim sending connected s _ h = absurd (cc)
  step_in-elim sending failed_to_connect s _ h = absurd (cc)
  step_in-elim sending timer s _ h = absurd (cc)
  step_in-elim sending (message x) s _ h = absurd (cc)
  step_in-elim sending pop s {t} _ h = rw (← some-injective h) (c.pops s)
  step_in-elim sending (written true) s _ h = absurd (cc)
  step_in-elim sending (written false) s _ h = absurd (cc)
  step_in-elim sending (response r) s _ h = absurd (cc)
  step_in-elim (writing m) connected s _ h = absurd (cc)
  step_in-elim (writing m) failed_to_connect s _ h = absurd (cc)
  step_in-elim (writing m) timer s _ h = absurd (cc)
  step_in-elim (writing m) (message x) s _ h = absurd (cc)
  step_in-elim (writing m) pop s _ h = absurd (cc)
  step_in-elim (writing m) (written true) s {t} _ h = rw (← some-injective h) (c.writes m s)
  step_in-elim (writing m) (written false) s {t} _ h = rw (← some-injective h) (c.write_fails m s)
  step_in-elim (writing m) (response r) s _ h = absurd (cc)
  step_in-elim selecting connected s _ h = absurd (cc)
  step_in-elim selecting failed_to_connect s _ h = absurd (cc)
  step_in-elim selecting timer s _ h = absurd (cc)
  step_in-elim selecting (message x) s {t} _ h = rw (← some-injective h) (c.takes x s)
  step_in-elim selecting pop s _ h = absurd (cc)
  step_in-elim selecting (written true) s _ h = absurd (cc)
  step_in-elim selecting (written false) s _ h = absurd (cc)
  step_in-elim selecting (response r) s {t} _ h = rw (← some-injective h) (c.answers r s)

-- The first step of a run.
pub run-cons :
    (e : Event) (es : List Event) (s : Connection) {t : Connection}
    → run (e ∷ es) s ≡ some t
    → (u : Connection) × (step_in s.phase e s ≡ some u) × (run es u ≡ some t)
unfolding run step
run-cons e es s h = elim (Option-cases (step_in s.phase e s)) [
  | inl n ↦ absurd (none-some (rw (run, n) at h))
  | inr (u, q) ↦ (u, q, rw (run, q) at h)
]
  where
    none-some : {t : Connection} → none ≡ some t → ⊥
    none-some e = cc
