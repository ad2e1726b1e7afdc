-- ===== src/Network/Connection/Backoff.antt =====
-- network/src/reliable_sender.rs: how long the connection task waits between attempts.
use tusk_ubuntu.Prelude.{ℕ, suc, ◌*◌, ◌%◌, ◌^◌, ◌≡◌, List, [], ◌∷◌, min, u16_mod}
use tusk_ubuntu.Network.Connection.{Phase, Connection, Event, connected, timer}

-- The delay and the count after some number of failed attempts in a row.
abbrev pub IsBackoff : Connection → ℕ → Type 0
IsBackoff s failures = (s.delay ≡ min (200 * 2 ^ failures) 60_000) × (s.retry ≡ failures % u16_mod)

-- The failed attempts in a row, counted from the events alone: the timer that follows a failed attempt
-- adds one, and a connection starts anew.
abbrev pub next_failures : ℕ → Event → ℕ
next_failures k connected = 0
next_failures k timer = suc k
next_failures k e = k

unfoldable pub failures : ℕ → List Event → ℕ
failures k [] = k
failures k (e ∷ es) = failures (next_failures k e) es

-- An event moves the delay and the count with the number of failures.
abbrev Backs : Phase → Event → Connection → Connection → Type 0
Backs p e s t = (k : ℕ) → IsBackoff s k → IsBackoff t (next_failures k e)
