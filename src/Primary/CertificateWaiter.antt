-- ===== src/Primary/CertificateWaiter.antt =====
-- primary/src/certificate_waiter.rs: the certificates that wait for their parents. A wait is the keys that
-- it needs with the certificate that it delivers; the completed waits are inputs.
use tusk_ubuntu.Prelude.{List, [], ◌∷◌, ◌++◌, map}
use tusk_ubuntu.Prelude.Result.{Result, ok, err}
use tusk_ubuntu.Prelude.Outcome.{Outcome, returned, panicked, ◌>>=◌}
use tusk_ubuntu.Messages.{Certificate}
use tusk_ubuntu.Store.{Key, StoreError, digest_key}

pub record CertificateWaiter : Type 0 where
  pub waiting : List (List Key × Certificate)
  pub to_core : List Certificate

pub data Event : Type 0 where
  wait_for : Certificate → Event
  waited : Result StoreError Certificate → Event

unfoldable pub turn : Event → CertificateWaiter → Outcome CertificateWaiter
turn (wait_for x) s =
    returned (record s { waiting = s.waiting ++ (map digest_key x.header.parents, x) ∷ [] })
turn (waited (ok x)) s = returned (record s { to_core = s.to_core ++ x ∷ [] })
turn (waited (err _)) s = panicked

unfoldable pub run : List Event → CertificateWaiter → Outcome CertificateWaiter
unfolding turn
run [] s = returned s
run (e ∷ es) s = turn e s >>= run es
