-- ===== src/Core/Actions.antt =====
-- primary/src/core.rs: actions on the core's state, with the chaining that `?` and `.await` write.
use tusk_ubuntu.Prelude.{Bool, true, false, [], ◌∷◌, ◌++◌}
use tusk_ubuntu.Prelude.Result.{Result, ok, err}
use tusk_ubuntu.Messages.{DagError, DagResult}
use tusk_ubuntu.Core.{Core, Message}

pub data Answer (A : Type 0) : Type 0 where
  done : A → Answer A
  failed : DagError → Answer A
  panicked : Answer A
  exhausted : Answer A

abbrev pub Action : Type 0 → Type 0 → Type 0
Action D A = Core D → Core D × Answer A

module _ {D : Type 0} where
  abbrev pub after : {A B : Type 0} → Core D × Answer A → (A → Action D B) → Core D × Answer B
  after (s, done a) f = f a s
  after (s, failed e) f = (s, failed e)
  after (s, panicked) f = (s, panicked)
  after (s, exhausted) f = (s, exhausted)

  infixl 5 ◌>>=◌ ◌>>◌
  abbrev pub ◌>>=◌ : {A B : Type 0} → Action D A → (A → Action D B) → Action D B
  ◌>>=◌ m f s = after (m s) f

  abbrev pub ◌>>◌ : {B : Type 0} → Action D (Unit {0}) → Action D B → Action D B
  m >> k = m >>= λ _. k

  abbrev pub pure : {A : Type 0} → A → Action D A
  pure a s = (s, done a)

  abbrev pub modify : (Core D → Core D) → Action D (Unit {0})
  modify f s = (f s, done tt)

  abbrev pub get : Action D (Core D)
  get s = (s, done s)

  abbrev pub send : Message → Action D (Unit {0})
  send m s = (record s { sent = s.sent ++ m ∷ [] }, done tt)

  -- `result?`
  abbrev pub lift : {A : Type 0} → DagResult A → Action D A
  lift (ok a) s = (s, done a)
  lift (err e) s = (s, failed e)

  -- `ensure!(condition, error)`
  abbrev pub ensure : Bool → DagError → Action D (Unit {0})
  ensure true e s = (s, done tt)
  ensure false e s = (s, failed e)

  -- `action.expect(..)`: an error becomes a panic.
  abbrev pub unwrap_answer : {A : Type 0} → Core D × Answer A → Core D × Answer A
  unwrap_answer (s, done a) = (s, done a)
  unwrap_answer (s, failed e) = (s, panicked)
  unwrap_answer (s, panicked) = (s, panicked)
  unwrap_answer (s, exhausted) = (s, exhausted)

  abbrev pub expect : {A : Type 0} → Action D A → Action D A
  expect m s = unwrap_answer (m s)

  -- `result.expect(..)` of a value that is at hand.
  abbrev pub expect_ok : {E A : Type 0} → Result E A → Action D A
  expect_ok (ok a) s = (s, done a)
  expect_ok (err e) s = (s, panicked)
