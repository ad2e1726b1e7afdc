-- ===== src/Core/Run.antt =====
-- primary/src/core.rs, `run`: one turn of the main loop, with the cleanup that ends it.
pub mod Cleanup
use tusk_ubuntu.Prelude.{ℕ, Bool, true, false, List, [], ◌∷◌, leb, ltb, if◌then◌else◌, u64_sub}
use tusk_ubuntu.Prelude.Map
use tusk_ubuntu.Prelude.Result.{Result, ok, err}
use tusk_ubuntu.Messages.{Round, DagError, store_error, DagResult, Header, Vote, Certificate}
use tusk_ubuntu.Core.{Core, Setup}
use tusk_ubuntu.Core.Actions.{Action, Answer, done, failed, panicked, exhausted}
use tusk_ubuntu.Core.Process.{
  handle_header, handle_vote, handle_certificate, process_own_header, sanitize_header,
  sanitize_vote, sanitize_certificate,
}

-- What the loop selects: a message of another primary, a loopback, or our own new header.
pub data Input : Type 0 where
  peer_header loopback_header own_header : Header → Input
  peer_vote : Vote → Input
  peer_certificate loopback_certificate : Certificate → Input

module _ {D : Type 0} (setup : Setup D) where
  abbrev pub if_sane : DagResult (Unit {0}) → Action D (Unit {0}) → Action D (Unit {0})
  if_sane (ok _) m s = m s
  if_sane (err e) m s = (s, failed e)

  unfoldable pub handle : Input → Action D (Unit {0})
  handle (peer_header h) s = if_sane (sanitize_header setup s h) (handle_header setup h) s
  handle (peer_vote v) s = if_sane (sanitize_vote setup s v) (handle_vote setup v) s
  handle (peer_certificate x) s =
      if_sane (sanitize_certificate setup s x) (handle_certificate setup x) s
  handle (loopback_header h) s = handle_header setup h s
  handle (loopback_certificate x) s = handle_certificate setup x s
  handle (own_header h) s = process_own_header setup h s

  abbrev pub recent {ℓ} : {V : Type ℓ} → Round → List (Round × V) → List (Round × V)
  recent gc_round = Map.retain (λ k _. leb gc_round k)

  unfoldable pub cleanup : Round → Core D → Core D
  cleanup round s =
      let gc_round = u64_sub round setup.gc_depth in
      if ltb setup.gc_depth round
      then record s {
        last_voted = recent gc_round s.last_voted;
        processing = recent gc_round s.processing;
        certificates_aggregators = recent gc_round s.certificates_aggregators;
        cancel_handlers = recent gc_round s.cancel_handlers;
        gc_round = gc_round;
      }
      else s

  -- A storage failure kills the node; other errors are logged.
  abbrev pub settle : Round → Core D × Answer (Unit {0}) → Core D × Answer (Unit {0})
  settle round (s, done _) = (cleanup round s, done tt)
  settle round (s, failed store_error) = (s, panicked)
  settle round (s, failed e) = (cleanup round s, done tt)
  settle round (s, panicked) = (s, panicked)
  settle round (s, exhausted) = (s, exhausted)

  -- `round` is the value of `consensus_round` that the turn loads.
  unfoldable pub turn : Round → Input → Core D → Core D × Answer (Unit {0})
  unfolding handle cleanup
  turn round input s = settle round (handle input s)
