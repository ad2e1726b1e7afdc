-- ===== src/Proposer.antt =====
-- primary/src/proposer.rs: one turn of the proposer's loop. The timer is an input, the headers and the
-- messages to the workers that go out are appended to lists of the state.
pub mod Rounds
pub mod Digests
use tusk_ubuntu.Prelude.{
  ℕ, ◌+◌, Bool, true, false, not, ◌&&◌, ◌||◌, List, [], ◌∷◌, ◌++◌, length, ltb, leb, ◌==◌,
  if◌then◌else◌, u64_add,
}
use tusk_ubuntu.Prelude.Btree
use tusk_ubuntu.Config.{PublicKey, WorkerId}
use tusk_ubuntu.Crypto.{Digest, Primitives}
use tusk_ubuntu.Messages.{Round, Header, new_header}
use tusk_ubuntu.Adversary.{selected}

-- What the proposer is given and does not change.
pub record Setup : Type 0 where
  pub name : PublicKey
  pub authorities : List PublicKey
  pub adversary_faults : ℕ
  pub adversary_seed : ℕ
  pub pause_batches_during_silence : Bool
  pub header_size : ℕ
  pub primitives : Primitives

pub record Proposer : Type 0 where
  pub round : Round
  pub silent : Bool
  pub last_parents : List Digest
  pub digests : List (Digest × WorkerId)
  pub payload_size : ℕ
  pub headers : List Header
  pub batch_silent : List (Round × Bool)

-- What the loop's `select!` receives.
pub data Event : Type 0 where
  parents : List Digest → Round → Event
  batch : Digest → WorkerId → Event
  timer : Event

module _ (setup : Setup) where
  open setup use {name, authorities, adversary_faults, adversary_seed, primitives}

  unfoldable pub is_silent_in : Round → Bool
  is_silent_in round = selected primitives name authorities round adversary_faults adversary_seed

  unfoldable pub enter_round : Round → Proposer → Proposer
  unfolding is_silent_in
  enter_round round s =
      let silent = is_silent_in round in
      let s' : Proposer = record s { round = round; silent = silent } in
      if adversary_faults == 0 then s' else record s' {
        batch_silent =
            s'.batch_silent ++ (round, silent && setup.pause_batches_during_silence) ∷ [];
      }

  -- The payload is collected into a `BTreeMap`, the parents into a `BTreeSet`.
  unfoldable pub make_header : Proposer → Proposer
  make_header s = record s {
    headers =
        s.headers
        ++ new_header primitives name s.round (Btree.collect s.digests)
            (Btree.collect_set s.last_parents)
          ∷ [];
    digests = [];
    last_parents = [];
  }

  -- The head of the loop's body.
  unfoldable pub propose : Bool → Proposer → Proposer
  unfolding make_header
  propose timer_expired s =
      if (timer_expired || leb setup.header_size s.payload_size) && not (length s.last_parents == 0)
      then (if s.silent
          then record s { last_parents = [] }
          else record (make_header s) { payload_size = 0 })
      else s

  unfoldable pub receive : Event → Proposer → Proposer
  unfolding enter_round
  receive (parents ds round) s =
      if ltb round s.round
      then s
      else record (enter_round (u64_add round 1) s) { last_parents = ds }
  receive (batch digest worker_id) s = record s {
    payload_size = u64_add s.payload_size 32;
    digests = s.digests ++ (digest, worker_id) ∷ [];
  }
  receive timer s = s

  -- One turn of the loop.
  unfoldable pub turn : Bool × Event → Proposer → Proposer
  unfolding propose receive
  turn (timer_expired, event) s = receive event (propose timer_expired s)

  unfoldable pub run : List (Bool × Event) → Proposer → Proposer
  unfolding turn
  run [] s = s
  run (t ∷ turns) s = run turns (turn t s)

  -- The state that `spawn` builds from the digests of the genesis, once `run` has entered round 1.
  unfoldable pub start : List Digest → Proposer
  unfolding enter_round
  start genesis = enter_round 1 (record {
    round = 1;
    silent = false;
    last_parents = genesis;
    digests = [];
    payload_size = 0;
    headers = [];
    batch_silent = [];
  })
