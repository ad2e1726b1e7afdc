-- ===== src/Worker/BatchMaker.antt =====
-- worker/src/batch_maker.rs: one turn of the loop. The timer and the arrival of transactions are
-- inputs, serialization is a parameter, and a cancel handler is the address of its message.
pub mod Batches
use tusk_ubuntu.Prelude.{
  ℕ, ◌+◌, ◌≤◌, ◌<◌, ◌≡◌, refl, inl, inr, Bool, true, false, Option, none, some, List, [], ◌∷◌, ◌++◌,
  map, length, leb, ◌==◌, if◌then◌else◌, Bool-cases, u64_add, u64_mod, arith,
}
use tusk_ubuntu.Config.{PublicKey, SocketAddr}
use tusk_ubuntu.Store.{Value}

abbrev pub Transaction : Type 0
Transaction = List ℕ

abbrev pub Batch : Type 0
Batch = List Transaction

pub record QuorumWaiterMessage : Type 0 where
  pub batch : Value
  pub handlers : List (PublicKey × SocketAddr)

-- What the batch maker is given and does not change.
pub record Setup : Type 0 where
  pub batch_size : ℕ
  pub workers_addresses : List (PublicKey × SocketAddr)
  pub encode_batch : Batch → Value

pub record BatchMaker : Type 0 where
  pub silent : Bool
  pub current_batch : Batch
  pub current_batch_size : ℕ
  pub messages : List QuorumWaiterMessage

-- What a turn receives: the watch's new value, a transaction, or the end of the timer.
pub data Event : Type 0 where
  changed : Bool → Event
  transaction : Transaction → Event
  timer : Event

module _ (setup : Setup) where
  unfoldable pub seal : BatchMaker → BatchMaker
  seal s = record s {
    current_batch = [];
    current_batch_size = 0;
    messages =
        s.messages
        ++ record { batch = setup.encode_batch s.current_batch; handlers = setup.workers_addresses }
          ∷ [];
  }

  abbrev pub push : Transaction → BatchMaker → BatchMaker
  push tx s = record s {
    current_batch = s.current_batch ++ tx ∷ [];
    current_batch_size = u64_add s.current_batch_size (length tx);
  }

  -- A silent batch maker receives only changes: then other events give nothing.
  unfoldable pub turn : Event → BatchMaker → Option BatchMaker
  unfolding seal
  turn (changed silent) s = some (record s { silent = silent })
  turn (transaction tx) s =
      if s.silent
      then none
      else if leb setup.batch_size (push tx s).current_batch_size
      then some (seal (push tx s))
      else some (push tx s)
  turn timer s =
      if s.silent then none else if length s.current_batch == 0 then some s else some (seal s)

  unfoldable pub run : List Event → BatchMaker → Option BatchMaker
  unfolding turn
  run [] s = some s
  run (e ∷ events) s = elim (turn e s) [ none ↦ none | some t ↦ run events t ]

abbrev pub new_batch_maker : Bool → BatchMaker
new_batch_maker silent = record {
  silent = silent;
  current_batch = [];
  current_batch_size = 0;
  messages = [];
}
