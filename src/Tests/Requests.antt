-- ===== src/Tests/Requests.antt =====
-- The properties of what workers serve, exchange and silence, at concrete inputs.
use tusk_ubuntu.Prelude.{
  ◌%◌, ◌≡◌, ℕ, refl, true, false, none, some, Option, List, [], ◌∷◌, sum, there, here, All, arith,
}
use tusk_ubuntu.Prelude.Map
use tusk_ubuntu.Prelude.Result.{ok}
use tusk_ubuntu.Config.{worker}
use tusk_ubuntu.Crypto.{Primitives}
use tusk_ubuntu.Store.{Key, Value, digest_key}
use tusk_ubuntu.Primary.{PrimaryWorkerMessage, cleanup, batch_silent}
use tusk_ubuntu.Network.Receiver.{serve}
use tusk_ubuntu.Worker.Dispatch.{
  WorkerMessage, batch, PrimaryReceiverHandler, WorkerReceiverHandler, dispatch_primary,
}
use tusk_ubuntu.Worker.Dispatch.Silence.{Latest, silences, serve-Latest}
use tusk_ubuntu.Worker.Processor
use tusk_ubuntu.Worker.Processor.{Processor}
use tusk_ubuntu.Worker.Helper.{answer}
use tusk_ubuntu.Worker.Processor.Stored.{Laws}
use tusk_ubuntu.Worker.Exchange.{fetch, fetch-Holds}
use tusk_ubuntu.Tests.Samples.{worker_of_20, four, stub, database, database-get_put}

-- A command of one byte is a cleanup, and one of two bytes a silence that begins.
abbrev decode_command : List ℕ → Option PrimaryWorkerMessage
decode_command [] = none
decode_command (round ∷ []) = some (cleanup round)
decode_command (round ∷ x ∷ xs) = some (batch_silent round true)

abbrev frames : List (Option (List ℕ))
frames =
    some (7 ∷ 0 ∷ []) ∷ some [] ∷ some (5 ∷ 0 ∷ []) ∷ some (4 ∷ []) ∷ none ∷ some (9 ∷ 0 ∷ []) ∷ []

abbrev commands : PrimaryReceiverHandler
commands = record { acks = 0; tx_synchronizer = []; tx_batch_silent = (0, false) }

serve-Latest_example :
    Latest
      (serve (dispatch_primary decode_command) frames commands).tx_batch_silent
      ((0, false) ∷ silences decode_command frames)
serve-Latest_example = serve-Latest decode_command frames commands

-- Digests of one byte.
abbrev small : Primitives
small = record stub { sha512 = λ bytes. sum bytes % 256 }

small-Laws : Laws database small
small-Laws = record { get_put = database-get_put; fits = λ bytes. omega arith }

abbrev batches_of : ℕ → Processor.Setup (List (Key × Value))
batches_of id = record {
  id = id;
  own_digest = false;
  primitives = small;
  database = database;
  encode = λ m. [];
}

abbrev empty_worker : Processor (List (Key × Value))
empty_worker = record { store = []; digests = [] }

abbrev decode_batch : List ℕ → Option WorkerMessage
decode_batch bytes = some (batch (bytes ∷ []))

abbrev handler : WorkerReceiverHandler
handler = record { acks = 0; tx_helper = []; tx_processor = [] }

abbrev processed : List Value
processed = (1 ∷ 2 ∷ []) ∷ (4 ∷ 4 ∷ []) ∷ []

fetch-Holds_example :
    (value : Value) × (database.get
        (Processor.run
          (batches_of 0)
          (fetch decode_batch
            (answer 0 four database
              (Processor.run (batches_of 0) processed empty_worker).store
              (8 ∷ 5 ∷ [])
              2)
            handler)
          empty_worker).store
        (digest_key 8)
      ≡ ok (some value))
    × (small.sha512 value ≡ 8)
    × All
        (λ m. m.0 ≡ 23)
        (answer 0 four database
          (Processor.run (batches_of 0) processed empty_worker).store
          (8 ∷ 5 ∷ [])
          2)
unfolding worker Map.get
fetch-Holds_example =
    fetch-Holds (batches_of 0) (batches_of 0) small-Laws small-Laws decode_batch refl processed
      empty_worker ((_, refl), ((_, refl), tt)) (λ d v f h. absurd (cc)) four 2 worker_of_20 refl
      (8 ∷ 5 ∷ []) (omega arith, (omega arith, tt)) handler refl empty_worker
      (λ d v f h. absurd (cc)) 8 (here refl) (there (here refl))
