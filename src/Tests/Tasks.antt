-- ===== src/Tests/Tasks.antt =====
-- The properties of the tasks: the store, the core, the garbage collector and the workers.
use tusk_ubuntu.Prelude.{
  ◌+◌, ◌≤◌, ◌≡◌, ◌≢◌, ◌↔◌, refl, true, false, none, some, List, [], ◌∷◌, ◌++◌, In, arith,
}
use tusk_ubuntu.Prelude.Map
use tusk_ubuntu.Prelude.Set
use tusk_ubuntu.Prelude.Set.{Distinct}
use tusk_ubuntu.Prelude.Result.{ok}
use tusk_ubuntu.Config.{worker, PublicKey, stake, quorum_threshold}
use tusk_ubuntu.Config.Quorum.{votes_weight}
use tusk_ubuntu.Crypto.{Digest}
use tusk_ubuntu.Messages.{Header, Vote, Certificate, default_header}
use tusk_ubuntu.Aggregators.{new_votes}
use tusk_ubuntu.Store.{
  Key, Value, Store, StoreCommand, write, read, notify_read, notify_reply, handle_all,
}
use tusk_ubuntu.Store.Obligations.{notify_read-answered, IsPrompt, handle_all-IsPrompt}
use tusk_ubuntu.Core
use tusk_ubuntu.Core.{Core}
use tusk_ubuntu.Core.Actions.{exhausted, pure}
use tusk_ubuntu.Core.Process.{
  handle_header, handle_certificate, handle_vote, process_own_header, process_header,
}
use tusk_ubuntu.Core.Process.Total.{handlers_end}
use tusk_ubuntu.Core.Process.Voting.{VotesOnce, process_header-VotesOnce}
use tusk_ubuntu.Core.Run
use tusk_ubuntu.Core.Run.{cleanup, peer_header}
use tusk_ubuntu.Core.Run.Cleanup.{IsCut, cleanup_lem, IsTurn, turn_lem}
use tusk_ubuntu.GarbageCollector
use tusk_ubuntu.GarbageCollector.{new_garbage_collector, highest, Climbs, run-highest}
use tusk_ubuntu.Worker.QuorumWaiter.{wait_for_quorum, wait_for_quorum_iff}
use tusk_ubuntu.Worker.Synchronizer
use tusk_ubuntu.Worker.Synchronizer.{synchronize, send}
use tusk_ubuntu.Worker.Synchronizer.Requests.{IsRequest, turn-Requested}
use tusk_ubuntu.Worker.BatchMaker
use tusk_ubuntu.Worker.BatchMaker.{changed, transaction, new_batch_maker}
use tusk_ubuntu.Worker.BatchMaker.Batches.{Holds, transactions, run-batches}
use tusk_ubuntu.Tests.Samples.{
  worker_of_20, four, four-IsValid, stub, certified, database, database-get_put,
}

abbrev empty_store : Store (List (Key × Value))
empty_store = record { db = []; obligations = [] }

abbrev between : List StoreCommand
between = write 8 (1 ∷ []) ∷ notify_read 8 2 ∷ read 7 3 ∷ []

notify_read-answered_example :
    In
      (9, notify_reply (ok (5 ∷ [])))
      (handle_all database empty_store (notify_read 7 9 ∷ between ++ write 7 (5 ∷ []) ∷ [])).1
unfolding Map.get
notify_read-answered_example =
    notify_read-answered database 7 9 between (5 ∷ []) empty_store refl (refl, (refl, (refl, tt)))

handle_all-IsPrompt_example :
    IsPrompt database (handle_all database empty_store (notify_read 7 9 ∷ between)).0
unfolding Map.entry_or
handle_all-IsPrompt_example =
    handle_all-IsPrompt database database-get_put (notify_read 7 9 ∷ between) empty_store
      (λ k n i. elim i [ ])

abbrev setup : Core.Setup (List (Key × Value))
setup = record {
  name = 1;
  committee = four;
  gc_depth = 2;
  primitives = stub;
  database = database;
  encode_header = λ h. h.id ∷ [];
  encode_certificate = λ x. x.header.id ∷ [];
  decode_certificate = λ v. none;
}

-- The core at its start, with votes on record for rounds 1 and 9.
abbrev core : Core (List (Key × Value))
core = record {
  store = [];
  gc_round = 0;
  last_voted = (1, 3 ∷ []) ∷ (9, 4 ∷ []) ∷ [];
  processing = [];
  current_header = default_header;
  votes_aggregator = new_votes;
  certificates_aggregators = [];
  cancel_handlers = [];
  sent = [];
}

handlers_end_example :
    ((h : Header) → (handle_header setup h core).1 ≢ exhausted)
    × ((x : Certificate) → (handle_certificate setup x core).1 ≢ exhausted)
    × ((v : Vote) → (handle_vote setup v core).1 ≢ exhausted)
    × ((h : Header) → (process_own_header setup h core).1 ≢ exhausted)
handlers_end_example = handlers_end setup core

-- A header of authority 2 on the genesis certificates of 1, 2 and 3.
abbrev proposal : Header
proposal = (certified 2 1 (1 ∷ 2 ∷ 3 ∷ [])).header

process_header-VotesOnce_example :
    VotesOnce setup
      (λ v. pure tt)
      proposal
      refl
      core
      (process_header setup (λ v. pure tt) proposal core).0
process_header-VotesOnce_example = process_header-VotesOnce setup (λ v. pure tt) proposal refl core

cleanup_lem_example :
    (((cleanup setup 7 core).gc_round + 2 ≡ 7)
      × IsCut setup 7 9 core.last_voted (cleanup setup 7 core).last_voted
      × IsCut setup 7 9 core.processing (cleanup setup 7 core).processing
      × IsCut setup 7 9 core.certificates_aggregators
          (cleanup setup 7 core).certificates_aggregators
      × IsCut setup 7 9 core.cancel_handlers (cleanup setup 7 core).cancel_handlers)
    × ((cleanup setup 7 core).store ≡ core.store)
    × ((cleanup setup 7 core).votes_aggregator ≡ core.votes_aggregator)
    × ((cleanup setup 7 core).current_header ≡ core.current_header)
    × ((cleanup setup 7 core).sent ≡ core.sent)
cleanup_lem_example = cleanup_lem setup 7 (omega arith) (omega arith) 9 core

turn_lem_example :
    IsTurn setup 7 (peer_header proposal) core (Run.turn setup 7 (peer_header proposal) core)
turn_lem_example = turn_lem setup 7 (peer_header proposal) core

abbrev committed : List Certificate
committed = certified 1 2 [] ∷ certified 2 1 [] ∷ certified 3 4 [] ∷ []

run-highest_example :
    ((GarbageCollector.run committed new_garbage_collector).consensus_round ≡ highest committed)
    × Climbs 0
        (GarbageCollector.run committed new_garbage_collector).cleanups
        (GarbageCollector.run committed new_garbage_collector).consensus_round
run-highest_example = run-highest committed

abbrev acknowledged : List PublicKey
acknowledged = 3 ∷ 2 ∷ []

wait_for_quorum_iff_example :
    (wait_for_quorum four (stake four 1) acknowledged ≡ true)
    ↔ ((acknowledged ≢ []) × (quorum_threshold four ≤ votes_weight four (1 ∷ acknowledged)))
unfolding Set.contains
wait_for_quorum_iff_example =
    wait_for_quorum_iff four 1 acknowledged four-IsValid (refl, (refl, (refl, tt)))

abbrev batch_setup : BatchMaker.Setup
batch_setup = record { batch_size = 3; workers_addresses = (2, 20) ∷ []; encode_batch = λ b. [] }

abbrev arrivals : List BatchMaker.Event
arrivals =
    transaction (1 ∷ 2 ∷ [])
    ∷ transaction (3 ∷ 4 ∷ [])
    ∷ changed true
    ∷ changed false
    ∷ transaction (5 ∷ [])
    ∷ BatchMaker.Event.timer
    ∷ []

run-batches_example :
    (t : BatchMaker.BatchMaker) × (BatchMaker.run batch_setup arrivals (new_batch_maker false)
      ≡ some t)
    × Holds batch_setup (transactions arrivals) t
run-batches_example = run-batches batch_setup arrivals false (omega arith) refl

abbrev sync_setup : Synchronizer.Setup (List (Key × Value))
sync_setup = record {
  name = 1;
  id = 0;
  committee = four;
  gc_depth = 5;
  sync_retry_delay = 100;
  sync_retry_nodes = 2;
  database = database;
}

-- The batch 8 is waited for already.
abbrev waiting_for_8 : Synchronizer.Synchronizer (List (Key × Value))
waiting_for_8 = record {
  store = [];
  round = 3;
  pending = (8, (2, 50)) ∷ [];
  waiting = 8 ∷ [];
  cancelled = [];
  requests = [];
}

-- The digests 7 and 9 are missing, 7 is named twice, and the worker 0 of authority 2 is asked.
turn-Requested_example :
    let t = Synchronizer.turn sync_setup (synchronize (7 ∷ 8 ∷ 7 ∷ 9 ∷ []) 2 60) waiting_for_8 in
    (asked : List Digest) × (t.requests ≡ [] ++ send 23 asked ∷ [])
    × IsRequest sync_setup 60 (7 ∷ 8 ∷ 7 ∷ 9 ∷ []) waiting_for_8 t asked
unfolding worker
turn-Requested_example =
    turn-Requested sync_setup 60 (7 ∷ 8 ∷ 7 ∷ 9 ∷ []) 2 worker_of_20 waiting_for_8 refl
