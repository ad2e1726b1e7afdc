-- ===== src/Tests/Waiters.antt =====
-- The properties of the header waiter and of the missing payload, at concrete inputs.
use tusk_ubuntu.Prelude.{
  ◌+◌, ◌≡◌, ℕ, refl, none, some, List, [], ◌∷◌, ◌++◌, map, filter, leb, arith,
}
use tusk_ubuntu.Prelude.Map
use tusk_ubuntu.Prelude.Set
use tusk_ubuntu.Prelude.Outcome.{returned}
use tusk_ubuntu.Config.{WorkerId, primary}
use tusk_ubuntu.Crypto.{Digest}
use tusk_ubuntu.Messages.{Header}
use tusk_ubuntu.Store.{Key, Value, digest_key}
use tusk_ubuntu.Core
use tusk_ubuntu.Core.{Core}
use tusk_ubuntu.Aggregators.{new_votes}
use tusk_ubuntu.Primary.HeaderWaiter
use tusk_ubuntu.Primary.HeaderWaiter.{HeaderWaiter, Event, handle_parents, clean}
use tusk_ubuntu.Primary.HeaderWaiter.Parents.{Notes, parents_request, handle_parents_lem}
use tusk_ubuntu.Primary.HeaderWaiter.Asked
use tusk_ubuntu.Primary.HeaderWaiter.Cleanup.{IsCut, clean_lem}
use tusk_ubuntu.Prelude.Keys.{keys}
use tusk_ubuntu.Primary.PayloadReceiver.{receive}
use tusk_ubuntu.Primary.PayloadReceiver.Available.{NeedsPayload, process_header-NeedsPayload}
use tusk_ubuntu.Core.Process.{process_header}
use tusk_ubuntu.Core.Actions.{pure}
use tusk_ubuntu.Tests.Samples.{authority, four, stub, certified, database, database-get_put}

abbrev waiter_setup : HeaderWaiter.Setup
waiter_setup = record {
  name = 1;
  committee = four;
  gc_depth = 2;
  sync_retry_delay = 100;
  sync_retry_nodes = 2;
}

-- A header of authority 2 with the batches 7 and 8 of its worker 0.
abbrev proposal : Header
proposal = record (certified 2 5 (4 ∷ 6 ∷ 4 ∷ [])).header { payload = (7, 0) ∷ (8, 0) ∷ [] }

-- The waiter asked for parent 6 and batch 8, and header 3 is pending.
abbrev waiter : HeaderWaiter
waiter = record {
  parent_requests = (6, (3, 10)) ∷ [];
  batch_requests = (8, 4) ∷ [];
  pending = (3, 3) ∷ (9, 6) ∷ [];
  waiting = [];
  cancelled = [];
  requests = [];
  to_core = [];
}

abbrev missing_parents : List Digest
missing_parents = 4 ∷ 6 ∷ 4 ∷ []

handle_parents_lem_example :
    (t : HeaderWaiter) × (asked : List Digest) × (handle_parents waiter_setup missing_parents
        proposal 50 waiter
      ≡ returned t)
    × Notes (5, 50) missing_parents waiter.parent_requests (t.parent_requests, asked)
    × (t.requests ≡ [] ++ parents_request waiter_setup (authority 20).primary_of asked)
    × (t.waiting ≡ [] ++ (map digest_key missing_parents, proposal) ∷ [])
    × (Map.get proposal.id t.pending ≡ some 5)
    × (t.batch_requests ≡ waiter.batch_requests)
unfolding primary
handle_parents_lem_example =
    handle_parents_lem waiter_setup missing_parents proposal 50 waiter (authority 20).primary_of
      refl

clean_lem_example :
    (limit : ℕ) × (limit + 2 ≡ 5)
    × IsCut waiter_setup (λ r. r) limit waiter.pending (clean waiter_setup 5 waiter).pending
    × IsCut waiter_setup
        (λ r. r)
        limit
        waiter.batch_requests
        (clean waiter_setup 5 waiter).batch_requests
    × IsCut waiter_setup
        (λ v. v.0)
        limit
        waiter.parent_requests
        (clean waiter_setup 5 waiter).parent_requests
    × ((clean waiter_setup 5 waiter).cancelled
        ≡ [] ++ keys (filter (λ e. leb e.1 limit) waiter.pending))
    × ((clean waiter_setup 5 waiter).requests ≡ [])
    × ((clean waiter_setup 5 waiter).waiting ≡ [])
    × ((clean waiter_setup 5 waiter).to_core ≡ [])
unfolding Set.contains
clean_lem_example =
    clean_lem waiter_setup 5 waiter (omega arith) (omega arith)
      (record { pending = (refl, (refl, tt)); batches = (refl, tt); parents = (refl, tt) })

abbrev core_setup : Core.Setup (List (Key × Value))
core_setup = record {
  name = 1;
  committee = four;
  gc_depth = 2;
  primitives = stub;
  database = database;
  encode_header = λ h. [];
  encode_certificate = λ x. [];
  decode_certificate = λ v. none;
}

abbrev reports : List (Digest × WorkerId)
reports = (7, 0) ∷ (8, 1) ∷ []

abbrev core : Core (List (Key × Value))
core = record {
  store = receive database reports [];
  gc_round = 0;
  last_voted = [];
  processing = [];
  current_header = proposal;
  votes_aggregator = new_votes;
  certificates_aggregators = [];
  cancel_handlers = [];
  sent = [];
}

-- A header of authority 2 on the genesis certificates of 1, 2 and 3, with a batch that worker 0 did not
-- report.
abbrev ready : Header
ready = record (certified 2 1 (1 ∷ 2 ∷ 3 ∷ [])).header { payload = (7, 0) ∷ (8, 0) ∷ [] }

process_header-NeedsPayload_example :
    NeedsPayload reports ready core (process_header core_setup (λ v. pure tt) ready core).0
unfolding Map.get
process_header-NeedsPayload_example =
    process_header-NeedsPayload core_setup database-get_put reports []
      ((omega arith, omega arith), ((omega arith, omega arith), tt)) (λ v. pure tt) ready refl
      (((omega arith, omega arith), refl), (((omega arith, omega arith), refl), tt)) core refl
