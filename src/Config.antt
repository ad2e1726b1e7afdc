-- ===== src/Config.antt =====
-- config/src/lib.rs: the committee, its stake and the thresholds of a quorum and of availability.
-- Public keys and socket addresses are numbers: a key is its 32 bytes read as a big-endian number, so
-- that the order of the keys is the order of the numbers. A `BTreeMap` is the list of its entries.
pub mod Quorum
use tusk_ubuntu.Prelude.{
  ℕ, ◌+◌, ◌/◌, Bool, not, Option, none, some, List, [], ◌∷◌, map, find, filter, length, u32_add,
  u32_mul, ◌==◌,
}
use tusk_ubuntu.Prelude.Map
use tusk_ubuntu.Prelude.Result.{Result, ok, err, ok_or, ◌>>=◌}

abbrev pub PublicKey : Type 0
PublicKey = ℕ

abbrev pub SocketAddr : Type 0
SocketAddr = ℕ

abbrev pub Stake : Type 0
Stake = ℕ

abbrev pub WorkerId : Type 0
WorkerId = ℕ

pub data ConfigError : Type 0 where
  not_in_committee : PublicKey → ConfigError
  unknown_worker : WorkerId → ConfigError

pub record PrimaryAddresses : Type 0 where
  pub primary_to_primary : SocketAddr
  pub worker_to_primary : SocketAddr

pub record WorkerAddresses : Type 0 where
  pub transactions : SocketAddr
  pub worker_to_worker : SocketAddr
  pub primary_to_worker : SocketAddr

pub record Authority : Type 0 where
  pub stake_of : Stake
  pub primary_of : PrimaryAddresses
  pub workers : List (WorkerId × WorkerAddresses)

pub record Committee : Type 0 where
  pub authorities : List (PublicKey × Authority)

unfoldable pub size : Committee → ℕ
size c = length c.authorities

abbrev pub stake_or_zero : Option Authority → Stake
stake_or_zero none = 0
stake_or_zero (some a) = a.stake_of

unfoldable pub stake : Committee → PublicKey → Stake
unfolding Map.get
stake c name = stake_or_zero (Map.get name c.authorities)

unfoldable pub others_stake : Committee → PublicKey → List (PublicKey × Stake)
others_stake c myself =
    map (λ e. (e.0, e.1.stake_of)) (filter (λ e. not (e.0 == myself)) c.authorities)

-- `.map(|x| x.stake).sum()` over `u32`.
unfoldable pub u32_sum : List (PublicKey × Authority) → Stake
u32_sum [] = 0
u32_sum ((_, a) ∷ rest) = u32_add a.stake_of (u32_sum rest)

unfoldable pub quorum_threshold : Committee → Stake
unfolding u32_sum
quorum_threshold c =
    let total_votes = u32_sum c.authorities in u32_add (u32_mul 2 total_votes / 3) 1

unfoldable pub validity_threshold : Committee → Stake
unfolding u32_sum
validity_threshold c = let total_votes = u32_sum c.authorities in u32_add total_votes 2 / 3

unfoldable pub primary : Committee → PublicKey → Result ConfigError PrimaryAddresses
unfolding Map.get
primary c to = do a ← ok_or (Map.get to c.authorities) (not_in_committee to); ok a.primary_of

unfoldable pub others_primaries : Committee → PublicKey → List (PublicKey × PrimaryAddresses)
others_primaries c myself =
    map (λ e. (e.0, e.1.primary_of)) (filter (λ e. not (e.0 == myself)) c.authorities)

unfoldable pub worker : Committee → PublicKey → WorkerId → Result ConfigError WorkerAddresses
worker c to id = do
  (_, a) ← ok_or (find (λ e. e.0 == to) c.authorities) (not_in_committee to)
  (_, w) ← ok_or (find (λ e. e.0 == id) a.workers) (not_in_committee to)
  ok w

unfoldable pub our_workers : Committee → PublicKey → Result ConfigError (List WorkerAddresses)
our_workers c myself = do
  (_, a) ← ok_or (find (λ e. e.0 == myself) c.authorities) (not_in_committee myself)
  ok (map (λ e. e.1) a.workers)

abbrev keep_worker :
    PublicKey
    → Option (WorkerId × WorkerAddresses)
    → List (PublicKey × WorkerAddresses)
    → List (PublicKey × WorkerAddresses)
keep_worker name none rest = rest
keep_worker name (some (_, w)) rest = (name, w) ∷ rest

unfoldable pub with_worker :
    WorkerId → List (PublicKey × Authority) → List (PublicKey × WorkerAddresses)
with_worker id [] = []
with_worker id ((name, a) ∷ rest) =
    keep_worker name (find (λ e. e.0 == id) a.workers) (with_worker id rest)

unfoldable pub others_workers :
    Committee → PublicKey → WorkerId → List (PublicKey × WorkerAddresses)
unfolding with_worker
others_workers c myself id = with_worker id (filter (λ e. not (e.0 == myself)) c.authorities)
