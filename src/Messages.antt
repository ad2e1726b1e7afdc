-- ===== src/Messages.antt =====
-- primary/src/messages.rs and primary/src/error.rs: headers, votes and certificates, how they are
-- hashed and how they are verified against the committee. `BTreeMap` and `BTreeSet` are the lists of
-- their entries. The text of an error of the store or of bincode is left out.
pub mod Quorum
pub mod Errors
use tusk_ubuntu.Prelude.{
  ℕ, ◌+◌, Bool, true, false, not, ◌&&◌, List, [], ◌∷◌, ◌++◌, map, any, le_bytes, be_bytes32, ltb,
  leb, ◌==◌, if◌then◌else◌, u32_add,
}
use tusk_ubuntu.Prelude.Set
use tusk_ubuntu.Prelude.Result.{Result, ok, err, ensure, ◌>>=◌, ◌>>◌}
use tusk_ubuntu.Config.{
  PublicKey, Stake, WorkerId, Committee, ConfigError, stake, quorum_threshold, worker,
}
use tusk_ubuntu.Crypto
use tusk_ubuntu.Crypto.{Digest, Signature, CryptoError, Primitives, default_signature}

abbrev pub Round : Type 0
Round = ℕ

pub data DagError : Type 0 where
  invalid_signature : CryptoError → DagError
  store_error serialization_error invalid_header_id : DagError
  malformed_header : Digest → DagError
  unknown_authority authority_reuse : PublicKey → DagError
  unexpected_vote : Digest → DagError
  certificate_requires_quorum : DagError
  header_requires_quorum : Digest → DagError
  too_old : Digest → Round → DagError

abbrev pub DagResult : Type 0 → Type 0
DagResult A = Result DagError A

pub record Header : Type 0 where
  pub author : PublicKey
  pub round : Round
  pub payload : List (Digest × WorkerId)
  pub parents : List Digest
  pub id : Digest
  pub signature : Signature

pub record Vote : Type 0 where
  pub id : Digest
  pub round : Round
  pub origin : PublicKey
  pub author : PublicKey
  pub signature : Signature

pub record Certificate : Type 0 where
  pub header : Header
  pub votes : List (PublicKey × Signature)

abbrev pub default_header : Header
default_header = record {
  author = 0;
  round = 0;
  payload = [];
  parents = [];
  id = 0;
  signature = default_signature;
}

unfoldable pub genesis_of : PublicKey → Certificate
genesis_of name = record { header = record default_header { author = name }; votes = [] }

unfoldable pub genesis : Committee → List Certificate
unfolding genesis_of
genesis c = map (λ e. genesis_of e.0) c.authorities

-- `PartialEq` compares the id, the round and the origin only.
unfoldable pub certificate_eq : Certificate → Certificate → Bool
certificate_eq a b =
    a.header.id == b.header.id
    && (a.header.round == b.header.round && a.header.author == b.header.author)

abbrev pub cert_round : Certificate → Round
cert_round x = x.header.round

abbrev pub cert_origin : Certificate → PublicKey
cert_origin x = x.header.author

-- `map_err(DagError::from)`
abbrev pub from_crypto : Result CryptoError (Unit {0}) → DagResult (Unit {0})
from_crypto (ok u) = ok u
from_crypto (err e) = err (invalid_signature e)

-- The loop over the worker ids of the payload.
abbrev pub known_worker : Digest → {A : Type 0} → Result ConfigError A → DagResult (Unit {0})
known_worker id (ok w) = ok tt
known_worker id (err e) = err (malformed_header id)

unfoldable pub check_workers :
    Committee → PublicKey → Digest → List (Digest × WorkerId) → DagResult (Unit {0})
check_workers c author id [] = ok tt
check_workers c author id ((_, worker_id) ∷ rest) = do
  known_worker id (worker c author worker_id)
  check_workers c author id rest

-- The loop over the votes of a certificate: `used` and `weight` are the loop's variables.
unfoldable pub check_votes :
    Committee → List (PublicKey × Signature) → List PublicKey → Stake → DagResult Stake
unfolding Set.insert
check_votes c [] used weight = ok weight
check_votes c ((name, _) ∷ votes) used weight = do
  ensure (not (Set.contains name used)) (authority_reuse name)
  ensure (ltb 0 (stake c name)) (unknown_authority name)
  check_votes c votes (Set.insert name used) (u32_add weight (stake c name))

unfoldable pub payload_bytes : List (Digest × WorkerId) → List ℕ
payload_bytes [] = []
payload_bytes ((x, y) ∷ rest) = be_bytes32 x ++ (le_bytes 4 y ++ payload_bytes rest)

unfoldable pub parents_bytes : List Digest → List ℕ
parents_bytes [] = []
parents_bytes (x ∷ rest) = be_bytes32 x ++ parents_bytes rest

module _ (p : Primitives) where
  open p use {sha512}

  unfoldable pub header_digest : Header → Digest
  unfolding payload_bytes parents_bytes
  header_digest h = sha512 (
      be_bytes32 h.author
      ++ (le_bytes 8 h.round ++ (payload_bytes h.payload ++ parents_bytes h.parents)))

  unfoldable pub vote_digest : Vote → Digest
  vote_digest v = sha512 (be_bytes32 v.id ++ (le_bytes 8 v.round ++ be_bytes32 v.origin))

  unfoldable pub cert_digest : Certificate → Digest
  cert_digest x =
      sha512 (be_bytes32 x.header.id ++ (le_bytes 8 (cert_round x) ++ be_bytes32 (cert_origin x)))

  -- `Header::new`
  unfoldable pub new_header : PublicKey → Round → List (Digest × WorkerId) → List Digest → Header
  unfolding header_digest
  new_header author round payload parents = record header {
    id = header_digest header;
    signature = p.sign (header_digest header);
  }
    where
      header : Header
      header = record {
        author = author;
        round = round;
        payload = payload;
        parents = parents;
        id = 0;
        signature = default_signature;
      }

  -- `Vote::new`
  unfoldable pub new_vote : Header → PublicKey → Vote
  unfolding vote_digest
  new_vote header author = record vote { signature = p.sign (vote_digest vote) }
    where
      vote : Vote
      vote = record {
        id = header.id;
        round = header.round;
        origin = header.author;
        author = author;
        signature = default_signature;
      }

  unfoldable pub verify_header : Committee → Header → DagResult (Unit {0})
  unfolding check_workers
  verify_header c h = do
    ensure (header_digest h == h.id) invalid_header_id
    ensure (ltb 0 (stake c h.author)) (unknown_authority h.author)
    check_workers c h.author h.id h.payload
    from_crypto (Crypto.verify p h.signature h.id h.author)

  unfoldable pub verify_vote : Committee → Vote → DagResult (Unit {0})
  verify_vote c v = do
    ensure (ltb 0 (stake c v.author)) (unknown_authority v.author)
    from_crypto (Crypto.verify p v.signature (vote_digest v) v.author)

  unfoldable pub verify_certified : Committee → Certificate → DagResult (Unit {0})
  verify_certified c x = do
    verify_header c x.header
    weight ← check_votes c x.votes [] 0
    ensure (leb (quorum_threshold c) weight) certificate_requires_quorum
    from_crypto (Crypto.verify_batch p (cert_digest x) x.votes)

  unfoldable pub verify_certificate : Committee → Certificate → DagResult (Unit {0})
  unfolding verify_certified
  verify_certificate c x =
      if any (λ g. certificate_eq g x) (genesis c) then ok tt else verify_certified c x
