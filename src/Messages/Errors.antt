-- ===== src/Messages/Errors.antt =====
-- primary/src/messages.rs: the errors of the verification. None of them is an error of the store.
use tusk_ubuntu.Prelude.{
  ◌≢◌, inl, inr, Bool, true, false, not, List, [], ◌∷◌, ltb, leb, ◌==◌, any, Bool-cases, u32_add,
}
use tusk_ubuntu.Prelude.Set
use tusk_ubuntu.Prelude.Result.{Result, ok, err, ensure, ◌>>=◌}
use tusk_ubuntu.Config.{
  PublicKey, Stake, WorkerId, Committee, ConfigError, stake, quorum_threshold, worker,
}
use tusk_ubuntu.Crypto
use tusk_ubuntu.Crypto.{Digest, Signature, Primitives, CryptoError}
use tusk_ubuntu.Messages.{
  DagError, DagResult, store_error, invalid_header_id, unknown_authority, authority_reuse,
  certificate_requires_quorum, known_worker, from_crypto, check_workers, check_votes, header_digest,
  vote_digest, cert_digest, verify_header, verify_vote, verify_certified, verify_certificate,
  genesis, certificate_eq, Header, Vote, Certificate,
}

abbrev pub NotOfStore : {A : Type 0} → DagResult A → Type 0
NotOfStore r = r ≢ err store_error

then-NotOfStore :
    {A B : Type 0} (r : DagResult A) (f : A → DagResult B)
    → NotOfStore r
    → ((a : A) → NotOfStore (f a))
    → NotOfStore (r >>= f)
then-NotOfStore (ok a) f n g = g a
then-NotOfStore (err e) f n g = λ q. n (cc)

ensure-NotOfStore : (b : Bool) (e : DagError) → e ≢ store_error → NotOfStore (ensure b e)
ensure-NotOfStore true e n = λ q. cc
ensure-NotOfStore false e n = λ q. n (cc)

from_crypto-NotOfStore : (r : Result CryptoError (Unit {0})) → NotOfStore (from_crypto r)
from_crypto-NotOfStore (ok u) = λ q. cc
from_crypto-NotOfStore (err e) = λ q. cc

known_worker-NotOfStore :
    (id : Digest) {A : Type 0} (r : Result ConfigError A) → NotOfStore (known_worker id r)
known_worker-NotOfStore id (ok w) = λ q. cc
known_worker-NotOfStore id (err e) = λ q. cc

check_workers-NotOfStore :
    (c : Committee) (author : PublicKey) (id : Digest) (payload : List (Digest × WorkerId))
    → NotOfStore (check_workers c author id payload)
unfolding check_workers
check_workers-NotOfStore c author id [] = λ q. cc
check_workers-NotOfStore c author id ((d, w) ∷ rest) =
    then-NotOfStore (known_worker id (worker c author w)) _
      (known_worker-NotOfStore id (worker c author w))
      (λ _. check_workers-NotOfStore c author id rest)

check_votes-NotOfStore :
    (c : Committee) (votes : List (PublicKey × Signature)) (used : List PublicKey) (weight : Stake)
    → NotOfStore (check_votes c votes used weight)
unfolding check_votes
check_votes-NotOfStore c [] used weight = λ q. cc
check_votes-NotOfStore c ((name, g) ∷ votes) used weight =
    then-NotOfStore (ensure (not (Set.contains name used)) (authority_reuse name)) _
      (ensure-NotOfStore (not (Set.contains name used)) (authority_reuse name) (λ q. cc))
      λ _.
        then-NotOfStore (ensure (ltb 0 (stake c name)) (unknown_authority name)) _
          (ensure-NotOfStore (ltb 0 (stake c name)) (unknown_authority name) (λ q. cc))
          λ _. check_votes-NotOfStore c votes (Set.insert name used) (u32_add weight (stake c name))

module _ (p : Primitives) (c : Committee) where
  pub verify_header-NotOfStore : (h : Header) → NotOfStore (verify_header p c h)
  unfolding verify_header
  verify_header-NotOfStore h =
      then-NotOfStore (ensure (header_digest p h == h.id) invalid_header_id) _
        (ensure-NotOfStore (header_digest p h == h.id) invalid_header_id (λ q. cc))
        λ _.
          then-NotOfStore (ensure (ltb 0 (stake c h.author)) (unknown_authority h.author)) _
            (ensure-NotOfStore (ltb 0 (stake c h.author)) (unknown_authority h.author) (λ q. cc))
            λ _.
              then-NotOfStore (check_workers c h.author h.id h.payload) _
                (check_workers-NotOfStore c h.author h.id h.payload)
                λ _. from_crypto-NotOfStore (Crypto.verify p h.signature h.id h.author)

  pub verify_vote-NotOfStore : (v : Vote) → NotOfStore (verify_vote p c v)
  unfolding verify_vote
  verify_vote-NotOfStore v =
      then-NotOfStore (ensure (ltb 0 (stake c v.author)) (unknown_authority v.author)) _
        (ensure-NotOfStore (ltb 0 (stake c v.author)) (unknown_authority v.author) (λ q. cc))
        λ _. from_crypto-NotOfStore (Crypto.verify p v.signature (vote_digest p v) v.author)

  verify_certified-NotOfStore : (x : Certificate) → NotOfStore (verify_certified p c x)
  unfolding verify_certified
  verify_certified-NotOfStore x =
      then-NotOfStore (verify_header p c x.header) _ (verify_header-NotOfStore x.header) λ _.
        then-NotOfStore (check_votes c x.votes [] 0) _ (check_votes-NotOfStore c x.votes [] 0)
          λ weight.
            then-NotOfStore (ensure (leb (quorum_threshold c) weight) certificate_requires_quorum) _
              (ensure-NotOfStore (leb (quorum_threshold c) weight) certificate_requires_quorum
                (λ q. cc))
              λ _. from_crypto-NotOfStore (Crypto.verify_batch p (cert_digest p x) x.votes)

  pub verify_certificate-NotOfStore : (x : Certificate) → NotOfStore (verify_certificate p c x)
  unfolding verify_certificate
  verify_certificate-NotOfStore x = elim (Bool-cases (any (λ g. certificate_eq g x) (genesis c))) [
    | inl q ↦ rw q (λ e. cc)
    | inr q ↦ rw q (verify_certified-NotOfStore x)
  ]
