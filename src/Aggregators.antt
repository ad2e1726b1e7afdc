-- ===== src/Aggregators.antt =====
-- primary/src/aggregators.rs: votes for a header become a certificate, and certificates of a round
-- become the parents of the next header. `append` returns the new aggregator and its result.
pub mod Tally
pub mod Votes
pub mod Certificates
use tusk_ubuntu.Prelude.{ℕ, List, [], ◌∷◌, ◌++◌, Option, none, some, leb, if◌then◌else◌, u32_add}
use tusk_ubuntu.Prelude.Set
use tusk_ubuntu.Prelude.Result.{Result, ok, err}
use tusk_ubuntu.Config.{PublicKey, Stake, Committee, stake, quorum_threshold}
use tusk_ubuntu.Crypto.{Digest, Signature, Primitives}
use tusk_ubuntu.Messages.{
  DagResult, DagError, authority_reuse, Header, Vote, Certificate, cert_digest, cert_origin,
}

pub record VotesAggregator : Type 0 where
  pub weight : Stake
  pub votes : List (PublicKey × Signature)
  pub used : List PublicKey

abbrev pub new_votes : VotesAggregator
new_votes = record { weight = 0; votes = []; used = [] }

-- The second half of `append`: the vote is recorded, and a quorum resets the weight.
unfoldable pub count_vote :
    VotesAggregator → Vote → Committee → Header → VotesAggregator × DagResult (Option Certificate)
count_vote agg vote c header =
    let votes = agg.votes ++ (vote.author, vote.signature) ∷ [] in
    let used = Set.insert vote.author agg.used in
    let weight = u32_add agg.weight (stake c vote.author) in
    if leb (quorum_threshold c) weight
    then (
      record { weight = 0; votes = votes; used = used },
      ok (some (record { header = header; votes = votes })),
    )
    else (record { weight = weight; votes = votes; used = used }, ok none)

unfoldable pub append_vote :
    VotesAggregator → Vote → Committee → Header → VotesAggregator × DagResult (Option Certificate)
unfolding count_vote
append_vote agg vote c header =
    if Set.contains vote.author agg.used
    then (agg, err (authority_reuse vote.author))
    else count_vote agg vote c header

pub record CertificatesAggregator : Type 0 where
  pub weight : Stake
  pub certificates : List Digest
  pub used : List PublicKey

abbrev pub new_certificates : CertificatesAggregator
new_certificates = record { weight = 0; certificates = []; used = [] }

module _ (p : Primitives) where
  -- The second half of `append`: a quorum drains the digests and resets the weight.
  unfoldable pub count_certificate :
      CertificatesAggregator
      → Certificate
      → Committee
      → CertificatesAggregator × DagResult (Option (List Digest))
  count_certificate agg x c =
      let certificates = agg.certificates ++ cert_digest p x ∷ [] in
      let used = Set.insert (cert_origin x) agg.used in
      let weight = u32_add agg.weight (stake c (cert_origin x)) in
      if leb (quorum_threshold c) weight
      then (record { weight = 0; certificates = []; used = used }, ok (some certificates))
      else (record { weight = weight; certificates = certificates; used = used }, ok none)

  unfoldable pub append_certificate :
      CertificatesAggregator
      → Certificate
      → Committee
      → CertificatesAggregator × DagResult (Option (List Digest))
  unfolding count_certificate
  append_certificate agg x c =
      if Set.contains (cert_origin x) agg.used then (agg, ok none) else count_certificate agg x c
