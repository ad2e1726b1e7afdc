-- ===== src/Tests/Primary.antt =====
-- The properties of the committee, the messages, the aggregators and the adversary, on the committee of four.
use tusk_ubuntu.Prelude.{
  min, filter, ◌+◌, ◌-◌, ◌≤◌, ◌<◌, ◌≡◌, refl, List, [], ◌∷◌, All, arith, length, be_bytes32,
}
use tusk_ubuntu.Prelude.Set
use tusk_ubuntu.Prelude.Set.{Distinct, common}
use tusk_ubuntu.Prelude.Result.{ok}
use tusk_ubuntu.Config.{PublicKey, quorum_threshold, validity_threshold, stake}
use tusk_ubuntu.Config.Quorum.{
  votes_weight, total_stake, weight_in, quorum_intersection, quorum_meets_availability,
  thresholds_lem,
}
use tusk_ubuntu.Crypto
use tusk_ubuntu.Crypto.{default_signature}
use tusk_ubuntu.Messages.{
  Vote, Certificate, verify_certified, verify_header, header_digest, check_votes, cert_round,
}
use tusk_ubuntu.Messages.Quorum.{
  voters, verify_certified-quorum, verify_certified-intersection, verify_certified_complete,
}
use tusk_ubuntu.Aggregators.{new_votes, new_certificates}
use tusk_ubuntu.Aggregators.Votes.{append_all, append_all-once, first_votes, reach, IsCertified}
use tusk_ubuntu.Aggregators.Certificates.{append_each, append_each-once, IsParents, reaches, firsts}
use tusk_ubuntu.Adversary.{selected}
use tusk_ubuntu.Adversary.Ranks.{selected_odd}
use tusk_ubuntu.Tests.Samples.{four, four-IsValid, stub, certified}

abbrev left : List PublicKey
left = 1 ∷ 2 ∷ 3 ∷ []

abbrev right : List PublicKey
right = 2 ∷ 3 ∷ 4 ∷ []

quorum_intersection_example : validity_threshold four ≤ votes_weight four (common left right)
unfolding Set.contains quorum_threshold votes_weight stake
quorum_intersection_example =
    quorum_intersection four four-IsValid left right (refl, (refl, (refl, tt)))
      (refl, (refl, (refl, tt))) (omega arith) (omega arith)

quorum_meets_availability_example : 0 < votes_weight four (common left (3 ∷ 4 ∷ []))
unfolding Set.contains quorum_threshold validity_threshold votes_weight stake
quorum_meets_availability_example =
    quorum_meets_availability four four-IsValid left (3 ∷ 4 ∷ []) (refl, (refl, (refl, tt)))
      (refl, (refl, tt)) (omega arith) (omega arith)

thresholds_lem_example :
    (quorum_threshold four ≡ total_stake four - 1)
    × (validity_threshold four ≡ 1 + 1)
    × (quorum_threshold four + 1 ≤ total_stake four)
unfolding weight_in
thresholds_lem_example = thresholds_lem four four-IsValid 1 0 refl (omega arith)

abbrev second : Certificate
second = certified 2 1 (3 ∷ [])

verify_certified-quorum_example :
    Distinct (voters second.votes)
    × (quorum_threshold four ≤ votes_weight four (voters second.votes))
unfolding verify_certified verify_header header_digest be_bytes32 stake Crypto.verify check_votes
    quorum_threshold Crypto.verify_batch
verify_certified-quorum_example = verify_certified-quorum stub four second four-IsValid refl

verify_certified-intersection_example :
    validity_threshold four
    ≤ votes_weight four (common (voters second.votes) (voters (certified 1 1 []).votes))
unfolding verify_certified verify_header header_digest be_bytes32 stake Crypto.verify check_votes
    quorum_threshold Crypto.verify_batch
verify_certified-intersection_example =
    verify_certified-intersection stub four second (certified 1 1 []) four-IsValid refl refl

verify_certified_complete_example : verify_certified stub four second ≡ ok tt
unfolding verify_header Set.contains stake quorum_threshold votes_weight header_digest be_bytes32
    Crypto.verify Crypto.verify_batch
verify_certified_complete_example =
    verify_certified_complete stub four second four-IsValid refl (refl, (refl, (refl, tt)))
      (omega arith, (omega arith, (omega arith, tt))) (omega arith) refl

abbrev vote_of : PublicKey → Vote
vote_of n = record { id = 6; round = 1; origin = 2; author = n; signature = default_signature }

-- The votes of 1 twice, then of 2 and 4: the quorum comes with the last one.
abbrev some_votes : List Vote
some_votes = vote_of 1 ∷ vote_of 1 ∷ vote_of 2 ∷ vote_of 4 ∷ []

append_all-once_example :
    (length (append_all new_votes some_votes four second.header).1
      ≡ reach four (first_votes [] some_votes))
    × All
        (IsCertified four second.header (first_votes [] some_votes))
        (append_all new_votes some_votes four second.header).1
append_all-once_example = append_all-once four four-IsValid second.header some_votes

abbrev some_certificates : List Certificate
some_certificates = certified 1 1 [] ∷ certified 2 1 [] ∷ certified 2 1 [] ∷ certified 3 1 [] ∷ []

append_each-once_example :
    (length (append_each stub new_certificates some_certificates four).1
      ≡ reaches four (firsts [] some_certificates))
    × All
        (IsParents stub four (λ x. cert_round x ≡ 1))
        (append_each stub new_certificates some_certificates four).1
append_each-once_example =
    append_each-once stub four (λ x. cert_round x ≡ 1) four-IsValid some_certificates
      (refl, (refl, (refl, (refl, tt))))

abbrev everyone : List PublicKey
everyone = 1 ∷ 2 ∷ 3 ∷ 4 ∷ []

selected_odd_example :
    length (filter (λ a. selected stub a everyone 3 2 7) everyone) ≡ min 2 (length everyone)
unfolding Set.contains
selected_odd_example = selected_odd stub everyone 3 7 2 (refl, (refl, (refl, (refl, tt)))) refl
