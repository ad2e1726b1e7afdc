-- ===== src/Aggregators/Votes.antt =====
-- primary/src/aggregators.rs, `VotesAggregator::append`, over any sequence of votes.
use mathlib.Core.List.{map-append, append-nil, append_assoc}
use tusk_ubuntu.Prelude.{
  ℕ, ◌+◌, ◌≤◌, ◌≡◌, refl, sym, ap, ◌∙◌, inl, inr, false, Option, none, some, List, [], ◌∷◌, ◌++◌,
  map, length, length-append, All, All-append, arith, leb, u32_add, if◌then◌else◌, Bool-cases,
}
use tusk_ubuntu.Prelude.Set
use tusk_ubuntu.Prelude.Set.{Distinct}
use tusk_ubuntu.Prelude.Result.{ok, err}
use tusk_ubuntu.Config.{PublicKey, Committee, stake, quorum_threshold}
use tusk_ubuntu.Config.Quorum.{IsValid, votes_weight, quorum_threshold-total}
use tusk_ubuntu.Crypto.{Signature}
use tusk_ubuntu.Messages.{DagResult, Header, Vote, Certificate}
use tusk_ubuntu.Aggregators.{VotesAggregator, new_votes, count_vote, append_vote}
use tusk_ubuntu.Aggregators.Tally.{snoc, Tally, Tally-empty, Tally-below, below-same, Tally-reached}

abbrev pub emitted : {A : Type 0} → DagResult (Option A) → List A
emitted (ok (some x)) = x ∷ []
emitted (ok none) = []
emitted (err e) = []

abbrev pub authors : List Vote → List PublicKey
authors votes = map (λ v. v.author) votes

abbrev pub ballots : List Vote → List (PublicKey × Signature)
ballots votes = map (λ v. (v.author, v.signature)) votes

-- The votes of authors that are not in `used` and did not vote before.
unfoldable pub first_votes : List PublicKey → List Vote → List Vote
first_votes used [] = []
first_votes used (v ∷ votes) =
    let rest = first_votes used votes in
    let after = first_votes (Set.insert v.author used) votes in
    if Set.contains v.author used then rest else v ∷ after

-- Whether the votes reach the quorum, as a number.
abbrev pub reach : Committee → List Vote → ℕ
reach c votes = if leb (quorum_threshold c) (votes_weight c (authors votes)) then 1 else 0

module _ (c : Committee) (header : Header) where
  -- The certificate of the chosen votes, whose authors are distinct and reach the quorum.
  abbrev pub IsChosen : List Vote → Certificate → Type 0
  IsChosen chosen x =
      (x ≡ record { header = header; votes = ballots chosen })
      × Distinct (authors chosen)
      × (quorum_threshold c ≤ votes_weight c (authors chosen))

  -- The certificate of votes that `all` begins with.
  abbrev pub IsCertified : List Vote → Certificate → Type 0
  IsCertified all x =
      (chosen : List Vote) × (rest : List Vote) × (all ≡ chosen ++ rest) × IsChosen chosen x

  record Follows (agg : VotesAggregator) (acc : List Vote) : Type 0 where
    counts : Tally c (authors acc) agg.used agg.weight
    held : agg.votes ≡ ballots acc

  record Step (acc acc' : List Vote) (r : VotesAggregator × DagResult (Option Certificate))
      : Type 0 where
    follows : Follows r.0 acc'
    once : length (emitted r.1) + reach c acc ≡ reach c acc'
    chosen : All (IsChosen acc') (emitted r.1)

  authors-snoc :
      (acc : List Vote) (v : Vote) → authors (acc ++ v ∷ []) ≡ snoc (authors acc) v.author
  authors-snoc acc v = map-append _ acc (v ∷ [])

  ballots-snoc :
      (acc : List Vote) (v : Vote)
      → ballots (acc ++ v ∷ []) ≡ ballots acc ++ (v.author, v.signature) ∷ []
  ballots-snoc acc v = map-append _ acc (v ∷ [])

  module _ (valid : IsValid c) where
    count_vote-Step :
        (agg : VotesAggregator) (acc : List Vote) (v : Vote)
        → Follows agg acc
        → Set.contains v.author agg.used ≡ false
        → Step acc (acc ++ v ∷ []) (count_vote agg v c header)
    unfolding count_vote
    count_vote-Step agg acc v f new =
        let e = authors-snoc acc v in
        let b : agg.votes ++ (v.author, v.signature) ∷ [] ≡ ballots (acc ++ v ∷ []) =
          ap (λ votes. votes ++ (v.author, v.signature) ∷ []) f.held ∙ sym (ballots-snoc acc v) in
        let weight = u32_add agg.weight (stake c v.author) in
        elim (Bool-cases (leb (quorum_threshold c) weight)) [
          | inl h ↦
              let (t, low, same, high) =
                Tally-reached c valid (authors acc) agg.used agg.weight v.author f.counts new h in
              rw h (record {
                follows = record { counts = rw e t; held = b };
                once = rw e (ground (arith, low, high));
                chosen = (
                  (
                    ap (λ votes. record { header = header; votes = votes }) b,
                    rw e t.distinct,
                    rw e high,
                  ),
                  tt,
                );
              })
          | inr h ↦
              let t =
                Tally-below c valid (authors acc) agg.used agg.weight v.author f.counts new h in
              let s =
                below-same c valid (authors acc) agg.used agg.weight v.author f.counts new h in
              rw h (record {
                follows = record { counts = rw e t; held = b };
                once = rw e (ground (arith, s));
                chosen = tt;
              })
        ]

-- `append` over a sequence of votes, with the certificates that it returns.
pub append_all :
    VotesAggregator → List Vote → Committee → Header → VotesAggregator × List Certificate
append_all agg [] c header = (agg, [])
append_all agg (vote ∷ votes) c header =
    let (agg', r) = append_vote agg vote c header in
    let (final, certificates) = append_all agg' votes c header in (final, emitted r ++ certificates)

count_vote-used :
    (c : Committee) (header : Header) (agg : VotesAggregator) (v : Vote)
    → (count_vote agg v c header).0.used ≡ Set.insert v.author agg.used
unfolding count_vote
count_vote-used c header agg v = ground arith

module _ (c : Committee) (valid : IsValid c) (header : Header) where
  IsChosen-IsCertified :
      (acc rest all : List Vote) (xs : List Certificate)
      → all ≡ acc ++ rest
      → All (IsChosen c header acc) xs
      → All (IsCertified c header all) xs
  IsChosen-IsCertified acc rest all [] e a = tt
  IsChosen-IsCertified acc rest all (x ∷ xs) e a =
      ((acc, rest, e, a.0), IsChosen-IsCertified acc rest all xs e a.1)

  append_all-from :
      (agg : VotesAggregator) (acc votes : List Vote)
      → Follows c header agg acc
      → let (final, certificates) = append_all agg votes c header in
        (length certificates + reach c acc ≡ reach c (acc ++ first_votes agg.used votes))
        × All (IsCertified c header (acc ++ first_votes agg.used votes)) certificates
  unfolding append_all append_vote first_votes
  append_all-from agg acc [] f = (rw append-nil (omega arith), tt)
  append_all-from agg acc (v ∷ votes) f = elim (Bool-cases (Set.contains v.author agg.used)) [
    | inl h ↦ rw h (append_all-from agg acc votes f)
    | inr h ↦
        let s = count_vote-Step c header valid agg acc v f h in
        let (agg', r) = count_vote agg v c header in
        let (n, q) = append_all-from agg' (acc ++ v ∷ []) votes s.follows in
        let k = count_vote-used c header agg v in
        let rest = first_votes (Set.insert v.author agg.used) votes in
        let e : (acc ++ v ∷ []) ++ first_votes agg'.used votes ≡ acc ++ v ∷ rest =
          rw k (append_assoc acc (v ∷ []) _) in
        let n' = ap (reach c) e in
        rw h (
          omega
              (arith, s.once, n, n', length-append (emitted r) (append_all agg' votes c header).1),
          All-append (IsCertified c header (acc ++ v ∷ rest)) (emitted r)
              (append_all agg' votes c header).1
              (IsChosen-IsCertified (acc ++ v ∷ []) rest (acc ++ v ∷ rest) (emitted r)
                (sym (append_assoc acc (v ∷ []) rest)) s.chosen)
              (rw e at q),
        )
  ]

  -- Over any sequence of votes, repetitions included, a fresh aggregator returns exactly one
  -- certificate if the first votes of the authors among them reach the quorum, and none if they do
  -- not. A returned certificate is for the given header and carries, in order, the authors and the
  -- signatures of votes that these first votes begin with; their authors are distinct and weigh at least
  -- `quorum_threshold`. The committee is valid.
  pub append_all-once :
      (votes : List Vote)
      → let (final, certificates) = append_all new_votes votes c header in
        (length certificates ≡ reach c (first_votes [] votes))
        × All (IsCertified c header (first_votes [] votes)) certificates
  unfolding votes_weight
  append_all-once votes =
      let (n, q) =
        append_all-from new_votes [] votes (record { counts = Tally-empty c valid; held = refl }) in
      (ground (arith, n, quorum_threshold-total c valid), q)
