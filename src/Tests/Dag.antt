-- ===== src/Tests/Dag.antt =====
-- The properties of the consensus on a small DAG of the committee of four: full rounds 2, 3 and 4, each
-- certificate naming all of the round below, then a certificate of round 5.
use tusk_ubuntu.Prelude.{
  ℕ, ◌+◌, ◌*◌, ◌≡◌, ◌↔◌, ◌&&◌, refl, Bool, true, false, none, List, [], ◌∷◌, map, max, leb,
  if◌then◌else◌, In, here, there, arith, be_bytes32, In-map, All-In, u64_add,
}
use tusk_ubuntu.Prelude.Map
use tusk_ubuntu.Prelude.Set
use tusk_ubuntu.Prelude.Set.{Distinct}
use tusk_ubuntu.Prelude.Outcome.{returned}
use tusk_ubuntu.Config.{PublicKey, quorum_threshold, validity_threshold, stake}
use tusk_ubuntu.Config.Quorum.{votes_weight}
use tusk_ubuntu.Messages.{Round, Certificate, cert_round, cert_digest, certificate_eq}
use tusk_ubuntu.Consensus.{Entry, Dag, State, Setup, round_of, max_round, update}
use tusk_ubuntu.Consensus.Cleanup.{entry_of, spared, update_lem}
use tusk_ubuntu.Consensus.Leaders.{linked}
use tusk_ubuntu.Consensus.Leaders.Paths.{Chain, linked_iff}
use tusk_ubuntu.Consensus.Flatten.{order_dag}
use tusk_ubuntu.Consensus.Flatten.Returns.{entries, order_dag-returns}
use tusk_ubuntu.Consensus.Flatten.Ancestors.{Ancestor, order_dag_iff}
use tusk_ubuntu.Consensus.Flatten.Search.{HasUniqueDigests}
use tusk_ubuntu.Consensus.Process.{support, process}
use tusk_ubuntu.Consensus.Process.Support.{supported-Chain}
use tusk_ubuntu.Consensus.Process.Commits.{
  IsSound, sequence_round, Elects, HasSupport, grown, process-last, process_justified,
}
use tusk_ubuntu.Adversary.{direct_commit_selected}
use tusk_ubuntu.Prelude.Sort.{sort_by}
use tusk_ubuntu.Tests.Samples.{four, four-IsValid, stub, certified}

-- The digests of a round: 100 times the round, plus the author.
abbrev pub named : Round → List ℕ
named r = (100 * r + 1) ∷ (100 * r + 2) ∷ (100 * r + 3) ∷ (100 * r + 4) ∷ []

abbrev pub at_round : Round → PublicKey → PublicKey × Entry
at_round r n = (n, (100 * (r + 1) + n, certified n (r + 1) (named r)))

-- The round above `r`.
abbrev pub above : Round → List (PublicKey × Entry)
above r = at_round r 1 ∷ at_round r 2 ∷ at_round r 3 ∷ at_round r 4 ∷ []

abbrev pub dag : Dag
dag = (2, above 1) ∷ (3, above 2) ∷ (4, above 3) ∷ []

abbrev pub state : State
state = record {
  last_committed_round = 0;
  last_committed = (1, 0) ∷ (2, 0) ∷ (3, 0) ∷ (4, 0) ∷ [];
  dag = dag;
}

abbrev pub setup : Setup
setup = record { committee = four; gc_depth = 50; faults = 0; seed = 0 }

-- The leader of round 2, the authority 3, and certificates of rounds 4 and 5.
abbrev pub lead : Entry
lead = (203, certified 3 2 (named 1))

abbrev pub fourth : Certificate
fourth = certified 1 4 (named 3)

abbrev pub fifth : Certificate
fifth = certified 1 5 (named 4)

update_lem_example :
    ((update state fourth 50).last_committed_round
      ≡ max (max_round state.last_committed) (cert_round fourth))
    × ((r : Round) (n : PublicKey)
        → entry_of (update state fourth 50).dag r n ≡ (
            if spared (update state fourth 50).last_committed n r
              && leb (update state fourth 50).last_committed_round (u64_add r 50)
            then entry_of state.dag r n
            else none))
unfolding Set.contains
update_lem_example = update_lem state fourth 50 (refl, (refl, (refl, tt)))

linked_iff_example :
    (true ≡ true) ↔ ((y : Certificate) × Chain dag 2 y 4 fourth × (certificate_eq y lead.1 ≡ true))
unfolding linked Map.get Set.contains certificate_eq
linked_iff_example = linked_iff dag fourth lead.1 true (omega arith) refl

order_dag-returns_example : (ys : List Certificate) × (order_dag 50 fourth state ≡ returned ys)
order_dag-returns_example = order_dag-returns 50 fourth state

-- What the fifth certificate commits: the leader of round 2.
abbrev pub out : State × List (Certificate × Bool)
out = (update (grown stub state fifth) lead.1 50, (lead.1, false) ∷ [])

pub fifth-out : process stub setup state fifth ≡ returned out
unfolding process direct_commit_selected sort_by Map.entry_or Map.insert Set.contains stake
    validity_threshold cert_digest be_bytes32
fifth-out = refl

process-last_example : IsSound out.0 × (out.0.last_committed_round ≡ max 0 (sequence_round out.1))
unfolding max_round
process-last_example = process-last stub setup state fifth out refl fifth-out

process_justified_example :
    (c : Elects stub setup state fifth) × HasSupport stub setup 4 c.entry (grown stub state fifth)
process_justified_example = process_justified stub setup state fifth out fifth-out (λ e. cc)

fourth-parents :
    (n : PublicKey) (e : Entry)
    → Set.contains n (1 ∷ 2 ∷ 4 ∷ []) ≡ true
    → In (n, e) (round_of dag 3)
    → Set.contains e.0 fourth.header.parents ≡ true
unfolding round_of Set.contains Map.entry_or
fourth-parents n e h i =
    All-In (λ (x : PublicKey × Entry). Set.contains x.1.0 fourth.header.parents ≡ true) (above 2)
      (refl, (refl, (refl, (refl, tt)))) i

supported-Chain_example : Chain dag 2 lead.1 4 fourth
unfolding round_of Map.entry_or Set.contains validity_threshold quorum_threshold votes_weight stake
    support
supported-Chain_example =
    supported-Chain four dag 2 lead fourth (1 ∷ 2 ∷ 4 ∷ []) four-IsValid (there (there (here refl)))
      (record {
        distinct = (refl, (refl, (refl, (refl, tt))));
        under_origin = (refl, (refl, (refl, (refl, tt))));
      })
      (omega arith) (refl, (refl, (refl, tt))) (omega arith) fourth-parents

In-contains : (k : ℕ) (xs : List ℕ) → In k xs → Set.contains k xs ≡ true
unfolding Set.contains
In-contains k [] i = elim i [ ]
In-contains k (x ∷ xs) (here e) = ground arith
In-contains k (x ∷ xs) (there i) = ground (arith, In-contains k xs i)

unique :
    (es : List Entry)
    → Distinct (map (λ e. e.0) es)
    → (e f : Entry) → In e es
    → In f es
    → e.0 ≡ f.0
    → e ≡ f
unique [] d e f i j q = elim i [ ]
unique (x ∷ es) d e f (here p) (here r) q = cc
unique (x ∷ es) d e f (here p) (there j) q =
    let t = In-contains f.0 (map (λ e. e.0) es) (In-map (λ (e : Entry). e.0) es j) in absurd (cc)
unique (x ∷ es) d e f (there i) (here r) q =
    let t = In-contains e.0 (map (λ e. e.0) es) (In-map (λ (e : Entry). e.0) es i) in absurd (cc)
unique (x ∷ es) d e f (there i) (there j) q = unique es d.1 e f i j q

dag_unique : HasUniqueDigests dag
unfolding entries Set.contains
dag_unique = unique (entries dag) (
  refl,
  (refl, (refl, (refl, (refl, (refl, (refl, (refl, (refl, (refl, (refl, (refl, tt))))))))))),
)

-- The ancestors of the fourth certificate: rounds 2 and 3, the last pushed first, and itself.
abbrev ancestors : List Certificate
ancestors =
    certified 4 2 (named 1)
    ∷ certified 3 2 (named 1)
    ∷ certified 2 2 (named 1)
    ∷ certified 1 2 (named 1)
    ∷ certified 4 3 (named 2)
    ∷ certified 3 3 (named 2)
    ∷ certified 2 3 (named 2)
    ∷ certified 1 3 (named 2)
    ∷ fourth
    ∷ []

order_dag_iff_example :
    In lead.1 ancestors
    ↔ (Ancestor state fourth lead.1 × (leb state.last_committed_round (u64_add 2 50) ≡ true))
unfolding order_dag Map.entry_or sort_by Set.contains Set.insert
order_dag_iff_example = order_dag_iff state fourth 50 ancestors dag_unique refl lead.1
