-- ===== src/Consensus/Process/Support.antt =====
-- consensus/src/lib.rs: the supporters of a leader, and the quorums of parents two rounds above it.
use tusk_ubuntu.Prelude.{
  suc, ◌≤◌, ◌<◌, ◌≡◌, refl, ap, inl, inr, true, false, List, [], ◌∷◌, map, All, In, here, there,
  In-map, arith, ◌==◌, if◌then◌else◌, Bool-cases, u32_mod, &&_parts, ==→eq, sym,
}
use tusk_ubuntu.Prelude.Set
use tusk_ubuntu.Prelude.Set.{Distinct, common}
use tusk_ubuntu.Config.{PublicKey, Committee, stake, quorum_threshold, validity_threshold}
use tusk_ubuntu.Config.Quorum.{
  IsValid, votes_weight, votes_weight-le_total, quorum_meets_availability,
}
use tusk_ubuntu.Crypto.{Digest}
use tusk_ubuntu.Messages.{Round, Certificate, cert_origin}
use tusk_ubuntu.Consensus.{Entry, Dag, values, round_of}
use tusk_ubuntu.Consensus.Leaders.Paths.{Chain, stop, step}
use tusk_ubuntu.Consensus.Process.{support}

-- The entries of a round stand under the origin of their certificate, one for each.
pub record IsRound (authorities : List (PublicKey × Entry)) : Type 0 where
  pub distinct : Distinct (map (λ e. e.0) authorities)
  pub under_origin : All (λ e. cert_origin e.1.1 ≡ e.0) authorities

supporters : Digest → List (PublicKey × Entry) → List PublicKey
supporters d [] = []
supporters d ((n, (k, x)) ∷ rest) =
    let others = supporters d rest in if Set.contains d x.header.parents then n ∷ others else others

supporters-absent :
    (d : Digest) (n : PublicKey) (es : List (PublicKey × Entry))
    → Set.contains n (map (λ e. e.0) es) ≡ false
    → Set.contains n (supporters d es) ≡ false
unfolding supporters Set.contains
supporters-absent d n [] h = refl
supporters-absent d n ((m, (k, x)) ∷ es) h = ground (arith, supporters-absent d n es)

supporters-Distinct :
    (d : Digest) (es : List (PublicKey × Entry))
    → Distinct (map (λ e. e.0) es)
    → Distinct (supporters d es)
unfolding supporters
supporters-Distinct d [] h = tt
supporters-Distinct d ((m, (k, x)) ∷ es) h =
    ground (arith, supporters-Distinct d es h.1, supporters-absent d m es h.0)

support-le :
    (c : Committee) (d : Digest) (es : List (PublicKey × Entry))
    → All (λ e. cert_origin e.1.1 ≡ e.0) es
    → votes_weight c (supporters d es) < u32_mod
    → support c d es ≡ votes_weight c (supporters d es)
unfolding support supporters votes_weight
support-le c d [] o b = refl
support-le c d ((m, (k, x)) ∷ es) o b =
    let e = ap (stake c) o.0 in ground (arith, e, support-le c d es o.1)

supporters-entry :
    (d : Digest) (n : PublicKey) (es : List (PublicKey × Entry))
    → Set.contains n (supporters d es) ≡ true
    → (e : Entry) × In (n, e) es × (Set.contains d e.1.header.parents ≡ true)
unfolding supporters Set.contains
supporters-entry d n [] h = absurd (cc)
supporters-entry d n ((m, (k, x)) ∷ es) h = elim (Bool-cases (Set.contains d x.header.parents)) [
  | inl q ↦ elim (Bool-cases (m == n)) [
    | inl s ↦ ((k, x), here (ap (λ (t : PublicKey). (t, (k, x))) (sym (==→eq m n s))), q)
    | inr s ↦
        let t : Set.contains n (supporters d es) ≡ true = ground (arith, h, q, s) in
        let (e, i, u) = supporters-entry d n es t in (e, there i, u)
  ]
  | inr q ↦ let (e, i, t) = supporters-entry d n es (rw q at h) in (e, there i, t)
]

some_voter :
    (c : Committee) (ns : List PublicKey)
    → 0 < votes_weight c ns
    → (n : PublicKey) × (Set.contains n ns ≡ true)
unfolding votes_weight Set.contains
some_voter c [] h = absurd (omega arith)
some_voter c (n ∷ ns) h = (n, ground arith)

-- Take a committee that is valid and a leader in the DAG at a round. Say that the certificates of the
-- next round that have the leader's digest among their parents weigh at least `validity_threshold`,
-- by the code's count, and that each of that round's entries stands under its origin, one for each.
-- Then a certificate, two rounds above the leader, that has among its parents the entries of distinct
-- authors weighing at least `quorum_threshold` has a path to the leader.
pub supported-Chain :
    (c : Committee) (dag : Dag) (low : Round) (lead : Entry) (w : Certificate)
    (authors : List PublicKey)
    → IsValid c
    → In lead (values (round_of dag low))
    → IsRound (round_of dag (suc low))
    → validity_threshold c ≤ support c lead.0 (round_of dag (suc low))
    → Distinct authors
    → quorum_threshold c ≤ votes_weight c authors
    → ((n : PublicKey) (e : Entry)
        → Set.contains n authors ≡ true
        → In (n, e) (round_of dag (suc low))
        → Set.contains e.0 w.header.parents ≡ true)
    → Chain dag low lead.1 (suc (suc low)) w
unfolding common
supported-Chain c dag low lead w authors v i r s d q parents =
    let es = round_of dag (suc low) in
    let ds = supporters-Distinct lead.0 es r.distinct in
    let le = votes_weight-le_total c v (supporters lead.0 es) ds in
    let same = support-le c lead.0 es r.under_origin (omega (arith, le, v.fits)) in
    let (n, both) =
      some_voter c (common authors (supporters lead.0 es)) (
        quorum_meets_availability c v authors (supporters lead.0 es) d ds q
          (omega (arith, same))) in
    let (in_authors, in_support) =
      &&_parts (Set.contains n authors) (Set.contains n (supporters lead.0 es))
        (rw (Set.contains-filter (λ x. Set.contains x (supporters lead.0 es)) n authors) at both) in
    let (e, j, t) = supporters-entry lead.0 n es in_support in
    step (suc low) e refl (In-map (λ (x : PublicKey × Entry). x.1) es j) (parents n e in_authors j)
      (step low lead refl i t (stop refl))
