-- ===== src/Aggregators/Certificates.antt =====
-- primary/src/aggregators.rs, `CertificatesAggregator::append`, over any sequence of certificates.
use mathlib.Core.List.{map-append, append-nil, append_assoc}
use tusk_ubuntu.Prelude.{
  ℕ, ◌+◌, ◌≤◌, ◌<◌, ◌≡◌, refl, ap, inl, inr, false, Option, List, [], ◌∷◌, ◌++◌, map, length,
  length-append, All, All-append, arith, leb, u32_add, if◌then◌else◌, Bool-cases,
}
use tusk_ubuntu.Prelude.Set
use tusk_ubuntu.Prelude.Set.{Distinct}
use tusk_ubuntu.Config.{PublicKey, Committee, stake, quorum_threshold}
use tusk_ubuntu.Config.Quorum.{IsValid, votes_weight, quorum_threshold-total}
use tusk_ubuntu.Crypto.{Digest, Primitives}
use tusk_ubuntu.Messages.{DagResult, Certificate, cert_digest, cert_origin}
use tusk_ubuntu.Aggregators.{
  CertificatesAggregator, new_certificates, count_certificate, append_certificate,
}
use tusk_ubuntu.Aggregators.Tally.{snoc, Tally, Tally-empty, Tally-below, below-same, Tally-reached}
use tusk_ubuntu.Aggregators.Votes.{emitted}

abbrev pub origins : List Certificate → List PublicKey
origins xs = map (λ x. cert_origin x) xs

-- The certificates of authorities that are not in `used` and did not come before.
pub firsts : List PublicKey → List Certificate → List Certificate
firsts used [] = []
firsts used (x ∷ xs) =
    let rest = firsts used xs in
    let after = firsts (Set.insert (cert_origin x) used) xs in
    if Set.contains (cert_origin x) used then rest else x ∷ after

abbrev pub reaches : Committee → List Certificate → ℕ
reaches c xs = if leb (quorum_threshold c) (votes_weight c (origins xs)) then 1 else 0

module _ (p : Primitives) (c : Committee) (P : Certificate → Type 0) where
  abbrev pub digests : List Certificate → List Digest
  digests xs = map (λ x. cert_digest p x) xs

  -- The digests of certificates that satisfy `P`, of distinct authorities that reach the quorum.
  abbrev pub IsParents : List Digest → Type 0
  IsParents ds =
      (xs : List Certificate) × (ds ≡ digests xs)
      × All P xs
      × Distinct (origins xs)
      × (quorum_threshold c ≤ votes_weight c (origins xs))

  record Follows (agg : CertificatesAggregator) (acc : List Certificate) : Type 0 where
    counts : Tally c (origins acc) agg.used agg.weight
    held : votes_weight c (origins acc) < quorum_threshold c → agg.certificates ≡ digests acc
    given : All P acc

  record Step (agg : CertificatesAggregator) (acc acc' : List Certificate)
      (r : CertificatesAggregator × DagResult (Option (List Digest))) : Type 0 where
    follows : Follows r.0 acc'
    once : length (emitted r.1) + reaches c acc ≡ reaches c acc'
    parents : All IsParents (emitted r.1)

  origins-snoc :
      (acc : List Certificate) (x : Certificate)
      → origins (acc ++ x ∷ []) ≡ snoc (origins acc) (cert_origin x)
  origins-snoc acc x = map-append _ acc (x ∷ [])

  digests-snoc :
      (acc : List Certificate) (x : Certificate)
      → digests (acc ++ x ∷ []) ≡ digests acc ++ cert_digest p x ∷ []
  digests-snoc acc x = map-append _ acc (x ∷ [])

  module _ (v : IsValid c) where
    count_certificate-Step :
        (agg : CertificatesAggregator) (acc : List Certificate) (x : Certificate)
        → Follows agg acc
        → P x
        → Set.contains (cert_origin x) agg.used ≡ false
        → Step agg acc (acc ++ x ∷ []) (count_certificate p agg x c)
    unfolding count_certificate
    count_certificate-Step agg acc x f px new =
        let e = origins-snoc acc x in
        let d = digests-snoc acc x in
        let all = All-append P acc (x ∷ []) f.given (px, tt) in
        let weight = u32_add agg.weight (stake c (cert_origin x)) in
        elim (Bool-cases (leb (quorum_threshold c) weight)) [
          | inl h ↦
              let (t, low, same, high) =
                Tally-reached c v (origins acc) agg.used agg.weight (cert_origin x) f.counts new
                  h in
              rw h (record {
                follows = record {
                  counts = rw e t;
                  held = rw e (λ b. absurd (omega (arith, b, high)));
                  given = all;
                };
                once = rw e (ground (arith, low, high));
                parents =
                    ((acc ++ x ∷ [], rw d (rw (f.held low)), all, rw e t.distinct, rw e high), tt);
              })
          | inr h ↦
              let t =
                Tally-below c v (origins acc) agg.used agg.weight (cert_origin x) f.counts new h in
              let b =
                below-same c v (origins acc) agg.used agg.weight (cert_origin x) f.counts new h in
              rw h (record {
                follows = record {
                  counts = rw e t;
                  held = rw (e, d) (λ low. rw (f.held (ground (arith, b, low))));
                  given = all;
                };
                once = rw e (ground (arith, b));
                parents = tt;
              })
        ]

-- `append` over a sequence of certificates, with the parents that it returns.
pub append_each :
    Primitives
    → CertificatesAggregator
    → List Certificate
    → Committee
    → CertificatesAggregator × List (List Digest)
append_each p agg [] c = (agg, [])
append_each p agg (x ∷ xs) c =
    let (agg', r) = append_certificate p agg x c in
    let (final, lists) = append_each p agg' xs c in (final, emitted r ++ lists)

count_certificate-used :
    (p : Primitives) (c : Committee) (agg : CertificatesAggregator) (x : Certificate)
    → (count_certificate p agg x c).0.used ≡ Set.insert (cert_origin x) agg.used
unfolding count_certificate
count_certificate-used p c agg x = ground arith

module _ (p : Primitives) (c : Committee) (P : Certificate → Type 0) (v : IsValid c) where
  append_each-from :
      (agg : CertificatesAggregator) (acc xs : List Certificate)
      → Follows p c P agg acc
      → All P xs
      → let (final, lists) = append_each p agg xs c in
        (length lists + reaches c acc ≡ reaches c (acc ++ firsts agg.used xs))
        × All (IsParents p c P) lists
  unfolding append_each append_certificate firsts
  append_each-from agg acc [] f ps = (rw append-nil (omega arith), tt)
  append_each-from agg acc (x ∷ xs) f ps =
      elim (Bool-cases (Set.contains (cert_origin x) agg.used)) [
        | inl h ↦ rw h (append_each-from agg acc xs f ps.1)
        | inr h ↦
            let s = count_certificate-Step p c P v agg acc x f ps.0 h in
            let (agg', r) = count_certificate p agg x c in
            let (n, q) = append_each-from agg' (acc ++ x ∷ []) xs s.follows ps.1 in
            let k = count_certificate-used p c agg x in
            let e : (acc ++ x ∷ []) ++ firsts agg'.used xs
                ≡ acc ++ x ∷ firsts (Set.insert (cert_origin x) agg.used) xs =
              rw k (append_assoc acc (x ∷ []) _) in
            let n' = ap (reaches c) e in
            rw h (
              omega (arith, s.once, n, n', length-append (emitted r) (append_each p agg' xs c).1),
              All-append (IsParents p c P) (emitted r) (append_each p agg' xs c).1 s.parents q,
            )
      ]

  -- Over any sequence of certificates, a fresh aggregator returns one list of parents if the first
  -- certificates of the distinct authorities reach the quorum, and none if they do not. A returned
  -- list holds the digests of some of the given certificates (whatever holds of all of them holds of
  -- these), of distinct authorities that weigh at least `quorum_threshold`. The committee is valid.
  pub append_each-once :
      (xs : List Certificate)
      → All P xs
      → let (final, lists) = append_each p new_certificates xs c in
        (length lists ≡ reaches c (firsts [] xs)) × All (IsParents p c P) lists
  unfolding votes_weight
  append_each-once xs ps =
      let (n, q) =
        append_each-from new_certificates [] xs
          (record { counts = Tally-empty c v; held = λ _. refl; given = tt }) ps in
      (ground (arith, n, quorum_threshold-total c v), q)
