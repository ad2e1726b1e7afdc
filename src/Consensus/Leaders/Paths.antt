-- ===== src/Consensus/Leaders/Paths.antt =====
-- consensus/src/lib.rs, `linked`: the walk over the rounds, and the paths of the DAG.
use tusk_ubuntu.Prelude.{
  ℕ, zero, suc, ◌+◌, ◌-◌, ◌≤◌, ◌≡◌, ◌↔◌, ◌⊎◌, ◌∙◌, In-cons, refl, sym, inl, inr, Bool, true, some,
  List, [], ◌∷◌, map, filter, any, In, here, In-map, map-In, In-filter, filter-In, any-In, In-any,
  arith, Option-cases,
}
use tusk_ubuntu.Prelude.Map
use tusk_ubuntu.Prelude.Set
use tusk_ubuntu.Prelude.Outcome.{returned, returned-injective, >>=-returned}
use tusk_ubuntu.Config.{PublicKey}
use tusk_ubuntu.Messages.{Round, Certificate, cert_round, certificate_eq}
use tusk_ubuntu.Consensus.{Entry, Dag, values, round_of}
use tusk_ubuntu.Consensus.Leaders.{is_parent, parents_in, walk, linked}

-- From `z` at round `k` down to `y` at round `low`: each certificate is in the DAG at the round below
-- the one before, which has its digest among its parents.
pub data Chain (dag : Dag) (low : Round) (y : Certificate) : Round → Certificate → Type 0 where
  stop : {k : Round} → k ≡ low → Chain dag low y k y
  step :
      {k : Round} {z : Certificate} (j : Round) (e : Entry)
      → k ≡ suc j
      → In e (values (round_of dag j))
      → Set.contains e.0 z.header.parents ≡ true
      → Chain dag low y j e.1
      → Chain dag low y k z

Chain-le :
    {dag : Dag} {low : Round} {y : Certificate} {k : Round} {z : Certificate}
    → Chain dag low y k z
    → low ≤ k
Chain-le (stop q) = omega arith
Chain-le (step j e q i h c) = omega (arith, Chain-le c)

Chain-cases :
    {dag : Dag} {low : Round} {y : Certificate} {k : Round} {z : Certificate}
    → Chain dag low y k z
    → ((k ≡ low) × (y ≡ z))
      ⊎ ((j : Round) × (e : Entry) × (k ≡ suc j)
          × In e (values (round_of dag j))
          × (Set.contains e.0 z.header.parents ≡ true)
          × Chain dag low y j e.1)
Chain-cases (stop q) = inl (q, refl)
Chain-cases (step j e q i h c) = inr (j, e, q, i, h, c)

-- The parents that one step finds are those of the DAG's round that some child names.
abbrev HasChild : List Certificate → Entry → Type 0
HasChild children e = (z : Certificate) × In z children × (Set.contains e.0 z.header.parents ≡ true)

round_of-get :
    (dag : Dag) (r : Round) {authorities : List (PublicKey × Entry)}
    → Map.get r dag ≡ some authorities
    → round_of dag r ≡ authorities
unfolding round_of Map.entry_or
round_of-get dag r g = ground arith

module _ (dag : Dag) where
  parents_in_iff :
      (r : Round) (children ps : List Certificate) (y : Certificate)
      → parents_in dag r children ≡ returned ps
      → In y ps ↔ ((e : Entry) × In e (values (round_of dag r)) × (y ≡ e.1) × HasChild children e)
  unfolding parents_in
  parents_in_iff r children ps y h = elim (Option-cases (Map.get r dag)) [
    | inl n ↦ absurd (cc)
    | inr (authorities, g) ↦
        let e : map (λ (e : Entry). e.1) (filter (is_parent children) (values authorities)) ≡ ps =
          returned-injective (rw g at h) in
        (
          λ i.
              let (f, j, q) =
                map-In (λ (e : Entry). e.1) (filter (is_parent children) (values authorities))
                  (rw (← e) at i) in
              let (k, t) = filter-In (is_parent children) (values authorities) j in
              let (z, m, u) = any-In (λ x. Set.contains f.0 x.header.parents) children t in
              (f, rw (round_of-get dag r g) k, q, (z, m, u)),
          λ (f, j, q, (z, m, u)). rw (← e) (
              rw q (
                In-map (λ (e : Entry). e.1) (filter (is_parent children) (values authorities))
                  (In-filter (is_parent children) (values authorities)
                    (rw (round_of-get dag r g) at j)
                    (In-any (λ x. Set.contains f.0 x.header.parents) children m u)))),
        )
  ]

  walk_iff :
      (low n : ℕ) (children ps : List Certificate) (y : Certificate)
      → walk dag low n children ≡ returned ps
      → In y ps ↔ ((z : Certificate) × In z children × Chain dag low y (low + n) z)
  unfolding walk
  walk_iff low zero children ps y h =
      let e : children ≡ ps = returned-injective h in
      (λ i. (y, rw (← e) at i, stop (omega arith)), λ (z, i, c). ended z i c)
    where
      ended : (z : Certificate) → In z children → Chain dag low y (low + zero) z → In y ps
      ended z i c = elim (Chain-cases c) [
        | inl (_, q) ↦ let e : children ≡ ps = returned-injective h in rw q (rw e at i)
        | inr (j, e, q, _, _, c') ↦ absurd (omega (arith, Chain-le c'))
      ]
  walk_iff low (suc n) children ps y h =
      let (ms, em, k) = >>=-returned (parents_in dag (low + n) children) _ h in
      let (f, g) = walk_iff low n ms ps y k in
      (
        λ i.
            let (m, im, c) = f i in
            let (e, ie, q, (z, iz, t)) = (parents_in_iff (low + n) children ms m em).0 im in
            (z, iz, step (low + n) e (omega arith) ie t (rw q at c)),
        λ (z, i, c). elim (Chain-cases c) [
          | inl (q, _) ↦ absurd (omega arith)
          | inr (j, e, q, ie, t, c') ↦
              let at_j : j ≡ low + n = omega arith in
              let ie' : In e (values (round_of dag (low + n))) = rw at_j at ie in
              let c'' : Chain dag low y (low + n) e.1 = rw at_j at c' in
              g (
                e.1,
                (parents_in_iff (low + n) children ms e.1 em).1 (e, ie', refl, (z, i, t)),
                c'',
              )
        ],
      )

  -- If `linked` returns, then it returns `true` exactly when a path leads from `x`, round by round and
  -- each time to a parent in the DAG, to a certificate of the round of `prev` that equals `prev` in id,
  -- round and origin. `x` is not of an earlier round than `prev`.
  pub linked_iff :
      (x prev : Certificate) (b : Bool)
      → cert_round prev ≤ cert_round x
      → linked x prev dag ≡ returned b
      → (b ≡ true) ↔ (
          (y : Certificate) × Chain dag (cert_round prev) y (cert_round x) x
          × (certificate_eq y prev ≡ true))
  unfolding linked
  linked_iff x prev b le h =
      let low = cert_round prev in
      let n = cert_round x - cert_round prev in
      let (ps, ep, k) = >>=-returned (walk dag low n (x ∷ [])) _ h in
      let e : any (λ y. certificate_eq y prev) ps ≡ b = returned-injective k in
      let top : low + n ≡ cert_round x = omega arith in
      (
        λ t.
            let (y, i, q) = any-In (λ y. certificate_eq y prev) ps (e ∙ t) in
            let (z, iz, c) = (walk_iff low n (x ∷ []) ps y ep).0 i in
            elim (In-cons iz) [ inl s ↦ (y, rw s at (rw top at c), q) | inr j ↦ elim j [ ] ],
        λ (y, c, q).
            let c' : Chain dag low y (low + n) x = rw top c in
            sym e
            ∙ In-any (λ y. certificate_eq y prev) ps
                ((walk_iff low n (x ∷ []) ps y ep).1 (x, here refl, c')) q,
      )
