-- ===== src/Consensus/Process/Once.antt =====
-- consensus/src/lib.rs, `run`: no round of an author is committed twice.
use tusk_ubuntu.Prelude.{
  ◌+◌, ◌≤◌, ◌<◌, ◌≡◌, ◌∙◌, ap, sym, refl, inl, inr, Bool, some, List, [], ◌∷◌, ◌++◌, map, All,
  arith, ltb, Bool-cases, u64_sub, u64_mod,
}
use mathlib.Core.List.{append-nil, append_assoc, map-append, reverse}
use tusk_ubuntu.Prelude.Map
use tusk_ubuntu.Prelude.Outcome.{returned, returned-injective, >>=-returned, expect}
use tusk_ubuntu.Config.{validity_threshold}
use tusk_ubuntu.Crypto.{Primitives}
use tusk_ubuntu.Messages.{Round, Certificate, cert_round, cert_origin, cert_digest}
use tusk_ubuntu.Consensus.{Entry, State, Setup, commit_round, update}
use tusk_ubuntu.Consensus.Cleanup.{update-last, max_round-get}
use tusk_ubuntu.Consensus.WellFormed.{WellFormed, update-WellFormed, insert-WellFormed}
use tusk_ubuntu.Consensus.Leaders.{order_leaders}
use tusk_ubuntu.Consensus.Leaders.Rounds.{Rise, leader-round, order_leaders-Rise}
use tusk_ubuntu.Consensus.Flatten.{order_dag}
use tusk_ubuntu.Consensus.Flatten.Fresh.{Committed, Fresh, order_dag-Fresh}
use tusk_ubuntu.Consensus.Process.{
  add_certificate, is_leader, commit_ordered, commit_leaders, support, try_commit, process,
}
use tusk_ubuntu.Consensus.Process.Commits.{grown, process-cases}

-- The rounds that are committed for the authors, once the certificates are.
abbrev pub commit_all : Committed → List Certificate → Committed
commit_all committed [] = committed
commit_all committed (y ∷ ys) =
    commit_all (commit_round (cert_origin y) (cert_round y) committed) ys

abbrev pub certificates : List (Certificate × Bool) → List Certificate
certificates sequence = map (λ e. e.0) sequence

pub Fresh-append :
    (committed : Committed) (xs ys : List Certificate)
    → Fresh committed xs
    → Fresh (commit_all committed xs) ys
    → Fresh committed (xs ++ ys)
Fresh-append committed [] ys f g = g
Fresh-append committed (x ∷ xs) ys f g =
    (f.0, Fresh-append (commit_round (cert_origin x) (cert_round x) committed) xs ys f.1 g)

pub commit_all-append :
    (committed : Committed) (xs ys : List Certificate)
    → commit_all committed (xs ++ ys) ≡ commit_all (commit_all committed xs) ys
commit_all-append committed [] ys = refl
commit_all-append committed (x ∷ xs) ys =
    commit_all-append (commit_round (cert_origin x) (cert_round x) committed) xs ys

pub Rise-lower :
    (low high : Round) (xs : List Certificate) → low ≤ high → Rise high xs → Rise low xs
Rise-lower low high [] l r = tt
Rise-lower low high (x ∷ xs) l r = (omega (arith, l, r.0), r.1, r.2)

-- What the commit of some certificates leaves: they are fresh, and those of the state.
pub record Commits (s : State) (before : List (Certificate × Bool))
    (out : State × List (Certificate × Bool)) : Type 0 where
  pub added : List Certificate
  pub sequence : certificates out.1 ≡ certificates before ++ added
  pub fresh : Fresh s.last_committed added
  pub committed : out.0.last_committed ≡ commit_all s.last_committed added
  pub well_formed : WellFormed out.0

-- A certificate is not below what is committed for its author.
abbrev pub IsOnTime : State → Certificate → Type 0
IsOnTime s x =
    (last : Round) → Map.get (cert_origin x) s.last_committed ≡ some last → last ≤ cert_round x

module _ (p : Primitives) (setup : Setup) where
  pub commit_ordered-lem :
      (xs : List Certificate) (s : State) (before : List (Certificate × Bool))
      (out : State × List (Certificate × Bool)) (high : Round)
      → WellFormed s
      → s.last_committed_round ≤ high
      → All (λ y. cert_round y ≤ high) xs
      → commit_ordered p setup xs s before ≡ returned out
      → WellFormed out.0
        × (certificates out.1 ≡ certificates before ++ xs)
        × (out.0.last_committed ≡ commit_all s.last_committed xs)
        × (out.0.last_committed_round ≤ high)
  unfolding commit_ordered update
  commit_ordered-lem [] s before out high w l a h =
      rw (← returned-injective h) (w, sym (append-nil (certificates before)), refl, l)
  commit_ordered-lem (x ∷ xs) s before out high w l a h =
      let (lead, _, k) = >>=-returned (is_leader p setup.committee x s.dag) _ h in
      let s' = update s x setup.gc_depth in
      let last = (update-last s x setup.gc_depth).0 in
      let (w', e, c, m) =
        commit_ordered-lem xs s' (before ++ (x, lead) ∷ []) out high
          (update-WellFormed s x setup.gc_depth w) (omega (arith, last, w.sound, l, a.0)) a.1 k in
      (
        w',
        e
            ∙ ap (λ l. l ++ xs) (map-append _ before ((x, lead) ∷ []))
            ∙ append_assoc (certificates before) (x ∷ []) xs,
        c,
        m,
      )

  nothing :
      (s : State) (out : State × List (Certificate × Bool))
      → WellFormed s
      → (s, []) ≡ out
      → Commits s [] out
  nothing s out w e =
      rw (← e)
        (record { added = []; sequence = refl; fresh = tt; committed = refl; well_formed = w })

  pub commit_leaders-Commits :
      (xs : List Certificate) (s : State) (before : List (Certificate × Bool))
      (out : State × List (Certificate × Bool))
      → WellFormed s
      → Rise s.last_committed_round xs
      → commit_leaders p setup xs s before ≡ returned out
      → Commits s before out
  unfolding commit_leaders
  commit_leaders-Commits [] s before out w r h = rw (← returned-injective h) (record {
    added = [];
    sequence = sym (append-nil (certificates before));
    fresh = tt;
    committed = refl;
    well_formed = w;
  })
  commit_leaders-Commits (x ∷ xs) s before out w r h =
      let (ordered, o, k) = >>=-returned (order_dag setup.gc_depth x s) _ h in
      let (mid, m, k') = >>=-returned (commit_ordered p setup ordered s before) _ k in
      let live = λ (last : Round) (g : Map.get (cert_origin x) s.last_committed ≡ some last).
        max_round-get (cert_origin x) last s.last_committed g in
      let (fresh, low) =
        order_dag-Fresh setup.gc_depth x s ordered w r.1
          (λ last g. omega (arith, live last g, w.sound, r.0)) o in
      let (w', e, c, l) =
        commit_ordered-lem ordered s before mid (cert_round x) w (omega (arith, r.0)) low m in
      let t =
        commit_leaders-Commits xs mid.0 mid.1 out w'
          (Rise-lower mid.0.last_committed_round (cert_round x) xs l r.2) k' in
      record {
        added = ordered ++ t.added;
        sequence =
            t.sequence
            ∙ ap (λ l. l ++ t.added) e
            ∙ append_assoc (certificates before) ordered t.added;
        fresh = Fresh-append s.last_committed ordered t.added fresh (rw (← c) t.fresh);
        committed =
            t.committed
            ∙ ap (λ m. commit_all m t.added) c
            ∙ sym (commit_all-append s.last_committed ordered t.added);
        well_formed = t.well_formed;
      }

  try_commit-Commits :
      (r : Round) (e : Entry) (s : State) (out : State × List (Certificate × Bool))
      → WellFormed s
      → s.last_committed_round < cert_round e.1
      → cert_round e.1 + 1 < u64_mod
      → 2 ≤ cert_round e.1
      → try_commit p setup r e s ≡ returned out
      → Commits s [] out
  unfolding try_commit
  try_commit-Commits r e s out w l b two h =
      let (authorities, g, k) = >>=-returned (expect (Map.get (u64_sub r 1) s.dag)) _ h in
      let few =
        ltb (support setup.committee e.0 authorities) (validity_threshold setup.committee) in
      elim (Bool-cases few) [
        | inl q ↦ nothing s out w (returned-injective (rw q at k))
        | inr q ↦
            let (leaders, o, k') =
              >>=-returned (order_leaders setup.committee e.1 s) _ (rw q at k) in
            commit_leaders-Commits (reverse leaders) s [] out w
              (order_leaders-Rise setup.committee e.1 s leaders w l b two o) k'
      ]

  grown-Commits :
      (s : State) (x : Certificate) (out : State × List (Certificate × Bool))
      → Commits (grown p s x) [] out
      → Commits s [] out
  grown-Commits s x out c = record {
    added = c.added;
    sequence = c.sequence;
    fresh = c.fresh;
    committed = c.committed;
    well_formed = c.well_formed;
  }

  grown_only :
      (s : State) (x : Certificate) (out : State × List (Certificate × Bool))
      → WellFormed (grown p s x)
      → (grown p s x, []) ≡ out
      → Commits s [] out
  grown_only s x out w e = grown-Commits s x out (nothing (grown p s x) out w e)

  pub process-Commits :
      (s : State) (x : Certificate) (out : State × List (Certificate × Bool))
      → WellFormed s
      → cert_round x + 1 < u64_mod
      → IsOnTime s x
      → process p setup s x ≡ returned out
      → Commits s [] out
  unfolding add_certificate
  process-Commits s x out w b late h =
      let w' : WellFormed (grown p s x) = insert-WellFormed s (cert_digest p x) x w b late in
      elim (process-cases p setup s x out h) [
        | inl e ↦ grown_only s x out w' e
        | inr (c, k) ↦
            let r = u64_sub (cert_round x) 1 in
            let (q, u) =
              leader-round setup.committee (u64_sub r 2) (grown p s x) c.entry w' c.elected in
            grown-Commits s x out (
              try_commit-Commits r c.entry (grown p s x) out w' (omega (arith, q, c.ahead))
                (omega (arith, q, u)) (omega (arith, q, c.late)) k)
      ]
