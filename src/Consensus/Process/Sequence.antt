-- ===== src/Consensus/Process/Sequence.antt =====
-- consensus/src/lib.rs, `run`: the sequence that the loop commits, over all the certificates that it
-- receives.
use tusk_ubuntu.Prelude.{
  ◌+◌, ◌≤◌, ◌<◌, ◌≡◌, ◌∙◌, ap, sym, refl, inl, inr, Bool, Option, none, some, List, [], ◌∷◌, ◌++◌,
  max, arith, ◌==◌, Bool-cases, &&_parts, ==→eq, u64_mod,
}
use mathlib.Core.List.{map-append}
use tusk_ubuntu.Prelude.Map
use tusk_ubuntu.Prelude.Outcome.{returned, returned-injective, >>=-returned}
use tusk_ubuntu.Config.{PublicKey}
use tusk_ubuntu.Crypto.{Primitives}
use tusk_ubuntu.Messages.{Round, Certificate, cert_round, cert_origin}
use tusk_ubuntu.Consensus.{State, Setup, commit_round}
use tusk_ubuntu.Consensus.WellFormed.{WellFormed}
use tusk_ubuntu.Consensus.Flatten.Once.{is_at, times}
use tusk_ubuntu.Consensus.Flatten.Fresh.{Committed, Fresh, above, get-commit_round}
use tusk_ubuntu.Consensus.Process.{process, run}
use tusk_ubuntu.Consensus.Process.Once.{
  commit_all, certificates, Fresh-append, commit_all-append, IsOnTime, process-Commits,
}

-- Nothing of a round that is not above the one committed for the author is fresh.
Fresh-none :
    (committed : Committed) (ys : List Certificate) (r last : Round) (n : PublicKey)
    → Fresh committed ys
    → Map.get n committed ≡ some last
    → r ≤ last
    → times r n ys ≡ 0
unfolding times
Fresh-none committed [] r last n f g l = refl
Fresh-none committed (y ∷ ys) r last n f g l =
    let next = commit_round (cert_origin y) (cert_round y) committed in
    let now = get-commit_round (cert_origin y) n (cert_round y) committed in
    elim (Bool-cases (cert_origin y == n)) [
      | inl q ↦
          let e = ==→eq (cert_origin y) n q in
          let g' = ap (λ k. Map.get k committed) e ∙ g in
          let live = f.0 last g' in
          let top : Map.get n next ≡ some (max last (cert_round y)) =
            (rw q at now) ∙ ap (λ o. some (above (cert_round y) o)) g' in
          let rest = Fresh-none next ys r (max last (cert_round y)) n f.1 top (omega (arith, l)) in
          ground (arith, rest, live, l)
      | inr q ↦
          let rest = Fresh-none next ys r last n f.1 ((rw q at now) ∙ g) l in
          ground (arith, rest, q)
    ]

Fresh-once :
    (committed : Committed) (ys : List Certificate) (r : Round) (n : PublicKey)
    → Fresh committed ys
    → times r n ys ≤ 1
unfolding times
Fresh-once committed [] r n f = omega arith
Fresh-once committed (y ∷ ys) r n f =
    let next = commit_round (cert_origin y) (cert_round y) committed in
    let now = get-commit_round (cert_origin y) n (cert_round y) committed in
    elim (Bool-cases (is_at r n y)) [
      | inl q ↦
          let (a, b) = &&_parts (cert_round y == r) (cert_origin y == n) q in
          let i = ==→eq (cert_round y) r a in
          let top = rw b at now in
          let high = at_least (cert_round y) (Map.get (cert_origin y) committed) in
          let none_left =
            Fresh-none next ys r (above (cert_round y) (Map.get (cert_origin y) committed)) n f.1
              top (omega (arith, i, high)) in
          rw q (omega (arith, none_left))
      | inr q ↦ rw q (omega (arith, Fresh-once next ys r n f.1))
    ]
  where
    at_least : (round : Round) (o : Option Round) → round ≤ above round o
    at_least round none = omega arith
    at_least round (some r) = omega arith

module _ (p : Primitives) (setup : Setup) where
  -- Each certificate arrives with a round that is not below what is committed for its author by then, and
  -- that is not the last `u64`.
  abbrev pub AreOnTime : List Certificate → State → Type 0
  AreOnTime [] s = Unit
  AreOnTime (x ∷ xs) s =
      (cert_round x + 1 < u64_mod)
      × IsOnTime s x
      × ((out : State × List (Certificate × Bool))
          → process p setup s x ≡ returned out
          → AreOnTime xs out.0)

  run-Fresh :
      (xs : List Certificate) (s t : State) (before : List (Certificate × Bool))
      (out : State × List (Certificate × Bool))
      → WellFormed t
      → t.last_committed ≡ commit_all s.last_committed (certificates before)
      → Fresh s.last_committed (certificates before)
      → AreOnTime xs t
      → run p setup xs t before ≡ returned out
      → WellFormed out.0 × Fresh s.last_committed (certificates out.1)
  unfolding run
  run-Fresh [] s t before out w c f o h = rw (← returned-injective h) (w, f)
  run-Fresh (x ∷ xs) s t before out w c f o h =
      let (mid, m, k) = >>=-returned (process p setup t x) _ h in
      let step = process-Commits p setup t x mid w o.0 o.1 m in
      let both : certificates (before ++ mid.1) ≡ certificates before ++ step.added =
        map-append _ before mid.1 ∙ ap (λ l. certificates before ++ l) step.sequence in
      run-Fresh xs s mid.0 (before ++ mid.1) out step.well_formed
        (step.committed
          ∙ ap (λ m. commit_all m step.added) c
          ∙ sym (commit_all-append s.last_committed (certificates before) step.added)
          ∙ ap (commit_all s.last_committed) (sym both))
        (rw both
          (Fresh-append s.last_committed (certificates before) step.added f (rw (← c) step.fresh)))
        (o.2 mid m) k

  -- If the state is well-formed, and each certificate arrives with a round that is not below what is
  -- committed for its author by then, and if the loop returns, then no two certificates of one round
  -- and author are committed, none is of a round that was committed before for its author, and the state
  -- stays well-formed.
  pub run-once :
      (xs : List Certificate) (s : State) (out : State × List (Certificate × Bool))
      → WellFormed s
      → AreOnTime xs s
      → run p setup xs s [] ≡ returned out
      → WellFormed out.0
        × ((r : Round) (n : PublicKey) → times r n (certificates out.1) ≤ 1)
        × ((r last : Round) (n : PublicKey)
            → Map.get n s.last_committed ≡ some last
            → r ≤ last
            → times r n (certificates out.1) ≡ 0)
  run-once xs s out w o h =
      let (w', f) = run-Fresh xs s s [] out w refl tt o h in
      (
        w',
        λ r n. Fresh-once s.last_committed (certificates out.1) r n f,
        λ r last n g l. Fresh-none s.last_committed (certificates out.1) r last n f g l,
      )
