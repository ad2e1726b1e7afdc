-- ===== src/Consensus/Process/Commits.antt =====
-- consensus/src/lib.rs, `run`: when a certificate commits anything, and how far the commit reaches.
use tusk_ubuntu.Prelude.{
  ◌%◌, ◌≤◌, ◌<◌, ◌≡◌, ◌≢◌, ◌⊎◌, ◌∙◌, ap, sym, inl, inr, Bool, true, not, ◌||◌, max, Option, some,
  List, [], ◌∷◌, ◌++◌, map, arith, leb, ltb, ◌==◌, Bool-cases, u64_sub, Option-cases,
}
use mathlib.Core.List.{reverse}
use tusk_ubuntu.Prelude.Map
use tusk_ubuntu.Prelude.Outcome.{
  returned, returned-injective, >>=-returned, expect, expect-returned,
}
use tusk_ubuntu.Config.{PublicKey, Authority, validity_threshold}
use tusk_ubuntu.Crypto.{Primitives}
use tusk_ubuntu.Messages.{Round, Certificate, cert_round}
use tusk_ubuntu.Adversary.{direct_commit_selected}
use tusk_ubuntu.Consensus.{Entry, State, Setup, max_round, update}
use tusk_ubuntu.Consensus.Cleanup.{update-last}
use tusk_ubuntu.Consensus.Leaders.{leader, order_leaders}
use tusk_ubuntu.Consensus.Flatten.{order_dag}
use tusk_ubuntu.Consensus.Process.{
  add_certificate, is_leader, commit_ordered, commit_leaders, support, try_commit, process,
}

-- The highest round of a committed sequence.
pub sequence_round : List (Certificate × Bool) → Round
sequence_round [] = 0
sequence_round ((x, _) ∷ rest) = max (cert_round x) (sequence_round rest)

sequence_round-snoc :
    (xs : List (Certificate × Bool)) (x : Certificate) (b : Bool)
    → sequence_round (xs ++ (x, b) ∷ []) ≡ max (sequence_round xs) (cert_round x)
unfolding sequence_round
sequence_round-snoc [] x b = omega arith
sequence_round-snoc ((y, c) ∷ xs) x b = omega (arith, sequence_round-snoc xs x b)

-- The last committed round is the highest of the rounds committed for the authors.
abbrev pub IsSound : State → Type 0
IsSound s = s.last_committed_round ≡ max_round s.last_committed

-- Since a start at round `from`, the last committed round went up to that of the sequence.
record Advanced (from : Round) (r : State × List (Certificate × Bool)) : Type 0 where
  sound : IsSound r.0
  last : r.0.last_committed_round ≡ max from (sequence_round r.1)

module _ (p : Primitives) (setup : Setup) (from : Round) where
  commit_ordered-Advanced :
      (xs : List Certificate) (s : State) (sequence : List (Certificate × Bool))
      (r : State × List (Certificate × Bool))
      → Advanced from (s, sequence)
      → commit_ordered p setup xs s sequence ≡ returned r
      → Advanced from r
  unfolding commit_ordered
  commit_ordered-Advanced [] s sequence r a h =
      let e : (s, sequence) ≡ r = returned-injective h in rw e at a
  commit_ordered-Advanced (x ∷ xs) s sequence r a h =
      let (lead, _, k) = >>=-returned (is_leader p setup.committee x s.dag) _ h in
      let s' = update s x setup.gc_depth in
      let u = update-last s x setup.gc_depth in
      commit_ordered-Advanced xs s' (sequence ++ (x, lead) ∷ []) r
        (record {
          sound = u.1;
          last = omega (arith, u.0, a.sound, a.last, sequence_round-snoc sequence x lead);
        })
        k

  commit_leaders-Advanced :
      (xs : List Certificate) (s : State) (sequence : List (Certificate × Bool))
      (r : State × List (Certificate × Bool))
      → Advanced from (s, sequence)
      → commit_leaders p setup xs s sequence ≡ returned r
      → Advanced from r
  unfolding commit_leaders
  commit_leaders-Advanced [] s sequence r a h =
      let e : (s, sequence) ≡ r = returned-injective h in rw e at a
  commit_leaders-Advanced (x ∷ xs) s sequence r a h =
      let (ordered, _, k) = >>=-returned (order_dag setup.gc_depth x s) _ h in
      let (mid, e, k') = >>=-returned (commit_ordered p setup ordered s sequence) _ k in
      commit_leaders-Advanced xs mid.0 mid.1 r (commit_ordered-Advanced ordered s sequence mid a e)
        k'

-- The support that the code asks for before it commits the leader `e` of two rounds before `r`.
pub record HasSupport (p : Primitives) (setup : Setup) (r : Round) (e : Entry) (s : State)
    : Type 0 where
  pub authorities : List (PublicKey × Entry)
  pub known : Map.get (u64_sub r 1) s.dag ≡ some authorities
  pub enough : validity_threshold setup.committee ≤ support setup.committee e.0 authorities

module _ (p : Primitives) (setup : Setup) where
  try_commit-Advanced :
      (r : Round) (e : Entry) (s : State) (out : State × List (Certificate × Bool))
      → IsSound s
      → try_commit p setup r e s ≡ returned out
      → Advanced s.last_committed_round out
  unfolding try_commit sequence_round
  try_commit-Advanced r e s out sound h =
      let (authorities, g, k) = >>=-returned (expect (Map.get (u64_sub r 1) s.dag)) _ h in
      let few =
        ltb (support setup.committee e.0 authorities) (validity_threshold setup.committee) in
      let start : Advanced s.last_committed_round (s, []) = record {
        sound = sound;
        last = omega arith;
      } in
      elim (Bool-cases few) [
        | inl q ↦ let same : (s, []) ≡ out = returned-injective (rw q at k) in rw same at start
        | inr q ↦
            let (leaders, _, k') =
              >>=-returned (order_leaders setup.committee e.1 s) _ (rw q at k) in
            commit_leaders-Advanced p setup s.last_committed_round (reverse leaders) s [] out start
              k'
      ]

  try_commit-HasSupport :
      (r : Round) (e : Entry) (s : State) (out : State × List (Certificate × Bool))
      → try_commit p setup r e s ≡ returned out
      → out.1 ≢ []
      → HasSupport p setup r e s
  unfolding try_commit
  try_commit-HasSupport r e s out h ne =
      let (authorities, g, k) = >>=-returned (expect (Map.get (u64_sub r 1) s.dag)) _ h in
      let few =
        ltb (support setup.committee e.0 authorities) (validity_threshold setup.committee) in
      elim (Bool-cases few) [
        | inl q ↦
            let same : (s, []) ≡ out = returned-injective (rw q at k) in
            absurd (ne (ap (λ (o : State × List (Certificate × Bool)). o.1) (sym same)))
        | inr q ↦ record {
          authorities = authorities;
          known = expect-returned (Map.get (u64_sub r 1) s.dag) g;
          enough = ground (arith, q);
        }
      ]

-- The conditions under which the code tries to commit, and the leader that it then has.
pub record Elects (p : Primitives) (setup : Setup) (s : State) (x : Certificate) : Type 0 where
  pub even : u64_sub (cert_round x) 1 % 2 ≡ 0
  pub late : 4 ≤ u64_sub (cert_round x) 1
  pub ahead : s.last_committed_round < u64_sub (u64_sub (cert_round x) 1) 2
  pub allowed :
      direct_commit_selected p
        (map (λ e. e.0) setup.committee.authorities)
        (u64_sub (u64_sub (cert_round x) 1) 2)
        setup.faults
        setup.seed
      ≡ true
  pub entry : Entry
  pub elected :
      leader setup.committee (u64_sub (u64_sub (cert_round x) 1) 2) (add_certificate p x s.dag)
      ≡ returned (some entry)

-- The state after the certificate entered the DAG.
abbrev pub grown : Primitives → State → Certificate → State
grown p s x = record s { dag = add_certificate p x s.dag }

module _ (p : Primitives) (setup : Setup) (s : State) (x : Certificate)
    (out : State × List (Certificate × Bool)) where
  pub process-cases :
      process p setup s x ≡ returned out
      → ((grown p s x, []) ≡ out)
        ⊎ ((c : Elects p setup s x) × (try_commit p setup
                (u64_sub (cert_round x) 1)
                c.entry
                (grown p s x)
              ≡ returned out))
  unfolding process
  process-cases h =
      let r = u64_sub (cert_round x) 1 in
      let names = map (λ (e : PublicKey × Authority). e.0) setup.committee.authorities in
      elim (Bool-cases (not (r % 2 == 0) || ltb r 4)) [
        | inl q ↦ inl (returned-injective (rw q at h))
        | inr q ↦ elim (Bool-cases (leb (u64_sub r 2) s.last_committed_round)) [
          | inl t ↦ inl (returned-injective (rw (q, t) at h))
          | inr t ↦
              elim (Bool-cases
                (direct_commit_selected p names (u64_sub r 2) setup.faults setup.seed)) [
                  | inr u ↦ inl (returned-injective (rw (q, t, u) at h))
                  | inl u ↦
                      let (found, g, k) =
                        >>=-returned
                          (leader setup.committee (u64_sub r 2) (add_certificate p x s.dag)) _
                          (rw (q, t, u) at h) in
                      elim (Option-cases found) [
                        | inl n ↦ inl (returned-injective (rw n at k))
                        | inr (e, n) ↦ inr (
                          record {
                            even = ground (arith, q);
                            late = ground (arith, q);
                            ahead = ground (arith, t);
                            allowed = u;
                            entry = e;
                            elected = g ∙ ap (λ (o : Option Entry). returned o) n;
                          },
                          rw n at k,
                        )
                      ]
                ]
        ]
      ]

  -- If the last committed round of the state is the highest committed for its authors, and `process`
  -- returns for a certificate, then this still holds, and the last committed round is now the larger of
  -- what it was and the highest round of the committed sequence.
  pub process-last :
      IsSound s
      → process p setup s x ≡ returned out
      → IsSound out.0
        × (out.0.last_committed_round ≡ max s.last_committed_round (sequence_round out.1))
  unfolding sequence_round
  process-last sound h = elim (process-cases h) [
    | inl e ↦ rw (← e) (sound, omega arith)
    | inr (c, k) ↦
        let a =
          try_commit-Advanced p setup (u64_sub (cert_round x) 1) c.entry (grown p s x) out sound
            k in
        (a.sound, a.last)
  ]

  -- If `process` returns and commits anything, then the round before that of the certificate is even and
  -- at least 4, the round of the leader, two below it, is above the last committed round and selected
  -- for a direct commit, that leader is in the DAG, the DAG has the round between, and the certificates
  -- of that round which name the leader as a parent weigh at least `validity_threshold`.
  pub process_justified :
      process p setup s x ≡ returned out
      → out.1 ≢ []
      → (c : Elects p setup s x) × HasSupport p setup
          (u64_sub (cert_round x) 1)
          c.entry
          (grown p s x)
  process_justified h ne = elim (process-cases h) [
    | inl e ↦ absurd (ne (ap (λ (o : State × List (Certificate × Bool)). o.1) (sym e)))
    | inr (c, k) ↦
        (c, try_commit-HasSupport p setup (u64_sub (cert_round x) 1) c.entry (grown p s x) out k ne)
  ]
