-- ===== src/Consensus/Process/Leader.antt =====
-- consensus/src/lib.rs, `run`: a leader with enough support is committed.
use mathlib.Core.List.{reverse, reverse-cons, append-nil, append_assoc}
use tusk_ubuntu.Prelude.{
  ◌+◌, ◌≤◌, ◌<◌, ◌≡◌, ◌∙◌, ◌%◌, sym, refl, inl, inr, Bool, true, false, not, ◌||◌, some, List, [],
  ◌∷◌, ◌++◌, In, here, In-cons, In-append_left, In-append_right, In-filter, In-sort_by, arith, leb,
  ltb, Bool-cases, Option-cases, u64_sub, u64_add, ◌-◌, ◌≢◌, ◌==◌, u64_mod,
}
use tusk_ubuntu.Prelude.Map
use tusk_ubuntu.Prelude.Outcome.{
  Outcome, returned, panicked, returned-injective, >>=-returned, expect, expect-returned,
}
use tusk_ubuntu.Config.{PublicKey, Committee, size, validity_threshold}
use tusk_ubuntu.Crypto.{Primitives}
use tusk_ubuntu.Messages.{Round, Certificate, cert_round, cert_origin, cert_digest}
use tusk_ubuntu.Consensus.{Entry, Dag, State, Setup}
use tusk_ubuntu.Consensus.Cleanup.{max_round-get}
use tusk_ubuntu.Consensus.WellFormed.{WellFormed, insert-WellFormed}
use tusk_ubuntu.Consensus.Leaders.{
  elected, leader, linked, past_leaders, order_leaders, rounds_down,
}
use tusk_ubuntu.Consensus.Leaders.Rounds.{Rise, leader-round, order_leaders-Rise}
use tusk_ubuntu.Consensus.Flatten.{flatten_loop, dag_size, by_round, finish, order_dag}
use tusk_ubuntu.Consensus.Flatten.Search.{flatten_loop-Inv, start-Inv}
use tusk_ubuntu.Consensus.Flatten.Fresh.{order_dag-Fresh}
use tusk_ubuntu.Consensus.Process.{
  add_certificate, commit_ordered, commit_leaders, support, try_commit, process,
}
use tusk_ubuntu.Consensus.Process.Commits.{Elects, HasSupport, grown}
use tusk_ubuntu.Consensus.Process.Returns.{
  Returns, >>=-Returns, IsFull, order_leaders-Returns, commit_leaders-Returns,
}
use tusk_ubuntu.Consensus.Process.Once.{
  certificates, IsOnTime, Rise-lower, commit_ordered-lem, commit_leaders-Commits,
}

-- The leaders to commit begin with those given.
past_leaders-first :
    (c : Committee) (dag : Dag) (rs : List Round) (current : Certificate)
    (xs out : List Certificate)
    → past_leaders c dag rs current xs ≡ returned out
    → (rest : List Certificate) × (out ≡ xs ++ rest)
unfolding past_leaders
past_leaders-first c dag [] current xs out h =
    ([], sym (returned-injective h) ∙ sym (append-nil xs))
past_leaders-first c dag (r ∷ rs) current xs out h =
    let (found, _, k) = >>=-returned (leader c r dag) _ h in
    elim (Option-cases found) [
      | inl n ↦ past_leaders-first c dag rs current xs out (rw n at k)
      | inr ((d, prev), n) ↦
          let (path, _, m) = >>=-returned (linked current prev dag) _ (rw n at k) in
          elim (Bool-cases path) [
            | inl t ↦
                let (rest, e) =
                  past_leaders-first c dag rs prev (xs ++ prev ∷ []) out (rw t at m) in
                (prev ∷ rest, e ∙ append_assoc xs (prev ∷ []) rest)
            | inr t ↦ past_leaders-first c dag rs current xs out (rw t at m)
          ]
    ]

order_leaders-In :
    (c : Committee) (x : Certificate) (s : State) (out : List Certificate)
    → order_leaders c x s ≡ returned out
    → In x (reverse out)
unfolding order_leaders
order_leaders-In c x s out h =
    let rounds = rounds_down (u64_add s.last_committed_round 2) (u64_sub (cert_round x) 2) in
    let (rest, e) = past_leaders-first c s.dag rounds x (x ∷ []) out h in
    rw (e, reverse-cons x rest) (In-append_right (reverse rest) (x ∷ []) (here refl))

-- A leader that is not too old is in what it orders.
order_dag-In :
    (gc_depth : Round) (x : Certificate) (s : State) (ys : List Certificate)
    → s.last_committed_round ≤ cert_round x
    → cert_round x + gc_depth < u64_mod
    → order_dag gc_depth x s ≡ returned ys
    → In x ys
unfolding order_dag finish
order_dag-In gc_depth x s ys l b h =
    let (found, eo, k) = >>=-returned (flatten_loop (dag_size s.dag + 2) s (x ∷ [], []) []) _ h in
    let e : finish gc_depth s found ≡ ys = returned-injective k in
    let (seen, v) =
      flatten_loop-Inv s x (dag_size s.dag + 2) (x ∷ []) [] [] found (start-Inv s x) eo in
    let recent =
      λ (y : Certificate). leb s.last_committed_round (u64_add (cert_round y) gc_depth) in
    let held : In x found = elim v.holds.start [ inl i ↦ elim i [ ] | inr i ↦ i ] in
    rw (← e) (In-sort_by by_round _ (In-filter recent found held (ground (arith, l, b))))

module _ (p : Primitives) (setup : Setup) where
  commit_leaders-In :
      (xs : List Certificate) (x : Certificate) (s : State) (before : List (Certificate × Bool))
      (out : State × List (Certificate × Bool))
      → WellFormed s
      → Rise s.last_committed_round xs
      → cert_round x + setup.gc_depth < u64_mod
      → In x xs
      → commit_leaders p setup xs s before ≡ returned out
      → In x (certificates out.1)
  unfolding commit_leaders
  commit_leaders-In [] x s before out w r b i h = elim i [ ]
  commit_leaders-In (y ∷ ys) x s before out w r b i h =
      let (ordered, o, k) = >>=-returned (order_dag setup.gc_depth y s) _ h in
      let (mid, m, k') = >>=-returned (commit_ordered p setup ordered s before) _ k in
      let live = λ (last : Round) (g : Map.get (cert_origin y) s.last_committed ≡ some last).
        max_round-get (cert_origin y) last s.last_committed g in
      let (fresh, low) =
        order_dag-Fresh setup.gc_depth y s ordered w r.1
          (λ last g. omega (arith, live last g, w.sound, r.0)) o in
      let (w', e, c, l) =
        commit_ordered-lem p setup ordered s before mid (cert_round y) w (omega (arith, r.0)) low
          m in
      let rise = Rise-lower mid.0.last_committed_round (cert_round y) ys l r.2 in
      elim (In-cons i) [
        | inr j ↦ commit_leaders-In ys x mid.0 mid.1 out w' rise b j k'
        | inl q ↦
            let t = commit_leaders-Commits p setup ys mid.0 mid.1 out w' rise k' in
            let self : In y ordered =
              order_dag-In setup.gc_depth y s ordered (omega (arith, r.0)) (rw q at b) o in
            let kept : In y (certificates mid.1) =
              rw e (In-append_right (certificates before) ordered self) in
            rw (q, t.sequence) (In-append_left (certificates mid.1) t.added kept)
      ]

  try_commit-In :
      (r : Round) (e : Entry) (s : State) (out : State × List (Certificate × Bool))
      → WellFormed s
      → s.last_committed_round < cert_round e.1
      → cert_round e.1 + 1 < u64_mod
      → 2 ≤ cert_round e.1
      → cert_round e.1 + setup.gc_depth < u64_mod
      → HasSupport p setup r e s
      → try_commit p setup r e s ≡ returned out
      → In e.1 (certificates out.1)
  unfolding try_commit
  try_commit-In r e s out w l b two deep v h =
      let (authorities, g, found) = >>=-returned (expect (Map.get (u64_sub r 1) s.dag)) _ h in
      let same : v.authorities ≡ authorities =
        some-injective (sym v.known ∙ expect-returned (Map.get (u64_sub r 1) s.dag) g) in
      let enough : ltb (support setup.committee e.0 authorities)
            (validity_threshold setup.committee)
          ≡ false =
        rw (← same) (ground (arith, v.enough)) in
      let (leaders, o, k) =
        >>=-returned (order_leaders setup.committee e.1 s) _ (rw enough at found) in
      commit_leaders-In (reverse leaders) e.1 s [] out w
        (order_leaders-Rise setup.committee e.1 s leaders w l b two o) deep
        (order_leaders-In setup.committee e.1 s leaders o) k
    where
      some-injective : {a b : List (PublicKey × Entry)} → some a ≡ some b → a ≡ b
      some-injective h = cc

  process-try_commit :
      (s : State) (x : Certificate) (c : Elects p setup s x)
      → process p setup s x ≡ try_commit p setup (u64_sub (cert_round x) 1) c.entry (grown p s x)
  unfolding process
  process-try_commit s x c =
      let r = u64_sub (cert_round x) 1 in
      let even : (not (r % 2 == 0) || ltb r 4) ≡ false = ground (arith, c.even, c.late) in
      let ahead : leb (u64_sub r 2) s.last_committed_round ≡ false = ground (arith, c.ahead) in
      rw (even, ahead, c.allowed, c.elected) refl

  try_commit-Returns :
      (r : Round) (e : Entry) (s : State)
      → WellFormed s
      → s.last_committed_round < cert_round e.1
      → cert_round e.1 + 1 < u64_mod
      → 2 ≤ cert_round e.1
      → size setup.committee ≢ 0
      → IsFull s.dag (s.last_committed_round + 2) (cert_round e.1)
      → HasSupport p setup r e s
      → Returns (try_commit p setup r e s)
  unfolding try_commit
  try_commit-Returns r e s w l b two n full v =
      let enough : ltb (support setup.committee e.0 v.authorities)
            (validity_threshold setup.committee)
          ≡ false =
        ground (arith, v.enough) in
      let leaders = order_leaders-Returns setup.committee n e.1 s w l b two full in
      let (out, h) =
        >>=-Returns (order_leaders setup.committee e.1 s)
          (λ leaders. commit_leaders p setup (reverse leaders) s []) leaders
          λ leaders _. commit_leaders-Returns p setup n (reverse leaders) s [] in
      (out, rw (try_commit, v.known) (enough_support enough h))
    where
      enough_support :
          {b : Bool} {m : Outcome (State × List (Certificate × Bool))}
          {out : State × List (Certificate × Bool)}
          → b ≡ false
          → m ≡ returned out
          → (elim b as (λ _. Outcome (State × List (Certificate × Bool))) [
            | true ↦ returned (s, [])
            | false ↦ m
          ])
            ≡ returned out
      enough_support q h = rw q h

  elected-size :
      (r : Round) {n : PublicKey}
      → elected setup.committee r ≡ returned n
      → size setup.committee ≢ 0
  unfolding elected
  elected-size r h z = panicked-returned (rw z at h)
    where
      panicked-returned : {n : PublicKey} → panicked ≡ returned n → ⊥
      panicked-returned e = cc

  -- If the state is well-formed, the certificate arrives with a round that is not below what is committed
  -- for its author, its round and the garbage collection depth do not reach the end of `u64`, a leader is
  -- elected for it, that leader has enough support, and the DAG has the rounds from two above the last
  -- committed one to the leader's, then `process` returns, and the leader's certificate is in the
  -- sequence that it commits.
  pub process_commits :
      (s : State) (x : Certificate)
      → WellFormed s
      → cert_round x + 1 + setup.gc_depth < u64_mod
      → IsOnTime s x
      → (c : Elects p setup s x)
      → HasSupport p setup (u64_sub (cert_round x) 1) c.entry (grown p s x)
      → IsFull (grown p s x).dag (s.last_committed_round + 2) (cert_round x - 3)
      → (out : State × List (Certificate × Bool)) × (process p setup s x ≡ returned out)
        × In c.entry.1 (certificates out.1)
  unfolding add_certificate leader
  process_commits s x w b late c v full =
      let w' : WellFormed (grown p s x) =
        insert-WellFormed s (cert_digest p x) x w (omega (arith, b)) late in
      let r = u64_sub (cert_round x) 1 in
      let (name, named, _) = >>=-returned (elected setup.committee (u64_sub r 2)) _ c.elected in
      let (q, u) = leader-round setup.committee (u64_sub r 2) (grown p s x) c.entry w' c.elected in
      let ahead : s.last_committed_round < cert_round c.entry.1 = omega (arith, q, c.ahead) in
      let low : cert_round c.entry.1 + 1 < u64_mod = omega (arith, q, u) in
      let two : 2 ≤ cert_round c.entry.1 = omega (arith, q, c.late) in
      let (out, h) =
        try_commit-Returns r c.entry (grown p s x) w' ahead low two
          (elected-size (u64_sub r 2) named) (λ k a t. full k a (omega (arith, t, q, c.late, b)))
          v in
      (
        out,
        process-try_commit s x c ∙ h,
        try_commit-In r c.entry (grown p s x) out w' ahead low two (omega (arith, q, b, c.late)) v
            h,
      )
