-- ===== src/Consensus/Flatten/Once.antt =====
-- consensus/src/lib.rs, `order_dag`: in a well-formed state the search orders no two certificates of one
-- round and author, and for each author only rounds above the one committed.
use tusk_ubuntu.Prelude.{
  ℕ, zero, suc, ◌+◌, ◌≤◌, ◌<◌, ◌≡◌, ◌≢◌, ◌⊎◌, ◌∙◌, ap, sym, inl, inr, Bool, true, false, ◌&&◌, some,
  List, [], ◌∷◌, ◌++◌, All, All-append, find-In, arith, ◌==◌, if◌then◌else◌, Bool-cases,
  Option-cases, &&_parts, ==→eq, u64_sub, u64_mod,
}
use tusk_ubuntu.Prelude.Map
use tusk_ubuntu.Prelude.Set
use tusk_ubuntu.Prelude.Outcome.{returned, returned-injective}
use tusk_ubuntu.Config.{PublicKey}
use tusk_ubuntu.Crypto.{Digest}
use tusk_ubuntu.Messages.{Round, Certificate, cert_round, cert_origin}
use tusk_ubuntu.Consensus.{Entry, State, values, round_of}
use tusk_ubuntu.Consensus.Cleanup.{entry_of}
use tusk_ubuntu.Consensus.WellFormed.{WellFormed, values-entry}
use tusk_ubuntu.Consensus.Flatten.{find_parent, skips, push_parent, push_parents, flatten_loop}

-- The certificate is of the round and the author.
abbrev pub is_at : Round → PublicKey → Certificate → Bool
is_at r n y = cert_round y == r && cert_origin y == n

-- How many certificates are of the round and the author.
unfoldable pub times : Round → PublicKey → List Certificate → ℕ
times r n [] = 0
times r n (y ∷ ys) = (if is_at r n y then 1 else 0) + times r n ys

-- The round is above the one that is committed for the author.
abbrev pub IsLive : List (PublicKey × Round) → Certificate → Type 0
IsLive committed y =
    (last : Round) → Map.get (cert_origin y) committed ≡ some last → last < cert_round y

times-append :
    (r : Round) (n : PublicKey) (xs ys : List Certificate)
    → times r n (xs ++ ys) ≡ times r n xs + times r n ys
unfolding times
times-append r n [] ys = omega arith
times-append r n (x ∷ xs) ys = omega (arith, times-append r n xs ys)

module _ (s : State) (w : WellFormed s) (x : Certificate) (bound : cert_round x < u64_mod) where
  abbrev Good : Certificate → Type 0
  Good y = (cert_round y ≤ cert_round x) × IsLive s.last_committed y

  -- An entry of the DAG of the round and the author was pushed.
  abbrev Seen : List Digest → Round → PublicKey → Type 0
  Seen already r n = (e : Entry) × (entry_of s.dag r n ≡ some e) × (Set.contains e.0 already ≡ true)

  -- None of the round and the author was met, or one, which is the leader or was pushed.
  abbrev Once : List Certificate → List Certificate → List Digest → Round → PublicKey → Type 0
  Once buffer ordered already r n =
      (times r n buffer + times r n ordered ≡ 0)
      ⊎ ((times r n buffer + times r n ordered ≡ 1)
          × (((cert_round x ≡ r) × (cert_origin x ≡ n)) ⊎ Seen already r n))

  record Work (ordered : List Certificate) (work : List Certificate × List Digest) : Type 0 where
    waiting : All Good work.0
    done : All Good ordered
    once : (r : Round) (n : PublicKey) → Once work.0 ordered work.1 r n

  -- The parent that the search finds for a certificate stands in the round below.
  find_parent-lem :
      (y : Certificate) (d : Digest) (e : Entry)
      → find_parent s.dag y d ≡ some e
      → cert_round y ≤ cert_round x
      → (cert_round e.1 < cert_round y)
        × (entry_of s.dag (cert_round e.1) (cert_origin e.1) ≡ some e)
  unfolding find_parent
  find_parent-lem y d e h l =
      let r = u64_sub (cert_round y) 1 in
      let (i, t) = find-In (λ (e : Entry). e.0 == d) (values (round_of s.dag r)) e h in
      let (g, q) = values-entry s r e w i in
      let small = w.bounded r (cert_origin e.1) e g in
      (omega (arith, small, q, l, bound), ap (λ k. entry_of s.dag k (cert_origin e.1)) q ∙ g)

  skips_parts :
      (already : List Digest) (e : Entry)
      → skips s already e ≡ false
      → (Set.contains e.0 already ≡ false)
        × ((last : Round)
            → Map.get (cert_origin e.1) s.last_committed ≡ some last
            → last ≢ cert_round e.1)
  unfolding skips
  skips_parts already e q = (ground (arith, q), λ last g z. absurd (ground (arith, q, g, z)))

  insert-Seen :
      (already : List Digest) (d : Digest) (r : Round) (n : PublicKey)
      → Seen already r n
      → Seen (Set.insert d already) r n
  insert-Seen already d r n (e, g, c) = (e, g, ground (arith, c, Set.contains-insert d e.0 already))

  absent-Seen :
      (already : List Digest) (r : Round) (n : PublicKey) (e : Entry)
      → entry_of s.dag r n ≡ some e
      → Set.contains e.0 already ≡ false
      → Seen already r n
      → ⊥
  absent-Seen already r n e g f (e', g', c) =
      let same : some e' ≡ some e = sym g' ∙ g in
      let q : e' ≡ e = cc in let c' : Set.contains e.0 already ≡ true = rw (← q) c in cc

  push-Once :
      (ordered buffer : List Certificate) (already : List Digest) (e : Entry) (r : Round)
      (n : PublicKey)
      → cert_round e.1 < cert_round x
      → entry_of s.dag (cert_round e.1) (cert_origin e.1) ≡ some e
      → Set.contains e.0 already ≡ false
      → Once buffer ordered already r n
      → Once (e.1 ∷ buffer) ordered (Set.insert e.0 already) r n
  unfolding times
  push-Once ordered buffer already e r n below g f o = elim (Bool-cases (is_at r n e.1)) [
    | inl q ↦
        let (a, b) = &&_parts (cert_round e.1 == r) (cert_origin e.1 == n) q in
        let i = ==→eq (cert_round e.1) r a in
        let g' : entry_of s.dag r n ≡ some e =
          sym (
            ap (λ k. entry_of s.dag k (cert_origin e.1)) i
            ∙ ap (λ m. entry_of s.dag r m) (==→eq (cert_origin e.1) n b))
          ∙ g in
        elim o [
          | inl z ↦ rw q (
              inr (
                omega (arith, z),
                inr (e, g', ground (arith, Set.contains-insert e.0 e.0 already)),
              ))
          | inr (z, inl (k, m)) ↦ absurd (omega (arith, below, i, k))
          | inr (z, inr seen) ↦ absurd (absent-Seen already r n e g' f seen)
        ]
    | inr q ↦ elim o [
      | inl z ↦ rw q (inl (omega (arith, z)))
      | inr (z, inl lead) ↦ rw q (inr (omega (arith, z), inl lead))
      | inr (z, inr seen) ↦ rw q (inr (omega (arith, z), inr (insert-Seen already e.0 r n seen)))
    ]
  ]

  push_parent-Work :
      (ordered : List Certificate) (y : Certificate) (d : Digest) (buffer : List Certificate)
      (already : List Digest)
      → cert_round y ≤ cert_round x
      → Work ordered (buffer, already)
      → Work ordered (push_parent s (find_parent s.dag y d) (buffer, already))
  unfolding push_parent
  push_parent-Work ordered y d buffer already l v = elim (Option-cases (find_parent s.dag y d)) [
    | inl h ↦ rw h v
    | inr (e, h) ↦ elim (Bool-cases (skips s already e)) [
      | inl q ↦ rw (h, q) v
      | inr q ↦
          let (below, g) = find_parent-lem y d e h l in
          let (f, apart) = skips_parts already e q in
          rw (h, q)
            (record {
              waiting = (
                (
                  omega (arith, below, l),
                  λ last c. omega (
                    arith,
                    apart last c,
                    w.current (cert_round e.1) (cert_origin e.1) e last g c,
                  ),
                ),
                v.waiting,
              );
              done = v.done;
              once = λ r n.
                  push-Once ordered buffer already e r n (omega (arith, below, l)) g f (v.once r n);
            })
    ]
  ]

  push_parents-Work :
      (ordered : List Certificate) (y : Certificate) (ds : List Digest)
      (work : List Certificate × List Digest)
      → cert_round y ≤ cert_round x
      → Work ordered work
      → Work ordered (push_parents s y ds work)
  unfolding push_parents
  push_parents-Work ordered y [] work l v = v
  push_parents-Work ordered y (d ∷ ds) (buffer, already) l v =
      push_parents-Work ordered y ds (push_parent s (find_parent s.dag y d) (buffer, already)) l
        (push_parent-Work ordered y d buffer already l v)

  move-Once :
      (ordered buffer : List Certificate) (already : List Digest) (y : Certificate) (r : Round)
      (n : PublicKey)
      → Once (y ∷ buffer) ordered already r n
      → Once buffer (ordered ++ y ∷ []) already r n
  unfolding times
  move-Once ordered buffer already y r n o =
      let moved = times-append r n ordered (y ∷ []) in
      elim o [
        | inl z ↦ inl (omega (arith, z, moved))
        | inr (z, known) ↦ inr (omega (arith, z, moved), known)
      ]

  flatten_loop-Work :
      (fuel : ℕ) (buffer : List Certificate) (already : List Digest) (ordered ys : List Certificate)
      → Work ordered (buffer, already)
      → flatten_loop fuel s (buffer, already) ordered ≡ returned ys
      → (seen : List Digest) × Work ys ([], seen)
  unfolding flatten_loop
  flatten_loop-Work zero buffer already ordered ys v h = cc
  flatten_loop-Work (suc fuel) [] already ordered ys v h =
      let e : ordered ≡ ys = returned-injective h in (already, rw e at v)
  flatten_loop-Work (suc fuel) (y ∷ buffer) already ordered ys v h =
      let moved : Work (ordered ++ y ∷ []) (buffer, already) = record {
        waiting = v.waiting.1;
        done = All-append Good ordered (y ∷ []) v.done (v.waiting.0, tt);
        once = λ r n. move-Once ordered buffer already y r n (v.once r n);
      } in
      let work = push_parents s y y.header.parents (buffer, already) in
      flatten_loop-Work fuel work.0 work.1 (ordered ++ y ∷ []) ys
        (push_parents-Work (ordered ++ y ∷ []) y y.header.parents (buffer, already) v.waiting.0.0
          moved)
        h

  start-Work : IsLive s.last_committed x → Work [] (x ∷ [], [])
  unfolding times
  start-Work live = record {
    waiting = ((omega arith, live), tt);
    done = tt;
    once = λ r n. elim (Bool-cases (is_at r n x)) [
      | inl q ↦
          let (a, b) = &&_parts (cert_round x == r) (cert_origin x == n) q in
          rw q (inr (omega arith, inl (==→eq (cert_round x) r a, ==→eq (cert_origin x) n b)))
      | inr q ↦ rw q (inl (omega arith))
    ];
  }

  -- What the search finds is at most of the leader's round, and live, and none of it has the round and the
  -- author of another.
  pub flatten_loop-once :
      (fuel : ℕ) (ys : List Certificate)
      → IsLive s.last_committed x
      → flatten_loop fuel s (x ∷ [], []) [] ≡ returned ys
      → All (λ y. (cert_round y ≤ cert_round x) × IsLive s.last_committed y) ys
        × ((r : Round) (n : PublicKey) → times r n ys ≤ 1)
  unfolding times
  flatten_loop-once fuel ys live h =
      let (seen, v) = flatten_loop-Work fuel (x ∷ []) [] [] ys (start-Work live) h in
      (
        v.done,
        λ r n. elim (v.once r n) [ inl z ↦ omega (arith, z) | inr (z, known) ↦ omega (arith, z) ],
      )
