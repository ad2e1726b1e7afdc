-- ===== src/Consensus/WellFormed.antt =====
-- consensus/src/lib.rs, `State`: a certificate stands in the DAG under its round and its author, and not
-- below the round committed for the author.
use tusk_ubuntu.Prelude.{
  ◌+◌, ◌≤◌, ◌<◌, ◌≡◌, ◌⊎◌, ◌∙◌, ℕ, map, refl, sym, ap, inl, inr, true, not, ◌&&◌, ◌||◌, none, some,
  List, [], ◌∷◌, length, All, In, In-cons, arith, leb, ◌==◌, if◌then◌else◌, Bool-cases, ==→eq,
  u64_add, u64_mod, &&_parts,
}
use tusk_ubuntu.Prelude.Map
use tusk_ubuntu.Prelude.Set.{Distinct}
use tusk_ubuntu.Prelude.Keys
use tusk_ubuntu.Prelude.Keys.{keys-retain-Distinct, contains-keys}
use tusk_ubuntu.Config.{PublicKey}
use tusk_ubuntu.Crypto.{Digest}
use tusk_ubuntu.Messages.{Round, Certificate, cert_round, cert_origin}
use tusk_ubuntu.Consensus.{
  Entry, Dag, State, values, round_of, retain_round, clean_dag, max_round, commit_round, update,
}
use tusk_ubuntu.Consensus.Cleanup.{
  keys, spared, retain_round-Distinct, entry_of, update_lem, update-last,
}

pub record WellFormed (s : State) : Type 0 where
  pub rounds : Distinct (keys s.dag)
  pub authors : All (λ e. Distinct (Keys.keys e.1)) s.dag
  pub placed :
      (r : Round) (n : PublicKey) (e : Entry)
      → entry_of s.dag r n ≡ some e
      → (cert_round e.1 ≡ r) × (cert_origin e.1 ≡ n)
  pub bounded :
      (r : Round) (n : PublicKey) (e : Entry) → entry_of s.dag r n ≡ some e → r + 1 < u64_mod
  pub current :
      (r : Round) (n : PublicKey) (e : Entry) (last : Round)
      → entry_of s.dag r n ≡ some e
      → Map.get n s.last_committed ≡ some last
      → last ≤ r
  pub sound : s.last_committed_round ≡ max_round s.last_committed

-- In a map whose keys are distinct, every value has its key.
values-get :
    {V : Type 0} (m : List (PublicKey × V)) {v : V}
    → Distinct (Keys.keys m)
    → In v (values m)
    → (n : PublicKey) × (Map.get n m ≡ some v)
unfolding Map.get
values-get [] d i = elim i [ ]
values-get ((k, w) ∷ m) {v} d i = elim (In-cons i) [
  | inl e ↦ (k, rw e (ground arith))
  | inr j ↦ let (n, g) = values-get m d.1 j in (n, ground (arith, g, contains-keys n m, d.0))
]

round_of-cons :
    (k r : Round) (es : List (PublicKey × Entry)) (dag : Dag)
    → round_of ((k, es) ∷ dag) r ≡ (if k == r then es else round_of dag r)
unfolding round_of Map.entry_or Map.get
round_of-cons k r es dag = ground arith

round_of-nil : (r : Round) → round_of [] r ≡ []
unfolding round_of Map.entry_or Map.get
round_of-nil r = refl

-- The authorities of a round are a map.
abbrev IsMap : Round × List (PublicKey × Entry) → Type 0
IsMap e = Distinct (Keys.keys e.1)

round_of-Distinct : (dag : Dag) (r : Round) → All IsMap dag → Distinct (Keys.keys (round_of dag r))
round_of-Distinct [] r a = rw (round_of-nil r) tt
round_of-Distinct ((k, es) ∷ dag) r a = elim (Bool-cases (k == r)) [
  | inl q ↦ rw (round_of-cons k r es dag, q) a.0
  | inr q ↦ rw (round_of-cons k r es dag, q) (round_of-Distinct dag r a.1)
]

retain_round-authors :
    (m : PublicKey) (round gc_depth last : Round) (dag : Dag)
    → All IsMap dag
    → All IsMap (retain_round m round gc_depth last dag)
unfolding retain_round
retain_round-authors m round gc_depth last [] a = tt
retain_round-authors m round gc_depth last ((k, es) ∷ dag) a =
    let kept = Map.retain (λ n _. not (n == m) || leb round k) es in
    let rest = retain_round-authors m round gc_depth last dag a.1 in
    elim (Bool-cases (not (length kept == 0) && leb last (u64_add k gc_depth))) [
      | inl q ↦ rw q (keys-retain-Distinct _ es a.0, rest)
      | inr q ↦ rw q rest
    ]

clean_dag-authors :
    (committed : List (PublicKey × Round)) (gc_depth last : Round) (dag : Dag)
    → All IsMap dag
    → All IsMap (clean_dag committed gc_depth last dag)
unfolding clean_dag
clean_dag-authors [] gc_depth last dag a = a
clean_dag-authors ((m, round) ∷ committed) gc_depth last dag a =
    clean_dag-authors committed gc_depth last (retain_round m round gc_depth last dag)
      (retain_round-authors m round gc_depth last dag a)

clean_dag-rounds :
    (committed : List (PublicKey × Round)) (gc_depth last : Round) (dag : Dag)
    → Distinct (keys dag)
    → Distinct (keys (clean_dag committed gc_depth last dag))
unfolding clean_dag
clean_dag-rounds [] gc_depth last dag d = d
clean_dag-rounds ((m, round) ∷ committed) gc_depth last dag d =
    clean_dag-rounds committed gc_depth last (retain_round m round gc_depth last dag)
      (retain_round-Distinct m round gc_depth last dag d)

spared-get :
    (committed : List (PublicKey × Round)) (n : PublicKey) (r last : Round)
    → spared committed n r ≡ true
    → Map.get n committed ≡ some last
    → last ≤ r
unfolding Map.get
spared-get [] n r last t g = absurd (cc)
spared-get ((m, round) ∷ committed) n r last t g =
    ground (arith, t, g, spared-get committed n r last)

-- What the cleanup leaves in the DAG stood there before, and is not below what is committed.
update-entry :
    (s : State) (x : Certificate) (gc_depth r : Round) (n : PublicKey) (e : Entry)
    → Distinct (keys s.dag)
    → entry_of (update s x gc_depth).dag r n ≡ some e
    → (entry_of s.dag r n ≡ some e) × (spared (update s x gc_depth).last_committed n r ≡ true)
update-entry s x gc_depth r n e d h =
    let after = (update_lem s x gc_depth d).1 r n in
    let s' = update s x gc_depth in
    elim (Bool-cases
      (spared s'.last_committed n r && leb s'.last_committed_round (u64_add r gc_depth))) [
        | inl q ↦ (rw q at (sym after ∙ h), (&&_parts _ _ q).0)
        | inr q ↦ absurd (none-some (rw q at (sym after ∙ h)))
      ]
  where
    none-some : {f : Entry} → none ≡ some f → ⊥
    none-some e = cc

pub update-WellFormed :
    (s : State) (x : Certificate) (gc_depth : Round)
    → WellFormed s
    → WellFormed (update s x gc_depth)
unfolding update
update-WellFormed s x gc_depth w =
    let committed = commit_round (cert_origin x) (cert_round x) s.last_committed in
    record {
      rounds = clean_dag-rounds committed gc_depth (max_round committed) s.dag w.rounds;
      authors = clean_dag-authors committed gc_depth (max_round committed) s.dag w.authors;
      placed = λ r n e h. w.placed r n e (update-entry s x gc_depth r n e w.rounds h).0;
      bounded = λ r n e h. w.bounded r n e (update-entry s x gc_depth r n e w.rounds h).0;
      current = λ r n e last h g.
          spared-get committed n r last (update-entry s x gc_depth r n e w.rounds h).1 g;
      sound = (update-last s x gc_depth).1;
    }

-- What the code finds in a round of the DAG stands there under its author.
pub values-entry :
    (s : State) (r : Round) (e : Entry)
    → WellFormed s
    → In e (values (round_of s.dag r))
    → (entry_of s.dag r (cert_origin e.1) ≡ some e) × (cert_round e.1 ≡ r)
unfolding entry_of
values-entry s r e w i =
    let (n, g) = values-get (round_of s.dag r) (round_of-Distinct s.dag r w.authors) i in
    let (a, b) = w.placed r n e g in (ap (λ m. Map.get m (round_of s.dag r)) b ∙ g, a)

All-insert :
    (r : Round) (es : List (PublicKey × Entry)) (dag : Dag)
    → Distinct (Keys.keys es)
    → All IsMap dag
    → All IsMap (Map.insert r es dag)
unfolding Map.insert
All-insert r es [] d a = (d, tt)
All-insert r es ((k, fs) ∷ dag) d a = elim (Bool-cases (k == r)) [
  | inl q ↦ rw q (d, a.1)
  | inr q ↦ rw q (a.0, All-insert r es dag d a.1)
]

map-keys : {V : Type 0} (m : List (ℕ × V)) → map (λ e. e.0) m ≡ Keys.keys m
map-keys [] = refl
map-keys ((k, v) ∷ m) = ap (◌∷◌ k) (map-keys m)

-- A certificate that is added stands under its round and author, and else nothing changes.
entry_of-insert :
    (dag : Dag) (r k : Round) (n m : PublicKey) (e : Entry)
    → entry_of (Map.insert k (Map.insert m e (round_of dag k)) dag) r n
      ≡ (if k == r && m == n then some e else entry_of dag r n)
unfolding entry_of round_of
entry_of-insert dag r k n m e = elim (Bool-cases (k == r)) [
  | inl q ↦
      let k≡r = ==→eq k r q in
      rw
        (
          Map.entry_or-insert_at k r [] (Map.insert m e (round_of dag k)) dag,
          q,
          k≡r,
          Map.get-insert m n e (round_of dag r),
        )
        refl
  | inr q ↦ rw (Map.entry_or-insert_at k r [] (Map.insert m e (round_of dag k)) dag, q) refl
]

entry_of-inserted :
    (dag : Dag) (r k : Round) (n m : PublicKey) (e f : Entry)
    → entry_of (Map.insert k (Map.insert m e (round_of dag k)) dag) r n ≡ some f
    → ((k ≡ r) × (m ≡ n) × (e ≡ f)) ⊎ (entry_of dag r n ≡ some f)
entry_of-inserted dag r k n m e f h =
    let now = entry_of-insert dag r k n m e in
    elim (Bool-cases (k == r && m == n)) [
      | inl q ↦
          let (a, b) = &&_parts (k == r) (m == n) q in
          inl (==→eq k r a, ==→eq m n b, some-injective (sym (rw q at now) ∙ h))
      | inr q ↦ inr (sym (rw q at now) ∙ h)
    ]
  where
    some-injective : {a b : Entry} → some a ≡ some b → a ≡ b
    some-injective h = cc

-- A certificate that is not below what is committed for its author enters a well-formed DAG.
pub insert-WellFormed :
    (s : State) (d : Digest) (x : Certificate)
    → WellFormed s
    → cert_round x + 1 < u64_mod
    → ((last : Round) → Map.get (cert_origin x) s.last_committed ≡ some last → last ≤ cert_round x)
    → WellFormed (record s {
      dag =
          Map.insert
            (cert_round x)
            (Map.insert (cert_origin x) (d, x) (round_of s.dag (cert_round x)))
            s.dag;
    })
insert-WellFormed s d x w b late =
    let k = cert_round x in
    let m = cert_origin x in
    let es = Map.insert m (d, x) (round_of s.dag k) in
    let known = round_of-Distinct s.dag k w.authors in
    record {
      rounds =
          rw (map-keys (Map.insert k es s.dag))
            (Keys.keys-insert-Distinct k es s.dag (rw (map-keys s.dag) at w.rounds));
      authors =
          All-insert k es s.dag (Keys.keys-insert-Distinct m (d, x) (round_of s.dag k) known)
            w.authors;
      placed = λ r n f h. elim (entry_of-inserted s.dag r k n m (d, x) f h) [
        | inl (i, j, q) ↦ (
          sym (ap (λ (g : Entry). cert_round g.1) q) ∙ i,
          sym (ap (λ (g : Entry). cert_origin g.1) q) ∙ j,
        )
        | inr old ↦ w.placed r n f old
      ];
      bounded = λ r n f h. elim (entry_of-inserted s.dag r k n m (d, x) f h) [
        | inl (i, j, q) ↦ omega (arith, i, b)
        | inr old ↦ w.bounded r n f old
      ];
      current = λ r n f last h g. elim (entry_of-inserted s.dag r k n m (d, x) f h) [
        | inl (i, j, q) ↦ omega (arith, i, late last (ap (λ a. Map.get a s.last_committed) j ∙ g))
        | inr old ↦ w.current r n f last old g
      ];
      sound = w.sound;
    }
