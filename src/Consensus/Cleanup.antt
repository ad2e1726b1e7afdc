-- ===== src/Consensus/Cleanup.antt =====
-- consensus/src/lib.rs, `State::update`: the last committed round, and which entries of the DAG stay.
use tusk_ubuntu.Prelude.{
  ◌≤◌, ◌≡◌, ◌≢◌, refl, inl, inr, Bool, true, false, not, ◌&&◌, ◌||◌, max, Option, none, some, List,
  [], ◌∷◌, map, length, arith, leb, ◌==◌, if◌then◌else◌, Bool-cases, Option-cases, ==→eq, u64_add,
}
use tusk_ubuntu.Prelude.Map
use tusk_ubuntu.Prelude.Set
use tusk_ubuntu.Prelude.Set.{Distinct}
use tusk_ubuntu.Config.{PublicKey}
use tusk_ubuntu.Messages.{Round, Certificate, cert_round, cert_origin}
use tusk_ubuntu.Consensus.{
  Entry, Dag, State, round_of, retain_round, clean_dag, max_round, commit_round, update,
}

max_round-insert :
    (k : PublicKey) (v : Round) (m : List (PublicKey × Round))
    → ((w : Round) → Map.get k m ≡ some w → w ≤ v)
    → max_round (Map.insert k v m) ≡ max (max_round m) v
unfolding max_round Map.insert Map.get
max_round-insert k v [] h = omega arith
max_round-insert k v ((j, w) ∷ m) h = elim (Bool-cases (j == k)) [
  | inl q ↦ let le : w ≤ v = h w (rw q) in rw q (omega arith)
  | inr q ↦ let e = max_round-insert k v m (λ u g. h u (rw q g)) in rw q (omega (arith, e))
]

pub max_round-get :
    (k : PublicKey) (w : Round) (m : List (PublicKey × Round))
    → Map.get k m ≡ some w
    → w ≤ max_round m
unfolding max_round Map.get
max_round-get k w [] h = absurd (cc)
max_round-get k w ((j, u) ∷ m) h = ground (arith, h, max_round-get k w m)

max_round-commit :
    (k : PublicKey) (v : Round) (m : List (PublicKey × Round))
    → max_round (commit_round k v m) ≡ max (max_round m) v
unfolding commit_round
max_round-commit k v m = elim (Option-cases (Map.get k m)) [
  | inl q ↦ rw q (max_round-insert k v m (λ w g. absurd (cc)))
  | inr (r, q) ↦
      let e = max_round-insert k (max r v) m (λ w g. ground (arith, g, q)) in
      let le = max_round-get k r m q in rw q (omega (arith, e, le))
]

abbrev pub keys : Dag → List Round
keys dag = map (λ e. e.0) dag

-- The authors that `committed` names keep only the rounds from the one it gives.
abbrev pub spared : List (PublicKey × Round) → PublicKey → Round → Bool
spared [] n r = true
spared ((m, round) ∷ committed) n r = (not (m == n) || leb round r) && spared committed n r

unfoldable pub entry_of : Dag → Round → PublicKey → Option Entry
entry_of dag r n = Map.get n (round_of dag r)

pub entry_of-cons :
    (k r : Round) (n : PublicKey) (es : List (PublicKey × Entry)) (dag : Dag)
    → entry_of ((k, es) ∷ dag) r n ≡ (if k == r then Map.get n es else entry_of dag r n)
unfolding entry_of round_of Map.entry_or Map.get
entry_of-cons k r n es dag = ground arith

pub entry_of-nil : (r : Round) (n : PublicKey) → entry_of [] r n ≡ none
unfolding entry_of round_of Map.entry_or Map.get
entry_of-nil r n = refl

entry_of-absent :
    (dag : Dag) (r : Round) (n : PublicKey)
    → Set.contains r (keys dag) ≡ false
    → entry_of dag r n ≡ none
unfolding Set.contains
entry_of-absent [] r n h = entry_of-nil r n
entry_of-absent ((k, es) ∷ dag) r n h =
    ground (arith, entry_of-cons k r n es dag, entry_of-absent dag r n)

get-empty :
    (n : PublicKey) (es : List (PublicKey × Entry)) → (length es == 0) ≡ true → Map.get n es ≡ none
unfolding Map.get
get-empty n [] h = refl
get-empty n (e ∷ es) h = absurd (omega (arith, ==→eq (length (e ∷ es)) 0 h))

module _ (m : PublicKey) (round gc_depth last : Round) where
  abbrev stays : PublicKey → Round → Bool
  stays n r = (not (m == n) || leb round r) && leb last (u64_add r gc_depth)

  retain_round-keys :
      (dag : Dag) (r : Round)
      → Set.contains r (keys dag) ≡ false
      → Set.contains r (keys (retain_round m round gc_depth last dag)) ≡ false
  unfolding retain_round Set.contains
  retain_round-keys [] r h = refl
  retain_round-keys ((k, es) ∷ dag) r h = ground (arith, retain_round-keys dag r)

  pub retain_round-Distinct :
      (dag : Dag) → Distinct (keys dag) → Distinct (keys (retain_round m round gc_depth last dag))
  unfolding retain_round
  retain_round-Distinct [] d = tt
  retain_round-Distinct ((k, es) ∷ dag) d =
      ground (arith, retain_round-Distinct dag d.1, retain_round-keys dag k d.0)

  retain_round-entry :
      (dag : Dag) (r : Round) (n : PublicKey)
      → Distinct (keys dag)
      → entry_of (retain_round m round gc_depth last dag) r n
        ≡ (if stays n r then entry_of dag r n else none)
  unfolding retain_round
  retain_round-entry [] r n d = ground (arith, entry_of-nil r n)
  retain_round-entry ((k, es) ∷ dag) r n d =
      let kept = Map.retain (λ j _. not (j == m) || leb round k) es in
      let rest = retain_round m round gc_depth last dag in
      ground (
        arith,
        retain_round-entry dag r n d.1,
        entry_of-cons k r n es dag,
        entry_of-cons k r n kept rest,
        entry_of-absent dag k n d.0,
        get-empty n kept,
        Map.get-retain_key (λ j. not (j == m) || leb round k) n es,
      )

clean_dag-entry :
    (committed : List (PublicKey × Round)) (gc_depth last : Round) (dag : Dag) (r : Round)
    (n : PublicKey)
    → Distinct (keys dag)
    → committed ≢ []
    → entry_of (clean_dag committed gc_depth last dag) r n
      ≡ (if spared committed n r && leb last (u64_add r gc_depth) then entry_of dag r n else none)
unfolding clean_dag
clean_dag-entry [] gc_depth last dag r n d h = absurd (h refl)
clean_dag-entry ((m, round) ∷ []) gc_depth last dag r n d h =
    ground (arith, retain_round-entry m round gc_depth last dag r n d)
clean_dag-entry ((m, round) ∷ c ∷ committed) gc_depth last dag r n d h = ground (
  arith,
  retain_round-entry m round gc_depth last dag r n d,
  clean_dag-entry (c ∷ committed) gc_depth last (retain_round m round gc_depth last dag) r n
      (retain_round-Distinct m round gc_depth last dag d) (λ e. cc),
)

commit_round-ne :
    (k : PublicKey) (v : Round) (m : List (PublicKey × Round)) → commit_round k v m ≢ []
unfolding commit_round Map.insert
commit_round-ne k v [] = λ e. cc
commit_round-ne k v ((j, w) ∷ m) = ground arith

pub update-last :
    (s : State) (x : Certificate) (gc_depth : Round)
    → let s' = update s x gc_depth in
      (s'.last_committed_round ≡ max (max_round s.last_committed) (cert_round x))
      × (s'.last_committed_round ≡ max_round s'.last_committed)
unfolding update
update-last s x gc_depth = (max_round-commit (cert_origin x) (cert_round x) s.last_committed, refl)

-- `update` sets the last committed round to the larger of the highest round committed before and that
-- of the certificate. If the rounds of the DAG are distinct, then an entry of the DAG stays as it was
-- if its round is not below the one committed for its author and, with the garbage collection depth
-- added, not below the last committed round; any other entry is gone.
pub update_lem :
    (s : State) (x : Certificate) (gc_depth : Round)
    → Distinct (keys s.dag)
    → let s' = update s x gc_depth in
      (s'.last_committed_round ≡ max (max_round s.last_committed) (cert_round x))
      × ((r : Round) (n : PublicKey)
          → entry_of s'.dag r n ≡ (
              if spared s'.last_committed n r && leb s'.last_committed_round (u64_add r gc_depth)
              then entry_of s.dag r n
              else none))
unfolding update
update_lem s x gc_depth d = (
  max_round-commit (cert_origin x) (cert_round x) s.last_committed,
  λ r n.
      clean_dag-entry (commit_round (cert_origin x) (cert_round x) s.last_committed) gc_depth
        (max_round (commit_round (cert_origin x) (cert_round x) s.last_committed)) s.dag r n d
        (commit_round-ne (cert_origin x) (cert_round x) s.last_committed),
)
