-- ===== src/Consensus/Process/Returns.antt =====
-- consensus/src/lib.rs, `run`: the commit neither panics nor lacks fuel when the rounds that it walks
-- are in the DAG.
use native.Mathlib.Nat.{mod-lt}
use tusk_ubuntu.Prelude.{
  ℕ, zero, suc, ◌+◌, ◌-◌, ◌%◌, ◌≤◌, ◌<◌, ◌≡◌, ◌≢◌, ◌∙◌, refl, inl, inr, Bool, true, false, none,
  some, List, [], ◌∷◌, ◌++◌, map, length, length-map, arith, leb, ◌==◌, get_elem?, filter,
  Bool-cases, Option-cases, u64_sub, u64_add, u64_mod,
}
use tusk_ubuntu.Prelude.Map
use tusk_ubuntu.Prelude.Sort.{sort_by, insert_by}
use tusk_ubuntu.Prelude.Outcome.{Outcome, returned, expect, ◌>>=◌}
use tusk_ubuntu.Config.{PublicKey, Authority, Committee, size}
use tusk_ubuntu.Crypto.{Primitives}
use tusk_ubuntu.Messages.{Round, Certificate, cert_round, cert_digest}
use tusk_ubuntu.Consensus.{Entry, Dag, State, Setup, update, values}
use tusk_ubuntu.Consensus.WellFormed.{WellFormed}
use tusk_ubuntu.Consensus.Leaders.{
  elected, leader, is_parent, parents_in, walk, linked, past_leaders, order_leaders, rounds_down,
}
use tusk_ubuntu.Consensus.Leaders.Rounds.{leader-round, Falls, Falls-weaken, rounds_down-Falls}
use tusk_ubuntu.Consensus.Flatten.{order_dag}
use tusk_ubuntu.Consensus.Flatten.Returns.{order_dag-returns}
use tusk_ubuntu.Consensus.Process.{is_leader, commit_ordered, commit_leaders}

abbrev pub Returns {ℓ} : {A : Type ℓ} → Outcome A → Type ℓ
Returns {A = A} m = (a : A) × (m ≡ returned a)

pub >>=-Returns {ℓ κ} :
    {A : Type ℓ} {B : Type κ} (m : Outcome A) (f : A → Outcome B)
    → Returns m
    → ((a : A) → m ≡ returned a → Returns (f a))
    → Returns (m >>= f)
>>=-Returns m f (a, e) k = let (b, q) = k a e in (b, rw e q)

length-insert_by : (x : ℕ) (xs : List ℕ) → length (insert_by leb x xs) ≡ suc (length xs)
unfolding insert_by
length-insert_by x [] = refl
length-insert_by x (y ∷ ys) = ground (arith, length-insert_by x ys)

length-sort_by : (xs : List ℕ) → length (sort_by leb xs) ≡ length xs
unfolding sort_by
length-sort_by [] = refl
length-sort_by (x ∷ xs) = omega (arith, length-insert_by x (sort_by leb xs), length-sort_by xs)

get_elem?-Returns : (xs : List ℕ) (i : ℕ) → i < length xs → Returns (expect (get_elem? xs i))
get_elem?-Returns [] i h = absurd (omega (arith, h))
get_elem?-Returns (x ∷ xs) zero h = (x, refl)
get_elem?-Returns (x ∷ xs) (suc i) h = get_elem?-Returns xs i (omega (arith, h))

-- The rounds from `low` up to below `high` are in the DAG.
abbrev pub IsFull : Dag → Round → Round → Type 0
IsFull dag low high = (r : Round) → low ≤ r → r < high → Map.get r dag ≢ none

module _ (c : Committee) (some_authority : size c ≢ 0) where
  elected-Returns : (r : Round) → Returns (elected c r)
  unfolding elected size
  elected-Returns r = elim (Bool-cases (size c == 0)) [
    | inl q ↦ absurd (some_authority (ground (arith, q)))
    | inr q ↦
        let keys = map (λ (e : PublicKey × Authority). e.0) c.authorities in
        let positive : 0 < size c = ground (arith, q) in
        let same : length (sort_by leb keys) ≡ size c =
          length-sort_by keys ∙ length-map (λ (e : PublicKey × Authority). e.0) c.authorities in
        rw (elected, q)
          (get_elem?-Returns (sort_by leb keys) (r % size c)
            (omega (arith, mod-lt r positive, same)))
  ]

  leader-Returns : (r : Round) (dag : Dag) → Returns (leader c r dag)
  unfolding leader
  leader-Returns r dag = >>=-Returns (elected c r) _ (elected-Returns r) λ name _. (_, refl)

  walk-Returns :
      (dag : Dag) (low : Round) (n : ℕ) (children : List Certificate)
      → IsFull dag low (low + n)
      → Returns (walk dag low n children)
  unfolding walk parents_in
  walk-Returns dag low zero children f = (children, refl)
  walk-Returns dag low (suc n) children f = elim (Option-cases (Map.get (low + n) dag)) [
    | inl q ↦ absurd (f (low + n) (omega arith) (omega arith) q)
    | inr (authorities, q) ↦
        >>=-Returns (parents_in dag (low + n) children) (walk dag low n)
          (map (λ (e : Entry). e.1) (filter (is_parent children) (values authorities)), rw q refl)
          λ parents _. walk-Returns dag low n parents (λ r l h. f r l (omega (arith, h)))
  ]

  linked-Returns :
      (x prev : Certificate) (dag : Dag) (high : Round)
      → IsFull dag (cert_round prev) high
      → cert_round x ≤ high
      → Returns (linked x prev dag)
  unfolding linked
  linked-Returns x prev dag high f l =
      let m = walk dag (cert_round prev) (cert_round x - cert_round prev) (x ∷ []) in
      >>=-Returns m _
        (walk-Returns dag (cert_round prev) (cert_round x - cert_round prev) (x ∷ [])
          (λ r a b. f r a (omega (arith, b, a, l))))
        λ parents _. (_, refl)

  past_leaders-Returns :
      (s : State) (low high : Round) (rs : List Round) (current : Certificate)
      (xs : List Certificate)
      → WellFormed s
      → Falls low (cert_round current) rs
      → cert_round current ≤ high
      → IsFull s.dag low high
      → Returns (past_leaders c s.dag rs current xs)
  unfolding past_leaders
  past_leaders-Returns s low high [] current xs w f l full = (xs, refl)
  past_leaders-Returns s low high (r ∷ rs) current xs w f l full =
      let rest = Falls-weaken low r (cert_round current) rs (omega (arith, f.1)) f.2 in
      >>=-Returns (leader c r s.dag) _ (leader-Returns r s.dag) (elim [
        | none ↦ λ g. past_leaders-Returns s low high rs current xs w rest l full
        | some (d, prev) ↦ λ g.
            let (q, u) = leader-round c r s (d, prev) w g in
            >>=-Returns (linked current prev s.dag) _
              (linked-Returns current prev s.dag high (λ k a b. full k (omega (arith, a, q, f.0)) b)
                l)
              (elim [
                | true ↦ λ t.
                    past_leaders-Returns s low high rs prev (xs ++ prev ∷ []) w
                      (Falls-weaken low r (cert_round prev) rs (omega (arith, q)) f.2)
                      (omega (arith, q, f.1, l)) full
                | false ↦ λ t. past_leaders-Returns s low high rs current xs w rest l full
              ])
      ])

  pub order_leaders-Returns :
      (x : Certificate) (s : State)
      → WellFormed s
      → s.last_committed_round < cert_round x
      → cert_round x + 1 < u64_mod
      → 2 ≤ cert_round x
      → IsFull s.dag (s.last_committed_round + 2) (cert_round x)
      → Returns (order_leaders c x s)
  unfolding order_leaders
  order_leaders-Returns x s w l b two full =
      let low = u64_add s.last_committed_round 2 in
      let high = u64_sub (cert_round x) 2 in
      past_leaders-Returns s low (cert_round x) (rounds_down low high) x (x ∷ []) w
        (rounds_down-Falls low high (cert_round x) (omega (arith, two, b))) (omega arith)
        (λ r a h. full r (omega (arith, a, h, l, b)) h)

module _ (p : Primitives) (setup : Setup) (some_authority : size setup.committee ≢ 0) where
  is_leader-Returns : (x : Certificate) (dag : Dag) → Returns (is_leader p setup.committee x dag)
  unfolding is_leader
  is_leader-Returns x dag = elim (Bool-cases (cert_round x % 2 == 0)) [
    | inr q ↦ rw (is_leader, q) (false, refl)
    | inl q ↦
        rw (is_leader, q)
          (>>=-Returns (leader setup.committee (cert_round x) dag) _
            (leader-Returns setup.committee some_authority (cert_round x) dag)
            (elim [ none ↦ λ g. (false, refl) | some e ↦ λ g. (e.0 == cert_digest p x, refl) ]))
  ]

  commit_ordered-Returns :
      (xs : List Certificate) (s : State) (sequence : List (Certificate × Bool))
      → Returns (commit_ordered p setup xs s sequence)
  unfolding commit_ordered
  commit_ordered-Returns [] s sequence = ((s, sequence), refl)
  commit_ordered-Returns (x ∷ xs) s sequence =
      >>=-Returns (is_leader p setup.committee x s.dag) _ (is_leader-Returns x s.dag)
        λ lead _. commit_ordered-Returns xs (update s x setup.gc_depth) (sequence ++ (x, lead) ∷ [])

  pub commit_leaders-Returns :
      (xs : List Certificate) (s : State) (sequence : List (Certificate × Bool))
      → Returns (commit_leaders p setup xs s sequence)
  unfolding commit_leaders
  commit_leaders-Returns [] s sequence = ((s, sequence), refl)
  commit_leaders-Returns (x ∷ xs) s sequence =
      >>=-Returns (order_dag setup.gc_depth x s) _ (order_dag-returns setup.gc_depth x s)
        λ ordered _.
          >>=-Returns (commit_ordered p setup ordered s sequence) _
            (commit_ordered-Returns ordered s sequence)
            λ (s', sequence') _. commit_leaders-Returns xs s' sequence'
