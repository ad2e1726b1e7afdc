-- ===== src/Consensus/Leaders/Rounds.antt =====
-- consensus/src/lib.rs, `order_leaders`: the rounds of the leaders that are committed.
use tusk_ubuntu.Prelude.{
  ℕ, zero, suc, ◌+◌, ◌-◌, ◌*◌, ◌/◌, ◌≤◌, ◌<◌, ◌≡◌, ◌∙◌, ap, inl, inr, Option, some, List, [], ◌∷◌,
  ◌++◌, map, arith, ltb, Bool-cases, Option-cases, u64_add, u64_sub, u64_mod,
}
use mathlib.Core.List.{reverse, reverse-append}
use tusk_ubuntu.Prelude.Sort.{range}
use tusk_ubuntu.Prelude.Outcome.{returned, returned-injective, >>=-returned}
use tusk_ubuntu.Config.{Committee}
use tusk_ubuntu.Messages.{Round, Certificate, cert_round}
use tusk_ubuntu.Consensus.{Entry, State}
use tusk_ubuntu.Consensus.Cleanup.{entry_of}
use tusk_ubuntu.Consensus.WellFormed.{WellFormed}
use tusk_ubuntu.Consensus.Leaders.{
  elected, leader, linked, rounds_down, past_leaders, order_leaders,
}

-- The rounds go up, from above `low`, and are `u64`s.
abbrev pub Rise : Round → List Certificate → Type 0
Rise low [] = Unit
Rise low (x ∷ xs) = (low < cert_round x) × (cert_round x < u64_mod) × Rise (cert_round x) xs

-- The rounds go down, from below `high`, and stay from `low` on.
abbrev pub Falls : Round → Round → List Round → Type 0
Falls low high [] = Unit
Falls low high (r ∷ rs) = (low ≤ r) × (r < high) × Falls low r rs

range-Falls :
    (low high start n top : ℕ)
    → low + 2 * (start + n) ≤ high + 2
    → high < top + 2 * start
    → Falls low top (map (λ i. high - 2 * i) (range start n))
unfolding range
range-Falls low high start zero top l t = tt
range-Falls low high start (suc n) top l t = (
  omega (arith, l),
  omega (arith, l, t),
  range-Falls low high (start + 1) n (high - 2 * start) (omega (arith, l)) (omega (arith, l)),
)

pub rounds_down-Falls : (low high top : Round) → high < top → Falls low top (rounds_down low high)
unfolding rounds_down
rounds_down-Falls low high top t = elim (Bool-cases (ltb high low)) [
  | inl q ↦ rw q tt
  | inr q ↦
      rw q
        (range-Falls low high 0 ((high - low) / 2 + 1) top (ground (arith, q)) (omega (arith, t)))
]

-- The leader that is found stands in the DAG in its round.
pub leader-round :
    (c : Committee) (r : Round) (s : State) (e : Entry)
    → WellFormed s
    → leader c r s.dag ≡ returned (some e)
    → (cert_round e.1 ≡ r) × (r + 1 < u64_mod)
unfolding leader entry_of
leader-round c r s e w h =
    let (name, _, k) = >>=-returned (elected c r) _ h in
    let g = returned-injective k in ((w.placed r name e g).0, w.bounded r name e g)

-- From any round below the last of them on, the leaders rise, from the last to the first.
abbrev IsClimb : Certificate → List Certificate → Type 0
IsClimb current xs = (low : Round) → low < cert_round current → Rise low (reverse xs)

pub Falls-weaken :
    (low r top : Round) (rs : List Round) → r ≤ top → Falls low r rs → Falls low top rs
Falls-weaken low r top [] l f = tt
Falls-weaken low r top (q ∷ rs) l f = (f.0, omega (arith, f.1, l), f.2)

Falls-lower :
    (low low' top : Round) (rs : List Round) → low ≤ low' → Falls low' top rs → Falls low top rs
Falls-lower low low' top [] l f = tt
Falls-lower low low' top (r ∷ rs) l f =
    (omega (arith, l, f.0), f.1, Falls-lower low low' r rs l f.2)

IsClimb-snoc :
    (prev current : Certificate) (xs : List Certificate)
    → cert_round prev < cert_round current
    → cert_round prev < u64_mod
    → IsClimb current xs
    → IsClimb prev (xs ++ prev ∷ [])
IsClimb-snoc prev current xs l b climb low h =
    rw (reverse-append xs (prev ∷ [])) (h, b, climb (cert_round prev) l)

past_leaders-Rise :
    (c : Committee) (s : State) (low : Round) (rs : List Round) (current : Certificate)
    (xs out : List Certificate)
    → WellFormed s
    → Falls low (cert_round current) rs
    → low ≤ cert_round current
    → IsClimb current xs
    → past_leaders c s.dag rs current xs ≡ returned out
    → (bottom : Round) → bottom < low
    → Rise bottom (reverse out)
unfolding past_leaders
past_leaders-Rise c s low [] current xs out w f l climb h bottom b =
    rw (← returned-injective h) (climb bottom (omega (arith, b, l)))
past_leaders-Rise c s low (r ∷ rs) current xs out w f l climb h bottom b =
    let (found, g, k) = >>=-returned (leader c r s.dag) _ h in
    let rest = Falls-weaken low r (cert_round current) rs (omega (arith, f.1)) f.2 in
    elim (Option-cases found) [
      | inl n ↦ past_leaders-Rise c s low rs current xs out w rest l climb (rw n at k) bottom b
      | inr ((d, prev), n) ↦
          let (q, u) =
            leader-round c r s (d, prev) w (g ∙ ap (λ (o : Option Entry). returned o) n) in
          let (path, _, m) = >>=-returned (linked current prev s.dag) _ (rw n at k) in
          elim (Bool-cases path) [
            | inl t ↦
                past_leaders-Rise c s low rs prev (xs ++ prev ∷ []) out w
                  (Falls-weaken low r (cert_round prev) rs (omega (arith, q)) f.2)
                  (omega (arith, q, f.0))
                  (IsClimb-snoc prev current xs (omega (arith, q, f.1)) (omega (arith, q, u)) climb)
                  (rw t at m) bottom b
            | inr t ↦
                past_leaders-Rise c s low rs current xs out w rest l climb (rw t at m) bottom b
          ]
    ]

-- In a well-formed state the leaders that are committed with one above the last committed round are of
-- rising rounds above it, in the order in which they are committed.
pub order_leaders-Rise :
    (c : Committee) (x : Certificate) (s : State) (out : List Certificate)
    → WellFormed s
    → s.last_committed_round < cert_round x
    → cert_round x + 1 < u64_mod
    → 2 ≤ cert_round x
    → order_leaders c x s ≡ returned out
    → Rise s.last_committed_round (reverse out)
unfolding order_leaders
order_leaders-Rise c x s out w l b two h =
    let low = u64_add s.last_committed_round 2 in
    let high = u64_sub (cert_round x) 2 in
    let next = s.last_committed_round + 1 in
    past_leaders-Rise c s next (rounds_down low high) x (x ∷ []) out w
      (Falls-lower next low (cert_round x) (rounds_down low high) (omega (arith, l, b))
        (rounds_down-Falls low high (cert_round x) (omega (arith, two, b))))
      (omega (arith, l)) (λ low h. (h, omega (arith, b), tt)) h s.last_committed_round (omega arith)
