-- ===== src/Consensus/Leaders.antt =====
-- consensus/src/lib.rs, `leader`, `linked` and `order_leaders`: the leader of a round, whether there is
-- a path between two leaders, and the past leaders to commit.
pub mod Paths
pub mod Rounds
use tusk_ubuntu.Prelude.Outcome.{Outcome, returned, panicked, ◌>>=◌, expect}
use tusk_ubuntu.Prelude.{
  ℕ, zero, suc, ◌+◌, ◌-◌, ◌*◌, ◌/◌, ◌%◌, Bool, true, false, Option, none, some, List, [], ◌∷◌, ◌++◌,
  map, filter, any, get_elem?, leb, ltb, ◌==◌, if◌then◌else◌, u64_add, u64_sub,
}
use tusk_ubuntu.Prelude.Map
use tusk_ubuntu.Prelude.Set
use tusk_ubuntu.Prelude.Sort.{sort_by, range}
use tusk_ubuntu.Config.{PublicKey, Committee, size}
use tusk_ubuntu.Messages.{Round, Certificate, cert_round, certificate_eq}
use tusk_ubuntu.Consensus.{Entry, Dag, State, values, round_of}

-- `leader`: the elected authority of a round, and its entry in the DAG.
unfoldable pub elected : Committee → Round → Outcome PublicKey
unfolding size
elected c round =
    let keys = sort_by leb (map (λ e. e.0) c.authorities) in
    if size c == 0 then panicked else expect (get_elem? keys (round % size c))

unfoldable pub leader : Committee → Round → Dag → Outcome (Option Entry)
unfolding elected round_of
leader c round dag = do name ← elected c round; returned (Map.get name (round_of dag round))

-- `linked`: one step of the loop, and the loop over the rounds from high to low.
abbrev pub is_parent : List Certificate → Entry → Bool
is_parent children e = any (λ x. Set.contains e.0 x.header.parents) children

unfoldable pub parents_in : Dag → Round → List Certificate → Outcome (List Certificate)
parents_in dag r children = do
  authorities ← expect (Map.get r dag)
  returned (map (λ e. e.1) (filter (is_parent children) (values authorities)))

unfoldable pub walk : Dag → Round → ℕ → List Certificate → Outcome (List Certificate)
unfolding parents_in
walk dag low zero children = returned children
walk dag low (suc n) children = do
  parents ← parents_in dag (low + n) children
  walk dag low n parents

unfoldable pub linked : Certificate → Certificate → Dag → Outcome Bool
unfolding walk
linked x prev dag = do
  parents ← walk dag (cert_round prev) (cert_round x - cert_round prev) (x ∷ [])
  returned (any (λ y. certificate_eq y prev) parents)

-- `(low..=high).rev().step_by(2)`
unfoldable pub rounds_down : Round → Round → List Round
unfolding range
rounds_down low high =
    if ltb high low then [] else map (λ i. high - 2 * i) (range 0 ((high - low) / 2 + 1))

-- The loop of `order_leaders`: `to_commit` grows at its end.
unfoldable pub past_leaders :
    Committee → Dag → List Round → Certificate → List Certificate → Outcome (List Certificate)
unfolding leader linked
past_leaders c dag [] current to_commit = returned to_commit
past_leaders c dag (r ∷ rs) current to_commit = do
  found ← leader c r dag
  elim found [
    | none ↦ past_leaders c dag rs current to_commit
    | some (_, prev) ↦ linked current prev dag >>= λ path. elim path [
      | true ↦ past_leaders c dag rs prev (to_commit ++ prev ∷ [])
      | false ↦ past_leaders c dag rs current to_commit
    ]
  ]

unfoldable pub order_leaders : Committee → Certificate → State → Outcome (List Certificate)
unfolding past_leaders rounds_down
order_leaders c x s =
    past_leaders c s.dag (rounds_down (u64_add s.last_committed_round 2) (u64_sub (cert_round x) 2))
      x (x ∷ [])
