-- ===== src/Worker/QuorumWaiter.antt =====
-- worker/src/quorum_waiter.rs: the wait for the acknowledgements of one batch. The order in which they
-- arrive is an input; a cancel handler is the name of the authority that it waits for.
use tusk_ubuntu.Prelude.{
  ◌+◌, ◌≤◌, ◌<◌, ◌≡◌, ◌≢◌, ◌↔◌, refl, Bool, true, false, List, [], ◌∷◌, leb, if◌then◌else◌, u32_add,
  u32_mod, arith,
}
use tusk_ubuntu.Prelude.Set.{Distinct}
use tusk_ubuntu.Config.{PublicKey, Stake, Committee, stake, quorum_threshold}
use tusk_ubuntu.Config.Quorum.{IsValid, votes_weight, votes_weight-le_total}

-- The loop over the acknowledgements, from the stake counted so far: whether the batch is delivered.
unfoldable pub wait_for_quorum : Committee → Stake → List PublicKey → Bool
wait_for_quorum c total_stake [] = false
wait_for_quorum c total_stake (name ∷ names) =
    let total = u32_add total_stake (stake c name) in
    let rest = wait_for_quorum c total names in
    if leb (quorum_threshold c) total then true else rest

wait-reaches :
    (c : Committee) (total : Stake) (names : List PublicKey)
    → total + votes_weight c names < u32_mod
    → total < quorum_threshold c
    → (wait_for_quorum c total names ≡ true) ↔ (quorum_threshold c ≤ total + votes_weight c names)
unfolding wait_for_quorum votes_weight
wait-reaches c total [] b l = (λ h. absurd (cc), λ q. absurd (omega arith))
wait-reaches c total (name ∷ names) b l =
    ground (arith, wait-reaches c (u32_add total (stake c name)) names)

wait-first :
    (c : Committee) (total : Stake) (names : List PublicKey)
    → total + votes_weight c names < u32_mod
    → (wait_for_quorum c total names ≡ true)
      ↔ ((names ≢ []) × (quorum_threshold c ≤ total + votes_weight c names))
unfolding wait_for_quorum votes_weight
wait-first c total [] b = (λ h. absurd (cc), λ (n, q). absurd (n refl))
wait-first c total (name ∷ names) b =
    let ne : (name ∷ names) ≢ [] = λ e. cc in
    ground (arith, ne, wait-reaches c (u32_add total (stake c name)) names)

-- With a valid committee, the acknowledgements of distinct other authorities deliver the batch, in
-- whatever order they arrive, exactly if there is one at least and their stake with the worker's own
-- reaches `quorum_threshold`.
pub wait_for_quorum_iff :
    (c : Committee) (myself : PublicKey) (names : List PublicKey)
    → IsValid c
    → Distinct (myself ∷ names)
    → (wait_for_quorum c (stake c myself) names ≡ true)
      ↔ ((names ≢ []) × (quorum_threshold c ≤ votes_weight c (myself ∷ names)))
unfolding votes_weight
wait_for_quorum_iff c myself names v d =
    wait-first c (stake c myself) names
      (omega (arith, votes_weight-le_total c v (myself ∷ names) d, v.fits))
