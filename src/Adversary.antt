-- ===== src/Adversary.antt =====
-- primary/src/adversary.rs: the deterministic schedule of silent authorities and of the leader rounds
-- that may be committed directly. A hash is a number, so that tuples of a hash and a number are
-- compared as pairs of numbers. Indices and rounds are `u64` and 64-bit `usize`.
pub mod Ranks
use tusk_ubuntu.Prelude.{
  ℕ, ◌-◌, ◌/◌, ◌%◌, min, Bool, true, false, not, ◌&&◌, ◌||◌, none, some, List, [], ◌∷◌, ◌++◌, map,
  filter, any, take, length, get_elem?, le_bytes, be_bytes32, ltb, leb, ◌==◌, if◌then◌else◌,
  u64_add, u64_mul,
}
use tusk_ubuntu.Prelude.Sort.{sort_by, range}
use tusk_ubuntu.Config.{PublicKey}
use tusk_ubuntu.Crypto.{Primitives}
use tusk_ubuntu.Messages.{Round}

-- b"narwhal-dynamic-adversary-v1"
abbrev label : List ℕ
label =
    110 ∷ 97 ∷ 114 ∷ 119 ∷ 104 ∷ 97 ∷ 108 ∷ 45 ∷ 100 ∷ 121 ∷ 110 ∷ 97 ∷ 109 ∷ 105 ∷ 99 ∷ 45 ∷ 97
    ∷ 100 ∷ 118 ∷ 101 ∷ 114 ∷ 115 ∷ 97 ∷ 114 ∷ 121 ∷ 45 ∷ 118 ∷ 49 ∷ []

-- The order of `(score, number)` tuples.
abbrev pub pair_lt : ℕ × ℕ → ℕ × ℕ → Bool
pair_lt a b = ltb a.0 b.0 || (a.0 == b.0 && ltb a.1 b.1)

abbrev pub pair_le : ℕ × ℕ → ℕ × ℕ → Bool
pair_le a b = ltb a.0 b.0 || (a.0 == b.0 && leb a.1 b.1)

-- `authorities[i]`, for an index that is in range whenever the list is not empty.
abbrev pub nth : List PublicKey → ℕ → PublicKey
nth authorities i = elim (get_elem? authorities i) [ none ↦ 0 | some a ↦ a ]

-- The first of the `window` consecutive slots that the round belongs to.
unfoldable pub window_start : Round → ℕ → ℕ
window_start round window = u64_add (u64_mul ((round / 2 - 1) / window) window) 1

unfoldable pub candidate_round : ℕ → ℕ → Round
candidate_round start offset = u64_mul 2 (u64_add start offset)

module _ (p : Primitives) where
  unfoldable pub score : PublicKey → Round → ℕ → ℕ → ℕ
  score authority round seed domain =
      p.sha512 (label ++ (le_bytes 8 seed ++ (le_bytes 8 round ++ (domain ∷ be_bytes32 authority))))

  -- How many of the authorities come before `authority` by score.
  unfoldable pub rank : PublicKey → List PublicKey → Round → ℕ → ℕ
  rank authority authorities round seed = length (
      filter
        (λ candidate.
          pair_lt (score candidate round seed 0, candidate)
            (score authority round seed 0, authority))
        authorities)

  unfoldable pub leader_slots : List PublicKey → Round → ℕ → ℕ → List (ℕ × Round)
  leader_slots authorities start window seed =
      map
        (λ offset.
          let candidate = candidate_round start offset in
          (score (nth authorities (candidate % length authorities)) candidate seed 2, candidate))
        (range 0 window)

  unfoldable pub leader_is_silent : List PublicKey → Round → ℕ → ℕ → Bool
  unfolding leader_slots
  leader_is_silent authorities round faults seed =
      let window = u64_add (u64_mul 3 faults) 1 in
      any (λ slot. slot.1 == round)
        (take faults
          (sort_by pair_le (leader_slots authorities (window_start round window) window seed)))

  -- The case of an even round. `faults` is between 1 and the number of authorities.
  unfoldable pub selected_even : PublicKey → List PublicKey → Round → ℕ → ℕ → Bool
  unfolding leader_is_silent rank
  selected_even authority authorities round faults seed =
      let silent = leader_is_silent authorities round faults seed in
      let leader = nth authorities (round % length authorities) in
      if authority == leader
      then silent
      else ltb (rank authority (filter (λ a. not (a == leader)) authorities) round seed)
          (faults - (if silent then 1 else 0))

  unfoldable pub selected : PublicKey → List PublicKey → Round → ℕ → ℕ → Bool
  unfolding selected_even rank
  selected authority authorities round wanted seed =
      let faults = min wanted (length authorities) in
      if faults == 0
      then false
      else if round % 2 == 0
      then selected_even authority authorities round faults seed
      else ltb (rank authority authorities round seed) faults

  -- The loop over the offsets: the slots of the window whose leader is not silent.
  unfoldable pub available : List PublicKey → ℕ → ℕ → ℕ → List ℕ → List (ℕ × Round)
  unfolding selected
  available authorities start faults seed [] = []
  available authorities start faults seed (offset ∷ offsets) =
      let candidate = candidate_round start offset in
      let leader = nth authorities (candidate % length authorities) in
      let rest = available authorities start faults seed offsets in
      if selected leader authorities candidate faults seed
      then rest
      else (score leader candidate seed 1, candidate) ∷ rest

  unfoldable pub direct_slots : List PublicKey → Round → ℕ → ℕ → List (ℕ × Round)
  unfolding available
  direct_slots authorities leader_round faults seed =
      let window = u64_add (u64_mul 3 faults) 1 in
      take (min (u64_add faults 2) window) (
        sort_by pair_le
          (available authorities (window_start leader_round window) faults seed (range 0 window)))

  unfoldable pub direct_commit_selected : List PublicKey → Round → ℕ → ℕ → Bool
  unfolding direct_slots
  direct_commit_selected authorities leader_round faults seed =
      if faults == 0 || length authorities == 0
      then true
      else any (λ slot. slot.1 == leader_round) (direct_slots authorities leader_round faults seed)
