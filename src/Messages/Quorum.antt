-- ===== src/Messages/Quorum.antt =====
-- primary/src/messages.rs, `Certificate::verify`: what its loop over the votes establishes.
use tusk_ubuntu.Prelude.{
  All, ◌+◌, ◌≤◌, ◌<◌, ◌≡◌, refl, false, List, [], ◌∷◌, map, arith, leb, u32_add, u32_mod,
}
use tusk_ubuntu.Prelude.Set
use tusk_ubuntu.Prelude.Set.{Distinct, common}
use tusk_ubuntu.Prelude.Result.{>>=-eq-ok, ok, ensure}
use tusk_ubuntu.Config.{PublicKey, Stake, Committee, stake, quorum_threshold, validity_threshold}
use tusk_ubuntu.Config.Quorum.{IsValid, votes_weight, votes_weight-le_total, quorum_intersection}
use tusk_ubuntu.Crypto
use tusk_ubuntu.Crypto.{Signature, Primitives}
use tusk_ubuntu.Messages.{Certificate, check_votes, verify_header, verify_certified, cert_digest}

abbrev pub voters : List (PublicKey × Signature) → List PublicKey
voters votes = map (λ e. e.0) votes

-- No name of the list is in the set.
abbrev pub Fresh : List PublicKey → List PublicKey → Type 0
Fresh used [] = Unit
Fresh used (n ∷ ns) = (Set.contains n used ≡ false) × Fresh used ns

Fresh-insert :
    (name : PublicKey) (used ns : List PublicKey)
    → Fresh (Set.insert name used) ns
    → (Set.contains name ns ≡ false) × Fresh used ns
unfolding Set.contains
Fresh-insert name used [] f = (refl, tt)
Fresh-insert name used (n ∷ ns) f =
    ground (arith, Fresh-insert name used ns f.1, Set.contains-insert name n used)

Fresh-nil : (ns : List PublicKey) → Fresh [] ns
unfolding Set.contains
Fresh-nil [] = tt
Fresh-nil (n ∷ ns) = (refl, Fresh-nil ns)

check_votes-Distinct :
    (c : Committee) (votes : List (PublicKey × Signature)) (used : List PublicKey)
    (weight w : Stake)
    → check_votes c votes used weight ≡ ok w
    → Distinct (voters votes) × Fresh used (voters votes)
unfolding check_votes
check_votes-Distinct c [] used weight w h = (tt, tt)
check_votes-Distinct c ((name, s) ∷ votes) used weight w h = ground (
  arith,
  check_votes-Distinct c votes (Set.insert name used) (u32_add weight (stake c name)) w,
  Fresh-insert name used (voters votes),
)

check_votes-weight :
    (c : Committee) (votes : List (PublicKey × Signature)) (used : List PublicKey)
    (weight w : Stake)
    → check_votes c votes used weight ≡ ok w
    → weight + votes_weight c (voters votes) < u32_mod
    → w ≡ weight + votes_weight c (voters votes)
unfolding check_votes votes_weight
check_votes-weight c [] used weight w h b = ground arith
check_votes-weight c ((name, s) ∷ votes) used weight w h b =
    ground
      (arith, check_votes-weight c votes (Set.insert name used) (u32_add weight (stake c name)) w)

-- A certificate that passes the checks of a certificate which is not a genesis one carries votes of
-- distinct authorities whose stake adds up to at least `quorum_threshold`, if the committee is valid.
pub verify_certified-quorum :
    (p : Primitives) (c : Committee) (x : Certificate)
    → IsValid c
    → verify_certified p c x ≡ ok tt
    → Distinct (voters x.votes) × (quorum_threshold c ≤ votes_weight c (voters x.votes))
unfolding verify_certified
verify_certified-quorum p c x v h =
    let (u, eh, k) = >>=-eq-ok (verify_header p c x.header) _ h in
    let (w, ew, k') = >>=-eq-ok (check_votes c x.votes [] 0) _ k in
    let (u', eq, k'') = >>=-eq-ok (ensure (leb (quorum_threshold c) w) _) _ k' in
    let d = (check_votes-Distinct c x.votes [] 0 w ew).0 in
    let b = votes_weight-le_total c v (voters x.votes) d in
    let e = check_votes-weight c x.votes [] 0 w ew (omega (arith, b, v.fits)) in
    (d, ground (arith, e, eq))

-- Two certificates that both pass these checks have voters in common, of stake at least
-- `validity_threshold` together, if the committee is valid.
pub verify_certified-intersection :
    (p : Primitives) (c : Committee) (x y : Certificate)
    → IsValid c
    → verify_certified p c x ≡ ok tt
    → verify_certified p c y ≡ ok tt
    → validity_threshold c ≤ votes_weight c (common (voters x.votes) (voters y.votes))
verify_certified-intersection p c x y v hx hy =
    let (dx, qx) = verify_certified-quorum p c x v hx in
    let (dy, qy) = verify_certified-quorum p c y v hy in
    quorum_intersection c v (voters x.votes) (voters y.votes) dx dy qx qy

abbrev pub HasStake : Committee → PublicKey → Type 0
HasStake c n = 0 < stake c n

Fresh-insert_back :
    (name : PublicKey) (used ns : List PublicKey)
    → Set.contains name ns ≡ false
    → Fresh used ns
    → Fresh (Set.insert name used) ns
unfolding Set.contains
Fresh-insert_back name used [] h f = tt
Fresh-insert_back name used (n ∷ ns) h f =
    ground (arith, Fresh-insert_back name used ns, Set.contains-insert name n used)

check_votes_complete :
    (c : Committee) (votes : List (PublicKey × Signature)) (used : List PublicKey) (weight : Stake)
    → Distinct (voters votes)
    → Fresh used (voters votes)
    → All (HasStake c) (voters votes)
    → weight + votes_weight c (voters votes) < u32_mod
    → check_votes c votes used weight ≡ ok (weight + votes_weight c (voters votes))
unfolding check_votes votes_weight
check_votes_complete c [] used weight d f s b = ground arith
check_votes_complete c ((name, sig) ∷ votes) used weight d f s b = ground (
  arith,
  check_votes_complete c votes (Set.insert name used) (u32_add weight (stake c name)) d.1,
  Fresh-insert_back name used (voters votes) d.0 f.1,
)

-- The checks of a certificate pass if its header does, its voters are distinct authorities with stake
-- that together reach the quorum, and ed25519 accepts the signatures.
pub verify_certified_complete :
    (p : Primitives) (c : Committee) (x : Certificate)
    → IsValid c
    → verify_header p c x.header ≡ ok tt
    → Distinct (voters x.votes)
    → All (HasStake c) (voters x.votes)
    → quorum_threshold c ≤ votes_weight c (voters x.votes)
    → Crypto.verify_batch p (cert_digest p x) x.votes ≡ ok tt
    → verify_certified p c x ≡ ok tt
unfolding verify_certified
verify_certified_complete p c x v h d s q b =
    let w = votes_weight-le_total c v (voters x.votes) d in
    let e =
      check_votes_complete c x.votes [] 0 d (Fresh-nil (voters x.votes)) s
        (omega (arith, w, v.fits)) in
    ground (arith, e)
