-- ===== src/Store/Keys.antt =====
-- store/src/lib.rs: the keys that the tasks write under name one digest, or one digest and worker.
use tusk_ubuntu.Prelude.{
  ℕ, ◌^◌, ◌*◌, ◌+◌, ◌<◌, ◌≡◌, ◌∙◌, refl, sym, ap, List, [], ◌∷◌, ◌++◌, length, All, be_bytes32,
  le_bytes, of_le_bytes, of_le_bytes-le_bytes, arith, u32_mod,
}
use tusk_ubuntu.Config.{WorkerId}
use tusk_ubuntu.Crypto.{Digest}
use tusk_ubuntu.Crypto.Keys.{
  Byte, of_be_bytes, le_bytes-Byte, length-le_bytes, be_bytes32-Byte, length-be_bytes32,
  of_be_bytes-be_bytes32,
}
use tusk_ubuntu.Store.{bytes_key, digest_key, payload_key}

bytes_key-append : (k : ℕ) (xs ys : List ℕ) → bytes_key k (xs ++ ys) ≡ bytes_key (bytes_key k xs) ys
unfolding bytes_key
bytes_key-append k [] ys = refl
bytes_key-append k (x ∷ xs) ys = bytes_key-append (k * 256 + x) xs ys

bytes_key-injective :
    (a b : ℕ) (xs ys : List ℕ)
    → length xs ≡ length ys
    → All Byte xs
    → All Byte ys
    → bytes_key a xs ≡ bytes_key b ys
    → (a ≡ b) × (xs ≡ ys)
unfolding bytes_key
bytes_key-injective a b [] [] n p q e = (e, refl)
bytes_key-injective a b [] (y ∷ ys) n p q e = absurd (omega (arith, n))
bytes_key-injective a b (x ∷ xs) [] n p q e = absurd (omega (arith, n))
bytes_key-injective a b (x ∷ xs) (y ∷ ys) n p q e =
    let (k, t) =
      bytes_key-injective (a * 256 + x) (b * 256 + y) xs ys (omega (arith, n)) p.1 q.1 e in
    let x≡y : x ≡ y = omega (arith, k, p.0, q.0) in (omega (arith, k, p.0, q.0), rw (x≡y, t) refl)

be_bytes32-injective :
    (d e : Digest) → d < 256 ^ 32 → e < 256 ^ 32 → be_bytes32 d ≡ be_bytes32 e → d ≡ e
be_bytes32-injective d e p q h =
    sym (of_be_bytes-be_bytes32 d p) ∙ ap of_be_bytes h ∙ of_be_bytes-be_bytes32 e q

pub digest_key-injective :
    (d e : Digest) → d < 256 ^ 32 → e < 256 ^ 32 → digest_key d ≡ digest_key e → d ≡ e
unfolding digest_key
digest_key-injective d e p q h =
    let n = length-be_bytes32 d ∙ sym (length-be_bytes32 e) in
    be_bytes32-injective d e p q
      (bytes_key-injective 1 1 (be_bytes32 d) (be_bytes32 e) n (be_bytes32-Byte d)
        (be_bytes32-Byte e) h).1

pub payload_key-injective :
    (d e : Digest) (v w : WorkerId)
    → d < 256 ^ 32
    → e < 256 ^ 32
    → v < u32_mod
    → w < u32_mod
    → payload_key d v ≡ payload_key e w
    → (d ≡ e) × (v ≡ w)
unfolding payload_key digest_key
payload_key-injective d e v w p q r s h =
    let split =
      sym (bytes_key-append 1 (be_bytes32 d) (le_bytes 4 v))
      ∙ h
      ∙ bytes_key-append 1 (be_bytes32 e) (le_bytes 4 w) in
    let (f, g) =
      bytes_key-injective (bytes_key 1 (be_bytes32 d)) (bytes_key 1 (be_bytes32 e)) (le_bytes 4 v)
        (le_bytes 4 w) (length-le_bytes 4 v ∙ sym (length-le_bytes 4 w)) (le_bytes-Byte 4 v)
        (le_bytes-Byte 4 w) split in
    (
      digest_key-injective d e p q f,
      sym (of_le_bytes-le_bytes 4 v (omega (arith, r)))
          ∙ ap of_le_bytes g
          ∙ of_le_bytes-le_bytes 4 w (omega (arith, s)),
    )
