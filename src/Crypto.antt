-- ===== src/Crypto.antt =====
-- crypto/src/lib.rs: digests, signatures and their verification. SHA-512 and the ed25519 library are
-- parameters. A digest, a public key and each half of a signature is its 32 bytes read as a number.
pub mod Keys
use tusk_ubuntu.Prelude.{ℕ, Bool, List, [], ◌∷◌, ◌++◌, be_bytes32}
use tusk_ubuntu.Prelude.Result.{Result, ok, ensure, ◌>>=◌, ◌>>◌}
use tusk_ubuntu.Config.{PublicKey}

abbrev pub Digest : Type 0
Digest = ℕ

pub record Signature : Type 0 where
  pub part1 : ℕ
  pub part2 : ℕ

pub data CryptoError : Type 0 where
  invalid : CryptoError

-- What the code calls of SHA-512 (its first 32 bytes, as a number) and of ed25519_dalek.
pub record Primitives : Type 0 where
  pub sha512 : List ℕ → Digest
  pub signature_from_bytes : List ℕ → Bool
  pub key_from_bytes : List ℕ → Bool
  pub verify_strict : PublicKey → Digest → List ℕ → Bool
  pub dalek_verify_batch : Digest → List (PublicKey × List ℕ) → Bool
  pub sign : Digest → Signature

unfoldable pub flatten : Signature → List ℕ
unfolding be_bytes32
flatten s = be_bytes32 s.part1 ++ be_bytes32 s.part2

abbrev pub default_signature : Signature
default_signature = record { part1 = 0; part2 = 0 }

module _ (c : Primitives) where
  open c use {signature_from_bytes, key_from_bytes, verify_strict, dalek_verify_batch}

  unfoldable pub verify : Signature → Digest → PublicKey → Result CryptoError (Unit {0})
  unfolding flatten
  verify s digest key = do
    ensure (signature_from_bytes (flatten s)) invalid
    ensure (key_from_bytes (be_bytes32 key)) invalid
    ensure (verify_strict key digest (flatten s)) invalid

  -- The loop of `verify_batch`, which parses every signature and key.
  unfoldable pub parse_votes :
      List (PublicKey × Signature) → Result CryptoError (List (PublicKey × List ℕ))
  unfolding flatten
  parse_votes [] = ok []
  parse_votes ((key, s) ∷ votes) = do
    ensure (signature_from_bytes (flatten s)) invalid
    ensure (key_from_bytes (be_bytes32 key)) invalid
    rest ← parse_votes votes
    ok ((key, flatten s) ∷ rest)

  unfoldable pub verify_batch :
      Digest → List (PublicKey × Signature) → Result CryptoError (Unit {0})
  unfolding parse_votes
  verify_batch digest votes = do
    parsed ← parse_votes votes
    ensure (dalek_verify_batch digest parsed) invalid
