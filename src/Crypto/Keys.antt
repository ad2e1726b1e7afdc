-- ===== src/Crypto/Keys.antt =====
-- crypto/src/lib.rs: the base64 form of keys. The base64 library is a parameter; a public key is its 32
-- bytes read as a number, a secret key is its 64 bytes, and a string is the list of its characters.
-- Slicing past the end of the bytes panics.
use tusk_ubuntu.Prelude.{
  ℕ, zero, suc, ◌/◌, All, All-append, length-append, ◌^◌, ◌<◌, ◌≡◌, ◌∙◌, refl, ap, List, [], ◌∷◌,
  take, length, leb, if◌then◌else◌, be_bytes32, le_bytes, of_le_bytes, of_le_bytes-le_bytes, arith,
}
use mathlib.Core.List.{reverse, reverse-cons, reverse-reverse}
use tusk_ubuntu.Prelude.Result.{Result, ok, err}
use tusk_ubuntu.Prelude.Outcome.{Outcome, returned, panicked, exhausted, ◌>>=◌}
use tusk_ubuntu.Config.{PublicKey}

abbrev pub Text : Type 0
Text = List ℕ

abbrev pub SecretKey : Type 0
SecretKey = List ℕ

pub data DecodeError : Type 0 where
  malformed : DecodeError

-- What the code calls of the base64 library.
pub record Base64 : Type 0 where
  pub encode : List ℕ → Text
  pub decode : Text → Result DecodeError (List ℕ)

-- The number that 32 bytes stand for.
unfoldable pub of_be_bytes : List ℕ → ℕ
unfolding of_le_bytes
of_be_bytes bytes = of_le_bytes (reverse bytes)

-- `bytes[..n]`
unfoldable pub slice_to : ℕ → List ℕ → Outcome (List ℕ)
slice_to n bytes = if leb n (length bytes) then returned (take n bytes) else panicked

-- The slice has the length of the array, so `try_into` succeeds.
unfoldable pub array_from {ℓ} :
    {A : Type ℓ} → ℕ → (List ℕ → A) → Result DecodeError (List ℕ) → Outcome (Result DecodeError A)
unfolding slice_to
array_from n read (ok bytes) = slice_to n bytes >>= λ array. returned (ok (read array))
array_from n read (err e) = returned (err e)

-- `map_err(|e| de::Error::custom(e.to_string()))`, where `report` prints the error.
abbrev pub custom {ℓ} :
    {A : Type ℓ} → (DecodeError → Text) → Outcome (Result DecodeError A) → Outcome (Result Text A)
custom report (returned (ok a)) = returned (ok a)
custom report (returned (err e)) = returned (err (report e))
custom report panicked = panicked
custom report exhausted = exhausted

module _ (base64 : Base64) where
  unfoldable pub encode_base64 : PublicKey → Text
  unfolding be_bytes32
  encode_base64 key = base64.encode (be_bytes32 key)

  unfoldable pub decode_base64 : Text → Outcome (Result DecodeError PublicKey)
  unfolding array_from of_be_bytes
  decode_base64 s = array_from 32 of_be_bytes (base64.decode s)

  -- What a serializer is given, and what is made of the string that a deserializer has read.
  unfoldable pub serialize : PublicKey → Text
  unfolding encode_base64
  serialize key = encode_base64 key

  unfoldable pub deserialize : (DecodeError → Text) → Text → Outcome (Result Text PublicKey)
  unfolding decode_base64
  deserialize report s = custom report (decode_base64 s)

  unfoldable pub encode_secret : SecretKey → Text
  encode_secret secret = base64.encode secret

  unfoldable pub decode_secret : Text → Outcome (Result DecodeError SecretKey)
  unfolding array_from
  decode_secret s = array_from 64 (λ bytes. bytes) (base64.decode s)

pub length-le_bytes : (w n : ℕ) → length (le_bytes w n) ≡ w
unfolding le_bytes
length-le_bytes zero n = refl
length-le_bytes (suc w) n = ap suc (length-le_bytes w (n / 256))

abbrev pub Byte : ℕ → Type 0
Byte b = b < 256

pub le_bytes-Byte : (w n : ℕ) → All Byte (le_bytes w n)
unfolding le_bytes
le_bytes-Byte zero n = tt
le_bytes-Byte (suc w) n = (omega arith, le_bytes-Byte w (n / 256))

All-reverse : (bytes : List ℕ) → All Byte bytes → All Byte (reverse bytes)
All-reverse [] a = tt
All-reverse (b ∷ bytes) a =
    rw (reverse-cons b bytes)
      (All-append Byte (reverse bytes) (b ∷ []) (All-reverse bytes a.1) (a.0, tt))

length-reverse : (bytes : List ℕ) → length (reverse bytes) ≡ length bytes
length-reverse [] = refl
length-reverse (b ∷ bytes) =
    rw (reverse-cons b bytes, length-append (reverse bytes) (b ∷ []))
      (omega (arith, length-reverse bytes))

take-all : (bytes : List ℕ) → take (length bytes) bytes ≡ bytes
take-all [] = refl
take-all (b ∷ bytes) = ap (◌∷◌ b) (take-all bytes)

-- An array of the right length is read back.
array_from-exact {ℓ} :
    {A : Type ℓ} (n : ℕ) (read : List ℕ → A) (bytes : List ℕ)
    → length bytes ≡ n
    → array_from n read (ok bytes) ≡ returned (ok (read bytes))
unfolding array_from
array_from-exact n read bytes e = rw (← e, take-all bytes) (ground arith)

pub length-be_bytes32 : (n : ℕ) → length (be_bytes32 n) ≡ 32
unfolding be_bytes32
length-be_bytes32 n = length-reverse (le_bytes 32 n) ∙ length-le_bytes 32 n

pub be_bytes32-Byte : (n : ℕ) → All Byte (be_bytes32 n)
unfolding be_bytes32
be_bytes32-Byte n = All-reverse (le_bytes 32 n) (le_bytes-Byte 32 n)

pub of_be_bytes-be_bytes32 : (n : ℕ) → n < 256 ^ 32 → of_be_bytes (be_bytes32 n) ≡ n
unfolding of_be_bytes be_bytes32
of_be_bytes-be_bytes32 n b =
    ap of_le_bytes (reverse-reverse (le_bytes 32 n)) ∙ of_le_bytes-le_bytes 32 n b

-- If base64 decodes what it encoded of any bytes, then a public key of 32 bytes and a secret key of 64
-- are read back from their base64 forms, and a public key is deserialized from what it was serialized to.
pub decode_base64-encode_base64 :
    (base64 : Base64)
    → ((bytes : List ℕ) → All Byte bytes → base64.decode (base64.encode bytes) ≡ ok bytes)
    → (key : PublicKey) → key < 256 ^ 32
    → (secret : SecretKey) → length secret ≡ 64
    → All Byte secret
    → (report : DecodeError → Text)
    → (decode_base64 base64 (encode_base64 base64 key) ≡ returned (ok key))
      × (decode_secret base64 (encode_secret base64 secret) ≡ returned (ok secret))
      × (deserialize base64 report (serialize base64 key) ≡ returned (ok key))
unfolding decode_base64 encode_base64 decode_secret encode_secret serialize deserialize
decode_base64-encode_base64 base64 decodes key b secret n s report =
    let decoded = decodes (be_bytes32 key) (be_bytes32-Byte key) in
    let back : decode_base64 base64 (encode_base64 base64 key) ≡ returned (ok key) =
      ap (array_from 32 of_be_bytes) decoded
      ∙ array_from-exact 32 of_be_bytes (be_bytes32 key) (length-be_bytes32 key)
      ∙ ap (λ k. returned (ok k)) (of_be_bytes-be_bytes32 key b) in
    (
      back,
      ap (array_from 64 (λ bytes. bytes)) (decodes secret s)
          ∙ array_from-exact 64 (λ bytes. bytes) secret n,
      ap (custom report) back,
    )
