-- ===== src/Prelude/Words.antt =====
-- Arithmetic of `u16`, of `u32`, and of `u64` and the 64-bit `usize`, in the release profile: it wraps.
use Prim.Native.Nat.{ℕ, zero, suc, ◌+◌, ◌-◌, ◌*◌, ◌/◌, ◌%◌, ◌^◌, ◌<◌}
use mathlib.Core.Path.{◌≡◌}
use native.Mathlib.Omega.{arith}
use mathlib.Core.List.{List, [], ◌∷◌, reverse}

abbrev pub u16_mod : ℕ
u16_mod = 65_536

abbrev pub u16_add : ℕ → ℕ → ℕ
u16_add a b = (a + b) % u16_mod

abbrev pub u32_mod : ℕ
u32_mod = 4_294_967_296

abbrev pub u64_mod : ℕ
u64_mod = 18_446_744_073_709_551_616

abbrev pub u32_add : ℕ → ℕ → ℕ
u32_add a b = (a + b) % u32_mod

abbrev pub u32_mul : ℕ → ℕ → ℕ
u32_mul a b = (a * b) % u32_mod

abbrev pub u64_add : ℕ → ℕ → ℕ
u64_add a b = (a + b) % u64_mod

abbrev pub u64_mul : ℕ → ℕ → ℕ
u64_mul a b = (a * b) % u64_mod

-- `a - b` for values below the modulus.
abbrev pub u64_sub : ℕ → ℕ → ℕ
u64_sub a b = (a + u64_mod - b) % u64_mod

-- `to_le_bytes` of a word of `w` bytes.
unfoldable pub le_bytes : ℕ → ℕ → List ℕ
le_bytes zero n = []
le_bytes (suc w) n = (n % 256) ∷ le_bytes w (n / 256)

-- The 32 bytes of a key or a digest, which is read as a big-endian number.
unfoldable pub be_bytes32 : ℕ → List ℕ
unfolding le_bytes
be_bytes32 n = reverse (le_bytes 32 n)

-- What bytes stand for, from the last to the first.
unfoldable pub of_le_bytes : List ℕ → ℕ
of_le_bytes [] = 0
of_le_bytes (b ∷ bs) = b + 256 * of_le_bytes bs

pub of_le_bytes-le_bytes : (w n : ℕ) → n < 256 ^ w → of_le_bytes (le_bytes w n) ≡ n
unfolding of_le_bytes le_bytes
of_le_bytes-le_bytes zero n h = omega arith
of_le_bytes-le_bytes (suc w) n h =
    let ih = of_le_bytes-le_bytes w (n / 256) (omega arith) in omega (arith, ih)
