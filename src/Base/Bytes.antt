-- ===== src/Base/Bytes.antt =====
-- Little-endian numbers in byte buffers.
use Prim.Native.Nat.{ℕ, zero, suc, ◌+◌, ◌*◌, ◌/◌, ◌%◌, ◌^◌, ◌<◌}
use mathlib.Core.Path.{◌≡◌, refl, ap}
use mathlib.Core.List.{List, [], ◌∷◌, ◌++◌}
use m1switch.Base.Bits.{u32_mod}
use m1switch.Base.Lists.{length, drop}
use native.Mathlib.Nat.{pow-suc}
use native.Mathlib.Omega.{arith}

-- `memcpy` of the lowest `n` bytes of a number, and of `n` bytes into a number that was 0; a u8 is
-- a number taken modulo 256.
unfoldable pub to_bytes : ℕ → ℕ → List ℕ
to_bytes zero v = []
to_bytes (suc n) v = v % 256 ∷ to_bytes n (v / 256)

unfoldable pub of_bytes : ℕ → List ℕ → ℕ
of_bytes zero bytes = 0
of_bytes (suc n) [] = 0
of_bytes (suc n) (b ∷ bytes) = b % 256 + 256 * of_bytes n bytes

-- The u8 and the u32 at a byte offset.
unfoldable pub u8_at : ℕ → List ℕ → ℕ
unfolding of_bytes
u8_at off bytes = of_bytes 1 (drop off bytes)

unfoldable pub u32_at : ℕ → List ℕ → ℕ
unfolding of_bytes
u32_at off bytes = of_bytes 4 (drop off bytes)

pub length-to_bytes : (n v : ℕ) → length (to_bytes n v) ≡ n
unfolding to_bytes
length-to_bytes zero v = refl
length-to_bytes (suc n) v = ap suc (length-to_bytes n (v / 256))

pub of_bytes-lt : (n : ℕ) (bytes : List ℕ) → of_bytes n bytes < 256 ^ n
unfolding of_bytes
of_bytes-lt zero bytes = omega arith
of_bytes-lt (suc n) [] = omega (arith, pow-suc 256 n, of_bytes-lt n [])
of_bytes-lt (suc n) (b ∷ bytes) = omega (arith, pow-suc 256 n, of_bytes-lt n bytes)

pub u32_at-lt : (off : ℕ) (bytes : List ℕ) → u32_at off bytes < u32_mod
unfolding u32_at
u32_at-lt off bytes = of_bytes-lt 4 (drop off bytes)

-- Reading back what was written, with more behind it.
pub of_bytes-to_bytes :
    (n v : ℕ) (rest : List ℕ) → v < 256 ^ n → of_bytes n (to_bytes n v ++ rest) ≡ v
unfolding of_bytes to_bytes
of_bytes-to_bytes zero v rest h = omega arith
of_bytes-to_bytes (suc n) v rest h =
    omega (arith, pow-suc 256 n, of_bytes-to_bytes n (v / 256) rest (omega (arith, pow-suc 256 n)))
