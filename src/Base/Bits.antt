-- ===== src/Base/Bits.antt =====
-- Bit fields of machine words: `(v >> lo) & (2^n - 1)` as arithmetic, and `|` of disjoint fields.
use Prim.Native.Nat.{
  ℕ, zero, suc, ◌+◌, ◌-◌, ◌*◌, ◌/◌, ◌%◌, ◌^◌, ◌≤◌, ◌<◌, max, min, bit_and, bit_or, digits,
  bit_and-bitwise, bit_or-bitwise,
}
use mathlib.Core.Path.{◌≡◌, refl, ap, ◌∙◌, sym}
use native.Mathlib.Nat.{pow-suc, mod-eq_of_lt, mod-lt, div-add-mod', mul-add-mod_self_right}
use native.Mathlib.Omega.{arith}

abbrev pub u32_mod : ℕ
u32_mod = 0x1_0000_0000

abbrev pub u64_mod : ℕ
u64_mod = 0x1_0000_0000_0000_0000

-- `x | y` digit by digit, at most `fuel` digits of `x`.
abbrev join : ℕ → ℕ → ℕ → ℕ
join fuel x y = digits (λ rest. rest) max fuel x y

-- A unit of fuel past the value of `x` is not used.
join-suc : (fuel x y : ℕ) → x ≤ fuel → join fuel x y ≡ join (suc fuel) x y
join-suc zero zero y enough = refl
join-suc zero (suc x) y enough = absurd (omega arith)
join-suc (suc fuel) zero y enough = refl
join-suc (suc fuel) (suc x) y enough =
    ap (λ (t : ℕ). t * 2 + max (suc x % 2) (y % 2))
      (join-suc fuel (suc x / 2) (y / 2) (omega arith))

fuel-cong : (m n x y : ℕ) → m ≡ n → join m x y ≡ join n x y
fuel-cong m n x y e = ap (λ (t : ℕ). join t x y) e

join-spare : (spare fuel x y : ℕ) → x ≤ fuel → join fuel x y ≡ join (spare + fuel) x y
join-spare zero fuel x y enough = fuel-cong fuel (0 + fuel) x y (omega arith)
join-spare (suc spare) fuel x y enough =
    join-spare spare fuel x y enough
    ∙ join-suc (spare + fuel) x y (omega arith)
    ∙ fuel-cong (suc (spare + fuel)) (suc spare + fuel) x y (omega arith)

zero-bit_or : (y : ℕ) → bit_or 0 y ≡ y
zero-bit_or y = bit_or-bitwise 0 y

half-join : (x y : ℕ) → join x (suc x / 2) y ≡ bit_or (suc x / 2) y
half-join x y = sym (
    bit_or-bitwise (suc x / 2) y
    ∙ join-spare (x - suc x / 2) (suc x / 2) (suc x / 2) y (omega arith)
    ∙ fuel-cong (x - suc x / 2 + suc x / 2) x (suc x / 2) y (omega arith))

pub bit_or_step : (x y : ℕ) → bit_or x y ≡ bit_or (x / 2) (y / 2) * 2 + max (x % 2) (y % 2)
bit_or_step zero y = omega (arith, zero-bit_or (y / 2), zero-bit_or y)
bit_or_step (suc x) y =
    bit_or-bitwise (suc x) y ∙ ap (λ (t : ℕ). t * 2 + max (suc x % 2) (y % 2)) (half-join x (y / 2))

-- `low | (high << k)` is a sum when `low` fits in `k` bits.
pub bit_or_fields : (k low high : ℕ) → low < 2 ^ k → bit_or low (high * 2 ^ k) ≡ high * 2 ^ k + low
bit_or_fields zero zero high h = rw (zero-bit_or (high * 2 ^ 0)) (omega arith)
bit_or_fields zero (suc low) high h = absurd (omega arith)
bit_or_fields (suc k) low high h = ground (
  arith,
  bit_or_step low (high * 2 ^ suc k),
  ap (λ (t : ℕ). high * t) (pow-suc 2 k),
  pow-suc 2 k,
  bit_or_fields k (low / 2) high (omega (arith, pow-suc 2 k)),
)

-- `x & y` digit by digit, at most `fuel` digits of `x`.
abbrev meet : ℕ → ℕ → ℕ → ℕ
meet fuel x y = digits (λ rest. zero) min fuel x y

meet-le : (fuel x y : ℕ) → meet fuel x y ≤ y
meet-le zero x y = omega arith
meet-le (suc fuel) zero y = omega arith
meet-le (suc fuel) (suc x) y = omega (arith, meet-le fuel (suc x / 2) (y / 2))

pub bit_and-le : (x y : ℕ) → bit_and x y ≤ y
bit_and-le x y = omega (arith, bit_and-bitwise x y, meet-le x x y)

regroup : (q p r b : ℕ) → (q * p + r) * 2 + b ≡ q * (p * 2) + (r * 2 + b)
regroup q p r b = ground arith

double-mod : (a b p : ℕ) → b < 2 → 0 < p → (a * 2 + b) % (p * 2) ≡ a % p * 2 + b
double-mod a b p h pos =
    ap (λ (t : ℕ). (t * 2 + b) % (p * 2)) (sym (div-add-mod' a p))
    ∙ ap (λ (t : ℕ). t % (p * 2)) (regroup (a / p) p (a % p) b)
    ∙ mul-add-mod_self_right (a / p) (p * 2) (a % p * 2 + b)
    ∙ mod-eq_of_lt (omega (arith, mod-lt a pos))

pow-pos : (k : ℕ) → 0 < 2 ^ k
pow-pos zero = omega arith
pow-pos (suc k) = omega (arith, pow-suc 2 k, pow-pos k)

-- The lowest `suc j` bits, from the lowest one and `j` of the half.
mod-pow_suc : (j x : ℕ) → x % 2 ^ suc j ≡ x / 2 % 2 ^ j * 2 + x % 2
mod-pow_suc j x =
    ap (λ (t : ℕ). x % t) (pow-suc 2 j)
    ∙ ap (λ (t : ℕ). t % (2 ^ j * 2)) (sym (div-add-mod' x 2))
    ∙ double-mod (x / 2) (x % 2) (2 ^ j) (omega arith) (pow-pos j)

meet-low : (j fuel x y : ℕ) → x ≤ fuel → y % 2 ^ j ≡ 2 ^ j - 1 → meet fuel x y % 2 ^ j ≡ x % 2 ^ j
meet-low zero fuel x y enough ones = omega arith
meet-low (suc j) zero zero y enough ones = refl
meet-low (suc j) zero (suc x) y enough ones = absurd (omega arith)
meet-low (suc j) (suc fuel) zero y enough ones = refl
meet-low (suc j) (suc fuel) (suc x) y enough ones =
    let facts : (y / 2 % 2 ^ j ≡ 2 ^ j - 1) × (y % 2 ≡ 1) = (
      omega (arith, mod-pow_suc j y, pow-suc 2 j, pow-pos j),
      omega (arith, mod-pow_suc j y, pow-suc 2 j, pow-pos j),
    ) in
    let half : meet fuel (suc x / 2) (y / 2) % 2 ^ j ≡ suc x / 2 % 2 ^ j =
      meet-low j fuel (suc x / 2) (y / 2) (omega arith) facts.0 in
    ap (λ (t : ℕ). (meet fuel (suc x / 2) (y / 2) * 2 + t) % 2 ^ suc j) (omega (arith, facts.1))
    ∙ ap (λ (t : ℕ). (meet fuel (suc x / 2) (y / 2) * 2 + suc x % 2) % t) (pow-suc 2 j)
    ∙ double-mod (meet fuel (suc x / 2) (y / 2)) (suc x % 2) (2 ^ j) (omega arith) (pow-pos j)
    ∙ ap (λ (t : ℕ). t * 2 + suc x % 2) half
    ∙ sym (mod-pow_suc j (suc x))

-- Where the lowest `j` bits of `y` are all set, `x & y` has those of `x`.
pub bit_and-low : (j x y : ℕ) → y % 2 ^ j ≡ 2 ^ j - 1 → bit_and x y % 2 ^ j ≡ x % 2 ^ j
bit_and-low j x y ones =
    ap (λ (t : ℕ). t % 2 ^ j) (bit_and-bitwise x y) ∙ meet-low j x x y (omega arith) ones
