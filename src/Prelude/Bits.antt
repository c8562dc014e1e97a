-- ===== src/Prelude/Bits.antt =====
-- `|` of disjoint bit fields and `&` with the mask of a byte, as arithmetic.
use Prim.Native.Nat.{
  ℕ, zero, suc, ◌+◌, ◌*◌, ◌/◌, ◌%◌, ◌^◌, ◌≤◌, ◌<◌, max, min, bit_and, bit_or, digits, bitwise,
}
use Prim.Native.Nat.{bit_and-bitwise, bit_or-bitwise}
use mathlib.Core.Path.{◌≡◌, refl, ap, ◌∙◌}
use native.Mathlib.Omega.{arith}
use native.Mathlib.Nat.{pow-suc, le_refl}

-- The operations are defined by a recursion on binary digits with fuel: more fuel changes nothing.
module _ (end : ℕ → ℕ) (op : ℕ → ℕ → ℕ) where
  enough_fuel : (k l x y : ℕ) → x ≤ k → x ≤ l → digits end op k x y ≡ digits end op l x y
  enough_fuel zero zero x y hk hl = refl
  enough_fuel zero (suc l) zero y hk hl = refl
  enough_fuel zero (suc l) (suc x) y hk hl = absurd (omega arith)
  enough_fuel (suc k) zero zero y hk hl = refl
  enough_fuel (suc k) zero (suc x) y hk hl = absurd (omega arith)
  enough_fuel (suc k) (suc l) zero y hk hl = refl
  enough_fuel (suc k) (suc l) (suc x) y hk hl =
      rw (enough_fuel k l (suc x / 2) (y / 2) (omega arith) (omega arith))

  lowest_digit :
      (x y : ℕ)
      → bitwise end op (suc x) y ≡ bitwise end op (suc x / 2) (y / 2) * 2 + op (suc x % 2) (y % 2)
  lowest_digit x y =
      omega (arith, enough_fuel x (suc x / 2) (suc x / 2) (y / 2) (omega arith) (le_refl _))

bit_or_digit : (x y : ℕ) → bit_or x y ≡ bit_or (x / 2) (y / 2) * 2 + max (x % 2) (y % 2)
bit_or_digit zero y = simp bit_or-bitwise (omega arith)
bit_or_digit (suc x) y = simp bit_or-bitwise (lowest_digit (λ d. d) max x y)

bit_and_digit : (x y : ℕ) → bit_and x y ≡ bit_and (x / 2) (y / 2) * 2 + min (x % 2) (y % 2)
bit_and_digit zero y = simp bit_and-bitwise (omega arith)
bit_and_digit (suc x) y = simp bit_and-bitwise (lowest_digit (λ d. 0) min x y)

-- Fuel bounds the number, so that both claims go by a plain induction.
bit_or-zero_below : (k x : ℕ) → x ≤ k → bit_or x 0 ≡ x
bit_or-zero_below k zero h = refl
bit_or-zero_below zero (suc x) h = absurd (omega arith)
bit_or-zero_below (suc k) (suc x) h =
    omega (arith, bit_or_digit (suc x) 0, bit_or-zero_below k (suc x / 2) (omega arith))

bit_and-zero_below : (k x : ℕ) → x ≤ k → bit_and x 0 ≡ 0
bit_and-zero_below k zero h = refl
bit_and-zero_below zero (suc x) h = absurd (omega arith)
bit_and-zero_below (suc k) (suc x) h =
    omega (arith, bit_and_digit (suc x) 0, bit_and-zero_below k (suc x / 2) (omega arith))

double_pow : (q k : ℕ) → q * 2 ^ suc k ≡ 2 * (q * 2 ^ k)
double_pow q k = omega (arith, ap (λ (t : ℕ). q * t) (pow-suc 2 k))

-- `(q << k) | r` is a sum where `r` fits below bit `k`.
pub bit_or-shifted : (k q r : ℕ) → r < 2 ^ k → bit_or (q * 2 ^ k) r ≡ q * 2 ^ k + r
bit_or-shifted zero q r h = ground (arith, bit_or-zero_below q q (le_refl q))
bit_or-shifted (suc k) q r h =
    ground (arith, bit_or_digit (q * 2 ^ suc k) r, double_pow q k, bit_or-shifted k q (r / 2))

-- A mask of ones takes the lowest digit and goes on with a mask one digit shorter.
low_ones : (x m n : ℕ) → m ≡ 2 * n + 1 → bit_and x m ≡ bit_and (x / 2) n * 2 + x % 2
low_ones x m n h =
    let half : m / 2 ≡ n = omega arith in
    let odd : m % 2 ≡ 1 = omega arith in bit_and_digit x m ∙ rw (half, odd) (omega arith)

-- `x & 0xff` keeps the lowest byte.
pub bit_and_byte : (x : ℕ) → bit_and x 0xff ≡ x % 256
bit_and_byte x = omega (
  arith,
  low_ones x 255 127 refl,
  low_ones (x / 2) 127 63 refl,
  low_ones (x / 2 / 2) 63 31 refl,
  low_ones (x / 2 / 2 / 2) 31 15 refl,
  low_ones (x / 2 / 2 / 2 / 2) 15 7 refl,
  low_ones (x / 2 / 2 / 2 / 2 / 2) 7 3 refl,
  low_ones (x / 2 / 2 / 2 / 2 / 2 / 2) 3 1 refl,
  low_ones (x / 2 / 2 / 2 / 2 / 2 / 2 / 2) 1 0 refl,
  bit_and-zero_below _ (x / 2 / 2 / 2 / 2 / 2 / 2 / 2 / 2) (le_refl _),
)
