-- ===== src/Ffi/Int.antt =====
-- The C integers that cross the interface, and their conversions.
use rust_czmq.Prelude.{
  ℕ, ◌-◌, ◌%◌, ◌^◌, ◌≡◌, ◌↔◌, refl, Bool, true, false, arith, ltb, ◌==◌, if◌then◌else◌,
}

-- `negsuc n` is -(n + 1).
pub data ℤ : Type 0 where
  pos : ℕ → ℤ
  negsuc : ℕ → ℤ

-- The code by which C functions report a failure.
abbrev pub minus_one : ℤ
minus_one = negsuc 0

abbrev pub int_eq : ℤ → ℤ → Bool
int_eq (pos m) (pos n) = m == n
int_eq (pos m) (negsuc n) = false
int_eq (negsuc m) (pos n) = false
int_eq (negsuc m) (negsuc n) = m == n

pub int_eq_iff : (a b : ℤ) → (int_eq a b ≡ true) ↔ (a ≡ b)
int_eq_iff (pos m) (pos n) = ground arith
int_eq_iff _ _ = ground arith

-- `if b { 1 } else { 0 }`
abbrev pub flag : Bool → ℤ
flag b = if b then pos 1 else pos 0

-- `n as c_int` for a `u32` n: the same 32 bits, read as two's complement.
unfoldable pub u32_as_c_int : ℕ → ℤ
u32_as_c_int n =
    let bits = n % 2 ^ 32 in if ltb bits (2 ^ 31) then pos bits else negsuc (2 ^ 32 - 1 - bits)

-- `n as u8` for an `i32` n: the lowest eight bits.
unfoldable pub int_as_u8 : ℤ → ℕ
int_as_u8 (pos n) = n % 256
int_as_u8 (negsuc n) = 255 - n % 256

u32_as_c_int_max : u32_as_c_int 0xffff_ffff ≡ minus_one
unfolding u32_as_c_int
u32_as_c_int_max = refl
