-- ===== src/Rust/Slice.antt =====
-- Indexing of slices: a range that leaves the slice is a panic, which `none` stands for.
use rust_czmq.Prelude.{
  ℕ, ◌+◌, ◌-◌, ◌≤◌, ◌≡◌, ◌∙◌, Option, none, some, ◌++◌, arith, leb, if◌then◌else◌, length, take,
  drop, length-append, take-append, drop-append,
}
use rust_czmq.Rust.Text.{Bytes}

-- `bytes[from..to]`
unfoldable pub slice : Bytes → ℕ → ℕ → Option Bytes
slice bytes from to =
    if leb from to
    then if leb to (length bytes) then some (take (to - from) (drop from bytes)) else none
    else none

pub slice_within :
    (bytes : Bytes) (from n : ℕ)
    → from + n ≤ length bytes
    → slice bytes from (from + n) ≡ some (take n (drop from bytes))
unfolding slice
slice_within bytes from n h = ground (arith, cancel from n)
  where
    cancel : (a b : ℕ) → a + b - a ≡ b
    cancel a b = omega arith

-- The part in the middle of three.
pub slice-append :
    (xs ys zs : Bytes) → slice (xs ++ (ys ++ zs)) (length xs) (length xs + length ys) ≡ some ys
slice-append xs ys zs =
    slice_within (xs ++ (ys ++ zs)) (length xs) (length ys)
      (omega (arith, length-append xs (ys ++ zs), length-append ys zs))
    ∙ rw (drop-append, take-append)
