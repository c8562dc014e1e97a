-- ===== src/ZPoller/Timeouts.antt =====
-- The timeout of `wait`, which is a `u32` in Rust and an `int` in C.
use rust_czmq.Prelude.{
  ℕ, ◌-◌, ◌%◌, ◌^◌, ◌+◌, ◌<◌, ◌≤◌, ◌≡◌, ◌↔◌, ◌⊎◌, inl, inr, arith, none, some, ltb, Bool-cases,
}
use rust_czmq.Ffi.{pos, negsuc}
use rust_czmq.Ffi.Int.{u32_as_c_int}
use rust_czmq.ZPoller.{timeout_c}

-- Below 2^31 a timeout reaches C as it is. From there on C is given the negative number that is
-- 2^32 less, which for the largest timeout of all, and for no other, is the number that means no timeout.
pub timeout_c-u32 :
    (t : ℕ)
    → t < 2 ^ 32
    → (((t < 2 ^ 31) × (timeout_c (some t) ≡ pos t))
        ⊎ ((2 ^ 31 ≤ t) × ((n : ℕ) × (timeout_c (some t) ≡ negsuc n) × (t + (n + 1) ≡ 2 ^ 32))))
      × ((timeout_c (some t) ≡ timeout_c none) ↔ (t ≡ 2 ^ 32 - 1))
unfolding timeout_c u32_as_c_int
timeout_c-u32 t h =
    let e : t % 2 ^ 32 ≡ t = omega arith in
    (
      elim (Bool-cases (ltb t (2 ^ 31))) [
        | inl low ↦ inl (ground arith, rw (e, low))
        | inr high ↦ inr (ground arith, (2 ^ 32 - 1 - t, rw (e, high), omega arith))
      ],
      rw e (ground arith),
    )
