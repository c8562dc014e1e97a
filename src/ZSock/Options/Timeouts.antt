-- ===== src/ZSock/Options/Timeouts.antt =====
-- The timeouts and the linger of a socket, when they are set and read back.
use rust_czmq.Prelude.{◌≡◌, ◌≢◌, arith, Option, none, some, false}
use rust_czmq.Ffi.Int.{int_eq_iff}
use rust_czmq.Ffi.{ℤ, minus_one, int_eq, Czmq, Machine, result_of, error_of, ask_int, ◌>>◌}
use rust_czmq.Ffi.Calls.{zsock_rcvtimeo, zsock_set_rcvtimeo, zsock_linger, zsock_set_linger}
use rust_czmq.ZSock.{ZSock, non_zero_error}
use rust_czmq.ZSock.Options.{
  timeout_c, timeout_of, set_rcvtimeo, rcvtimeo, set_linger, linger, number_option,
}

not_minus_one : (t : ℤ) → t ≢ minus_one → int_eq t minus_one ≡ false
not_minus_one t h = ground (arith, int_eq_iff t minus_one)

module _ (c : Czmq) (z : ZSock) (s : Machine c.World) where
  -- If CZMQ keeps the receive timeout that it is given, `rcvtimeo` reads back what `set_rcvtimeo`
  -- has set, for no timeout and for each timeout but `Some(-1)`.
  pub rcvtimeo-set_rcvtimeo :
      (timeout : Option ℤ)
      → timeout ≢ some minus_one
      → (c.int_call
          (zsock_rcvtimeo z.zsock)
          (c.void_call (zsock_set_rcvtimeo z.zsock (timeout_c timeout)) s.world)).0
        ≡ timeout_c timeout
      → result_of ((set_rcvtimeo c z timeout >> rcvtimeo c z) s) ≡ some timeout
  unfolding rcvtimeo set_rcvtimeo timeout_c timeout_of
  rcvtimeo-set_rcvtimeo none h kept = rw kept
  rcvtimeo-set_rcvtimeo (some t) h kept = rw (kept, not_minus_one t (λ e. h (rw e)))

  -- If CZMQ keeps the linger that it is given, `linger` reads back each number that `set_linger`
  -- has set but -1, for which it gives an error.
  pub linger-set_linger :
      (n : ℤ)
      → (c.int_call (zsock_linger z.zsock) (c.void_call (zsock_set_linger z.zsock n) s.world)).0 ≡ n
      → (n ≢ minus_one → result_of ((set_linger c z n >> linger c z) s) ≡ some n)
        × (n ≡ minus_one → error_of ((set_linger c z n >> linger c z) s) ≡ some non_zero_error)
  unfolding linger set_linger number_option ask_int
  linger-set_linger n kept = (λ h. rw (kept, not_minus_one n h), λ e. rw (kept, e))
