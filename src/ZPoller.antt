-- ===== src/ZPoller.antt =====
-- src/zpoller.rs: waiting for one of several sockets.
pub mod Timeouts
pub mod Borrowed
pub mod Readers
use rust_czmq.Prelude.{ℕ, ◌==◌, Bool, true, false, Option, none, some, if◌then◌else◌}
use rust_czmq.Error.{error, null_ptr, non_zero}
use rust_czmq.Error.Causes
use rust_czmq.Error.Causes.{ZPollerError}
use rust_czmq.Ffi.Int.{u32_as_c_int}
use rust_czmq.Ffi.{
  Ptr, null, ℤ, pos, minus_one, int_eq, flag, Czmq, Io, pure, fail, ◌>>=◌, ask_ptr, ask_int, tell,
}
use rust_czmq.Ffi.Calls.{
  zpoller_new, zpoller_add, zpoller_remove, zpoller_wait, zpoller_expired, zpoller_terminated,
  zpoller_set_nonstop, zpoller_destroy,
}
use rust_czmq.Raw.{Sockish}

pub record ZPoller : Type 0 where
  pub zpoller : Ptr

-- The timeout that C is given.
unfoldable pub timeout_c : Option ℕ → ℤ
timeout_c (some time) = u32_as_c_int time
timeout_c none = minus_one

module _ (c : Czmq) where
  open c use {World}

  -- `impl Drop`
  unfoldable pub drop : ZPoller → Io World (Unit {0})
  unfolding tell
  drop p = tell c (zpoller_destroy p.zpoller)

  unfoldable pub new : Io World ZPoller
  unfolding ask_ptr
  new = do
    zpoller ← ask_ptr c zpoller_new
    if zpoller == null
        then fail (error null_ptr (Causes.zpoller ZPollerError.instantiate))
        else pure (record { zpoller = zpoller })

  unfoldable pub add : {S : Type 0} → ⦃k : Sockish World S⦄ → ZPoller → S → Io World (Unit {0})
  unfolding ask_int
  add ⦃k⦄ p reader = do
    rc ← ask_int c (zpoller_add p.zpoller (k.as_mut_ptr reader))
    if int_eq rc minus_one
        then fail (error non_zero (Causes.zpoller ZPollerError.cmd_failed))
        else pure tt

  unfoldable pub remove : {S : Type 0} → ⦃k : Sockish World S⦄ → ZPoller → S → Io World (Unit {0})
  unfolding ask_int
  remove ⦃k⦄ p reader = do
    rc ← ask_int c (zpoller_remove p.zpoller (k.as_mut_ptr reader))
    if int_eq rc minus_one
        then fail (error non_zero (Causes.zpoller ZPollerError.cmd_failed))
        else pure tt

  -- The socket that is ready, not owned: its owner has it too.
  unfoldable pub wait :
      {S : Type 0} → ⦃k : Sockish World S⦄ → ZPoller → Option ℕ → Io World (Option S)
  unfolding ask_ptr timeout_c
  wait ⦃k⦄ p timeout = do
    ptr ← ask_ptr c (zpoller_wait p.zpoller (timeout_c timeout))
    if ptr == null then pure none else pure (some (k.from_raw ptr false))

  unfoldable pub expired : ZPoller → Io World Bool
  unfolding ask_int
  expired p = do result ← ask_int c (zpoller_expired p.zpoller); pure (int_eq result (pos 1))

  unfoldable pub terminated : ZPoller → Io World Bool
  unfolding ask_int
  terminated p = do result ← ask_int c (zpoller_terminated p.zpoller); pure (int_eq result (pos 1))

  unfoldable pub set_nonstop : ZPoller → Bool → Io World (Unit {0})
  unfolding tell
  set_nonstop p nonstop = tell c (zpoller_set_nonstop p.zpoller (flag nonstop))
