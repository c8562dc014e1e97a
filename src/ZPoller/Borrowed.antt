-- ===== src/ZPoller/Borrowed.antt =====
-- The sockets that `wait` returns.
use rust_czmq.Prelude.{ℕ, ◌==◌, ◌≡◌, arith, Option, some, Bool-cases, inl, inr, false}
use rust_czmq.Ffi.{null, Czmq, Machine, result_of, done}
use rust_czmq.Ffi.Calls.{zpoller_wait}
use rust_czmq.ZPoller.{ZPoller, wait, timeout_c}
use rust_czmq.ZSock
use rust_czmq.ZSock.{ZSock, zsock_sockish}

not_owned-drop :
    (c : Czmq) (z : ZSock) (t : Machine c.World) → z.owned ≡ false → ZSock.drop c z t ≡ done tt t
unfolding ZSock.drop
not_owned-drop c z t h = rw h

module _ (c : Czmq) (p : ZPoller) (timeout : Option ℕ) (s t : Machine c.World) where
  -- To drop a socket that `wait` has returned calls nothing: the socket is not destroyed.
  pub wait-drop :
      (z : ZSock)
      → result_of (wait c ⦃k = zsock_sockish c⦄ p timeout s) ≡ some (some z)
      → ZSock.drop c z t ≡ done tt t
  unfolding wait zsock_sockish ZSock.from_raw
  wait-drop z h =
      elim (Bool-cases
        ((c.ptr_call (zpoller_wait p.zpoller (timeout_c timeout)) s.world).0 == null)) [
          | inl e ↦ absurd (ground (arith, rw e at h))
          | inr e ↦ not_owned-drop c z t (ground (arith, rw e at h))
        ]
