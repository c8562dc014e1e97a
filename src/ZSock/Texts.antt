-- ===== src/ZSock/Texts.antt =====
-- The texts that a socket's operations hand to C.
use rust_czmq.Prelude.{◌≡◌, refl, arith, Bool-cases, inl, inr, false, [], ◌∷◌, ◌++◌, if◌then◌else◌}
use rust_czmq.Rust.Text.{Bytes, has_nul, until_nul}
use rust_czmq.Error.{from_nul_error}
use rust_czmq.Ffi.{
  minus_one, int_eq, Czmq, Event, Machine, Run, done, failed, try_c_string_nul, try_c_string_eq,
  raw_text,
}
use rust_czmq.Ffi.Calls.{IntCall, zsock_connect, zsock_unbind, zsock_disconnect}
use rust_czmq.ZSock.{ZSock, non_zero_error, connect, unbind, disconnect}

-- C reads a text that has no terminator to the first NUL in the memory behind it.
pub until_nul-append :
    (s behind : Bytes) → has_nul s ≡ false → until_nul (s ++ behind) ≡ s ++ until_nul behind
unfolding until_nul has_nul
until_nul-append [] behind h = refl
until_nul-append (b ∷ s) behind h = ground (arith, until_nul-append s behind)

module _ (c : Czmq) (s : Machine c.World) where
  -- The machine after one call that returns a code.
  abbrev pub after_int : IntCall → Machine c.World
  after_int q = record {
    world = (c.int_call q s.world).1;
    trace = Event.got_int q (c.int_call q s.world).0 ∷ s.trace;
  }

  -- The end of a function that returns unit unless the code is -1.
  abbrev pub checked : IntCall → Run c.World (Unit {0})
  checked q =
      if int_eq (c.int_call q s.world).0 minus_one
      then failed non_zero_error (after_int q)
      else done tt (after_int q)

module _ (c : Czmq) (z : ZSock) (endpoint : Bytes) (s : Machine c.World) where
  -- `connect` passes an endpoint without NUL to `zsock_connect` as it is, and gives an error if
  -- the code is -1; on an endpoint with a NUL it gives the conversion error and calls nothing.
  pub connect_lem : connect c z endpoint s ≡ (
      if has_nul endpoint
      then failed (from_nul_error endpoint) s
      else checked c s (zsock_connect z.zsock endpoint))
  unfolding connect
  connect_lem = elim (Bool-cases (has_nul endpoint)) [
    | inl h ↦ rw (h, try_c_string_nul endpoint s h)
    | inr h ↦
        elim (Bool-cases
          (int_eq (c.int_call (zsock_connect z.zsock endpoint) s.world).0 minus_one)) [
            | inl e ↦ rw (h, try_c_string_eq endpoint s h, e)
            | inr e ↦ rw (h, try_c_string_eq endpoint s h, e)
          ]
  ]

  -- `disconnect` passes an endpoint without NUL with all bytes of the memory behind it up to the
  -- first NUL, and gives an error if the code is -1.
  pub disconnect_lem :
      has_nul endpoint ≡ false
      → disconnect c z endpoint s
        ≡ checked c s (zsock_disconnect z.zsock (endpoint ++ until_nul (c.beyond s.world endpoint)))
  unfolding disconnect raw_text
  disconnect_lem h =
      let seen = endpoint ++ until_nul (c.beyond s.world endpoint) in
      rw (until_nul-append endpoint (c.beyond s.world endpoint) h)
        (elim (Bool-cases
          (int_eq (c.int_call (zsock_disconnect z.zsock seen) s.world).0 minus_one)) [
            | inl e ↦ rw e
            | inr e ↦ rw e
          ])

  -- `unbind` passes an endpoint without NUL with all bytes of the memory behind it up to the first
  -- NUL, and gives an error if the code is -1.
  pub unbind_lem :
      has_nul endpoint ≡ false
      → unbind c z endpoint s
        ≡ checked c s (zsock_unbind z.zsock (endpoint ++ until_nul (c.beyond s.world endpoint)))
  unfolding unbind raw_text
  unbind_lem h =
      let seen = endpoint ++ until_nul (c.beyond s.world endpoint) in
      rw (until_nul-append endpoint (c.beyond s.world endpoint) h)
        (elim (Bool-cases (int_eq (c.int_call (zsock_unbind z.zsock seen) s.world).0 minus_one)) [
          | inl e ↦ rw e
          | inr e ↦ rw e
        ])

  -- `unbind` and `disconnect` pass an endpoint without NUL with all bytes of the memory behind it up
  -- to the first NUL, and give an error if the code is -1.
  pub detach_lem :
      has_nul endpoint ≡ false
      → (unbind c z endpoint s
          ≡ checked c s (zsock_unbind z.zsock (endpoint ++ until_nul (c.beyond s.world endpoint))))
        × (disconnect c z endpoint s
            ≡ checked c s
                (zsock_disconnect z.zsock (endpoint ++ until_nul (c.beyond s.world endpoint))))
  detach_lem h = (unbind_lem h, disconnect_lem h)
