-- ===== src/ZSock/Constructors.antt =====
-- The constructors of a socket at an endpoint.
use rust_czmq.Prelude.{◌==◌, ◌≡◌, true, List, [], ◌∷◌, if◌then◌else◌, Bool-cases, inl, inr, All}
use rust_czmq.Rust.Text.{Bytes, has_nul, c_string}
use rust_czmq.Ffi.{
  null, Czmq, Event, Io, Machine, PtrCall, Run, done, failed, panicked, unwrap, ask_ptr,
}
use rust_czmq.Ffi.Calls.{
  zsock_new_pub, zsock_new_req, zsock_new_rep, zsock_new_dealer, zsock_new_router, zsock_new_push,
  zsock_new_pull, zsock_new_xpub, zsock_new_xsub, zsock_new_pair, zsock_new_stream,
}
use rust_czmq.ZSock.{
  ZSock, create_error, new_at, new_pub, new_req, new_rep, new_dealer, new_router, new_push,
  new_pull, new_xpub, new_xsub, new_pair, new_stream,
}

module _ (c : Czmq) where
  -- Each constructor, with the function that it calls.
  abbrev pub constructors : List ((Bytes → Io c.World ZSock) × (Bytes → PtrCall))
  constructors =
      (new_pub c, zsock_new_pub)
      ∷ (new_req c, zsock_new_req)
      ∷ (new_rep c, zsock_new_rep)
      ∷ (new_dealer c, zsock_new_dealer)
      ∷ (new_router c, zsock_new_router)
      ∷ (new_push c, zsock_new_push)
      ∷ (new_pull c, zsock_new_pull)
      ∷ (new_xpub c, zsock_new_xpub)
      ∷ (new_xsub c, zsock_new_xsub)
      ∷ (new_pair c, zsock_new_pair)
      ∷ (new_stream c, zsock_new_stream)
      ∷ []

  module _ (endpoint : Bytes) (s : Machine c.World) where
    -- What becomes of the pointer that the function returns.
    abbrev pub created : PtrCall → Run c.World ZSock
    created q =
        let (p, w) = c.ptr_call q s.world in
        let s' : Machine c.World = record { world = w; trace = Event.got_ptr q p ∷ s.trace } in
        if p == null then failed create_error s' else done (record { zsock = p; owned = true }) s'

    abbrev pub created_at : (Bytes → PtrCall) → Run c.World ZSock
    created_at maker = if has_nul endpoint then panicked s else created (maker endpoint)

    pub new_at_lem : (maker : Bytes → PtrCall) → new_at c maker endpoint s ≡ created_at maker
    unfolding new_at c_string ask_ptr
    new_at_lem maker = elim (Bool-cases (has_nul endpoint)) [
      | inl nul ↦ rw (nul, unwrap)
      | inr clean ↦ elim (Bool-cases ((c.ptr_call (maker endpoint) s.world).0 == null)) [
        | inl e ↦ rw (clean, unwrap, e)
        | inr e ↦ rw (clean, unwrap, e)
      ]
    ]

    -- Each constructor but `new` and `new_sub`: an endpoint with a NUL panics before any call; else
    -- the one call is made, NULL is an error, and any other pointer becomes an owned socket.
    pub constructors_lem :
        All
          (λ (constructor : (Bytes → Io c.World ZSock) × (Bytes → PtrCall)).
            constructor.0 endpoint s ≡ created_at constructor.1)
          constructors
    unfolding new_pub new_req new_rep new_dealer new_router new_push new_pull new_xpub new_xsub
        new_pair new_stream
    constructors_lem = (
      new_at_lem zsock_new_pub,
      (
        new_at_lem zsock_new_req,
        (
          new_at_lem zsock_new_rep,
          (
            new_at_lem zsock_new_dealer,
            (
              new_at_lem zsock_new_router,
              (
                new_at_lem zsock_new_push,
                (
                  new_at_lem zsock_new_pull,
                  (
                    new_at_lem zsock_new_xpub,
                    (
                      new_at_lem zsock_new_xsub,
                      (new_at_lem zsock_new_pair, (new_at_lem zsock_new_stream, tt)),
                    ),
                  ),
                ),
              ),
            ),
          ),
        ),
      ),
    )
