-- ===== src/ZSock/Options/Codes.antt =====
-- The codes of mechanisms and socket types, on every integer that C can return.
use rust_czmq.Prelude.{ℕ, ◌≡◌, ◌≢◌, arith, false, ◌∷◌}
use rust_czmq.Ffi.Int.{int_eq_iff}
use rust_czmq.Ffi.{ℤ, pos, minus_one, int_eq, Czmq, Event, Machine, done, failed, panicked}
use rust_czmq.Ffi.Calls.{zsock_mechanism, zsock_type}
use rust_czmq.ZSock.{ZSock, non_zero_error}
use rust_czmq.ZSock.Options.{
  Mechanism, SocketType, zsock_type_of, mechanism, mechanism_of, socket_type_of,
}

-- The numbers of zmq.h.
abbrev pub mechanism_code : Mechanism → ℕ
mechanism_code Mechanism.zmq_null = 0
mechanism_code Mechanism.zmq_plain = 1
mechanism_code Mechanism.zmq_curve = 2
mechanism_code Mechanism.zmq_gssapi = 3

abbrev pub type_code : SocketType → ℕ
type_code SocketType.pair = 0
type_code SocketType.pub_type = 1
type_code SocketType.sub = 2
type_code SocketType.req = 3
type_code SocketType.rep = 4
type_code SocketType.dealer = 5
type_code SocketType.router = 6
type_code SocketType.pull = 7
type_code SocketType.push = 8
type_code SocketType.xpub = 9
type_code SocketType.xsub = 10

differs : (n : ℤ) (k : ℕ) → n ≢ pos k → int_eq n (pos k) ≡ false
differs n k h = ground (arith, int_eq_iff n (pos k))

unknown_type :
    {W : Type 0} (n : ℤ) (s : Machine W)
    → ((t : SocketType) → n ≢ pos (type_code t))
    → socket_type_of n s ≡ panicked s
unknown_type n s h = rw (
  differs n 0 (h SocketType.pair),
  differs n 1 (h SocketType.pub_type),
  differs n 2 (h SocketType.sub),
  differs n 3 (h SocketType.req),
  differs n 4 (h SocketType.rep),
  differs n 5 (h SocketType.dealer),
  differs n 6 (h SocketType.router),
  differs n 7 (h SocketType.pull),
  differs n 8 (h SocketType.push),
  differs n 9 (h SocketType.xpub),
  differs n 10 (h SocketType.xsub),
)

unknown_mechanism :
    {W : Type 0} (n : ℤ) (s : Machine W)
    → ((k : Mechanism) → n ≢ pos (mechanism_code k))
    → mechanism_of n s ≡ panicked s
unknown_mechanism n s h = rw (
  differs n 0 (h Mechanism.zmq_null),
  differs n 1 (h Mechanism.zmq_plain),
  differs n 2 (h Mechanism.zmq_curve),
  differs n 3 (h Mechanism.zmq_gssapi),
)

module _ (c : Czmq) (z : ZSock) (s : Machine c.World) where
  abbrev replied : Event → c.World → Machine c.World
  replied e w = record { world = w; trace = e ∷ s.trace }

  abbrev pub mechanism_reply : ℤ × c.World
  mechanism_reply = c.int_call (zsock_mechanism z.zsock) s.world

  abbrev after_mechanism : Machine c.World
  after_mechanism =
      replied (Event.got_int (zsock_mechanism z.zsock) mechanism_reply.0) mechanism_reply.1

  abbrev pub type_reply : ℤ × c.World
  type_reply = c.int_call (zsock_type z.zsock) s.world

  abbrev after_type : Machine c.World
  after_type = replied (Event.got_int (zsock_type z.zsock) type_reply.0) type_reply.1

  -- On the number that zmq.h gives one of the eleven socket types from PAIR to XSUB, `zsock_type`
  -- returns that type.
  pub zsock_type_of-type_code :
      (t : SocketType) → type_reply.0 ≡ pos (type_code t) → zsock_type_of c z s ≡ done t after_type
  unfolding zsock_type_of
  zsock_type_of-type_code SocketType.pair h = rw h
  zsock_type_of-type_code _ h = rw h

  -- On every code that is the number of none of the eleven socket types from PAIR to XSUB,
  -- `zsock_type` panics.
  pub zsock_type_of-unknown :
      ((t : SocketType) → type_reply.0 ≢ pos (type_code t))
      → zsock_type_of c z s ≡ panicked after_type
  unfolding zsock_type_of
  zsock_type_of-unknown h = unknown_type type_reply.0 after_type h

  -- `mechanism` returns each mechanism on its code in zmq.h, gives an error on -1, and panics on
  -- every other code.
  pub mechanism_lem :
      ((k : Mechanism)
        → mechanism_reply.0 ≡ pos (mechanism_code k)
        → mechanism c z s ≡ done k after_mechanism)
      × (mechanism_reply.0 ≡ minus_one → mechanism c z s ≡ failed non_zero_error after_mechanism)
      × (mechanism_reply.0 ≢ minus_one
          → ((k : Mechanism) → mechanism_reply.0 ≢ pos (mechanism_code k))
          → mechanism c z s ≡ panicked after_mechanism)
  unfolding mechanism
  mechanism_lem = (
    on_code,
    λ h. rw h,
    λ bad h.
        let e : int_eq mechanism_reply.0 minus_one ≡ false =
          ground (arith, int_eq_iff mechanism_reply.0 minus_one) in
        rw e (unknown_mechanism mechanism_reply.0 after_mechanism h),
  )
    where
      on_code :
          (k : Mechanism)
          → mechanism_reply.0 ≡ pos (mechanism_code k)
          → mechanism c z s ≡ done k after_mechanism
      on_code Mechanism.zmq_null h = rw h
      on_code _ h = rw h

  -- `zsock_type` returns the socket type on the number that zmq.h gives it, for the eleven types from
  -- PAIR to XSUB, and panics on every other code.
  pub zsock_type_of_lem :
      ((t : SocketType)
        → type_reply.0 ≡ pos (type_code t)
        → zsock_type_of c z s ≡ done t after_type)
      × (((t : SocketType) → type_reply.0 ≢ pos (type_code t))
          → zsock_type_of c z s ≡ panicked after_type)
  zsock_type_of_lem = (zsock_type_of-type_code, zsock_type_of-unknown)
