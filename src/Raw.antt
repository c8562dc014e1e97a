-- ===== src/Raw.antt =====
-- src/lib.rs: the traits `RawInterface` and `Sockish`, and src/socket.rs, which implements them for
-- the sockets of the zmq crate.
use rust_czmq.Prelude.{Bool}
use rust_czmq.Ffi.{Ptr, Io, pure}

-- `S` wraps a pointer of CZMQ, and is consumed by `into_raw`.
pub record RawInterface (W S : Type 0) : Type 0 where
  pub from_raw : Ptr → Bool → S
  pub into_raw : S → Io W Ptr
  pub as_mut_ptr : S → Ptr

-- What messages and frames are sent to and received from.
abbrev pub Sockish : Type 0 → Type 0 → Type 0
Sockish = RawInterface

-- `zmq::Socket`, by its raw pointer; the zmq crate's `into_raw` gives the socket up.
pub record Socket : Type 0 where
  pub sock : Ptr

instance abbrev pub socket_sockish : {W : Type 0} → Sockish W Socket
socket_sockish = record {
  from_raw = λ ptr owned. record { sock = ptr };
  into_raw = λ socket. pure socket.sock;
  as_mut_ptr = λ socket. socket.sock;
}
