-- ===== src/ZSock.antt =====
-- src/zsock.rs: sockets. The operations that talk are here, the options in Options.
pub mod Options
pub mod Endpoints
pub mod Texts
pub mod Attach
pub mod Constructors
pub mod Delivery
use rust_czmq.Prelude.{
  ℕ, ◌+◌, ◌==◌, Bool, true, false, Option, none, some, List, [], ◌∷◌, ◌++◌, ltb, if◌then◌else◌,
  length,
}
use rust_czmq.Rust.Text.{Bytes, ascii, Utf8Result, from_utf8, is_utf8, c_string, c_string_or_empty}
use rust_czmq.Error.{Error, error, null_ptr, non_zero}
use rust_czmq.Error.Causes
use rust_czmq.Error.Causes.{ZSockError}
use rust_czmq.Ffi.{
  Ptr, null, ℤ, pos, minus_one, int_eq, flag, Czmq, PtrCall, Io, pure, fail, unwrap, ◌>>=◌, ◌>>◌,
  try_c_string, try_utf8, ask_ptr, ask_int, ask_slot, tell, read_text, raw_text,
}
use rust_czmq.Ffi.Calls.{
  zsock_new, zsock_new_pub, zsock_new_sub, zsock_new_req, zsock_new_rep, zsock_new_dealer,
  zsock_new_router, zsock_new_push, zsock_new_pull, zsock_new_xpub, zsock_new_xsub, zsock_new_pair,
  zsock_new_stream, zsock_bind, zsock_endpoint, zsock_unbind, zsock_connect, zsock_disconnect,
  zsock_attach, zsock_type_str, zsock_send, zsock_recv, zsock_signal, zsock_wait, zsock_flush,
  zsock_destroy,
}
use rust_czmq.Raw.{Sockish}

pub record ZSock : Type 0 where
  pub zsock : Ptr
  pub owned : Bool

abbrev owning : Ptr → ZSock
owning p = record { zsock = p; owned = true }

unfoldable pub from_raw : Ptr → Bool → ZSock
from_raw ptr owned = record { zsock = ptr; owned = owned }

unfoldable pub as_mut_ptr : ZSock → Ptr
as_mut_ptr z = z.zsock

-- `impl PartialEq`: the same pointer.
unfoldable pub eq : ZSock → ZSock → Bool
eq z other = z.zsock == other.zsock

abbrev pub create_error : Error
create_error = error null_ptr (Causes.zsock ZSockError.create_sock)

abbrev pub null_error : Error
null_error = error null_ptr (Causes.zsock ZSockError.cmd_failed)

abbrev pub non_zero_error : Error
non_zero_error = error non_zero (Causes.zsock ZSockError.cmd_failed)

abbrev pub unless_minus_one : {W : Type 0} → ℤ → Io W (Unit {0})
unless_minus_one rc = if int_eq rc minus_one then fail non_zero_error else pure tt

-- The loop of `concat_endpoints`: `iter` endpoints of `count` are in `endpoint_str`.
concat_loop : ℕ → ℕ → List Bytes → Bytes → Bytes
concat_loop count iter [] endpoint_str = endpoint_str
concat_loop count iter (e ∷ es) endpoint_str =
    let pushed = endpoint_str ++ e in
    concat_loop count (iter + 1) es (if ltb iter count then pushed ++ ascii "," else pushed)

unfoldable pub concat_endpoints : List Bytes → Bytes
unfolding concat_loop
concat_endpoints endpoints = concat_loop (length endpoints) 0 endpoints []

module _ (c : Czmq) where
  open c use {World}

  -- `impl Drop`
  unfoldable pub drop : ZSock → Io World (Unit {0})
  unfolding tell
  drop z = if z.owned then tell c (zsock_destroy z.zsock) else pure tt

  unfoldable pub into_raw : ZSock → Io World Ptr
  unfolding drop
  into_raw z = do let z' = record z { owned = false }; drop z'; pure z'.zsock

  instance unfoldable pub zsock_sockish : Sockish World ZSock
  unfolding from_raw into_raw as_mut_ptr
  zsock_sockish = record { from_raw = from_raw; into_raw = into_raw; as_mut_ptr = as_mut_ptr }

  -- `sock_type as i32` is the number that the zmq crate gives the socket type.
  unfoldable pub new : ℤ → Io World ZSock
  unfolding ask_ptr
  new sock_type = do zsock ← ask_ptr c (zsock_new sock_type); pure (owning zsock)

  -- The constructors differ in the function that they call; an endpoint with a NUL panics.
  pub new_at : (Bytes → PtrCall) → Bytes → Io World ZSock
  new_at maker endpoint = do
    endpoint_c ← unwrap (c_string endpoint)
    zsock ← ask_ptr c (maker endpoint_c)
    if zsock == null then fail create_error else pure (owning zsock)

  unfoldable pub new_pub : Bytes → Io World ZSock
  unfolding new_at
  new_pub = new_at zsock_new_pub

  unfoldable pub new_req : Bytes → Io World ZSock
  unfolding new_at
  new_req = new_at zsock_new_req

  unfoldable pub new_rep : Bytes → Io World ZSock
  unfolding new_at
  new_rep = new_at zsock_new_rep

  unfoldable pub new_dealer : Bytes → Io World ZSock
  unfolding new_at
  new_dealer = new_at zsock_new_dealer

  unfoldable pub new_router : Bytes → Io World ZSock
  unfolding new_at
  new_router = new_at zsock_new_router

  unfoldable pub new_push : Bytes → Io World ZSock
  unfolding new_at
  new_push = new_at zsock_new_push

  unfoldable pub new_pull : Bytes → Io World ZSock
  unfolding new_at
  new_pull = new_at zsock_new_pull

  unfoldable pub new_xpub : Bytes → Io World ZSock
  unfolding new_at
  new_xpub = new_at zsock_new_xpub

  unfoldable pub new_xsub : Bytes → Io World ZSock
  unfolding new_at
  new_xsub = new_at zsock_new_xsub

  unfoldable pub new_pair : Bytes → Io World ZSock
  unfolding new_at
  new_pair = new_at zsock_new_pair

  unfoldable pub new_stream : Bytes → Io World ZSock
  unfolding new_at
  new_stream = new_at zsock_new_stream

  -- `subscribe` as a C string, or a null pointer.
  subscribe_c : Option Bytes → Io World (Option Bytes)
  unfolding try_c_string
  subscribe_c none = pure none
  subscribe_c (some s) = do subscribe ← try_c_string s; pure (some subscribe)

  unfoldable pub new_sub : Bytes → Option Bytes → Io World ZSock
  unfolding subscribe_c ask_ptr c_string
  new_sub endpoint subscribe = do
    subscribe_ptr ← subscribe_c subscribe
    endpoint_c ← unwrap (c_string endpoint)
    zsock ← ask_ptr c (zsock_new_sub endpoint_c subscribe_ptr)
    if zsock == null then fail create_error else pure (owning zsock)

  unfoldable pub bind : ZSock → Bytes → Io World ℤ
  unfolding try_c_string ask_int
  bind z endpoint = do
    endpoint_c ← try_c_string endpoint
    rc ← ask_int c (zsock_bind z.zsock endpoint_c)
    if int_eq rc minus_one then fail non_zero_error else pure rc

  unfoldable pub endpoint : ZSock → Io World Bytes
  unfolding ask_ptr read_text try_utf8
  endpoint z = do
    endpoint_c ← ask_ptr c (zsock_endpoint z.zsock)
    if endpoint_c == null then fail non_zero_error else do s ← read_text c endpoint_c; try_utf8 s

  -- `endpoint.as_ptr()`: the text is passed as it lies in memory, with no terminator.
  unfoldable pub unbind : ZSock → Bytes → Io World (Unit {0})
  unfolding raw_text ask_int
  unbind z endpoint = do
    seen ← raw_text c endpoint
    rc ← ask_int c (zsock_unbind z.zsock seen)
    unless_minus_one rc

  unfoldable pub connect : ZSock → Bytes → Io World (Unit {0})
  unfolding try_c_string ask_int
  connect z endpoint = do
    endpoint_c ← try_c_string endpoint
    rc ← ask_int c (zsock_connect z.zsock endpoint_c)
    unless_minus_one rc

  unfoldable pub disconnect : ZSock → Bytes → Io World (Unit {0})
  unfolding raw_text ask_int
  disconnect z endpoint = do
    seen ← raw_text c endpoint
    rc ← ask_int c (zsock_disconnect z.zsock seen)
    unless_minus_one rc

  unfoldable pub attach : ZSock → List Bytes → Bool → Io World (Unit {0})
  unfolding concat_endpoints ask_int
  attach z endpoints serverish = do
    rc ←
        ask_int c
          (zsock_attach z.zsock (c_string_or_empty (concat_endpoints endpoints)) (flag serverish))
    unless_minus_one rc

  unfoldable pub type_str : ZSock → Io World Utf8Result
  unfolding ask_ptr read_text
  type_str z = do
    ptr ← ask_ptr c (zsock_type_str z.zsock)
    if ptr == null then fail null_error else do bytes ← read_text c ptr; pure (from_utf8 bytes)

  unfoldable pub send_str : ZSock → Bytes → Io World (Unit {0})
  unfolding ask_int
  send_str z string = do
    rc ← ask_int c (zsock_send z.zsock (c_string_or_empty string))
    unless_minus_one rc

  -- The slot is null before the call.
  unfoldable pub recv_str : ZSock → Io World Utf8Result
  unfolding ask_slot read_text
  recv_str z = do
    (rc, ptr) ← ask_slot c (zsock_recv z.zsock null)
    if int_eq rc minus_one
        then fail non_zero_error
        else do bytes ← read_text c ptr; pure (from_utf8 bytes)

  unfoldable pub signal : ZSock → ℕ → Io World (Unit {0})
  unfolding ask_int
  signal z status = do rc ← ask_int c (zsock_signal z.zsock status); unless_minus_one rc

  unfoldable pub wait : ZSock → Io World (Unit {0})
  unfolding ask_int
  wait z = do rc ← ask_int c (zsock_wait z.zsock); unless_minus_one rc

  unfoldable pub flush : ZSock → Io World (Unit {0})
  unfolding tell
  flush z = tell c (zsock_flush z.zsock)
