-- ===== src/ZSock/Options.antt =====
-- src/zsock.rs: the options of a socket.
pub mod Codes
pub mod Timeouts
pub mod Texts
pub mod ReadBack
use rust_czmq.Prelude.{ℕ, ◌==◌, Bool, Option, none, some, if◌then◌else◌}
use rust_czmq.Rust.Text.{Bytes, Utf8Result, from_utf8, c_string_or_empty}
use rust_czmq.Ffi.{
  Ptr, null, ℤ, pos, minus_one, int_eq, flag, Czmq, PtrCall, IntCall, VoidCall, Io, pure, fail,
  panic, ◌>>=◌, ◌>>◌, try_c_string, ask_ptr, ask_int, tell, read_text, raw_array,
}
use rust_czmq.Ffi.Calls.{
  zsock_zap_domain, zsock_set_zap_domain, zsock_mechanism, zsock_plain_server,
  zsock_set_plain_server, zsock_plain_username, zsock_set_plain_username, zsock_plain_password,
  zsock_set_plain_password, zsock_curve_server, zsock_set_curve_server, zsock_curve_publickey,
  zsock_set_curve_publickey, zsock_set_curve_publickey_bin, zsock_curve_secretkey,
  zsock_set_curve_secretkey, zsock_set_curve_secretkey_bin, zsock_curve_serverkey,
  zsock_set_curve_serverkey, zsock_set_curve_serverkey_bin, zsock_type, zsock_sndhwm,
  zsock_set_sndhwm, zsock_rcvhwm, zsock_set_rcvhwm, zsock_set_subscribe, zsock_set_unsubscribe,
  zsock_identity, zsock_set_identity, zsock_linger, zsock_set_linger, zsock_rcvtimeo,
  zsock_set_rcvtimeo, zsock_sndtimeo, zsock_set_sndtimeo, zsock_set_xpub_verbose, zsock_rcvmore,
}
use rust_czmq.ZSock.{ZSock, null_error, non_zero_error}

-- `zmq::Mechanism`
pub data Mechanism : Type 0 where
  zmq_null zmq_plain zmq_curve zmq_gssapi : Mechanism

-- `zmq::SocketType`
pub data SocketType : Type 0 where
  pair pub_type sub req rep dealer router pull push xpub xsub : SocketType

-- The match on the code that `zsock_mechanism` returned; `unreachable!()` is a panic.
abbrev pub mechanism_of : {W : Type 0} → ℤ → Io W Mechanism
mechanism_of n =
    if int_eq n (pos 0)
    then pure zmq_null
    else if int_eq n (pos 1)
    then pure zmq_plain
    else if int_eq n (pos 2)
    then pure zmq_curve
    else if int_eq n (pos 3)
    then pure zmq_gssapi
    else panic

-- The match on the code that `zsock_type` returned; `unimplemented!()` is a panic too.
abbrev pub socket_type_of : {W : Type 0} → ℤ → Io W SocketType
socket_type_of n =
    if int_eq n (pos 0)
    then pure pair
    else if int_eq n (pos 1)
    then pure pub_type
    else if int_eq n (pos 2)
    then pure sub
    else if int_eq n (pos 3)
    then pure req
    else if int_eq n (pos 4)
    then pure rep
    else if int_eq n (pos 5)
    then pure dealer
    else if int_eq n (pos 6)
    then pure router
    else if int_eq n (pos 7)
    then pure pull
    else if int_eq n (pos 8)
    then pure push
    else if int_eq n (pos 9)
    then pure xpub
    else if int_eq n (pos 10)
    then pure xsub
    else panic

-- `if timeout == -1 { None } else { Some(timeout) }`
unfoldable pub timeout_of : ℤ → Option ℤ
timeout_of t = if int_eq t minus_one then none else some t

-- `timeout.unwrap_or(-1)`
unfoldable pub timeout_c : Option ℤ → ℤ
timeout_c (some t) = t
timeout_c none = minus_one

module _ (c : Czmq) where
  open c use {World}

  -- The shapes that the options share: a text that C returns, a text that it is given, a number
  -- where -1 is an error, and a flag.
  pub text_option : (Ptr → PtrCall) → ZSock → Io World Utf8Result
  text_option getter z = do
    ptr ← ask_ptr c (getter z.zsock)
    if ptr == null then fail null_error else do bytes ← read_text c ptr; pure (from_utf8 bytes)

  pub set_text_option : (Ptr → Bytes → VoidCall) → ZSock → Bytes → Io World (Unit {0})
  set_text_option setter z s = tell c (setter z.zsock (c_string_or_empty s))

  number_option : (Ptr → IntCall) → ZSock → Io World ℤ
  number_option getter z = do
    n ← ask_int c (getter z.zsock)
    if int_eq n minus_one then fail non_zero_error else pure n

  flag_option : (Ptr → IntCall) → ZSock → Io World Bool
  flag_option getter z = do n ← ask_int c (getter z.zsock); pure (int_eq n (pos 1))

  -- `key.as_ptr()`: C reads the 32 bytes of a key, however long the slice is.
  set_key_option : (Ptr → Bytes → VoidCall) → ZSock → Bytes → Io World (Unit {0})
  set_key_option setter z key = do seen ← raw_array c 32 key; tell c (setter z.zsock seen)

  unfoldable pub zap_domain : ZSock → Io World Utf8Result
  unfolding text_option
  zap_domain = text_option zsock_zap_domain

  unfoldable pub set_zap_domain : ZSock → Bytes → Io World (Unit {0})
  unfolding set_text_option
  set_zap_domain = set_text_option zsock_set_zap_domain

  unfoldable pub plain_username : ZSock → Io World Utf8Result
  unfolding text_option
  plain_username = text_option zsock_plain_username

  unfoldable pub set_plain_username : ZSock → Bytes → Io World (Unit {0})
  unfolding set_text_option
  set_plain_username = set_text_option zsock_set_plain_username

  unfoldable pub plain_password : ZSock → Io World Utf8Result
  unfolding text_option
  plain_password = text_option zsock_plain_password

  unfoldable pub set_plain_password : ZSock → Bytes → Io World (Unit {0})
  unfolding set_text_option
  set_plain_password = set_text_option zsock_set_plain_password

  unfoldable pub curve_publickey : ZSock → Io World Utf8Result
  unfolding text_option
  curve_publickey = text_option zsock_curve_publickey

  unfoldable pub set_curve_publickey : ZSock → Bytes → Io World (Unit {0})
  unfolding set_text_option
  set_curve_publickey = set_text_option zsock_set_curve_publickey

  unfoldable pub set_curve_publickey_bin : ZSock → Bytes → Io World (Unit {0})
  unfolding set_key_option
  set_curve_publickey_bin = set_key_option zsock_set_curve_publickey_bin

  unfoldable pub curve_secretkey : ZSock → Io World Utf8Result
  unfolding text_option
  curve_secretkey = text_option zsock_curve_secretkey

  unfoldable pub set_curve_secretkey : ZSock → Bytes → Io World (Unit {0})
  unfolding set_text_option
  set_curve_secretkey = set_text_option zsock_set_curve_secretkey

  unfoldable pub set_curve_secretkey_bin : ZSock → Bytes → Io World (Unit {0})
  unfolding set_key_option
  set_curve_secretkey_bin = set_key_option zsock_set_curve_secretkey_bin

  unfoldable pub curve_serverkey : ZSock → Io World Utf8Result
  unfolding text_option
  curve_serverkey = text_option zsock_curve_serverkey

  unfoldable pub set_curve_serverkey : ZSock → Bytes → Io World (Unit {0})
  unfolding set_text_option
  set_curve_serverkey = set_text_option zsock_set_curve_serverkey

  unfoldable pub set_curve_serverkey_bin : ZSock → Bytes → Io World (Unit {0})
  unfolding set_key_option
  set_curve_serverkey_bin = set_key_option zsock_set_curve_serverkey_bin

  unfoldable pub set_subscribe : ZSock → Bytes → Io World (Unit {0})
  unfolding set_text_option
  set_subscribe = set_text_option zsock_set_subscribe

  unfoldable pub set_unsubscribe : ZSock → Bytes → Io World (Unit {0})
  unfolding set_text_option
  set_unsubscribe = set_text_option zsock_set_unsubscribe

  unfoldable pub plain_server : ZSock → Io World Bool
  unfolding flag_option
  plain_server = flag_option zsock_plain_server

  unfoldable pub set_plain_server : ZSock → Bool → Io World (Unit {0})
  unfolding tell
  set_plain_server z b = tell c (zsock_set_plain_server z.zsock (flag b))

  unfoldable pub curve_server : ZSock → Io World Bool
  unfolding flag_option
  curve_server = flag_option zsock_curve_server

  unfoldable pub set_curve_server : ZSock → Bool → Io World (Unit {0})
  unfolding tell
  set_curve_server z b = tell c (zsock_set_curve_server z.zsock (flag b))

  unfoldable pub rcvmore : ZSock → Io World Bool
  unfolding flag_option
  rcvmore = flag_option zsock_rcvmore

  unfoldable pub set_xpub_verbose : ZSock → Bool → Io World (Unit {0})
  unfolding tell
  set_xpub_verbose z b = tell c (zsock_set_xpub_verbose z.zsock (flag b))

  unfoldable pub sndhwm : ZSock → Io World ℤ
  unfolding number_option
  sndhwm = number_option zsock_sndhwm

  unfoldable pub set_sndhwm : ZSock → ℤ → Io World (Unit {0})
  unfolding tell
  set_sndhwm z n = tell c (zsock_set_sndhwm z.zsock n)

  unfoldable pub rcvhwm : ZSock → Io World ℤ
  unfolding number_option
  rcvhwm = number_option zsock_rcvhwm

  unfoldable pub set_rcvhwm : ZSock → ℤ → Io World (Unit {0})
  unfolding tell
  set_rcvhwm z n = tell c (zsock_set_rcvhwm z.zsock n)

  unfoldable pub linger : ZSock → Io World ℤ
  unfolding number_option
  linger = number_option zsock_linger

  unfoldable pub set_linger : ZSock → ℤ → Io World (Unit {0})
  unfolding tell
  set_linger z n = tell c (zsock_set_linger z.zsock n)

  unfoldable pub rcvtimeo : ZSock → Io World (Option ℤ)
  unfolding ask_int timeout_of
  rcvtimeo z = do timeout ← ask_int c (zsock_rcvtimeo z.zsock); pure (timeout_of timeout)

  unfoldable pub set_rcvtimeo : ZSock → Option ℤ → Io World (Unit {0})
  unfolding tell timeout_c
  set_rcvtimeo z timeout = tell c (zsock_set_rcvtimeo z.zsock (timeout_c timeout))

  unfoldable pub sndtimeo : ZSock → Io World (Option ℤ)
  unfolding ask_int timeout_of
  sndtimeo z = do timeout ← ask_int c (zsock_sndtimeo z.zsock); pure (timeout_of timeout)

  unfoldable pub set_sndtimeo : ZSock → Option ℤ → Io World (Unit {0})
  unfolding tell timeout_c
  set_sndtimeo z timeout = tell c (zsock_set_sndtimeo z.zsock (timeout_c timeout))

  unfoldable pub mechanism : ZSock → Io World Mechanism
  unfolding ask_int
  mechanism z = do
    code ← ask_int c (zsock_mechanism z.zsock)
    if int_eq code minus_one then fail non_zero_error else mechanism_of code

  unfoldable pub zsock_type_of : ZSock → Io World SocketType
  unfolding ask_int
  zsock_type_of z = do stype ← ask_int c (zsock_type z.zsock); socket_type_of stype

  unfoldable pub identity : ZSock → Io World Utf8Result
  unfolding text_option
  identity = text_option zsock_identity

  unfoldable pub set_identity : ZSock → Bytes → Io World (Unit {0})
  unfolding try_c_string tell
  set_identity z s = do identity_c ← try_c_string s; tell c (zsock_set_identity z.zsock identity_c)
