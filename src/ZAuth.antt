-- ===== src/ZAuth.antt =====
-- src/zauth.rs: the authentication actor of CZMQ, which answers the ZAP requests of a process.
pub mod Command
use rust_czmq.Prelude.{◌==◌, true, Option, none, some, if◌then◌else◌}
use rust_czmq.Rust.Text.{Bytes, ascii}
use rust_czmq.Error.{error, null_ptr}
use rust_czmq.Error.Causes
use rust_czmq.Error.Causes.{ZAuthError}
use rust_czmq.Ffi.{Ptr, null, Czmq, Io, pure, fail, panic, or_drop, ◌>>=◌, ◌>>◌, ask_ptr}
use rust_czmq.Ffi.Calls.{Task, zactor_new}
use rust_czmq.ZActor
use rust_czmq.ZActor.{ZActor}
use rust_czmq.ZCertStore
use rust_czmq.ZCertStore.{ZCertStore}
use rust_czmq.ZMsg

pub record ZAuth : Type 0 where
  pub zactor : ZActor

module _ (c : Czmq) where
  open c use {World}

  -- The store is given up to the actor, or there is none.
  store_ptr : Option ZCertStore → Io World Ptr
  unfolding ZCertStore.into_raw
  store_ptr none = pure null
  store_ptr (some cs) = ZCertStore.into_raw c cs

  unfoldable pub new : Option ZCertStore → Io World ZAuth
  unfolding store_ptr ask_ptr ZActor.from_raw
  new certstore = do
    ptr ← store_ptr certstore
    zactor ← ask_ptr c (zactor_new Task.zauth ptr)
    if zactor == null
        then fail (error null_ptr (Causes.zauth ZAuthError.instantiate))
        else pure (record { zactor = ZActor.from_raw zactor true })

  -- The body that the commands with an argument share: a message of two frames is sent, and the
  -- actor's reply awaited. The message is dropped when it ends the function.
  unfoldable pub command : ZAuth → Bytes → Bytes → Io World (Unit {0})
  unfolding ZMsg.new ZMsg.addstr ZMsg.drop ZActor.send ZActor.sock_wait
  command a name argument = do
    msg ← ZMsg.new c
    or_drop (ZMsg.drop c msg) (ZMsg.addstr c msg name)
    or_drop (ZMsg.drop c msg) (ZMsg.addstr c msg argument)
    ZActor.send c a.zactor msg
    ZActor.sock_wait c a.zactor

  unfoldable pub allow : ZAuth → Bytes → Io World (Unit {0})
  unfolding command
  allow a address = command a (ascii "ALLOW") address

  unfoldable pub deny : ZAuth → Bytes → Io World (Unit {0})
  unfolding command
  deny a address = command a (ascii "DENY") address

  unfoldable pub load_plain : ZAuth → Bytes → Io World (Unit {0})
  unfolding command
  load_plain a filename = command a (ascii "PLAIN") filename

  unfoldable pub load_curve : ZAuth → Option Bytes → Io World (Unit {0})
  unfolding command
  load_curve a (some loc) = command a (ascii "CURVE") loc
  load_curve a none = command a (ascii "CURVE") (ascii "*")

  -- `unimplemented!()`
  unfoldable pub load_gssapi : ZAuth → Io World (Unit {0})
  load_gssapi a = panic

  unfoldable pub verbose : ZAuth → Io World (Unit {0})
  unfolding ZActor.send_str ZActor.sock_wait
  verbose a = do ZActor.send_str c a.zactor (ascii "VERBOSE"); ZActor.sock_wait c a.zactor
