-- ===== src/ZActor.antt =====
-- src/zactor.rs: a thread of CZMQ that is talked to through a pipe.
use rust_czmq.Prelude.{◌==◌, Bool, true, false, if◌then◌else◌}
use rust_czmq.Rust.Text.{Bytes}
use rust_czmq.Error.{error, null_ptr, non_zero}
use rust_czmq.Error.Causes
use rust_czmq.Error.Causes.{ZActorError}
use rust_czmq.Ffi.{
  Ptr, null, minus_one, int_eq, Czmq, Io, pure, fail, or_drop, ◌>>=◌, ◌>>◌, ask_ptr, ask_slot, tell,
}
use rust_czmq.Ffi.Calls.{Task, zactor_new, zactor_send, zactor_recv, zactor_sock, zactor_destroy}
use rust_czmq.Raw.{Sockish}
use rust_czmq.ZMsg
use rust_czmq.ZMsg.{ZMsg}
use rust_czmq.ZSock
use rust_czmq.ZSock.{ZSock}

pub record ZActor : Type 0 where
  pub zactor : Ptr
  pub owned : Bool

unfoldable pub from_raw : Ptr → Bool → ZActor
from_raw ptr owned = record { zactor = ptr; owned = owned }

unfoldable pub as_mut_ptr : ZActor → Ptr
as_mut_ptr a = a.zactor

module _ (c : Czmq) where
  open c use {World}

  -- `impl Drop`
  unfoldable pub drop : ZActor → Io World (Unit {0})
  unfolding tell
  drop a = if a.owned then tell c (zactor_destroy a.zactor) else pure tt

  -- `into_raw` leaves `owned` as it is, so the drop of the consumed value destroys the actor.
  unfoldable pub into_raw : ZActor → Io World Ptr
  unfolding drop
  into_raw a = do drop a; pure a.zactor

  unfoldable pub new : Task → Io World ZActor
  unfolding ask_ptr
  new task = do
    zactor ← ask_ptr c (zactor_new task null)
    if zactor == null
        then fail (error null_ptr (Causes.zactor ZActorError.instantiate))
        else pure (record { zactor = zactor; owned = true })

  -- `&mut msg.into_raw()`: the slot is a temporary, and what is left in it is forgotten.
  unfoldable pub send : ZActor → ZMsg → Io World (Unit {0})
  unfolding ask_slot ZMsg.into_raw
  send a msg = do
    ptr ← ZMsg.into_raw c msg
    (rc, _) ← ask_slot c (zactor_send a.zactor ptr)
    if int_eq rc minus_one
        then fail (error non_zero (Causes.zactor ZActorError.cmd_failed))
        else pure tt

  unfoldable pub send_str : ZActor → Bytes → Io World (Unit {0})
  unfolding ZMsg.new ZMsg.addstr ZMsg.drop send
  send_str a string = do
    msg ← ZMsg.new c
    or_drop (ZMsg.drop c msg) (ZMsg.addstr c msg string)
    send a msg

  unfoldable pub recv : ZActor → Io World ZMsg
  unfolding ask_ptr ZMsg.from_raw
  recv a = do
    zmsg_ptr ← ask_ptr c (zactor_recv a.zactor)
    if zmsg_ptr == null
        then fail (error null_ptr (Causes.zactor ZActorError.cmd_failed))
        else pure (ZMsg.from_raw zmsg_ptr true)

  unfoldable pub sock : ZActor → Io World ZSock
  unfolding ask_ptr ZSock.from_raw
  sock a = do ptr ← ask_ptr c (zactor_sock a.zactor); pure (ZSock.from_raw ptr false)

  -- `zactor.sock().wait()`: the socket is a temporary that is not owned.
  unfoldable pub sock_wait : ZActor → Io World (Unit {0})
  unfolding sock ZSock.wait ZSock.drop
  sock_wait a = do
    zsock ← sock a
    or_drop (ZSock.drop c zsock) (ZSock.wait c zsock)
    ZSock.drop c zsock

  instance unfoldable pub zactor_sockish : Sockish World ZActor
  unfolding from_raw into_raw as_mut_ptr
  zactor_sockish = record { from_raw = from_raw; into_raw = into_raw; as_mut_ptr = as_mut_ptr }
