-- ===== src/ZMonitor.antt =====
-- src/zmonitor.rs: an actor that reports the events of a socket; and `ZSock::monitor` of
-- src/zsock.rs, which starts one.
pub mod Events
pub mod Attrs
pub mod Reply
use rust_czmq.Prelude.{◌==◌, Bool, true, Option, none, some, List, [], ◌∷◌, ◌++◌, if◌then◌else◌}
use rust_czmq.Rust.Text.{Bytes, ascii, Utf8Result, text, raw, bytes_eq}
use rust_czmq.Error.{error, null_ptr, missing_frame}
use rust_czmq.Error.Causes
use rust_czmq.Error.Causes.{ZMonitorError}
use rust_czmq.Ffi.{null, Czmq, Io, pure, fail, or_drop, ◌>>=◌, ◌>>◌, ask_ptr}
use rust_czmq.Ffi.Calls.{Task, zactor_new}
use rust_czmq.Raw.{Sockish}
use rust_czmq.ZActor
use rust_czmq.ZActor.{ZActor, zactor_sockish}
use rust_czmq.ZMsg
use rust_czmq.ZMsg.{ZMsg}
use rust_czmq.ZSock.{ZSock, zsock_sockish}

pub data ZMonitorEvents : Type 0 where
  connected connect_delayed connect_retried listening bind_failed accepted : ZMonitorEvents
  accept_failed closed close_failed disconnected monitor_stopped all unknown : ZMonitorEvents

unfoldable pub to_str : ZMonitorEvents → Bytes
to_str connected = ascii "CONNECTED"
to_str connect_delayed = ascii "CONNECT_DELAYED"
to_str connect_retried = ascii "CONNECT_RETRIED"
to_str listening = ascii "LISTENING"
to_str bind_failed = ascii "BIND_FAILED"
to_str accepted = ascii "ACCEPTED"
to_str accept_failed = ascii "ACCEPT_FAILED"
to_str closed = ascii "CLOSED"
to_str close_failed = ascii "CLOSE_FAILED"
to_str disconnected = ascii "DISCONNECTED"
to_str monitor_stopped = ascii "MONITOR_STOPPED"
to_str all = ascii "ALL"
to_str unknown = ascii "UNKNOWN"

-- The arms of the match on a text.
unfoldable pub from_str : Bytes → ZMonitorEvents
from_str event =
    if bytes_eq event (ascii "CONNECTED")
    then connected
    else if bytes_eq event (ascii "CONNECT_DELAYED")
    then connect_delayed
    else if bytes_eq event (ascii "CONNECT_RETRIED")
    then connect_retried
    else if bytes_eq event (ascii "LISTENING")
    then listening
    else if bytes_eq event (ascii "BIND_FAILED")
    then bind_failed
    else if bytes_eq event (ascii "ACCEPTED")
    then accepted
    else if bytes_eq event (ascii "ACCEPT_FAILED")
    then accept_failed
    else if bytes_eq event (ascii "CLOSED")
    then closed
    else if bytes_eq event (ascii "CLOSE_FAILED")
    then close_failed
    else if bytes_eq event (ascii "DISCONNECTED")
    then disconnected
    else if bytes_eq event (ascii "MONITOR_STOPPED")
    then monitor_stopped
    else if bytes_eq event (ascii "ALL")
    then all
    else unknown

-- `impl Display for ZMonitorEvents`
unfoldable pub display : ZMonitorEvents → Bytes
unfolding to_str
display e = ascii "ZMonitorEvent: " ++ to_str e

pub record ZMonitor : Type 0 where
  pub zactor : ZActor

-- `Result<ZMonitorEvents, Vec<u8>>`: an event, or the bytes that are not a text.
pub data Attr : Type 0 where
  event : ZMonitorEvents → Attr
  unread : Bytes → Attr

module _ (c : Czmq) where
  open c use {World}

  unfoldable pub new : {S : Type 0} → ⦃k : Sockish World S⦄ → S → Io World ZMonitor
  unfolding ask_ptr ZActor.from_raw
  new ⦃k⦄ zsock = do
    zactor ← ask_ptr c (zactor_new Task.zmonitor (k.as_mut_ptr zsock))
    if zactor == null
        then fail (error null_ptr (Causes.zmonitor ZMonitorError.instantiate))
        else pure (record { zactor = ZActor.from_raw zactor true })

  -- `ZSock::monitor`
  unfoldable pub monitor : ZSock → Io World ZMonitor
  unfolding new
  monitor z = new ⦃k = zsock_sockish c⦄ z

  -- The loop of `set_attrs`; the message is dropped when it ends the function.
  unfoldable pub add_attrs : ZMsg → List ZMonitorEvents → Io World (Unit {0})
  unfolding ZMsg.addstr ZMsg.drop to_str
  add_attrs msg [] = pure tt
  add_attrs msg (a ∷ attrs) = do
    or_drop (ZMsg.drop c msg) (ZMsg.addstr c msg (to_str a))
    add_attrs msg attrs

  unfoldable pub set_attrs : ZMonitor → List ZMonitorEvents → Io World (Unit {0})
  unfolding ZMsg.new ZMsg.addstr ZMsg.drop ZActor.send add_attrs
  set_attrs m attrs = do
    msg ← ZMsg.new c
    or_drop (ZMsg.drop c msg) (ZMsg.addstr c msg (ascii "LISTEN"))
    add_attrs msg attrs
    ZActor.send c m.zactor msg

  unfoldable pub attr_of : Option Utf8Result → Io World Attr
  unfolding from_str
  attr_of none = fail (error missing_frame (Causes.zmonitor ZMonitorError.missing_attr))
  attr_of (some (text s)) = pure (event (from_str s))
  attr_of (some (raw v)) = pure (unread v)

  unfoldable pub get_attr : ZMonitor → Io World Attr
  unfolding ZMsg.recv ZMsg.popstr ZMsg.drop attr_of
  get_attr m = do
    msg ← ZMsg.recv c ⦃k = zactor_sockish c⦄ m.zactor
    result ← or_drop (ZMsg.drop c msg) (ZMsg.popstr c msg)
    ZMsg.drop c msg
    attr_of result

  unfoldable pub start : ZMonitor → Io World (Unit {0})
  unfolding ZActor.send_str ZActor.sock_wait
  start m = do ZActor.send_str c m.zactor (ascii "START"); ZActor.sock_wait c m.zactor

  unfoldable pub verbose : ZMonitor → Io World (Unit {0})
  unfolding ZActor.send_str
  verbose m = ZActor.send_str c m.zactor (ascii "VERBOSE")
