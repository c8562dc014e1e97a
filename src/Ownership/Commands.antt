-- ===== src/Ownership/Commands.antt =====
-- The methods that speak to an actor: each makes a message, fills it, and sends it or drops it.
use rust_czmq.Prelude.{Option, List}
use rust_czmq.Rust.Text.{Bytes}
use rust_czmq.Ffi.{Ptr, Czmq, Io, map_run}
use rust_czmq.Ownership.Makers.{borrowed_actor}
use rust_czmq.ZActor
use rust_czmq.ZAuth
use rust_czmq.ZAuth.{ZAuth}
use rust_czmq.ZMonitor
use rust_czmq.ZMonitor.{ZMonitor, ZMonitorEvents}

pub data Command : Type 0 where
  send_str allow deny load_plain : Bytes → Command
  load_curve : Option Bytes → Command
  load_gssapi verbose_auth get_attr start verbose_monitor : Command
  set_attrs : List ZMonitorEvents → Command

module _ (c : Czmq) (a : Ptr) where
  open c use {World}

  abbrev as_auth : ZAuth
  as_auth = record { zactor = borrowed_actor c a }

  abbrev as_monitor : ZMonitor
  as_monitor = record { zactor = borrowed_actor c a }

  -- The method that the command stands for, called on the actor; what it returns is ignored.
  unfoldable pub commanded : Command → Io World (Unit {0})
  unfolding ZActor.send_str ZAuth.allow ZAuth.deny ZAuth.load_plain ZAuth.load_curve
      ZAuth.load_gssapi ZAuth.verbose ZMonitor.get_attr ZMonitor.start ZMonitor.verbose
      ZMonitor.set_attrs
  commanded (send_str t) s = ZActor.send_str c (borrowed_actor c a) t s
  commanded (allow t) s = ZAuth.allow c as_auth t s
  commanded (deny t) s = ZAuth.deny c as_auth t s
  commanded (load_plain t) s = ZAuth.load_plain c as_auth t s
  commanded (load_curve t) s = ZAuth.load_curve c as_auth t s
  commanded load_gssapi s = ZAuth.load_gssapi c as_auth s
  commanded verbose_auth s = ZAuth.verbose c as_auth s
  commanded (set_attrs attrs) s = ZMonitor.set_attrs c as_monitor attrs s
  commanded get_attr s = map_run (λ _. tt) (ZMonitor.get_attr c as_monitor s)
  commanded start s = ZMonitor.start c as_monitor s
  commanded verbose_monitor s = ZMonitor.verbose c as_monitor s
