-- ===== src/Ownership/Makers.antt =====
-- The methods that make an owned handle, of every type of the crate.
use rust_czmq.Prelude.{ℕ, Option, none, some, false}
use rust_czmq.Rust.Text.{Bytes}
use rust_czmq.Ffi.{Ptr, ℤ, Czmq, Io, map_run}
use rust_czmq.Ffi.Calls.{Task}
use rust_czmq.Ownership.Handles.{
  Handle, message, frame, cert, socket, actor, poller, hash_table, cert_store,
}
use rust_czmq.ZActor
use rust_czmq.ZActor.{ZActor}
use rust_czmq.ZAuth
use rust_czmq.ZCert
use rust_czmq.ZCert.{ZCert}
use rust_czmq.ZCertStore
use rust_czmq.ZFrame
use rust_czmq.ZFrame.{ZFrame}
use rust_czmq.ZHashX
use rust_czmq.ZMonitor
use rust_czmq.ZMsg
use rust_czmq.ZMsg.{ZMsg}
use rust_czmq.ZPoller
use rust_czmq.ZSock
use rust_czmq.ZSock.{ZSock, zsock_sockish}

-- A handle comes from nothing, from a socket or an actor, or from a handle that is only read.
pub data Maker : Type 0 where
  new_message new_empty_frame new_cert new_poller new_hash_table : Maker
  new_signal : ℕ → Maker
  new_frame : Bytes → Maker
  recv_message recv_frame : ZSock → Maker
  encode_message decode_frame pop_frame pop_message dup_message dup_frame dup_cert : Ptr → Maker
  cert_from_keys : Bytes → Bytes → Maker
  cert_from_txt : (Bytes → Option Bytes) → Bytes → Bytes → Maker
  load_cert : Bytes → Maker
  new_socket : ℤ → Maker
  new_pub new_req new_rep new_dealer new_router new_push new_pull new_xpub new_xsub new_pair
        new_stream :
      Bytes → Maker
  new_sub : Bytes → Option Bytes → Maker
  new_actor : Task → Maker
  new_auth : Maker
  new_monitor : ZSock → Maker
  recv_from_actor : Ptr → Maker
  new_store : Option Bytes → Maker

module _ (c : Czmq) where
  open c use {World}

  abbrev as_message : ZMsg → Option Handle
  as_message m = some (message m.zmsg)

  abbrev as_frame : ZFrame → Option Handle
  as_frame f = some (frame f.zframe)

  abbrev as_message? : Option ZMsg → Option Handle
  as_message? none = none
  as_message? (some m) = as_message m

  abbrev as_frame? : Option ZFrame → Option Handle
  as_frame? none = none
  as_frame? (some f) = as_frame f

  abbrev as_cert : ZCert → Option Handle
  as_cert m = some (cert m.zcert)

  abbrev pub as_socket : ZSock → Option Handle
  as_socket z = some (socket z.zsock)

  abbrev as_actor : ZActor → Option Handle
  as_actor a = some (actor a.zactor)

  abbrev pub borrowed_message : Ptr → ZMsg
  borrowed_message p = record { zmsg = p; owned = false }

  abbrev borrowed_frame : Ptr → ZFrame
  borrowed_frame p = record { zframe = p; owned = false }

  abbrev borrowed_cert : Ptr → ZCert
  borrowed_cert p = record { zcert = p; owned = false }

  abbrev pub borrowed_actor : Ptr → ZActor
  borrowed_actor p = record { zactor = p; owned = false }

  unfoldable pub made_by : Maker → Io World (Option Handle)
  unfolding ZMsg.new ZMsg.new_signal ZMsg.recv ZMsg.encode ZMsg.decode ZMsg.pop ZMsg.popmsg ZMsg.dup
      ZFrame.new ZFrame.empty ZFrame.recv ZFrame.dup ZCert.new ZCert.from_keys ZCert.from_txt
      ZCert.load ZCert.dup ZSock.new ZSock.new_pub ZSock.new_req ZSock.new_rep ZSock.new_dealer
      ZSock.new_router ZSock.new_push ZSock.new_pull ZSock.new_xpub ZSock.new_xsub ZSock.new_pair
      ZSock.new_stream ZSock.new_sub ZActor.new ZActor.recv ZAuth.new ZMonitor.new ZPoller.new
      ZHashX.new ZCertStore.new
  made_by new_message s = map_run as_message (ZMsg.new c s)
  made_by new_empty_frame s = map_run as_frame (ZFrame.empty c s)
  made_by (new_signal n) s = map_run as_message (ZMsg.new_signal c n s)
  made_by (new_frame b) s = map_run as_frame (ZFrame.new c b s)
  made_by (recv_message z) s = map_run as_message (ZMsg.recv c ⦃k = zsock_sockish c⦄ z s)
  made_by (recv_frame z) s = map_run as_frame (ZFrame.recv c ⦃k = zsock_sockish c⦄ z s)
  made_by (encode_message p) s = map_run as_frame (ZMsg.encode c (borrowed_message p) s)
  made_by (decode_frame p) s = map_run as_message (ZMsg.decode c (borrowed_frame p) s)
  made_by (pop_frame p) s = map_run as_frame? (ZMsg.pop c (borrowed_message p) s)
  made_by (pop_message p) s = map_run as_message? (ZMsg.popmsg c (borrowed_message p) s)
  made_by (dup_message p) s = map_run as_message (ZMsg.dup c (borrowed_message p) s)
  made_by (dup_frame p) s = map_run as_frame (ZFrame.dup c (borrowed_frame p) s)
  made_by new_cert s = map_run as_cert (ZCert.new c s)
  made_by (cert_from_keys pk sk) s = map_run as_cert (ZCert.from_keys c pk sk s)
  made_by (cert_from_txt decode pk sk) s = map_run as_cert (ZCert.from_txt c decode pk sk s)
  made_by (load_cert path) s = map_run as_cert (ZCert.load c path s)
  made_by (dup_cert p) s = map_run as_cert (ZCert.dup c (borrowed_cert p) s)
  made_by (new_socket t) s = map_run as_socket (ZSock.new c t s)
  made_by (new_pub e) s = map_run as_socket (ZSock.new_pub c e s)
  made_by (new_req e) s = map_run as_socket (ZSock.new_req c e s)
  made_by (new_rep e) s = map_run as_socket (ZSock.new_rep c e s)
  made_by (new_dealer e) s = map_run as_socket (ZSock.new_dealer c e s)
  made_by (new_router e) s = map_run as_socket (ZSock.new_router c e s)
  made_by (new_push e) s = map_run as_socket (ZSock.new_push c e s)
  made_by (new_pull e) s = map_run as_socket (ZSock.new_pull c e s)
  made_by (new_xpub e) s = map_run as_socket (ZSock.new_xpub c e s)
  made_by (new_xsub e) s = map_run as_socket (ZSock.new_xsub c e s)
  made_by (new_pair e) s = map_run as_socket (ZSock.new_pair c e s)
  made_by (new_stream e) s = map_run as_socket (ZSock.new_stream c e s)
  made_by (new_sub e t) s = map_run as_socket (ZSock.new_sub c e t s)
  made_by (new_actor task) s = map_run as_actor (ZActor.new c task s)
  made_by new_auth s = map_run (λ a. as_actor a.zactor) (ZAuth.new c none s)
  made_by (new_monitor z) s =
      map_run (λ m. as_actor m.zactor) (ZMonitor.new c ⦃k = zsock_sockish c⦄ z s)
  made_by (recv_from_actor a) s = map_run as_message (ZActor.recv c (borrowed_actor a) s)
  made_by new_poller s = map_run (λ p. some (poller p.zpoller)) (ZPoller.new c s)
  made_by new_hash_table s = map_run (λ h. some (hash_table h.zhashx)) (ZHashX.new c s)
  made_by (new_store location) s =
      map_run (λ t. some (cert_store t.zcertstore)) (ZCertStore.new c location s)
