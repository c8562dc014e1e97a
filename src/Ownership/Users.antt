-- ===== src/Ownership/Users.antt =====
-- The methods that consume an owned handle, of every type of the crate.
use rust_czmq.Prelude.{ℕ, Option, none, some, true, false}
use rust_czmq.Ffi.{Ptr, Czmq, Io, map_run}
use rust_czmq.Ownership.Handles.{
  Handle, message, frame, cert, socket, actor, poller, hash_table, cert_store,
}
use rust_czmq.Ownership.Makers.{borrowed_message, borrowed_actor}
use rust_czmq.ZActor
use rust_czmq.ZActor.{ZActor}
use rust_czmq.ZCert
use rust_czmq.ZCert.{ZCert}
use rust_czmq.ZCertStore
use rust_czmq.ZCertStore.{ZCertStore}
use rust_czmq.ZFrame
use rust_czmq.ZFrame.{ZFrame}
use rust_czmq.ZHashX
use rust_czmq.ZHashX.{ZHashX}
use rust_czmq.ZMsg
use rust_czmq.ZMsg.{ZMsg}
use rust_czmq.ZPoller
use rust_czmq.ZPoller.{ZPoller}
use rust_czmq.ZSock
use rust_czmq.ZSock.{ZSock, zsock_sockish}

pub data User : Type 0 where
  drop_it into_raw_it : User
  send_it : ZSock → Option ℕ → User
  send_to_actor prepend_to append_to add_to insert_into : Ptr → User

module _ (c : Czmq) where
  open c use {World}

  abbrev pub owned_message : Ptr → ZMsg
  owned_message p = record { zmsg = p; owned = true }

  abbrev pub owned_frame : Ptr → ZFrame
  owned_frame p = record { zframe = p; owned = true }

  abbrev pub owned_cert : Ptr → ZCert
  owned_cert p = record { zcert = p; owned = true }

  abbrev pub owned_socket : Ptr → ZSock
  owned_socket p = record { zsock = p; owned = true }

  abbrev pub owned_actor : Ptr → ZActor
  owned_actor p = record { zactor = p; owned = true }

  abbrev pub owned_hash_table : Ptr → ZHashX
  owned_hash_table p = record { zhashx = p; owned = true }

  abbrev pub owned_cert_store : Ptr → ZCertStore
  owned_cert_store p = record { zcertstore = p; owned = true }

  abbrev borrowed_store : Ptr → ZCertStore
  borrowed_store p = record { zcertstore = p; owned = false }

  -- `none` where the method is not one of the handle's type.
  unfoldable pub used_by : User → Handle → Option (Io World (Unit {0}))
  unfolding ZMsg.drop ZMsg.into_raw ZFrame.drop ZFrame.into_raw ZCert.drop ZCert.into_raw ZSock.drop
      ZSock.into_raw ZActor.drop ZActor.into_raw ZHashX.drop ZHashX.into_raw ZCertStore.drop
      ZCertStore.into_raw ZPoller.drop ZMsg.send ZActor.send ZMsg.addmsg ZMsg.prepend ZMsg.append
      ZFrame.send ZCertStore.insert
  used_by drop_it (message p) = some (ZMsg.drop c (owned_message p))
  used_by drop_it (frame p) = some (ZFrame.drop c (owned_frame p))
  used_by drop_it (cert p) = some (ZCert.drop c (owned_cert p))
  used_by drop_it (socket p) = some (ZSock.drop c (owned_socket p))
  used_by drop_it (actor p) = some (ZActor.drop c (owned_actor p))
  used_by drop_it (hash_table p) = some (ZHashX.drop c (owned_hash_table p))
  used_by drop_it (cert_store p) = some (ZCertStore.drop c (owned_cert_store p))
  used_by drop_it (poller p) = some (ZPoller.drop c (record { zpoller = p }))
  used_by into_raw_it (message p) =
      some (λ s. map_run (λ _. tt) (ZMsg.into_raw c (owned_message p) s))
  used_by into_raw_it (frame p) =
      some (λ s. map_run (λ _. tt) (ZFrame.into_raw c (owned_frame p) s))
  used_by into_raw_it (cert p) = some (λ s. map_run (λ _. tt) (ZCert.into_raw c (owned_cert p) s))
  used_by into_raw_it (socket p) =
      some (λ s. map_run (λ _. tt) (ZSock.into_raw c (owned_socket p) s))
  used_by into_raw_it (actor p) =
      some (λ s. map_run (λ _. tt) (ZActor.into_raw c (owned_actor p) s))
  used_by into_raw_it (hash_table p) =
      some (λ s. map_run (λ _. tt) (ZHashX.into_raw c (owned_hash_table p) s))
  used_by into_raw_it (cert_store p) =
      some (λ s. map_run (λ _. tt) (ZCertStore.into_raw c (owned_cert_store p) s))
  used_by (send_it z flags) (message p) =
      some (ZMsg.send c ⦃k = zsock_sockish c⦄ (owned_message p) z)
  used_by (send_it z flags) (frame p) =
      some (λ s. map_run (λ _. tt) (ZFrame.send c ⦃k = zsock_sockish c⦄ (owned_frame p) z flags s))
  used_by (send_to_actor a) (message p) =
      some (ZActor.send c (borrowed_actor c a) (owned_message p))
  used_by (prepend_to q) (frame p) = some (ZMsg.prepend c (borrowed_message c q) (owned_frame p))
  used_by (append_to q) (frame p) = some (ZMsg.append c (borrowed_message c q) (owned_frame p))
  used_by (add_to q) (message p) = some (ZMsg.addmsg c (borrowed_message c q) (owned_message p))
  used_by (insert_into q) (cert p) = some (ZCertStore.insert c (borrowed_store q) (owned_cert p))
  used_by _ _ = none
