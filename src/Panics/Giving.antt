-- ===== src/Panics/Giving.antt =====
-- The methods that give a handle which somebody else owns or has owned, and those that make several
-- handles or hand one over as they make another.
use rust_czmq.Prelude.{ℕ, ◌==◌, ◌≡◌, ◌||◌, refl, Bool, false, Option, some, Bool-cases, inl, inr}
use rust_czmq.Rust.Text.{Bytes, has_nul, c_string_or_empty}
use rust_czmq.Ffi.{null, Czmq, Io, Machine, map_run, try_c_string_nul, try_c_string_eq}
use rust_czmq.Ffi.Calls.{
  zactor_new, zcertstore_lookup, zframe_new, zhashx_lookup, zpoller_wait, Task,
}
use rust_czmq.Panics.Making.{has_panicked}
use rust_czmq.ZActor
use rust_czmq.ZActor.{ZActor}
use rust_czmq.ZAuth
use rust_czmq.ZCert
use rust_czmq.ZCert.{ZCert}
use rust_czmq.ZCertStore
use rust_czmq.ZCertStore.{ZCertStore}
use rust_czmq.ZCertStore.Fields.{get_certs_lem}
use rust_czmq.ZFrame
use rust_czmq.ZHashX
use rust_czmq.ZHashX.{ZHashX}
use rust_czmq.ZMonitor
use rust_czmq.ZMsg
use rust_czmq.ZMsg.{ZMsg}
use rust_czmq.ZPoller
use rust_czmq.ZPoller.{ZPoller}
use rust_czmq.ZSock.{ZSock, zsock_sockish}
use rust_czmq.ZSys

pub data Giver : Type 0 where
  first_frame next_frame iterated_frame last_frame : ZMsg → Giver
  frame_from : Bytes → Giver
  sock_of : ZActor → Giver
  polled : ZPoller → Option ℕ → Giver
  value_at : ZHashX → Bytes → Giver
  cert_at : ZCertStore → Bytes → Giver
  state_of certs_of : ZCertStore → Giver
  auth_with : ZCertStore → Giver
  monitor_of : ZSock → Giver
  keys_of : ZCert → Giver
  pipe : Giver

module _ (c : Czmq) where
  open c use {World}

  abbrev unit_of : {A : Type 0} → A → Unit {0}
  unit_of _ = tt

  -- The call, without what it gives.
  unfoldable pub given : Giver → Io World (Unit {0})
  unfolding ZMsg.first ZMsg.next ZMsg.iterator_next ZMsg.ref_last ZFrame.from ZActor.sock
      ZPoller.wait ZHashX.lookup ZCertStore.lookup ZCertStore.get_state ZCertStore.get_certs
      ZAuth.new ZMonitor.monitor ZCert.meta_keys ZSys.new_pipe
  given (Giver.first_frame m) s = map_run unit_of (ZMsg.first c m s)
  given (Giver.next_frame m) s = map_run unit_of (ZMsg.next c m s)
  given (Giver.iterated_frame m) s = map_run unit_of (ZMsg.iterator_next c m s)
  given (Giver.last_frame m) s = map_run unit_of (ZMsg.ref_last c m s)
  given (Giver.frame_from b) s = map_run unit_of (ZFrame.from c b s)
  given (Giver.sock_of a) s = map_run unit_of (ZActor.sock c a s)
  given (Giver.polled p t) s = map_run unit_of (ZPoller.wait c ⦃k = zsock_sockish c⦄ p t s)
  given (Giver.value_at h key) s = map_run unit_of (ZHashX.lookup c h key s)
  given (Giver.cert_at store key) s = map_run unit_of (ZCertStore.lookup c store key s)
  given (Giver.state_of store) s = map_run unit_of (ZCertStore.get_state c store s)
  given (Giver.certs_of store) s = map_run unit_of (ZCertStore.get_certs c store s)
  given (Giver.auth_with store) s = map_run unit_of (ZAuth.new c (some store) s)
  given (Giver.monitor_of z) s = map_run unit_of (ZMonitor.monitor c z s)
  given (Giver.keys_of m) s = map_run unit_of (ZCert.meta_keys c m s)
  given Giver.pipe s = map_run unit_of (ZSys.new_pipe c s)

  -- The assertions of the two methods that read a field of the certificate store.
  abbrev pub giver_panics : Giver → Machine World → Bool
  giver_panics (Giver.state_of store) s = store.zcertstore == null
  giver_panics (Giver.certs_of store) s =
      (store.zcertstore == null) || (c.certs_field s.world store.zcertstore == null)
  giver_panics _ s = false

  pub given-has_panicked :
      (giver : Giver) (s : Machine World) → has_panicked (given giver s) ≡ giver_panics giver s
  unfolding given zsock_sockish ZCertStore.lookup ZCertStore.get_state
  given-has_panicked (Giver.first_frame m) s = refl
  given-has_panicked (Giver.next_frame m) s = refl
  given-has_panicked (Giver.iterated_frame m) s = refl
  given-has_panicked (Giver.last_frame m) s = refl
  given-has_panicked (Giver.frame_from b) s =
      elim (Bool-cases ((c.ptr_call (zframe_new b) s.world).0 == null)) [
        | inl z ↦ rw z
        | inr z ↦ rw z
      ]
  given-has_panicked (Giver.sock_of a) s = refl
  given-has_panicked (Giver.polled p t) s =
      elim (Bool-cases
        ((c.ptr_call (zpoller_wait p.zpoller (ZPoller.timeout_c t)) s.world).0 == null)) [
          | inl z ↦ rw z
          | inr z ↦ rw z
        ]
  given-has_panicked (Giver.value_at h key) s =
      elim (Bool-cases
        ((c.ptr_call (zhashx_lookup h.zhashx (c_string_or_empty key)) s.world).0 == null)) [
          | inl z ↦ rw z
          | inr z ↦ rw z
        ]
  given-has_panicked (Giver.cert_at store key) s = elim (Bool-cases (has_nul key)) [
    | inl nul ↦ rw (try_c_string_nul key s nul)
    | inr clean ↦
        elim (Bool-cases
          ((c.ptr_call (zcertstore_lookup store.zcertstore key) s.world).0 == null)) [
            | inl z ↦ rw (try_c_string_eq key s clean, z)
            | inr z ↦ rw (try_c_string_eq key s clean, z)
          ]
  ]
  given-has_panicked (Giver.state_of store) s = elim (Bool-cases (store.zcertstore == null)) [
    | inl e ↦ rw e
    | inr e ↦ elim (Bool-cases (c.state_field s.world store.zcertstore == null)) [
      | inl z ↦ rw (e, z)
      | inr z ↦ rw (e, z)
    ]
  ]
  given-has_panicked (Giver.certs_of store) s =
      elim (Bool-cases
        ((store.zcertstore == null) || (c.certs_field s.world store.zcertstore == null))) [
          | inl e ↦ rw (get_certs_lem c store s, e)
          | inr e ↦ rw (get_certs_lem c store s, e)
        ]
  given-has_panicked (Giver.auth_with store) s =
      elim (Bool-cases ((c.ptr_call (zactor_new Task.zauth store.zcertstore) s.world).0 == null)) [
        | inl z ↦ rw z
        | inr z ↦ rw z
      ]
  given-has_panicked (Giver.monitor_of z) s =
      elim (Bool-cases ((c.ptr_call (zactor_new Task.zmonitor z.zsock) s.world).0 == null)) [
        | inl z ↦ rw z
        | inr z ↦ rw z
      ]
  given-has_panicked (Giver.keys_of m) s = refl
  given-has_panicked Giver.pipe s = elim (Bool-cases ((c.pipe_call s.world).0 == null)) [
    | inl z ↦ rw z
    | inr z ↦ rw z
  ]
