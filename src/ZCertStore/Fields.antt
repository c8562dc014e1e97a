-- ===== src/ZCertStore/Fields.antt =====
-- The fields that are read out of a certificate store.
use rust_czmq.Prelude.{◌==◌, ◌≡◌, ◌||◌, false, Bool-cases, inl, inr, if◌then◌else◌}
use rust_czmq.Ffi.{null, Czmq, Machine, done, panicked}
use rust_czmq.ZCertStore.{ZCertStore, get_certs}

module _ (c : Czmq) (store : ZCertStore) (s : Machine c.World) where
  -- `get_certs` calls nothing: it panics exactly if the store or its table of certificates is
  -- null, and otherwise returns the table, which the store keeps owning.
  pub get_certs_lem : get_certs c store s ≡ (
      if (store.zcertstore == null) || (c.certs_field s.world store.zcertstore == null)
      then panicked s
      else done (record { zhashx = c.certs_field s.world store.zcertstore; owned = false }) s)
  unfolding get_certs
  get_certs_lem = elim (Bool-cases (store.zcertstore == null)) [
    | inl e ↦ rw e
    | inr e ↦ elim (Bool-cases (c.certs_field s.world store.zcertstore == null)) [
      | inl f ↦ rw (e, f)
      | inr f ↦ rw (e, f)
    ]
  ]
