-- ===== src/ZCertStore.antt =====
-- src/zcertstore.rs: a store of certificates.
pub mod Fields
pub mod Lookup
use rust_czmq.Prelude.{◌==◌, Bool, true, false, Option, none, some, if◌then◌else◌}
use rust_czmq.Rust.Text.{Bytes}
use rust_czmq.Error.{error, null_ptr}
use rust_czmq.Error.Causes
use rust_czmq.Error.Causes.{ZCertStoreError}
use rust_czmq.Colander
use rust_czmq.Colander.{Colander}
use rust_czmq.Ffi.{
  Ptr, null, Czmq, Io, done, pure, fail, panic, ◌>>=◌, ◌>>◌, try_c_string, ask_ptr, tell,
}
use rust_czmq.Ffi.Calls.{
  zcertstore_new, zcertstore_set_loader, zcertstore_lookup, zcertstore_insert, zcertstore_empty,
  zcertstore_print, zcertstore_destroy,
}
use rust_czmq.ZCert
use rust_czmq.ZCert.{ZCert}
use rust_czmq.ZHashX
use rust_czmq.ZHashX.{ZHashX}

pub record ZCertStore : Type 0 where
  pub zcertstore : Ptr
  pub owned : Bool

unfoldable pub from_raw : Ptr → Bool → ZCertStore
from_raw ptr owned = record { zcertstore = ptr; owned = owned }

unfoldable pub as_mut_ptr : ZCertStore → Ptr
as_mut_ptr s = s.zcertstore

-- `default_destructor`: the box that it frees, if any. `none` is a null `state`.
unfoldable pub default_destructor : Option Ptr → Option Ptr
default_destructor none = none
default_destructor (some at_state) = if at_state == null then none else some at_state

-- `assert!(p != ptr::null_mut())`
abbrev assert_not_null : {W : Type 0} → Ptr → Io W (Unit {0})
assert_not_null p = if p == null then panic else pure tt

module _ (c : Czmq) where
  open c use {World}

  -- `impl Drop`
  unfoldable pub drop : ZCertStore → Io World (Unit {0})
  unfolding tell
  drop s = if s.owned then tell c (zcertstore_destroy s.zcertstore) else pure tt

  unfoldable pub into_raw : ZCertStore → Io World Ptr
  unfolding drop
  into_raw s = do let s' = record s { owned = false }; drop s'; pure s'.zcertstore

  -- `location` as a C string, or a null pointer.
  location_c : Option Bytes → Io World (Option Bytes)
  unfolding try_c_string
  location_c none = pure none
  location_c (some l) = do l_c ← try_c_string l; pure (some l_c)

  unfoldable pub new : Option Bytes → Io World ZCertStore
  unfolding location_c ask_ptr
  new location = do
    l ← location_c location
    zcertstore ← ask_ptr c (zcertstore_new l)
    if zcertstore == null
        then fail (error null_ptr (Causes.zcertstore ZCertStoreError.instantiate))
        else pure (record { zcertstore = zcertstore; owned = true })

  -- Feature `draft`. Loaders and destructors are addresses of functions; `destructor_at` is that of
  -- `default_destructor`.
  unfoldable pub set_loader : Ptr → ZCertStore → Ptr → Io World (Unit {0})
  unfolding tell
  set_loader destructor_at s loader =
      tell c (zcertstore_set_loader s.zcertstore loader destructor_at null)

  unfoldable pub set_loader_with_state :
      Ptr → ZCertStore → Ptr → Ptr → Option Ptr → Io World (Unit {0})
  unfolding tell
  set_loader_with_state destructor_at s loader state destructor = tell c (
      zcertstore_set_loader s.zcertstore loader
        (elim destructor [ none ↦ destructor_at | some d ↦ d ]) state)

  unfoldable pub lookup : ZCertStore → Bytes → Io World (Option ZCert)
  unfolding try_c_string ask_ptr ZCert.from_raw
  lookup s public_key = do
    public_key_c ← try_c_string public_key
    zcert ← ask_ptr c (zcertstore_lookup s.zcertstore public_key_c)
    if zcert == null then pure none else pure (some (ZCert.from_raw zcert false))

  -- `&mut zcert.into_raw()`: C takes the certificate out of the slot, which is a temporary.
  unfoldable pub insert : ZCertStore → ZCert → Io World (Unit {0})
  unfolding ZCert.into_raw tell
  insert s zcert = do ptr ← ZCert.into_raw c zcert; tell c (zcertstore_insert s.zcertstore ptr)

  unfoldable pub empty : ZCertStore → Io World (Unit {0})
  unfolding tell
  empty s = tell c (zcertstore_empty s.zcertstore)

  -- `ptr::read(self.zcertstore)`, of which one field is used.
  read_state : ZCertStore → Io World Ptr
  read_state s m = done (c.state_field m.world s.zcertstore) m

  read_certs : ZCertStore → Io World Ptr
  read_certs s m = done (c.certs_field m.world s.zcertstore) m

  unfoldable pub get_state : ZCertStore → Io World (Option Colander)
  unfolding read_state Colander.from_raw
  get_state s = do
    assert_not_null s.zcertstore
    state ← read_state s
    if state == null then pure none else pure (some (Colander.from_raw state))

  unfoldable pub get_certs : ZCertStore → Io World ZHashX
  unfolding read_certs ZHashX.from_raw
  get_certs s = do
    assert_not_null s.zcertstore
    certs ← read_certs s
    assert_not_null certs
    pure (ZHashX.from_raw certs false)

  unfoldable pub print : ZCertStore → Io World (Unit {0})
  unfolding tell
  print s = tell c (zcertstore_print s.zcertstore)
