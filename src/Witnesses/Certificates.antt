-- ===== src/Witnesses/Certificates.antt =====
-- A library with one certificate store in memory, and a run with it.
use rust_czmq.Prelude.{◌≡◌, refl, true, false, none, some, [], ◌∷◌, List, if◌then◌else◌, ◌==◌}
use rust_czmq.Rust.Text.{Bytes, ascii, bytes_eq, has_nul}
use rust_czmq.Ffi.{Ptr, null, pos, PtrCall, VoidCall, Czmq, Machine, done}
use rust_czmq.Ffi.Calls.{zcertstore_insert, zcertstore_lookup}
use rust_czmq.ZCert.{ZCert}
use rust_czmq.ZCertStore.{ZCertStore, lookup}
use rust_czmq.ZCertStore.Lookup.{StoreLaws, insert_all, lookup-insert_all}
use rust_czmq.ZHashX.Map.{Table, changed, pointer_of}

abbrev public_key : Ptr → Bytes
public_key z = if z == 5 then ascii "a" else ascii "b"

abbrev store_ptr_call : PtrCall → Table → Ptr × Table
store_ptr_call (zcertstore_lookup p k) w = (pointer_of (w k), w)
store_ptr_call _ w = (1, w)

abbrev store_void_call : VoidCall → Table → Table
store_void_call (zcertstore_insert p z) w = changed w (public_key z) (some z)
store_void_call _ w = w

abbrev with_store : Czmq
with_store = record {
  World = Table;
  ptr_call = store_ptr_call;
  int_call = λ q w. (pos 0, w);
  size_call = λ q w. (0, w);
  slot_call = λ q w. (pos 0, null, w);
  void_call = store_void_call;
  pipe_call = λ w. (1, 2, w);
  bytes_at = λ w p n. [];
  text_at = λ w p. [];
  beyond = λ w b. [];
  freed_text = λ w b. [];
  state_field = λ w p. 1;
  certs_field = λ w p. 1;
}

unfoldable store_laws : StoreLaws with_store 3
store_laws = record {
  certs = λ w. w;
  key_of = λ w. public_key;
  insert_call = λ w z free. (refl, refl);
  lookup_call = λ w k. refl;
}

abbrev store : ZCertStore
store = record { zcertstore = 3; owned = true }

abbrev certificate : Ptr → ZCert
certificate p = record { zcert = p; owned = true }

abbrev two : List ZCert
two = certificate 5 ∷ certificate 6 ∷ []

abbrev start : Machine with_store.World
start = record { world = λ k. none; trace = [] }

lookup-insert_all_example :
    (s s' : Machine with_store.World) × (insert_all with_store store two start ≡ done tt s)
    × (lookup with_store store (ascii "b") s ≡ done (some (record { zcert = 6; owned = false })) s')
unfolding store_laws bytes_eq has_nul
lookup-insert_all_example =
    lookup-insert_all with_store store store_laws two (ascii "b") start (refl, (refl, tt)) refl
