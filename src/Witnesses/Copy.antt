-- ===== src/Witnesses/Copy.antt =====
-- A library with the metadata of certificates that can be set, and a copy with it.
use rust_czmq.Prelude.{
  ◌==◌, ◌≡◌, refl, true, false, Option, none, some, [], ◌∷◌, arith, if◌then◌else◌,
}
use rust_czmq.Rust.Text.{Bytes, ascii, bytes_eq, is_utf8, has_nul}
use rust_czmq.Ffi.{Ptr, null, pos, PtrCall, VoidCall, Czmq, Machine, done}
use rust_czmq.Ffi.Calls.{zcert_meta, zcert_meta_keys, zcert_set_meta, zlist_next}
use rust_czmq.Witnesses.Toy.{
  CertState, name, value_for, next_key, shown_at, next_key_end, next_key_lem, shown_at_none,
  shown_at_some, shown_at_left,
}
use rust_czmq.ZCert.{ZCert}
use rust_czmq.ZCert.Meta.{encode_meta, decode_meta}
use rust_czmq.ZCert.Meta.Copy.{meta-decode_meta, has_key, text_value, IsCText}
use rust_czmq.ZCert.Meta.Encoding.{CertLaws, properties_of}

-- The properties of each certificate.
abbrev Values : Type 0
Values = Ptr → Bytes → Option Bytes

abbrev State : Type 0
State = Values × CertState

abbrev with_values : Values → Ptr × CertState → Ptr × State
with_values f (p, w) = (p, (f, w))

abbrev copy_ptr_call : PtrCall → State → Ptr × State
copy_ptr_call (zcert_meta_keys m) (f, (_, shown)) = (1, (f, (name ∷ [], shown)))
copy_ptr_call (zlist_next l) (f, w) = with_values f (next_key w)
copy_ptr_call (zcert_meta m k) (f, w) = with_values f (shown_at (f m k) w)
copy_ptr_call _ w = (1, w)

abbrev copy_void_call : VoidCall → State → State
copy_void_call (zcert_set_meta m k v) (f, w) =
    (λ p j. if p == m then (if bytes_eq j k then some v else f p j) else f p j, w)
copy_void_call _ w = w

abbrev copying : Czmq
copying = record {
  World = State;
  ptr_call = copy_ptr_call;
  int_call = λ q w. (pos 0, w);
  size_call = λ q w. (0, w);
  slot_call = λ q w. (pos 0, null, w);
  void_call = copy_void_call;
  pipe_call = λ w. (1, 2, w);
  bytes_at = λ w p n. [];
  text_at = λ w p. w.1.1;
  beyond = λ w b. [];
  freed_text = λ w b. [];
  state_field = λ w p. 1;
  certs_field = λ w p. 1;
}

unfoldable copying_laws : CertLaws copying
copying_laws = record {
  keys_of = λ w m. name ∷ [];
  value_of = λ w. w.0;
  left_in = λ w l. w.1.0;
  keys_call = λ w m. (refl, refl);
  next_at_end = λ w l h. next_key_end w.1 h;
  next_call = λ w l k ks h. let (a, b, d) = next_key_lem w.1 k ks h in (a, b, d, refl);
  meta_missing = λ w m k h. shown_at_none (w.0 m k) w.1 h;
  meta_call = λ w m k v h. shown_at_some (w.0 m k) w.1 v h;
  meta_keeps = λ w m k. (λ i l. shown_at_left (w.0 m k) w.1 i, refl);
}

set_call :
    (w : State) (m : Ptr) (k v j : Bytes)
    → copying_laws.value_of w m k ≡ none
    → copying_laws.value_of (copy_void_call (zcert_set_meta m k v) w) m j
      ≡ (if bytes_eq j k then some v else copying_laws.value_of w m j)
unfolding copying_laws
set_call w m k v j missing = let e : (m == m) ≡ true = ground arith in rw e

-- The first certificate has one property, and no other has any.
abbrev first_values : Values
first_values p k = if p == 1 then value_for k else none

abbrev start : Machine State
start = record { world = (first_values, ([], [])); trace = [] }

abbrev cert : ZCert
cert = record { zcert = 1; owned = true }

abbrev other : ZCert
other = record { zcert = 2; owned = true }

clean : (k : Bytes) → IsCText (value_for k)
unfolding has_nul
clean k = elim (bytes_eq k name) as (λ b. IsCText (if b then some (ascii "v") else none)) [
  | true ↦ refl
  | false ↦ tt
]

meta-decode_meta_example :
    (encoded : Bytes) × (s' t' : Machine State) × (encode_meta copying 2 cert start
      ≡ done encoded s')
    × (decode_meta copying other encoded start ≡ done tt t')
    × ((j : Bytes)
        → copying_laws.value_of t'.world 2 j ≡ (
            if has_key j (name ∷ [])
            then text_value (first_values 1 j)
            else copying_laws.value_of start.world 2 j))
unfolding is_utf8 has_nul copying_laws properties_of bytes_eq
meta-decode_meta_example =
    meta-decode_meta copying copying_laws set_call other cert 2 start start (ground arith) (tt, tt)
      ((refl, refl), tt) ((refl, refl, ground arith, ground arith), tt) clean (refl, tt)
