-- ===== src/Witnesses/Toy.antt =====
-- Libraries to run the code with: one that always replies the same, and one with a certificate.
use rust_czmq.Prelude.{ℕ, ◌≡◌, ◌≢◌, refl, Option, none, some, List, [], ◌∷◌, arith, if◌then◌else◌}
use rust_czmq.Rust.Text.{Bytes, ascii, bytes_eq}
use rust_czmq.Ffi.{Ptr, null, ℤ, pos, PtrCall, Czmq}
use rust_czmq.Ffi.Calls.{zcert_meta, zcert_meta_keys, zlist_next}
use rust_czmq.ZCert.Meta.Encoding.{CertLaws}

-- Replies that do not depend on the state: pointers, codes, what a slot call leaves, and a text.
abbrev pub constant : (PtrCall → Ptr) → ℤ → Ptr → Bytes → Czmq
constant ptr code slot text = record {
  World = ℕ;
  ptr_call = λ q w. (ptr q, w);
  int_call = λ q w. (code, w);
  size_call = λ q w. (3, w);
  slot_call = λ q w. (code, slot, w);
  void_call = λ q w. w;
  pipe_call = λ w. (1, 2, w);
  bytes_at = λ w p n. text;
  text_at = λ w p. text;
  beyond = λ w b. 7 ∷ 0 ∷ 9 ∷ [];
  freed_text = λ w b. [];
  state_field = λ w p. 1;
  certs_field = λ w p. 1;
}

-- The state of the second library: the keys left in the list, and the text at each pointer.
abbrev pub CertState : Type 0
CertState = List Bytes × Bytes

abbrev pub name : Bytes
name = ascii "n"

-- A certificate with one property.
abbrev pub value_for : Bytes → Option Bytes
value_for k = if bytes_eq k name then some (ascii "v") else none

abbrev pub shown_at : Option Bytes → CertState → Ptr × CertState
shown_at none w = (null, w)
shown_at (some v) (left, _) = (1, (left, v))

abbrev pub next_key : CertState → Ptr × CertState
next_key ([], shown) = (null, ([], shown))
next_key (k ∷ ks, shown) = (1, (ks, k))

abbrev cert_call : PtrCall → CertState → Ptr × CertState
cert_call (zcert_meta_keys m) (_, shown) = (1, (name ∷ [], shown))
cert_call (zlist_next l) w = next_key w
cert_call (zcert_meta m k) w = shown_at (value_for k) w
cert_call _ w = (1, w)

abbrev pub with_cert : Czmq
with_cert = record {
  World = CertState;
  ptr_call = cert_call;
  int_call = λ q w. (pos 0, w);
  size_call = λ q w. (3, w);
  slot_call = λ q w. (pos 0, null, w);
  void_call = λ q w. w;
  pipe_call = λ w. (1, 2, w);
  bytes_at = λ w p n. [];
  text_at = λ w p. w.1;
  beyond = λ w b. [];
  freed_text = λ w b. [];
  state_field = λ w p. 1;
  certs_field = λ w p. 1;
}

pub next_key_end : (w : CertState) → w.0 ≡ [] → (next_key w).0 ≡ null
next_key_end ([], _) h = refl
next_key_end (k ∷ ks, _) h = ground arith

pub next_key_lem :
    (w : CertState) (k : Bytes) (ks : List Bytes)
    → w.0 ≡ k ∷ ks
    → ((next_key w).0 ≢ null) × ((next_key w).1.1 ≡ k) × ((next_key w).1.0 ≡ ks)
next_key_lem ([], _) k ks h = ground arith
next_key_lem (j ∷ js, _) k ks h = ground arith

pub shown_at_none : (o : Option Bytes) (w : CertState) → o ≡ none → (shown_at o w).0 ≡ null
shown_at_none none w h = refl
shown_at_none (some v) w h = ground arith

pub shown_at_some :
    (o : Option Bytes) (w : CertState) (v : Bytes)
    → o ≡ some v
    → ((shown_at o w).0 ≢ null) × ((shown_at o w).1.1 ≡ v)
shown_at_some none w v h = ground arith
shown_at_some (some u) w v h = ground arith

pub shown_at_left : (o : Option Bytes) (w : CertState) → (shown_at o w).1.0 ≡ w.0
shown_at_left none w = refl
shown_at_left (some v) (left, _) = refl

unfoldable pub with_cert_laws : CertLaws with_cert
unfolding next_key_end next_key_lem shown_at_none shown_at_some shown_at_left
with_cert_laws = record {
  keys_of = λ w m. name ∷ [];
  value_of = λ w m k. value_for k;
  left_in = λ w l. w.0;
  keys_call = λ w m. (refl, refl);
  next_at_end = λ w l h. next_key_end w h;
  next_call = λ w l k ks h. let (a, b, d) = next_key_lem w k ks h in (a, b, d, refl);
  meta_missing = λ w m k h. shown_at_none (value_for k) w h;
  meta_call = λ w m k v h. shown_at_some (value_for k) w v h;
  meta_keeps = λ w m k. (λ i l. shown_at_left (value_for k) w i, refl);
}
