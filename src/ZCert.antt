-- ===== src/ZCert.antt =====
-- src/zcert.rs: certificates. The codec of their metadata is in Meta.
pub mod Meta
pub mod Keys
pub mod Saving
use rust_czmq.Prelude.{ℕ, ◌==◌, Bool, true, false, Option, none, some, [], if◌then◌else◌}
use rust_czmq.Rust.Text.{Bytes, is_utf8, Utf8Result, from_utf8, to_text, c_string_or_empty}
use rust_czmq.Error.{Error, error, null_ptr, non_zero, string_conversion}
use rust_czmq.Error.Causes
use rust_czmq.Error.Causes.{ZCertError, Foreign, invalid_cert, save_path, zmq_decode, decode_error}
use rust_czmq.Ffi.{
  Ptr, null, pos, minus_one, int_eq, Czmq, IntCall, Io, pure, fail, unwrap, ◌>>=◌, ◌>>◌,
  try_c_string, ask_ptr, ask_int, tell, read_bytes, read_text, raw_array,
}
use rust_czmq.Ffi.Calls.{
  zcert_new, zcert_new_from, zcert_load, zcert_destroy, zcert_public_key, zcert_secret_key,
  zcert_public_txt, zcert_secret_txt, zcert_set_meta, zcert_meta, zcert_meta_keys, zcert_save,
  zcert_save_public, zcert_save_secret, zcert_apply, zcert_dup, zcert_eq, zcert_print,
}
use rust_czmq.Raw.{Sockish}
use rust_czmq.ZList
use rust_czmq.ZList.{ZList}

abbrev pub key_size : ℕ
key_size = 32

pub record ZCert : Type 0 where
  pub zcert : Ptr
  pub owned : Bool

abbrev owning : Ptr → ZCert
owning p = record { zcert = p; owned = true }

unfoldable pub from_raw : Ptr → Bool → ZCert
from_raw ptr owned = record { zcert = ptr; owned = owned }

unfoldable pub as_mut_ptr : ZCert → Ptr
as_mut_ptr m = m.zcert

-- `impl convert::From<zmq::DecodeError> for Error`
abbrev pub from_decode_error : Bytes → Error
from_decode_error e = error string_conversion (Causes.zcert (zmq_decode (decode_error e)))

-- `try!(zmq::z85_decode(t))`
abbrev try_decode : {W : Type 0} → (Bytes → Option Bytes) → Bytes → Io W Bytes
try_decode z85_decode t = elim (z85_decode t) [
  | none ↦ fail (from_decode_error t)
  | some k ↦ pure k
]

module _ (c : Czmq) where
  open c use {World}

  -- `impl Drop`
  unfoldable pub drop : ZCert → Io World (Unit {0})
  unfolding tell
  drop m = if m.owned then tell c (zcert_destroy m.zcert) else pure tt

  -- The value is consumed: it is dropped when the pointer has been read.
  unfoldable pub into_raw : ZCert → Io World Ptr
  unfolding drop
  into_raw m = do let m' = record m { owned = false }; drop m'; pure m'.zcert

  unfoldable pub new : Io World ZCert
  unfolding ask_ptr
  new = do
    zcert ← ask_ptr c zcert_new
    if zcert == null
        then fail (error null_ptr (Causes.zcert ZCertError.instantiate))
        else pure (owning zcert)

  unfoldable pub from_keys : Bytes → Bytes → Io World ZCert
  unfolding ask_ptr raw_array
  from_keys public_key secret_key = do
    public ← raw_array c key_size public_key
    secret ← raw_array c key_size secret_key
    zcert ← ask_ptr c (zcert_new_from public secret)
    pure (owning zcert)

  -- `zmq::z85_decode` is a function of the zmq crate; `none` is its error.
  unfoldable pub from_txt : (Bytes → Option Bytes) → Bytes → Bytes → Io World ZCert
  unfolding from_keys
  from_txt z85_decode public_txt secret_txt = do
    public_key ← try_decode z85_decode public_txt
    secret_key ← try_decode z85_decode secret_txt
    from_keys public_key secret_key

  unfoldable pub load : Bytes → Io World ZCert
  unfolding ask_ptr try_c_string to_text
  load path = do
    path_str ← unwrap (to_text path)
    path_c ← try_c_string path_str
    zcert ← ask_ptr c (zcert_load path_c)
    if zcert == null
        then (do
          shown ← unwrap (to_text path_c)
          fail (error null_ptr (Causes.zcert (invalid_cert shown))))
        else pure (owning zcert)

  unfoldable pub public_key : ZCert → Io World Bytes
  unfolding ask_ptr read_bytes
  public_key m = do ptr ← ask_ptr c (zcert_public_key m.zcert); read_bytes c ptr key_size

  unfoldable pub secret_key : ZCert → Io World Bytes
  unfolding ask_ptr read_bytes
  secret_key m = do ptr ← ask_ptr c (zcert_secret_key m.zcert); read_bytes c ptr key_size

  -- `CStr::to_str().unwrap_or("")`
  unfoldable pub public_txt : ZCert → Io World Bytes
  unfolding ask_ptr read_text
  public_txt m = do
    ptr ← ask_ptr c (zcert_public_txt m.zcert)
    s ← read_text c ptr
    pure (if is_utf8 s then s else [])

  unfoldable pub secret_txt : ZCert → Io World Bytes
  unfolding ask_ptr read_text
  secret_txt m = do
    ptr ← ask_ptr c (zcert_secret_txt m.zcert)
    s ← read_text c ptr
    pure (if is_utf8 s then s else [])

  unfoldable pub set_meta : ZCert → Bytes → Bytes → Io World (Unit {0})
  unfolding tell
  set_meta m key value =
      tell c (zcert_set_meta m.zcert (c_string_or_empty key) (c_string_or_empty value))

  unfoldable pub meta : ZCert → Bytes → Io World (Option Utf8Result)
  unfolding ask_ptr read_text
  meta m key = do
    ptr ← ask_ptr c (zcert_meta m.zcert (c_string_or_empty key))
    if ptr == null then pure none else do s ← read_text c ptr; pure (some (from_utf8 s))

  unfoldable pub meta_keys : ZCert → Io World ZList
  unfolding ask_ptr ZList.from_raw
  meta_keys m = do ptr ← ask_ptr c (zcert_meta_keys m.zcert); pure (ZList.from_raw ptr)

  -- The three savers differ in the function that they call.
  save_with : (Ptr → Bytes → IntCall) → ZCert → Bytes → Io World (Unit {0})
  save_with saver m path = do
    path_str ← unwrap (to_text path)
    path_c ← try_c_string path_str
    rc ← ask_int c (saver m.zcert path_c)
    if int_eq rc minus_one
        then (do
          shown ← unwrap (to_text path_c)
          fail (error non_zero (Causes.zcert (save_path shown))))
        else pure tt

  unfoldable pub save : ZCert → Bytes → Io World (Unit {0})
  unfolding save_with
  save = save_with zcert_save

  unfoldable pub save_public : ZCert → Bytes → Io World (Unit {0})
  unfolding save_with
  save_public = save_with zcert_save_public

  unfoldable pub save_secret : ZCert → Bytes → Io World (Unit {0})
  unfolding save_with
  save_secret = save_with zcert_save_secret

  unfoldable pub apply : {S : Type 0} → ⦃k : Sockish World S⦄ → ZCert → S → Io World (Unit {0})
  unfolding tell
  apply ⦃k⦄ m sock = tell c (zcert_apply m.zcert (k.as_mut_ptr sock))

  unfoldable pub dup : ZCert → Io World ZCert
  unfolding ask_ptr
  dup m = do ptr ← ask_ptr c (zcert_dup m.zcert); pure (owning ptr)

  unfoldable pub eq : ZCert → ZCert → Io World Bool
  unfolding ask_int
  eq m cert = do result ← ask_int c (zcert_eq m.zcert cert.zcert); pure (int_eq result (pos 1))

  unfoldable pub print : ZCert → Io World (Unit {0})
  print m = tell c (zcert_print m.zcert)
