-- ===== src/ZCert/Meta.antt =====
-- src/zcert.rs: `encode_meta` and `decode_meta`, the ZMTP wire format of a certificate's metadata:
-- for each property a length byte and the name, four length bytes and the value.
pub mod Decoding
pub mod Outcome
pub mod Encoding
pub mod Parse
pub mod RoundTrip
pub mod LongNames
pub mod Copy
pub mod Wire
use rust_czmq.Prelude.{
  ℕ, zero, suc, ◌+◌, ◌-◌, ◌*◌, ◌/◌, ◌%◌, ◌^◌, bit_and, bit_or, Option, none, some, [], ◌∷◌, ◌++◌,
  ltb, if◌then◌else◌, length, get_elem?,
}
use rust_czmq.Rust.Text.{Bytes, Utf8Result, text, raw}
use rust_czmq.Rust.Slice.{slice}
use rust_czmq.Error.{Error, error, invalid_arg}
use rust_czmq.Error.Causes.{zcert, invalid_meta_encoded}
use rust_czmq.Ffi.{Czmq, Io, pure, fail, unwrap, out_of_fuel, ◌>>=◌, ◌>>◌, try_utf8}
use rust_czmq.ZList
use rust_czmq.ZList.{ZList}
use rust_czmq.ZCert.{ZCert, meta, meta_keys, set_meta}

abbrev pub meta_error : Error
meta_error = error invalid_arg (zcert invalid_meta_encoded)

-- What one round of the loop pushes. `as u8` keeps the lowest byte.
unfoldable pub encode_property : Bytes → Bytes → Bytes
encode_property metakey metaval =
    (length metakey % 256) ∷ []
    ++ (metakey
        ++ ((bit_and (length metaval / 2 ^ 24) 0xff % 256)
            ∷ (bit_and (length metaval / 2 ^ 16) 0xff % 256)
            ∷ (bit_and (length metaval / 2 ^ 8) 0xff % 256)
            ∷ (bit_and (length metaval) 0xff % 256)
            ∷ metaval))

-- `if let Some(Ok(metaval)) = self.meta(metakey)`
unfoldable pub push_property : Bytes → Bytes → Option Utf8Result → Bytes
push_property encoded metakey (some (text metaval)) = encoded ++ encode_property metakey metaval
push_property encoded metakey (some (raw _)) = encoded
push_property encoded metakey none = encoded

-- `(b0 as u32) << 24 | (b1 as u32) << 16 | (b2 as u32) << 8 | b3 as u32`
unfoldable pub value_length : ℕ → ℕ → ℕ → ℕ → ℕ
value_length b0 b1 b2 b3 =
    bit_or (bit_or (bit_or (b0 * 2 ^ 24 % 2 ^ 32) (b1 * 2 ^ 16 % 2 ^ 32)) (b2 * 2 ^ 8 % 2 ^ 32)) b3

module _ (c : Czmq) where
  open c use {World}

  -- The rounds of the `for` loop, on fuel; a property with no value, or one that is no text, is
  -- passed over.
  encode_loop : ℕ → ZCert → ZList → Bytes → Io World Bytes
  encode_loop zero m keys encoded = out_of_fuel
  encode_loop (suc fuel) m keys encoded = do
    item ← ZList.next c keys
    elim item [
      | none ↦ pure encoded
      | some metakey ↦ (do
        metaval ← meta c m metakey
        encode_loop fuel m keys (push_property encoded metakey metaval))
    ]

  unfoldable pub encode_meta : ℕ → ZCert → Io World Bytes
  unfolding encode_loop
  encode_meta fuel m = do keys ← meta_keys c m; encode_loop fuel m keys []

  -- The second half of a round of the `while` loop, for the value of the property `name`.
  unfoldable pub decode_value : ZCert → Bytes → Bytes → ℕ → ℕ → Io World (ℕ × ℕ)
  decode_value m encoded name index bytes_left = if ltb bytes_left 4 then fail meta_error else do
    b0 ← unwrap (get_elem? encoded index)
    b1 ← unwrap (get_elem? encoded (index + 1))
    b2 ← unwrap (get_elem? encoded (index + 2))
    b3 ← unwrap (get_elem? encoded (index + 3))
    let n = value_length b0 b1 b2 b3
    let index = index + 4
    let bytes_left = bytes_left - 4
    if ltb bytes_left n then fail meta_error else do
      value_bytes ← unwrap (slice encoded index (index + n))
      value ← try_utf8 value_bytes
      set_meta c m name value
      pure (index + n, bytes_left - n)

  -- One round: the index and the number of bytes left behind the property.
  unfoldable pub decode_property : ZCert → Bytes → ℕ → ℕ → Io World (ℕ × ℕ)
  decode_property m encoded index bytes_left = do
    name_length ← elim (get_elem? encoded index) [ none ↦ fail meta_error | some b ↦ pure b ]
    let index = index + 1
    let bytes_left = bytes_left - 1
    if ltb bytes_left name_length then fail meta_error else do
      name_bytes ← unwrap (slice encoded index (index + name_length))
      name ← try_utf8 name_bytes
      decode_value m encoded name (index + name_length) (bytes_left - name_length)

  unfoldable pub decode_loop : ℕ → ZCert → Bytes → ℕ → ℕ → Io World (Unit {0})
  decode_loop zero m encoded index bytes_left = out_of_fuel
  decode_loop (suc fuel) m encoded index bytes_left =
      if ltb 1 bytes_left
      then (do
        (index', left') ← decode_property m encoded index bytes_left
        decode_loop fuel m encoded index' left')
      else pure tt

  -- Each round takes at least five bytes, so as many rounds as there are bytes are enough.
  unfoldable pub decode_meta : ZCert → Bytes → Io World (Unit {0})
  decode_meta m encoded = decode_loop (suc (length encoded)) m encoded 0 (length encoded)
