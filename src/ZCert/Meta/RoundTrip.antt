-- ===== src/ZCert/Meta/RoundTrip.antt =====
-- Decoding what was encoded.
use rust_czmq.Prelude.{
  ℕ, zero, suc, ◌+◌, ◌≤◌, ◌<◌, ◌≡◌, ◌∙◌, refl, List, [], ◌∷◌, ◌++◌, arith, length, All,
  length-append,
}
use rust_czmq.Rust.Text.{Bytes}
use rust_czmq.Ffi.{Czmq, Machine, done}
use rust_czmq.ZCert.{ZCert}
use rust_czmq.ZCert.Meta.{encode_meta, decode_loop, decode_meta}
use rust_czmq.ZCert.Meta.Wire.{Property, IsProperty, be32, wire}
use rust_czmq.ZCert.Meta.Parse.{parse_property-wire_property}
use rust_czmq.ZCert.Meta.Decoding.{At}
use rust_czmq.ZCert.Meta.Outcome.{At-next, set_each, after, set_meta-after, decode_loop_round}
use rust_czmq.ZCert.Meta.Encoding.{
  CertLaws, IsKey, properties_of, encode_all, encode_meta_lem, encode_all-wire,
}

module _ (c : Czmq) (m : ZCert) where
  open c use {World}

  decode_loop-wire :
      (encoded tail : Bytes) (ps : List Property) (fuel i : ℕ) (s : Machine World)
      → length tail ≤ 1
      → length (wire ps tail) < fuel
      → At encoded i (wire ps tail)
      → All IsProperty ps
      → decode_loop c fuel m encoded i (length (wire ps tail)) s ≡ set_each c m ps s
  unfolding wire set_each
  decode_loop-wire encoded tail ps zero i s short f a h = absurd (omega arith)
  decode_loop-wire encoded [] [] (suc fuel) i s short f a h = unfold decode_loop in refl
  decode_loop-wire encoded (b ∷ []) [] (suc fuel) i s short f a h = unfold decode_loop in refl
  decode_loop-wire encoded (b ∷ b' ∷ r) [] (suc fuel) i s short f a h = absurd (omega arith)
  decode_loop-wire encoded tail ((name, value) ∷ ps) (suc fuel) i s short f a (ok, h) =
      let rest = wire ps tail in
      let behind = be32 (length value) (value ++ rest) in
      let long : length (name ++ behind) ≡ length name + (4 + (length value + length rest)) =
        length-append name behind ∙ omega (arith, length-append value rest) in
      rw
        (
          decode_loop_round c m encoded fuel (length name) (name ++ behind) i s
              (omega (arith, long)) a,
          parse_property-wire_property name value rest ok,
          set_meta-after c m name value s,
        )
        (decode_loop-wire encoded tail ps fuel _ (after c m name value s) short
          (omega (arith, long)) (At-next name value a) h)

  -- `decode_meta` accepts each list of properties that fit the format, in wire format with at most
  -- one byte behind it, and sets them in order.
  pub decode_meta-wire :
      (ps : List Property) (tail : Bytes) (s : Machine World)
      → All IsProperty ps
      → length tail ≤ 1
      → decode_meta c m (wire ps tail) s ≡ set_each c m ps s
  unfolding decode_meta
  decode_meta-wire ps tail s h short =
      decode_loop-wire (wire ps tail) tail ps _ 0 s short (omega arith)
        (record { behind = refl; size = omega arith }) h

-- By the laws of the library, with more fuel than the certificate has keys, and if its keys and
-- its properties that are texts fit the format: `encode_meta` returns bytes, and `decode_meta` of
-- these bytes on any certificate sets the properties in the order of the keys.
pub decode_meta-encode_meta :
    (c : Czmq) (laws : CertLaws c) (m m' : ZCert) (fuel : ℕ) (s t : Machine c.World)
    → length (laws.keys_of s.world m.zcert) < fuel
    → All IsKey (laws.keys_of s.world m.zcert)
    → All IsProperty (properties_of (laws.value_of s.world m.zcert) (laws.keys_of s.world m.zcert))
    → (encoded : Bytes) × (s' : Machine c.World) × (encode_meta c fuel m s ≡ done encoded s')
      × (decode_meta c m' encoded t
          ≡ set_each c m'
              (properties_of (laws.value_of s.world m.zcert) (laws.keys_of s.world m.zcert))
              t)
decode_meta-encode_meta c laws m m' fuel s t f keys h =
    let ps = properties_of (laws.value_of s.world m.zcert) (laws.keys_of s.world m.zcert) in
    let (s', e) = encode_meta_lem c laws m fuel s f keys in
    (
      encode_all ps,
      s',
      e,
      rw (encode_all-wire ps h) (decode_meta-wire c m' ps [] t h (omega arith)),
    )
