-- ===== src/Witnesses/Meta.antt =====
-- The codec of metadata on one property, "n" = "v".
use rust_czmq.Prelude.{◌≡◌, refl, true, ◌∷◌, [], arith, ◌++◌}
use rust_czmq.Rust.Text.{Bytes, ascii, is_utf8, has_nul, bytes_eq}
use rust_czmq.Ffi.{Event, Machine, done, failed}
use rust_czmq.Ffi.Calls.{zcert_new_from}
use rust_czmq.ZCert.{ZCert, from_keys}
use rust_czmq.ZCert.Keys.{from_keys_lem, key_seen}
use rust_czmq.ZCert.Meta.{decode_meta, encode_meta, encode_property}
use rust_czmq.ZCert.Meta.Encoding.{encode_meta_lem, properties_of, encode_all}
use rust_czmq.ZCert.Meta.Outcome.{Outcome, set_each, decode_meta-Outcome}
use rust_czmq.ZCert.Meta.RoundTrip.{decode_meta-wire, decode_meta-encode_meta}
use rust_czmq.ZCert.Meta.LongNames.{refusal, cut_name, encode_property-long_name}
use rust_czmq.ZCert.Meta.Wire.{wire}
use rust_czmq.Witnesses.Toy.{with_cert, with_cert_laws, name}

abbrev cert : ZCert
cert = record { zcert = 1; owned = true }

abbrev start : Machine with_cert.World
start = record { world = ([], []); trace = [] }

abbrev encoded : Bytes
encoded = 1 ∷ 110 ∷ 0 ∷ 0 ∷ 0 ∷ 1 ∷ 118 ∷ 0 ∷ 9 ∷ []

decode_meta-Outcome_example :
    Outcome with_cert cert encoded start (decode_meta with_cert cert encoded start)
decode_meta-Outcome_example = decode_meta-Outcome with_cert cert encoded start (ground arith)

decode_meta-wire_example :
    decode_meta with_cert cert (wire ((name, ascii "v") ∷ []) (5 ∷ [])) start
    ≡ set_each with_cert cert ((name, ascii "v") ∷ []) start
unfolding is_utf8
decode_meta-wire_example =
    decode_meta-wire with_cert cert ((name, ascii "v") ∷ []) (5 ∷ []) start
      ((refl, refl, ground arith, ground arith), tt) (ground arith)

encode_meta_lem_example :
    (s' : Machine with_cert.World) × (encode_meta with_cert 2 cert start
      ≡ done
          (encode_all (
            properties_of
              (with_cert_laws.value_of start.world 1)
              (with_cert_laws.keys_of start.world 1)))
          s')
unfolding is_utf8 has_nul with_cert_laws
encode_meta_lem_example =
    encode_meta_lem with_cert with_cert_laws cert 2 start (ground arith) ((refl, refl), tt)

decode_meta-encode_meta_example :
    (encoded' : Bytes) × (s' : Machine with_cert.World) × (encode_meta with_cert 2 cert start
      ≡ done encoded' s')
    × (decode_meta with_cert cert encoded' start
        ≡ set_each with_cert cert
            (properties_of
              (with_cert_laws.value_of start.world 1)
              (with_cert_laws.keys_of start.world 1))
            start)
unfolding is_utf8 has_nul with_cert_laws properties_of bytes_eq
decode_meta-encode_meta_example =
    decode_meta-encode_meta with_cert with_cert_laws cert cert 2 start start (ground arith)
      ((refl, refl), tt) ((refl, refl, ground arith, ground arith), tt)

abbrev sixteen : Bytes → Bytes
sixteen b = b ++ b ++ b ++ b ++ b ++ b ++ b ++ b ++ b ++ b ++ b ++ b ++ b ++ b ++ b ++ b

abbrev long_name : Bytes
long_name = sixteen (sixteen (97 ∷ []))

encode_property-long_name_example :
    decode_meta with_cert cert (encode_property long_name (ascii "v")) start
    ≡ failed (refusal (cut_name long_name (ascii "v"))) start
encode_property-long_name_example =
    encode_property-long_name long_name (ascii "v") with_cert cert start (ground arith)
      (ground arith) (ground arith)

from_keys_lem_example :
    from_keys with_cert (1 ∷ []) (2 ∷ []) start
    ≡ done
        (record { zcert = 1; owned = true })
        (record {
          world = ([], []);
          trace =
              Event.got_ptr
                (zcert_new_from
                  (key_seen with_cert start (1 ∷ []))
                  (key_seen with_cert start (2 ∷ [])))
                1
              ∷ [];
        })
from_keys_lem_example = from_keys_lem with_cert start (1 ∷ []) (2 ∷ [])
