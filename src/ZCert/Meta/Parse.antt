-- ===== src/ZCert/Meta/Parse.antt =====
-- The parser of one property undoes the wire format, and accepts nothing else.
use rust_czmq.Prelude.{
  ℕ, zero, suc, ◌^◌, ◌<◌, ◌≡◌, sym, ap, Bool-cases, inl, inr, true, false, [], ◌∷◌, ◌++◌, arith,
  ltb, length, take, drop, All, length-append, length-take, length-drop, take-append, drop-append,
  take-append-drop,
}
use rust_czmq.Rust.Text.{Bytes, is_utf8}
use rust_czmq.ZCert.Meta.{value_length}
use rust_czmq.ZCert.Meta.Wire.{
  IsByte, IsProperty, property, be32, wire_property, parse_text, parse_value, parse_property,
  value_length-be32, value_length-eq, be32-value_length,
}

parse_text-append :
    (name value rest : Bytes)
    → is_utf8 value ≡ true
    → parse_text (length value) name (value ++ rest) ≡ property name value rest
unfolding parse_text
parse_text-append name value rest h =
    let fits : ltb (length (value ++ rest)) (length value) ≡ false =
      ground (arith, length-append value rest) in
    rw (fits, take-append, drop-append, h)

-- A property that the format can carry is read back, whatever follows it.
pub parse_property-wire_property :
    (name value rest : Bytes)
    → IsProperty (name, value)
    → parse_property (wire_property name value rest) ≡ property name value rest
unfolding parse_property parse_value
parse_property-wire_property name value rest (hn, hv, short, fits) =
    let tail = be32 (length value) (value ++ rest) in
    let long : ltb (length (name ++ tail)) (length name) ≡ false =
      ground (arith, length-append name tail) in
    rw
      (
        long,
        take-append name tail,
        drop-append name tail,
        hn,
        value_length-be32 (length value) fits,
      )
      (parse_text-append name value rest hv)

pub All-drop : (n : ℕ) (xs : Bytes) → All IsByte xs → All IsByte (drop n xs)
All-drop zero xs h = h
All-drop (suc n) [] h = h
All-drop (suc n) (x ∷ xs) h = All-drop n xs h.1

-- What a parsed text says of the bytes: `n` of them are the value, and the others follow.
record Cut (n : ℕ) (bytes value rest : Bytes) : Type 0 where
  whole : bytes ≡ value ++ rest
  size : length value ≡ n
  is_text : is_utf8 value ≡ true

parse_text-Cut :
    (n : ℕ) (name bytes : Bytes) {name' value rest : Bytes}
    → parse_text n name bytes ≡ property name' value rest
    → (name' ≡ name) × (rest ≡ drop n bytes) × Cut n bytes value rest
unfolding parse_text
parse_text-Cut n name bytes h = ground (arith, take-append-drop n bytes, length-take n bytes)

-- The parts of a parsed property, as the wire format has them.
pub record Read (bytes name value rest : Bytes) : Type 0 where
  pub whole : bytes ≡ wire_property name value rest
  pub can_carry : IsProperty (name, value)
  pub are_bytes : All IsByte rest
  pub shorter : length rest < length bytes

parse_value_read :
    (name bytes : Bytes) {name' value rest : Bytes}
    → All IsByte bytes
    → parse_value name bytes ≡ property name' value rest
    → (name' ≡ name)
      × (bytes ≡ be32 (length value) (value ++ rest))
      × (is_utf8 value ≡ true)
      × (length value < 2 ^ 32)
      × All IsByte rest
      × (length rest < length bytes)
unfolding parse_value
parse_value_read name (b0 ∷ b1 ∷ b2 ∷ b3 ∷ tail) {value} {rest} (h0, (h1, (h2, (h3, hs)))) h =
    let n = value_length b0 b1 b2 b3 in
    let (same, behind, cut) = parse_text-Cut n name tail h in
    let e : be32 n tail ≡ b0 ∷ b1 ∷ b2 ∷ b3 ∷ tail =
      be32-value_length b0 b1 b2 b3 tail h0 h1 h2 h3 in
    (
      same,
      rw (cut.size, ← cut.whole) (sym e),
      cut.is_text,
      omega (arith, cut.size, value_length-eq b0 b1 b2 b3 h0 h1 h2 h3),
      rw behind (All-drop n tail hs),
      omega (arith, ap length cut.whole, length-append value rest),
    )
parse_value_read name _ hs h = ground arith

-- A property that the parser reads stands on the wire in the one form there is.
pub parse_property-Read :
    (bytes : Bytes) {name value rest : Bytes}
    → All IsByte bytes
    → parse_property bytes ≡ property name value rest
    → Read bytes name value rest
unfolding parse_property
parse_property-Read [] hs h = ground arith
parse_property-Read (n ∷ tail) {name} {value} {rest} (hn, hs) h =
    elim (Bool-cases (ltb (length tail) n)) [
      | inl short ↦ cc (rw short at h)
      | inr long ↦ elim (Bool-cases (is_utf8 (take n tail))) [
        | inr bad ↦ cc (rw (long, bad) at h)
        | inl good ↦
            let p : parse_value (take n tail) (drop n tail) ≡ property name value rest =
              rw (long, good) at h in
            let (same, form, text, fits, bytes, less) =
              parse_value_read (take n tail) (drop n tail) (All-drop n tail hs) p in
            let size : length (take n tail) ≡ n = ground (arith, length-take n tail) in
            let parts = take-append-drop n tail in
            record {
              whole = rw (same, size, ← form, parts);
              can_carry = rw (same, size) (good, text, hn, fits);
              are_bytes = bytes;
              shorter = omega (arith, less, length-drop n tail);
            }
      ]
    ]
