-- ===== src/ZCert/Meta/Wire.antt =====
-- The wire format by itself: what a list of properties is on the wire, and a parser for one
-- property that works on the bytes left instead of an index.
use rust_czmq.Prelude.{
  ℕ, ◌+◌, ◌*◌, ◌/◌, ◌%◌, ◌^◌, ◌<◌, ◌≡◌, ◌∙◌, bit_or, List, [], ◌∷◌, ◌++◌, arith, ltb, if◌then◌else◌,
  length, take, drop,
}
use rust_czmq.Prelude.Bits.{bit_or-shifted}
use rust_czmq.Rust.Text.{Bytes, IsText, is_utf8}
use rust_czmq.Error.{Error, from_utf8_error}
use rust_czmq.ZCert.Meta.{meta_error, value_length}

abbrev pub Property : Type 0
Property = Bytes × Bytes

abbrev pub IsByte : ℕ → Type 0
IsByte b = b < 256

-- What the format can carry: texts, with lengths that fit one byte and four bytes.
abbrev pub IsProperty : Property → Type 0
IsProperty (name, value) =
    IsText name × IsText value × (length name < 256) × (length value < 2 ^ 32)

-- A number in four bytes, the highest first, in front of `rest`.
abbrev pub be32 : ℕ → Bytes → Bytes
be32 n rest = (n / 2 ^ 24 % 256) ∷ (n / 2 ^ 16 % 256) ∷ (n / 2 ^ 8 % 256) ∷ (n % 256) ∷ rest

abbrev pub wire_property : Bytes → Bytes → Bytes → Bytes
wire_property name value rest = length name ∷ (name ++ be32 (length value) (value ++ rest))

-- The properties on the wire, in front of `tail`.
unfoldable pub wire : List Property → Bytes → Bytes
wire [] tail = tail
wire ((name, value) ∷ ps) tail = wire_property name value (wire ps tail)

pub data Parsed : Type 0 where
  property : Bytes → Bytes → Bytes → Parsed
  refused : Error → Parsed

unfoldable pub parse_text : ℕ → Bytes → Bytes → Parsed
parse_text n name rest =
    if ltb (length rest) n
    then refused meta_error
    else if is_utf8 (take n rest)
    then property name (take n rest) (drop n rest)
    else refused (from_utf8_error (take n rest))

unfoldable pub parse_value : Bytes → Bytes → Parsed
parse_value name (b0 ∷ b1 ∷ b2 ∷ b3 ∷ rest) = parse_text (value_length b0 b1 b2 b3) name rest
parse_value name _ = refused meta_error

unfoldable pub parse_property : Bytes → Parsed
parse_property [] = refused meta_error
parse_property (n ∷ rest) =
    if ltb (length rest) n
    then refused meta_error
    else if is_utf8 (take n rest)
    then parse_value (take n rest) (drop n rest)
    else refused (from_utf8_error (take n rest))

-- On bytes the shifts and the `|` are the number in base 256.
pub value_length-eq :
    (b0 b1 b2 b3 : ℕ)
    → IsByte b0
    → IsByte b1
    → IsByte b2
    → IsByte b3
    → value_length b0 b1 b2 b3 ≡ ((b0 * 256 + b1) * 256 + b2) * 256 + b3
unfolding value_length
value_length-eq b0 b1 b2 b3 h0 h1 h2 h3 =
    let m0 : b0 * 2 ^ 24 % 2 ^ 32 ≡ b0 * 2 ^ 24 = omega arith in
    let m1 : b1 * 2 ^ 16 % 2 ^ 32 ≡ b1 * 2 ^ 16 = omega arith in
    let m2 : b2 * 2 ^ 8 % 2 ^ 32 ≡ b2 * 2 ^ 8 = omega arith in
    let q1 = b0 * 256 + b1 in
    let q2 = q1 * 256 + b2 in
    let e1 : bit_or (b0 * 2 ^ 24) (b1 * 2 ^ 16) ≡ q1 * 2 ^ 16 =
      bit_or-shifted 24 b0 (b1 * 2 ^ 16) (omega arith) ∙ omega arith in
    let e2 : bit_or (q1 * 2 ^ 16) (b2 * 2 ^ 8) ≡ q2 * 2 ^ 8 =
      bit_or-shifted 16 q1 (b2 * 2 ^ 8) (omega arith) ∙ omega arith in
    rw (m0, m1, m2, e1, e2) (bit_or-shifted 8 q2 b3 (omega arith))

-- `be32` of a four-byte number gives it back, and of its bytes the number.
pub value_length-be32 :
    (n : ℕ)
    → n < 2 ^ 32
    → value_length (n / 2 ^ 24 % 256) (n / 2 ^ 16 % 256) (n / 2 ^ 8 % 256) (n % 256) ≡ n
value_length-be32 n h =
    value_length-eq _ _ _ _ (omega arith) (omega arith) (omega arith) (omega arith) ∙ omega arith

pub be32-value_length :
    (b0 b1 b2 b3 : ℕ) (rest : Bytes)
    → IsByte b0
    → IsByte b1
    → IsByte b2
    → IsByte b3
    → be32 (value_length b0 b1 b2 b3) rest ≡ b0 ∷ b1 ∷ b2 ∷ b3 ∷ rest
be32-value_length b0 b1 b2 b3 rest h0 h1 h2 h3 =
    rw (value_length-eq b0 b1 b2 b3 h0 h1 h2 h3) (ground arith)
