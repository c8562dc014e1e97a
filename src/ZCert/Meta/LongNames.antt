-- ===== src/ZCert/Meta/LongNames.antt =====
-- What becomes of a property whose name does not fit its length byte.
use rust_czmq.Prelude.{
  ℕ, zero, suc, ◌+◌, ◌-◌, ◌/◌, ◌%◌, ◌^◌, bit_and, ◌≤◌, ◌<◌, ◌≡◌, ◌∙◌, refl, sym, ap, Bool-cases,
  inl, inr, true, false, [], ◌∷◌, ◌++◌, arith, ltb, if◌then◌else◌, length, take, drop, All,
  length-append, length-take, length-drop, take-append, drop-append, take-append-drop,
}
use mathlib.Core.List.{append_assoc}
use rust_czmq.Rust.Text.{Bytes, is_utf8}
use rust_czmq.Error.{Error, from_utf8_error}
use rust_czmq.Ffi.{Czmq, Machine, failed}
use rust_czmq.ZCert.{ZCert}
use rust_czmq.ZCert.Meta.{meta_error, value_length, encode_property, decode_meta}
use rust_czmq.ZCert.Meta.Wire.{refused, parse_text, parse_value, parse_property, value_length-eq}
use rust_czmq.ZCert.Meta.Decoding.{At}
use rust_czmq.ZCert.Meta.Outcome.{decode_loop_round}

abbrev pub IsNonzeroByte : ℕ → Type 0
IsNonzeroByte b = (0 < b) × (b < 256)

All-drop : (n : ℕ) (xs : Bytes) → All IsNonzeroByte xs → All IsNonzeroByte (drop n xs)
All-drop zero xs h = h
All-drop (suc n) [] h = h
All-drop (suc n) (x ∷ xs) h = All-drop n xs h.1

-- Four bytes of a name are read as a length that is too large.
parse_value-large :
    (name d x : Bytes)
    → All IsNonzeroByte d
    → 4 ≤ length d
    → length d + length x < 2 ^ 24
    → parse_value name (d ++ x) ≡ refused meta_error
unfolding parse_value parse_text
parse_value-large name [] x h four small = absurd (omega arith)
parse_value-large name (a ∷ []) x h four small = absurd (omega arith)
parse_value-large name (a ∷ b ∷ []) x h four small = absurd (omega arith)
parse_value-large name (a ∷ b ∷ e ∷ []) x h four small = absurd (omega arith)
parse_value-large name (a ∷ b ∷ e ∷ g ∷ d) x (ha, (hb, (he, (hg, h)))) four small =
    let n = value_length-eq a b e g ha.1 hb.1 he.1 hg.1 in
    let short : ltb (length (d ++ x)) (value_length a b e g) ≡ true =
      ground (arith, n, length-append d x) in
    rw short

-- What `decode_meta` says of the bytes that it takes for the name.
abbrev pub refusal : Bytes → Error
refusal cut = if is_utf8 cut then meta_error else from_utf8_error cut

parse_property-cut :
    (cut d x : Bytes)
    → All IsNonzeroByte d
    → 4 ≤ length d
    → length d + length x < 2 ^ 24
    → parse_property (length cut ∷ (cut ++ (d ++ x))) ≡ refused (refusal cut)
unfolding parse_property
parse_property-cut cut d x h four small =
    let long : ltb (length (cut ++ (d ++ x))) (length cut) ≡ false =
      ground (arith, length-append cut (d ++ x)) in
    let large = parse_value-large cut d x h four small in
    elim (Bool-cases (is_utf8 cut)) [
      | inl good ↦ rw (long, take-append, drop-append, good, large)
      | inr bad ↦ rw (long, take-append, bad)
    ]

decode_meta-refused :
    (c : Czmq) (m : ZCert) (b : ℕ) (rest : Bytes) (s : Machine c.World) (e : Error)
    → 0 < length rest
    → parse_property (b ∷ rest) ≡ refused e
    → decode_meta c m (b ∷ rest) s ≡ failed e s
unfolding decode_meta
decode_meta-refused c m b rest s e more p =
    let start : At (b ∷ rest) 0 (b ∷ rest) = record { behind = refl; size = omega arith } in
    rw (decode_loop_round c m (b ∷ rest) (suc (length rest)) b rest 0 s more start, p)

module _ (name value : Bytes) where
  -- What a reader takes for the name.
  abbrev pub cut_name : Bytes
  cut_name = take (length name % 256) name

  encode_property-cut :
      (x : Bytes) × (length x ≡ 4 + length value)
      × (encode_property name value
          ≡ length cut_name ∷ (cut_name ++ (drop (length name % 256) name ++ x)))
  unfolding encode_property
  encode_property-cut =
      let n = length name % 256 in
      let size : length (take n name) ≡ n = ground (arith, length-take n name) in
      let x =
        (bit_and (length value / 2 ^ 24) 0xff % 256)
        ∷ (bit_and (length value / 2 ^ 16) 0xff % 256)
        ∷ (bit_and (length value / 2 ^ 8) 0xff % 256)
        ∷ (bit_and (length value) 0xff % 256)
        ∷ value in
      let whole : name ++ x ≡ take n name ++ (drop n name ++ x) =
        ap (λ bytes. bytes ++ x) (sym (take-append-drop n name)) ∙ rw append_assoc in
      (x, omega arith, rw (size, whole))

  -- The length byte of a long name wraps. If a name of more than 255 bytes, none of them zero, and its
  -- value have less than 2^24 - 4 bytes together, `decode_meta` takes only the first `length % 256`
  -- bytes of the name for the name, and the four bytes behind these, which are the name's too, for the
  -- length of the value: it fails, without a call of CZMQ, with the error for malformed metadata, or,
  -- if those first bytes are no text, with the error for these.
  pub encode_property-long_name :
      (c : Czmq) (m : ZCert) (s : Machine c.World)
      → All IsNonzeroByte name
      → 255 < length name
      → length name + length value < 2 ^ 24 - 4
      → decode_meta c m (encode_property name value) s ≡ failed (refusal cut_name) s
  unfolding decode_meta
  encode_property-long_name c m s bytes long small =
      let n = length name % 256 in
      let (x, size, form) = encode_property-cut in
      let left = length-drop n name in
      let refusing =
        parse_property-cut cut_name (drop n name) x (All-drop n name bytes) (omega (arith, left))
          (omega (arith, left, size)) in
      rw form (
        decode_meta-refused c m _ _ s _
          (omega
            (arith, left, length-append cut_name (drop n name ++ x), length-append (drop n name) x))
          refusing)
