-- ===== src/ZCert/Meta/Decoding.antt =====
-- `decode_meta` against the wire format: what it does on every sequence of bytes.
use rust_czmq.Prelude.{
  ℕ, Bool-cases, inl, inr, false, zero, suc, ◌+◌, ◌-◌, ◌≤◌, ◌≡◌, ◌∙◌, refl, some, get_elem?, [],
  ◌∷◌, arith, ltb, length, take, drop, length-drop,
}
use rust_czmq.Rust.Text.{Bytes, is_utf8}
use rust_czmq.Rust.Slice.{slice, slice_within}
use rust_czmq.Ffi.{Czmq, Machine, and_then, unwrap, Io, pure, fail, ◌>>=◌, ◌>>◌, try_utf8}
use rust_czmq.ZCert.{ZCert, set_meta}
use rust_czmq.ZCert.Meta.{value_length, decode_value, decode_property}
use rust_czmq.ZCert.Meta.Wire.{Parsed, property, refused, parse_text, parse_value, parse_property}

-- The loop's `index` stands in front of the bytes `rest`, the last of `encoded`.
pub record At (encoded : Bytes) (index : ℕ) (rest : Bytes) : Type 0 where
  pub behind : drop index encoded ≡ rest
  pub size : index + length rest ≡ length encoded

drop-drop : (m n : ℕ) (xs : Bytes) → drop (m + n) xs ≡ drop n (drop m xs)
drop-drop zero n xs = let e : 0 + n ≡ n = omega arith in rw e
drop-drop (suc m) zero [] = let e : suc m + 0 ≡ suc m = omega arith in rw e
drop-drop (suc m) (suc n) [] = let e : suc m + suc n ≡ suc (m + suc n) = omega arith in rw e
drop-drop (suc m) n (x ∷ xs) =
    let e : suc m + n ≡ suc (m + n) = omega arith in rw e (drop-drop m n xs)

get_elem?-drop :
    (i : ℕ) (xs : Bytes) {x : ℕ} {rest : Bytes} → drop i xs ≡ x ∷ rest → get_elem? xs i ≡ some x
get_elem?-drop zero [] h = ground arith
get_elem?-drop zero (x ∷ xs) h = ground arith
get_elem?-drop (suc i) [] h = ground arith
get_elem?-drop (suc i) (x ∷ xs) h = get_elem?-drop i xs h

module _ {encoded : Bytes} {i : ℕ} where
  At-get : {x : ℕ} {rest : Bytes} → At encoded i (x ∷ rest) → get_elem? encoded i ≡ some x
  At-get a = get_elem?-drop i encoded a.behind

  At-slice :
      {rest : Bytes} (n : ℕ)
      → At encoded i rest
      → n ≤ length rest
      → slice encoded i (i + n) ≡ some (take n rest)
  At-slice n a h = slice_within encoded i n (omega (arith, a.size)) ∙ rw a.behind

  pub At-drop :
      {rest : Bytes} (n : ℕ)
      → At encoded i rest
      → n ≤ length rest
      → At encoded (i + n) (drop n rest)
  At-drop {rest} n a h = record {
    behind = drop-drop i n encoded ∙ rw a.behind;
    size = omega (arith, a.size, length-drop n rest);
  }

module _ (c : Czmq) (m : ZCert) (encoded : Bytes) where
  open c use {World}

  -- A round as the parser describes it.
  abbrev pub as_parsed : Parsed → Io World (ℕ × ℕ)
  as_parsed (property name value rest) =
      set_meta c m name value >> pure (length encoded - length rest, length rest)
  as_parsed (refused e) = fail e

  decode_text :
      (name : Bytes) {rest : Bytes} (n i : ℕ) (s : Machine World)
      → At encoded i rest
      → ltb (length rest) n ≡ false
      → and_then (unwrap (slice encoded i (i + n)) s) (λ value_bytes.
        try_utf8 value_bytes >>= λ value. set_meta c m name value >> pure (i + n, length rest - n))
        ≡ as_parsed (parse_text n name rest) s
  unfolding try_utf8 parse_text
  decode_text name {rest} n i s a long =
      let fits : n ≤ length rest = ground arith in
      rw (At-slice n a fits, long)
        (elim (Bool-cases (is_utf8 (take n rest))) [
          | inr bad ↦ rw bad
          | inl good ↦
              let e : length encoded - (length rest - n) ≡ i + n = omega (arith, a.size) in
              rw (good, length-drop n rest, e)
        ])

  decode_value_lem :
      (name : Bytes) (rest : Bytes) (i : ℕ) (s : Machine World)
      → At encoded i rest
      → decode_value c m encoded name i (length rest) s ≡ as_parsed (parse_value name rest) s
  unfolding decode_value parse_value
  decode_value_lem name (b0 ∷ b1 ∷ b2 ∷ b3 ∷ rest) i s a =
      let n = value_length b0 b1 b2 b3 in
      let four : ltb (suc (suc (suc (suc (length rest))))) 4 ≡ false = ground arith in
      let left : suc (suc (suc (suc (length rest)))) - 4 ≡ length rest = omega arith in
      let g1 : get_elem? encoded (i + 1) ≡ some b1 = At-get (At-drop 1 a (omega arith)) in
      let g2 : get_elem? encoded (i + 2) ≡ some b2 = At-get (At-drop 2 a (omega arith)) in
      let g3 : get_elem? encoded (i + 3) ≡ some b3 = At-get (At-drop 3 a (omega arith)) in
      rw (four, At-get a, g1, g2, g3, left)
        (elim (Bool-cases (ltb (length rest) n)) [
          | inl short ↦ unfold parse_text in rw short
          | inr long ↦ rw long (decode_text name n (i + 4) s (At-drop 4 a (omega arith)) long)
        ])
  decode_value_lem name [] i s a = refl
  decode_value_lem name (b0 ∷ []) i s a = refl
  decode_value_lem name (b0 ∷ b1 ∷ []) i s a = refl
  decode_value_lem name (b0 ∷ b1 ∷ b2 ∷ []) i s a = refl

  pub decode_property_lem :
      (b : ℕ) (rest : Bytes) (i : ℕ) (s : Machine World)
      → At encoded i (b ∷ rest)
      → decode_property c m encoded i (suc (length rest)) s
        ≡ as_parsed (parse_property (b ∷ rest)) s
  unfolding decode_property parse_property try_utf8
  decode_property_lem b rest i s a =
      let left : suc (length rest) - 1 ≡ length rest = omega arith in
      let a' : At encoded (i + 1) rest = At-drop 1 a (omega arith) in
      rw (At-get a, left)
        (elim (Bool-cases (ltb (length rest) b)) [
          | inl short ↦ rw short
          | inr long ↦
              let fits : b ≤ length rest = ground arith in
              rw (long, At-slice b a' fits)
                (elim (Bool-cases (is_utf8 (take b rest))) [
                  | inr bad ↦ rw bad
                  | inl good ↦
                      rw (good, ← length-drop b rest)
                        (decode_value_lem (take b rest) (drop b rest) (i + 1 + b) s
                          (At-drop b a' fits))
                ])
        ])
