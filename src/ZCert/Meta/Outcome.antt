-- ===== src/ZCert/Meta/Outcome.antt =====
-- What `decode_meta` does with every sequence of bytes, accepted or not.
use rust_czmq.Prelude.{
  ℕ, zero, suc, ◌+◌, ◌-◌, ◌≤◌, ◌<◌, ◌≡◌, ◌∙◌, refl, sym, ap, List, [], ◌∷◌, ◌++◌, true, ltb, arith,
  length, drop, All, length-append, drop-append,
}
use mathlib.Core.List.{append_assoc}
use rust_czmq.Rust.Text.{Bytes}
use rust_czmq.Error.{Error}
use rust_czmq.Ffi.{
  Czmq, Machine, Run, done, failed, panicked, stuck, Io, pure, fail, ◌>>◌, and_then,
}
use rust_czmq.ZCert.{ZCert, set_meta}
use rust_czmq.ZCert.Meta.{decode_loop, decode_meta}
use rust_czmq.ZCert.Meta.Wire.{
  Property, IsByte, IsProperty, Parsed, property, refused, wire_property, wire, parse_property,
}
use rust_czmq.ZCert.Meta.Parse.{parse_property-Read}
use rust_czmq.ZCert.Meta.Decoding.{At, At-drop, as_parsed, decode_property_lem}

wire_property-append :
    (name value rest : Bytes) → wire_property name value [] ++ rest ≡ wire_property name value rest
wire_property-append name value rest = simp append_assoc

-- The bytes behind a property that the loop has read.
pub At-next :
    {encoded rest : Bytes} {i : ℕ} (name value : Bytes)
    → At encoded i (wire_property name value rest)
    → At encoded (length encoded - length rest) rest
At-next {encoded} {rest} {i} name value a =
    let front = wire_property name value [] in
    let whole = wire_property-append name value rest in
    let long : length (wire_property name value rest) ≡ length front + length rest =
      ap length (sym whole) ∙ length-append front rest in
    let rest_of : drop (length front) (wire_property name value rest) ≡ rest =
      rw (← whole) (drop-append front rest) in
    let e : length encoded - length rest ≡ i + length front = omega (arith, a.size, long) in
    rw e (rw rest_of at (At-drop (length front) a (omega (arith, long))))

module _ (c : Czmq) (m : ZCert) where
  open c use {World}

  -- The properties are set one after the other.
  unfoldable pub set_each : List Property → Io World (Unit {0})
  set_each [] = pure tt
  set_each ((name, value) ∷ ps) = set_meta c m name value >> set_each ps

  pub data Verdict (ps : List Property) (tail : Bytes) (s : Machine World)
      (r : Run World (Unit {0})) : Type 0 where
    accepted : length tail ≤ 1 → r ≡ set_each ps s → Verdict ps tail s r
    rejected :
        (e : Error)
        → parse_property tail ≡ refused e
        → r ≡ (set_each ps >> fail e) s
        → Verdict ps tail s r

  -- The bytes are properties and a tail: all properties are set, and the tail decides the result.
  pub record Outcome (bytes : Bytes) (s : Machine World) (r : Run World (Unit {0})) : Type 0 where
    pub properties : List Property
    pub tail : Bytes
    pub can_carry : All IsProperty properties
    pub form : bytes ≡ wire properties tail
    pub verdict : Verdict properties tail s r

  pub after : Bytes → Bytes → Machine World → Machine World
  unfolding set_meta
  after name value s = elim (set_meta c m name value s) [
    | done _ s' ↦ s'
    | failed _ s' ↦ s'
    | panicked s' ↦ s'
    | stuck ↦ s
  ]

  pub set_meta-after :
      (name value : Bytes) (s : Machine World)
      → set_meta c m name value s ≡ done tt (after name value s)
  unfolding after
  set_meta-after name value s = refl

  -- A property in front of bytes whose outcome is known.
  Outcome-cons :
      (name value rest : Bytes) (s : Machine World) {r : Run World (Unit {0})}
      → IsProperty (name, value)
      → Outcome rest (after name value s) r
      → Outcome (wire_property name value rest) s r
  unfolding set_each wire
  Outcome-cons name value rest s ok o = record {
    properties = (name, value) ∷ o.properties;
    tail = o.tail;
    can_carry = (ok, o.can_carry);
    form = rw (← o.form);
    verdict = shift o.verdict;
  }
    where
      shift :
          {ps : List Property} {tail : Bytes} {r : Run World (Unit {0})}
          → Verdict ps tail (after name value s) r
          → Verdict ((name, value) ∷ ps) tail s r
      shift (accepted h e) = accepted h (rw (set_meta-after name value s) e)
      shift (rejected e p h) = rejected e p (rw (set_meta-after name value s) h)

  module _ (encoded : Bytes) where
    pub decode_loop_round :
        (fuel b : ℕ) (rest : Bytes) (i : ℕ) (s : Machine World)
        → 0 < length rest
        → At encoded i (b ∷ rest)
        → decode_loop c (suc fuel) m encoded i (length (b ∷ rest)) s
          ≡ and_then
              (as_parsed c m encoded (parse_property (b ∷ rest)) s)
              (λ (i', left'). decode_loop c fuel m encoded i' left')
    unfolding decode_loop
    decode_loop_round fuel b rest i s h a =
        let more : ltb 1 (suc (length rest)) ≡ true = ground arith in
        rw (more, decode_property_lem c m encoded b rest i s a)

    decode_loop-Outcome :
        (fuel : ℕ) (rest : Bytes) (i : ℕ) (s : Machine World)
        → length rest < fuel
        → At encoded i rest
        → All IsByte rest
        → Outcome rest s (decode_loop c fuel m encoded i (length rest) s)
    decode_loop-Outcome zero rest i s f a h = absurd (omega arith)
    decode_loop-Outcome (suc fuel) [] i s f a h = record {
      properties = [];
      tail = [];
      can_carry = tt;
      form = unfold wire in refl;
      verdict = accepted (omega arith) (unfold decode_loop set_each in refl);
    }
    decode_loop-Outcome (suc fuel) (b ∷ []) i s f a h = record {
      properties = [];
      tail = b ∷ [];
      can_carry = tt;
      form = unfold wire in refl;
      verdict = accepted (omega arith) (unfold decode_loop set_each in refl);
    }
    decode_loop-Outcome (suc fuel) (b ∷ b' ∷ r) i s f a h =
        rw (decode_loop_round fuel b (b' ∷ r) i s (omega arith) a)
          (by_parse (decode_loop-Outcome fuel) (parse_property (b ∷ b' ∷ r)) refl)
      where
        by_parse :
            ((rest : Bytes) (j : ℕ) (s' : Machine World)
              → length rest < fuel
              → At encoded j rest
              → All IsByte rest
              → Outcome rest s' (decode_loop c fuel m encoded j (length rest) s'))
            → (p : Parsed) → parse_property (b ∷ b' ∷ r) ≡ p
            → Outcome (b ∷ b' ∷ r) s (
                and_then
                  (as_parsed c m encoded p s)
                  (λ (i', left'). decode_loop c fuel m encoded i' left'))
        by_parse ih (refused e) p = record {
          properties = [];
          tail = b ∷ b' ∷ r;
          can_carry = tt;
          form = unfold wire in refl;
          verdict = rejected e p (unfold set_each in refl);
        }
        by_parse ih (property name value rest) p =
            let got = parse_property-Read (b ∷ b' ∷ r) h p in
            rw (set_meta-after name value s, got.whole)
              (Outcome-cons name value rest s got.can_carry (
                ih rest _ (after name value s) (omega (arith, got.shorter))
                  (At-next name value (rw got.whole at a)) got.are_bytes))

  -- On every sequence of bytes `decode_meta` returns or gives an error, and neither panics nor
  -- loops: the bytes are properties and a tail; it sets these properties, in order, and accepts
  -- if the tail has at most one byte, or else fails with the error that the tail is refused with.
  pub decode_meta-Outcome :
      (encoded : Bytes) (s : Machine World)
      → All IsByte encoded
      → Outcome encoded s (decode_meta c m encoded s)
  unfolding decode_meta
  decode_meta-Outcome encoded s h =
      decode_loop-Outcome encoded (suc (length encoded)) encoded 0 s (omega arith)
        (record { behind = refl; size = omega arith }) h
