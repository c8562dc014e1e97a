-- ===== src/ZCert/Meta/Copy.antt =====
-- Metadata that is encoded from one certificate and decoded into another.
use rust_czmq.Prelude.{
  ℕ, ◌<◌, ◌≡◌, ◌≢◌, refl, sym, ap, ◌∙◌, Bool, true, false, inl, inr, Option, none, some, List, [],
  ◌∷◌, arith, length, All, Bool-cases, Option-cases, if◌then◌else◌,
}
use rust_czmq.Rust.Text.{Bytes, is_utf8, has_nul, c_string_or_empty-eq, bytes_eq, bytes_eq_iff}
use rust_czmq.Ffi.{Ptr, Czmq, Event, Machine, done}
use rust_czmq.Ffi.Calls.{zcert_set_meta}
use rust_czmq.ZCert.{ZCert, set_meta}
use rust_czmq.ZCert.Meta.{encode_meta, decode_meta}
use rust_czmq.ZCert.Meta.Encoding.{CertLaws, IsKey, properties_of}
use rust_czmq.ZCert.Meta.Outcome.{set_each}
use rust_czmq.ZCert.Meta.RoundTrip.{decode_meta-encode_meta}
use rust_czmq.ZCert.Meta.Wire.{IsProperty}

-- What a copy keeps of a value: a text, and nothing of other bytes.
abbrev pub text_value : Option Bytes → Option Bytes
text_value none = none
text_value (some v) = if is_utf8 v then some v else none

abbrev pub IsNotIn : Bytes → List Bytes → Type 0
IsNotIn j ks = All (λ k. j ≢ k) ks

abbrev pub has_key : Bytes → List Bytes → Bool
has_key j [] = false
has_key j (k ∷ ks) = if bytes_eq j k then true else has_key j ks

-- What is known at each key and at what is no key is known everywhere.
by_key :
    (f g old : Bytes → Option Bytes) (ks : List Bytes) (j : Bytes)
    → All (λ k. f k ≡ g k) ks
    → (IsNotIn j ks → f j ≡ old j)
    → f j ≡ (if has_key j ks then g j else old j)
by_key f g old [] j at_keys others = others tt
by_key f g old (k ∷ ks) j (here, there) others = elim (Bool-cases (bytes_eq j k)) [
  | inl e ↦ rw (e, (bytes_eq_iff j k).0 e) here
  | inr e ↦
      let differs : j ≢ k = ground (arith, bytes_eq_iff j k) in
      rw e (by_key f g old ks j there (λ h. others (differs, h)))
]

abbrev pub IsDistinct : List Bytes → Type 0
IsDistinct [] = Unit
IsDistinct (k ∷ ks) = IsNotIn k ks × IsDistinct ks

abbrev pub IsCText : Option Bytes → Type 0
IsCText none = Unit
IsCText (some v) = has_nul v ≡ false

-- `set_call`: `zcert_set_meta` adds a property that is not there.
module _ (c : Czmq) (laws : CertLaws c)
    (set_call : (w : c.World) (m : Ptr) (k v j : Bytes)
      → laws.value_of w m k ≡ none
      → laws.value_of (c.void_call (zcert_set_meta m k v) w) m j
        ≡ (if bytes_eq j k then some v else laws.value_of w m j))
    (m' : ZCert) where
  open c use {World}

  abbrev value_at : Machine World → Bytes → Option Bytes
  value_at t = laws.value_of t.world m'.zcert

  abbrev IsMissing : Machine World → List Bytes → Type 0
  IsMissing t ks = All (λ k. value_at t k ≡ none) ks

  -- The properties with these keys were set, and no other.
  abbrev Copied : (Bytes → Option Bytes) → List Bytes → Machine World → Type 0
  Copied value ks t =
      (t' : Machine World) × (set_each c m' (properties_of value ks) t ≡ done tt t')
      × All (λ k. value_at t' k ≡ text_value (value k)) ks
      × ((j : Bytes) → IsNotIn j ks → value_at t' j ≡ value_at t j)

  abbrev after_set : Bytes → Bytes → Machine World → Machine World
  after_set k v t = record {
    world = c.void_call (zcert_set_meta m'.zcert k v) t.world;
    trace = Event.did (zcert_set_meta m'.zcert k v) ∷ t.trace;
  }

  other_key :
      (k v j : Bytes) (t : Machine World)
      → value_at t k ≡ none
      → j ≢ k
      → value_at (after_set k v t) j ≡ value_at t j
  other_key k v j t missing differs =
      let e : bytes_eq j k ≡ false = ground (arith, bytes_eq_iff j k) in
      set_call t.world m'.zcert k v j missing ∙ rw e

  same_key :
      (k v : Bytes) (t : Machine World)
      → value_at t k ≡ none
      → value_at (after_set k v t) k ≡ some v
  same_key k v t missing =
      let e : bytes_eq k k ≡ true = (bytes_eq_iff k k).1 refl in
      set_call t.world m'.zcert k v k missing ∙ rw e

  still-IsMissing :
      (k v : Bytes) (ks : List Bytes) (t : Machine World)
      → value_at t k ≡ none
      → IsNotIn k ks
      → IsMissing t ks
      → IsMissing (after_set k v t) ks
  still-IsMissing k v [] t missing new none_there = tt
  still-IsMissing k v (j ∷ ks) t missing (differs, new) (none_here, none_there) = (
    other_key k v j t missing (λ e. differs (sym e)) ∙ none_here,
    still-IsMissing k v ks t missing new none_there,
  )

  -- Nothing is set for the first key.
  passed_over :
      (value : Bytes → Option Bytes) (k : Bytes) (ks : List Bytes) (t : Machine World)
      → IsNotIn k ks
      → value_at t k ≡ none
      → properties_of value (k ∷ ks) ≡ properties_of value ks
      → text_value (value k) ≡ none
      → Copied value ks t
      → Copied value (k ∷ ks) t
  passed_over value k ks t new missing same no_text (t', run, copied, others) = (
    t',
    ap (λ ps. set_each c m' ps t) same ∙ run,
    (others k new ∙ missing ∙ sym no_text, copied),
    λ j h. others j h.1,
  )

  copied_lem :
      (value : Bytes → Option Bytes) (ks : List Bytes) (t : Machine World)
      → ((k : Bytes) → IsCText (value k))
      → IsDistinct ks
      → All IsKey ks
      → IsMissing t ks
      → Copied value ks t
  unfolding set_each properties_of set_meta
  copied_lem value [] t clean distinct keys missing = (t, refl, tt, λ j h. refl)
  copied_lem value (k ∷ ks) t clean (new, distinct) ((utf8, nul), keys) (none_here, none_there) =
      let without = copied_lem value ks t clean distinct keys none_there in
      elim (Option-cases (value k)) [
        | inl e ↦ passed_over value k ks t new none_here (rw (properties_of, e)) (rw e) without
        | inr (v, e) ↦ elim (Bool-cases (is_utf8 v)) [
          | inr other ↦
              passed_over value k ks t new none_here (rw (properties_of, e, other)) (rw (e, other))
                without
          | inl good ↦
              let t1 = after_set k v t in
              let v_nul : has_nul v ≡ false = rw e at (clean k) in
              let (t', run, copied, others) =
                copied_lem value ks t1 clean distinct keys
                  (still-IsMissing k v ks t none_here new none_there) in
              (
                t',
                rw
                    (
                      properties_of,
                      e,
                      good,
                      c_string_or_empty-eq k nul,
                      c_string_or_empty-eq v v_nul,
                    )
                    run,
                (others k new ∙ same_key k v t none_here ∙ rw (e, good), copied),
                λ j h. others j h.1 ∙ other_key k v j t none_here h.0,
              )
        ]
      ]

  -- By the laws of the library, if the keys of a certificate are distinct and fit the format, as do
  -- its properties that are texts, and no value has a NUL: its metadata, encoded with more fuel than
  -- there are keys and decoded into a certificate that has none of the keys, gives that certificate
  -- each value that is a text and leaves its other properties as they were, whatever the order of the
  -- keys.
  pub meta-decode_meta :
      (m : ZCert) (fuel : ℕ) (s t : Machine World)
      → length (laws.keys_of s.world m.zcert) < fuel
      → IsDistinct (laws.keys_of s.world m.zcert)
      → All IsKey (laws.keys_of s.world m.zcert)
      → All IsProperty
          (properties_of (laws.value_of s.world m.zcert) (laws.keys_of s.world m.zcert))
      → ((k : Bytes) → IsCText (laws.value_of s.world m.zcert k))
      → All (λ k. laws.value_of t.world m'.zcert k ≡ none) (laws.keys_of s.world m.zcert)
      → (encoded : Bytes) × (s' t' : Machine World) × (encode_meta c fuel m s ≡ done encoded s')
        × (decode_meta c m' encoded t ≡ done tt t')
        × ((j : Bytes)
            → laws.value_of t'.world m'.zcert j ≡ (
                if has_key j (laws.keys_of s.world m.zcert)
                then text_value (laws.value_of s.world m.zcert j)
                else laws.value_of t.world m'.zcert j))
  meta-decode_meta m fuel s t enough distinct keys fits clean missing =
      let (encoded, s', run, decoded) =
        decode_meta-encode_meta c laws m m' fuel s t enough keys fits in
      let (t', set, copied, others) =
        copied_lem (laws.value_of s.world m.zcert) (laws.keys_of s.world m.zcert) t clean distinct
          keys missing in
      (
        encoded,
        s',
        t',
        run,
        decoded ∙ set,
        λ j.
            by_key (value_at t') (λ k. text_value (laws.value_of s.world m.zcert k)) (value_at t)
              (laws.keys_of s.world m.zcert) j copied (others j),
      )
