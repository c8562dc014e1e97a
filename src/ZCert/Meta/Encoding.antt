-- ===== src/ZCert/Meta/Encoding.antt =====
-- `encode_meta` over what the C library says of a certificate.
use rust_czmq.Prelude.{
  ℕ, zero, suc, ◌%◌, ◌<◌, ◌≡◌, ◌≢◌, ◌∙◌, refl, ap, true, false, ◌==◌, Option, none, some, List, [],
  ◌∷◌, ◌++◌, bit_and, arith, if◌then◌else◌, length, All,
}
use mathlib.Core.List.{append_assoc, append-nil}
use rust_czmq.Prelude.Bits.{bit_and_byte}
use rust_czmq.Rust.Text.{Bytes, IsText, Utf8Result, is_utf8, has_nul, from_utf8, c_string_or_empty}
use rust_czmq.Ffi.{
  Ptr, null, PtrCall, Czmq, Machine, Run, done, pure, ◌>>=◌, and_then, ask_ptr, read_text, Event,
}
use rust_czmq.Ffi.Calls.{zcert_meta, zcert_meta_keys, zlist_next}
use rust_czmq.ZList
use rust_czmq.ZList.{ZList}
use rust_czmq.ZCert.{ZCert, meta, meta_keys}
use rust_czmq.ZCert.Meta.{encode_property, push_property, encode_loop, encode_meta}
use rust_czmq.ZCert.Meta.Wire.{Property, IsProperty, wire}

-- What CZMQ documents of `zcert_meta_keys`, `zcert_meta` and `zlist_next`: a certificate has keys
-- and values, and a list of keys is read from its front to its end, where NULL is returned.
pub record CertLaws (c : Czmq) : Type 0 where
  pub keys_of : c.World → Ptr → List Bytes
  pub value_of : c.World → Ptr → Bytes → Option Bytes
  pub left_in : c.World → Ptr → List Bytes
  pub keys_call :
      (w : c.World) (m : Ptr)
      → (left_in (c.ptr_call (zcert_meta_keys m) w).1 (c.ptr_call (zcert_meta_keys m) w).0
          ≡ keys_of w m)
        × (value_of (c.ptr_call (zcert_meta_keys m) w).1 ≡ value_of w)
  pub next_at_end :
      (w : c.World) (l : Ptr) → left_in w l ≡ [] → (c.ptr_call (zlist_next l) w).0 ≡ null
  pub next_call :
      (w : c.World) (l : Ptr) (k : Bytes) (ks : List Bytes)
      → left_in w l ≡ k ∷ ks
      → ((c.ptr_call (zlist_next l) w).0 ≢ null)
        × (c.text_at (c.ptr_call (zlist_next l) w).1 (c.ptr_call (zlist_next l) w).0 ≡ k)
        × (left_in (c.ptr_call (zlist_next l) w).1 l ≡ ks)
        × (value_of (c.ptr_call (zlist_next l) w).1 ≡ value_of w)
  pub meta_missing :
      (w : c.World) (m : Ptr) (k : Bytes)
      → value_of w m k ≡ none
      → (c.ptr_call (zcert_meta m k) w).0 ≡ null
  pub meta_call :
      (w : c.World) (m : Ptr) (k v : Bytes)
      → value_of w m k ≡ some v
      → ((c.ptr_call (zcert_meta m k) w).0 ≢ null)
        × (c.text_at (c.ptr_call (zcert_meta m k) w).1 (c.ptr_call (zcert_meta m k) w).0 ≡ v)
  pub meta_keeps :
      (w : c.World) (m : Ptr) (k : Bytes)
      → (left_in (c.ptr_call (zcert_meta m k) w).1 ≡ left_in w)
        × (value_of (c.ptr_call (zcert_meta m k) w).1 ≡ value_of w)

-- A key as `encode_meta` can use it: a text that fits a C string.
abbrev pub IsKey : Bytes → Type 0
IsKey k = IsText k × (has_nul k ≡ false)

-- The keys with a value that is a text, with these values, in the order of the keys.
unfoldable pub properties_of : (Bytes → Option Bytes) → List Bytes → List Property
properties_of value [] = []
properties_of value (k ∷ ks) = elim (value k) [
  | none ↦ properties_of value ks
  | some v ↦ if is_utf8 v then (k, v) ∷ properties_of value ks else properties_of value ks
]

-- The encoding of each property, one after the other.
unfoldable pub encode_all : List Property → Bytes
encode_all [] = []
encode_all ((k, v) ∷ ps) = encode_property k v ++ encode_all ps

-- What `meta` makes of the value.
abbrev as_read : Option Bytes → Option Utf8Result
as_read none = none
as_read (some v) = some (from_utf8 v)

push_property-as_read :
    (encoded k : Bytes) (value : Bytes → Option Bytes) (ks : List Bytes)
    → push_property encoded k (as_read (value k)) ++ encode_all (properties_of value ks)
      ≡ encoded ++ encode_all (properties_of value (k ∷ ks))
unfolding push_property properties_of encode_all from_utf8
push_property-as_read encoded k value ks =
    ground (arith, append_assoc encoded (encode_property k v) (encode_all (properties_of value ks)))
  where
    v : Bytes
    v = elim (value k) [ none ↦ [] | some x ↦ x ]

module _ (c : Czmq) (laws : CertLaws c) where
  open c use {World}
  open laws use {keys_of, value_of, left_in}

  abbrev after_call : PtrCall → Machine World → Machine World
  after_call q s = record {
    world = (c.ptr_call q s.world).1;
    trace = Event.got_ptr q (c.ptr_call q s.world).0 ∷ s.trace;
  }

  next-none :
      (l : ZList) (s : Machine World)
      → left_in s.world l.zlist ≡ []
      → ZList.next c l s ≡ done none (after_call (zlist_next l.zlist) s)
  unfolding ZList.next
  next-none l s h = rw (laws.next_at_end s.world l.zlist h)

  next-some :
      (l : ZList) (s : Machine World) (k : Bytes) (ks : List Bytes)
      → left_in s.world l.zlist ≡ k ∷ ks
      → is_utf8 k ≡ true
      → ZList.next c l s ≡ done (some k) (after_call (zlist_next l.zlist) s)
  unfolding ZList.next
  next-some l s k ks h text =
      let (found, reads, _, _) = laws.next_call s.world l.zlist k ks h in
      let e : ((c.ptr_call (zlist_next l.zlist) s.world).0 == null) ≡ false = ground arith in
      rw (e, reads, text)

  meta_lem :
      (m : ZCert) (k : Bytes) (s : Machine World)
      → has_nul k ≡ false
      → meta c m k s
        ≡ done (as_read (value_of s.world m.zcert k)) (after_call (zcert_meta m.zcert k) s)
  unfolding meta c_string_or_empty
  meta_lem m k s h = rw h (by_value (value_of s.world m.zcert k) refl)
    where
      by_value :
          (o : Option Bytes)
          → value_of s.world m.zcert k ≡ o
          → ◌≡◌ {A = Run World (Option Utf8Result)}
              (and_then (ask_ptr c (zcert_meta m.zcert k) s) (λ ptr.
                if ptr == null
                then pure none
                else do t ← read_text c ptr; pure (some (from_utf8 t))))
              (done (as_read o) (after_call (zcert_meta m.zcert k) s))
      by_value none e = rw (laws.meta_missing s.world m.zcert k e)
      by_value (some v) e =
          let (found, reads) = laws.meta_call s.world m.zcert k v e in
          let there : ((c.ptr_call (zcert_meta m.zcert k) s.world).0 == null) ≡ false =
            ground arith in
          rw (there, reads)

  encode_loop_lem :
      (m : ZCert) (l : ZList) (ks : List Bytes) (fuel : ℕ) (encoded : Bytes) (s : Machine World)
      → length ks < fuel
      → left_in s.world l.zlist ≡ ks
      → All IsKey ks
      → (s' : Machine World) × (encode_loop c fuel m l encoded s
          ≡ done (encoded ++ encode_all (properties_of (value_of s.world m.zcert) ks)) s')
  unfolding encode_loop properties_of encode_all
  encode_loop_lem m l ks zero encoded s f e h = absurd (omega arith)
  encode_loop_lem m l [] (suc fuel) encoded s f e h =
      (after_call (zlist_next l.zlist) s, rw (next-none l s e, append-nil))
  encode_loop_lem m l (k ∷ ks) (suc fuel) encoded s f e ((text, nul), h) =
      let (_, _, behind, same) = laws.next_call s.world l.zlist k ks e in
      let s1 = after_call (zlist_next l.zlist) s in
      let s2 = after_call (zcert_meta m.zcert k) s1 in
      let (left, same') = laws.meta_keeps s1.world m.zcert k in
      let pushed = push_property encoded k (as_read (value_of s1.world m.zcert k)) in
      let (s', rest) = encode_loop_lem m l ks fuel pushed s2 (omega arith) (rw left behind) h in
      let value = value_of s.world m.zcert in
      let same_bytes : pushed ++ encode_all (properties_of (value_of s2.world m.zcert) ks)
          ≡ encoded ++ encode_all (properties_of value (k ∷ ks)) =
        rw (same', same) (push_property-as_read encoded k value ks) in
      (
        s',
        rw (next-some l s k ks e text, meta_lem m k s1 nul)
            (rest ∙ ap (λ (b : Bytes). done b s') same_bytes),
      )

  -- By the laws of the library, with more fuel than there are keys, and if each key is a text
  -- without NUL, `encode_meta` returns the encodings of the properties whose values are texts, in
  -- the order of the keys.
  pub encode_meta_lem :
      (m : ZCert) (fuel : ℕ) (s : Machine World)
      → length (keys_of s.world m.zcert) < fuel
      → All IsKey (keys_of s.world m.zcert)
      → (s' : Machine World) × (encode_meta c fuel m s
          ≡ done
              (encode_all (properties_of (value_of s.world m.zcert) (keys_of s.world m.zcert)))
              s')
  unfolding encode_meta meta_keys ask_ptr
  encode_meta_lem m fuel s f h =
      let s1 = after_call (zcert_meta_keys m.zcert) s in
      let l = ZList.from_raw (c.ptr_call (zcert_meta_keys m.zcert) s.world).0 in
      let (listed, same) = laws.keys_call s.world m.zcert in
      let (s', e) =
        encode_loop_lem m l (keys_of s.world m.zcert) fuel [] s1 f (unfold ZList.from_raw in listed)
          h in
      (s', rw same at e)

-- `(x & 0xff) as u8`
pushed_byte : (x : ℕ) → bit_and x 0xff % 256 ≡ x % 256
pushed_byte x = rw bit_and_byte (omega arith)

-- Within the limits of the format the encoding is the wire format.
pub encode_all-wire : (ps : List Property) → All IsProperty ps → encode_all ps ≡ wire ps []
unfolding encode_all wire encode_property
encode_all-wire [] h = refl
encode_all-wire ((name, value) ∷ ps) ((_, _, short, fits), h) =
    let e : length name % 256 ≡ length name = omega arith in
    simp (e, pushed_byte, append_assoc, encode_all-wire ps h)
