-- ===== src/ZCertStore/Lookup.antt =====
-- Certificates that are put into a store and looked up by their public keys.
use rust_czmq.Prelude.{
  ◌==◌, ◌≡◌, refl, ap, sym, ◌∙◌, true, false, Option, none, some, List, [], ◌∷◌, arith, Bool-cases,
  inl, inr, if◌then◌else◌,
}
use rust_czmq.Rust.Text.{Bytes, has_nul, bytes_eq, bytes_eq_iff}
use rust_czmq.Ffi.{Ptr, null, Czmq, Event, Io, Machine, done, pure, ◌>>◌, try_c_string_eq}
use rust_czmq.Ffi.Calls.{zcertstore_insert, zcertstore_lookup}
use rust_czmq.ZCert.{ZCert}
use rust_czmq.ZCertStore.{ZCertStore, insert, lookup}
use rust_czmq.ZHashX.Map.{Table, changed, pointer_of}

-- A store in memory: the certificates by the texts of their public keys. Nothing is promised for a
-- certificate whose key is there already.
pub record StoreLaws (c : Czmq) (p : Ptr) : Type 0 where
  pub certs : c.World → Table
  pub key_of : c.World → Ptr → Bytes
  pub insert_call :
      (w : c.World) (z : Ptr)
      → certs w (key_of w z) ≡ none
      → (certs (c.void_call (zcertstore_insert p z) w) ≡ changed (certs w) (key_of w z) (some z))
        × (key_of (c.void_call (zcertstore_insert p z) w) ≡ key_of w)
  pub lookup_call :
      (w : c.World) (k : Bytes) → (c.ptr_call (zcertstore_lookup p k) w).0 ≡ pointer_of (certs w k)

-- The keys are new: none is in the table, and they differ from each other.
abbrev pub AreNew : (Ptr → Bytes) → Table → List ZCert → Type 0
AreNew key_of t [] = Unit
AreNew key_of t (z ∷ zs) =
    (t (key_of z.zcert) ≡ none) × AreNew key_of (changed t (key_of z.zcert) (some z.zcert)) zs

-- The certificate of the list that has the key.
abbrev pub with_key : (Ptr → Bytes) → List ZCert → Bytes → Option Ptr
with_key key_of [] k = none
with_key key_of (z ∷ zs) k =
    if bytes_eq k (key_of z.zcert) then some z.zcert else with_key key_of zs k

abbrev pub or_else : Option Ptr → Option Ptr → Option Ptr
or_else none b = b
or_else (some p) b = some p

-- The handle that `lookup` returns: the certificate stays the store's.
abbrev pub borrowed : Option Ptr → Option ZCert
borrowed none = none
borrowed (some p) = if p == null then none else some (record { zcert = p; owned = false })

borrowed-null :
    (o : Option Ptr) (p : Ptr) → p ≡ pointer_of o → (p == null) ≡ true → none ≡ borrowed o
borrowed-null none p e h = refl
borrowed-null (some x) p e h = ground arith

borrowed_there :
    (o : Option Ptr) (p : Ptr)
    → p ≡ pointer_of o
    → (p == null) ≡ false
    → some (record { zcert = p; owned = false }) ≡ borrowed o
borrowed_there none p e h = ground arith
borrowed_there (some x) p e h = ground arith

filled : (Ptr → Bytes) → Table → List ZCert → Table
filled key_of t [] = t
filled key_of t (z ∷ zs) = filled key_of (changed t (key_of z.zcert) (some z.zcert)) zs

-- A key that is there is not the key of a new certificate.
with_key-AreNew :
    (key_of : Ptr → Bytes) (zs : List ZCert) (t : Table) (k : Bytes) (p : Ptr)
    → AreNew key_of t zs
    → t k ≡ some p
    → with_key key_of zs k ≡ none
with_key-AreNew key_of [] t k p new there = refl
with_key-AreNew key_of (z ∷ zs) t k p (free, new) there =
    elim (Bool-cases (bytes_eq k (key_of z.zcert))) [
      | inl e ↦
          let same : k ≡ key_of z.zcert = (bytes_eq_iff k (key_of z.zcert)).0 e in
          let here : t (key_of z.zcert) ≡ some p = rw (sym same) there in ground (arith, free, here)
      | inr e ↦ rw e (
          with_key-AreNew key_of zs (changed t (key_of z.zcert) (some z.zcert)) k p new
            (rw e there))
    ]

filled_lem :
    (key_of : Ptr → Bytes) (zs : List ZCert) (t : Table) (k : Bytes)
    → AreNew key_of t zs
    → filled key_of t zs k ≡ or_else (with_key key_of zs k) (t k)
unfolding filled
filled_lem key_of [] t k new = refl
filled_lem key_of (z ∷ zs) t k (free, new) =
    let t' = changed t (key_of z.zcert) (some z.zcert) in
    elim (Bool-cases (bytes_eq k (key_of z.zcert))) [
      | inl e ↦
          let there : t' k ≡ some z.zcert = rw e in
          let none_else = with_key-AreNew key_of zs t' k z.zcert new there in
          filled_lem key_of zs t' k new ∙ rw (none_else, e)
      | inr e ↦ filled_lem key_of zs t' k new ∙ rw e
    ]

module _ (c : Czmq) (store : ZCertStore) where
  unfoldable pub insert_all : List ZCert → Io c.World (Unit {0})
  unfolding insert
  insert_all [] = pure tt
  insert_all (z ∷ zs) = do insert c store z; insert_all zs

  module _ (laws : StoreLaws c store.zcertstore) where
    open laws use {certs, key_of}

    insert_all_lem :
        (zs : List ZCert) (s : Machine c.World)
        → AreNew (key_of s.world) (certs s.world) zs
        → (s' : Machine c.World) × (insert_all zs s ≡ done tt s')
          × (certs s'.world ≡ filled (key_of s.world) (certs s.world) zs)
    unfolding insert_all filled
    insert_all_lem [] s new = (s, refl, refl)
    insert_all_lem (z ∷ zs) s (free, new) =
        let q = zcertstore_insert store.zcertstore z.zcert in
        let w = c.void_call q s.world in
        let (more, same) = laws.insert_call s.world z.zcert free in
        let new' : AreNew (key_of w) (certs w) zs = rw (more, same) new in
        let (s', run, all) =
          insert_all_lem zs (record { world = w; trace = Event.did q ∷ s.trace }) new' in
        (s', run, all ∙ rw (more, same))

    borrowed_lem :
        (k : Bytes) (o : Option Ptr) (s : Machine c.World)
        → has_nul k ≡ false
        → certs s.world k ≡ o
        → (s' : Machine c.World) × (lookup c store k s ≡ done (borrowed o) s')
    unfolding lookup
    borrowed_lem k o s clean e =
        let q = zcertstore_lookup store.zcertstore k in
        let p = (c.ptr_call q s.world).0 in
        let s' : Machine c.World = record {
          world = (c.ptr_call q s.world).1;
          trace = Event.got_ptr q p ∷ s.trace;
        } in
        let told : p ≡ pointer_of o = laws.lookup_call s.world k ∙ rw e in
        elim (Bool-cases (p == null)) [
          | inl z ↦ (
            s',
            rw (try_c_string_eq k s clean, z) (ap (λ r. done r s') (borrowed-null o p told z)),
          )
          | inr z ↦ (
            s',
            rw (try_c_string_eq k s clean, z) (ap (λ r. done r s') (borrowed_there o p told z)),
          )
        ]

    -- By the laws of a store in memory, any certificates whose public keys are new and differ from
    -- each other can be inserted one after the other, without a panic or an error, and then `lookup`
    -- of a key without NUL returns the certificate among them that has the key, or else what was
    -- there before, as a handle that is not owned.
    pub lookup-insert_all :
        (zs : List ZCert) (k : Bytes) (s : Machine c.World)
        → AreNew (key_of s.world) (certs s.world) zs
        → has_nul k ≡ false
        → (s' s'' : Machine c.World) × (insert_all zs s ≡ done tt s')
          × (lookup c store k s'
              ≡ done (borrowed (or_else (with_key (key_of s.world) zs k) (certs s.world k))) s'')
    lookup-insert_all zs k s new clean =
        let (s', run, all) = insert_all_lem zs s new in
        let what : certs s'.world k ≡ or_else (with_key (key_of s.world) zs k) (certs s.world k) =
          rw all (filled_lem (key_of s.world) zs (certs s.world) k new) in
        let (s'', found) = borrowed_lem k _ s' clean what in (s', s'', run, found)
