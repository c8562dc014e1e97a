-- ===== src/ZHashX/Refinement.antt =====
-- The methods of src/zhashx.rs, in any sequence, implement the operations on a function.
use rust_czmq.Prelude.{
  ◌==◌, ◌≡◌, ◌≢◌, refl, ap, ◌∙◌, inl, inr, true, false, Option, none, some, List, [], ◌∷◌, arith,
  Bool-cases,
}
use rust_czmq.Rust.Text.{Bytes, has_nul, c_string_or_empty}
use rust_czmq.Colander
use rust_czmq.Colander.{Colander}
use rust_czmq.Ffi.Int.{int_eq_iff}
use rust_czmq.Ffi.{
  Ptr, null, ℤ, minus_one, int_eq, Czmq, Event, Machine, try_c_string_nul, try_c_string_eq,
}
use rust_czmq.Ffi.Calls.{zhashx_insert, zhashx_update, zhashx_delete, zhashx_lookup}
use rust_czmq.ZHashX.{ZHashX}
use rust_czmq.ZHashX.Map.{
  TableLaws, TableOp, insert_item, update_item, delete_item, look_up, Reply, found, reply_of,
  table_after, replay, pointer_of, lookup_reply, exec, exec_all,
}

differs : (n k : ℤ) → n ≢ k → int_eq n k ≡ false
differs n k h = ground (arith, int_eq_iff n k)

found_null :
    (o : Option Ptr) (p : Ptr) → p ≡ pointer_of o → (p == null) ≡ true → none ≡ lookup_reply o
found_null none p e h = refl
found_null (some x) p e h = ground arith

found_there :
    (o : Option Ptr) (p : Ptr)
    → p ≡ pointer_of o
    → (p == null) ≡ false
    → some (Colander.from_raw p) ≡ lookup_reply o
unfolding Colander.from_raw
found_there none p e h = ground arith
found_there (some x) p e h = ground arith

module _ (c : Czmq) (h : ZHashX) (laws : TableLaws c h.zhashx) where
  open laws use {table}

  -- A method returns with the reply and the table that it should.
  abbrev Right : TableOp → Machine c.World → Type 0
  Right op s =
      (s' : Machine c.World) × (exec c h op s ≡ some (reply_of op (table s.world), s'))
      × (table s'.world ≡ table_after op (table s.world))

  abbrev after : Event → c.World → Machine c.World → Machine c.World
  after e w s = record { world = w; trace = e ∷ s.trace }

  insert_lem : (k : Bytes) (p : Ptr) (s : Machine c.World) → Right (insert_item k p) s
  unfolding exec
  insert_lem k p s =
      let q = zhashx_insert h.zhashx k p in
      let code = (c.int_call q s.world).0 in
      let s' = after (Event.got_int q code) (c.int_call q s.world).1 s in
      elim (Bool-cases (has_nul k)) [
        | inl nul ↦ (s, rw (nul, try_c_string_nul k s nul), rw nul)
        | inr clean ↦ elim (laws.insert_call s.world k p) [
          | inl (absent, ok, more) ↦ (
            s',
            rw (clean, absent, try_c_string_eq k s clean, differs code minus_one ok),
            rw (clean, absent) more,
          )
          | inr (old, present, bad, same) ↦
              (s', rw (clean, present, try_c_string_eq k s clean, bad), rw (clean, present) same)
        ]
      ]

  abbrev reply_with : Machine c.World → Option Colander → Option (Reply × Machine c.World)
  reply_with s o = some (found o, s)

  lookup_lem : (k : Bytes) (s : Machine c.World) → Right (look_up k) s
  unfolding exec
  lookup_lem k s =
      let q = zhashx_lookup h.zhashx (c_string_or_empty k) in
      let (e, same) = laws.lookup_call s.world (c_string_or_empty k) in
      let p = (c.ptr_call q s.world).0 in
      let s' = after (Event.got_ptr q p) (c.ptr_call q s.world).1 s in
      elim (Bool-cases (p == null)) [
        | inl z ↦ (
          s',
          rw z (ap (reply_with s') (found_null (table s.world (c_string_or_empty k)) p e z)),
          same,
        )
        | inr z ↦ (
          s',
          rw z (ap (reply_with s') (found_there (table s.world (c_string_or_empty k)) p e z)),
          same,
        )
      ]

  exec_lem : (op : TableOp) (s : Machine c.World) → Right op s
  unfolding exec
  exec_lem (insert_item k p) s = insert_lem k p s
  exec_lem (update_item k p) s =
      let q = zhashx_update h.zhashx (c_string_or_empty k) p in
      (
        after (Event.did q) (c.void_call q s.world) s,
        refl,
        laws.update_call s.world (c_string_or_empty k) p,
      )
  exec_lem (delete_item k) s =
      let q = zhashx_delete h.zhashx (c_string_or_empty k) in
      (
        after (Event.did q) (c.void_call q s.world) s,
        refl,
        laws.delete_call s.world (c_string_or_empty k),
      )
  exec_lem (look_up k) s = lookup_lem k s

  -- By the laws of the library, any sequence of calls of `insert`, `update`, `delete` and `lookup` runs
  -- to its end without a panic, with the replies and the table of the same operations on a function
  -- from keys to items: `insert` refuses a key with a NUL or a key that is there, and the others
  -- take a key with a NUL for the empty key.
  pub exec_all-replay :
      (ops : List TableOp) (s : Machine c.World)
      → (s' : Machine c.World) × (exec_all c h ops s ≡ some ((replay ops (table s.world)).0, s'))
        × (table s'.world ≡ (replay ops (table s.world)).1)
  unfolding exec_all replay
  exec_all-replay [] s = (s, refl, refl)
  exec_all-replay (op ∷ ops) s =
      let (s1, e, t) = exec_lem op s in
      let (s2, e', t') = exec_all-replay ops s1 in (s2, rw (e, exec_all, e', t), t' ∙ rw t)
