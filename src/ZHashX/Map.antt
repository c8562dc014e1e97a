-- ===== src/ZHashX/Map.antt =====
-- A hash table as a function from keys to items: what CZMQ documents of its calls, and the
-- operations that the methods of src/zhashx.rs stand for.
use rust_czmq.Prelude.{◌≡◌, ◌≢◌, ◌⊎◌, ◌==◌, Option, none, some, List, [], ◌∷◌, if◌then◌else◌}
use rust_czmq.Rust.Text.{Bytes, bytes_eq, has_nul, c_string_or_empty}
use rust_czmq.Error.{Error, from_nul_error, error, non_zero}
use rust_czmq.Error.Causes
use rust_czmq.Error.Causes.{ZHashXError}
use rust_czmq.Colander.{Colander}
use rust_czmq.Ffi.{Ptr, null, minus_one, Czmq, Machine, Run, done, failed, panicked, stuck}
use rust_czmq.Ffi.Calls.{zhashx_insert, zhashx_update, zhashx_delete, zhashx_lookup}
use rust_czmq.ZHashX.{ZHashX, insert, update, delete, lookup}

-- What is in the table; an item is not NULL.
abbrev pub Table : Type 0
Table = Bytes → Option Ptr

-- The table with another item, or none, at one key.
abbrev pub changed : Table → Bytes → Option Ptr → Table
changed t k v = λ j. if bytes_eq j k then v else t j

-- The pointer by which `zhashx_lookup` tells an item.
abbrev pub pointer_of : Option Ptr → Ptr
pointer_of none = null
pointer_of (some p) = p

-- `zhashx_insert` fails exactly on a key that is there, and then changes nothing.
pub record TableLaws (c : Czmq) (h : Ptr) : Type 0 where
  pub table : c.World → Table
  pub insert_call :
      (w : c.World) (k : Bytes) (p : Ptr)
      → ((table w k ≡ none)
          × ((c.int_call (zhashx_insert h k p) w).0 ≢ minus_one)
          × (table (c.int_call (zhashx_insert h k p) w).1 ≡ changed (table w) k (some p)))
        ⊎ ((old : Ptr) × (table w k ≡ some old)
            × ((c.int_call (zhashx_insert h k p) w).0 ≡ minus_one)
            × (table (c.int_call (zhashx_insert h k p) w).1 ≡ table w))
  pub update_call :
      (w : c.World) (k : Bytes) (p : Ptr)
      → table (c.void_call (zhashx_update h k p) w) ≡ changed (table w) k (some p)
  pub delete_call :
      (w : c.World) (k : Bytes)
      → table (c.void_call (zhashx_delete h k) w) ≡ changed (table w) k none
  pub lookup_call :
      (w : c.World) (k : Bytes)
      → ((c.ptr_call (zhashx_lookup h k) w).0 ≡ pointer_of (table w k))
        × (table (c.ptr_call (zhashx_lookup h k) w).1 ≡ table w)

pub data TableOp : Type 0 where
  insert_item update_item : Bytes → Ptr → TableOp
  delete_item look_up : Bytes → TableOp

pub data Reply : Type 0 where
  returned : Reply
  refused : Error → Reply
  found : Option Colander → Reply

abbrev pub present_error : Error
present_error = error non_zero (Causes.zhashx ZHashXError.cmd_failed)

abbrev insert_reply : Table → Bytes → Reply
insert_reply t k =
    if has_nul k
    then refused (from_nul_error k)
    else elim (t k) [ none ↦ returned | some _ ↦ refused present_error ]

abbrev insert_result : Table → Bytes → Ptr → Table
insert_result t k p =
    if has_nul k then t else elim (t k) [ none ↦ changed t k (some p) | some _ ↦ t ]

abbrev pub lookup_reply : Option Ptr → Option Colander
lookup_reply none = none
lookup_reply (some p) = if p == null then none else some (record { inner = some p })

-- What the caller of a method is told, and the table behind it.
abbrev pub reply_of : TableOp → Table → Reply
reply_of (insert_item k p) t = insert_reply t k
reply_of (update_item k p) t = returned
reply_of (delete_item k) t = returned
reply_of (look_up k) t = found (lookup_reply (t (c_string_or_empty k)))

abbrev pub table_after : TableOp → Table → Table
table_after (insert_item k p) t = insert_result t k p
table_after (update_item k p) t = changed t (c_string_or_empty k) (some p)
table_after (delete_item k) t = changed t (c_string_or_empty k) none
table_after (look_up k) t = t

-- The replies of a sequence of methods, and the table at its end.
unfoldable pub replay : List TableOp → Table → List Reply × Table
replay [] t = ([], t)
replay (op ∷ ops) t = let (rs, u) = replay ops (table_after op t) in (reply_of op t ∷ rs, u)

abbrev caught : {W A : Type 0} → (A → Reply) → Run W A → Option (Reply × Machine W)
caught f (done a s) = some (f a, s)
caught f (failed e s) = some (refused e, s)
caught f (panicked s) = none
caught f stuck = none

module _ (c : Czmq) (h : ZHashX) where
  unfoldable pub exec : TableOp → Machine c.World → Option (Reply × Machine c.World)
  unfolding insert update delete lookup
  exec (insert_item k p) s = caught (λ _. returned) (insert c h k p s)
  exec (update_item k p) s = caught (λ _. returned) (update c h k p s)
  exec (delete_item k) s = caught (λ _. returned) (delete c h k s)
  exec (look_up k) s = caught found (lookup c h k s)

  -- One method after the other; `none` is a panic.
  unfoldable pub exec_all : List TableOp → Machine c.World → Option (List Reply × Machine c.World)
  unfolding exec
  exec_all [] s = some ([], s)
  exec_all (op ∷ ops) s = elim (exec op s) [
    | none ↦ none
    | some (r, s') ↦ elim (exec_all ops s') [ none ↦ none | some (rs, s'') ↦ some (r ∷ rs, s'') ]
  ]
