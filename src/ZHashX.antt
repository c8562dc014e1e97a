-- ===== src/ZHashX.antt =====
-- src/zhashx.rs: a hash table of CZMQ from texts to boxed values, which the crate hands over as
-- raw pointers.
pub mod Keys
pub mod Map
pub mod Refinement
use rust_czmq.Prelude.{◌==◌, Bool, true, false, Option, none, some, if◌then◌else◌}
use rust_czmq.Rust.Text.{Bytes, c_string_or_empty}
use rust_czmq.Error.{error, non_zero}
use rust_czmq.Error.Causes
use rust_czmq.Error.Causes.{ZHashXError}
use rust_czmq.Colander
use rust_czmq.Colander.{Colander}
use rust_czmq.Ffi.{
  Ptr, null, minus_one, int_eq, Czmq, Io, pure, fail, ◌>>=◌, ◌>>◌, try_c_string, ask_ptr, ask_int,
  tell,
}
use rust_czmq.Ffi.Calls.{
  zhashx_new, zhashx_insert, zhashx_update, zhashx_delete, zhashx_lookup, zhashx_destroy,
}

pub record ZHashX : Type 0 where
  pub zhashx : Ptr
  pub owned : Bool

unfoldable pub from_raw : Ptr → Bool → ZHashX
from_raw ptr owned = record { zhashx = ptr; owned = owned }

unfoldable pub as_mut_ptr : ZHashX → Ptr
as_mut_ptr h = h.zhashx

module _ (c : Czmq) where
  open c use {World}

  -- `impl Drop`
  unfoldable pub drop : ZHashX → Io World (Unit {0})
  unfolding tell
  drop h = if h.owned then tell c (zhashx_destroy h.zhashx) else pure tt

  unfoldable pub into_raw : ZHashX → Io World Ptr
  unfolding drop
  into_raw h = do let h' = record h { owned = false }; drop h'; pure h'.zhashx

  unfoldable pub new : Io World ZHashX
  unfolding ask_ptr
  new = do zhashx ← ask_ptr c zhashx_new; pure (record { zhashx = zhashx; owned = true })

  unfoldable pub insert_raw : ZHashX → Bytes → Ptr → Io World (Unit {0})
  unfolding try_c_string ask_int
  insert_raw h key item = do
    key_c ← try_c_string key
    rc ← ask_int c (zhashx_insert h.zhashx key_c item)
    if int_eq rc minus_one
        then fail (error non_zero (Causes.zhashx ZHashXError.cmd_failed))
        else pure tt

  -- `item` is a box, by the address that `Box::into_raw` gives.
  unfoldable pub insert : ZHashX → Bytes → Ptr → Io World (Unit {0})
  unfolding insert_raw
  insert h key item = insert_raw h key item

  unfoldable pub update : ZHashX → Bytes → Ptr → Io World (Unit {0})
  unfolding tell
  update h key item = tell c (zhashx_update h.zhashx (c_string_or_empty key) item)

  unfoldable pub delete : ZHashX → Bytes → Io World (Unit {0})
  unfolding tell
  delete h key = tell c (zhashx_delete h.zhashx (c_string_or_empty key))

  unfoldable pub lookup : ZHashX → Bytes → Io World (Option Colander)
  unfolding ask_ptr Colander.from_raw
  lookup h key = do
    ptr ← ask_ptr c (zhashx_lookup h.zhashx (c_string_or_empty key))
    if ptr == null then pure none else pure (some (Colander.from_raw ptr))
