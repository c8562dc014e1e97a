-- ===== src/ZList.antt =====
-- src/zlist.rs: an iterator over a list of CZMQ. It has no `Drop`.
use rust_czmq.Prelude.{◌==◌, Option, none, some, [], if◌then◌else◌}
use rust_czmq.Rust.Text.{Bytes, is_utf8}
use rust_czmq.Ffi.{Ptr, null, Czmq, Io, pure, ◌>>=◌, ask_ptr, read_text}
use rust_czmq.Ffi.Calls.{zlist_next}

pub record ZList : Type 0 where
  pub zlist : Ptr

unfoldable pub from_raw : Ptr → ZList
from_raw ptr = record { zlist = ptr }

module _ (c : Czmq) where
  open c use {World}

  -- `next` of `Iterator`: an item that is no text comes as the empty text.
  unfoldable pub next : ZList → Io World (Option Bytes)
  unfolding ask_ptr read_text
  next l = do
    ptr ← ask_ptr c (zlist_next l.zlist)
    if ptr == null
        then pure none
        else do s ← read_text c ptr; pure (some (if is_utf8 s then s else []))
