-- ===== src/Colander.antt =====
-- src/colander.rs: a box around memory that C manages; it is never freed by Rust. A box is the
-- address of what it holds.
use rust_czmq.Prelude.{Option, none, some}
use rust_czmq.Rust.Text.{Bytes}
use rust_czmq.Ffi.{Ptr, null, Io, pure, unwrap, ◌>>=◌}

pub record Colander : Type 0 where
  pub inner : Option Ptr

unfoldable pub from_raw : Ptr → Colander
from_raw raw = record { inner = some raw }

unfoldable pub into_raw : Colander → Ptr
into_raw s = elim s.inner [ none ↦ null | some b ↦ b ]

unfoldable pub into_inner : Colander → Option Ptr
into_inner s = s.inner

-- What the traits read through `inner`, which panics when it has been taken.
module _ {W : Type 0} where
  unfoldable pub as_ref : Colander → Io W Ptr
  as_ref s = unwrap s.inner

  unfoldable pub as_mut : Colander → Io W Ptr
  as_mut s = unwrap s.inner

  unfoldable pub borrow : Colander → Io W Ptr
  borrow s = unwrap s.inner

  unfoldable pub borrow_mut : Colander → Io W Ptr
  borrow_mut s = unwrap s.inner

  unfoldable pub deref : Colander → Io W Ptr
  deref s = unwrap s.inner

  unfoldable pub deref_mut : Colander → Io W Ptr
  deref_mut s = unwrap s.inner

  -- `impl Debug`, with the text that `T` gives itself.
  unfoldable pub fmt : (Ptr → Bytes) → Colander → Io W Bytes
  fmt debug s = do inner ← unwrap s.inner; pure (debug inner)

  -- `impl Drop`: the box is turned into its pointer, which frees nothing.
  unfoldable pub drop : Colander → Io W (Unit {0})
  drop s = elim s.inner [ none ↦ pure tt | some b ↦ pure tt ]
