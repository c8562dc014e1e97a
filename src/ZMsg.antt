-- ===== src/ZMsg.antt =====
-- src/zmsg.rs: a message, which is a list of frames that CZMQ keeps.
pub mod Frames
pub mod Methods
pub mod Refinement
pub mod Queue
pub mod Store
pub mod Program
pub mod Allowed
pub mod Adding
pub mod Changing
pub mod Nesting
pub mod Values
pub mod Nested
pub mod Iteration
use rust_czmq.Prelude.{ℕ, ◌==◌, Bool, true, false, Option, none, some, if◌then◌else◌}
use rust_czmq.Rust.Text.{Bytes, Utf8Result, from_utf8, into_bytes, c_string_or_empty}
use rust_czmq.Error.{Error, error, null_ptr, non_zero}
use rust_czmq.Error.Causes
use rust_czmq.Error.Causes.{ZMsgError}
use rust_czmq.Ffi.Int.{int_as_u8}
use rust_czmq.Ffi.{
  Ptr, null, ℤ, pos, minus_one, int_eq, Czmq, Io, pure, fail, or_drop, ◌>>=◌, ◌>>◌, ask_ptr,
  ask_int, ask_size, ask_slot, tell, read_text,
}
use rust_czmq.Ffi.Calls.{
  zmsg_new, zmsg_recv, zmsg_encode, zmsg_decode, zmsg_new_signal, zmsg_send, zmsg_size,
  zmsg_prepend, zmsg_append, zmsg_pop, zmsg_pushstr, zmsg_addstr, zmsg_popstr, zmsg_addmsg,
  zmsg_popmsg, zmsg_remove, zmsg_first, zmsg_next, zmsg_last, zmsg_dup, zmsg_print, zmsg_eq,
  zmsg_signal, zmsg_destroy,
}
use rust_czmq.Raw.{Sockish}
use rust_czmq.ZFrame
use rust_czmq.ZFrame.{ZFrame}

pub record ZMsg : Type 0 where
  pub zmsg : Ptr
  pub owned : Bool

abbrev owning : Ptr → ZMsg
owning p = record { zmsg = p; owned = true }

unfoldable pub from_raw : Ptr → Bool → ZMsg
from_raw ptr owned = record { zmsg = ptr; owned = owned }

unfoldable pub as_mut_ptr : ZMsg → Ptr
as_mut_ptr m = m.zmsg

abbrev pub null_error : Error
null_error = error null_ptr (Causes.zmsg ZMsgError.cmd_failed)

abbrev pub non_zero_error : Error
non_zero_error = error non_zero (Causes.zmsg ZMsgError.cmd_failed)

-- The frame or message at a pointer that may be null.
abbrev frame_at : Ptr → Bool → Option ZFrame
frame_at ptr owned = if ptr == null then none else some (ZFrame.from_raw ptr owned)

-- The tests on a return code: `rc == -1` is an error in most functions, `rc != 0` in some.
abbrev unless_minus_one : {W : Type 0} → ℤ → Io W (Unit {0})
unless_minus_one rc = if int_eq rc minus_one then fail non_zero_error else pure tt

abbrev if_zero : {W : Type 0} → ℤ → Io W (Unit {0})
if_zero rc = if int_eq rc (pos 0) then pure tt else fail non_zero_error

module _ (c : Czmq) where
  open c use {World}

  -- `impl Drop`
  unfoldable pub drop : ZMsg → Io World (Unit {0})
  unfolding tell
  drop m = if m.owned then tell c (zmsg_destroy m.zmsg) else pure tt

  unfoldable pub into_raw : ZMsg → Io World Ptr
  unfolding drop
  into_raw m = do let m' = record m { owned = false }; drop m'; pure m'.zmsg

  unfoldable pub new : Io World ZMsg
  unfolding ask_ptr
  new = do zmsg ← ask_ptr c zmsg_new; pure (owning zmsg)

  unfoldable pub recv : {S : Type 0} → ⦃k : Sockish World S⦄ → S → Io World ZMsg
  unfolding ask_ptr
  recv ⦃k⦄ source = do
    zmsg ← ask_ptr c (zmsg_recv (k.as_mut_ptr source))
    if zmsg == null then fail null_error else pure (owning zmsg)

  unfoldable pub encode : ZMsg → Io World ZFrame
  unfolding ask_ptr ZFrame.from_raw
  encode m = do
    zframe ← ask_ptr c (zmsg_encode m.zmsg)
    if zframe == null then fail null_error else pure (ZFrame.from_raw zframe true)

  unfoldable pub decode : ZFrame → Io World ZMsg
  unfolding ask_ptr ZFrame.as_mut_ptr
  decode frame = do
    zmsg ← ask_ptr c (zmsg_decode (ZFrame.as_mut_ptr frame))
    if zmsg == null then fail null_error else pure (owning zmsg)

  unfoldable pub new_signal : ℕ → Io World ZMsg
  unfolding ask_ptr
  new_signal status = do
    zmsg ← ask_ptr c (zmsg_new_signal status)
    if zmsg == null then fail null_error else pure (owning zmsg)

  -- The message is consumed: what `zmsg_send` leaves in the slot is dropped on return.
  unfoldable pub send : {D : Type 0} → ⦃k : Sockish World D⦄ → ZMsg → D → Io World (Unit {0})
  unfolding ask_slot drop
  send ⦃k⦄ m dest = do
    (rc, slot) ← ask_slot c (zmsg_send m.zmsg (k.as_mut_ptr dest))
    drop (record m { zmsg = slot })
    unless_minus_one rc

  unfoldable pub size : ZMsg → Io World ℕ
  unfolding ask_size
  size m = ask_size c (zmsg_size m.zmsg)

  -- `&mut frame.into_raw()`: the slot is a temporary, and what is left in it is forgotten.
  unfoldable pub prepend : ZMsg → ZFrame → Io World (Unit {0})
  unfolding ask_slot ZFrame.into_raw
  prepend m frame = do
    ptr ← ZFrame.into_raw c frame
    (rc, _) ← ask_slot c (zmsg_prepend m.zmsg ptr)
    if_zero rc

  unfoldable pub append : ZMsg → ZFrame → Io World (Unit {0})
  unfolding ask_slot ZFrame.into_raw
  append m frame = do
    ptr ← ZFrame.into_raw c frame
    (rc, _) ← ask_slot c (zmsg_append m.zmsg ptr)
    if_zero rc

  unfoldable pub pop : ZMsg → Io World (Option ZFrame)
  unfolding ask_ptr ZFrame.from_raw
  pop m = do ptr ← ask_ptr c (zmsg_pop m.zmsg); pure (frame_at ptr true)

  unfoldable pub pushstr : ZMsg → Bytes → Io World (Unit {0})
  unfolding ask_int
  pushstr m string = do
    rc ← ask_int c (zmsg_pushstr m.zmsg (c_string_or_empty string))
    unless_minus_one rc

  unfoldable pub addstr : ZMsg → Bytes → Io World (Unit {0})
  unfolding ask_int
  addstr m string = do
    rc ← ask_int c (zmsg_addstr m.zmsg (c_string_or_empty string))
    unless_minus_one rc

  unfoldable pub popstr : ZMsg → Io World (Option Utf8Result)
  unfolding ask_ptr read_text
  popstr m = do
    ptr ← ask_ptr c (zmsg_popstr m.zmsg)
    if ptr == null then pure none else do s ← read_text c ptr; pure (some (from_utf8 s))

  unfoldable pub pushbytes : ZMsg → Bytes → Io World (Unit {0})
  unfolding ZFrame.new prepend
  pushbytes m bytes = do zframe ← ZFrame.new c bytes; prepend m zframe

  unfoldable pub addbytes : ZMsg → Bytes → Io World (Unit {0})
  unfolding ZFrame.new append
  addbytes m bytes = do zframe ← ZFrame.new c bytes; append m zframe

  -- The popped frame is a temporary of the expression that reads it, and is dropped at its end.
  popped_bytes : Option ZFrame → Io World (Option Bytes)
  unfolding ZFrame.data_of ZFrame.drop
  popped_bytes none = pure none
  popped_bytes (some frame) = do
    result ← or_drop (ZFrame.drop c frame) (ZFrame.data_of c frame)
    ZFrame.drop c frame
    pure (some (into_bytes result))

  unfoldable pub popbytes : ZMsg → Io World (Option Bytes)
  unfolding pop popped_bytes
  popbytes m = do frame ← pop m; popped_bytes frame

  unfoldable pub addmsg : ZMsg → ZMsg → Io World (Unit {0})
  unfolding ask_slot into_raw
  addmsg m other = do
    ptr ← into_raw other
    (rc, _) ← ask_slot c (zmsg_addmsg m.zmsg ptr)
    unless_minus_one rc

  unfoldable pub popmsg : ZMsg → Io World (Option ZMsg)
  unfolding ask_ptr from_raw
  popmsg m = do
    ptr ← ask_ptr c (zmsg_popmsg m.zmsg)
    if ptr == null then pure none else pure (some (from_raw ptr true))

  unfoldable pub remove : ZMsg → ZFrame → Io World (Unit {0})
  unfolding tell ZFrame.as_mut_ptr
  remove m frame = tell c (zmsg_remove m.zmsg (ZFrame.as_mut_ptr frame))

  unfoldable pub first : ZMsg → Io World (Option ZFrame)
  unfolding ask_ptr ZFrame.from_raw
  first m = do ptr ← ask_ptr c (zmsg_first m.zmsg); pure (frame_at ptr false)

  unfoldable pub next : ZMsg → Io World (Option ZFrame)
  unfolding ask_ptr ZFrame.from_raw
  next m = do ptr ← ask_ptr c (zmsg_next m.zmsg); pure (frame_at ptr false)

  -- `impl Iterator for ZMsg`
  unfoldable pub iterator_next : ZMsg → Io World (Option ZFrame)
  unfolding next
  iterator_next m = next m

  unfoldable pub ref_last : ZMsg → Io World (Option ZFrame)
  unfolding ask_ptr ZFrame.from_raw
  ref_last m = do ptr ← ask_ptr c (zmsg_last m.zmsg); pure (frame_at ptr false)

  unfoldable pub dup : ZMsg → Io World ZMsg
  unfolding ask_ptr from_raw
  dup m = do
    ptr ← ask_ptr c (zmsg_dup m.zmsg)
    if ptr == null then fail null_error else pure (from_raw ptr true)

  unfoldable pub print : ZMsg → Io World (Unit {0})
  unfolding tell
  print m = tell c (zmsg_print m.zmsg)

  unfoldable pub eq : ZMsg → ZMsg → Io World Bool
  unfolding ask_int
  eq m other = do result ← ask_int c (zmsg_eq m.zmsg other.zmsg); pure (int_eq result (pos 1))

  unfoldable pub signal : ZMsg → Io World ℕ
  unfolding ask_int
  signal m = do
    signal ← ask_int c (zmsg_signal m.zmsg)
    if int_eq signal minus_one then fail non_zero_error else pure (int_as_u8 signal)
