-- ===== src/ZFrame.antt =====
-- src/zframe.rs: one frame of a message.
pub mod Store
pub mod Program
pub mod Allowed
pub mod Changing
pub mod Reading
pub mod Values
use rust_czmq.Prelude.{ℕ, ◌==◌, Bool, true, false, Option, none, some, if◌then◌else◌, bit_or}
use rust_czmq.Rust.Text.{Bytes, Utf8Result, from_utf8, c_string_or_empty}
use rust_czmq.Error.{Result, ok, err, error, null_ptr, non_zero}
use rust_czmq.Error.Causes.{ZFrameError}
use rust_czmq.Error.Causes
use rust_czmq.Ffi.{
  Ptr, null, ℤ, pos, minus_one, int_eq, flag, Czmq, Io, pure, fail, lift, ◌>>=◌, ◌>>◌, ask_ptr,
  ask_int, ask_size, ask_slot, tell, read_bytes, read_text, dangling_text,
}
use rust_czmq.Ffi.Calls.{
  zframe_new, zframe_new_empty, zframe_recv, zframe_send, zframe_size, zframe_data, zframe_meta,
  zframe_dup, zframe_strhex, zframe_strdup, zframe_streq, zframe_more, zframe_set_more, zframe_eq,
  zframe_reset, zframe_print, zframe_destroy,
}
use rust_czmq.Raw.{Sockish}

-- `bitflags!`: the bits of a C `int`.
abbrev pub zframe_more_flag : ℕ
zframe_more_flag = 0b00000001

abbrev pub zframe_reuse_flag : ℕ
zframe_reuse_flag = 0b00000010

abbrev pub zframe_dontwait_flag : ℕ
zframe_dontwait_flag = 0b00000100

pub record ZFrame : Type 0 where
  pub zframe : Ptr
  pub owned : Bool

abbrev owning : Ptr → ZFrame
owning p = record { zframe = p; owned = true }

unfoldable pub from_raw : Ptr → Bool → ZFrame
from_raw ptr owned = record { zframe = ptr; owned = owned }

unfoldable pub as_mut_ptr : ZFrame → Ptr
as_mut_ptr f = f.zframe

-- `if let Some(f) = flags { f.bits() } else { 0 }`
unfoldable pub flags_c : Option ℕ → ℕ
flags_c (some f) = f
flags_c none = 0

-- `if let Some(f) = flags { f | ZFRAME_REUSE } else { ZFRAME_REUSE }`
unfoldable pub with_reuse : Option ℕ → ℕ
with_reuse (some f) = bit_or f zframe_reuse_flag
with_reuse none = zframe_reuse_flag

module _ (c : Czmq) where
  open c use {World}

  -- `impl Drop`
  unfoldable pub drop : ZFrame → Io World (Unit {0})
  unfolding tell
  drop f = if f.owned then tell c (zframe_destroy f.zframe) else pure tt

  unfoldable pub into_raw : ZFrame → Io World Ptr
  unfolding drop
  into_raw f = do let f' = record f { owned = false }; drop f'; pure f'.zframe

  unfoldable pub new : Bytes → Io World ZFrame
  unfolding ask_ptr
  new bytes = do
    zframe ← ask_ptr c (zframe_new bytes)
    if zframe == null
        then fail (error null_ptr (Causes.zframe ZFrameError.instantiate))
        else pure (owning zframe)

  unfoldable pub empty : Io World ZFrame
  unfolding ask_ptr
  empty = do
    zframe ← ask_ptr c zframe_new_empty
    if zframe == null
        then fail (error null_ptr (Causes.zframe ZFrameError.instantiate))
        else pure (owning zframe)

  unfoldable pub from : Bytes → Io World ZFrame
  unfolding new
  from frame = new frame

  unfoldable pub recv : {S : Type 0} → ⦃k : Sockish World S⦄ → S → Io World ZFrame
  unfolding ask_ptr
  recv ⦃k⦄ source = do
    zframe ← ask_ptr c (zframe_recv (k.as_mut_ptr source))
    if zframe == null
        then fail (error null_ptr (Causes.zframe ZFrameError.cmd_failed))
        else pure (owning zframe)

  -- `&mut self`: the frame keeps the pointer that `zframe_send` leaves in its slot.
  unfoldable pub do_send : ZFrame → Ptr → Option ℕ → Io World (ZFrame × Result ℤ)
  unfolding ask_slot flags_c
  do_send f dest flags = do
    (size, slot) ← ask_slot c (zframe_send f.zframe dest (flags_c flags))
    let f' = record f { zframe = slot }
    if int_eq size minus_one
        then pure (f', err (error non_zero (Causes.zframe ZFrameError.cmd_failed)))
        else pure (f', ok size)

  -- The frame is consumed, and dropped on return.
  unfoldable pub send : {D : Type 0} → ⦃k : Sockish World D⦄ → ZFrame → D → Option ℕ → Io World ℤ
  unfolding do_send drop
  send ⦃k⦄ f dest flags = do
    (f', result) ← do_send f (k.as_mut_ptr dest) flags
    drop f'
    lift result

  unfoldable pub send_reuse :
      {D : Type 0} → ⦃k : Sockish World D⦄ → ZFrame → D → Option ℕ → Io World (ZFrame × Result ℤ)
  unfolding do_send with_reuse
  send_reuse ⦃k⦄ f dest flags = do_send f (k.as_mut_ptr dest) (some (with_reuse flags))

  unfoldable pub size : ZFrame → Io World ℕ
  unfolding ask_size
  size f = ask_size c (zframe_size f.zframe)

  unfoldable pub data_of : ZFrame → Io World Utf8Result
  unfolding ask_ptr size read_bytes
  data_of f = do
    ptr ← ask_ptr c (zframe_data f.zframe)
    if ptr == null
        then fail (error null_ptr (Causes.zframe ZFrameError.cmd_failed))
        else (do n ← size f; bytes ← read_bytes c ptr n; pure (from_utf8 bytes))

  unfoldable pub meta : ZFrame → Bytes → Io World (Option Utf8Result)
  unfolding ask_ptr read_text
  meta f property = do
    ptr ← ask_ptr c (zframe_meta f.zframe (c_string_or_empty property))
    if ptr == null then pure none else do s ← read_text c ptr; pure (some (from_utf8 s))

  unfoldable pub dup : ZFrame → Io World ZFrame
  unfolding ask_ptr
  dup f = do
    zframe ← ask_ptr c (zframe_dup f.zframe)
    if zframe == null
        then fail (error null_ptr (Causes.zframe ZFrameError.cmd_failed))
        else pure (owning zframe)

  unfoldable pub strhex : ZFrame → Io World Utf8Result
  unfolding ask_ptr read_text
  strhex f = do
    hex ← ask_ptr c (zframe_strhex f.zframe)
    if hex == null
        then fail (error null_ptr (Causes.zframe ZFrameError.cmd_failed))
        else (do s ← read_text c hex; pure (from_utf8 s))

  unfoldable pub strdup : ZFrame → Io World Utf8Result
  unfolding ask_ptr read_text
  strdup f = do
    string ← ask_ptr c (zframe_strdup f.zframe)
    if string == null
        then fail (error null_ptr (Causes.zframe ZFrameError.cmd_failed))
        else (do s ← read_text c string; pure (from_utf8 s))

  unfoldable pub streq : ZFrame → Bytes → Io World Bool
  unfolding ask_int
  streq f string = do
    result ← ask_int c (zframe_streq f.zframe (c_string_or_empty string))
    pure (int_eq result (pos 1))

  unfoldable pub more : ZFrame → Io World Bool
  unfolding ask_int
  more f = do result ← ask_int c (zframe_more f.zframe); pure (int_eq result (pos 1))

  unfoldable pub set_more : ZFrame → Bool → Io World (Unit {0})
  unfolding tell
  set_more f b = tell c (zframe_set_more f.zframe (flag b))

  unfoldable pub eq : ZFrame → ZFrame → Io World Bool
  unfolding ask_int
  eq f other = do result ← ask_int c (zframe_eq f.zframe other.zframe); pure (int_eq result (pos 1))

  unfoldable pub reset : ZFrame → Bytes → Io World (Unit {0})
  unfolding tell
  reset f bytes = tell c (zframe_reset f.zframe bytes)

  -- `CString::new(p).unwrap_or(…).as_ptr()` in an arm of the match: the string is dropped at its end.
  prefix_seen : Option Bytes → Io World (Option Bytes)
  unfolding dangling_text
  prefix_seen none = pure none
  prefix_seen (some p) = do seen ← dangling_text c (c_string_or_empty p); pure (some seen)

  unfoldable pub print : ZFrame → Option Bytes → Io World (Unit {0})
  unfolding prefix_seen tell
  print f prefix = do prefix_ptr ← prefix_seen prefix; tell c (zframe_print f.zframe prefix_ptr)
