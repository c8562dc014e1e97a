-- ===== src/Ownership/Reading.antt =====
-- `ZMsg::popbytes`, which pops a frame, reads it and drops it.
use rust_czmq.Prelude.{ℕ, ◌==◌, ◌≡◌, ◌≢◌, false, some, ◌∷◌, arith, Bool-cases, inl, inr}
use rust_czmq.Rust.Text.{Bytes, is_utf8, from_utf8, into_bytes}
use rust_czmq.Ffi.{Ptr, null, Czmq, Machine, result_of}
use rust_czmq.Ffi.Calls.{zmsg_pop, zframe_data, zframe_size}
use rust_czmq.ZMsg
use rust_czmq.ZMsg.{ZMsg}
use rust_czmq.Ownership.{releases, all_releases}

-- A text and the bytes of a failed conversion are the bytes that were read.
pub into_bytes-from_utf8 : (b : Bytes) → into_bytes (from_utf8 b) ≡ b
unfolding into_bytes from_utf8
into_bytes-from_utf8 b = elim (Bool-cases (is_utf8 b)) [ inl h ↦ rw h | inr h ↦ rw h ]

module _ (c : Czmq) (m : ZMsg) (s : Machine c.World) where
  -- The popped frame, its data and its size, as CZMQ replies one after the other.
  abbrev pub popped : Ptr × c.World
  popped = c.ptr_call (zmsg_pop m.zmsg) s.world

  abbrev pub data_in : Ptr × c.World
  data_in = c.ptr_call (zframe_data popped.0) popped.1

  abbrev pub size_in : ℕ × c.World
  size_in = c.size_call (zframe_size popped.0) data_in.1

  -- If a frame is popped and its data is not null, `popbytes` returns the bytes of the frame as
  -- they are, be they a text or not.
  pub popbytes-bytes :
      popped.0 ≢ null
      → data_in.0 ≢ null
      → result_of (ZMsg.popbytes c m s) ≡ some (some (c.bytes_at size_in.1 data_in.0 size_in.0))
  unfolding ZMsg.popbytes
  popbytes-bytes there data_there =
      let p : (popped.0 == null) ≡ false = ground arith in
      let d : (data_in.0 == null) ≡ false = ground arith in
      rw (p, d, into_bytes-from_utf8 (c.bytes_at size_in.1 data_in.0 size_in.0))

  -- If a frame is popped, `popbytes` releases it exactly once, also when its data cannot be read.
  pub popbytes-releases :
      popped.0 ≢ null → all_releases (ZMsg.popbytes c m s) ≡ some (popped.0 ∷ releases s.trace)
  unfolding ZMsg.popbytes
  popbytes-releases there =
      let p : (popped.0 == null) ≡ false = ground arith in
      elim (Bool-cases (data_in.0 == null)) [ inl d ↦ rw (p, d, p) | inr d ↦ rw (p, d, p) ]
