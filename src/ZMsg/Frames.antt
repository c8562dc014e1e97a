-- ===== src/ZMsg/Frames.antt =====
-- A message as the list of its frames: what CZMQ documents of the calls that src/zmsg.rs makes, and
-- the operations on the list that the methods stand for.
use rust_czmq.Prelude.{ℕ, ◌≡◌, ◌≢◌, ◌⊎◌, Option, none, some, List, [], ◌∷◌, ◌++◌, length}
use rust_czmq.Rust.Text.{Bytes, Utf8Result, from_utf8, c_string_or_empty, until_nul}
use rust_czmq.Error.{Error}
use rust_czmq.Ffi.{Ptr, null, pos, minus_one, Czmq}
use rust_czmq.Ffi.Calls.{
  zframe_new, zframe_data, zframe_size, zframe_destroy, zmsg_pushstr, zmsg_addstr, zmsg_popstr,
  zmsg_pop, zmsg_prepend, zmsg_append, zmsg_size,
}

-- The frames of one message, and the bytes of a frame that is in no message. A call that fails
-- leaves the message as it was; the pops return NULL if there is no frame.
pub record MsgLaws (c : Czmq) (m : Ptr) : Type 0 where
  pub frames : c.World → List Bytes
  pub bytes_of : c.World → Ptr → Bytes
  pub pushstr_call :
      (w : c.World) (t : Bytes)
      → (((c.int_call (zmsg_pushstr m t) w).0 ≡ minus_one)
          × (frames (c.int_call (zmsg_pushstr m t) w).1 ≡ frames w))
        ⊎ (((c.int_call (zmsg_pushstr m t) w).0 ≢ minus_one)
            × (frames (c.int_call (zmsg_pushstr m t) w).1 ≡ t ∷ frames w))
  pub addstr_call :
      (w : c.World) (t : Bytes)
      → (((c.int_call (zmsg_addstr m t) w).0 ≡ minus_one)
          × (frames (c.int_call (zmsg_addstr m t) w).1 ≡ frames w))
        ⊎ (((c.int_call (zmsg_addstr m t) w).0 ≢ minus_one)
            × (frames (c.int_call (zmsg_addstr m t) w).1 ≡ frames w ++ t ∷ []))
  pub new_call :
      (w : c.World) (b : Bytes)
      → ((c.ptr_call (zframe_new b) w).0 ≢ null
          → bytes_of (c.ptr_call (zframe_new b) w).1 (c.ptr_call (zframe_new b) w).0 ≡ b)
        × (frames (c.ptr_call (zframe_new b) w).1 ≡ frames w)
  pub prepend_call :
      (w : c.World) (f : Ptr)
      → (((c.slot_call (zmsg_prepend m f) w).0 ≢ pos 0)
          × (frames (c.slot_call (zmsg_prepend m f) w).2 ≡ frames w))
        ⊎ (((c.slot_call (zmsg_prepend m f) w).0 ≡ pos 0)
            × (frames (c.slot_call (zmsg_prepend m f) w).2 ≡ bytes_of w f ∷ frames w))
  pub append_call :
      (w : c.World) (f : Ptr)
      → (((c.slot_call (zmsg_append m f) w).0 ≢ pos 0)
          × (frames (c.slot_call (zmsg_append m f) w).2 ≡ frames w))
        ⊎ (((c.slot_call (zmsg_append m f) w).0 ≡ pos 0)
            × (frames (c.slot_call (zmsg_append m f) w).2 ≡ frames w ++ bytes_of w f ∷ []))
  pub popstr_empty :
      (w : c.World)
      → frames w ≡ []
      → ((c.ptr_call (zmsg_popstr m) w).0 ≡ null) × (frames (c.ptr_call (zmsg_popstr m) w).1 ≡ [])
  pub popstr_call :
      (w : c.World) (f : Bytes) (fs : List Bytes)
      → frames w ≡ f ∷ fs
      → ((c.ptr_call (zmsg_popstr m) w).0 ≢ null)
        × (c.text_at (c.ptr_call (zmsg_popstr m) w).1 (c.ptr_call (zmsg_popstr m) w).0
            ≡ until_nul f)
        × (frames (c.ptr_call (zmsg_popstr m) w).1 ≡ fs)
  pub pop_empty :
      (w : c.World)
      → frames w ≡ []
      → ((c.ptr_call (zmsg_pop m) w).0 ≡ null) × (frames (c.ptr_call (zmsg_pop m) w).1 ≡ [])
  pub pop_call :
      (w : c.World) (f : Bytes) (fs : List Bytes)
      → frames w ≡ f ∷ fs
      → ((c.ptr_call (zmsg_pop m) w).0 ≢ null)
        × (bytes_of (c.ptr_call (zmsg_pop m) w).1 (c.ptr_call (zmsg_pop m) w).0 ≡ f)
        × (frames (c.ptr_call (zmsg_pop m) w).1 ≡ fs)
  -- The data and the size of a frame, read one after the other.
  pub data_call :
      (w : c.World) (f : Ptr)
      → ((c.ptr_call (zframe_data f) w).0 ≢ null)
        × (bytes_of (c.ptr_call (zframe_data f) w).1 f ≡ bytes_of w f)
        × (frames (c.ptr_call (zframe_data f) w).1 ≡ frames w)
  pub bytes_call :
      (w : c.World) (f : Ptr)
      → (c.bytes_at
            (c.size_call (zframe_size f) (c.ptr_call (zframe_data f) w).1).1
            (c.ptr_call (zframe_data f) w).0
            (c.size_call (zframe_size f) (c.ptr_call (zframe_data f) w).1).0
          ≡ bytes_of w f)
  pub size_of_frame : (w : c.World) (f : Ptr) → frames (c.size_call (zframe_size f) w).1 ≡ frames w
  pub destroy_call : (w : c.World) (f : Ptr) → frames (c.void_call (zframe_destroy f) w) ≡ frames w
  pub size_call :
      (w : c.World)
      → ((c.size_call (zmsg_size m) w).0 ≡ length (frames w))
        × (frames (c.size_call (zmsg_size m) w).1 ≡ frames w)

-- The methods that change or read the list of frames.
pub data MsgOp : Type 0 where
  push_str add_str push_bytes add_bytes : Bytes → MsgOp
  pop_str pop_bytes count : MsgOp

-- What the caller gets back; `refused` is an `Err`.
pub data Reply : Type 0 where
  added : Reply
  refused : Error → Reply
  text_popped : Option Utf8Result → Reply
  bytes_popped : Option Bytes → Reply
  counted : ℕ → Reply

-- The frames after a method that adds one; the others leave that to `Does`.
abbrev pub with_frame : MsgOp → List Bytes → List Bytes
with_frame (push_str t) fs = c_string_or_empty t ∷ fs
with_frame (add_str t) fs = fs ++ c_string_or_empty t ∷ []
with_frame (push_bytes b) fs = b ∷ fs
with_frame (add_bytes b) fs = fs ++ b ∷ []
with_frame _ fs = fs

-- The replies that are allowed: a method that adds may also be refused, and then changes nothing.
pub data Adds : MsgOp → Type 0 where
  push_str_adds : (t : Bytes) → Adds (push_str t)
  add_str_adds : (t : Bytes) → Adds (add_str t)
  push_bytes_adds : (b : Bytes) → Adds (push_bytes b)
  add_bytes_adds : (b : Bytes) → Adds (add_bytes b)

-- One method on a list of frames: the reply, and the list behind it.
pub data Does (op : MsgOp) (fs : List Bytes) (r : Reply) (gs : List Bytes) : Type 0 where
  adds : Adds op → r ≡ added → gs ≡ with_frame op fs → Does op fs r gs
  refuses : Adds op → (e : Error) → r ≡ refused e → gs ≡ fs → Does op fs r gs
  pops_text :
      op ≡ pop_str
      → (f : Bytes) → fs ≡ f ∷ gs
      → r ≡ text_popped (some (from_utf8 (until_nul f)))
      → Does op fs r gs
  pops_no_text : op ≡ pop_str → fs ≡ [] → gs ≡ [] → r ≡ text_popped none → Does op fs r gs
  pops_bytes :
      op ≡ pop_bytes → (f : Bytes) → fs ≡ f ∷ gs → r ≡ bytes_popped (some f) → Does op fs r gs
  pops_no_bytes : op ≡ pop_bytes → fs ≡ [] → gs ≡ [] → r ≡ bytes_popped none → Does op fs r gs
  counts : op ≡ count → gs ≡ fs → r ≡ counted (length fs) → Does op fs r gs
