-- ===== src/ZFrame/Store.antt =====
-- Frames in memory: what CZMQ documents of the calls that src/zframe.rs makes.
use rust_czmq.Prelude.{◌≡◌, ◌≢◌, ◌⊎◌, Bool, Option, none, some, [], length, bound}
use rust_czmq.Rust.Text.{Bytes, bytes_eq}
use rust_czmq.Ffi.{Ptr, null, flag, Czmq, PtrCall}
use rust_czmq.Ffi.Calls.{
  zframe_new, zframe_new_empty, zframe_dup, zframe_data, zframe_size, zframe_streq, zframe_more,
  zframe_set_more, zframe_eq, zframe_reset, zframe_destroy,
}

-- The bytes of a frame and its flag MORE.
abbrev pub Held : Type 0
Held = Bytes × Bool

-- The frames that are in memory, by their pointers.
abbrev pub Store : Type 0
Store = Ptr → Option Held

-- A call that makes a frame returns NULL, or the pointer of a frame that was not there before.
abbrev pub Made : (c : Czmq) → (c.World → Store) → PtrCall → Bytes → c.World → Type 0
Made c held q b w =
    (((c.ptr_call q w).0 ≡ null) × (held (c.ptr_call q w).1 ≡ held w))
    ⊎ ((m : Bool) × ((c.ptr_call q w).0 ≢ null)
        × (held w (c.ptr_call q w).0 ≡ none)
        × (held (c.ptr_call q w).1 ≡ bound (held w) (c.ptr_call q w).0 (some (b, m))))

pub record FrameLaws (c : Czmq) : Type 0 where
  pub held : c.World → Store
  pub new_call : (b : Bytes) (w : c.World) → Made c held (zframe_new b) b w
  pub empty_call : (w : c.World) → Made c held zframe_new_empty [] w
  pub dup_call :
      (f : Ptr) (h : Held) (w : c.World) → held w f ≡ some h → Made c held (zframe_dup f) (h.0) w
  pub data_call :
      (f : Ptr) (h : Held) (w : c.World)
      → held w f ≡ some h
      → ((c.ptr_call (zframe_data f) w).0 ≢ null)
        × (held (c.ptr_call (zframe_data f) w).1 ≡ held w)
        × (c.bytes_at
              (c.size_call (zframe_size f) (c.ptr_call (zframe_data f) w).1).1
              (c.ptr_call (zframe_data f) w).0
              (c.size_call (zframe_size f) (c.ptr_call (zframe_data f) w).1).0
            ≡ h.0)
  pub size_call :
      (f : Ptr) (h : Held) (w : c.World)
      → held w f ≡ some h
      → ((c.size_call (zframe_size f) w).0 ≡ length (h.0))
        × (held (c.size_call (zframe_size f) w).1 ≡ held w)
  pub streq_call :
      (f : Ptr) (h : Held) (t : Bytes) (w : c.World)
      → held w f ≡ some h
      → ((c.int_call (zframe_streq f t) w).0 ≡ flag (bytes_eq (h.0) t))
        × (held (c.int_call (zframe_streq f t) w).1 ≡ held w)
  pub eq_call :
      (f g : Ptr) (h k : Held) (w : c.World)
      → held w f ≡ some h
      → held w g ≡ some k
      → ((c.int_call (zframe_eq f g) w).0 ≡ flag (bytes_eq (h.0) (k.0)))
        × (held (c.int_call (zframe_eq f g) w).1 ≡ held w)
  pub more_call :
      (f : Ptr) (h : Held) (w : c.World)
      → held w f ≡ some h
      → ((c.int_call (zframe_more f) w).0 ≡ flag (h.1))
        × (held (c.int_call (zframe_more f) w).1 ≡ held w)
  pub set_more_call :
      (f : Ptr) (h : Held) (b : Bool) (w : c.World)
      → held w f ≡ some h
      → held (c.void_call (zframe_set_more f (flag b)) w) ≡ bound (held w) f (some (h.0, b))
  pub reset_call :
      (f : Ptr) (h : Held) (b : Bytes) (w : c.World)
      → held w f ≡ some h
      → held (c.void_call (zframe_reset f b) w) ≡ bound (held w) f (some (b, h.1))
  pub destroy_call :
      (f : Ptr) (h : Held) (w : c.World)
      → held w f ≡ some h
      → held (c.void_call (zframe_destroy f) w) ≡ bound (held w) f none
