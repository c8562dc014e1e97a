-- ===== src/ZMsg/Store.antt =====
-- Messages in memory, and messages in messages: what CZMQ documents of the calls that src/zmsg.rs makes.
use rust_czmq.Prelude.{
  ◌≡◌, ◌≢◌, ◌⊎◌, Bool, true, false, ◌&&◌, Option, none, some, List, [], ◌∷◌, ◌++◌, length, bound,
}
use rust_czmq.Rust.Text.{Bytes, bytes_eq, until_nul}
use rust_czmq.Ffi.{Ptr, null, minus_one, flag, Czmq, PtrCall}
use rust_czmq.Ffi.Calls.{
  IntCall, zmsg_new, zmsg_dup, zmsg_pushstr, zmsg_addstr, zmsg_popstr, zmsg_size, zmsg_eq,
  zmsg_addmsg, zmsg_popmsg, zmsg_destroy,
}

-- The frames of a message.
abbrev pub Held : Type 0
Held = List Bytes

abbrev pub Store : Type 0
Store = Ptr → Option Held

unfoldable pub frames_eq : Held → Held → Bool
frames_eq [] [] = true
frames_eq [] (g ∷ gs) = false
frames_eq (f ∷ fs) [] = false
frames_eq (f ∷ fs) (g ∷ gs) = bytes_eq f g && frames_eq fs gs

module _ (c : Czmq) (held : c.World → Store) where
  -- A call returns the pointer of a message that was not there before.
  abbrev pub Fresh : PtrCall → Held → c.World → Type 0
  Fresh q fs w =
      ((c.ptr_call q w).0 ≢ null)
      × (held w (c.ptr_call q w).0 ≡ none)
      × (held (c.ptr_call q w).1 ≡ bound (held w) (c.ptr_call q w).0 (some fs))

  abbrev pub Fails : PtrCall → c.World → Type 0
  Fails q w = ((c.ptr_call q w).0 ≡ null) × (held (c.ptr_call q w).1 ≡ held w)

  -- A call changes a message and returns a code that is not -1, or it returns -1.
  abbrev pub Puts : IntCall → Ptr → Held → c.World → Type 0
  Puts q m fs w =
      (((c.int_call q w).0 ≡ minus_one) × (held (c.int_call q w).1 ≡ held w))
      ⊎ (((c.int_call q w).0 ≢ minus_one) × (held (c.int_call q w).1 ≡ bound (held w) m (some fs)))

-- `code` is the frame that a message is encoded in, and `decoded` the message that a frame has.
pub record MessageLaws (c : Czmq) : Type 0 where
  pub held : c.World → Store
  pub code : Held → Bytes
  pub decoded : Bytes → Option Held
  pub decoded-code : (fs : Held) → decoded (code fs) ≡ some fs
  pub new_call : (w : c.World) → Fresh c held zmsg_new [] w
  pub dup_call :
      (m : Ptr) (fs : Held) (w : c.World)
      → held w m ≡ some fs
      → Fails c held (zmsg_dup m) w ⊎ Fresh c held (zmsg_dup m) fs w
  pub pushstr_call :
      (m : Ptr) (fs : Held) (t : Bytes) (w : c.World)
      → held w m ≡ some fs
      → Puts c held (zmsg_pushstr m t) m (t ∷ fs) w
  pub addstr_call :
      (m : Ptr) (fs : Held) (t : Bytes) (w : c.World)
      → held w m ≡ some fs
      → Puts c held (zmsg_addstr m t) m (fs ++ t ∷ []) w
  pub popstr_empty : (m : Ptr) (w : c.World) → held w m ≡ some [] → Fails c held (zmsg_popstr m) w
  pub popstr_call :
      (m : Ptr) (f : Bytes) (fs : Held) (w : c.World)
      → held w m ≡ some (f ∷ fs)
      → ((c.ptr_call (zmsg_popstr m) w).0 ≢ null)
        × (c.text_at (c.ptr_call (zmsg_popstr m) w).1 (c.ptr_call (zmsg_popstr m) w).0
            ≡ until_nul f)
        × (held (c.ptr_call (zmsg_popstr m) w).1 ≡ bound (held w) m (some fs))
  pub size_call :
      (m : Ptr) (fs : Held) (w : c.World)
      → held w m ≡ some fs
      → ((c.size_call (zmsg_size m) w).0 ≡ length fs)
        × (held (c.size_call (zmsg_size m) w).1 ≡ held w)
  pub eq_call :
      (m o : Ptr) (fs gs : Held) (w : c.World)
      → held w m ≡ some fs
      → held w o ≡ some gs
      → ((c.int_call (zmsg_eq m o) w).0 ≡ flag (frames_eq fs gs))
        × (held (c.int_call (zmsg_eq m o) w).1 ≡ held w)
  -- The message that is added is gone.
  pub addmsg_call :
      (m o : Ptr) (fs gs : Held) (w : c.World)
      → held w m ≡ some fs
      → held w o ≡ some gs
      → m ≢ o
      → (((c.slot_call (zmsg_addmsg m o) w).0 ≡ minus_one)
          × (held (c.slot_call (zmsg_addmsg m o) w).2 ≡ held w))
        ⊎ (((c.slot_call (zmsg_addmsg m o) w).0 ≢ minus_one)
            × (held (c.slot_call (zmsg_addmsg m o) w).2
                ≡ bound (bound (held w) m (some (fs ++ code gs ∷ []))) o none))
  pub popmsg_empty : (m : Ptr) (w : c.World) → held w m ≡ some [] → Fails c held (zmsg_popmsg m) w
  pub popmsg_call :
      (m : Ptr) (f : Bytes) (fs gs : Held) (w : c.World)
      → held w m ≡ some (f ∷ fs)
      → decoded f ≡ some gs
      → ((c.ptr_call (zmsg_popmsg m) w).0 ≢ null)
        × (held w (c.ptr_call (zmsg_popmsg m) w).0 ≡ none)
        × (held (c.ptr_call (zmsg_popmsg m) w).1
            ≡ bound (bound (held w) m (some fs)) (c.ptr_call (zmsg_popmsg m) w).0 (some gs))
  -- A first frame that is no message may be gone or not.
  pub popmsg_other :
      (m : Ptr) (f : Bytes) (fs : Held) (w : c.World)
      → held w m ≡ some (f ∷ fs)
      → decoded f ≡ none
      → ((c.ptr_call (zmsg_popmsg m) w).0 ≡ null)
        × ((ks : Held) × ((ks ≡ fs) ⊎ (ks ≡ f ∷ fs))
            × (held (c.ptr_call (zmsg_popmsg m) w).1 ≡ bound (held w) m (some ks)))
  pub destroy_call :
      (m : Ptr) (fs : Held) (w : c.World)
      → held w m ≡ some fs
      → held (c.void_call (zmsg_destroy m) w) ≡ bound (held w) m none
