-- ===== src/Witnesses/Frames.antt =====
-- A library with memory for two frames, and a run with it.
use rust_czmq.Prelude.{
  ℕ, zero, suc, ◌≡◌, ◌≢◌, refl, ◌⊎◌, inl, inr, Bool, true, false, Option, none, some, List, [], ◌∷◌,
  arith, bound, length,
}
use rust_czmq.Rust.Text.{Bytes, ascii, bytes_eq}
use rust_czmq.Ffi.{
  Ptr, null, ℤ, pos, int_eq, flag, PtrCall, IntCall, SizeCall, VoidCall, Czmq, Machine,
}
use rust_czmq.Ffi.Calls.{
  zframe_new, zframe_new_empty, zframe_dup, zframe_data, zframe_size, zframe_streq, zframe_more,
  zframe_set_more, zframe_eq, zframe_reset, zframe_destroy,
}
use rust_czmq.ZFrame.Program.{
  frame_handle, FrameOp, make, make_empty, copy, put, mark, read, measure, is_marked, is_text,
  is_same, discard, Reply, DoesAll, run_program, Vars, Values,
}
use rust_czmq.Variables.{Stands}
use rust_czmq.ZFrame.Store.{Held, Store, FrameLaws}
use rust_czmq.ZFrame.Values.{run_program-DoesAll}

abbrev contents : Option Held → Bytes
contents none = []
contents (some h) = h.0

abbrev mark_of : Option Held → Bool
mark_of none = false
mark_of (some h) = h.1

-- The first free one of two places.
abbrev allocated : Option Held → Option Held → Store → Bytes → Ptr × Store
allocated none second w b = (1, bound w 1 (some (b, false)))
allocated (some _) none w b = (2, bound w 2 (some (b, false)))
allocated (some _) (some _) w b = (null, w)

abbrev frame_ptr_call : PtrCall → Store → Ptr × Store
frame_ptr_call (zframe_new b) w = allocated (w 1) (w 2) w b
frame_ptr_call zframe_new_empty w = allocated (w 1) (w 2) w []
frame_ptr_call (zframe_dup f) w = allocated (w 1) (w 2) w (contents (w f))
frame_ptr_call (zframe_data f) w = (suc f, w)
frame_ptr_call _ w = (1, w)

abbrev frame_int_call : IntCall → Store → ℤ × Store
frame_int_call (zframe_streq f t) w = (flag (bytes_eq (contents (w f)) t), w)
frame_int_call (zframe_eq f g) w = (flag (bytes_eq (contents (w f)) (contents (w g))), w)
frame_int_call (zframe_more f) w = (flag (mark_of (w f)), w)
frame_int_call _ w = (pos 0, w)

abbrev frame_size_call : SizeCall → Store → ℕ × Store
frame_size_call (zframe_size f) w = (length (contents (w f)), w)
frame_size_call _ w = (0, w)

abbrev frame_void_call : VoidCall → Store → Store
frame_void_call (zframe_set_more f i) w = bound w f (some (contents (w f), int_eq i (pos 1)))
frame_void_call (zframe_reset f b) w = bound w f (some (b, mark_of (w f)))
frame_void_call (zframe_destroy f) w = bound w f none
frame_void_call _ w = w

-- The data of the frame `f` is at the address `f + 1`.
abbrev data_at : Store → Ptr → Bytes
data_at w zero = []
data_at w (suc f) = contents (w f)

abbrev with_frames : Czmq
with_frames = record {
  World = Store;
  ptr_call = frame_ptr_call;
  int_call = frame_int_call;
  size_call = frame_size_call;
  slot_call = λ q w. (pos 0, null, w);
  void_call = frame_void_call;
  pipe_call = λ w. (1, 2, w);
  bytes_at = λ w p n. data_at w p;
  text_at = λ w p. [];
  beyond = λ w b. [];
  freed_text = λ w b. [];
  state_field = λ w p. 1;
  certs_field = λ w p. 1;
}

allocated_lem :
    (first second : Option Held) (w : Store) (b : Bytes)
    → w 1 ≡ first
    → w 2 ≡ second
    → (((allocated first second w b).0 ≡ null) × ((allocated first second w b).1 ≡ w))
      ⊎ ((m : Bool) × ((allocated first second w b).0 ≢ null)
          × (w (allocated first second w b).0 ≡ none)
          × ((allocated first second w b).1 ≡ bound w (allocated first second w b).0 (some (b, m))))
allocated_lem none second w b e f = inr (false, ground arith, e, refl)
allocated_lem (some _) none w b e f = inr (false, ground arith, f, refl)
allocated_lem (some _) (some _) w b e f = inl (refl, refl)

suc_there : (f : ℕ) → suc f ≢ null
suc_there f = ground arith

flag_read : (b : Bool) → int_eq (flag b) (pos 1) ≡ b
flag_read true = refl
flag_read false = refl

unfoldable frame_laws : FrameLaws with_frames
unfolding allocated_lem suc_there flag_read
frame_laws = record {
  held = λ w. w;
  new_call = λ b w. allocated_lem (w 1) (w 2) w b refl refl;
  empty_call = λ w. allocated_lem (w 1) (w 2) w [] refl refl;
  dup_call = λ f h w e. rw e (allocated_lem (w 1) (w 2) w (h.0) refl refl);
  data_call = λ f h w e. (suc_there f, refl, rw e);
  size_call = λ f h w e. (rw e, refl);
  streq_call = λ f h t w e. (rw e, refl);
  eq_call = λ f g h k w e e'. (rw (e, e'), refl);
  more_call = λ f h w e. (rw e, refl);
  set_more_call = λ f h b w e. rw (e, flag_read b);
  reset_call = λ f h b w e. rw e;
  destroy_call = λ f h w e. refl;
}

abbrev empty_store : Store
empty_store p = none

abbrev no_vars : Vars
no_vars x = none

abbrev no_values : Values
no_values x = none

no_frames : Stands no_vars no_values empty_store
no_frames = record { known = λ x. inl (refl, refl); apart = λ x y f g e e' same. ground arith }

abbrev start : Machine with_frames.World
start = record { world = empty_store; trace = [] }

-- A copy is made, the first frame is changed, and there is no memory for a third.
abbrev program : List FrameOp
program =
    make 0 (ascii "ab")
    ∷ copy 1 0
    ∷ is_same 0 1
    ∷ put 0 (ascii "c")
    ∷ mark 0 true
    ∷ read 1
    ∷ measure 0
    ∷ is_marked 0
    ∷ is_text 1 (ascii "ab")
    ∷ is_same 0 1
    ∷ make_empty 2
    ∷ discard 0
    ∷ copy 0 1
    ∷ read 2
    ∷ []

run_program-DoesAll_example :
    (rs : List Reply) × (env : Vars) × (vs : Values) × (s : Machine with_frames.World)
    × (run_program with_frames program no_vars start ≡ some (rs, env, s))
    × DoesAll program no_values rs vs
    × Stands env vs (frame_laws.held s.world)
unfolding frame_laws no_frames
run_program-DoesAll_example =
    run_program-DoesAll with_frames frame_laws program no_vars no_values start no_frames
