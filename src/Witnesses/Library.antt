-- ===== src/Witnesses/Library.antt =====
-- A library with memory for any number of messages.
use rust_czmq.Prelude.{
  ℕ, suc, ◌≢◌, refl, inl, inr, Option, none, some, [], ◌∷◌, ◌++◌, arith, length,
}
use rust_czmq.Rust.Text.{Bytes, until_nul}
use rust_czmq.Ffi.{
  Ptr, null, ℤ, pos, minus_one, flag, PtrCall, IntCall, SizeCall, SlotCall, VoidCall, Czmq,
}
use rust_czmq.Ffi.Calls.{
  zmsg_new, zmsg_dup, zmsg_pushstr, zmsg_addstr, zmsg_popstr, zmsg_size, zmsg_eq, zmsg_addmsg,
  zmsg_popmsg, zmsg_destroy,
}
use rust_czmq.ZMsg.Program.{message_handle}
use rust_czmq.ZMsg.Store.{Held, frames_eq, MessageLaws}
use rust_czmq.Witnesses.Memory.{
  encoded, decoded_from, decoded_from-encoded, Memory, at, put, freed, cell_free, appended,
  changed_whole, freed_whole, nested_whole, unnested_at,
}

-- The memory, and the text that was read last.
abbrev pub MessageState : Type 0
MessageState = Memory × Bytes

abbrev pub allocated : MessageState → Held → Ptr × MessageState
allocated (w, t) fs = (suc (length w), (w ++ some fs ∷ [], t))

abbrev pub copied : Option Held → MessageState → Ptr × MessageState
copied none w = (null, w)
copied (some fs) w = allocated w fs

abbrev pub popped : Option Held → Ptr → MessageState → Ptr × MessageState
popped none m w = (null, w)
popped (some []) m w = (null, w)
popped (some (f ∷ fs)) m (w, t) = (1, (put w m fs, f))

abbrev pub opened : Option Held → Ptr → Held → MessageState → Ptr × MessageState
opened none m fs (w, t) = (null, (put w m fs, t))
opened (some gs) m fs (w, t) = allocated (put w m fs, t) gs

abbrev pub unnested : Option Held → Ptr → MessageState → Ptr × MessageState
unnested none m w = (null, w)
unnested (some []) m w = (null, w)
unnested (some (f ∷ fs)) m w = opened (decoded_from [] f) m fs w

abbrev pub message_ptr_call : PtrCall → MessageState → Ptr × MessageState
message_ptr_call zmsg_new w = allocated w []
message_ptr_call (zmsg_dup m) w = copied (at (w.0) m) w
message_ptr_call (zmsg_popstr m) w = popped (at (w.0) m) m w
message_ptr_call (zmsg_popmsg m) w = unnested (at (w.0) m) m w
message_ptr_call _ w = (1, w)

abbrev pub frames_of : Option Held → Held
frames_of none = []
frames_of (some fs) = fs

abbrev pub message_int_call : IntCall → MessageState → ℤ × MessageState
message_int_call (zmsg_pushstr m s) (w, t) = (pos 0, (put w m (s ∷ frames_of (at w m)), t))
message_int_call (zmsg_addstr m s) (w, t) = (pos 0, (put w m (frames_of (at w m) ++ s ∷ []), t))
message_int_call (zmsg_eq m o) (w, t) =
    (flag (frames_eq (frames_of (at w m)) (frames_of (at w o))), (w, t))
message_int_call _ w = (pos 0, w)

abbrev pub message_size_call : SizeCall → MessageState → ℕ × MessageState
message_size_call (zmsg_size m) (w, t) = (length (frames_of (at w m)), (w, t))
message_size_call _ w = (0, w)

abbrev pub message_slot_call : SlotCall → MessageState → ℤ × Ptr × MessageState
message_slot_call (zmsg_addmsg m o) (w, t) =
    (pos 0, null, (freed (put w m (frames_of (at w m) ++ encoded (frames_of (at w o)) ∷ [])) o, t))
message_slot_call _ w = (pos 0, null, w)

abbrev pub message_void_call : VoidCall → MessageState → MessageState
message_void_call (zmsg_destroy m) (w, t) = (freed w m, t)
message_void_call _ w = w

abbrev pub with_messages : Czmq
with_messages = record {
  World = MessageState;
  ptr_call = message_ptr_call;
  int_call = message_int_call;
  size_call = message_size_call;
  slot_call = message_slot_call;
  void_call = message_void_call;
  pipe_call = λ w. (1, 2, w);
  bytes_at = λ w p n. [];
  text_at = λ w p. until_nul (w.1);
  beyond = λ w b. [];
  freed_text = λ w b. [];
  state_field = λ w p. 1;
  certs_field = λ w p. 1;
}

pub no_error : pos 0 ≢ minus_one
no_error = ground arith

pub one_there : 1 ≢ null
one_there = ground arith

pub suc_there : (n : ℕ) → suc n ≢ null
suc_there n = ground arith

unfoldable pub message_laws : MessageLaws with_messages
message_laws = record {
  held = λ w. at (w.0);
  code = encoded;
  decoded = decoded_from [];
  decoded-code = decoded_from-encoded;
  new_call = λ w. (suc_there _, cell_free (w.0), appended (w.0) []);
  dup_call = λ m fs w e. inr (rw e (suc_there _, cell_free (w.0), appended (w.0) fs));
  pushstr_call = λ m fs t w e. inr (no_error, rw e (changed_whole (w.0) m fs (t ∷ fs) e));
  addstr_call = λ m fs t w e. inr (no_error, rw e (changed_whole (w.0) m fs (fs ++ t ∷ []) e));
  popstr_empty = λ m w e. rw e (refl, refl);
  popstr_call = λ m f fs w e. rw e (one_there, refl, changed_whole (w.0) m (f ∷ fs) fs e);
  size_call = λ m fs w e. (rw e, refl);
  eq_call = λ m o fs gs w e e'. (rw (e, e'), refl);
  addmsg_call = λ m o fs gs w e e' n.
      inr (no_error, rw (e, e') (nested_whole (w.0) m o fs (fs ++ encoded gs ∷ []) gs e e' n));
  popmsg_empty = λ m w e. rw e (refl, refl);
  popmsg_call = λ m f fs gs w e d.
      let (free, more) = unnested_at (w.0) m (f ∷ fs) fs gs e in
      rw (e, d) (suc_there _, free, more);
  popmsg_other =
      λ m f fs w e d. rw (e, d) (refl, (fs, inl refl, changed_whole (w.0) m (f ∷ fs) fs e));
  destroy_call = λ m fs w e. freed_whole (w.0) m fs e;
}
