-- ===== src/Witnesses/Containers.antt =====
-- Libraries with one message and with one hash table.
use rust_czmq.Prelude.{
  ℕ, ◌≡◌, ◌≢◌, refl, ◌⊎◌, inl, inr, Option, none, some, List, [], ◌∷◌, ◌++◌, arith, length,
}
use rust_czmq.Rust.Text.{Bytes, until_nul}
use rust_czmq.Ffi.{
  Ptr, null, ℤ, pos, minus_one, PtrCall, IntCall, SlotCall, SizeCall, VoidCall, Czmq,
}
use rust_czmq.Ffi.Calls.{
  zframe_new, zframe_size, zmsg_pushstr, zmsg_addstr, zmsg_popstr, zmsg_pop, zmsg_prepend,
  zmsg_append, zmsg_size, zhashx_insert, zhashx_update, zhashx_delete, zhashx_lookup,
}
use rust_czmq.ZHashX.Map.{Table, TableLaws, changed, pointer_of}
use rust_czmq.ZMsg.Frames.{MsgLaws}

-- The frames of the message, and the bytes of the frame made or popped last.
abbrev MsgState : Type 0
MsgState = List Bytes × Bytes

abbrev front_of : MsgState → Ptr × MsgState
front_of ([], b) = (null, ([], b))
front_of (f ∷ fs, b) = (1, (fs, f))

abbrev msg_ptr_call : PtrCall → MsgState → Ptr × MsgState
msg_ptr_call (zframe_new b) (fs, _) = (1, (fs, b))
msg_ptr_call (zmsg_popstr m) w = front_of w
msg_ptr_call (zmsg_pop m) w = front_of w
msg_ptr_call _ w = (1, w)

abbrev msg_int_call : IntCall → MsgState → ℤ × MsgState
msg_int_call (zmsg_pushstr m t) (fs, b) = (pos 0, (t ∷ fs, b))
msg_int_call (zmsg_addstr m t) (fs, b) = (pos 0, (fs ++ t ∷ [], b))
msg_int_call _ w = (pos 0, w)

abbrev msg_slot_call : SlotCall → MsgState → ℤ × Ptr × MsgState
msg_slot_call (zmsg_prepend m f) (fs, b) = (pos 0, null, (b ∷ fs, b))
msg_slot_call (zmsg_append m f) (fs, b) = (pos 0, null, (fs ++ b ∷ [], b))
msg_slot_call _ w = (pos 0, null, w)

abbrev msg_size_call : SizeCall → MsgState → ℕ × MsgState
msg_size_call (zframe_size f) w = (length w.1, w)
msg_size_call (zmsg_size m) w = (length w.0, w)

abbrev pub with_msg : Czmq
with_msg = record {
  World = MsgState;
  ptr_call = msg_ptr_call;
  int_call = msg_int_call;
  size_call = msg_size_call;
  slot_call = msg_slot_call;
  void_call = λ q w. w;
  pipe_call = λ w. (1, 2, w);
  bytes_at = λ w p n. w.1;
  text_at = λ w p. until_nul w.1;
  beyond = λ w b. [];
  freed_text = λ w b. [];
  state_field = λ w p. 1;
  certs_field = λ w p. 1;
}

front_of_empty : (w : MsgState) → w.0 ≡ [] → ((front_of w).0 ≡ null) × ((front_of w).1.0 ≡ [])
front_of_empty ([], b) e = (refl, refl)
front_of_empty (f ∷ fs, b) e = ground arith

front_of_lem :
    (w : MsgState) (f : Bytes) (fs : List Bytes)
    → w.0 ≡ f ∷ fs
    → ((front_of w).0 ≢ null) × ((front_of w).1.1 ≡ f) × ((front_of w).1.0 ≡ fs)
front_of_lem ([], b) f fs e = ground arith
front_of_lem (g ∷ gs, b) f fs e = ground arith

zero_code : pos 0 ≢ minus_one
zero_code = ground arith

one_there : 1 ≢ null
one_there = ground arith

unfoldable pub with_msg_laws : MsgLaws with_msg 1
unfolding front_of_empty front_of_lem zero_code one_there
with_msg_laws = record {
  frames = λ w. w.0;
  bytes_of = λ w f. w.1;
  pushstr_call = λ w t. inr (zero_code, refl);
  addstr_call = λ w t. inr (zero_code, refl);
  new_call = λ w b. (λ n. refl, refl);
  prepend_call = λ w f. inr (refl, refl);
  append_call = λ w f. inr (refl, refl);
  popstr_empty = front_of_empty;
  popstr_call = λ w f fs e. let (n, r, l) = front_of_lem w f fs e in (n, rw r, l);
  pop_empty = front_of_empty;
  pop_call = front_of_lem;
  data_call = λ w f. (one_there, refl, refl);
  bytes_call = λ w f. refl;
  size_of_frame = λ w f. refl;
  destroy_call = λ w f. refl;
  size_call = λ w. (refl, refl);
}

abbrev inserted : Option Ptr → Table → Bytes → Ptr → ℤ × Table
inserted none w k p = (pos 0, changed w k (some p))
inserted (some _) w k p = (minus_one, w)

abbrev table_int_call : IntCall → Table → ℤ × Table
table_int_call (zhashx_insert h k p) w = inserted (w k) w k p
table_int_call _ w = (pos 0, w)

abbrev table_ptr_call : PtrCall → Table → Ptr × Table
table_ptr_call (zhashx_lookup h k) w = (pointer_of (w k), w)
table_ptr_call _ w = (1, w)

abbrev table_void_call : VoidCall → Table → Table
table_void_call (zhashx_update h k p) w = changed w k (some p)
table_void_call (zhashx_delete h k) w = changed w k none
table_void_call _ w = w

abbrev pub with_table : Czmq
with_table = record {
  World = Table;
  ptr_call = table_ptr_call;
  int_call = table_int_call;
  size_call = λ q w. (0, w);
  slot_call = λ q w. (pos 0, null, w);
  void_call = table_void_call;
  pipe_call = λ w. (1, 2, w);
  bytes_at = λ w p n. [];
  text_at = λ w p. [];
  beyond = λ w b. [];
  freed_text = λ w b. [];
  state_field = λ w p. 1;
  certs_field = λ w p. 1;
}

inserted_lem :
    (o : Option Ptr) (w : Table) (k : Bytes) (p : Ptr)
    → w k ≡ o
    → ((w k ≡ none)
        × ((inserted o w k p).0 ≢ minus_one)
        × ((inserted o w k p).1 ≡ changed w k (some p)))
      ⊎ ((old : Ptr) × (w k ≡ some old)
          × ((inserted o w k p).0 ≡ minus_one)
          × ((inserted o w k p).1 ≡ w))
inserted_lem none w k p e = inl (e, ground arith, refl)
inserted_lem (some old) w k p e = inr (old, e, refl, refl)

unfoldable pub with_table_laws : TableLaws with_table 8
unfolding inserted_lem
with_table_laws = record {
  table = λ w. w;
  insert_call = λ w k p. inserted_lem (w k) w k p refl;
  update_call = λ w k p. refl;
  delete_call = λ w k. refl;
  lookup_call = λ w k. (refl, refl);
}
