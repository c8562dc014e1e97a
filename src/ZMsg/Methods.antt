-- ===== src/ZMsg/Methods.antt =====
-- One call of a method of src/zmsg.rs as an operation on the list of frames.
use rust_czmq.Prelude.{
  ◌==◌, ◌≡◌, ◌≢◌, refl, ◌∙◌, inl, inr, false, Option, none, some, List, [], ◌∷◌, arith, Bool-cases,
}
use rust_czmq.Rust.Text.{Bytes, from_utf8, until_nul, c_string_or_empty}
use rust_czmq.Error.{Error, error, null_ptr}
use rust_czmq.Error.Causes.{ZFrameError, zframe}
use rust_czmq.Ffi.Int.{int_eq_iff}
use rust_czmq.Ffi.{Ptr, null, ℤ, int_eq, Czmq, Machine, Run, done, failed, panicked, stuck, Event}
use rust_czmq.Ffi.Calls.{
  zframe_new, zframe_data, zframe_size, zframe_destroy, zmsg_pushstr, zmsg_addstr, zmsg_popstr,
  zmsg_pop, zmsg_prepend, zmsg_append, zmsg_size,
}
use rust_czmq.Ownership.Reading.{into_bytes-from_utf8}
use rust_czmq.ZMsg.{
  ZMsg, pushstr, addstr, pushbytes, addbytes, popstr, popbytes, size, non_zero_error,
}
use rust_czmq.ZMsg.Frames.{
  MsgLaws, MsgOp, push_str, add_str, push_bytes, add_bytes, pop_str, pop_bytes, count, Reply, added,
  refused, text_popped, bytes_popped, counted, push_str_adds, add_str_adds, push_bytes_adds,
  add_bytes_adds, Does, adds, refuses, pops_text, pops_no_text, pops_bytes, pops_no_bytes, counts,
}

abbrev instantiate_error : Error
instantiate_error = error null_ptr (zframe ZFrameError.instantiate)

differs : (n k : ℤ) → n ≢ k → int_eq n k ≡ false
differs n k h = ground (arith, int_eq_iff n k)

-- What a caller of a method sees, and the machine afterwards; `none` is a panic.
abbrev pub caught : {W A : Type 0} → (A → Reply) → Run W A → Option (Reply × Machine W)
caught f (done a s) = some (f a, s)
caught f (failed e s) = some (refused e, s)
caught f (panicked s) = none
caught f stuck = none

module _ (c : Czmq) (m : ZMsg) where
  unfoldable pub exec : MsgOp → Machine c.World → Option (Reply × Machine c.World)
  unfolding pushstr addstr pushbytes addbytes popstr popbytes size
  exec (push_str t) s = caught (λ _. added) (pushstr c m t s)
  exec (add_str t) s = caught (λ _. added) (addstr c m t s)
  exec (push_bytes b) s = caught (λ _. added) (pushbytes c m b s)
  exec (add_bytes b) s = caught (λ _. added) (addbytes c m b s)
  exec pop_str s = caught text_popped (popstr c m s)
  exec pop_bytes s = caught bytes_popped (popbytes c m s)
  exec count s = caught counted (size c m s)

  module _ (laws : MsgLaws c m.zmsg) where
    open laws use {frames}

    -- The method returns, and does what it should to the frames.
    abbrev pub Right : MsgOp → Machine c.World → Type 0
    Right op s =
        (r : Reply) × (s' : Machine c.World) × (exec op s ≡ some (r, s'))
        × Does op (frames s.world) r (frames s'.world)

    abbrev after : Event → c.World → Machine c.World → Machine c.World
    after e w s = record { world = w; trace = e ∷ s.trace }

    push_str_lem : (t : Bytes) (s : Machine c.World) → Right (push_str t) s
    unfolding exec
    push_str_lem t s =
        let q = zmsg_pushstr m.zmsg (c_string_or_empty t) in
        let s' = after (Event.got_int q (c.int_call q s.world).0) (c.int_call q s.world).1 s in
        elim (laws.pushstr_call s.world (c_string_or_empty t)) [
          | inl (code, same) ↦ (
            refused non_zero_error,
            s',
            rw code,
            refuses (push_str_adds t) non_zero_error refl same,
          )
          | inr (code, more) ↦ (added, s', rw (differs _ _ code), adds (push_str_adds t) refl more)
        ]

    add_str_lem : (t : Bytes) (s : Machine c.World) → Right (add_str t) s
    unfolding exec
    add_str_lem t s =
        let q = zmsg_addstr m.zmsg (c_string_or_empty t) in
        let s' = after (Event.got_int q (c.int_call q s.world).0) (c.int_call q s.world).1 s in
        elim (laws.addstr_call s.world (c_string_or_empty t)) [
          | inl (code, same) ↦ (
            refused non_zero_error,
            s',
            rw code,
            refuses (add_str_adds t) non_zero_error refl same,
          )
          | inr (code, more) ↦ (added, s', rw (differs _ _ code), adds (add_str_adds t) refl more)
        ]

    -- The frame that `pushbytes` and `addbytes` make first.
    abbrev made : Bytes → Machine c.World → Ptr × c.World
    made b s = c.ptr_call (zframe_new b) s.world

    abbrev after_made : Bytes → Machine c.World → Machine c.World
    after_made b s = after (Event.got_ptr (zframe_new b) (made b s).0) (made b s).1 s

    push_bytes_lem : (b : Bytes) (s : Machine c.World) → Right (push_bytes b) s
    unfolding exec
    push_bytes_lem b s =
        let (whole, same) = laws.new_call s.world b in
        let f = (made b s).0 in
        let s1 = after_made b s in
        let q = zmsg_prepend m.zmsg f in
        let reply = c.slot_call q s1.world in
        let s' = after (Event.got_slot q reply.0 reply.1) reply.2 s1 in
        elim (Bool-cases (f == null)) [
          | inl none_made ↦ (
            refused instantiate_error,
            s1,
            rw none_made,
            refuses (push_bytes_adds b) instantiate_error refl same,
          )
          | inr there ↦ elim (laws.prepend_call s1.world f) [
            | inl (code, kept) ↦ (
              refused non_zero_error,
              s',
              rw (there, differs _ _ code),
              refuses (push_bytes_adds b) non_zero_error refl (kept ∙ same),
            )
            | inr (code, more) ↦ (
              added,
              s',
              rw (there, code),
              adds (push_bytes_adds b) refl (more ∙ rw (whole (ground arith), same)),
            )
          ]
        ]

    add_bytes_lem : (b : Bytes) (s : Machine c.World) → Right (add_bytes b) s
    unfolding exec
    add_bytes_lem b s =
        let (whole, same) = laws.new_call s.world b in
        let f = (made b s).0 in
        let s1 = after_made b s in
        let q = zmsg_append m.zmsg f in
        let reply = c.slot_call q s1.world in
        let s' = after (Event.got_slot q reply.0 reply.1) reply.2 s1 in
        elim (Bool-cases (f == null)) [
          | inl none_made ↦ (
            refused instantiate_error,
            s1,
            rw none_made,
            refuses (add_bytes_adds b) instantiate_error refl same,
          )
          | inr there ↦ elim (laws.append_call s1.world f) [
            | inl (code, kept) ↦ (
              refused non_zero_error,
              s',
              rw (there, differs _ _ code),
              refuses (add_bytes_adds b) non_zero_error refl (kept ∙ same),
            )
            | inr (code, more) ↦ (
              added,
              s',
              rw (there, code),
              adds (add_bytes_adds b) refl (more ∙ rw (whole (ground arith), same)),
            )
          ]
        ]

    pop_str_lem : (s : Machine c.World) (fs : List Bytes) → frames s.world ≡ fs → Right pop_str s
    unfolding exec
    pop_str_lem s [] e =
        let q = zmsg_popstr m.zmsg in
        let (gone, left) = laws.popstr_empty s.world e in
        (
          text_popped none,
          after (Event.got_ptr q (c.ptr_call q s.world).0) (c.ptr_call q s.world).1 s,
          rw gone,
          pops_no_text refl e left refl,
        )
    pop_str_lem s (f ∷ fs) e =
        let q = zmsg_popstr m.zmsg in
        let (there, reads, left) = laws.popstr_call s.world f fs e in
        let not_null : ((c.ptr_call q s.world).0 == null) ≡ false = ground arith in
        (
          text_popped (some (from_utf8 (until_nul f))),
          after (Event.got_ptr q (c.ptr_call q s.world).0) (c.ptr_call q s.world).1 s,
          rw (not_null, reads),
          pops_text refl f (rw left e) refl,
        )

    count_lem : (s : Machine c.World) → Right count s
    unfolding exec
    count_lem s =
        let q = zmsg_size m.zmsg in
        let (n, same) = laws.size_call s.world in
        (
          counted (c.size_call q s.world).0,
          after (Event.got_size q (c.size_call q s.world).0) (c.size_call q s.world).1 s,
          refl,
          counts refl same (rw n),
        )

    pop_bytes_lem :
        (s : Machine c.World) (fs : List Bytes) → frames s.world ≡ fs → Right pop_bytes s
    unfolding exec
    pop_bytes_lem s [] e =
        let q = zmsg_pop m.zmsg in
        let (gone, left) = laws.pop_empty s.world e in
        (
          bytes_popped none,
          after (Event.got_ptr q (c.ptr_call q s.world).0) (c.ptr_call q s.world).1 s,
          rw gone,
          pops_no_bytes refl e left refl,
        )
    pop_bytes_lem s (f ∷ fs) e =
        let q = zmsg_pop m.zmsg in
        let p = (c.ptr_call q s.world).0 in
        let (there, whole, left) = laws.pop_call s.world f fs e in
        let s1 = after (Event.got_ptr q p) (c.ptr_call q s.world).1 s in
        let found = c.ptr_call (zframe_data p) s1.world in
        let (data_there, _, kept) = laws.data_call s1.world p in
        let s2 = after (Event.got_ptr (zframe_data p) found.0) found.1 s1 in
        let long = c.size_call (zframe_size p) s2.world in
        let s3 = after (Event.got_size (zframe_size p) long.0) long.1 s2 in
        let s4 =
          after (Event.did (zframe_destroy p)) (c.void_call (zframe_destroy p) s3.world) s3 in
        let not_null : (p == null) ≡ false = ground arith in
        let data_not_null : (found.0 == null) ≡ false = ground arith in
        let bytes : c.bytes_at long.1 found.0 long.0 ≡ f = laws.bytes_call s1.world p ∙ whole in
        let same : frames s4.world ≡ fs =
          laws.destroy_call s3.world p ∙ laws.size_of_frame s2.world p ∙ kept ∙ left in
        (
          bytes_popped (some f),
          s4,
          rw (
            not_null,
            data_not_null,
            into_bytes-from_utf8 (c.bytes_at long.1 found.0 long.0),
            bytes,
          ),
          pops_bytes refl f (rw same e) refl,
        )

    pub exec_lem : (op : MsgOp) (s : Machine c.World) → Right op s
    exec_lem (push_str t) s = push_str_lem t s
    exec_lem (add_str t) s = add_str_lem t s
    exec_lem (push_bytes b) s = push_bytes_lem b s
    exec_lem (add_bytes b) s = add_bytes_lem b s
    exec_lem pop_str s = pop_str_lem s (frames s.world) refl
    exec_lem pop_bytes s = pop_bytes_lem s (frames s.world) refl
    exec_lem count s = count_lem s
