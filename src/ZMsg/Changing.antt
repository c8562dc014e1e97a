-- ===== src/ZMsg/Changing.antt =====
-- The methods on one or two messages that do not nest them.
use rust_czmq.Prelude.{
  ℕ, ◌==◌, ◌≡◌, refl, ap, inl, inr, Bool, true, false, none, some, [], arith, bound, length,
}
use rust_czmq.Ffi.{null, pos, int_eq, flag, Czmq, Event, Machine, IntCall}
use rust_czmq.Ffi.Calls.{zmsg_new, zmsg_dup, zmsg_size, zmsg_eq, zmsg_destroy}
use rust_czmq.Variables.{Stands, cleared, removed, unheld}
use rust_czmq.ZMsg.{ZMsg, null_error}
use rust_czmq.ZMsg.Allowed.{after, Right, on_message, assign_lem, fresh_lem}
use rust_czmq.ZMsg.Program.{
  message_handle, make, copy, count, is_same, discard, returned, refused, number, answer, Values,
  uses_copied, uses_counted, uses_left, uses_right, uses_discarded, makes, copies, copies_not,
  counts, compares, discards, Vars, exec,
}
use rust_czmq.ZMsg.Store.{MessageLaws, frames_eq}

flag_back : (b : Bool) → int_eq (flag b) (pos 1) ≡ b
flag_back true = refl
flag_back false = refl

module _ (c : Czmq) (laws : MessageLaws c) where
  open laws use {held, code, decoded}

  -- The machine after a call that returns a code.
  abbrev asked : IntCall → Machine c.World → Machine c.World
  asked q s = after c laws (Event.got_int q (c.int_call q s.world).0) (c.int_call q s.world).1 s

  pub make_lem :
      (x : ℕ) (env : Vars) (vs : Values) (s : Machine c.World)
      → Stands env vs (held s.world)
      → Right c laws (make x) env vs s
  unfolding exec
  make_lem x env vs s stands =
      let q = zmsg_new in
      let p = (c.ptr_call q s.world).0 in
      let s1 = after c laws (Event.got_ptr q p) (c.ptr_call q s.world).1 s in
      let m : ZMsg = record { zmsg = p; owned = true } in
      let (kept, there, out) =
        fresh_lem c laws q [] env vs s.world stands (laws.new_call s.world) in
      let (s2, run, stands') = assign_lem c laws x m [] env vs s1 kept refl there out in
      (returned, bound env x (some m), bound vs x (some []), s2, rw run, makes x vs, stands')

  pub copy_lem :
      (x y : ℕ) (env : Vars) (vs : Values) (s : Machine c.World)
      → Stands env vs (held s.world)
      → Right c laws (copy x y) env vs s
  unfolding exec
  copy_lem x y env vs s stands =
      on_message c laws (copy x y) y env vs s stands (uses_copied x y) (λ e. rw e)
        (λ o fs e v mine there.
          let q = zmsg_dup o.zmsg in
          let p = (c.ptr_call q s.world).0 in
          let s1 = after c laws (Event.got_ptr q p) (c.ptr_call q s.world).1 s in
          let m : ZMsg = record { zmsg = p; owned = true } in
          elim (laws.dup_call o.zmsg fs s.world there) [
            | inl (bad, same) ↦ (
              refused null_error,
              env,
              vs,
              s1,
              rw (e, bad),
              copies_not x y vs fs v,
              rw same stands,
            )
            | inr fresh ↦
                let z : (p == null) ≡ false = let n = fresh.0 in ground arith in
                let (kept, new_there, out) = fresh_lem c laws q fs env vs s.world stands fresh in
                let (s2, run, stands') =
                  assign_lem c laws x m fs env vs s1 kept refl new_there out in
                (
                  returned,
                  bound env x (some m),
                  bound vs x (some fs),
                  s2,
                  rw (e, z, run),
                  copies x y vs fs v,
                  stands',
                )
          ])

  pub count_lem :
      (x : ℕ) (env : Vars) (vs : Values) (s : Machine c.World)
      → Stands env vs (held s.world)
      → Right c laws (count x) env vs s
  unfolding exec
  count_lem x env vs s stands =
      on_message c laws (count x) x env vs s stands (uses_counted x) (λ e. rw e)
        (λ m fs e v mine there.
          let q = zmsg_size m.zmsg in
          let s1 =
            after c laws (Event.got_size q (c.size_call q s.world).0) (c.size_call q s.world).1 s in
          let (long, same) = laws.size_call m.zmsg fs s.world there in
          (
            number (length fs),
            env,
            vs,
            s1,
            rw e (ap (λ n. some (number n, env, s1)) long),
            counts x vs fs v,
            rw same stands,
          ))

  pub same_lem :
      (x y : ℕ) (env : Vars) (vs : Values) (s : Machine c.World)
      → Stands env vs (held s.world)
      → Right c laws (is_same x y) env vs s
  unfolding exec
  same_lem x y env vs s stands =
      on_message c laws (is_same x y) x env vs s stands (uses_left x y) (λ e. rw e)
        (λ m fs e v mine there.
          on_message c laws (is_same x y) y env vs s stands (uses_right x y) (λ e'. rw (e, e'))
            (λ o gs e' v' mine' there'.
              let q = zmsg_eq m.zmsg o.zmsg in
              let (told, same) = laws.eq_call m.zmsg o.zmsg fs gs s.world there there' in
              let b : int_eq (c.int_call q s.world).0 (pos 1) ≡ frames_eq fs gs =
                rw told (flag_back (frames_eq fs gs)) in
              (
                answer (frames_eq fs gs),
                env,
                vs,
                asked q s,
                rw (e, e') (ap (λ a. some (answer a, env, asked q s)) b),
                compares x y vs fs gs v v',
                rw same stands,
              )))

  pub discard_lem :
      (x : ℕ) (env : Vars) (vs : Values) (s : Machine c.World)
      → Stands env vs (held s.world)
      → Right c laws (discard x) env vs s
  unfolding exec
  discard_lem x env vs s stands =
      on_message c laws (discard x) x env vs s stands (uses_discarded x) (λ e. rw e)
        (λ m fs e v mine there.
          let q = zmsg_destroy m.zmsg in
          (
            returned,
            bound env x none,
            bound vs x none,
            after c laws (Event.did q) (c.void_call q s.world) s,
            rw (e, mine),
            discards x vs fs v,
            rw (laws.destroy_call m.zmsg fs s.world there) (
                unheld (bound env x none) (bound vs x none) (held s.world)
                  (cleared env vs (held s.world) stands x) m.zmsg none
                  (removed env vs (held s.world) stands x m e)),
          ))
