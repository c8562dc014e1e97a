-- ===== src/ZMsg/Adding.antt =====
-- The methods that add a text to a message or take one out.
use rust_czmq.Prelude.{ℕ, ◌==◌, ◌≡◌, inl, inr, true, false, none, some, [], ◌∷◌, ◌++◌, arith, bound}
use rust_czmq.Rust.Text.{Bytes, c_string_or_empty, from_utf8, until_nul}
use rust_czmq.Ffi.Int.{int_eq_iff}
use rust_czmq.Ffi.{null, minus_one, int_eq, Czmq, Event, Machine, IntCall}
use rust_czmq.Ffi.Calls.{zmsg_pushstr, zmsg_addstr, zmsg_popstr}
use rust_czmq.Variables.{Stands, changed}
use rust_czmq.ZMsg.{ZMsg, non_zero_error}
use rust_czmq.ZMsg.Allowed.{after, Right, on_message}
use rust_czmq.ZMsg.Program.{
  message_handle, MessageOp, push, add, pop, returned, refused, text, Values, Adds, pushes, adds,
  uses_added, uses_popped, adds_text, adds_not, pops, pops_none, Vars, exec,
}
use rust_czmq.ZMsg.Store.{Held, Puts, MessageLaws}

module _ (c : Czmq) (laws : MessageLaws c) where
  open laws use {held, code, decoded}

  -- The machine after a call that returns a code.
  abbrev asked : IntCall → Machine c.World → Machine c.World
  asked q s = after c laws (Event.got_int q (c.int_call q s.world).0) (c.int_call q s.world).1 s

  -- A method that adds a text, by its call.
  add_lem :
      (op : MessageOp) (q : IntCall) (x : ℕ) (m : ZMsg) (fs gs : Held) (env : Vars) (vs : Values)
      (s : Machine c.World)
      → Stands env vs (held s.world)
      → env x ≡ some m
      → vs x ≡ some fs
      → Adds op x fs gs
      → Puts c held q m.zmsg gs s.world
      → (int_eq (c.int_call q s.world).0 minus_one ≡ true
          → exec c op env s ≡ some (refused non_zero_error, env, asked q s))
      → (int_eq (c.int_call q s.world).0 minus_one ≡ false
          → exec c op env s ≡ some (returned, env, asked q s))
      → Right c laws op env vs s
  add_lem op q x m fs gs env vs s stands e v rule call bad_run good_run =
      let code = (c.int_call q s.world).0 in
      elim call [
        | inl (bad, same) ↦ (
          refused non_zero_error,
          env,
          vs,
          asked q s,
          bad_run (rw bad),
          adds_not op x vs fs gs v rule,
          rw same stands,
        )
        | inr (good, more) ↦
            let z : int_eq code minus_one ≡ false = ground (arith, int_eq_iff code minus_one) in
            (
              returned,
              env,
              bound vs x (some gs),
              asked q s,
              good_run z,
              adds_text op x vs fs gs v rule,
              rw more (changed env vs (held s.world) stands x m gs e),
            )
      ]

  pub push_lem :
      (x : ℕ) (t : Bytes) (env : Vars) (vs : Values) (s : Machine c.World)
      → Stands env vs (held s.world)
      → Right c laws (push x t) env vs s
  unfolding exec
  push_lem x t env vs s stands =
      let t' = c_string_or_empty t in
      on_message c laws (push x t) x env vs s stands
        (uses_added (push x t) x [] (t' ∷ []) (pushes x t [])) (λ e. rw e)
        (λ m fs e v mine there.
          add_lem (push x t) (zmsg_pushstr m.zmsg t') x m fs (t' ∷ fs) env vs s stands e v
            (pushes x t fs) (laws.pushstr_call m.zmsg fs t' s.world there) (λ z. rw (e, z))
            (λ z. rw (e, z)))

  pub addstr_lem :
      (x : ℕ) (t : Bytes) (env : Vars) (vs : Values) (s : Machine c.World)
      → Stands env vs (held s.world)
      → Right c laws (add x t) env vs s
  unfolding exec
  addstr_lem x t env vs s stands =
      let t' = c_string_or_empty t in
      on_message c laws (add x t) x env vs s stands
        (uses_added (add x t) x [] (t' ∷ []) (adds x t [])) (λ e. rw e)
        (λ m fs e v mine there.
          add_lem (add x t) (zmsg_addstr m.zmsg t') x m fs (fs ++ t' ∷ []) env vs s stands e v
            (adds x t fs) (laws.addstr_call m.zmsg fs t' s.world there) (λ z. rw (e, z))
            (λ z. rw (e, z)))

  -- `popstr`, by whether there is a frame.
  pop_first :
      (x : ℕ) (m : ZMsg) (fs : Held) (env : Vars) (vs : Values) (s : Machine c.World)
      → Stands env vs (held s.world)
      → env x ≡ some m
      → vs x ≡ some fs
      → held s.world m.zmsg ≡ some fs
      → Right c laws (pop x) env vs s
  unfolding exec
  pop_first x m [] env vs s stands e v there =
      let q = zmsg_popstr m.zmsg in
      let s1 = after c laws (Event.got_ptr q (c.ptr_call q s.world).0) (c.ptr_call q s.world).1 s in
      let (bad, same) = laws.popstr_empty m.zmsg s.world there in
      (text none, env, vs, s1, rw (e, bad), pops_none x vs v, rw same stands)
  pop_first x m (f ∷ fs) env vs s stands e v there =
      let q = zmsg_popstr m.zmsg in
      let p = (c.ptr_call q s.world).0 in
      let s1 = after c laws (Event.got_ptr q p) (c.ptr_call q s.world).1 s in
      let (good, read, less) = laws.popstr_call m.zmsg f fs s.world there in
      let z : (p == null) ≡ false = ground arith in
      (
        text (some (from_utf8 (until_nul f))),
        env,
        bound vs x (some fs),
        s1,
        rw (e, z, read),
        pops x vs f fs v,
        rw less (changed env vs (held s.world) stands x m fs e),
      )

  pub pop_lem :
      (x : ℕ) (env : Vars) (vs : Values) (s : Machine c.World)
      → Stands env vs (held s.world)
      → Right c laws (pop x) env vs s
  unfolding exec
  pop_lem x env vs s stands =
      on_message c laws (pop x) x env vs s stands (uses_popped x) (λ e. rw e)
        (λ m fs e v mine there. pop_first x m fs env vs s stands e v there)
