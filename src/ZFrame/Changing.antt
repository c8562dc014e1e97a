-- ===== src/ZFrame/Changing.antt =====
-- The methods that make, change and release frames.
use rust_czmq.Prelude.{
  ℕ, ◌==◌, ◌≡◌, refl, ◌∙◌, inl, inr, Bool, true, false, Option, none, some, [], arith, bound,
  bound_here, if◌then◌else◌,
}
use rust_czmq.Rust.Text.{Bytes}
use rust_czmq.Error.{Error}
use rust_czmq.Ffi.{null, flag, Czmq, Event, Machine, PtrCall, Io, done, fail, pure}
use rust_czmq.Ffi.Calls.{zframe_dup, zframe_set_more, zframe_reset, zframe_destroy}
use rust_czmq.ZFrame.{ZFrame, drop}
use rust_czmq.Variables.{
  Stands, NotIn, stored, replaced, removed, not_stored, unheld, assigned, cleared, changed,
}
use rust_czmq.ZFrame.Program.{
  frame_handle, FrameOp, copy, put, mark, discard, returned, refused, Values, Makes, copies,
  cannot_copy, puts, marks, discards, uses_copied, uses_changed, makes_frame, refuses, changes,
  Vars, ended, assign, drop_old, exec,
}
use rust_czmq.ZFrame.Store.{Held, Made, FrameLaws}
use rust_czmq.ZFrame.Allowed.{Right, after, on_frame}

module _ (c : Czmq) (laws : FrameLaws c) where
  open laws use {held}

  -- The frame that a variable had is dropped.
  drop_old_lem :
      (o : Option ZFrame) (env : Vars) (vs : Values) (s : Machine c.World)
      → Stands env vs (held s.world)
      → ((f : ZFrame)
          → o ≡ some f
          → NotIn env f.zframe × (f.owned ≡ true) × ((h : Held) × (held s.world f.zframe ≡ some h)))
      → (s' : Machine c.World) × (drop_old c o s ≡ done tt s') × Stands env vs (held s'.world)
  unfolding drop_old drop
  drop_old_lem none env vs s stands known = (s, refl, stands)
  drop_old_lem (some f) env vs s stands known =
      let (out, mine, held_there) = known f refl in
      let (h, there) = held_there in
      (
        after c laws (Event.did (zframe_destroy f.zframe))
            (c.void_call (zframe_destroy f.zframe) s.world) s,
        rw mine,
        rw (laws.destroy_call f.zframe h s.world there)
            (unheld env vs (held s.world) stands f.zframe none out),
      )

  abbrev pub made : PtrCall → Error → Io c.World ZFrame
  made q e s =
      let (p, w) = c.ptr_call q s.world in
      (if p == null then fail e else pure (record { zframe = p; owned = true }))
        (after c laws (Event.got_ptr q p) w s)

  -- A frame is made and assigned, or the variables are as they were.
  pub assign_lem :
      (op : FrameOp) (q : PtrCall) (e : Error) (x : ℕ) (b : Bytes) (env : Vars) (vs : Values)
      (s : Machine c.World)
      → exec c op env s ≡ ended env (assign c x env (made q e) s)
      → Made c held q b s.world
      → Makes op vs x b e
      → Stands env vs (held s.world)
      → Right c laws op env vs s
  assign_lem op q e x b env vs s run call rule stands =
      let p = (c.ptr_call q s.world).0 in
      let s1 = after c laws (Event.got_ptr q p) (c.ptr_call q s.world).1 s in
      elim call [
        | inl (bad, same) ↦
            (refused e, env, vs, s1, run ∙ rw bad, refuses op vs x b e rule, rw same stands)
        | inr (m, there, free, more) ↦
            let z : (p == null) ≡ false = ground arith in
            let f : ZFrame = record { zframe = p; owned = true } in
            let out : NotIn env p = not_stored env vs (held s.world) stands p free in
            let kept : Stands env vs (held s1.world) =
              rw more (unheld env vs (held s.world) stands p (some (b, m)) out) in
            let new_there : held s1.world p ≡ some (b, m) =
              rw more (bound_here (held s.world) p (some (b, m))) in
            let whole = assigned env vs (held s1.world) kept x f (b, m) refl new_there out in
            let (s2, dropped, stands') =
              drop_old_lem (env x) (bound env x (some f)) (bound vs x (some (b, m))) s1 whole
                (λ g eg.
                  let (h, _, mine, there') = stored env vs (held s1.world) kept x g eg in
                  (replaced env vs (held s1.world) kept x f g eg out, mine, (h, there'))) in
            (
              returned,
              bound env x (some f),
              bound vs x (some (b, m)),
              s2,
              run ∙ rw (z, dropped),
              makes_frame op vs x b e m rule,
              stands',
            )
      ]

  pub copy_lem :
      (x y : ℕ) (env : Vars) (vs : Values) (s : Machine c.World)
      → Stands env vs (held s.world)
      → Right c laws (copy x y) env vs s
  unfolding exec
  copy_lem x y env vs s stands =
      on_frame c laws (copy x y) y env vs s stands (uses_copied x y) (λ e. rw e)
        (λ f h e v mine there.
          assign_lem (copy x y) (zframe_dup f.zframe) cannot_copy x (h.0) env vs s (rw e)
            (laws.dup_call f.zframe h s.world there) (copies x y h vs v) stands)

  pub put_lem :
      (x : ℕ) (b : Bytes) (env : Vars) (vs : Values) (s : Machine c.World)
      → Stands env vs (held s.world)
      → Right c laws (put x b) env vs s
  unfolding exec
  put_lem x b env vs s stands =
      on_frame c laws (put x b) x env vs s stands
        (uses_changed (put x b) x ([], false) (some (b, false)) (puts x b ([], false))) (λ e. rw e)
        (λ f h e v mine there.
          let q = zframe_reset f.zframe b in
          (
            returned,
            env,
            bound vs x (some (b, h.1)),
            after c laws (Event.did q) (c.void_call q s.world) s,
            rw e,
            changes (put x b) vs x h (some (b, h.1)) v (puts x b h),
            rw (laws.reset_call f.zframe h b s.world there)
                (changed env vs (held s.world) stands x f (b, h.1) e),
          ))

  pub mark_lem :
      (x : ℕ) (b : Bool) (env : Vars) (vs : Values) (s : Machine c.World)
      → Stands env vs (held s.world)
      → Right c laws (mark x b) env vs s
  unfolding exec
  mark_lem x b env vs s stands =
      on_frame c laws (mark x b) x env vs s stands
        (uses_changed (mark x b) x ([], b) (some ([], b)) (marks x b ([], b))) (λ e. rw e)
        (λ f h e v mine there.
          let q = zframe_set_more f.zframe (flag b) in
          (
            returned,
            env,
            bound vs x (some (h.0, b)),
            after c laws (Event.did q) (c.void_call q s.world) s,
            rw e,
            changes (mark x b) vs x h (some (h.0, b)) v (marks x b h),
            rw (laws.set_more_call f.zframe h b s.world there)
                (changed env vs (held s.world) stands x f (h.0, b) e),
          ))

  pub discard_lem :
      (x : ℕ) (env : Vars) (vs : Values) (s : Machine c.World)
      → Stands env vs (held s.world)
      → Right c laws (discard x) env vs s
  unfolding exec
  discard_lem x env vs s stands =
      on_frame c laws (discard x) x env vs s stands
        (uses_changed (discard x) x ([], false) none (discards x ([], false))) (λ e. rw e)
        (λ f h e v mine there.
          let q = zframe_destroy f.zframe in
          (
            returned,
            bound env x none,
            bound vs x none,
            after c laws (Event.did q) (c.void_call q s.world) s,
            rw (e, mine),
            changes (discard x) vs x h none v (discards x h),
            rw (laws.destroy_call f.zframe h s.world there) (
                unheld (bound env x none) (bound vs x none) (held s.world)
                  (cleared env vs (held s.world) stands x) f.zframe none
                  (removed env vs (held s.world) stands x f e)),
          ))
