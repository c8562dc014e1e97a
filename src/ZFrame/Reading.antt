-- ===== src/ZFrame/Reading.antt =====
-- The methods that read frames.
use rust_czmq.Prelude.{
  ℕ, ◌==◌, ◌≡◌, refl, ap, ◌∙◌, Bool, true, false, Option, some, [], arith, length,
}
use rust_czmq.Rust.Text.{Bytes, bytes_eq, from_utf8, c_string_or_empty}
use rust_czmq.Ffi.{null, pos, int_eq, flag, Czmq, Event, Machine, IntCall}
use rust_czmq.Ffi.Calls.{zframe_data, zframe_size, zframe_streq, zframe_more, zframe_eq}
use rust_czmq.Variables.{Stands}
use rust_czmq.ZFrame.Program.{
  frame_handle, read, measure, is_marked, is_text, is_same, Reply, text, number, answer, Values,
  reads, measures, sees_mark, compares_text, uses_left, uses_right, uses_read, compares, Vars, exec,
}
use rust_czmq.ZFrame.Store.{FrameLaws}
use rust_czmq.ZFrame.Allowed.{Right, after, on_frame, read_lem}

flag_back : (b : Bool) → int_eq (flag b) (pos 1) ≡ b
flag_back true = refl
flag_back false = refl

module _ (c : Czmq) (laws : FrameLaws c) where
  open laws use {held}

  pub data_lem :
      (x : ℕ) (env : Vars) (vs : Values) (s : Machine c.World)
      → Stands env vs (held s.world)
      → Right c laws (read x) env vs s
  unfolding exec
  data_lem x env vs s stands =
      on_frame c laws (read x) x env vs s stands
        (uses_read (read x) x ([], false) (text (from_utf8 [])) (reads x ([], false))) (λ e. rw e)
        (λ f h e v mine there.
          let q = zframe_data f.zframe in
          let p = (c.ptr_call q s.world).0 in
          let s1 = after c laws (Event.got_ptr q p) (c.ptr_call q s.world).1 s in
          let (n, w) = c.size_call (zframe_size f.zframe) s1.world in
          let (nonnull, same, bytes) = laws.data_call f.zframe h s.world there in
          let (_, same') = laws.size_call f.zframe h s1.world (rw same there) in
          let z : (p == null) ≡ false = ground arith in
          read_lem c laws (read x) x h (text (from_utf8 (h.0))) env vs s
            (after c laws (Event.got_size (zframe_size f.zframe) n) w s1) stands v (reads x h)
            (rw (e, z, bytes)) (same' ∙ same))

  pub size_lem :
      (x : ℕ) (env : Vars) (vs : Values) (s : Machine c.World)
      → Stands env vs (held s.world)
      → Right c laws (measure x) env vs s
  unfolding exec
  size_lem x env vs s stands =
      on_frame c laws (measure x) x env vs s stands
        (uses_read (measure x) x ([], false) (number 0) (measures x ([], false))) (λ e. rw e)
        (λ f h e v mine there.
          let q = zframe_size f.zframe in
          let s' =
            after c laws (Event.got_size q (c.size_call q s.world).0) (c.size_call q s.world).1 s in
          let (long, same) = laws.size_call f.zframe h s.world there in
          read_lem c laws (measure x) x h (number (length (h.0))) env vs s s' stands v
            (measures x h) (rw e (ap (λ n. some (number n, env, s')) long)) same)

  -- The machine after c laws a call that answers a question.
  abbrev asked : IntCall → Machine c.World → Machine c.World
  asked q s = after c laws (Event.got_int q (c.int_call q s.world).0) (c.int_call q s.world).1 s

  abbrev replied : Bool → Vars → Machine c.World → Option (Reply × Vars × Machine c.World)
  replied b env s = some (answer b, env, s)

  answer_lem :
      (q : IntCall) (b : Bool) (env : Vars) (s : Machine c.World)
      → (c.int_call q s.world).0 ≡ flag b
      → replied (int_eq (c.int_call q s.world).0 (pos 1)) env (asked q s)
        ≡ replied b env (asked q s)
  answer_lem q b env s code =
      let told : int_eq (c.int_call q s.world).0 (pos 1) ≡ b = rw code (flag_back b) in
      ap (λ a. replied a env (asked q s)) told

  pub more_lem :
      (x : ℕ) (env : Vars) (vs : Values) (s : Machine c.World)
      → Stands env vs (held s.world)
      → Right c laws (is_marked x) env vs s
  unfolding exec
  more_lem x env vs s stands =
      on_frame c laws (is_marked x) x env vs s stands
        (uses_read (is_marked x) x ([], false) (answer false) (sees_mark x ([], false))) (λ e. rw e)
        (λ f h e v mine there.
          let q = zframe_more f.zframe in
          let (code, same) = laws.more_call f.zframe h s.world there in
          read_lem c laws (is_marked x) x h (answer (h.1)) env vs s (asked q s) stands v
            (sees_mark x h) (rw e (answer_lem q (h.1) env s code)) same)

  pub streq_lem :
      (x : ℕ) (t : Bytes) (env : Vars) (vs : Values) (s : Machine c.World)
      → Stands env vs (held s.world)
      → Right c laws (is_text x t) env vs s
  unfolding exec
  streq_lem x t env vs s stands =
      let t' = c_string_or_empty t in
      on_frame c laws (is_text x t) x env vs s stands
        (uses_read (is_text x t) x ([], false) (answer (bytes_eq [] t'))
          (compares_text x t ([], false)))
        (λ e. rw e)
        (λ f h e v mine there.
          let q = zframe_streq f.zframe t' in
          let (code, same) = laws.streq_call f.zframe h t' s.world there in
          read_lem c laws (is_text x t) x h (answer (bytes_eq (h.0) t')) env vs s (asked q s) stands
            v (compares_text x t h) (rw e (answer_lem q (bytes_eq (h.0) t') env s code)) same)

  pub eq_lem :
      (x y : ℕ) (env : Vars) (vs : Values) (s : Machine c.World)
      → Stands env vs (held s.world)
      → Right c laws (is_same x y) env vs s
  unfolding exec
  eq_lem x y env vs s stands =
      on_frame c laws (is_same x y) x env vs s stands (uses_left x y) (λ e. rw e)
        (λ f h e v mine there.
          on_frame c laws (is_same x y) y env vs s stands (uses_right x y) (λ e'. rw (e, e'))
            (λ g k e' v' mine' there'.
              let q = zframe_eq f.zframe g.zframe in
              let (code, same) = laws.eq_call f.zframe g.zframe h k s.world there there' in
              (
                answer (bytes_eq (h.0) (k.0)),
                env,
                vs,
                asked q s,
                rw (e, e') (answer_lem q (bytes_eq (h.0) (k.0)) env s code),
                compares x y vs h k v v',
                rw same stands,
              )))
