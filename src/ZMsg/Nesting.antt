-- ===== src/ZMsg/Nesting.antt =====
-- The methods that put a message into another one and take it out: `addmsg` and `popmsg`.
use rust_czmq.Prelude.{
  ℕ, ◌==◌, ◌≡◌, ◌≢◌, refl, inl, inr, true, false, none, some, [], ◌∷◌, ◌++◌, arith, bound,
  bound_here, place, Option-cases,
}
use rust_czmq.Rust.Text.{Bytes}
use rust_czmq.Ffi.Int.{int_eq_iff}
use rust_czmq.Ffi.{null, minus_one, int_eq, Czmq, Event, Machine}
use rust_czmq.Ffi.Calls.{zmsg_addmsg, zmsg_popmsg}
use rust_czmq.Variables.{Stands, not_stored, changed, cleared, removed, unheld}
use rust_czmq.ZMsg.{ZMsg, non_zero_error}
use rust_czmq.ZMsg.Allowed.{after, Right, on_message, assign_lem}
use rust_czmq.ZMsg.Program.{
  message_handle, nest, unnest, returned, refused, absent, found, Values, uses_outer, uses_inner,
  uses_opened, nests, nests_not, nests_itself, unnests, unnests_none, unnests_not, Vars, exec,
}
use rust_czmq.ZMsg.Store.{Held, MessageLaws}

module _ (c : Czmq) (laws : MessageLaws c) where
  open laws use {held, code, decoded}

  -- `addmsg` on two messages.
  nest_two :
      (x y : ℕ) (m o : ZMsg) (fs gs : Held) (env : Vars) (vs : Values) (s : Machine c.World)
      → Stands env vs (held s.world)
      → x ≢ y
      → env x ≡ some m
      → env y ≡ some o
      → vs x ≡ some fs
      → vs y ≡ some gs
      → held s.world m.zmsg ≡ some fs
      → held s.world o.zmsg ≡ some gs
      → Right c laws (nest x y) env vs s
  unfolding exec
  nest_two x y m o fs gs env vs s stands n e e' v v' there there' =
      let q = zmsg_addmsg m.zmsg o.zmsg in
      let rc = (c.slot_call q s.world).0 in
      let s1 =
        after c laws (Event.got_slot q rc (c.slot_call q s.world).1) (c.slot_call q s.world).2 s in
      let apart : m.zmsg ≢ o.zmsg = λ p. n (stands.apart x y m o e e' p) in
      let other : (x == y) ≡ false = ground arith in
      elim (laws.addmsg_call m.zmsg o.zmsg fs gs s.world there there' apart) [
        | inl (bad, same) ↦
            let z : int_eq rc minus_one ≡ true = rw bad in
            (
              refused non_zero_error,
              bound env y none,
              bound vs y none,
              s1,
              rw (other, e, e', z),
              nests_not x y vs fs gs n v v',
              rw same (cleared env vs (held s.world) stands y),
            )
        | inr (good, more) ↦
            let z : int_eq rc minus_one ≡ false = ground (arith, int_eq_iff rc minus_one) in
            let gs' = fs ++ code gs ∷ [] in
            let st = bound (held s.world) m.zmsg (some gs') in
            let longer = changed env vs (held s.world) stands x m gs' e in
            let without = cleared env (bound vs x (some gs')) st longer y in
            (
              returned,
              bound env y none,
              bound (bound vs x (some gs')) y none,
              s1,
              rw (other, e, e', z),
              nests x y vs fs gs n v v',
              rw more (
                  unheld (bound env y none) (bound (bound vs x (some gs')) y none) st without o.zmsg
                    none (removed env (bound vs x (some gs')) st longer y o e')),
            )
      ]

  pub nest_lem :
      (x y : ℕ) (env : Vars) (vs : Values) (s : Machine c.World)
      → Stands env vs (held s.world)
      → Right c laws (nest x y) env vs s
  unfolding exec
  nest_lem x y env vs s stands = elim (place x y) [
    | inl same ↦
        let z : (x == y) ≡ true = ground arith in
        (absent, env, vs, s, rw z, nests_itself x y vs same, stands)
    | inr n ↦
        let other : (x == y) ≡ false = ground arith in
        on_message c laws (nest x y) x env vs s stands (uses_outer x y) (λ e. rw (other, e))
          (λ m fs e v mine there.
            on_message c laws (nest x y) y env vs s stands (uses_inner x y)
              (λ e'. rw (other, e, e'))
              (λ o gs e' v' mine' there'.
                nest_two x y m o fs gs env vs s stands n e e' v v' there there'))
  ]

  -- `popmsg` on a message with a first frame.
  unnest_first :
      (x y : ℕ) (m : ZMsg) (f : Bytes) (fs : Held) (env : Vars) (vs : Values) (s : Machine c.World)
      → Stands env vs (held s.world)
      → env y ≡ some m
      → vs y ≡ some (f ∷ fs)
      → held s.world m.zmsg ≡ some (f ∷ fs)
      → Right c laws (unnest x y) env vs s
  unfolding exec
  unnest_first x y m f fs env vs s stands e v there =
      let q = zmsg_popmsg m.zmsg in
      let p = (c.ptr_call q s.world).0 in
      let s1 = after c laws (Event.got_ptr q p) (c.ptr_call q s.world).1 s in
      elim (Option-cases (decoded f)) [
        | inl raw ↦
            let (bad, some_left) = laws.popmsg_other m.zmsg f fs s.world there raw in
            let (ks, either, less) = some_left in
            (
              found false,
              env,
              bound vs y (some ks),
              s1,
              rw (e, bad),
              unnests_not x y vs f fs ks v raw either,
              rw less (changed env vs (held s.world) stands y m ks e),
            )
        | inr (gs, whole) ↦
            let (good, free, more) = laws.popmsg_call m.zmsg f fs gs s.world there whole in
            let z : (p == null) ≡ false = ground arith in
            let inner : ZMsg = record { zmsg = p; owned = true } in
            let us = bound vs y (some fs) in
            let st = bound (held s.world) m.zmsg (some fs) in
            let out = not_stored env vs (held s.world) stands p free in
            let kept : Stands env us (held s1.world) =
              rw more (
                unheld env us st (changed env vs (held s.world) stands y m fs e) p (some gs) out) in
            let new_there : held s1.world p ≡ some gs = rw more (bound_here st p (some gs)) in
            let (s2, run, stands') =
              assign_lem c laws x inner gs env us s1 kept refl new_there out in
            (
              found true,
              bound env x (some inner),
              bound us x (some gs),
              s2,
              rw (e, z, run),
              unnests x y vs f fs gs v whole,
              stands',
            )
      ]

  unnest_any :
      (x y : ℕ) (m : ZMsg) (fs : Held) (env : Vars) (vs : Values) (s : Machine c.World)
      → Stands env vs (held s.world)
      → env y ≡ some m
      → vs y ≡ some fs
      → held s.world m.zmsg ≡ some fs
      → Right c laws (unnest x y) env vs s
  unfolding exec
  unnest_any x y m [] env vs s stands e v there =
      let q = zmsg_popmsg m.zmsg in
      let s1 = after c laws (Event.got_ptr q (c.ptr_call q s.world).0) (c.ptr_call q s.world).1 s in
      let (bad, same) = laws.popmsg_empty m.zmsg s.world there in
      (found false, env, vs, s1, rw (e, bad), unnests_none x y vs v, rw same stands)
  unnest_any x y m (f ∷ fs) env vs s stands e v there =
      unnest_first x y m f fs env vs s stands e v there

  pub unnest_lem :
      (x y : ℕ) (env : Vars) (vs : Values) (s : Machine c.World)
      → Stands env vs (held s.world)
      → Right c laws (unnest x y) env vs s
  unfolding exec
  unnest_lem x y env vs s stands =
      on_message c laws (unnest x y) y env vs s stands (uses_opened x y) (λ e. rw e)
        (λ m fs e v mine there. unnest_any x y m fs env vs s stands e v there)
