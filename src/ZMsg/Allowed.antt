-- ===== src/ZMsg/Allowed.antt =====
-- What a method on messages has to do, and the steps that the proofs of the methods share.
use rust_czmq.Prelude.{ℕ, ◌≡◌, refl, inl, inr, true, Option, none, some, ◌∷◌, bound, bound_here}
use rust_czmq.Ffi.{Czmq, Event, Machine, PtrCall, done}
use rust_czmq.Ffi.Calls.{zmsg_destroy}
use rust_czmq.Variables.{Stands, NotIn, stored, replaced, not_stored, unheld, assigned}
use rust_czmq.ZMsg.{ZMsg, drop}
use rust_czmq.ZMsg.Program.{
  message_handle, MessageOp, Reply, absent, Values, Uses, Does, does_nothing, Vars, assign,
  drop_old, exec,
}
use rust_czmq.ZMsg.Store.{Held, Fresh, MessageLaws}

module _ (c : Czmq) (laws : MessageLaws c) where
  open laws use {held, code, decoded}

  abbrev pub after : Event → c.World → Machine c.World → Machine c.World
  after e w s = record { world = w; trace = e ∷ s.trace }

  -- A method returns, with a reply and values that are allowed.
  abbrev pub Right : MessageOp → Vars → Values → Machine c.World → Type 0
  Right op env vs s =
      (r : Reply) × (env' : Vars) × (vs' : Values) × (s' : Machine c.World) × (exec c op env s
        ≡ some (r, env', s'))
      × Does code decoded op vs r vs'
      × Stands env' vs' (held s'.world)

  -- An operation on a variable does nothing, or has a message that is in memory.
  pub on_message :
      (op : MessageOp) (x : ℕ) (env : Vars) (vs : Values) (s : Machine c.World)
      → Stands env vs (held s.world)
      → Uses op x
      → (env x ≡ none → exec c op env s ≡ some (absent, env, s))
      → ((m : ZMsg) (fs : Held)
          → env x ≡ some m
          → vs x ≡ some fs
          → m.owned ≡ true
          → held s.world m.zmsg ≡ some fs
          → Right op env vs s)
      → Right op env vs s
  on_message op x env vs s stands uses run go = elim (stands.known x) [
    | inl (e, v) ↦ (absent, env, vs, s, run e, does_nothing op x vs v uses, stands)
    | inr (m, fs, e, v, mine, there) ↦ go m fs e v mine there
  ]

  -- The message that a variable had is dropped.
  drop_old_lem :
      (o : Option ZMsg) (env : Vars) (vs : Values) (s : Machine c.World)
      → Stands env vs (held s.world)
      → ((m : ZMsg)
          → o ≡ some m
          → NotIn env m.zmsg × (m.owned ≡ true) × ((fs : Held) × (held s.world m.zmsg ≡ some fs)))
      → (s' : Machine c.World) × (drop_old c o s ≡ done tt s') × Stands env vs (held s'.world)
  unfolding drop_old drop
  drop_old_lem none env vs s stands known = (s, refl, stands)
  drop_old_lem (some m) env vs s stands known =
      let (out, mine, held_there) = known m refl in
      let (fs, there) = held_there in
      (
        after (Event.did (zmsg_destroy m.zmsg)) (c.void_call (zmsg_destroy m.zmsg) s.world) s,
        rw mine,
        rw (laws.destroy_call m.zmsg fs s.world there)
            (unheld env vs (held s.world) stands m.zmsg none out),
      )

  -- A variable is given a message that is in memory and in no variable.
  pub assign_lem :
      (x : ℕ) (m : ZMsg) (fs : Held) (env : Vars) (vs : Values) (s : Machine c.World)
      → Stands env vs (held s.world)
      → m.owned ≡ true
      → held s.world m.zmsg ≡ some fs
      → NotIn env m.zmsg
      → (s' : Machine c.World) × (assign c x env m s ≡ done (bound env x (some m)) s')
        × Stands (bound env x (some m)) (bound vs x (some fs)) (held s'.world)
  assign_lem x m fs env vs s stands mine there out =
      let whole = assigned env vs (held s.world) stands x m fs mine there out in
      let (s', dropped, stands') =
        drop_old_lem (env x) (bound env x (some m)) (bound vs x (some fs)) s whole (λ g eg.
          let (gs, _, its, there') = stored env vs (held s.world) stands x g eg in
          (replaced env vs (held s.world) stands x m g eg out, its, (gs, there'))) in
      (s', rw dropped, stands')

  -- A call made a message, and the variables are as they were.
  pub fresh_lem :
      (q : PtrCall) (fs : Held) (env : Vars) (vs : Values) (w : c.World)
      → Stands env vs (held w)
      → Fresh c held q fs w
      → Stands env vs (held (c.ptr_call q w).1)
        × (held (c.ptr_call q w).1 (c.ptr_call q w).0 ≡ some fs)
        × NotIn env (c.ptr_call q w).0
  fresh_lem q fs env vs w stands (there, free, more) =
      let p = (c.ptr_call q w).0 in
      let out : NotIn env p = not_stored env vs (held w) stands p free in
      (
        rw more (unheld env vs (held w) stands p (some fs) out),
        rw more (bound_here (held w) p (some fs)),
        out,
      )
