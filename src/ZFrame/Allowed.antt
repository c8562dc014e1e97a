-- ===== src/ZFrame/Allowed.antt =====
-- What a method on frames has to do, and the two shapes of the methods that use a frame.
use rust_czmq.Prelude.{ℕ, ◌≡◌, inl, inr, true, none, some, ◌∷◌}
use rust_czmq.Ffi.{Czmq, Event, Machine}
use rust_czmq.ZFrame.{ZFrame}
use rust_czmq.Variables.{Stands}
use rust_czmq.ZFrame.Program.{
  frame_handle, FrameOp, Reply, absent, Values, Reads, Uses, Does, replies, does_nothing, Vars,
  exec,
}
use rust_czmq.ZFrame.Store.{Held, FrameLaws}

module _ (c : Czmq) (laws : FrameLaws c) where
  open laws use {held}

  abbrev pub after : Event → c.World → Machine c.World → Machine c.World
  after e w s = record { world = w; trace = e ∷ s.trace }

  -- A method returns, with a reply and values that are allowed.
  abbrev pub Right : FrameOp → Vars → Values → Machine c.World → Type 0
  Right op env vs s =
      (r : Reply) × (env' : Vars) × (vs' : Values) × (s' : Machine c.World) × (exec c op env s
        ≡ some (r, env', s'))
      × Does op vs r vs'
      × Stands env' vs' (held s'.world)

  -- An operation on a variable does nothing, or has a frame that is in memory.
  pub on_frame :
      (op : FrameOp) (x : ℕ) (env : Vars) (vs : Values) (s : Machine c.World)
      → Stands env vs (held s.world)
      → Uses op x
      → (env x ≡ none → exec c op env s ≡ some (absent, env, s))
      → ((f : ZFrame) (h : Held)
          → env x ≡ some f
          → vs x ≡ some h
          → f.owned ≡ true
          → held s.world f.zframe ≡ some h
          → Right op env vs s)
      → Right op env vs s
  on_frame op x env vs s stands uses run go = elim (stands.known x) [
    | inl (e, v) ↦ (absent, env, vs, s, run e, does_nothing op vs x v uses, stands)
    | inr (f, h, e, v, mine, there) ↦ go f h e v mine there
  ]

  -- An operation that reads one frame, by what its run returns.
  pub read_lem :
      (op : FrameOp) (x : ℕ) (h : Held) (r : Reply) (env : Vars) (vs : Values)
      (s s' : Machine c.World)
      → Stands env vs (held s.world)
      → vs x ≡ some h
      → Reads op x h r
      → exec c op env s ≡ some (r, env, s')
      → held s'.world ≡ held s.world
      → Right op env vs s
  read_lem op x h r env vs s s' stands v rule run same =
      (r, env, vs, s', run, replies op vs x h r v rule, rw same stands)
