-- ===== src/ZSys/Once.antt =====
-- `ZSys::init` runs the initialisation of CZMQ once.
use rust_czmq.Prelude.{ℕ, zero, suc, ◌≡◌, refl, true, false, Bool, ◌∷◌}
use rust_czmq.Ffi.{Czmq, Event, Machine, done, Io, pure, ◌>>=◌}
use rust_czmq.Ffi.Calls.{zsys_init}
use rust_czmq.ZSys

module _ (c : Czmq) where
  open c use {World}

  -- `init` as often as it is called, from a given state of the `Once`.
  unfoldable pub init_times : ℕ → Bool → Io World Bool
  unfolding ZSys.init
  init_times zero ran = pure ran
  init_times (suc n) ran = do ran' ← ZSys.init c ran; init_times n ran'

  init_times_ran : (n : ℕ) (s : Machine World) → init_times n true s ≡ done true s
  unfolding init_times
  init_times_ran zero s = refl
  init_times_ran (suc n) s = init_times_ran n s

  -- Any number of calls of `init` but zero makes the one call of `zsys_init`.
  pub init-once :
      (n : ℕ) (s : Machine World)
      → init_times (suc n) false s
        ≡ done true (record {
          world = c.void_call zsys_init s.world;
          trace = Event.did zsys_init ∷ s.trace;
        })
  unfolding init_times
  init-once n s = init_times_ran n _
