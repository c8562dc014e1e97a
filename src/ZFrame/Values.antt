-- ===== src/ZFrame/Values.antt =====
-- The methods of src/zframe.rs, in any sequence, treat frames as values: no frame is the memory
-- of another.
use rust_czmq.Prelude.{◌≡◌, refl, some, List, [], ◌∷◌}
use rust_czmq.Ffi.{Czmq, Machine}
use rust_czmq.Ffi.Calls.{zframe_new, zframe_new_empty}
use rust_czmq.Variables.{Stands}
use rust_czmq.ZFrame.Program.{
  frame_handle, FrameOp, make, make_from, make_empty, copy, put, mark, read, measure, is_marked,
  is_text, is_same, discard, Reply, Values, makes, makes_from, makes_empty, cannot_make, DoesAll,
  finished, then_does, Vars, exec, run_program,
}
use rust_czmq.ZFrame.Store.{FrameLaws}
use rust_czmq.ZFrame.Allowed.{Right}
use rust_czmq.ZFrame.Changing.{assign_lem, copy_lem, put_lem, mark_lem, discard_lem}
use rust_czmq.ZFrame.Reading.{data_lem, size_lem, more_lem, streq_lem, eq_lem}

module _ (c : Czmq) (laws : FrameLaws c) where
  open laws use {held}

  exec_lem :
      (op : FrameOp) (env : Vars) (vs : Values) (s : Machine c.World)
      → Stands env vs (held s.world)
      → Right c laws op env vs s
  unfolding exec
  exec_lem (make x b) env vs s stands =
      assign_lem c laws (make x b) (zframe_new b) cannot_make x b env vs s refl
        (laws.new_call b s.world) (makes x b vs) stands
  exec_lem (make_from x b) env vs s stands =
      assign_lem c laws (make_from x b) (zframe_new b) cannot_make x b env vs s refl
        (laws.new_call b s.world) (makes_from x b vs) stands
  exec_lem (make_empty x) env vs s stands =
      assign_lem c laws (make_empty x) zframe_new_empty cannot_make x [] env vs s refl
        (laws.empty_call s.world) (makes_empty x vs) stands
  exec_lem (copy x y) env vs s stands = copy_lem c laws x y env vs s stands
  exec_lem (put x b) env vs s stands = put_lem c laws x b env vs s stands
  exec_lem (mark x b) env vs s stands = mark_lem c laws x b env vs s stands
  exec_lem (discard x) env vs s stands = discard_lem c laws x env vs s stands
  exec_lem (read x) env vs s stands = data_lem c laws x env vs s stands
  exec_lem (measure x) env vs s stands = size_lem c laws x env vs s stands
  exec_lem (is_marked x) env vs s stands = more_lem c laws x env vs s stands
  exec_lem (is_text x t) env vs s stands = streq_lem c laws x t env vs s stands
  exec_lem (is_same x y) env vs s stands = eq_lem c laws x y env vs s stands

  -- By the laws of the library, a program whose variables each own a frame in memory that no other
  -- variable has may call `new`, `from`, `empty`, `dup`, `reset`, `set_more`, `data`, `size`, `more`,
  -- `streq`, `eq` and drop in any sequence: it runs to its end without a panic, its variables keep
  -- that invariant, and the calls do what assignments, comparisons and reads do on variables that
  -- hold byte strings with a flag, so that no frame changes when another one does; only a method that
  -- makes a frame may also be refused, and then changes nothing.
  pub run_program-DoesAll :
      (ops : List FrameOp) (env : Vars) (vs : Values) (s : Machine c.World)
      → Stands env vs (held s.world)
      → (rs : List Reply) × (env' : Vars) × (vs' : Values) × (s' : Machine c.World) × (run_program c
            ops env s
          ≡ some (rs, env', s'))
        × DoesAll ops vs rs vs'
        × Stands env' vs' (held s'.world)
  unfolding run_program
  run_program-DoesAll [] env vs s stands = ([], env, vs, s, refl, finished vs, stands)
  run_program-DoesAll (op ∷ ops) env vs s stands =
      let (r, env1, vs1, s1, e, does, stands1) = exec_lem op env vs s stands in
      let (rs, env2, vs2, s2, e', rest, stands2) = run_program-DoesAll ops env1 vs1 s1 stands1 in
      (r ∷ rs, env2, vs2, s2, rw (e, run_program, e'), then_does does rest, stands2)
