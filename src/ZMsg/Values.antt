-- ===== src/ZMsg/Values.antt =====
-- The methods of src/zmsg.rs, in any sequence, treat messages as values, also where one is put into
-- another.
use rust_czmq.Prelude.{◌≡◌, refl, some, List, [], ◌∷◌}
use rust_czmq.Ffi.{Czmq, Machine}
use rust_czmq.Variables.{Stands}
use rust_czmq.ZMsg.Allowed.{Right}
use rust_czmq.ZMsg.Adding.{push_lem, addstr_lem, pop_lem}
use rust_czmq.ZMsg.Changing.{make_lem, copy_lem, count_lem, same_lem, discard_lem}
use rust_czmq.ZMsg.Nesting.{nest_lem, unnest_lem}
use rust_czmq.ZMsg.Program.{
  message_handle, MessageOp, make, copy, push, add, pop, count, is_same, nest, unnest, discard,
  Reply, Values, DoesAll, finished, then_does, Vars, run_messages,
}
use rust_czmq.ZMsg.Store.{MessageLaws}

module _ (c : Czmq) (laws : MessageLaws c) where
  open laws use {held, code, decoded}

  exec_lem :
      (op : MessageOp) (env : Vars) (vs : Values) (s : Machine c.World)
      → Stands env vs (held s.world)
      → Right c laws op env vs s
  exec_lem (make x) = make_lem c laws x
  exec_lem (copy x y) = copy_lem c laws x y
  exec_lem (push x t) = push_lem c laws x t
  exec_lem (add x t) = addstr_lem c laws x t
  exec_lem (pop x) = pop_lem c laws x
  exec_lem (count x) = count_lem c laws x
  exec_lem (is_same x y) = same_lem c laws x y
  exec_lem (nest x y) = nest_lem c laws x y
  exec_lem (unnest x y) = unnest_lem c laws x y
  exec_lem (discard x) = discard_lem c laws x

  -- By the laws of the library, a program whose variables each own a message in memory that no other
  -- variable has may call `new`, `dup`, `pushstr`, `addstr`, `popstr`, `size`, `eq`, `addmsg`, `popmsg`
  -- and drop in any sequence: it runs to its end without a panic, its variables keep that invariant,
  -- and the calls do what they say on variables that hold lists of frames, so that no message changes
  -- when another one does. `addmsg` moves a message into a frame of another, `popmsg` takes it out of
  -- the first frame, and an `Err` changes nothing, but that of `addmsg` loses the moved message.
  pub run_messages-DoesAll :
      (ops : List MessageOp) (env : Vars) (vs : Values) (s : Machine c.World)
      → Stands env vs (held s.world)
      → (rs : List Reply) × (env' : Vars) × (vs' : Values) × (s' : Machine c.World) × (run_messages
            c ops env s
          ≡ some (rs, env', s'))
        × DoesAll code decoded ops vs rs vs'
        × Stands env' vs' (held s'.world)
  unfolding run_messages
  run_messages-DoesAll [] env vs s stands = ([], env, vs, s, refl, finished vs, stands)
  run_messages-DoesAll (op ∷ ops) env vs s stands =
      let (r, env1, vs1, s1, e, does, stands1) = exec_lem op env vs s stands in
      let (rs, env2, vs2, s2, e', rest, stands2) = run_messages-DoesAll ops env1 vs1 s1 stands1 in
      (r ∷ rs, env2, vs2, s2, rw (e, run_messages, e'), then_does does rest, stands2)
