-- ===== src/ZMsg/Refinement.antt =====
-- The methods of src/zmsg.rs, in any sequence, implement the operations on a list of frames.
use rust_czmq.Prelude.{◌≡◌, refl, Option, none, some, List, [], ◌∷◌}
use rust_czmq.Rust.Text.{Bytes}
use rust_czmq.Ffi.{Czmq, Machine}
use rust_czmq.ZMsg.{ZMsg}
use rust_czmq.ZMsg.Frames.{MsgLaws, MsgOp, Reply, Does}
use rust_czmq.ZMsg.Methods.{exec, exec_lem}

module _ (c : Czmq) (m : ZMsg) where
  -- One method after the other, on the same message; `Err` does not end the sequence.
  unfoldable pub exec_all : List MsgOp → Machine c.World → Option (List Reply × Machine c.World)
  unfolding exec
  exec_all [] s = some ([], s)
  exec_all (op ∷ ops) s = elim (exec c m op s) [
    | none ↦ none
    | some (r, s') ↦ elim (exec_all ops s') [ none ↦ none | some (rs, s'') ↦ some (r ∷ rs, s'') ]
  ]

-- One operation on the list of frames after the other.
pub data DoesAll : List MsgOp → List Bytes → List Reply → List Bytes → Type 0 where
  finished : (fs : List Bytes) → DoesAll [] fs [] fs
  then_does :
      {op : MsgOp} {ops : List MsgOp} {fs gs hs : List Bytes} {r : Reply} {rs : List Reply}
      → Does op fs r gs
      → DoesAll ops gs rs hs
      → DoesAll (op ∷ ops) fs (r ∷ rs) hs

module _ (c : Czmq) (m : ZMsg) (laws : MsgLaws c m.zmsg) where
  -- By the laws of the library, any sequence of calls of `pushstr`, `addstr`, `pushbytes`, `addbytes`,
  -- `popstr`, `popbytes` and `size` on a message runs to its end without a panic, and its replies and
  -- the frames left are those of the same operations on the list of frames, where a call that adds
  -- may give an error and then changes nothing.
  pub exec_all-DoesAll :
      (ops : List MsgOp) (s : Machine c.World)
      → (rs : List Reply) × (s' : Machine c.World) × (exec_all c m ops s ≡ some (rs, s'))
        × DoesAll ops (laws.frames s.world) rs (laws.frames s'.world)
  unfolding exec_all
  exec_all-DoesAll [] s = ([], s, refl, finished (laws.frames s.world))
  exec_all-DoesAll (op ∷ ops) s =
      let (r, s1, e, does) = exec_lem c m laws op s in
      let (rs, s2, e', rest) = exec_all-DoesAll ops s1 in
      (r ∷ rs, s2, rw (e, exec_all, e'), then_does does rest)
