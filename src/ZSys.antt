-- ===== src/ZSys.antt =====
-- src/zsys.rs: the library's global state.
pub mod Once
use rust_czmq.Prelude.{◌==◌, Bool, true, false, if◌then◌else◌}
use rust_czmq.Error.{error, null_ptr}
use rust_czmq.Error.Causes
use rust_czmq.Error.Causes.{create_pipe}
use rust_czmq.Ffi.{null, pos, int_eq, Czmq, Io, pure, fail, ◌>>=◌, ◌>>◌, ask_int, ask_pipe, tell}
use rust_czmq.Ffi.Calls.{zsys_init, zsys_interrupted}
use rust_czmq.ZSock
use rust_czmq.ZSock.{ZSock}

module _ (c : Czmq) where
  open c use {World}

  -- `INIT_ZSYS.call_once`: the argument is whether the `Once` has run, and so is the result.
  unfoldable pub init : Bool → Io World Bool
  unfolding tell
  init done_before = if done_before then pure true else (do tell c zsys_init; pure true)

  unfoldable pub new_pipe : Io World (ZSock × ZSock)
  unfolding ask_pipe ZSock.from_raw
  new_pipe = do
    (frontend_raw, backend_raw) ← ask_pipe c
    if frontend_raw == null
        then fail (error null_ptr (Causes.zsys create_pipe))
        else pure (ZSock.from_raw frontend_raw true, ZSock.from_raw backend_raw true)

  unfoldable pub is_interrupted : Io World Bool
  unfolding ask_int
  is_interrupted = do interrupted ← ask_int c zsys_interrupted; pure (int_eq interrupted (pos 1))
