-- ===== src/Ownership/Leaks.antt =====
-- A program that gives no handle to a message, unwraps none and reads no texts of an actor leaks
-- nothing.
use rust_czmq.Prelude.{ℕ, zero, suc, ◌+◌, ◌≡◌, ◌≢◌, List, [], ◌∷◌}
use rust_czmq.Ffi.{Ptr, null, Czmq, Event}
use rust_czmq.Ownership.Balance.{times_given, times_released}
use rust_czmq.Ownership.Keeps.{Keeps}
use rust_czmq.Ownership.Commands.{Command}
use rust_czmq.Ownership.Handles.{Handle, held_times, Session}
use rust_czmq.Ownership.Users.{User}
use rust_czmq.Ownership.Session.{Op}

-- Every pointer was given exactly as often as it was released or is held.
pub record IsExact (hs : List Handle) (es : List Event) : Type 0 where
  pub exact : (q : Ptr) → q ≢ null → times_given es q ≡ held_times q hs + times_released es q

-- The calls that forget no handle and no text.
abbrev IsCarefulUser : User → Type 0
IsCarefulUser User.drop_it = Unit
IsCarefulUser (User.send_it _ _) = Unit
IsCarefulUser (User.send_to_actor _) = Unit
IsCarefulUser (User.insert_into _) = Unit
IsCarefulUser _ = ⊥

abbrev IsCarefulCommand : Command → Type 0
IsCarefulCommand Command.get_attr = ⊥
IsCarefulCommand _ = Unit

abbrev pub IsCareful : Op → Type 0
IsCareful (Op.consume _ user) = IsCarefulUser user
IsCareful (Op.command _ cmd) = IsCarefulCommand cmd
IsCareful (Op.new_auth_with _) = ⊥
IsCareful (Op.push_bytes _ _) = ⊥
IsCareful (Op.add_bytes _ _) = ⊥
IsCareful _ = Unit

-- The program drops its handles, one after the other.
abbrev pub drop_first : ℕ → List Op
drop_first zero = []
drop_first (suc n) = Op.consume 0 User.drop_it ∷ drop_first n

module _ (c : Czmq) where
  open c use {World}

  abbrev IsExactSession : Session World → Type 0
  IsExactSession p = IsExact p.held p.machine.trace
