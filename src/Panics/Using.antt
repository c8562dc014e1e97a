-- ===== src/Panics/Using.antt =====
-- No method that consumes a handle panics; and the panics of all of them together.
use rust_czmq.Prelude.{◌≡◌, refl, false, Option, none, some, Bool-cases, inl, inr}
use rust_czmq.Ffi.{Ptr, pos, minus_one, int_eq, Czmq, Io, Machine}
use rust_czmq.Ffi.Calls.{
  zmsg_send, zframe_send, zactor_send, zmsg_prepend, zmsg_append, zmsg_addmsg,
}
use rust_czmq.Ownership.Commands.{Command, commanded}
use rust_czmq.Ownership.Handles.{Handle, message, frame, cert, poller}
use rust_czmq.Ownership.Makers.{Maker, made_by}
use rust_czmq.Ownership.Users.{User, used_by}
use rust_czmq.Panics.Giving.{Giver, given, giver_panics, given-has_panicked}
use rust_czmq.Panics.Making.{has_panicked, maker_panics, made_by-has_panicked}
use rust_czmq.Panics.Speaking.{command_panics, commanded-has_panicked}
use rust_czmq.ZFrame
use rust_czmq.ZSock.{zsock_sockish}

module _ (c : Czmq) (s : Machine c.World) where
  open c use {World}

  -- Where the method is one of the handle's type, it does not panic.
  abbrev pub IsSafeUse : Option (Io World (Unit {0})) → Type 0
  IsSafeUse none = Unit
  IsSafeUse (some run) = has_panicked (run s) ≡ false

  used_by-IsSafeUse : (user : User) (h : Handle) → IsSafeUse (used_by c user h)
  unfolding used_by zsock_sockish
  used_by-IsSafeUse User.drop_it (message p) = refl
  used_by-IsSafeUse User.drop_it _ = refl
  used_by-IsSafeUse User.into_raw_it (message p) = refl
  used_by-IsSafeUse User.into_raw_it (poller p) = tt
  used_by-IsSafeUse User.into_raw_it _ = refl
  used_by-IsSafeUse (User.send_it z flags) (message p) =
      elim (Bool-cases (int_eq (c.slot_call (zmsg_send p z.zsock) s.world).0 minus_one)) [
        | inl e ↦ rw e
        | inr e ↦ rw e
      ]
  used_by-IsSafeUse (User.send_it z flags) (frame p) =
      elim (Bool-cases
        (int_eq (c.slot_call (zframe_send p z.zsock (ZFrame.flags_c flags)) s.world).0 minus_one)) [
          | inl e ↦ rw e
          | inr e ↦ rw e
        ]
  used_by-IsSafeUse (User.send_to_actor q) (message p) =
      elim (Bool-cases (int_eq (c.slot_call (zactor_send q p) s.world).0 minus_one)) [
        | inl e ↦ rw e
        | inr e ↦ rw e
      ]
  used_by-IsSafeUse (User.prepend_to q) (frame p) =
      elim (Bool-cases (int_eq (c.slot_call (zmsg_prepend q p) s.world).0 (pos 0))) [
        | inl e ↦ rw e
        | inr e ↦ rw e
      ]
  used_by-IsSafeUse (User.append_to q) (frame p) =
      elim (Bool-cases (int_eq (c.slot_call (zmsg_append q p) s.world).0 (pos 0))) [
        | inl e ↦ rw e
        | inr e ↦ rw e
      ]
  used_by-IsSafeUse (User.add_to q) (message p) =
      elim (Bool-cases (int_eq (c.slot_call (zmsg_addmsg q p) s.world).0 minus_one)) [
        | inl e ↦ rw e
        | inr e ↦ rw e
      ]
  used_by-IsSafeUse (User.insert_into q) (cert p) = refl
  used_by-IsSafeUse _ _ = tt

  -- Whatever CZMQ replies, of the methods that `made_by`, `given`, `commanded` and `used_by` call
  -- exactly these panic. Of those that make a new handle: the constructors of a socket at an endpoint
  -- that has a NUL (`new_sub` only if its subscription has none), and `ZCert::load` on a path that
  -- is no text. Of those that give a handle out of another one, or hand one over: `get_state` of a
  -- store whose pointer is null, and `get_certs` of one whose pointer or whose table is null. Of
  -- those that speak to an actor: `load_gssapi`. Of those that consume a handle: none.
  pub panics_lem :
      ((maker : Maker) → has_panicked (made_by c maker s) ≡ maker_panics maker)
      × ((giver : Giver) → has_panicked (given c giver s) ≡ giver_panics c giver s)
      × ((a : Ptr) (cmd : Command) → has_panicked (commanded c a cmd s) ≡ command_panics cmd)
      × ((user : User) (h : Handle) → IsSafeUse (used_by c user h))
  panics_lem = (
    made_by-has_panicked c s,
    λ giver. given-has_panicked c giver s,
    λ a cmd. commanded-has_panicked c a cmd s,
    used_by-IsSafeUse,
  )
