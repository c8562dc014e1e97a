-- ===== src/Ownership/Lent.antt =====
-- Frames that a message lends by `first`, `next` and `ref_last`.
use rust_czmq.Prelude.{
  ◌==◌, ◌≡◌, ◌≢◌, refl, true, false, none, some, ◌∷◌, arith, Bool-cases, inl, inr,
}
use rust_czmq.Ffi.{Ptr, null, minus_one, int_eq, Czmq, Event, Machine, result_of}
use rust_czmq.Ffi.Calls.{zmsg_first, zframe_send}
use rust_czmq.Ownership.Balance.{IsSound, balance}
use rust_czmq.ZFrame
use rust_czmq.ZFrame.{ZFrame}
use rust_czmq.ZMsg
use rust_czmq.ZMsg.{ZMsg}
use rust_czmq.ZSock.{ZSock, zsock_sockish}
use rust_czmq.Ownership.Session.{end_of}

module _ (c : Czmq) (m : ZMsg) (z : ZSock) (s : Machine c.World) where
  -- The frame at the front of the message, and the machine after `first`.
  abbrev pub front : Ptr
  front = (c.ptr_call (zmsg_first m.zmsg) s.world).0

  abbrev pub after_first : Machine c.World
  after_first = record {
    world = (c.ptr_call (zmsg_first m.zmsg) s.world).1;
    trace = Event.got_ptr (zmsg_first m.zmsg) front ∷ s.trace;
  }

  -- A message's first frame can be sent: `first` returns a frame that is not owned, and if CZMQ takes
  -- it out of its slot, then `send` has released a pointer that the crate did not own.
  pub first-send :
      front ≢ null
      → balance s.trace front ≡ 0
      → (c.slot_call (zframe_send front z.zsock 0) after_first.world).1 ≡ null
      → (f : ZFrame) × (result_of (ZMsg.first c m s) ≡ some (some f))
        × (f.owned ≡ false)
        × ¬ IsSound
            (end_of c (ZFrame.send c ⦃k = zsock_sockish c⦄ f z none after_first) after_first).trace
  unfolding ZMsg.first ZFrame.send ZFrame.flags_c zsock_sockish
  first-send there unowned took =
      let not_null : (front == null) ≡ false = ground arith in
      let call = zframe_send front z.zsock 0 in
      let same : (front == front) ≡ true = ground arith in
      (
        record { zframe = front; owned = false },
        rw not_null,
        refl,
        elim (Bool-cases (int_eq (c.slot_call call after_first.world).0 minus_one)) [
          | inl e ↦ rw (e, took) (λ sound. ground (arith, sound.0 front))
          | inr e ↦ rw (e, took) (λ sound. ground (arith, sound.0 front))
        ],
      )
