-- ===== src/Ownership/Giving.antt =====
-- Calls that give a message or a frame to another message or to an actor: `into_raw` gives up
-- ownership first, and what the call leaves in its slot is forgotten.
use rust_czmq.Prelude.{◌==◌, ◌≡◌, ◌≢◌, inl, inr, true, false, some, ◌∷◌, arith, Bool-cases}
use rust_czmq.Ffi.{Ptr, null, pos, minus_one, int_eq, Czmq, Event, Machine, done}
use rust_czmq.Ffi.Calls.{
  SlotCall, zmsg_prepend, zmsg_append, zmsg_addmsg, zactor_send, zactor_destroy,
}
use rust_czmq.ZActor
use rust_czmq.ZActor.{ZActor}
use rust_czmq.ZFrame.{ZFrame}
use rust_czmq.ZMsg
use rust_czmq.ZMsg.{ZMsg}
use rust_czmq.Ownership.{releases, all_releases, prepended, taken}

module _ (c : Czmq) where
  -- The pointer that a slot call leaves.
  abbrev pub slot_after : SlotCall → c.World → Ptr
  slot_after q w = (c.slot_call q w).1

  -- `prepend` releases the frame that it is given, once, if `zmsg_prepend` leaves its slot null,
  -- and else releases nothing: a frame that is left in the slot is leaked.
  pub prepend-releases :
      (m : ZMsg) (frame : ZFrame) (s : Machine c.World)
      → all_releases (ZMsg.prepend c m frame s)
        ≡ some (
            prepended
              (taken frame.zframe (slot_after (zmsg_prepend m.zmsg frame.zframe) s.world))
              (releases s.trace))
  unfolding ZMsg.prepend
  prepend-releases m frame s =
      elim (Bool-cases
        (int_eq (c.slot_call (zmsg_prepend m.zmsg frame.zframe) s.world).0 (pos 0))) [
          | inl h ↦ rw h
          | inr h ↦ rw h
        ]

  -- `append` releases the frame that it is given, once, if `zmsg_append` leaves its slot null, and
  -- else releases nothing.
  pub append-releases :
      (m : ZMsg) (frame : ZFrame) (s : Machine c.World)
      → all_releases (ZMsg.append c m frame s)
        ≡ some (
            prepended
              (taken frame.zframe (slot_after (zmsg_append m.zmsg frame.zframe) s.world))
              (releases s.trace))
  unfolding ZMsg.append
  append-releases m frame s =
      elim (Bool-cases (int_eq (c.slot_call (zmsg_append m.zmsg frame.zframe) s.world).0 (pos 0))) [
        | inl h ↦ rw h
        | inr h ↦ rw h
      ]

  -- `addmsg` releases the message that it is given, once, if `zmsg_addmsg` leaves its slot null,
  -- and else releases nothing.
  pub addmsg-releases :
      (m other : ZMsg) (s : Machine c.World)
      → all_releases (ZMsg.addmsg c m other s)
        ≡ some (
            prepended
              (taken other.zmsg (slot_after (zmsg_addmsg m.zmsg other.zmsg) s.world))
              (releases s.trace))
  unfolding ZMsg.addmsg
  addmsg-releases m other s =
      elim (Bool-cases (int_eq (c.slot_call (zmsg_addmsg m.zmsg other.zmsg) s.world).0 minus_one)) [
        | inl h ↦ rw h
        | inr h ↦ rw h
      ]

  -- `ZActor::send` releases the message, once, if `zactor_send` leaves its slot null, and else
  -- releases nothing, so a message that was not taken is leaked.
  pub send-releases_command :
      (a : ZActor) (msg : ZMsg) (s : Machine c.World)
      → all_releases (ZActor.send c a msg s)
        ≡ some (
            prepended
              (taken msg.zmsg (slot_after (zactor_send a.zactor msg.zmsg) s.world))
              (releases s.trace))
  unfolding ZActor.send
  send-releases_command a msg s =
      elim (Bool-cases (int_eq (c.slot_call (zactor_send a.zactor msg.zmsg) s.world).0 minus_one)) [
        | inl h ↦ rw h
        | inr h ↦ rw h
      ]

  -- `ZActor::into_raw` of an owned actor that is not null returns its pointer after it has
  -- destroyed the actor there.
  pub into_raw-releases :
      (a : ZActor) (s : Machine c.World)
      → a.owned ≡ true
      → a.zactor ≢ null
      → (s' : Machine c.World) × (ZActor.into_raw c a s ≡ done a.zactor s')
        × (releases s'.trace ≡ a.zactor ∷ releases s.trace)
  unfolding ZActor.into_raw
  into_raw-releases a s owned there =
      let not_null : (a.zactor == null) ≡ false = ground arith in
      let s' : Machine c.World = record {
        world = c.void_call (zactor_destroy a.zactor) s.world;
        trace = Event.did (zactor_destroy a.zactor) ∷ s.trace;
      } in
      (s', rw owned, rw not_null)

  -- `prepend`, `append`, `addmsg` and `ZActor::send` release what they are given, once, if the call of
  -- CZMQ leaves its slot null, and else release nothing: what is left in the slot is leaked.
  pub given_away-releases :
      (m other : ZMsg) (frame : ZFrame) (a : ZActor) (s : Machine c.World)
      → (all_releases (ZMsg.prepend c m frame s)
          ≡ some (
              prepended
                (taken frame.zframe (slot_after (zmsg_prepend m.zmsg frame.zframe) s.world))
                (releases s.trace)))
        × (all_releases (ZMsg.append c m frame s)
            ≡ some (
                prepended
                  (taken frame.zframe (slot_after (zmsg_append m.zmsg frame.zframe) s.world))
                  (releases s.trace)))
        × (all_releases (ZMsg.addmsg c m other s)
            ≡ some (
                prepended
                  (taken other.zmsg (slot_after (zmsg_addmsg m.zmsg other.zmsg) s.world))
                  (releases s.trace)))
        × (all_releases (ZActor.send c a other s)
            ≡ some (
                prepended
                  (taken other.zmsg (slot_after (zactor_send a.zactor other.zmsg) s.world))
                  (releases s.trace)))
  given_away-releases m other frame a s = (
    prepend-releases m frame s,
    append-releases m frame s,
    addmsg-releases m other s,
    send-releases_command a other s,
  )
