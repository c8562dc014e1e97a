-- ===== src/Ownership/Sending.antt =====
-- `ZMsg::send` and `ZFrame::send`, which consume what they send.
use rust_czmq.Prelude.{
  ◌==◌, ◌≡◌, ◌≢◌, ◌⊎◌, inl, inr, true, false, Option, some, ◌∷◌, arith, Bool-cases, ℕ,
}
use rust_czmq.Ffi.{null, minus_one, int_eq, Czmq, Machine}
use rust_czmq.Ffi.Calls.{zmsg_send, zframe_send}
use rust_czmq.Raw.{Sockish}
use rust_czmq.ZFrame
use rust_czmq.ZFrame.{ZFrame}
use rust_czmq.ZMsg
use rust_czmq.ZMsg.{ZMsg}
use rust_czmq.Ownership.{releases, all_releases}

module _ (c : Czmq) where
  -- If `zmsg_send` takes the message out of the slot or leaves it there, `ZMsg::send` of an owned
  -- message that is not null releases it exactly once, whether the sending succeeds or fails.
  pub send-releases_message :
      {D : Type 0} ⦃k : Sockish c.World D⦄ (m : ZMsg) (dest : D) (s : Machine c.World)
      → m.owned ≡ true
      → m.zmsg ≢ null
      → ((c.slot_call (zmsg_send m.zmsg (k.as_mut_ptr dest)) s.world).1 ≡ null)
        ⊎ ((c.slot_call (zmsg_send m.zmsg (k.as_mut_ptr dest)) s.world).1 ≡ m.zmsg)
      → all_releases (ZMsg.send c m dest s) ≡ some (m.zmsg ∷ releases s.trace)
  unfolding ZMsg.send
  send-releases_message ⦃k⦄ m dest s owned there slot =
      let rc = (c.slot_call (zmsg_send m.zmsg (k.as_mut_ptr dest)) s.world).0 in
      let not_null : (m.zmsg == null) ≡ false = ground arith in
      elim (Bool-cases (int_eq rc minus_one)) [
        | inl h ↦ elim slot [
          | inl e ↦ rw (owned, e, h, not_null)
          | inr e ↦ rw (owned, e, h, not_null)
        ]
        | inr h ↦ elim slot [
          | inl e ↦ rw (owned, e, h, not_null)
          | inr e ↦ rw (owned, e, h, not_null)
        ]
      ]

  -- If `zframe_send` takes the frame out of the slot or leaves it there, `ZFrame::send` of an
  -- owned frame that is not null releases it exactly once, with any flags, whether the sending
  -- succeeds or fails.
  pub send-releases_frame :
      {D : Type 0} ⦃k : Sockish c.World D⦄ (f : ZFrame) (dest : D) (flags : Option ℕ)
      (s : Machine c.World)
      → f.owned ≡ true
      → f.zframe ≢ null
      → ((c.slot_call (zframe_send f.zframe (k.as_mut_ptr dest) (ZFrame.flags_c flags)) s.world).1
          ≡ null)
        ⊎ ((c.slot_call (zframe_send f.zframe (k.as_mut_ptr dest) (ZFrame.flags_c flags)) s.world).1
            ≡ f.zframe)
      → all_releases (ZFrame.send c f dest flags s) ≡ some (f.zframe ∷ releases s.trace)
  unfolding ZFrame.send
  send-releases_frame ⦃k⦄ f dest flags s owned there slot =
      let rc =
        (c.slot_call (zframe_send f.zframe (k.as_mut_ptr dest) (ZFrame.flags_c flags)) s.world).0 in
      let not_null : (f.zframe == null) ≡ false = ground arith in
      elim (Bool-cases (int_eq rc minus_one)) [
        | inl h ↦ elim slot [
          | inl e ↦ rw (owned, e, h, not_null)
          | inr e ↦ rw (owned, e, h, not_null)
        ]
        | inr h ↦ elim slot [
          | inl e ↦ rw (owned, e, h, not_null)
          | inr e ↦ rw (owned, e, h, not_null)
        ]
      ]
