-- ===== src/Ownership/Used.antt =====
-- What the methods that consume a handle, and `popbytes`, do to a property of what is held and of
-- the calls so far.
use rust_czmq.Prelude.{
  ℕ, ◌==◌, ◌≡◌, refl, ◌∙◌, ◌⊎◌, inl, inr, Option, none, some, List, ◌∷◌, arith, Bool-cases,
}
use rust_czmq.Ffi.{Ptr, null, minus_one, int_eq, Czmq, Event, Io, Machine}
use rust_czmq.Ownership.{released_by, taken, unless_null}
use rust_czmq.Ownership.Balance.{acquired_by}
use rust_czmq.Ownership.Handles.{
  Handle, message, frame, cert, socket, actor, poller, hash_table, cert_store, pointer_in, Session,
}
use rust_czmq.Ownership.Keeps.{Keeps, SendLaws}
use rust_czmq.Ffi.Calls.{
  zframe_data, zmsg_pop, zmsg_send, zframe_send, zmsg_destroy, zframe_destroy,
}
use rust_czmq.Ownership.Session.{Op, step, end_of}
use rust_czmq.Ownership.Users.{User, used_by}
use rust_czmq.ZFrame
use rust_czmq.ZSock.{ZSock, zsock_sockish}

module _ (c : Czmq) (I : List Handle → List Event → Type 0) (k : Keeps I) where
  open c use {World}

  abbrev Holds : Session World → Type 0
  Holds p = I p.held p.machine.trace

  pub pop_bytes_lem :
      (q : Ptr) (hs : List Handle) (s : Machine World)
      → I hs s.trace
      → Holds (step c (Op.pop_bytes q) (record { held = hs; machine = s }))
  unfolding step
  pop_bytes_lem q hs s b =
      let p = (c.ptr_call (zmsg_pop q) s.world).0 in
      let found = c.ptr_call (zframe_data p) (c.ptr_call (zmsg_pop q) s.world).1 in
      elim (Bool-cases (p == null)) [
        | inl z ↦ rw z (k.quiet _ _ _ b (rw z) refl)
        | inr there ↦
            let popped = k.given _ _ _ (frame p) b refl refl in
            let read = k.quiet _ _ _ popped refl refl in
            elim (Bool-cases (found.0 == null)) [
              | inl z ↦ rw (there, z) (k.taken _ _ _ (frame p) read refl refl)
              | inr data_there ↦
                  rw (there, data_there)
                    (k.taken _ _ _ (frame p) (k.quiet _ _ _ read refl refl) refl refl)
            ]
      ]

  -- A slot call, and the destruction of what it leaves in its slot.
  pub sent_away :
      {es : List Event} {rest : List Handle} (e e' : Event) (h : Handle) (slot : Ptr)
      → I (h ∷ rest) es
      → (slot ≡ null) ⊎ (slot ≡ pointer_in h)
      → acquired_by e ≡ none
      → released_by e ≡ taken (pointer_in h) slot
      → acquired_by e' ≡ none
      → released_by e' ≡ unless_null slot
      → I rest (e' ∷ e ∷ es)
  sent_away e e' h slot b left a r a' r' = elim (Bool-cases (slot == null)) [
    | inl z ↦ k.quiet _ _ _ (k.taken _ _ _ h b a (r ∙ rw z)) a' (r' ∙ rw z)
    | inr z ↦
        let same : slot ≡ pointer_in h = ground arith in
        k.taken _ _ _ h (k.quiet _ _ _ b a (r ∙ rw z)) a' (r' ∙ rw same)
  ]

  -- What a call leaves behind, if it is one of the handle's type.
  abbrev pub IsFine : Option (Io World (Unit {0})) → List Handle → Machine World → Type 0
  IsFine none rest s = Unit
  IsFine (some run) rest s = I rest (end_of c (run s) s).trace

  -- The methods that consume a handle and forget nothing.
  pub drop_lem :
      (h : Handle) (rest : List Handle) (s : Machine World)
      → I (h ∷ rest) s.trace
      → IsFine (used_by c User.drop_it h) rest s
  unfolding used_by
  drop_lem (message p) rest s b = k.taken _ _ _ (message p) b refl refl
  drop_lem (frame p) rest s b = k.taken _ _ _ (frame p) b refl refl
  drop_lem (cert p) rest s b = k.taken _ _ _ (cert p) b refl refl
  drop_lem (socket p) rest s b = k.taken _ _ _ (socket p) b refl refl
  drop_lem (actor p) rest s b = k.taken _ _ _ (actor p) b refl refl
  drop_lem (poller p) rest s b = k.taken _ _ _ (poller p) b refl refl
  drop_lem (hash_table p) rest s b = k.taken _ _ _ (hash_table p) b refl refl
  drop_lem (cert_store p) rest s b = k.taken _ _ _ (cert_store p) b refl refl

  pub insert_lem :
      (q : Ptr) (h : Handle) (rest : List Handle) (s : Machine World)
      → I (h ∷ rest) s.trace
      → IsFine (used_by c (User.insert_into q) h) rest s
  unfolding used_by
  insert_lem q (cert p) rest s b = k.taken _ _ _ (cert p) b refl refl
  insert_lem q _ rest s b = tt

  pub send_lem :
      (laws : SendLaws c) (z : ZSock) (flags : Option ℕ) (h : Handle) (rest : List Handle)
      (s : Machine World)
      → I (h ∷ rest) s.trace
      → IsFine (used_by c (User.send_it z flags) h) rest s
  unfolding used_by zsock_sockish
  send_lem laws z flags (message p) rest s b =
      let call = zmsg_send p z.zsock in
      let (rc, slot, w) = c.slot_call call s.world in
      let left =
        sent_away (Event.got_slot call rc slot) (Event.did (zmsg_destroy slot)) (message p) slot b
          (laws.message_sent s.world p z.zsock) refl refl refl refl in
      elim (Bool-cases (int_eq rc minus_one)) [ inl e ↦ rw e left | inr e ↦ rw e left ]
  send_lem laws z flags (frame p) rest s b =
      let call = zframe_send p z.zsock (ZFrame.flags_c flags) in
      let (rc, slot, w) = c.slot_call call s.world in
      let left =
        sent_away (Event.got_slot call rc slot) (Event.did (zframe_destroy slot)) (frame p) slot b
          (laws.frame_sent s.world p z.zsock (ZFrame.flags_c flags)) refl refl refl refl in
      elim (Bool-cases (int_eq rc minus_one)) [ inl e ↦ rw e left | inr e ↦ rw e left ]
  send_lem laws z flags _ rest s b = tt
