-- ===== src/Ownership/Steps.antt =====
-- Every call of a program that uses the crate keeps it backed.
use rust_czmq.Prelude.{
  ℕ, ◌==◌, ◌≡◌, refl, ◌∙◌, inl, inr, Option, none, some, List, [], ◌∷◌, Bool-cases,
}
use rust_czmq.Rust.Text.{Bytes}
use rust_czmq.Ffi.{Ptr, null, pos, minus_one, int_eq, Czmq, Event, Io, Machine}
use rust_czmq.Ffi.Calls.{
  Task, zactor_new, zactor_send, zframe_new, zmsg_prepend, zmsg_append, zmsg_addmsg,
}
use rust_czmq.Ownership.{released_by, taken}
use rust_czmq.Ownership.Balance.{acquired_by}
use rust_czmq.ZAuth
use rust_czmq.Ownership.Keeps.{SendLaws}
use rust_czmq.Ownership.Made.{made_lem}
use rust_czmq.Ownership.Used.{IsFine, pop_bytes_lem, drop_lem, insert_lem, send_lem}
use rust_czmq.Ownership.Speaking.{Gives}
use rust_czmq.Ownership.Commanded.{Allowed, commanded_lem, end_of_lem}
use rust_czmq.Ownership.Commands.{Command, commanded}
use rust_czmq.Ownership.Invariant.{
  IsBacked, given-IsBacked, spare-IsBacked, quiet-IsBacked, taken-IsBacked, forgotten-IsBacked,
  backed_keeps,
}
use rust_czmq.Ownership.Handles.{
  Handle, message, frame, cert, socket, actor, poller, hash_table, cert_store, pointer_in, Session,
  taken_at, taken_at_lem,
}
use rust_czmq.Ownership.Users.{User, used_by}
use rust_czmq.Ownership.Session.{Op, step, steps, after_use, after_taken, after_auth}

module _ (c : Czmq) where
  open c use {World}

  abbrev pub IsBackedSession : Session World → Type 0
  IsBackedSession p = IsBacked p.held p.machine.trace

  -- A slot call that takes the handle, or leaves it where it is forgotten.
  given_away :
      {es : List Event} {rest : List Handle} (e : Event) (h : Handle) (slot : Ptr)
      → IsBacked (h ∷ rest) es
      → acquired_by e ≡ none
      → released_by e ≡ taken (pointer_in h) slot
      → IsBacked rest (e ∷ es)
  given_away e h slot b a r = elim (Bool-cases (slot == null)) [
    | inl z ↦ taken-IsBacked h b a (r ∙ rw z)
    | inr z ↦ forgotten-IsBacked h (quiet-IsBacked b a (r ∙ rw z))
  ]

  actor_gives : Gives c IsBacked backed_keeps
  actor_gives a p hs s b =
      given_away _ (message p) (c.slot_call (zactor_send a p) s.world).1 b refl refl

  allowed : (cmd : Command) → Allowed c IsBacked backed_keeps cmd
  allowed Command.get_attr = spare-IsBacked
  allowed _ = tt

  -- A frame is made from bytes and given to the message.
  push_bytes_lem :
      (q : Ptr) (b : Bytes) (p : Session World)
      → IsBackedSession p
      → IsBackedSession (step c (Op.push_bytes q b) p)
  unfolding step
  push_bytes_lem q b p back =
      let (f, w) = c.ptr_call (zframe_new b) p.machine.world in
      let call = zmsg_prepend q f in
      let (rc, slot, _) = c.slot_call call w in
      let made = given-IsBacked (frame f) back refl refl in
      elim (Bool-cases (f == null)) [
        | inl z ↦ rw z (quiet-IsBacked back (rw z) refl)
        | inr there ↦ elim (Bool-cases (int_eq rc (pos 0))) [
          | inl z ↦
              rw (there, z) (given_away (Event.got_slot call rc slot) (frame f) slot made refl refl)
          | inr z ↦
              rw (there, z) (given_away (Event.got_slot call rc slot) (frame f) slot made refl refl)
        ]
      ]

  add_bytes_lem :
      (q : Ptr) (b : Bytes) (p : Session World)
      → IsBackedSession p
      → IsBackedSession (step c (Op.add_bytes q b) p)
  unfolding step
  add_bytes_lem q b p back =
      let (f, w) = c.ptr_call (zframe_new b) p.machine.world in
      let call = zmsg_append q f in
      let (rc, slot, _) = c.slot_call call w in
      let made = given-IsBacked (frame f) back refl refl in
      elim (Bool-cases (f == null)) [
        | inl z ↦ rw z (quiet-IsBacked back (rw z) refl)
        | inr there ↦ elim (Bool-cases (int_eq rc (pos 0))) [
          | inl z ↦
              rw (there, z) (given_away (Event.got_slot call rc slot) (frame f) slot made refl refl)
          | inr z ↦
              rw (there, z) (given_away (Event.got_slot call rc slot) (frame f) slot made refl refl)
        ]
      ]

  -- The handle that is taken comes first.
  all_held :
      (i : ℕ) (p : Session World) (h : Handle) (rest : List Handle)
      → IsBackedSession p
      → taken_at i p.held ≡ some (h, rest)
      → IsBacked (h ∷ rest) p.machine.trace
  all_held i p h rest b e = record {
    sound = b.sound;
    backed = λ q n. rw (taken_at_lem i p.held rest h q e) (b.backed q n);
  }

  -- The store is given up, whether there is an actor for it or not.
  after_auth_lem :
      (i : ℕ) (p : Session World) (o : Option (Handle × List Handle))
      → IsBackedSession p
      → taken_at i p.held ≡ o
      → IsBackedSession (after_auth c p o)
  unfolding ZAuth.new
  after_auth_lem i p none b e = b
  after_auth_lem i p (some (cert_store q, rest)) b e =
      let call = zactor_new Task.zauth q in
      let a = (c.ptr_call call p.machine.world).0 in
      let given_up = forgotten-IsBacked (cert_store q) (all_held i p (cert_store q) rest b e) in
      elim (Bool-cases (a == null)) [
        | inl z ↦ rw z (quiet-IsBacked given_up (rw z) refl)
        | inr z ↦ rw z (given-IsBacked (actor a) given_up refl refl)
      ]
  after_auth_lem i p (some (_, rest)) b e = b

  module _ (laws : SendLaws c) where
    used_lem :
        (user : User) (h : Handle) (rest : List Handle) (s : Machine World)
        → IsBacked (h ∷ rest) s.trace
        → IsFine c IsBacked backed_keeps (used_by c user h) rest s
    unfolding used_by
    used_lem User.drop_it h rest s b = drop_lem c IsBacked backed_keeps h rest s b
    used_lem User.into_raw_it (message p) rest s b = forgotten-IsBacked (message p) b
    used_lem User.into_raw_it (frame p) rest s b = forgotten-IsBacked (frame p) b
    used_lem User.into_raw_it (cert p) rest s b = forgotten-IsBacked (cert p) b
    used_lem User.into_raw_it (socket p) rest s b = forgotten-IsBacked (socket p) b
    used_lem User.into_raw_it (hash_table p) rest s b = forgotten-IsBacked (hash_table p) b
    used_lem User.into_raw_it (cert_store p) rest s b = forgotten-IsBacked (cert_store p) b
    used_lem User.into_raw_it (actor p) rest s b = taken-IsBacked (actor p) b refl refl
    used_lem User.into_raw_it (poller p) rest s b = tt
    used_lem (User.insert_into q) h rest s b = insert_lem c IsBacked backed_keeps q h rest s b
    used_lem (User.send_to_actor q) (message p) rest s b =
        let call = zactor_send q p in
        let (rc, slot, w) = c.slot_call call s.world in
        elim (Bool-cases (int_eq rc minus_one)) [
          | inl z ↦ rw z (given_away (Event.got_slot call rc slot) (message p) slot b refl refl)
          | inr z ↦ rw z (given_away (Event.got_slot call rc slot) (message p) slot b refl refl)
        ]
    used_lem (User.send_it z flags) h rest s b =
        send_lem c IsBacked backed_keeps laws z flags h rest s b
    used_lem (User.prepend_to q) (frame p) rest s b =
        let call = zmsg_prepend q p in
        let (rc, slot, w) = c.slot_call call s.world in
        elim (Bool-cases (int_eq rc (pos 0))) [
          | inl z ↦ rw z (given_away (Event.got_slot call rc slot) (frame p) slot b refl refl)
          | inr z ↦ rw z (given_away (Event.got_slot call rc slot) (frame p) slot b refl refl)
        ]
    used_lem (User.append_to q) (frame p) rest s b =
        let call = zmsg_append q p in
        let (rc, slot, w) = c.slot_call call s.world in
        elim (Bool-cases (int_eq rc (pos 0))) [
          | inl z ↦ rw z (given_away (Event.got_slot call rc slot) (frame p) slot b refl refl)
          | inr z ↦ rw z (given_away (Event.got_slot call rc slot) (frame p) slot b refl refl)
        ]
    used_lem (User.add_to q) (message p) rest s b =
        let call = zmsg_addmsg q p in
        let (rc, slot, w) = c.slot_call call s.world in
        elim (Bool-cases (int_eq rc minus_one)) [
          | inl z ↦ rw z (given_away (Event.got_slot call rc slot) (message p) slot b refl refl)
          | inr z ↦ rw z (given_away (Event.got_slot call rc slot) (message p) slot b refl refl)
        ]
    used_lem _ _ rest s b = tt

    after_use_lem :
        (p : Session World) (rest : List Handle) (o : Option (Io World (Unit {0})))
        → IsBackedSession p
        → IsFine c IsBacked backed_keeps o rest p.machine
        → IsBackedSession (after_use c p rest o)
    after_use_lem p rest none b left = b
    after_use_lem p rest (some run) b left = left

    after_taken_lem :
        (i : ℕ) (p : Session World) (user : User) (o : Option (Handle × List Handle))
        → IsBackedSession p
        → taken_at i p.held ≡ o
        → IsBackedSession (after_taken c p user o)
    after_taken_lem i p user none b e = b
    after_taken_lem i p user (some (h, rest)) b e =
        after_use_lem p rest (used_by c user h) b
          (used_lem user h rest p.machine (all_held i p h rest b e))

    step_lem : (op : Op) (p : Session World) → IsBackedSession p → IsBackedSession (step c op p)
    unfolding step
    step_lem (Op.make maker) p b = made_lem c IsBacked backed_keeps maker p.held p.machine b
    step_lem (Op.pop_bytes q) p b = pop_bytes_lem c IsBacked backed_keeps q p.held p.machine b
    step_lem (Op.push_bytes q bytes) p b = push_bytes_lem q bytes p b
    step_lem (Op.add_bytes q bytes) p b = add_bytes_lem q bytes p b
    step_lem (Op.command a cmd) p b =
        end_of_lem c IsBacked backed_keeps p.held (commanded c a cmd p.machine) p.machine b
          (commanded_lem c IsBacked backed_keeps actor_gives a cmd p.held p.machine (allowed cmd) b)
    step_lem (Op.new_auth_with i) p b = after_auth_lem i p (taken_at i p.held) b refl
    step_lem (Op.consume i user) p b = after_taken_lem i p user (taken_at i p.held) b refl

    -- If what is sent is taken out of its slot or stays there, then any sequence of the calls in `Op`
    -- (methods of every type that make or consume something, or speak to an actor) keeps this: no pointer is released that the
    -- crate does not own at the time, and every pointer is held by at most as many handles as it is
    -- owned times.
    pub steps-IsBacked :
        (ops : List Op) (p : Session World) → IsBackedSession p → IsBackedSession (steps c ops p)
    unfolding steps
    steps-IsBacked [] p b = b
    steps-IsBacked (op ∷ ops) p b = steps-IsBacked ops (step c op p) (step_lem op p b)
