-- ===== src/Ownership/Speaking.antt =====
-- What the methods that fill and send a message to an actor do to a property of what is held and of
-- the calls so far: the message that they make is given to the actor, or destroyed.
use rust_czmq.Prelude.{true, refl, inl, inr, List, [], ◌∷◌, Bool-cases}
use rust_czmq.Rust.Text.{Bytes, ascii, c_string_or_empty}
use rust_czmq.Ffi.{Ptr, minus_one, int_eq, Czmq, Event, Io, Machine, or_drop, ◌>>◌}
use rust_czmq.Ffi.Calls.{zactor_send, zactor_sock, zsock_wait, zmsg_new, zmsg_addstr}
use rust_czmq.Ffi.Post.{Post, Ends, and_then-Post, cleaned-Post}
use rust_czmq.Ownership.Handles.{Handle, message}
use rust_czmq.Ownership.Keeps.{Keeps}
use rust_czmq.ZActor
use rust_czmq.ZActor.{ZActor, zactor_sockish}
use rust_czmq.ZAuth
use rust_czmq.ZMonitor
use rust_czmq.ZMonitor.{ZMonitorEvents, to_str}
use rust_czmq.ZMsg
use rust_czmq.ZMsg.{ZMsg}

module _ (c : Czmq) (I : List Handle → List Event → Type 0) (k : Keeps I) where
  open c use {World}

  -- The property where a handle is, or is not, held besides others.
  abbrev pub With : List Handle → Machine World → Type 0
  With hs s = I hs s.trace

  -- `zactor_send` takes the message, or the property allows that it is forgotten.
  abbrev pub Gives : Type 0
  Gives =
      (a p : Ptr) (hs : List Handle) (s : Machine World)
      → With (message p ∷ hs) s
      → I hs (
          Event.got_slot (zactor_send a p) (c.slot_call (zactor_send a p) s.world).0
            (c.slot_call (zactor_send a p) s.world).1
          ∷ s.trace)

  module _ (hs : List Handle) (a : ZActor) where
    abbrev Kept : (p : Ptr) → Machine World → Type 0
    Kept p = With (message p ∷ hs)

    pub drop_lem :
        (p : Ptr) (s : Machine World)
        → Kept p s
        → Ends (With hs) (ZMsg.drop c (record { zmsg = p; owned = true }) s)
    unfolding ZMsg.drop
    drop_lem p s b = k.taken _ _ _ (message p) b refl refl

    add_lem :
        (p : Ptr) (t : Bytes) (s : Machine World)
        → Kept p s
        → Ends (Kept p) (ZMsg.addstr c (record { zmsg = p; owned = true }) t s)
    unfolding ZMsg.addstr
    add_lem p t s b =
        let q = zmsg_addstr p (c_string_or_empty t) in
        let later = k.quiet _ _ (Event.got_int q (c.int_call q s.world).0) b refl refl in
        elim (Bool-cases (int_eq (c.int_call q s.world).0 minus_one)) [
          | inl e ↦ rw e later
          | inr e ↦ rw e later
        ]

    -- A text is added, or the message is dropped.
    add_or_drop :
        (p : Ptr) (t : Bytes) (s : Machine World)
        → Kept p s
        → Post
            (λ _. Kept p)
            (With hs)
            (or_drop
              (ZMsg.drop c (record { zmsg = p; owned = true }))
              (ZMsg.addstr c (record { zmsg = p; owned = true }) t)
              s)
    add_or_drop p t s b =
        cleaned-Post (λ _. Kept p) (With hs) (Kept p)
          (ZMsg.addstr c (record { zmsg = p; owned = true }) t s)
          (ZMsg.drop c (record { zmsg = p; owned = true })) (add_lem p t s b) (drop_lem p)

    module _ (gives : Gives) where
      send_lem :
          (p : Ptr) (s : Machine World)
          → Kept p s
          → Ends (With hs) (ZActor.send c a (record { zmsg = p; owned = true }) s)
      unfolding ZActor.send
      send_lem p s b =
          let q = zactor_send a.zactor p in
          let later = gives a.zactor p hs s b in
          elim (Bool-cases (int_eq (c.slot_call q s.world).0 minus_one)) [
            | inl e ↦ rw e later
            | inr e ↦ rw e later
          ]

    wait_lem : (s : Machine World) → With hs s → Ends (With hs) (ZActor.sock_wait c a s)
    unfolding ZActor.sock_wait
    wait_lem s b =
        let sock = (c.ptr_call (zactor_sock a.zactor) s.world).0 in
        let w = (c.ptr_call (zactor_sock a.zactor) s.world).1 in
        let rc = (c.int_call (zsock_wait sock) w).0 in
        let later =
          k.quiet _ _ (Event.got_int (zsock_wait sock) rc)
            (k.quiet _ _ (Event.got_ptr (zactor_sock a.zactor) sock) b refl refl) refl refl in
        elim (Bool-cases (int_eq rc minus_one)) [ inl e ↦ rw e later | inr e ↦ rw e later ]

    module _ (gives : Gives) where
      pub send_str_lem :
          (t : Bytes) (s : Machine World) → With hs s → Ends (With hs) (ZActor.send_str c a t s)
      unfolding ZActor.send_str
      send_str_lem t s b =
          let p = (c.ptr_call zmsg_new s.world).0 in
          let made = k.given _ _ (Event.got_ptr zmsg_new p) (message p) b refl refl in
          and_then-Post (λ _. Kept p) (λ _. With hs) (With hs) _ _ (add_or_drop p t _ made)
            (λ _ s' b'. send_lem gives p s' b')

      pub then_wait :
          (m : Io World (Unit {0})) (s : Machine World)
          → Ends (With hs) (m s)
          → Ends (With hs) ((m >> ZActor.sock_wait c a) s)
      then_wait m s h =
          and_then-Post (λ _. With hs) (λ _. With hs) (With hs) (m s) _ h
            (λ _ s' b'. wait_lem s' b')

      pub command_lem :
          (name t : Bytes) (s : Machine World)
          → With hs s
          → Ends (With hs) (ZAuth.command c (record { zactor = a }) name t s)
      unfolding ZAuth.command
      command_lem name t s b =
          let p = (c.ptr_call zmsg_new s.world).0 in
          let made = k.given _ _ (Event.got_ptr zmsg_new p) (message p) b refl refl in
          and_then-Post (λ _. Kept p) (λ _. With hs) (With hs) _ _ (add_or_drop p name _ made)
            (λ _ s1 b1.
              and_then-Post (λ _. Kept p) (λ _. With hs) (With hs) _ _ (add_or_drop p t s1 b1)
                (λ _ s2 b2.
                  then_wait (ZActor.send c a (record { zmsg = p; owned = true })) s2
                    (send_lem gives p s2 b2)))

      add_attrs_lem :
          (p : Ptr) (attrs : List ZMonitorEvents) (s : Machine World)
          → Kept p s
          → Post
              (λ _. Kept p)
              (With hs)
              (ZMonitor.add_attrs c (record { zmsg = p; owned = true }) attrs s)
      unfolding ZMonitor.add_attrs
      add_attrs_lem p [] s b = b
      add_attrs_lem p (e ∷ attrs) s b =
          and_then-Post (λ _. Kept p) (λ _. Kept p) (With hs) _ _ (add_or_drop p (to_str e) s b)
            (λ _ s' b'. add_attrs_lem p attrs s' b')

      pub set_attrs_lem :
          (attrs : List ZMonitorEvents) (s : Machine World)
          → With hs s
          → Ends (With hs) (ZMonitor.set_attrs c (record { zactor = a }) attrs s)
      unfolding ZMonitor.set_attrs
      set_attrs_lem attrs s b =
          let p = (c.ptr_call zmsg_new s.world).0 in
          let made = k.given _ _ (Event.got_ptr zmsg_new p) (message p) b refl refl in
          and_then-Post (λ _. Kept p) (λ _. With hs) (With hs) _ _
            (add_or_drop p (ascii "LISTEN") _ made)
            (λ _ s1 b1.
              and_then-Post (λ _. Kept p) (λ _. With hs) (With hs) _ _ (add_attrs_lem p attrs s1 b1)
                (λ _ s2 b2. send_lem gives p s2 b2))
