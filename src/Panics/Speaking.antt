-- ===== src/Panics/Speaking.antt =====
-- Which methods that speak to an actor panic.
use rust_czmq.Prelude.{
  ◌==◌, ◌≡◌, refl, ◌∙◌, Bool, true, false, Option, none, some, List, [], ◌∷◌, Bool-cases, arith,
  inl, inr,
}
use rust_czmq.Rust.Text.{Bytes, ascii, Utf8Result, text, raw, c_string_or_empty}
use rust_czmq.Ffi.{
  Ptr, null, minus_one, int_eq, Czmq, Io, Machine, Run, done, failed, panicked, stuck, and_then,
  cleaned, or_drop, ◌>>◌,
}
use rust_czmq.Ffi.Calls.{
  zmsg_new, zactor_send, zactor_sock, zsock_wait, zmsg_addstr, zmsg_recv, zmsg_popstr,
}
use rust_czmq.Ownership.Commands.{Command, commanded}
use rust_czmq.Ownership.Makers.{borrowed_actor}
use rust_czmq.Panics.Making.{has_panicked, map_run-has_panicked}
use rust_czmq.ZActor
use rust_czmq.ZActor.{ZActor, zactor_sockish}
use rust_czmq.ZAuth
use rust_czmq.ZMonitor
use rust_czmq.ZMonitor.{ZMonitorEvents, to_str}
use rust_czmq.ZMsg
use rust_czmq.ZMsg.{ZMsg}

module _ {W A : Type 0} where
  -- A run that does not panic.
  abbrev IsSafe : Run W A → Type 0
  IsSafe r = has_panicked r ≡ false

module _ {W A B : Type 0} where
  and_then-IsSafe :
      (r : Run W A) (f : A → Io W B)
      → IsSafe r
      → ((a : A) (s : Machine W) → IsSafe (f a s))
      → IsSafe (and_then r f)
  and_then-IsSafe (done a s) f h next = next a s
  and_then-IsSafe (failed e s) f h next = refl
  and_then-IsSafe (panicked s) f h next = h
  and_then-IsSafe stuck f h next = refl

cleaned-IsSafe :
    {W A : Type 0} (r : Run W A) (clean : Io W (Unit {0}))
    → IsSafe r
    → ((s : Machine W) → IsSafe (clean s))
    → IsSafe (cleaned r clean)
cleaned-IsSafe (done a s) clean h dropped = refl
cleaned-IsSafe (failed e s) clean h dropped = and_then-IsSafe (clean s) _ (dropped s) (λ _ _. refl)
cleaned-IsSafe (panicked s) clean h dropped = absurd (ground (arith, h))
cleaned-IsSafe stuck clean h dropped = refl

-- `load_gssapi` is `unimplemented!()`.
abbrev pub command_panics : Command → Bool
command_panics Command.load_gssapi = true
command_panics _ = false

module _ (c : Czmq) where
  open c use {World}

  drop_lem : (m : ZMsg) (s : Machine World) → IsSafe (ZMsg.drop c m s)
  unfolding ZMsg.drop
  drop_lem m s = elim (Bool-cases m.owned) [ inl o ↦ rw o | inr o ↦ rw o ]

  add_or_drop :
      (m : ZMsg) (t : Bytes) (s : Machine World)
      → IsSafe (or_drop (ZMsg.drop c m) (ZMsg.addstr c m t) s)
  unfolding ZMsg.addstr
  add_or_drop m t s =
      let q = zmsg_addstr m.zmsg (c_string_or_empty t) in
      cleaned-IsSafe (ZMsg.addstr c m t s) (ZMsg.drop c m)
        (elim (Bool-cases (int_eq (c.int_call q s.world).0 minus_one)) [
          | inl e ↦ rw e
          | inr e ↦ rw e
        ])
        (drop_lem m)

  module _ (a : ZActor) where
    send_lem : (m : ZMsg) (s : Machine World) → IsSafe (ZActor.send c a m s)
    unfolding ZActor.send
    send_lem m s =
        elim (Bool-cases (int_eq (c.slot_call (zactor_send a.zactor m.zmsg) s.world).0 minus_one)) [
          | inl e ↦ rw e
          | inr e ↦ rw e
        ]

    wait_lem : (s : Machine World) → IsSafe (ZActor.sock_wait c a s)
    unfolding ZActor.sock_wait
    wait_lem s =
        let sock = (c.ptr_call (zactor_sock a.zactor) s.world).0 in
        let w = (c.ptr_call (zactor_sock a.zactor) s.world).1 in
        elim (Bool-cases (int_eq (c.int_call (zsock_wait sock) w).0 minus_one)) [
          | inl e ↦ rw e
          | inr e ↦ rw e
        ]

    then_wait :
        (m : Io World (Unit {0})) (s : Machine World)
        → IsSafe (m s)
        → IsSafe ((m >> ZActor.sock_wait c a) s)
    then_wait m s h = and_then-IsSafe (m s) _ h (λ _ s'. wait_lem s')

    -- The message that a method makes.
    abbrev made : Machine World → ZMsg
    made s = record { zmsg = (c.ptr_call zmsg_new s.world).0; owned = true }

    send_str_lem : (t : Bytes) (s : Machine World) → IsSafe (ZActor.send_str c a t s)
    unfolding ZActor.send_str
    send_str_lem t s = and_then-IsSafe _ _ (add_or_drop (made s) t _) (λ _ s'. send_lem (made s) s')

    command_lem :
        (name t : Bytes) (s : Machine World)
        → IsSafe (ZAuth.command c (record { zactor = a }) name t s)
    unfolding ZAuth.command
    command_lem name t s =
        let m = made s in
        and_then-IsSafe _ _ (add_or_drop m name _) (λ _ s1.
          and_then-IsSafe _ _ (add_or_drop m t s1)
            (λ _ s2. then_wait (ZActor.send c a m) s2 (send_lem m s2)))

    add_attrs_lem :
        (m : ZMsg) (attrs : List ZMonitorEvents) (s : Machine World)
        → IsSafe (ZMonitor.add_attrs c m attrs s)
    unfolding ZMonitor.add_attrs
    add_attrs_lem m [] s = refl
    add_attrs_lem m (e ∷ attrs) s =
        and_then-IsSafe _ _ (add_or_drop m (to_str e) s) (λ _ s'. add_attrs_lem m attrs s')

    set_attrs_lem :
        (attrs : List ZMonitorEvents) (s : Machine World)
        → IsSafe (ZMonitor.set_attrs c (record { zactor = a }) attrs s)
    unfolding ZMonitor.set_attrs
    set_attrs_lem attrs s =
        let m = made s in
        and_then-IsSafe _ _ (add_or_drop m (ascii "LISTEN") _)
          (λ _ s1. and_then-IsSafe _ _ (add_attrs_lem m attrs s1) (λ _ s2. send_lem m s2))

    popped_lem : (m : ZMsg) (s : Machine World) → IsSafe (ZMsg.popstr c m s)
    unfolding ZMsg.popstr
    popped_lem m s = elim (Bool-cases ((c.ptr_call (zmsg_popstr m.zmsg) s.world).0 == null)) [
      | inl z ↦ rw z
      | inr z ↦ rw z
    ]

    attr_of_lem : (o : Option Utf8Result) (s : Machine World) → IsSafe (ZMonitor.attr_of c o s)
    unfolding ZMonitor.attr_of
    attr_of_lem none s = refl
    attr_of_lem (some (text t)) s = refl
    attr_of_lem (some (raw v)) s = refl

    get_attr_lem : (s : Machine World) → IsSafe (ZMonitor.get_attr c (record { zactor = a }) s)
    unfolding ZMonitor.get_attr zactor_sockish
    get_attr_lem s =
        let m : ZMsg = record {
          zmsg = (c.ptr_call (zmsg_recv a.zactor) s.world).0;
          owned = true;
        } in
        elim (Bool-cases (m.zmsg == null)) [
          | inl z ↦ rw z
          | inr z ↦ rw z (
              and_then-IsSafe _ _ (cleaned-IsSafe _ _ (popped_lem m _) (drop_lem m))
                (λ o s'. attr_of_lem o _))
        ]

  pub commanded-has_panicked :
      (p : Ptr) (cmd : Command) (s : Machine World)
      → has_panicked (commanded c p cmd s) ≡ command_panics cmd
  unfolding commanded
  commanded-has_panicked p (Command.send_str t) s = send_str_lem (borrowed_actor c p) t s
  commanded-has_panicked p (Command.allow t) s =
      command_lem (borrowed_actor c p) (ascii "ALLOW") t s
  commanded-has_panicked p (Command.deny t) s = command_lem (borrowed_actor c p) (ascii "DENY") t s
  commanded-has_panicked p (Command.load_plain t) s =
      command_lem (borrowed_actor c p) (ascii "PLAIN") t s
  commanded-has_panicked p (Command.load_curve none) s =
      command_lem (borrowed_actor c p) (ascii "CURVE") (ascii "*") s
  commanded-has_panicked p (Command.load_curve (some t)) s =
      command_lem (borrowed_actor c p) (ascii "CURVE") t s
  commanded-has_panicked p Command.load_gssapi s = refl
  commanded-has_panicked p Command.verbose_auth s =
      let a = borrowed_actor c p in
      then_wait a (ZActor.send_str c a (ascii "VERBOSE")) s (send_str_lem a (ascii "VERBOSE") s)
  commanded-has_panicked p Command.start s =
      let a = borrowed_actor c p in
      then_wait a (ZActor.send_str c a (ascii "START")) s (send_str_lem a (ascii "START") s)
  commanded-has_panicked p Command.verbose_monitor s =
      send_str_lem (borrowed_actor c p) (ascii "VERBOSE") s
  commanded-has_panicked p (Command.set_attrs attrs) s = set_attrs_lem (borrowed_actor c p) attrs s
  commanded-has_panicked p Command.get_attr s =
      map_run-has_panicked (λ _. tt)
        (ZMonitor.get_attr c (record { zactor = borrowed_actor c p }) s)
      ∙ get_attr_lem (borrowed_actor c p) s
