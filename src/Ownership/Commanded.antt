-- ===== src/Ownership/Commanded.antt =====
-- What the methods that speak to an actor do to a property of what is held and of the calls so far:
-- the message that they make is given to the actor, or destroyed.
use rust_czmq.Prelude.{◌==◌, ◌≡◌, true, refl, inl, inr, Option, none, some, List, ◌∷◌, Bool-cases}
use rust_czmq.Rust.Text.{ascii, Utf8Result, text, raw}
use rust_czmq.Ffi.{Ptr, null, Czmq, Event, Machine, Run, done, failed, panicked, stuck}
use rust_czmq.Ffi.Calls.{zmsg_recv, zmsg_popstr}
use rust_czmq.Ffi.Post.{Ends, and_then-Post, cleaned-Post, map_run-Ends}
use rust_czmq.Ownership.Commands.{Command, commanded}
use rust_czmq.Ownership.Handles.{Handle, message}
use rust_czmq.Ownership.Keeps.{Keeps}
use rust_czmq.Ownership.Makers.{borrowed_actor}
use rust_czmq.Ownership.Speaking.{
  Gives, drop_lem, send_str_lem, then_wait, command_lem, set_attrs_lem,
}
use rust_czmq.ZActor
use rust_czmq.ZActor.{ZActor, zactor_sockish}
use rust_czmq.Ownership.{released_by}
use rust_czmq.Ownership.Session.{end_of}
use rust_czmq.ZMonitor
use rust_czmq.ZMonitor.{ZMonitorEvents, to_str}
use rust_czmq.ZMsg
use rust_czmq.ZMsg.{ZMsg}

module _ (c : Czmq) (I : List Handle → List Event → Type 0) (k : Keeps I) where
  open c use {World}

  abbrev With : List Handle → Machine World → Type 0
  With hs s = I hs s.trace

  -- The property allows that something is given and not held.
  abbrev pub Spares : Type 0
  Spares =
      (hs : List Handle) (es : List Event) (e : Event)
      → I hs es
      → released_by e ≡ none
      → I hs (e ∷ es)

  module _ (hs : List Handle) (a : ZActor) where
    abbrev Kept : (p : Ptr) → Machine World → Type 0
    Kept p = With (message p ∷ hs)

    -- The text that `zmsg_popstr` returns is copied and never freed, so the property must allow that
    -- a pointer is owned and not held.
    module _ (spares : Spares) where
      popped_lem :
          (p : Ptr) (s : Machine World)
          → Kept p s
          → Ends (Kept p) (ZMsg.popstr c (record { zmsg = p; owned = true }) s)
      unfolding ZMsg.popstr
      popped_lem p s b =
          let t = (c.ptr_call (zmsg_popstr p) s.world).0 in
          let later = spares _ _ (Event.got_ptr (zmsg_popstr p) t) b refl in
          elim (Bool-cases (t == null)) [ inl z ↦ rw z later | inr z ↦ rw z later ]

      attr_of_lem :
          (o : Option Utf8Result) (s : Machine World)
          → With hs s
          → Ends (With hs) (ZMonitor.attr_of c o s)
      unfolding ZMonitor.attr_of
      attr_of_lem none s b = b
      attr_of_lem (some (text t)) s b = b
      attr_of_lem (some (raw v)) s b = b

      get_attr_lem :
          (s : Machine World)
          → With hs s
          → Ends (With hs) (ZMonitor.get_attr c (record { zactor = a }) s)
      unfolding ZMonitor.get_attr zactor_sockish
      get_attr_lem s b =
          let p = (c.ptr_call (zmsg_recv a.zactor) s.world).0 in
          let call = Event.got_ptr (zmsg_recv a.zactor) p in
          elim (Bool-cases (p == null)) [
            | inl z ↦ rw z (k.quiet _ _ call b (rw z) refl)
            | inr z ↦
                let made = k.given _ _ call (message p) b refl refl in
                let popped =
                  cleaned-Post (λ _. Kept p) (With hs) (Kept p) _ _ (popped_lem p _ made)
                    (drop_lem c I k hs a p) in
                rw z (
                  and_then-Post (λ _. Kept p) (λ _. With hs) (With hs) _ _ popped
                    (λ o s1 b1. attr_of_lem o _ (drop_lem c I k hs a p s1 b1)))
          ]

  -- What is needed of the property for a command.
  abbrev pub Allowed : Command → Type 0
  Allowed Command.get_attr = Spares
  Allowed _ = Unit

  pub commanded_lem :
      (gives : Gives c I k) (a : Ptr) (cmd : Command) (hs : List Handle) (s : Machine World)
      → Allowed cmd
      → With hs s
      → Ends (With hs) (commanded c a cmd s)
  unfolding commanded
  commanded_lem gives a (Command.send_str t) hs s _ b =
      send_str_lem c I k hs (borrowed_actor c a) gives t s b
  commanded_lem gives a (Command.allow t) hs s _ b =
      command_lem c I k hs (borrowed_actor c a) gives (ascii "ALLOW") t s b
  commanded_lem gives a (Command.deny t) hs s _ b =
      command_lem c I k hs (borrowed_actor c a) gives (ascii "DENY") t s b
  commanded_lem gives a (Command.load_plain t) hs s _ b =
      command_lem c I k hs (borrowed_actor c a) gives (ascii "PLAIN") t s b
  commanded_lem gives a (Command.load_curve none) hs s _ b =
      command_lem c I k hs (borrowed_actor c a) gives (ascii "CURVE") (ascii "*") s b
  commanded_lem gives a (Command.load_curve (some t)) hs s _ b =
      command_lem c I k hs (borrowed_actor c a) gives (ascii "CURVE") t s b
  commanded_lem gives a Command.load_gssapi hs s _ b = b
  commanded_lem gives a Command.verbose_auth hs s _ b =
      then_wait c I k hs (borrowed_actor c a) gives
        (ZActor.send_str c (borrowed_actor c a) (ascii "VERBOSE")) s
        (send_str_lem c I k hs (borrowed_actor c a) gives (ascii "VERBOSE") s b)
  commanded_lem gives a Command.start hs s _ b =
      then_wait c I k hs (borrowed_actor c a) gives
        (ZActor.send_str c (borrowed_actor c a) (ascii "START")) s
        (send_str_lem c I k hs (borrowed_actor c a) gives (ascii "START") s b)
  commanded_lem gives a Command.verbose_monitor hs s _ b =
      send_str_lem c I k hs (borrowed_actor c a) gives (ascii "VERBOSE") s b
  commanded_lem gives a (Command.set_attrs attrs) hs s _ b =
      set_attrs_lem c I k hs (borrowed_actor c a) gives attrs s b
  commanded_lem gives a Command.get_attr hs s spares b =
      map_run-Ends (With hs) (λ _. tt)
        (ZMonitor.get_attr c (record { zactor = borrowed_actor c a }) s)
        (get_attr_lem hs (borrowed_actor c a) spares s b)

  -- The property at the machine that a run leaves.
  pub end_of_lem :
      {A : Type 0} (hs : List Handle) (r : Run World A) (s : Machine World)
      → With hs s
      → Ends (With hs) r
      → With hs (end_of c r s)
  end_of_lem hs (done _ _) s b h = h
  end_of_lem hs (failed _ _) s b h = h
  end_of_lem hs (panicked _) s b h = h
  end_of_lem hs stuck s b h = b
