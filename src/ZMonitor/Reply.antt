-- ===== src/ZMonitor/Reply.antt =====
-- The reply that `get_attr` reads.
use rust_czmq.Prelude.{◌==◌, ◌≡◌, ◌≢◌, false, ◌∷◌, arith}
use rust_czmq.Rust.Text.{from_utf8}
use rust_czmq.Ffi.{Ptr, null, Czmq, Event, Machine, done}
use rust_czmq.Ffi.Calls.{zmsg_recv, zmsg_popstr, zmsg_destroy}
use rust_czmq.Ownership.{releases}
use rust_czmq.ZActor.{zactor_sockish}
use rust_czmq.ZMonitor.{ZMonitor, ZMonitorEvents, event, to_str, get_attr}
use rust_czmq.ZMonitor.Events.{to_str-IsText, from_str-to_str}

module _ (c : Czmq) (m : ZMonitor) (s : Machine c.World) where
  -- The message that `get_attr` receives, and the text popped from it.
  abbrev pub received : Ptr × c.World
  received = c.ptr_call (zmsg_recv m.zactor.zactor) s.world

  abbrev pub text_in : Ptr × c.World
  text_in = c.ptr_call (zmsg_popstr received.0) received.1

  -- If the reply of the actor is not null and holds the text of an event, `get_attr` returns that
  -- event and releases the reply once.
  pub get_attr-to_str :
      (e : ZMonitorEvents)
      → received.0 ≢ null
      → text_in.0 ≢ null
      → c.text_at text_in.1 text_in.0 ≡ to_str e
      → (s' : Machine c.World) × (get_attr c m s ≡ done (event e) s')
        × (releases s'.trace ≡ received.0 ∷ releases s.trace)
  unfolding get_attr from_utf8 zactor_sockish
  get_attr-to_str e there text reads =
      let p : (received.0 == null) ≡ false = ground arith in
      let q : (text_in.0 == null) ≡ false = ground arith in
      let s' : Machine c.World = record {
        world = c.void_call (zmsg_destroy received.0) text_in.1;
        trace =
            Event.did (zmsg_destroy received.0)
            ∷ Event.got_ptr (zmsg_popstr received.0) text_in.0
            ∷ Event.got_ptr (zmsg_recv m.zactor.zactor) received.0
            ∷ s.trace;
      } in
      (s', rw (p, q, reads, to_str-IsText e, from_str-to_str e), rw p)
