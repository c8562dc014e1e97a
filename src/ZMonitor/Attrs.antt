-- ===== src/ZMonitor/Attrs.antt =====
-- The message that `set_attrs` builds and gives to the actor.
use rust_czmq.Prelude.{
  ◌==◌, ◌≡◌, refl, ap, ◌∙◌, ◌⊎◌, inl, inr, true, false, List, [], ◌∷◌, ◌++◌, map, arith, Bool-cases,
  if◌then◌else◌,
}
use mathlib.Core.List.{append_assoc, append-nil}
use rust_czmq.Rust.Text.{Bytes, ascii, has_nul, c_string_or_empty}
use rust_czmq.Ffi.Int.{int_eq_iff}
use rust_czmq.Ffi.{Ptr, ℤ, minus_one, int_eq, Czmq, Event, Machine, Run, done, failed, or_drop}
use rust_czmq.Ffi.Calls.{zmsg_new, zmsg_addstr, zmsg_destroy}
use rust_czmq.Ownership.{releases}
use rust_czmq.ZActor
use rust_czmq.ZActor.{ZActor}
use rust_czmq.ZMsg
use rust_czmq.ZMsg.{ZMsg, non_zero_error}
use rust_czmq.ZMonitor.{ZMonitor, ZMonitorEvents, unknown, to_str, add_attrs, set_attrs}

to_str-has_nul : (e : ZMonitorEvents) → has_nul (to_str e) ≡ false
unfolding to_str has_nul
to_str-has_nul unknown = refl
to_str-has_nul _ = refl

-- The text that a call adds to a message, if it succeeds.
abbrev added_by : Ptr → Event → List Bytes
added_by p (Event.got_int (zmsg_addstr q t) rc) =
    if q == p then if int_eq rc minus_one then [] else t ∷ [] else []
added_by p _ = []

-- The texts that a trace adds to a message, the first one first.
abbrev pub added : Ptr → List Event → List Bytes
added p [] = []
added p (e ∷ es) = added p es ++ added_by p e

module _ (c : Czmq) where
  abbrev pub after_add : Ptr → Bytes → Machine c.World → Machine c.World
  after_add p t s = record {
    world = (c.int_call (zmsg_addstr p t) s.world).1;
    trace = Event.got_int (zmsg_addstr p t) (c.int_call (zmsg_addstr p t) s.world).0 ∷ s.trace;
  }

  -- One `try!(msg.addstr(t))`, on both replies.
  pub add_ok :
      (msg : ZMsg) (t : Bytes) (s : Machine c.World)
      → has_nul t ≡ false
      → int_eq (c.int_call (zmsg_addstr msg.zmsg t) s.world).0 minus_one ≡ false
      → or_drop (ZMsg.drop c msg) (ZMsg.addstr c msg t) s ≡ done tt (after_add msg.zmsg t s)
  unfolding ZMsg.addstr c_string_or_empty
  add_ok msg t s h ok = rw (h, ok)

  abbrev pub after_destroy : Ptr → Machine c.World → Machine c.World
  after_destroy p s = record {
    world = c.void_call (zmsg_destroy p) s.world;
    trace = Event.did (zmsg_destroy p) ∷ s.trace;
  }

  -- How `try!` leaves the functions that build a message of `texts`: those in front of one of them were
  -- added, with nothing released; the call that should add that one returned -1; and the run fails,
  -- its last call being the one that destroys the message.
  pub record GivenUp {A : Type 0} (p : Ptr) (texts : List Bytes) (s : Machine c.World)
      (r : Run c.World A) : Type 0 where
    pub before : List Bytes
    pub refused : Bytes
    pub others : List Bytes
    pub at_call : Machine c.World
    pub split : texts ≡ before ++ refused ∷ others
    pub first_added : added p at_call.trace ≡ added p s.trace ++ before
    pub none_released : releases at_call.trace ≡ releases s.trace
    pub code : (c.int_call (zmsg_addstr p refused) at_call.world).0 ≡ minus_one
    pub run : r ≡ failed non_zero_error (after_destroy p (after_add p refused at_call))

  pub add_failed :
      (msg : ZMsg) (t : Bytes) (s : Machine c.World)
      → msg.owned ≡ true
      → has_nul t ≡ false
      → int_eq (c.int_call (zmsg_addstr msg.zmsg t) s.world).0 minus_one ≡ true
      → or_drop (ZMsg.drop c msg) (ZMsg.addstr c msg t) s
        ≡ failed non_zero_error (after_destroy msg.zmsg (after_add msg.zmsg t s))
  unfolding ZMsg.addstr ZMsg.drop c_string_or_empty
  add_failed msg t s owned h bad = rw (h, bad, owned)

  is_minus_one : (rc : ℤ) → int_eq rc minus_one ≡ true → rc ≡ minus_one
  is_minus_one rc e = (int_eq_iff rc minus_one).0 e

  -- The first text of all is refused.
  pub refused_first :
      {A : Type 0} (p : Ptr) (t : Bytes) (ts : List Bytes) (s : Machine c.World) (r : Run c.World A)
      → int_eq (c.int_call (zmsg_addstr p t) s.world).0 minus_one ≡ true
      → r ≡ failed non_zero_error (after_destroy p (after_add p t s))
      → GivenUp p (t ∷ ts) s r
  refused_first p t ts s r bad e = record {
    before = [];
    refused = t;
    others = ts;
    at_call = s;
    split = refl;
    first_added = rw append-nil;
    none_released = refl;
    code = is_minus_one _ bad;
    run = e;
  }

  -- The first text was added, and a later one is refused.
  pub refused_later :
      {A B : Type 0} (p : Ptr) (t : Bytes) (ts : List Bytes) (s : Machine c.World)
      (r : Run c.World A) (r' : Run c.World B)
      → int_eq (c.int_call (zmsg_addstr p t) s.world).0 minus_one ≡ false
      → (g : GivenUp p ts (after_add p t s) r')
      → r ≡ failed non_zero_error (after_destroy p (after_add p g.refused g.at_call))
      → GivenUp p (t ∷ ts) s r
  refused_later p t ts s r r' ok g e =
      let same : (p == p) ≡ true = ground arith in
      record {
        before = t ∷ g.before;
        refused = g.refused;
        others = g.others;
        at_call = g.at_call;
        split = ap (λ us. t ∷ us) g.split;
        first_added = g.first_added ∙ rw (same, ok, append_assoc);
        none_released = g.none_released;
        code = g.code;
        run = e;
      }

  -- The texts are in the message, and nothing is released.
  abbrev Added : Ptr → List Bytes → Machine c.World → Run c.World (Unit {0}) → Type 0
  Added p ts s r =
      (s' : Machine c.World) × (r ≡ done tt s')
      × (releases s'.trace ≡ releases s.trace)
      × (added p s'.trace ≡ added p s.trace ++ ts)

  add_attrs_lem :
      (msg : ZMsg) (attrs : List ZMonitorEvents) (s : Machine c.World)
      → msg.owned ≡ true
      → Added msg.zmsg (map to_str attrs) s (add_attrs c msg attrs s)
        ⊎ GivenUp msg.zmsg (map to_str attrs) s (add_attrs c msg attrs s)
  unfolding add_attrs
  add_attrs_lem msg [] s owned = inl (s, refl, refl, rw append-nil)
  add_attrs_lem msg (a ∷ attrs) s owned =
      let t = to_str a in
      let s1 = after_add msg.zmsg t s in
      let same : (msg.zmsg == msg.zmsg) ≡ true = ground arith in
      elim (Bool-cases (int_eq (c.int_call (zmsg_addstr msg.zmsg t) s.world).0 minus_one)) [
        | inl bad ↦
            let e = add_failed msg t s owned (to_str-has_nul a) bad in
            inr (refused_first msg.zmsg t (map to_str attrs) s _ bad (rw e))
        | inr ok ↦
            let e = add_ok msg t s (to_str-has_nul a) ok in
            elim (add_attrs_lem msg attrs s1 owned) [
              | inl (s', run, r, texts) ↦
                  inl (s', rw (e, run), r, texts ∙ rw (same, ok, append_assoc))
              | inr g ↦ inr (refused_later msg.zmsg t (map to_str attrs) s _ _ ok g (rw (e, g.run)))
            ]
      ]

  module _ (m : ZMonitor) (attrs : List ZMonitorEvents) (s : Machine c.World) where
    -- The message that `set_attrs` makes.
    abbrev pub made : Ptr
    made = (c.ptr_call zmsg_new s.world).0

    abbrev pub texts : List Bytes
    texts = ascii "LISTEN" ∷ map to_str attrs

    -- The machine after `zmsg_new`.
    abbrev pub with_message : Machine c.World
    with_message = record {
      world = (c.ptr_call zmsg_new s.world).1;
      trace = Event.got_ptr zmsg_new made ∷ s.trace;
    }

    -- `set_attrs` gives the actor a message to which the text LISTEN and the texts of the events were
    -- added, in order, with nothing released; or else `zmsg_addstr` returned -1 for one of these
    -- texts, when those in front of it were added: then `set_attrs` fails, and destroys the
    -- message as its last call.
    pub set_attrs-message :
        ((s' : Machine c.World) × (set_attrs c m attrs s
            ≡ ZActor.send c m.zactor (record { zmsg = made; owned = true }) s')
          × (releases s'.trace ≡ releases s.trace)
          × (added made s'.trace ≡ added made s.trace ++ texts))
        ⊎ GivenUp made texts with_message (set_attrs c m attrs s)
    unfolding set_attrs ZMsg.new
    set_attrs-message =
        let msg : ZMsg = record { zmsg = made; owned = true } in
        let t = ascii "LISTEN" in
        let clean : has_nul t ≡ false = unfold has_nul in refl in
        let s1 = after_add made t with_message in
        let same : (made == made) ≡ true = ground arith in
        elim (Bool-cases
          (int_eq (c.int_call (zmsg_addstr made t) with_message.world).0 minus_one)) [
            | inl bad ↦
                let e = add_failed msg t with_message refl clean bad in
                inr (refused_first made t (map to_str attrs) with_message _ bad (rw e))
            | inr ok ↦
                let e = add_ok msg t with_message clean ok in
                elim (add_attrs_lem msg attrs s1 refl) [
                  | inl (s', run, r, more) ↦
                      inl (s', rw (e, run), r, more ∙ rw (same, ok, append_assoc, append-nil))
                  | inr g ↦ inr (
                      refused_later made t (map to_str attrs) with_message _ _ ok g (rw (e, g.run)))
                ]
          ]
