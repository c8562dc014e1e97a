-- ===== src/ZAuth/Command.antt =====
-- The message of a command to the authentication actor.
use rust_czmq.Prelude.{
  ◌==◌, ◌≡◌, refl, ◌⊎◌, inl, inr, true, false, [], ◌∷◌, ◌++◌, arith, Bool-cases,
}
use mathlib.Core.List.{append_assoc, append-nil}
use rust_czmq.Rust.Text.{Bytes, has_nul}
use rust_czmq.Ffi.{Ptr, minus_one, int_eq, Czmq, Event, Machine, ◌>>◌}
use rust_czmq.Ffi.Calls.{zmsg_new, zmsg_addstr}
use rust_czmq.Ownership.{releases}
use rust_czmq.ZActor
use rust_czmq.ZAuth.{ZAuth, command}
use rust_czmq.ZMonitor.Attrs.{
  added, after_add, add_ok, add_failed, GivenUp, refused_first, refused_later,
}
use rust_czmq.ZMsg
use rust_czmq.ZMsg.{ZMsg}

module _ (c : Czmq) (a : ZAuth) (name argument : Bytes) (s : Machine c.World) where
  -- The message that the command makes.
  abbrev pub made : Ptr
  made = (c.ptr_call zmsg_new s.world).0

  -- The machine after `zmsg_new`.
  abbrev pub with_message : Machine c.World
  with_message = record {
    world = (c.ptr_call zmsg_new s.world).1;
    trace = Event.got_ptr zmsg_new made ∷ s.trace;
  }

  -- A command whose texts have no NUL gives the actor a message to which the name and the argument
  -- were added, in this order, with nothing released, and waits for the reply; or else
  -- `zmsg_addstr` returned -1 for one of the two, when what stands in front of it was added: then the
  -- command fails, and destroys the message as its last call.
  pub command-message :
      has_nul name ≡ false
      → has_nul argument ≡ false
      → ((s' : Machine c.World) × (command c a name argument s
            ≡ (ZActor.send c a.zactor (record { zmsg = made; owned = true })
                  >> ZActor.sock_wait c a.zactor)
                s')
          × (releases s'.trace ≡ releases s.trace)
          × (added made s'.trace ≡ added made s.trace ++ (name ∷ argument ∷ [])))
        ⊎ GivenUp c made (name ∷ argument ∷ []) with_message (command c a name argument s)
  unfolding command ZMsg.new
  command-message clean clean' =
      let msg : ZMsg = record { zmsg = made; owned = true } in
      let s1 = after_add c made name with_message in
      let same : (made == made) ≡ true = ground arith in
      elim (Bool-cases
        (int_eq (c.int_call (zmsg_addstr made name) with_message.world).0 minus_one)) [
          | inl bad ↦
              let e = add_failed c msg name with_message refl clean bad in
              inr (refused_first c made name (argument ∷ []) with_message _ bad (rw e))
          | inr ok ↦
              let e = add_ok c msg name with_message clean ok in
              elim (Bool-cases
                (int_eq (c.int_call (zmsg_addstr made argument) s1.world).0 minus_one)) [
                  | inl bad ↦
                      let e' = add_failed c msg argument s1 refl clean' bad in
                      let g : GivenUp c made (argument ∷ []) s1 (command c a name argument s) =
                        refused_first c made argument [] s1 _ bad (rw (e, e')) in
                      inr (refused_later c made name (argument ∷ []) with_message _ _ ok g g.run)
                  | inr ok' ↦ inl (
                    after_add c made argument s1,
                    rw (e, add_ok c msg argument s1 clean' ok'),
                    refl,
                    rw (same, ok, ok') (simp (append_assoc, append-nil)),
                  )
                ]
        ]
