-- ===== src/Witnesses/Messages.antt =====
-- Runs with several messages.
use rust_czmq.Prelude.{
  ◌≡◌, refl, inl, inr, true, none, some, List, [], ◌∷◌, arith, bound, bound-some,
}
use rust_czmq.Rust.Text.{ascii}
use rust_czmq.Ffi.{null, pos, Machine, Event}
use rust_czmq.Ffi.Calls.{zmsg_addmsg, zmsg_popmsg}
use rust_czmq.Variables.{Stands, NotIn, assigned}
use rust_czmq.ZMsg.Program.{
  message_handle, MessageOp, make, copy, push, add, pop, count, is_same, nest, unnest, discard,
  Reply, found, DoesAll, run_messages, Vars, Values,
}
use rust_czmq.ZMsg.Store.{Held, Store}
use rust_czmq.ZMsg.{ZMsg}
use rust_czmq.ZMsg.Nested.{popmsg-addmsg}
use rust_czmq.ZMsg.Values.{run_messages-DoesAll}
use rust_czmq.Witnesses.Library.{with_messages, message_laws}
use rust_czmq.Witnesses.Memory.{encoded, decoded_from, Memory, at}

abbrev no_vars : Vars
no_vars x = none

abbrev no_values : Values
no_values x = none

no_messages : (st : Store) → Stands no_vars no_values st
no_messages st = record { known = λ x. inl (refl, refl); apart = λ x y f g e e' same. ground arith }

abbrev start : Machine with_messages.World
start = record { world = ([], []); trace = [] }

-- A message with a text is copied and nested into another one, and found again.
abbrev program : List MessageOp
program =
    make 0
    ∷ add 0 (ascii "b")
    ∷ push 0 (ascii "a")
    ∷ copy 1 0
    ∷ make 2
    ∷ nest 2 0
    ∷ nest 2 2
    ∷ unnest 3 2
    ∷ is_same 1 3
    ∷ pop 3
    ∷ count 3
    ∷ is_same 1 3
    ∷ unnest 3 1
    ∷ discard 3
    ∷ pop 0
    ∷ []

run_messages-DoesAll_example :
    (rs : List Reply) × (env : Vars) × (vs : Values) × (s : Machine with_messages.World)
    × (run_messages with_messages program no_vars start ≡ some (rs, env, s))
    × DoesAll encoded (decoded_from []) program no_values rs vs
    × Stands env vs (at (s.world.0))
unfolding message_laws
run_messages-DoesAll_example =
    run_messages-DoesAll with_messages message_laws program no_vars no_values start
      (no_messages (at []))

-- Two messages, the second with two frames.
abbrev two : Memory
two = some [] ∷ some (ascii "a" ∷ ascii "b" ∷ []) ∷ []

abbrev inner : Held
inner = ascii "a" ∷ ascii "b" ∷ []

abbrev first : ZMsg
first = record { zmsg = 1; owned = true }

abbrev second : ZMsg
second = record { zmsg = 2; owned = true }

abbrev third : ZMsg
third = record { zmsg = 3; owned = true }

abbrev two_vars : Vars
two_vars = bound (bound no_vars 0 (some first)) 1 (some second)

abbrev two_values : Values
two_values = bound (bound no_values 0 (some [])) 1 (some inner)

not_first : NotIn (bound no_vars 0 (some first)) 2
not_first y g e same = elim (bound-some no_vars 0 (some first) y g e) [
  | inl (_, it) ↦ ground arith
  | inr (_, gone) ↦ ground arith
]

not_there : NotIn no_vars 1
not_there y g e same = ground arith

two_messages : Stands two_vars two_values (at two)
two_messages =
    assigned (bound no_vars 0 (some first)) (bound no_values 0 (some [])) (at two)
      (assigned no_vars no_values (at two) (no_messages (at two)) 0 first [] refl refl not_there) 1
      second inner refl refl not_first

abbrev two_there : Machine with_messages.World
two_there = record { world = (two, []); trace = [] }

abbrev two_done : Machine with_messages.World
two_done = record {
  world = (some [] ∷ none ∷ some inner ∷ [], []);
  trace = Event.got_ptr (zmsg_popmsg 1) 3 ∷ Event.got_slot (zmsg_addmsg 1 2) (pos 0) null ∷ [];
}

popmsg-addmsg_example :
    (found true ≡ found true)
    × ((m : ZMsg) × (bound (bound two_vars 1 none) 2 (some third) 2 ≡ some m)
        × (m.owned ≡ true)
        × (at (two_done.world.0) m.zmsg ≡ some inner))
unfolding message_laws run_messages
popmsg-addmsg_example =
    popmsg-addmsg with_messages message_laws 0 1 2 inner (found true) two_vars
      (bound (bound two_vars 1 none) 2 (some third)) two_values two_there two_done two_messages refl
      refl refl
