-- ===== src/Witnesses/Sequences.antt =====
-- Sequences of calls at concrete inputs.
use rust_czmq.Prelude.{◌≡◌, refl, true, false, none, some, List, [], ◌∷◌, arith, inl, length}
use rust_czmq.Rust.Text.{
  Bytes, ascii, is_utf8, has_nul, text, from_utf8, until_nul, c_string_or_empty,
}
use rust_czmq.Ffi.{null, pos, Czmq, Machine, result_of}
use rust_czmq.Ownership.Balance.{IsSound}
use rust_czmq.Ownership.Keeps.{SendLaws}
use rust_czmq.Ownership.Invariant.{IsBacked}
use rust_czmq.Ownership.Leaks.{drop_first}
use rust_czmq.Ownership.Lent.{first-send, after_first}
use rust_czmq.Ownership.Handles.{Session}
use rust_czmq.Ownership.Makers.{Maker}
use rust_czmq.Ownership.Users.{User}
use rust_czmq.Ownership.Commands.{Command}
use rust_czmq.Ownership.Session.{Op, steps, end_of}
use rust_czmq.Ownership.Steps.{steps-IsBacked}
use rust_czmq.Witnesses.Containers.{with_msg, with_msg_laws, with_table, with_table_laws}
use rust_czmq.Witnesses.Toy.{constant}
use rust_czmq.ZFrame
use rust_czmq.ZFrame.{ZFrame}
use rust_czmq.ZHashX.{ZHashX}
use rust_czmq.ZHashX.Map
use rust_czmq.ZHashX.Map.{insert_item, update_item, delete_item, look_up, replay}
use rust_czmq.ZHashX.Refinement.{exec_all-replay}
use rust_czmq.ZMonitor.{all}
use rust_czmq.ZMsg
use rust_czmq.ZMsg.{ZMsg}
use rust_czmq.ZMsg.Frames.{
  MsgOp, Reply, push_str, add_bytes, pop_str, pop_bytes, count, text_popped,
}
use rust_czmq.ZMsg.Queue.{popstr-addstr, popped_all}
use rust_czmq.ZMsg.Refinement.{exec_all, exec_all-DoesAll, DoesAll}
use rust_czmq.ZSock.{ZSock, zsock_sockish}

abbrev message : ZMsg
message = record { zmsg = 1; owned = true }

abbrev msg_start : Machine with_msg.World
msg_start = record { world = ([], []); trace = [] }

abbrev msg_ops : List MsgOp
msg_ops =
    add_bytes (1 ∷ 0 ∷ 255 ∷ [])
    ∷ push_str (ascii "hello")
    ∷ pop_str
    ∷ count
    ∷ pop_bytes
    ∷ pop_bytes
    ∷ []

exec_all-DoesAll_example :
    (rs : List Reply) × (s' : Machine with_msg.World) × (exec_all with_msg message msg_ops msg_start
      ≡ some (rs, s'))
    × DoesAll msg_ops [] rs (with_msg_laws.frames s'.world)
unfolding with_msg_laws
exec_all-DoesAll_example = exec_all-DoesAll with_msg message with_msg_laws msg_ops msg_start

abbrev two_texts : List Bytes
two_texts = ascii "a" ∷ ascii "b" ∷ []

abbrev queue_ops : List MsgOp
queue_ops = MsgOp.add_str (ascii "a") ∷ MsgOp.add_str (ascii "b") ∷ pop_str ∷ pop_str ∷ []

abbrev queue_end : Machine with_msg.World
unfolding exec_all
queue_end = elim (exec_all with_msg message queue_ops msg_start) [
  | none ↦ msg_start
  | some (_, s) ↦ s
]

popstr-addstr_example :
    (popped_all two_texts
      ≡ text_popped (some (text (ascii "a"))) ∷ text_popped (some (text (ascii "b"))) ∷ [])
    × (with_msg_laws.frames queue_end.world ≡ [])
unfolding with_msg_laws exec_all is_utf8 has_nul from_utf8 until_nul c_string_or_empty
popstr-addstr_example =
    popstr-addstr with_msg message with_msg_laws two_texts (popped_all two_texts) msg_start
      queue_end ((refl, refl), ((refl, refl), tt)) refl refl

abbrev hash_table : ZHashX
hash_table = record { zhashx = 8; owned = true }

abbrev table_start : Machine with_table.World
table_start = record { world = λ k. none; trace = [] }

-- A key is inserted, inserted again, replaced, looked up, deleted and looked up again; and then
-- keys with a NUL are inserted and updated, and the empty key is looked up.
abbrev table_ops : List Map.TableOp
table_ops =
    insert_item (ascii "k") 3
    ∷ insert_item (ascii "k") 4
    ∷ update_item (ascii "k") 5
    ∷ look_up (ascii "k")
    ∷ delete_item (ascii "k")
    ∷ look_up (ascii "k")
    ∷ insert_item (97 ∷ 0 ∷ []) 6
    ∷ update_item (97 ∷ 0 ∷ []) 7
    ∷ look_up []
    ∷ []

exec_all-replay_example :
    (s' : Machine with_table.World) × (Map.exec_all with_table hash_table table_ops table_start
      ≡ some ((replay table_ops (λ k. none)).0, s'))
    × (with_table_laws.table s'.world ≡ (replay table_ops (λ k. none)).1)
unfolding with_table_laws
exec_all-replay_example =
    exec_all-replay with_table hash_table with_table_laws table_ops table_start

-- A library in which sending takes what is sent.
abbrev taking : Czmq
taking = constant (λ q. 5) (pos 0) null []

taking_laws : SendLaws taking
taking_laws = record {
  message_sent = λ w p dest. inl refl;
  frame_sent = λ w p dest flags. inl refl;
}

abbrev out : ZSock
out = record { zsock = 7; owned = true }

abbrev nothing_held : Session taking.World
nothing_held = record { held = []; machine = record { world = 0; trace = [] } }

-- A message is made, a frame is popped and appended to it, bytes are put in front of it, another
-- frame is sent, and the message is unwrapped; then a socket and an actor are made, the actor is given
-- a command and asked for a reply, and another actor is made with a store, and unwrapped.
abbrev backed_ops : List Op
backed_ops =
    Op.make Maker.new_message
    ∷ Op.make (Maker.pop_frame 5)
    ∷ Op.consume 0 (User.append_to 5)
    ∷ Op.push_bytes 5 (1 ∷ 2 ∷ [])
    ∷ Op.make (Maker.new_frame (1 ∷ []))
    ∷ Op.consume 0 (User.send_it out none)
    ∷ Op.consume 0 User.into_raw_it
    ∷ Op.make (Maker.new_pub (ascii "inproc://a"))
    ∷ Op.make Maker.new_auth
    ∷ Op.command 5 (Command.allow (ascii "127.0.0.1"))
    ∷ Op.command 5 Command.get_attr
    ∷ Op.make (Maker.new_store none)
    ∷ Op.new_auth_with 0
    ∷ Op.consume 0 User.into_raw_it
    ∷ []

steps-IsBacked_example :
    IsBacked
      (steps taking backed_ops nothing_held).held
      (steps taking backed_ops nothing_held).machine.trace
steps-IsBacked_example =
    steps-IsBacked taking taking_laws backed_ops nothing_held
      (record { sound = tt; backed = λ q n. omega arith })

-- Two frames and two messages are made; one of each is sent, and one message dropped;
-- a certificate is given to a store, and a monitor is made and set up.
abbrev careful_ops : List Op
careful_ops =
    Op.make Maker.new_message
    ∷ Op.make (Maker.recv_message out)
    ∷ Op.make (Maker.encode_message 5)
    ∷ Op.make (Maker.dup_frame 5)
    ∷ Op.consume 1 (User.send_it out (some 2))
    ∷ Op.pop_bytes 5
    ∷ Op.consume 2 (User.send_it out none)
    ∷ Op.consume 1 User.drop_it
    ∷ Op.make (Maker.new_store none)
    ∷ Op.make Maker.new_cert
    ∷ Op.consume 0 (User.insert_into 5)
    ∷ Op.make (Maker.new_monitor out)
    ∷ Op.command 5 (Command.set_attrs (all ∷ []))
    ∷ []

abbrev ended_session : Session taking.World
ended_session =
    steps taking (drop_first (length (steps taking careful_ops nothing_held).held))
      (steps taking careful_ops nothing_held)

first-send_example :
    (f : ZFrame) × (result_of (ZMsg.first taking message nothing_held.machine) ≡ some (some f))
    × (f.owned ≡ false)
    × ¬ IsSound
        (end_of taking
          (ZFrame.send taking ⦃k = zsock_sockish taking⦄ f out none
            (after_first taking message out nothing_held.machine))
          (after_first taking message out nothing_held.machine)).trace
first-send_example = first-send taking message out nothing_held.machine (ground arith) refl refl
