-- ===== src/Witnesses/Delivery.antt =====
-- Libraries with a pipe of texts and with a message that is iterated, and runs with them.
use rust_czmq.Prelude.{
  true, zero, length, suc, ℕ, ◌≡◌, ◌≢◌, refl, inr, List, [], ◌∷◌, ◌++◌, map, arith, All,
}
use rust_czmq.Rust.Text.{Bytes, ascii, is_utf8, text}
use rust_czmq.Ffi.{Ptr, null, ℤ, pos, minus_one, PtrCall, IntCall, SlotCall, Czmq, Machine, done}
use rust_czmq.Ffi.Calls.{zmsg_first, zmsg_next, zsock_send, zsock_recv}
use rust_czmq.Ownership.{releases}
use rust_czmq.Ownership.Texts.{IsLeaked, readers, readers-IsLeaked}
use rust_czmq.Witnesses.Toy.{constant}
use rust_czmq.ZCert.{ZCert}
use rust_czmq.ZFrame.{ZFrame}
use rust_czmq.ZMsg.{ZMsg}
use rust_czmq.ZMsg.Iteration.{
  CursorLaws, head_or_null, tail_of, lent, all_collected, collected-order,
}
use rust_czmq.ZSock.{ZSock}
use rust_czmq.ZSock.Delivery.{PipeLaws, arriving, send_all, recv_all, recv_str-send_str}

-- The texts on their way, and the text received last.
abbrev PipeState : Type 0
PipeState = List Bytes × Bytes

abbrev pipe_int_call : IntCall → PipeState → ℤ × PipeState
pipe_int_call (zsock_send z t) (ts, last) = (pos 0, (ts ++ t ∷ [], last))
pipe_int_call _ w = (pos 0, w)

abbrev received : PipeState → ℤ × Ptr × PipeState
received ([], last) = (minus_one, null, ([], last))
received (t ∷ ts, last) = (pos 0, 1, (ts, t))

abbrev pipe_slot_call : SlotCall → PipeState → ℤ × Ptr × PipeState
pipe_slot_call (zsock_recv z p) w = received w
pipe_slot_call _ w = (pos 0, null, w)

abbrev with_pipe : Czmq
with_pipe = record {
  World = PipeState;
  ptr_call = λ q w. (1, w);
  int_call = pipe_int_call;
  size_call = λ q w. (0, w);
  slot_call = pipe_slot_call;
  void_call = λ q w. w;
  pipe_call = λ w. (1, 2, w);
  bytes_at = λ w p n. [];
  text_at = λ w p. w.1;
  beyond = λ w b. [];
  freed_text = λ w b. [];
  state_field = λ w p. 1;
  certs_field = λ w p. 1;
}

zero_code : pos 0 ≢ minus_one
zero_code = ground arith

received_lem :
    (w : PipeState) (t : Bytes) (ts : List Bytes)
    → w.0 ≡ t ∷ ts
    → ((received w).0 ≢ minus_one) × ((received w).2.1 ≡ t) × ((received w).2.0 ≡ ts)
received_lem ([], last) t ts e = ground arith
received_lem (u ∷ us, last) t ts e = (zero_code, ground arith, ground arith)

abbrev pipe_from : ZSock
pipe_from = record { zsock = 7; owned = true }

abbrev pipe_to : ZSock
pipe_to = record { zsock = 8; owned = true }

unfoldable pipe_laws : PipeLaws with_pipe 7 8
unfolding received_lem zero_code
pipe_laws = record {
  queue = λ w. w.0;
  send_call = λ w t. inr (zero_code, refl);
  recv_call = received_lem;
}

abbrev pipe_start : Machine with_pipe.World
pipe_start = record { world = ([], []); trace = [] }

abbrev three_texts : List Bytes
three_texts = ascii "a" ∷ (98 ∷ 0 ∷ []) ∷ ascii "c" ∷ []

recv_str-send_str_example :
    (sent : List Bytes) × (s' s'' : Machine with_pipe.World) × (send_all with_pipe pipe_from
        three_texts pipe_start
      ≡ done sent s')
    × (recv_all with_pipe pipe_to (length sent) s' ≡ done (map text (map arriving sent)) s'')
    × (pipe_laws.queue s''.world ≡ [])
unfolding is_utf8 pipe_laws
recv_str-send_str_example =
    recv_str-send_str with_pipe pipe_from pipe_to pipe_laws three_texts pipe_start
      (refl, (refl, (refl, tt))) refl

-- Two frames; the state is how many the cursor has passed.
abbrev both : List Ptr
both = 1 ∷ 2 ∷ []

abbrev left_at : ℕ → List Ptr
left_at zero = 1 ∷ 2 ∷ []
left_at (suc zero) = 2 ∷ []
left_at (suc (suc n)) = []

abbrev next_at : ℕ → Ptr × ℕ
next_at zero = (1, 1)
next_at (suc zero) = (2, 2)
next_at (suc (suc n)) = (null, suc (suc n))

abbrev cursor_ptr_call : PtrCall → ℕ → Ptr × ℕ
cursor_ptr_call (zmsg_first m) w = (1, 1)
cursor_ptr_call (zmsg_next m) w = next_at w
cursor_ptr_call _ w = (1, w)

abbrev with_cursor : Czmq
with_cursor = record {
  World = ℕ;
  ptr_call = cursor_ptr_call;
  int_call = λ q w. (pos 0, w);
  size_call = λ q w. (2, w);
  slot_call = λ q w. (pos 0, null, w);
  void_call = λ q w. w;
  pipe_call = λ w. (1, 2, w);
  bytes_at = λ w p n. [];
  text_at = λ w p. [];
  beyond = λ w b. [];
  freed_text = λ w b. [];
  state_field = λ w p. 1;
  certs_field = λ w p. 1;
}

both_there : All (λ p. p ≢ null) both
both_there = (ground arith, (ground arith, tt))

left_at_there : (w : ℕ) → All (λ p. p ≢ null) (left_at w)
left_at_there zero = both_there
left_at_there (suc zero) = both_there.1
left_at_there (suc (suc w)) = tt

next_at_lem :
    (w : ℕ)
    → ((next_at w).0 ≡ head_or_null (left_at w))
      × (both ≡ both)
      × (left_at (next_at w).1 ≡ tail_of (left_at w))
next_at_lem zero = (refl, refl, refl)
next_at_lem (suc zero) = (refl, refl, refl)
next_at_lem (suc (suc w)) = (refl, refl, refl)

unfoldable cursor_laws : CursorLaws with_cursor 5
unfolding both_there left_at_there next_at_lem
cursor_laws = record {
  order = λ w. both;
  left = left_at;
  order_there = λ w. both_there;
  left_there = left_at_there;
  first_call = λ w. (refl, refl, refl);
  next_call = next_at_lem;
}

abbrev message : ZMsg
message = record { zmsg = 5; owned = true }

abbrev cursor_start : Machine with_cursor.World
cursor_start = record { world = 2; trace = [] }

collected-order_example :
    (s' : Machine with_cursor.World) × (all_collected with_cursor message 3 cursor_start
      ≡ done (lent 1 ∷ lent 2 ∷ []) s')
    × (cursor_laws.left s'.world ≡ [])
    × (cursor_laws.order s'.world ≡ 1 ∷ 2 ∷ [])
    × (releases s'.trace ≡ [])
unfolding cursor_laws
collected-order_example =
    collected-order with_cursor message cursor_laws 3 cursor_start (omega arith)

abbrev fixed : Czmq
fixed = constant (λ q. 5) (pos 0) null (ascii "t")

abbrev frame : ZFrame
frame = record { zframe = 6; owned = true }

abbrev cert : ZCert
cert = record { zcert = 4; owned = true }

abbrev fixed_start : Machine fixed.World
fixed_start = record { world = 0; trace = [] }

readers-IsLeaked_example :
    All
      (IsLeaked fixed message frame pipe_from fixed_start)
      (readers fixed message frame pipe_from fixed_start)
readers-IsLeaked_example = readers-IsLeaked fixed message frame pipe_from fixed_start
