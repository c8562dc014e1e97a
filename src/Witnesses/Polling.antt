-- ===== src/Witnesses/Polling.antt =====
-- A library with one poller, and a run with it.
use rust_czmq.Prelude.{
  ◌≡◌, ◌≢◌, ◌⊎◌, refl, inl, inr, true, false, none, some, List, [], ◌∷◌, arith, Bool-cases,
  if◌then◌else◌,
}
use rust_czmq.Ffi.{Ptr, null, ℤ, pos, minus_one, PtrCall, IntCall, Czmq, Machine}
use rust_czmq.Ffi.Calls.{zpoller_add, zpoller_remove, zpoller_wait}
use rust_czmq.ZPoller.{ZPoller}
use rust_czmq.ZPoller.Readers.{
  Readers, with_reader, PollerLaws, PollOp, add_one, remove_one, wait_for, Reply, PollsAll,
  exec_all, exec_all-PollsAll,
}
use rust_czmq.ZSock.{ZSock}

-- The sockets that are read; the one with the pointer 7 is always ready.
abbrev poller_int_call : IntCall → Readers → ℤ × Readers
poller_int_call (zpoller_add p z) w = (pos 0, with_reader w z true)
poller_int_call (zpoller_remove p z) w = (pos 0, with_reader w z false)
poller_int_call _ w = (pos 0, w)

abbrev poller_ptr_call : PtrCall → Readers → Ptr × Readers
poller_ptr_call (zpoller_wait p t) w = (if w 7 then 7 else null, w)
poller_ptr_call _ w = (1, w)

abbrev with_poller : Czmq
with_poller = record {
  World = Readers;
  ptr_call = poller_ptr_call;
  int_call = poller_int_call;
  size_call = λ q w. (0, w);
  slot_call = λ q w. (pos 0, null, w);
  void_call = λ q w. w;
  pipe_call = λ w. (1, 2, w);
  bytes_at = λ w p n. [];
  text_at = λ w p. [];
  beyond = λ w b. [];
  freed_text = λ w b. [];
  state_field = λ w p. 1;
  certs_field = λ w p. 1;
}

zero_is_no_error : pos 0 ≢ minus_one
zero_is_no_error = ground arith

seven_is_there : 7 ≢ null
seven_is_there = ground arith

waited :
    (w : Readers)
    → ((if w 7 then 7 else null) ≡ null)
      ⊎ (((if w 7 then 7 else null) ≢ null) × (w (if w 7 then 7 else null) ≡ true))
waited w = elim (Bool-cases (w 7)) [
  | inl e ↦ inr (rw e seven_is_there, rw (e, e))
  | inr e ↦ inl (rw e)
]

unfoldable poller_laws : PollerLaws with_poller 3
unfolding zero_is_no_error waited
poller_laws = record {
  readers = λ w. w;
  add_call = λ w z. inr (zero_is_no_error, refl);
  remove_call = λ w z. inr (zero_is_no_error, refl);
  wait_call = λ w t. (waited w, refl);
}

abbrev poller : ZPoller
poller = record { zpoller = 3 }

abbrev seven : ZSock
seven = record { zsock = 7; owned = true }

abbrev start : Machine with_poller.World
start = record { world = λ z. false; trace = [] }

abbrev ops : List PollOp
ops =
    wait_for (some 10) ∷ add_one seven ∷ wait_for none ∷ remove_one seven ∷ wait_for (some 10) ∷ []

exec_all-PollsAll_example :
    (rs : List Reply) × (s' : Machine with_poller.World) × (exec_all with_poller poller ops start
      ≡ some (rs, s'))
    × PollsAll ops (λ z. false) rs (poller_laws.readers s'.world)
unfolding poller_laws
exec_all-PollsAll_example = exec_all-PollsAll with_poller poller poller_laws ops start
