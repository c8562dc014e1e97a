-- ===== src/Ownership/Keeps.antt =====
-- What a property of the held handles and of the calls so far must satisfy to be kept by every method,
-- and what CZMQ documents of sending.
use rust_czmq.Prelude.{ℕ, ◌≡◌, ◌⊎◌, none, List, ◌∷◌}
use rust_czmq.Ffi.{Ptr, null, Czmq, Event}
use rust_czmq.Ffi.Calls.{zmsg_send, zframe_send}
use rust_czmq.Ownership.{released_by, unless_null}
use rust_czmq.Ownership.Balance.{acquired_by}
use rust_czmq.Ownership.Handles.{Handle, pointer_in}

-- A property of the held handles and the trace that is kept by a call that neither gives nor takes
-- a pointer, by one that gives a pointer which is held from then on, and by one that takes a
-- pointer which is held no more.
pub record Keeps (I : List Handle → List Event → Type 0) : Type 0 where
  pub quiet :
      (hs : List Handle) (es : List Event) (e : Event)
      → I hs es
      → acquired_by e ≡ none
      → released_by e ≡ none
      → I hs (e ∷ es)
  pub given :
      (hs : List Handle) (es : List Event) (e : Event) (h : Handle)
      → I hs es
      → acquired_by e ≡ unless_null (pointer_in h)
      → released_by e ≡ none
      → I (h ∷ hs) (e ∷ es)
  pub taken :
      (hs : List Handle) (es : List Event) (e : Event) (h : Handle)
      → I (h ∷ hs) es
      → acquired_by e ≡ none
      → released_by e ≡ unless_null (pointer_in h)
      → I hs (e ∷ es)

-- What CZMQ documents of sending: what is sent is taken out of its slot, and else it stays there.
pub record SendLaws (c : Czmq) : Type 0 where
  pub message_sent :
      (w : c.World) (p dest : Ptr)
      → ((c.slot_call (zmsg_send p dest) w).1 ≡ null) ⊎ ((c.slot_call (zmsg_send p dest) w).1 ≡ p)
  pub frame_sent :
      (w : c.World) (p dest : Ptr) (flags : ℕ)
      → ((c.slot_call (zframe_send p dest flags) w).1 ≡ null)
        ⊎ ((c.slot_call (zframe_send p dest flags) w).1 ≡ p)
