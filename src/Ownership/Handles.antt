-- ===== src/Ownership/Handles.antt =====
-- The owned handles that a program holds: one of each type of the crate that has a destructor.
use rust_czmq.Prelude.{
  ℕ, zero, suc, ◌+◌, ◌≡◌, arith, Option, none, some, List, [], ◌∷◌, Option-cases, inl, inr,
}
use rust_czmq.Ffi.{Ptr, Machine}
use rust_czmq.Ownership.Balance.{times}

-- An owned handle, by the pointer in it. `ZAuth` and `ZMonitor` hold an actor.
pub data Handle : Type 0 where
  message frame cert socket actor poller hash_table cert_store : Ptr → Handle

abbrev pub pointer_in : Handle → Ptr
pointer_in (message p) = p
pointer_in (frame p) = p
pointer_in (cert p) = p
pointer_in (socket p) = p
pointer_in (actor p) = p
pointer_in (poller p) = p
pointer_in (hash_table p) = p
pointer_in (cert_store p) = p

-- How often a pointer is held.
abbrev pub held_times : Ptr → List Handle → ℕ
held_times q [] = 0
held_times q (h ∷ hs) = times q (some (pointer_in h)) + held_times q hs

pub record Session (W : Type 0) : Type 0 where
  pub held : List Handle
  pub machine : Machine W

-- The handle at a place, and the others.
unfoldable pub taken_at : ℕ → List Handle → Option (Handle × List Handle)
taken_at i [] = none
taken_at zero (h ∷ hs) = some (h, hs)
taken_at (suc i) (h ∷ hs) = elim (taken_at i hs) [
  | none ↦ none
  | some (g, rest) ↦ some (g, h ∷ rest)
]

pub taken_at_lem :
    (i : ℕ) (hs rest : List Handle) (h : Handle) (q : Ptr)
    → taken_at i hs ≡ some (h, rest)
    → held_times q (h ∷ rest) ≡ held_times q hs
unfolding taken_at
taken_at_lem i [] rest h q e = ground arith
taken_at_lem zero (g ∷ hs) rest h q e = ground arith
taken_at_lem (suc i) (g ∷ hs) rest h q e = elim (Option-cases (taken_at i hs)) [
  | inl missing ↦ absurd (ground (arith, rw (taken_at, missing) at e))
  | inr ((h', rest'), there) ↦
      let same = taken_at_lem i hs rest' h' q there in ground (arith, rw (taken_at, there) at e)
]
