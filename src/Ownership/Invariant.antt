-- ===== src/Ownership/Invariant.antt =====
-- What the crate holds is what it has to release.
use rust_czmq.Prelude.{◌≤◌, ◌==◌, ◌≡◌, ◌≢◌, none, some, List, ◌∷◌, arith, Bool-cases, inl, inr}
use rust_czmq.Ffi.{Ptr, null, Event}
use rust_czmq.Ownership.{unless_null, released_by}
use rust_czmq.Ownership.Balance.{acquired_by, times, balance, IsSound}
use rust_czmq.Ownership.Keeps.{Keeps}
use rust_czmq.Ownership.Handles.{Handle, pointer_in, held_times}

-- Nothing was released that was not owned, and every pointer is held at most as often as it is
-- owned.
pub record IsBacked (hs : List Handle) (es : List Event) : Type 0 where
  pub sound : IsSound es
  pub backed : (q : Ptr) → q ≢ null → held_times q hs ≤ balance es q

pub times-unless_null : (q p : Ptr) → q ≢ null → times q (unless_null p) ≡ times q (some p)
times-unless_null q p h = ground arith

times-null : (p : Ptr) → times null (unless_null p) ≡ 0
times-null p = ground arith

module _ {hs : List Handle} {es : List Event} where
  -- A call that neither gives nor takes.
  pub quiet-IsBacked :
      {e : Event}
      → IsBacked hs es
      → acquired_by e ≡ none
      → released_by e ≡ none
      → IsBacked hs (e ∷ es)
  quiet-IsBacked {e} b a r = record {
    sound = (λ q. rw r (omega arith), b.sound);
    backed = λ q h. rw (a, r) (omega (arith, b.backed q h));
  }

  -- A call that gives a pointer, which is then held.
  pub given-IsBacked :
      {e : Event} (h : Handle)
      → IsBacked hs es
      → acquired_by e ≡ unless_null (pointer_in h)
      → released_by e ≡ none
      → IsBacked (h ∷ hs) (e ∷ es)
  given-IsBacked {e} h b a r = record {
    sound = (λ q. rw r (omega arith), b.sound);
    backed = λ q n. rw (a, r, times-unless_null q (pointer_in h) n) (omega (arith, b.backed q n));
  }

  -- A call that takes a held pointer.
  pub taken-IsBacked :
      {e : Event} (h : Handle)
      → IsBacked (h ∷ hs) es
      → acquired_by e ≡ none
      → released_by e ≡ unless_null (pointer_in h)
      → IsBacked hs (e ∷ es)
  taken-IsBacked {e} h b a r = record {
    sound = (λ q. rw r (enough q), b.sound);
    backed = λ q n. rw (a, r, times-unless_null q (pointer_in h) n) (omega (arith, b.backed q n));
  }
    where
      enough : (q : Ptr) → times q (unless_null (pointer_in h)) ≤ balance es q
      enough q = elim (Bool-cases (q == null)) [
        | inl z ↦ ground arith
        | inr z ↦
            let n : q ≢ null = ground arith in
            rw (times-unless_null q (pointer_in h) n) (omega (arith, b.backed q n))
      ]

  -- A handle that is given up while nothing is released.
  pub forgotten-IsBacked : (h : Handle) → IsBacked (h ∷ hs) es → IsBacked hs es
  forgotten-IsBacked h b = record { sound = b.sound; backed = λ q n. omega (arith, b.backed q n) }

-- A call that gives a pointer which is not held, or gives none.
pub spare-IsBacked :
    (hs : List Handle) (es : List Event) (e : Event)
    → IsBacked hs es
    → released_by e ≡ none
    → IsBacked hs (e ∷ es)
spare-IsBacked hs es e b r = record {
  sound = (λ q. rw r (omega arith), b.sound);
  backed = λ q h. rw r (omega (arith, b.backed q h));
}

pub backed_keeps : Keeps IsBacked
backed_keeps = record {
  quiet = λ hs es e b a r. quiet-IsBacked b a r;
  given = λ hs es e h b a r. given-IsBacked h b a r;
  taken = λ hs es e h b a r. taken-IsBacked h b a r;
}
