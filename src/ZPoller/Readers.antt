-- ===== src/ZPoller/Readers.antt =====
-- A poller as the set of its sockets, and sequences of its methods.
use rust_czmq.Prelude.{
  ℕ, ◌==◌, ◌≡◌, ◌≢◌, ◌⊎◌, refl, inl, inr, Bool, true, false, Option, none, some, List, [], ◌∷◌,
  arith, if◌then◌else◌,
}
use rust_czmq.Error.{Error, error, non_zero}
use rust_czmq.Error.Causes
use rust_czmq.Error.Causes.{ZPollerError}
use rust_czmq.Ffi.Int.{int_eq_iff}
use rust_czmq.Ffi.{
  Ptr, null, ℤ, minus_one, int_eq, Czmq, Event, Machine, Run, done, failed, panicked, stuck,
}
use rust_czmq.Ffi.Calls.{zpoller_add, zpoller_remove, zpoller_wait}
use rust_czmq.ZPoller.{ZPoller, add, remove, wait, timeout_c}
use rust_czmq.ZSock.{ZSock, zsock_sockish}

-- Which sockets a poller reads.
abbrev pub Readers : Type 0
Readers = Ptr → Bool

abbrev pub with_reader : Readers → Ptr → Bool → Readers
with_reader rs z b = λ y. if y == z then b else rs y

-- A call that fails changes nothing, and `zpoller_wait` returns NULL or one of the sockets.
pub record PollerLaws (c : Czmq) (p : Ptr) : Type 0 where
  pub readers : c.World → Readers
  pub add_call :
      (w : c.World) (z : Ptr)
      → (((c.int_call (zpoller_add p z) w).0 ≡ minus_one)
          × (readers (c.int_call (zpoller_add p z) w).1 ≡ readers w))
        ⊎ (((c.int_call (zpoller_add p z) w).0 ≢ minus_one)
            × (readers (c.int_call (zpoller_add p z) w).1 ≡ with_reader (readers w) z true))
  pub remove_call :
      (w : c.World) (z : Ptr)
      → (((c.int_call (zpoller_remove p z) w).0 ≡ minus_one)
          × (readers (c.int_call (zpoller_remove p z) w).1 ≡ readers w))
        ⊎ (((c.int_call (zpoller_remove p z) w).0 ≢ minus_one)
            × (readers (c.int_call (zpoller_remove p z) w).1 ≡ with_reader (readers w) z false))
  pub wait_call :
      (w : c.World) (t : ℤ)
      → (((c.ptr_call (zpoller_wait p t) w).0 ≡ null)
          ⊎ (((c.ptr_call (zpoller_wait p t) w).0 ≢ null)
              × (readers w (c.ptr_call (zpoller_wait p t) w).0 ≡ true)))
        × (readers (c.ptr_call (zpoller_wait p t) w).1 ≡ readers w)

pub data PollOp : Type 0 where
  add_one remove_one : ZSock → PollOp
  wait_for : Option ℕ → PollOp

pub data Reply : Type 0 where
  returned : Reply
  refused : Error → Reply
  ready : Option ZSock → Reply

abbrev poller_error : Error
poller_error = error non_zero (Causes.zpoller ZPollerError.cmd_failed)

-- One method on the set: the reply, and the set behind it.
pub data Polls : PollOp → Readers → Reply → Readers → Type 0 where
  adds : (z : ZSock) (rs : Readers) → Polls (add_one z) rs returned (with_reader rs z.zsock true)
  refuses_to_add : (z : ZSock) (rs : Readers) → Polls (add_one z) rs (refused poller_error) rs
  removes :
      (z : ZSock) (rs : Readers) → Polls (remove_one z) rs returned (with_reader rs z.zsock false)
  refuses_to_remove : (z : ZSock) (rs : Readers) → Polls (remove_one z) rs (refused poller_error) rs
  finds :
      (t : Option ℕ) (rs : Readers) (z : ZSock)
      → rs z.zsock ≡ true
      → z.owned ≡ false
      → Polls (wait_for t) rs (ready (some z)) rs
  finds_none : (t : Option ℕ) (rs : Readers) → Polls (wait_for t) rs (ready none) rs

pub data PollsAll : List PollOp → Readers → List Reply → Readers → Type 0 where
  finished : (rs : Readers) → PollsAll [] rs [] rs
  then_polls :
      {op : PollOp} {ops : List PollOp} {rs qs ps : Readers} {r : Reply} {replies : List Reply}
      → Polls op rs r qs
      → PollsAll ops qs replies ps
      → PollsAll (op ∷ ops) rs (r ∷ replies) ps

abbrev caught : {W A : Type 0} → (A → Reply) → Run W A → Option (Reply × Machine W)
caught f (done a s) = some (f a, s)
caught f (failed e s) = some (refused e, s)
caught f (panicked s) = none
caught f stuck = none

module _ (c : Czmq) (p : ZPoller) where
  unfoldable pub exec : PollOp → Machine c.World → Option (Reply × Machine c.World)
  unfolding add remove wait
  exec (add_one z) s = caught (λ _. returned) (add c ⦃k = zsock_sockish c⦄ p z s)
  exec (remove_one z) s = caught (λ _. returned) (remove c ⦃k = zsock_sockish c⦄ p z s)
  exec (wait_for t) s = caught ready (wait c ⦃k = zsock_sockish c⦄ p t s)

  -- One method after the other; `none` is a panic.
  unfoldable pub exec_all : List PollOp → Machine c.World → Option (List Reply × Machine c.World)
  unfolding exec
  exec_all [] s = some ([], s)
  exec_all (op ∷ ops) s = elim (exec op s) [
    | none ↦ none
    | some (r, s') ↦ elim (exec_all ops s') [ none ↦ none | some (rs, s'') ↦ some (r ∷ rs, s'') ]
  ]

  module _ (laws : PollerLaws c p.zpoller) where
    open laws use {readers}

    abbrev Right : PollOp → Machine c.World → Type 0
    Right op s =
        (r : Reply) × (s' : Machine c.World) × (exec op s ≡ some (r, s'))
        × Polls op (readers s.world) r (readers s'.world)

    abbrev after : Event → c.World → Machine c.World → Machine c.World
    after e w s = record { world = w; trace = e ∷ s.trace }

    exec_lem : (op : PollOp) (s : Machine c.World) → Right op s
    unfolding exec zsock_sockish
    exec_lem (add_one z) s =
        let q = zpoller_add p.zpoller z.zsock in
        let code = (c.int_call q s.world).0 in
        let s' = after (Event.got_int q code) (c.int_call q s.world).1 s in
        elim (laws.add_call s.world z.zsock) [
          | inl (bad, same) ↦
              let e : int_eq code minus_one ≡ true = rw bad in
              (refused poller_error, s', rw e, rw same (refuses_to_add z (readers s.world)))
          | inr (good, more) ↦
              let e : int_eq code minus_one ≡ false = ground (arith, int_eq_iff code minus_one) in
              (returned, s', rw e, rw more (adds z (readers s.world)))
        ]
    exec_lem (remove_one z) s =
        let q = zpoller_remove p.zpoller z.zsock in
        let code = (c.int_call q s.world).0 in
        let s' = after (Event.got_int q code) (c.int_call q s.world).1 s in
        elim (laws.remove_call s.world z.zsock) [
          | inl (bad, same) ↦
              let e : int_eq code minus_one ≡ true = rw bad in
              (refused poller_error, s', rw e, rw same (refuses_to_remove z (readers s.world)))
          | inr (good, more) ↦
              let e : int_eq code minus_one ≡ false = ground (arith, int_eq_iff code minus_one) in
              (returned, s', rw e, rw more (removes z (readers s.world)))
        ]
    exec_lem (wait_for t) s =
        let q = zpoller_wait p.zpoller (timeout_c t) in
        let z = (c.ptr_call q s.world).0 in
        let s' = after (Event.got_ptr q z) (c.ptr_call q s.world).1 s in
        let (reply, same) = laws.wait_call s.world (timeout_c t) in
        elim reply [
          | inl nothing ↦
              let e : (z == null) ≡ true = ground arith in
              (ready none, s', rw e, rw same (finds_none t (readers s.world)))
          | inr (there, found) ↦
              let e : (z == null) ≡ false = ground arith in
              let sock : ZSock = record { zsock = z; owned = false } in
              (ready (some sock), s', rw e, rw same (finds t (readers s.world) sock found refl))
        ]

    -- By the laws of the library, any sequence of calls of `add`, `remove` and `wait` runs to its end
    -- without a panic and does what these operations do on the set of sockets: `add` and `remove`
    -- change it or refuse and change nothing, and `wait` returns nothing or one of its sockets, not
    -- owned.
    pub exec_all-PollsAll :
        (ops : List PollOp) (s : Machine c.World)
        → (rs : List Reply) × (s' : Machine c.World) × (exec_all ops s ≡ some (rs, s'))
          × PollsAll ops (readers s.world) rs (readers s'.world)
    unfolding exec_all
    exec_all-PollsAll [] s = ([], s, refl, finished (readers s.world))
    exec_all-PollsAll (op ∷ ops) s =
        let (r, s1, e, polls) = exec_lem op s in
        let (rs, s2, e', rest) = exec_all-PollsAll ops s1 in
        (r ∷ rs, s2, rw (e, exec_all, e'), then_polls polls rest)
