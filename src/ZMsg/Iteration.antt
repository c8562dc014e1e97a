-- ===== src/ZMsg/Iteration.antt =====
-- The frames of a message, one after the other: `first`, and then the iterator until it ends.
use rust_czmq.Prelude.{
  ℕ, zero, suc, ◌==◌, ◌<◌, ◌≡◌, ◌≢◌, refl, ap, ◌∙◌, false, Option, none, some, List, [], ◌∷◌, map,
  arith, length, All,
}
use rust_czmq.Ffi.{
  Ptr, null, Czmq, Event, Io, Machine, PtrCall, Run, done, pure, out_of_fuel, ◌>>=◌,
}
use rust_czmq.Ffi.Calls.{zmsg_first, zmsg_next}
use rust_czmq.Ownership.{releases}
use rust_czmq.ZFrame.{ZFrame}
use rust_czmq.ZMsg.{ZMsg, first, iterator_next}

abbrev pub head_or_null : List Ptr → Ptr
head_or_null [] = null
head_or_null (p ∷ ps) = p

abbrev pub tail_of : List Ptr → List Ptr
tail_of [] = []
tail_of (p ∷ ps) = ps

-- The pointers of the frames in their order, and those behind the cursor, none of them NULL.
-- `zmsg_first` puts the cursor behind the first frame, and `zmsg_next` one frame on.
pub record CursorLaws (c : Czmq) (m : Ptr) : Type 0 where
  pub order : c.World → List Ptr
  pub left : c.World → List Ptr
  pub order_there : (w : c.World) → All (λ p. p ≢ null) (order w)
  pub left_there : (w : c.World) → All (λ p. p ≢ null) (left w)
  pub first_call :
      (w : c.World)
      → ((c.ptr_call (zmsg_first m) w).0 ≡ head_or_null (order w))
        × (order (c.ptr_call (zmsg_first m) w).1 ≡ order w)
        × (left (c.ptr_call (zmsg_first m) w).1 ≡ tail_of (order w))
  pub next_call :
      (w : c.World)
      → ((c.ptr_call (zmsg_next m) w).0 ≡ head_or_null (left w))
        × (order (c.ptr_call (zmsg_next m) w).1 ≡ order w)
        × (left (c.ptr_call (zmsg_next m) w).1 ≡ tail_of (left w))

abbrev pub lent : Ptr → ZFrame
lent p = record { zframe = p; owned = false }

module _ (c : Czmq) (m : ZMsg) where
  open c use {World}

  -- After a frame, the others; after `None`, nothing.
  unfoldable pub followed_by : Option ZFrame → Io World (List ZFrame) → Io World (List ZFrame)
  followed_by none rest = pure []
  followed_by (some f) rest = do fs ← rest; pure (f ∷ fs)

  -- `collect` on the iterator: the frames that it returns before `None`.
  unfoldable pub collected : ℕ → Io World (List ZFrame)
  unfolding followed_by iterator_next
  collected zero = out_of_fuel
  collected (suc fuel) = do frame ← iterator_next c m; followed_by frame (collected fuel)

  -- From the first frame on.
  unfoldable pub all_collected : ℕ → Io World (List ZFrame)
  unfolding followed_by collected first
  all_collected fuel = do frame ← first c m; followed_by frame (collected fuel)

  module _ (laws : CursorLaws c m.zmsg) where
    open laws use {order, left}

    abbrev after : PtrCall → Machine World → Machine World
    after q s = record {
      world = (c.ptr_call q s.world).1;
      trace = Event.got_ptr q (c.ptr_call q s.world).0 ∷ s.trace;
    }

    -- The frames at these pointers, each lent, were returned and nothing was released.
    abbrev Collected : List Ptr → Machine World → Run World (List ZFrame) → Type 0
    Collected ps s r =
        (s' : Machine World) × (r ≡ done (map lent ps) s')
        × (left s'.world ≡ [])
        × (order s'.world ≡ order s.world)
        × (releases s'.trace ≡ releases s.trace)

    collected_lem :
        (fuel : ℕ) (ps : List Ptr) (s : Machine World)
        → left s.world ≡ ps
        → length ps < fuel
        → Collected ps s (collected fuel s)
    unfolding collected
    collected_lem zero ps s e h = ground arith
    collected_lem (suc fuel) [] s e h =
        let (reply, same, rest) = laws.next_call s.world in
        let none_left : (c.ptr_call (zmsg_next m.zmsg) s.world).0 ≡ null = reply ∙ rw e in
        (after (zmsg_next m.zmsg) s, rw none_left, rest ∙ rw e, same, refl)
    collected_lem (suc fuel) (p ∷ ps) s e h =
        let (reply, same, rest) = laws.next_call s.world in
        let there : p ≢ null = (rw e at (laws.left_there s.world)).0 in
        let found : (c.ptr_call (zmsg_next m.zmsg) s.world).0 ≡ p = reply ∙ rw e in
        let not_null : ((c.ptr_call (zmsg_next m.zmsg) s.world).0 == null) ≡ false = ground arith in
        let (s', run, l, o, r) =
          collected_lem fuel ps (after (zmsg_next m.zmsg) s) (rest ∙ rw e) (omega (arith, h)) in
        (s', rw (not_null, run) (ap (λ x. done (lent x ∷ map lent ps) s') found), l, o ∙ same, r)

    all_lem :
        (fuel : ℕ) (ps : List Ptr) (s : Machine World)
        → order s.world ≡ ps
        → length ps < fuel
        → Collected ps s (all_collected fuel s)
    unfolding all_collected
    all_lem fuel [] s e h =
        let (reply, same, rest) = laws.first_call s.world in
        let none_left : (c.ptr_call (zmsg_first m.zmsg) s.world).0 ≡ null = reply ∙ rw e in
        (after (zmsg_first m.zmsg) s, rw none_left, rest ∙ rw e, same, refl)
    all_lem fuel (p ∷ ps) s e h =
        let (reply, same, rest) = laws.first_call s.world in
        let there : p ≢ null = (rw e at (laws.order_there s.world)).0 in
        let found : (c.ptr_call (zmsg_first m.zmsg) s.world).0 ≡ p = reply ∙ rw e in
        let not_null : ((c.ptr_call (zmsg_first m.zmsg) s.world).0 == null) ≡ false =
          ground arith in
        let (s', run, l, o, r) =
          collected_lem fuel ps (after (zmsg_first m.zmsg) s) (rest ∙ rw e) (omega (arith, h)) in
        (s', rw (not_null, run) (ap (λ x. done (lent x ∷ map lent ps) s') found), l, o ∙ same, r)

    -- With more fuel than there are frames, iterating a message from `first` on ends, returns each
    -- frame once, in their order and not owned, and neither changes the message nor releases anything.
    pub collected-order :
        (fuel : ℕ) (s : Machine World)
        → length (order s.world) < fuel
        → (s' : Machine World) × (all_collected fuel s ≡ done (map lent (order s.world)) s')
          × (left s'.world ≡ [])
          × (order s'.world ≡ order s.world)
          × (releases s'.trace ≡ releases s.trace)
    collected-order fuel s h = all_lem fuel (order s.world) s refl h
