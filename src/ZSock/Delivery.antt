-- ===== src/ZSock/Delivery.antt =====
-- Texts that are sent on one socket and received on another: `send_str` and `recv_str`.
use rust_czmq.Prelude.{
  ℕ, zero, suc, ◌≡◌, ◌≢◌, ◌⊎◌, refl, ap, ◌∙◌, true, false, inl, inr, List, [], ◌∷◌, ◌++◌, map,
  arith, length, All, Bool-cases, if◌then◌else◌,
}
use mathlib.Core.List.{append_assoc, append-nil}
use rust_czmq.Rust.Text.{
  Bytes, Utf8Result, text, from_utf8, has_nul, is_utf8, c_string_or_empty, IsText,
}
use rust_czmq.Ffi.Int.{int_eq_iff}
use rust_czmq.Ffi.{
  Ptr, null, minus_one, int_eq, Czmq, Event, Io, Machine, Run, done, failed, panicked, stuck, pure,
  ◌>>=◌,
}
use rust_czmq.Ffi.Calls.{zsock_send, zsock_recv}
use rust_czmq.ZSock.{ZSock, send_str, recv_str}

-- The texts on their way, the oldest first: a call that fails sends nothing, and what was sent first is
-- received first.
pub record PipeLaws (c : Czmq) (from to : Ptr) : Type 0 where
  pub queue : c.World → List Bytes
  pub send_call :
      (w : c.World) (t : Bytes)
      → (((c.int_call (zsock_send from t) w).0 ≡ minus_one)
          × (queue (c.int_call (zsock_send from t) w).1 ≡ queue w))
        ⊎ (((c.int_call (zsock_send from t) w).0 ≢ minus_one)
            × (queue (c.int_call (zsock_send from t) w).1 ≡ queue w ++ t ∷ []))
  pub recv_call :
      (w : c.World) (t : Bytes) (ts : List Bytes)
      → queue w ≡ t ∷ ts
      → ((c.slot_call (zsock_recv to null) w).0 ≢ minus_one)
        × (c.text_at (c.slot_call (zsock_recv to null) w).2 (c.slot_call (zsock_recv to null) w).1
            ≡ t)
        × (queue (c.slot_call (zsock_recv to null) w).2 ≡ ts)

-- What arrives of a text: one with a NUL is sent as the empty text.
abbrev pub arriving : Bytes → Bytes
arriving t = if has_nul t then [] else t

module _ (c : Czmq) where
  open c use {World}

  abbrev kept_if_sent :
      Bytes
      → Run World (Unit {0})
      → (Machine World → Run World (List Bytes))
      → Run World (List Bytes)
  kept_if_sent t (done _ s) rest = elim (rest s) [
    | done ts s' ↦ done (t ∷ ts) s'
    | failed e s' ↦ failed e s'
    | panicked s' ↦ panicked s'
    | stuck ↦ stuck
  ]
  kept_if_sent t (failed _ s) rest = rest s
  kept_if_sent t (panicked s) rest = panicked s
  kept_if_sent t stuck rest = stuck

  -- Each text is sent; those are returned for which `send_str` returned no error.
  unfoldable pub send_all : ZSock → List Bytes → Io World (List Bytes)
  unfolding send_str
  send_all z [] s = done [] s
  send_all z (t ∷ ts) s = kept_if_sent t (send_str c z t s) (send_all z ts)

  -- As many texts are received.
  unfoldable pub recv_all : ZSock → ℕ → Io World (List Utf8Result)
  unfolding recv_str
  recv_all z zero = pure []
  recv_all z (suc n) = do t ← recv_str c z; ts ← recv_all z n; pure (t ∷ ts)

  module _ (from to : ZSock) (laws : PipeLaws c from.zsock to.zsock) where
    open laws use {queue}

    -- The texts that were sent, and the queue behind them.
    abbrev Sent : List Bytes → Machine World → Type 0
    Sent ts s =
        (sent : List Bytes) × (s' : Machine World) × (send_all from ts s ≡ done sent s')
        × (queue s'.world ≡ queue s.world ++ map arriving sent)
        × (All IsText ts → All IsText sent)

    abbrev after_send : Bytes → Machine World → Machine World
    after_send t s =
        let q = zsock_send from.zsock (arriving t) in
        record {
          world = (c.int_call q s.world).1;
          trace = Event.got_int q (c.int_call q s.world).0 ∷ s.trace;
        }

    send_all_lem : (ts : List Bytes) (s : Machine World) → Sent ts s
    unfolding send_all c_string_or_empty
    send_all_lem [] s = ([], s, refl, rw append-nil, λ h. h)
    send_all_lem (t ∷ ts) s =
        let q = zsock_send from.zsock (arriving t) in
        let (sent, s', run, on_way, texts) = send_all_lem ts (after_send t s) in
        elim (laws.send_call s.world (arriving t)) [
          | inl (bad, same) ↦
              let e : int_eq (c.int_call q s.world).0 minus_one ≡ true = rw bad in
              (sent, s', rw (e, run), on_way ∙ rw same, λ h. texts h.1)
          | inr (good, more) ↦
              let e : int_eq (c.int_call q s.world).0 minus_one ≡ false =
                ground (arith, int_eq_iff (c.int_call q s.world).0 minus_one) in
              (
                t ∷ sent,
                s',
                rw (e, kept_if_sent, run),
                on_way ∙ rw (more, append_assoc),
                λ h. (h.0, texts h.1),
              )
        ]

    recv_all_lem :
        (ts : List Bytes) (s : Machine World)
        → All IsText ts
        → queue s.world ≡ ts
        → (s' : Machine World) × (recv_all to (length ts) s ≡ done (map text ts) s')
          × (queue s'.world ≡ [])
    unfolding recv_all from_utf8
    recv_all_lem [] s h e = (s, refl, e)
    recv_all_lem (t ∷ ts) s (utf8, h) e =
        let q = zsock_recv to.zsock null in
        let (good, shown, rest) = laws.recv_call s.world t ts e in
        let code : int_eq (c.slot_call q s.world).0 minus_one ≡ false =
          ground (arith, int_eq_iff (c.slot_call q s.world).0 minus_one) in
        let after : Machine World = record {
          world = (c.slot_call q s.world).2;
          trace = Event.got_slot q (c.slot_call q s.world).0 (c.slot_call q s.world).1 ∷ s.trace;
        } in
        let (s', run, empty) = recv_all_lem ts after h rest in
        (s', rw (code, shown, utf8, run), empty)

    arriving-IsText : (ts : List Bytes) → All IsText ts → All IsText (map arriving ts)
    unfolding is_utf8
    arriving-IsText [] h = tt
    arriving-IsText (t ∷ ts) (utf8, h) = elim (Bool-cases (has_nul t)) [
      | inl nul ↦ (rw nul, arriving-IsText ts h)
      | inr clean ↦ (rw clean utf8, arriving-IsText ts h)
    ]

    length-arriving : (ts : List Bytes) → length (map arriving ts) ≡ length ts
    length-arriving [] = refl
    length-arriving (t ∷ ts) = ap suc (length-arriving ts)

    -- By the laws of the library, if nothing is on its way, then of texts that are sent with `send_str`,
    -- those for which it returned no error are what as many calls of `recv_str` at the other end
    -- return, in the same order, each as it was, or empty if it had a NUL; and nothing is left.
    pub recv_str-send_str :
        (ts : List Bytes) (s : Machine World)
        → All IsText ts
        → queue s.world ≡ []
        → (sent : List Bytes) × (s' s'' : Machine World) × (send_all from ts s ≡ done sent s')
          × (recv_all to (length sent) s' ≡ done (map text (map arriving sent)) s'')
          × (queue s''.world ≡ [])
    recv_str-send_str ts s h empty =
        let (sent, s', run, on_way, texts) = send_all_lem ts s in
        let (s'', received, left) =
          recv_all_lem (map arriving sent) s' (arriving-IsText sent (texts h))
            (on_way ∙ rw empty) in
        (sent, s', s'', run, rw length-arriving at received, left)
