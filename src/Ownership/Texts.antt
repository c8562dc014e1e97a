-- ===== src/Ownership/Texts.antt =====
-- The texts that CZMQ allocates for the caller, and that the crate copies.
use rust_czmq.Prelude.{
  ◌==◌, ◌≡◌, refl, List, [], ◌∷◌, ◌⊎◌, arith, Bool-cases, inl, inr, All, suc, Option, some, true,
  false,
}
use rust_czmq.Rust.Text.{Utf8Result, from_utf8}
use rust_czmq.Ffi.{Ptr, null, Czmq, Event, Machine, PtrCall, Run, done, map_run}
use rust_czmq.Ffi.Calls.{
  zmsg_popstr, zframe_strhex, zframe_strdup, zsock_zap_domain, zsock_plain_username,
  zsock_plain_password, zsock_curve_publickey, zsock_curve_secretkey, zsock_curve_serverkey,
  zsock_identity,
}
use rust_czmq.Ownership.{unless_null, releases}
use rust_czmq.Ownership.Balance.{balance, acquired_by}
use rust_czmq.ZFrame
use rust_czmq.ZFrame.{ZFrame}
use rust_czmq.ZMsg
use rust_czmq.ZMsg.{ZMsg}
use rust_czmq.ZSock
use rust_czmq.ZSock.{ZSock}
use rust_czmq.ZSock.Options.{
  zap_domain, plain_username, plain_password, curve_publickey, curve_secretkey, curve_serverkey,
  identity,
}
use rust_czmq.ZSock.Options.Texts.{asked, text_option_lem}

module _ (c : Czmq) (m : ZMsg) (f : ZFrame) (z : ZSock) (s : Machine c.World) where
  open c use {World}

  abbrev pub TextRun : Type 0
  TextRun = Run World (Option Utf8Result)

  -- Each method that copies a text of CZMQ's, and the call that returns the text.
  abbrev pub readers : List (TextRun × PtrCall)
  readers =
      (ZMsg.popstr c m s, zmsg_popstr m.zmsg)
      ∷ (map_run some (ZFrame.strhex c f s), zframe_strhex f.zframe)
      ∷ (map_run some (ZFrame.strdup c f s), zframe_strdup f.zframe)
      ∷ (map_run some (zap_domain c z s), zsock_zap_domain z.zsock)
      ∷ (map_run some (plain_username c z s), zsock_plain_username z.zsock)
      ∷ (map_run some (plain_password c z s), zsock_plain_password z.zsock)
      ∷ (map_run some (curve_publickey c z s), zsock_curve_publickey z.zsock)
      ∷ (map_run some (curve_secretkey c z s), zsock_curve_secretkey z.zsock)
      ∷ (map_run some (curve_serverkey c z s), zsock_curve_serverkey z.zsock)
      ∷ (map_run some (identity c z s), zsock_identity z.zsock)
      ∷ []

  -- C returned NULL; or the method's one call gave the caller a pointer, the result is a copy of the
  -- text there, without the pointer, and no pointer was released.
  abbrev pub IsLeaked : TextRun × PtrCall → Type 0
  IsLeaked (r, q) =
      let p = (c.ptr_call q s.world).0 in
      let after = asked c z s q in
      (p ≡ null)
      ⊎ ((r ≡ done (some (from_utf8 (c.text_at after.world p))) after)
          × (acquired_by (Event.got_ptr q p) ≡ some p)
          × (releases after.trace ≡ releases s.trace)
          × (balance after.trace p ≡ suc (balance s.trace p)))

  one_call :
      (q : PtrCall) (r : TextRun)
      → acquired_by (Event.got_ptr q (c.ptr_call q s.world).0)
        ≡ unless_null (c.ptr_call q s.world).0
      → (((c.ptr_call q s.world).0 == null) ≡ false
          → r
            ≡ done
                (some (from_utf8 (c.text_at (asked c z s q).world (c.ptr_call q s.world).0)))
                (asked c z s q))
      → IsLeaked (r, q)
  one_call q r given run =
      let p = (c.ptr_call q s.world).0 in
      let same : (p == p) ≡ true = ground arith in
      elim (Bool-cases (p == null)) [
        | inl e ↦ inl (ground arith)
        | inr e ↦ inr (run e, rw (given, e), refl, rw (given, e, same) (omega arith))
      ]

  option_run :
      (getter : Ptr → PtrCall)
      → ((c.ptr_call (getter z.zsock) s.world).0 == null) ≡ false
      → map_run some (ZSock.Options.text_option c getter z s)
        ≡ done
            (some (
              from_utf8 (
                c.text_at
                  (asked c z s (getter z.zsock)).world
                  (c.ptr_call (getter z.zsock) s.world).0)))
            (asked c z s (getter z.zsock))
  option_run getter e = rw (text_option_lem c z s getter, e)

  -- If the caller owns what these calls return, then each of the methods that copy a text of CZMQ
  -- (`popstr`, `strhex`, `strdup`, and seven getters of options) leaks it: unless NULL is returned,
  -- the method makes this one call, after which the caller owns the pointer once more; it releases
  -- nothing, and returns a copy of the text, so that nobody has the pointer to release it.
  pub readers-IsLeaked : All IsLeaked readers
  unfolding ZMsg.popstr ZFrame.strhex ZFrame.strdup zap_domain plain_username plain_password
      curve_publickey curve_secretkey curve_serverkey identity
  readers-IsLeaked = (
    one_call (zmsg_popstr m.zmsg) _ refl (λ e. rw e),
    (
      one_call (zframe_strhex f.zframe) _ refl (λ e. rw e),
      (
        one_call (zframe_strdup f.zframe) _ refl (λ e. rw e),
        (
          one_call (zsock_zap_domain z.zsock) _ refl (option_run zsock_zap_domain),
          (
            one_call (zsock_plain_username z.zsock) _ refl (option_run zsock_plain_username),
            (
              one_call (zsock_plain_password z.zsock) _ refl (option_run zsock_plain_password),
              (
                one_call (zsock_curve_publickey z.zsock) _ refl (option_run zsock_curve_publickey),
                (
                  one_call (zsock_curve_secretkey z.zsock) _ refl
                      (option_run zsock_curve_secretkey),
                  (
                    one_call (zsock_curve_serverkey z.zsock) _ refl
                        (option_run zsock_curve_serverkey),
                    (one_call (zsock_identity z.zsock) _ refl (option_run zsock_identity), tt),
                  ),
                ),
              ),
            ),
          ),
        ),
      ),
    ),
  )
