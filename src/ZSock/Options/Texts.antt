-- ===== src/ZSock/Options/Texts.antt =====
-- The options that are texts: the setters and the getters, on every text and every reply.
use rust_czmq.Prelude.{◌==◌, ◌≡◌, refl, List, [], ◌∷◌, if◌then◌else◌, Bool-cases, inl, inr, All}
use rust_czmq.Rust.Text.{Bytes, Utf8Result, has_nul, c_string_or_empty, from_utf8}
use rust_czmq.Ffi.{
  Ptr, null, Czmq, Event, Io, Machine, PtrCall, VoidCall, Run, done, failed, ask_ptr, read_text,
  tell,
}
use rust_czmq.Ffi.Calls.{
  zsock_zap_domain, zsock_set_zap_domain, zsock_plain_username, zsock_set_plain_username,
  zsock_plain_password, zsock_set_plain_password, zsock_curve_publickey, zsock_set_curve_publickey,
  zsock_curve_secretkey, zsock_set_curve_secretkey, zsock_curve_serverkey,
  zsock_set_curve_serverkey, zsock_set_subscribe, zsock_set_unsubscribe, zsock_identity,
}
use rust_czmq.ZSock.{ZSock, null_error}
use rust_czmq.ZSock.Options.{
  zap_domain, set_zap_domain, plain_username, set_plain_username, plain_password,
  set_plain_password, curve_publickey, set_curve_publickey, curve_secretkey, set_curve_secretkey,
  curve_serverkey, set_curve_serverkey, set_subscribe, set_unsubscribe, identity, text_option,
  set_text_option,
}

module _ (c : Czmq) where
  -- Each setter, with the function that it calls.
  abbrev pub text_setters :
      List ((ZSock → Bytes → Io c.World (Unit {0})) × (Ptr → Bytes → VoidCall))
  text_setters =
      (set_zap_domain c, zsock_set_zap_domain)
      ∷ (set_plain_username c, zsock_set_plain_username)
      ∷ (set_plain_password c, zsock_set_plain_password)
      ∷ (set_curve_publickey c, zsock_set_curve_publickey)
      ∷ (set_curve_secretkey c, zsock_set_curve_secretkey)
      ∷ (set_curve_serverkey c, zsock_set_curve_serverkey)
      ∷ (set_subscribe c, zsock_set_subscribe)
      ∷ (set_unsubscribe c, zsock_set_unsubscribe)
      ∷ []

  abbrev pub text_getters : List ((ZSock → Io c.World Utf8Result) × (Ptr → PtrCall))
  text_getters =
      (zap_domain c, zsock_zap_domain)
      ∷ (plain_username c, zsock_plain_username)
      ∷ (plain_password c, zsock_plain_password)
      ∷ (curve_publickey c, zsock_curve_publickey)
      ∷ (curve_secretkey c, zsock_curve_secretkey)
      ∷ (curve_serverkey c, zsock_curve_serverkey)
      ∷ (identity c, zsock_identity)
      ∷ []

  module _ (z : ZSock) (s : Machine c.World) where
    abbrev pub told : VoidCall → Machine c.World
    told q = record { world = c.void_call q s.world; trace = Event.did q ∷ s.trace }

    abbrev pub asked : PtrCall → Machine c.World
    asked q = record {
      world = (c.ptr_call q s.world).1;
      trace = Event.got_ptr q (c.ptr_call q s.world).0 ∷ s.trace;
    }

    -- What a getter makes of the pointer that C returns.
    abbrev pub as_text : PtrCall → Run c.World Utf8Result
    as_text q =
        if (c.ptr_call q s.world).0 == null
        then failed null_error (asked q)
        else done (from_utf8 (c.text_at (c.ptr_call q s.world).1 (c.ptr_call q s.world).0))
            (asked q)

    pub set_text_option_lem :
        (setter : Ptr → Bytes → VoidCall) (t : Bytes)
        → set_text_option c setter z t s
          ≡ done tt (told (setter z.zsock (if has_nul t then [] else t)))
    unfolding set_text_option c_string_or_empty tell
    set_text_option_lem setter t = refl

    pub text_option_lem :
        (getter : Ptr → PtrCall) → text_option c getter z s ≡ as_text (getter z.zsock)
    unfolding text_option ask_ptr read_text
    text_option_lem getter = elim (Bool-cases ((c.ptr_call (getter z.zsock) s.world).0 == null)) [
      | inl e ↦ rw e
      | inr e ↦ rw e
    ]

    -- Each setter of a text makes its one call, with the text if there is no NUL in it, and else with
    -- the empty text; it reports nothing.
    pub text_setters_lem :
        (t : Bytes)
        → All
            (λ (setting : (ZSock → Bytes → Io c.World (Unit {0})) × (Ptr → Bytes → VoidCall)).
              setting.0 z t s ≡ done tt (told (setting.1 z.zsock (if has_nul t then [] else t))))
            text_setters
    unfolding set_zap_domain set_plain_username set_plain_password set_curve_publickey
        set_curve_secretkey set_curve_serverkey set_subscribe set_unsubscribe
    text_setters_lem t = (
      set_text_option_lem zsock_set_zap_domain t,
      (
        set_text_option_lem zsock_set_plain_username t,
        (
          set_text_option_lem zsock_set_plain_password t,
          (
            set_text_option_lem zsock_set_curve_publickey t,
            (
              set_text_option_lem zsock_set_curve_secretkey t,
              (
                set_text_option_lem zsock_set_curve_serverkey t,
                (
                  set_text_option_lem zsock_set_subscribe t,
                  (set_text_option_lem zsock_set_unsubscribe t, tt),
                ),
              ),
            ),
          ),
        ),
      ),
    )

    -- Each getter of a text makes its one call; NULL is an error, and anything else is returned as a
    -- text, or as bytes where it is not one.
    pub text_getters_lem :
        All
          (λ (setting : (ZSock → Io c.World Utf8Result) × (Ptr → PtrCall)).
            setting.0 z s ≡ as_text (setting.1 z.zsock))
          text_getters
    unfolding zap_domain plain_username plain_password curve_publickey curve_secretkey
        curve_serverkey identity
    text_getters_lem = (
      text_option_lem zsock_zap_domain,
      (
        text_option_lem zsock_plain_username,
        (
          text_option_lem zsock_plain_password,
          (
            text_option_lem zsock_curve_publickey,
            (
              text_option_lem zsock_curve_secretkey,
              (text_option_lem zsock_curve_serverkey, (text_option_lem zsock_identity, tt)),
            ),
          ),
        ),
      ),
    )
