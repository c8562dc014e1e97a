-- ===== src/ZCert/Saving.antt =====
-- The three methods that save a certificate.
use rust_czmq.Prelude.{◌≡◌, List, [], ◌∷◌, if◌then◌else◌, Bool-cases, inl, inr, All}
use rust_czmq.Rust.Text.{Bytes, has_nul, is_utf8, to_text}
use rust_czmq.Error.{from_nul_error, error, non_zero}
use rust_czmq.Error.Causes
use rust_czmq.Error.Causes.{save_path}
use rust_czmq.Ffi.{
  Ptr, minus_one, int_eq, Czmq, Event, IntCall, Io, Machine, Run, done, failed, panicked,
  try_c_string_nul, try_c_string_eq, unwrap, ask_int,
}
use rust_czmq.Ffi.Calls.{zcert_save, zcert_save_public, zcert_save_secret}
use rust_czmq.ZCert.{ZCert, save, save_public, save_secret, save_with}

module _ (c : Czmq) where
  -- Each method, with the function that it calls.
  abbrev pub savers : List ((ZCert → Bytes → Io c.World (Unit {0})) × (Ptr → Bytes → IntCall))
  savers =
      (save c, zcert_save)
      ∷ (save_public c, zcert_save_public)
      ∷ (save_secret c, zcert_save_secret)
      ∷ []

  module _ (m : ZCert) (path : Bytes) (s : Machine c.World) where
    -- The result of the call itself.
    abbrev pub saved : IntCall → Run c.World (Unit {0})
    saved q =
        let (rc, w) = c.int_call q s.world in
        let s' : Machine c.World = record { world = w; trace = Event.got_int q rc ∷ s.trace } in
        if int_eq rc minus_one
        then failed (error non_zero (Causes.zcert (save_path path))) s'
        else done tt s'

    abbrev pub saved_at : (Ptr → Bytes → IntCall) → Run c.World (Unit {0})
    saved_at saver =
        if is_utf8 path
        then (if has_nul path then failed (from_nul_error path) s else saved (saver m.zcert path))
        else panicked s

    save_with_lem : (saver : Ptr → Bytes → IntCall) → save_with c saver m path s ≡ saved_at saver
    unfolding save_with to_text ask_int
    save_with_lem saver = elim (Bool-cases (is_utf8 path)) [
      | inr other ↦ rw (other, unwrap)
      | inl good ↦ elim (Bool-cases (has_nul path)) [
        | inl nul ↦ rw (good, unwrap, nul, try_c_string_nul path s nul)
        | inr clean ↦
            elim (Bool-cases (int_eq (c.int_call (saver m.zcert path) s.world).0 minus_one)) [
              | inl e ↦ rw (good, unwrap, clean, try_c_string_eq path s clean, e, good)
              | inr e ↦ rw (good, unwrap, clean, try_c_string_eq path s clean, e)
            ]
      ]
    ]

    -- Each method that saves a certificate: a path that is no text panics, a path with a NUL is the
    -- conversion error, both before any call; else the one call is made, and -1 is the error that
    -- holds the path.
    pub savers_lem :
        All
          (λ (method : (ZCert → Bytes → Io c.World (Unit {0})) × (Ptr → Bytes → IntCall)).
            method.0 m path s ≡ saved_at method.1)
          savers
    unfolding save save_public save_secret
    savers_lem = (
      save_with_lem zcert_save,
      (save_with_lem zcert_save_public, (save_with_lem zcert_save_secret, tt)),
    )
