-- ===== src/ZSock/Options/ReadBack.antt =====
-- The options that are texts, set and then read back.
use rust_czmq.Prelude.{
  ℕ, ◌==◌, ◌≡◌, ◌≢◌, ap, ◌∙◌, Bool-cases, inl, inr, Bool, true, false, some, [], leb, ◌&&◌, length,
  if◌then◌else◌, arith,
}
use rust_czmq.Rust.Text.{Bytes, Utf8Result, has_nul, from_utf8}
use rust_czmq.Ffi.{Ptr, null, Czmq, Io, Machine, PtrCall, VoidCall, done, ◌>>◌, result_of}
use rust_czmq.Ffi.Calls.{
  zsock_zap_domain, zsock_set_zap_domain, zsock_plain_username, zsock_set_plain_username,
  zsock_plain_password, zsock_set_plain_password, zsock_curve_publickey, zsock_set_curve_publickey,
  zsock_curve_secretkey, zsock_set_curve_secretkey, zsock_curve_serverkey,
  zsock_set_curve_serverkey,
}
use rust_czmq.ZSock.{ZSock}
use rust_czmq.ZSock.Options.{
  zap_domain, set_zap_domain, plain_username, set_plain_username, plain_password,
  set_plain_password, curve_publickey, set_curve_publickey, curve_secretkey, set_curve_secretkey,
  curve_serverkey, set_curve_serverkey,
}
use rust_czmq.ZSock.Options.Texts.{told, as_text, set_text_option_lem, text_option_lem}

-- An option that has both a setter and a getter.
pub data TextOption : Type 0 where
  domain username password publickey secretkey serverkey : TextOption

abbrev number : TextOption → ℕ
number domain = 0
number username = 1
number password = 2
number publickey = 3
number secretkey = 4
number serverkey = 5

abbrev pub set_call : TextOption → Ptr → Bytes → VoidCall
set_call domain = zsock_set_zap_domain
set_call username = zsock_set_plain_username
set_call password = zsock_set_plain_password
set_call publickey = zsock_set_curve_publickey
set_call secretkey = zsock_set_curve_secretkey
set_call serverkey = zsock_set_curve_serverkey

abbrev pub get_call : TextOption → Ptr → PtrCall
get_call domain = zsock_zap_domain
get_call username = zsock_plain_username
get_call password = zsock_plain_password
get_call publickey = zsock_curve_publickey
get_call secretkey = zsock_curve_secretkey
get_call serverkey = zsock_curve_serverkey

abbrev pub Values : Type 0
Values = TextOption → Bytes

-- The values with another text for one option.
abbrev pub with_value : Values → TextOption → Bytes → Values
with_value v o t o' = if number o' == number o then t else v o'

-- The texts that an option keeps, by what ZeroMQ accepts and CZMQ's buffer of 255 bytes holds: at most
-- 254 bytes, for a user name and a password at least one, and for a key the 40 characters of Z85.
-- `is_z85` tells which texts of 40 characters are Z85.
abbrev pub accepts : (Bytes → Bool) → TextOption → Bytes → Bool
accepts is_z85 domain t = leb (length t) 254
accepts is_z85 username t = leb 1 (length t) && leb (length t) 254
accepts is_z85 password t = leb 1 (length t) && leb (length t) 254
accepts is_z85 _ t = (length t == 40) && is_z85 t

-- A socket has a text for each option; a call sets one of them to a text that the option accepts, and
-- another call reads one. Nothing is promised for other texts.
pub record OptionLaws (c : Czmq) (p : Ptr) : Type 0 where
  pub values : c.World → Values
  pub is_z85 : Bytes → Bool
  pub set_value :
      (w : c.World) (o o' : TextOption) (t : Bytes)
      → has_nul t ≡ false
      → accepts is_z85 o t ≡ true
      → values (c.void_call (set_call o p t) w) o' ≡ with_value (values w) o t o'
  pub get_value :
      (w : c.World) (o : TextOption)
      → ((c.ptr_call (get_call o p) w).0 ≢ null)
        × (c.text_at (c.ptr_call (get_call o p) w).1 (c.ptr_call (get_call o p) w).0 ≡ values w o)

module _ (c : Czmq) where
  abbrev pub setter : TextOption → ZSock → Bytes → Io c.World (Unit {0})
  setter domain = set_zap_domain c
  setter username = set_plain_username c
  setter password = set_plain_password c
  setter publickey = set_curve_publickey c
  setter secretkey = set_curve_secretkey c
  setter serverkey = set_curve_serverkey c

  abbrev pub getter : TextOption → ZSock → Io c.World Utf8Result
  getter domain = zap_domain c
  getter username = plain_username c
  getter password = plain_password c
  getter publickey = curve_publickey c
  getter secretkey = curve_secretkey c
  getter serverkey = curve_serverkey c

  abbrev kept : Bytes → Bytes
  kept t = if has_nul t then [] else t

  module _ (z : ZSock) where
    setter_lem :
        (o : TextOption) (t : Bytes) (s : Machine c.World)
        → setter o z t s ≡ done tt (told c z s (set_call o z.zsock (kept t)))
    unfolding set_zap_domain set_plain_username set_plain_password set_curve_publickey
        set_curve_secretkey set_curve_serverkey
    setter_lem domain t s = set_text_option_lem c z s zsock_set_zap_domain t
    setter_lem username t s = set_text_option_lem c z s zsock_set_plain_username t
    setter_lem password t s = set_text_option_lem c z s zsock_set_plain_password t
    setter_lem publickey t s = set_text_option_lem c z s zsock_set_curve_publickey t
    setter_lem secretkey t s = set_text_option_lem c z s zsock_set_curve_secretkey t
    setter_lem serverkey t s = set_text_option_lem c z s zsock_set_curve_serverkey t

    getter_lem :
        (o : TextOption) (s : Machine c.World) → getter o z s ≡ as_text c z s (get_call o z.zsock)
    unfolding zap_domain plain_username plain_password curve_publickey curve_secretkey
        curve_serverkey
    getter_lem domain s = text_option_lem c z s zsock_zap_domain
    getter_lem username s = text_option_lem c z s zsock_plain_username
    getter_lem password s = text_option_lem c z s zsock_plain_password
    getter_lem publickey s = text_option_lem c z s zsock_curve_publickey
    getter_lem secretkey s = text_option_lem c z s zsock_curve_secretkey
    getter_lem serverkey s = text_option_lem c z s zsock_curve_serverkey

    module _ (laws : OptionLaws c z.zsock) where
      read_lem :
          (o : TextOption) (s : Machine c.World)
          → result_of (getter o z s) ≡ some (from_utf8 (laws.values s.world o))
      read_lem o s =
          let (there, same) = laws.get_value s.world o in
          let e : ((c.ptr_call (get_call o z.zsock) s.world).0 == null) ≡ false = ground arith in
          ap result_of (getter_lem o s) ∙ rw (e, same)

      kept_lem : (t : Bytes) → has_nul (kept t) ≡ false
      unfolding has_nul
      kept_lem t = elim (Bool-cases (has_nul t)) [ inl e ↦ rw e | inr e ↦ rw (e, e) ]

      -- By the laws of the library, if an option accepts the text that C is given for `t`, which is the
      -- empty text if there is a NUL in `t` and else `t`, then a setter of the option and after it a
      -- getter of the same option or of another return this text if the option is the same, and else
      -- the text that the other option had before.
      pub getter-setter :
          (o o' : TextOption) (t : Bytes) (s : Machine c.World)
          → accepts laws.is_z85 o (if has_nul t then [] else t) ≡ true
          → result_of ((setter o z t >> getter o' z) s)
            ≡ some (from_utf8 (with_value (laws.values s.world) o (if has_nul t then [] else t) o'))
      getter-setter o o' t s ok =
          let s' = told c z s (set_call o z.zsock (kept t)) in
          rw
            (setter_lem o t s, read_lem o' s', laws.set_value s.world o o' (kept t) (kept_lem t) ok)
