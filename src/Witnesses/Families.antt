-- ===== src/Witnesses/Families.antt =====
-- Families of methods at concrete inputs, and a library with the options of one socket.
use rust_czmq.Prelude.{◌≡◌, ◌≢◌, refl, true, some, [], arith, All}
use rust_czmq.Rust.Text.{Bytes, ascii, is_utf8, has_nul, text, from_utf8}
use rust_czmq.Ffi.{Ptr, null, pos, PtrCall, VoidCall, IntCall, Czmq, Io, Machine, result_of, ◌>>◌}
use rust_czmq.Ownership.Commands.{Command, commanded}
use rust_czmq.Ownership.Handles.{Handle}
use rust_czmq.Ownership.Makers.{Maker, made_by}
use rust_czmq.Ownership.Users.{User, used_by}
use rust_czmq.Panics.Making.{has_panicked, maker_panics}
use rust_czmq.Panics.Speaking.{command_panics}
use rust_czmq.Panics.Giving.{Giver, given, giver_panics}
use rust_czmq.Panics.Using.{IsSafeUse, panics_lem}
use rust_czmq.Witnesses.Toy.{constant}
use rust_czmq.ZCert.{ZCert}
use rust_czmq.ZCert.Saving.{savers, savers_lem, saved_at}
use rust_czmq.ZSock.{ZSock, zsock_sockish}
use rust_czmq.Ffi.Calls.{
  zsock_zap_domain, zsock_set_zap_domain, zsock_plain_username, zsock_set_plain_username,
  zsock_plain_password, zsock_set_plain_password, zsock_curve_publickey, zsock_set_curve_publickey,
  zsock_curve_secretkey, zsock_set_curve_secretkey, zsock_curve_serverkey,
  zsock_set_curve_serverkey,
}
use rust_czmq.ZSock.Constructors.{constructors, constructors_lem, created_at}
use rust_czmq.ZSock.Options.ReadBack.{
  TextOption, domain, username, password, publickey, secretkey, serverkey, Values, with_value,
  set_call, get_call, OptionLaws, setter, getter, getter-setter,
}

abbrev fixed : Czmq
fixed = constant (λ q. 5) (pos 0) null []

abbrev out : ZSock
out = record { zsock = 7; owned = true }

abbrev at_start : Machine fixed.World
at_start = record { world = 0; trace = [] }

-- The texts of the options, and the text read last.
abbrev OptionState : Type 0
OptionState = Values × Bytes

abbrev shown : TextOption → OptionState → Ptr × OptionState
shown o (v, _) = (1, (v, v o))

abbrev option_ptr_call : PtrCall → OptionState → Ptr × OptionState
option_ptr_call (zsock_zap_domain p) w = shown domain w
option_ptr_call (zsock_plain_username p) w = shown username w
option_ptr_call (zsock_plain_password p) w = shown password w
option_ptr_call (zsock_curve_publickey p) w = shown publickey w
option_ptr_call (zsock_curve_secretkey p) w = shown secretkey w
option_ptr_call (zsock_curve_serverkey p) w = shown serverkey w
option_ptr_call _ w = (1, w)

abbrev stored : TextOption → Bytes → OptionState → OptionState
stored o t (v, last) = (with_value v o t, last)

abbrev option_void_call : VoidCall → OptionState → OptionState
option_void_call (zsock_set_zap_domain p t) w = stored domain t w
option_void_call (zsock_set_plain_username p t) w = stored username t w
option_void_call (zsock_set_plain_password p t) w = stored password t w
option_void_call (zsock_set_curve_publickey p t) w = stored publickey t w
option_void_call (zsock_set_curve_secretkey p t) w = stored secretkey t w
option_void_call (zsock_set_curve_serverkey p t) w = stored serverkey t w
option_void_call _ w = w

abbrev with_options : Czmq
with_options = record {
  World = OptionState;
  ptr_call = option_ptr_call;
  int_call = λ q w. (pos 0, w);
  size_call = λ q w. (0, w);
  slot_call = λ q w. (pos 0, null, w);
  void_call = option_void_call;
  pipe_call = λ w. (1, 2, w);
  bytes_at = λ w p n. [];
  text_at = λ w p. w.1;
  beyond = λ w b. [];
  freed_text = λ w b. [];
  state_field = λ w p. 1;
  certs_field = λ w p. 1;
}

set_value_lem :
    (w : OptionState) (o o' : TextOption) (t : Bytes)
    → (with_options.void_call (set_call o 7 t) w).0 o' ≡ with_value w.0 o t o'
set_value_lem w domain o' t = refl
set_value_lem w _ o' t = refl

one_there : 1 ≢ null
one_there = ground arith

get_value_lem :
    (w : OptionState) (o : TextOption)
    → ((with_options.ptr_call (get_call o 7) w).0 ≢ null)
      × ((with_options.ptr_call (get_call o 7) w).1.1 ≡ w.0 o)
get_value_lem w domain = (one_there, refl)
get_value_lem w _ = (one_there, refl)

unfoldable with_options_laws : OptionLaws with_options 7
unfolding set_value_lem get_value_lem one_there
with_options_laws = record {
  values = λ w. w.0;
  is_z85 = λ t. true;
  set_value = λ w o o' t clean ok. set_value_lem w o o' t;
  get_value = get_value_lem;
}

-- Every option is empty, but for the domain.
abbrev first_values : Values
first_values domain = ascii "d"
first_values _ = []

abbrev options_start : Machine with_options.World
options_start = record { world = (first_values, []); trace = [] }

getter-setter_example :
    result_of (
      (setter with_options username out (ascii "u") >> getter with_options domain out)
        options_start)
    ≡ some (text (ascii "d"))
unfolding with_options_laws from_utf8 is_utf8 has_nul
getter-setter_example =
    getter-setter with_options out with_options_laws username domain (ascii "u") options_start refl

constructors_lem_example :
    All
      (λ (constructor : (Bytes → Io fixed.World ZSock) × (Bytes → PtrCall)).
        constructor.0 (ascii "inproc://a") at_start
        ≡ created_at fixed (ascii "inproc://a") at_start constructor.1)
      (constructors fixed)
constructors_lem_example = constructors_lem fixed (ascii "inproc://a") at_start

abbrev cert : ZCert
cert = record { zcert = 4; owned = true }

savers_lem_example :
    All
      (λ (method : (ZCert → Bytes → Io fixed.World (Unit {0})) × (Ptr → Bytes → IntCall)).
        method.0 cert (ascii "cert.txt") at_start
        ≡ saved_at fixed cert (ascii "cert.txt") at_start method.1)
      (savers fixed)
savers_lem_example = savers_lem fixed cert (ascii "cert.txt") at_start

panics_lem_example :
    ((maker : Maker) → has_panicked (made_by fixed maker at_start) ≡ maker_panics maker)
    × ((giver : Giver)
        → has_panicked (given fixed giver at_start) ≡ giver_panics fixed giver at_start)
    × ((a : Ptr) (cmd : Command)
        → has_panicked (commanded fixed a cmd at_start) ≡ command_panics cmd)
    × ((user : User) (h : Handle) → IsSafeUse fixed at_start (used_by fixed user h))
panics_lem_example = panics_lem fixed at_start
