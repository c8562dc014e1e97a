-- ===== src/Ffi/Calls.antt =====
-- The functions of czmq-sys/src/ffi.rs that the crate calls, with their arguments. A C string
-- argument is its bytes without the terminator; an out parameter is part of the reply.
use rust_czmq.Prelude.{ℕ, Option}
use rust_czmq.Rust.Text.{Bytes}
use rust_czmq.Ffi.Int.{ℤ}

abbrev pub Ptr : Type 0
Ptr = ℕ

abbrev pub null : Ptr
null = 0

-- A `zactor_fn`: one of the two actors of CZMQ, or a function of the user.
pub data Task : Type 0 where
  zauth zmonitor : Task
  user : ℕ → Task

-- The calls that return a pointer.
pub data PtrCall : Type 0 where
  zactor_new : Task → Ptr → PtrCall
  zactor_recv zactor_sock : Ptr → PtrCall
  zcert_new : PtrCall
  zcert_new_from : Bytes → Bytes → PtrCall
  zcert_load : Bytes → PtrCall
  zcert_public_key zcert_secret_key zcert_public_txt zcert_secret_txt : Ptr → PtrCall
  zcert_meta : Ptr → Bytes → PtrCall
  zcert_meta_keys zcert_dup : Ptr → PtrCall
  zcertstore_new : Option Bytes → PtrCall
  zcertstore_lookup : Ptr → Bytes → PtrCall
  zframe_new : Bytes → PtrCall
  zframe_new_empty : PtrCall
  zframe_recv zframe_data : Ptr → PtrCall
  zframe_meta : Ptr → Bytes → PtrCall
  zframe_dup zframe_strhex zframe_strdup : Ptr → PtrCall
  zhashx_new : PtrCall
  zhashx_lookup : Ptr → Bytes → PtrCall
  zlist_next : Ptr → PtrCall
  zmsg_new : PtrCall
  zmsg_new_signal : ℕ → PtrCall
  zmsg_recv zmsg_encode zmsg_decode zmsg_pop zmsg_popstr zmsg_popmsg : Ptr → PtrCall
  zmsg_first zmsg_next zmsg_last zmsg_dup : Ptr → PtrCall
  zpoller_new : PtrCall
  zpoller_wait : Ptr → ℤ → PtrCall
  zsock_new : ℤ → PtrCall
  zsock_new_pub zsock_new_req zsock_new_rep zsock_new_dealer zsock_new_router : Bytes → PtrCall
  zsock_new_push zsock_new_pull zsock_new_xpub zsock_new_xsub zsock_new_pair : Bytes → PtrCall
  zsock_new_stream : Bytes → PtrCall
  zsock_new_sub : Bytes → Option Bytes → PtrCall
  zsock_endpoint zsock_type_str zsock_zap_domain zsock_identity : Ptr → PtrCall
  zsock_plain_username zsock_plain_password : Ptr → PtrCall
  zsock_curve_publickey zsock_curve_secretkey zsock_curve_serverkey : Ptr → PtrCall

-- The calls that return a C integer.
pub data IntCall : Type 0 where
  zcert_save zcert_save_public zcert_save_secret : Ptr → Bytes → IntCall
  zcert_eq : Ptr → Ptr → IntCall
  zframe_streq : Ptr → Bytes → IntCall
  zframe_more : Ptr → IntCall
  zframe_eq : Ptr → Ptr → IntCall
  zhashx_insert : Ptr → Bytes → Ptr → IntCall
  zmsg_pushstr zmsg_addstr : Ptr → Bytes → IntCall
  zmsg_eq : Ptr → Ptr → IntCall
  zmsg_signal : Ptr → IntCall
  zpoller_add zpoller_remove : Ptr → Ptr → IntCall
  zpoller_expired zpoller_terminated : Ptr → IntCall
  zsock_bind zsock_unbind zsock_connect zsock_disconnect : Ptr → Bytes → IntCall
  zsock_attach : Ptr → Bytes → ℤ → IntCall
  zsock_send : Ptr → Bytes → IntCall
  zsock_signal : Ptr → ℕ → IntCall
  zsock_wait zsock_mechanism zsock_plain_server zsock_curve_server zsock_type : Ptr → IntCall
  zsock_sndhwm zsock_rcvhwm zsock_linger zsock_rcvtimeo zsock_sndtimeo : Ptr → IntCall
  zsock_rcvmore : Ptr → IntCall
  zsys_interrupted : IntCall

-- The calls that return a size.
pub data SizeCall : Type 0 where
  zframe_size zmsg_size : Ptr → SizeCall

-- The calls that are given the address of a pointer, and may clear or set the pointer there.
pub data SlotCall : Type 0 where
  zactor_send zmsg_send zmsg_prepend zmsg_append zmsg_addmsg : Ptr → Ptr → SlotCall
  zframe_send : Ptr → Ptr → ℕ → SlotCall
  zsock_recv : Ptr → Ptr → SlotCall

-- The calls whose result is not used.
pub data VoidCall : Type 0 where
  zactor_destroy zcert_destroy zcertstore_destroy zframe_destroy zhashx_destroy : Ptr → VoidCall
  zmsg_destroy zpoller_destroy zsock_destroy : Ptr → VoidCall
  zcert_set_meta : Ptr → Bytes → Bytes → VoidCall
  zcert_apply : Ptr → Ptr → VoidCall
  zcert_print : Ptr → VoidCall
  zcertstore_insert : Ptr → Ptr → VoidCall
  zcertstore_empty zcertstore_print : Ptr → VoidCall
  zcertstore_set_loader : Ptr → ℕ → ℕ → Ptr → VoidCall
  zframe_set_more : Ptr → ℤ → VoidCall
  zframe_reset : Ptr → Bytes → VoidCall
  zframe_print : Ptr → Option Bytes → VoidCall
  zhashx_update : Ptr → Bytes → Ptr → VoidCall
  zhashx_delete : Ptr → Bytes → VoidCall
  zmsg_remove : Ptr → Ptr → VoidCall
  zmsg_print : Ptr → VoidCall
  zpoller_set_nonstop : Ptr → ℤ → VoidCall
  zsock_flush : Ptr → VoidCall
  zsock_set_zap_domain zsock_set_plain_username zsock_set_plain_password : Ptr → Bytes → VoidCall
  zsock_set_curve_publickey zsock_set_curve_secretkey : Ptr → Bytes → VoidCall
  zsock_set_curve_serverkey zsock_set_curve_publickey_bin : Ptr → Bytes → VoidCall
  zsock_set_curve_secretkey_bin zsock_set_curve_serverkey_bin : Ptr → Bytes → VoidCall
  zsock_set_subscribe zsock_set_unsubscribe zsock_set_identity : Ptr → Bytes → VoidCall
  zsock_set_plain_server zsock_set_curve_server zsock_set_sndhwm : Ptr → ℤ → VoidCall
  zsock_set_rcvhwm zsock_set_linger zsock_set_rcvtimeo zsock_set_sndtimeo : Ptr → ℤ → VoidCall
  zsock_set_xpub_verbose : Ptr → ℤ → VoidCall
  zsys_init : VoidCall
