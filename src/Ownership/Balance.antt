-- ===== src/Ownership/Balance.antt =====
-- What the crate owns by the calls that it has made: the pointers that CZMQ gave it, less those that
-- it has released.
use rust_czmq.Prelude.{ℕ, ◌+◌, ◌-◌, ◌≤◌, ◌==◌, Option, none, some, List, [], ◌∷◌, if◌then◌else◌}
use rust_czmq.Ffi.{Ptr, Event, PtrCall}
use rust_czmq.Ffi.Calls.{
  zmsg_new, zmsg_new_signal, zmsg_recv, zmsg_encode, zmsg_decode, zmsg_pop, zmsg_popmsg, zmsg_dup,
  zframe_new, zframe_new_empty, zframe_recv, zframe_dup, zcert_new, zcert_new_from, zcert_load,
  zcert_dup, zcert_meta_keys, zcertstore_new, zhashx_new, zpoller_new, zactor_new, zactor_recv,
  zsock_new, zsock_new_pub, zsock_new_req, zsock_new_rep, zsock_new_dealer, zsock_new_router,
  zsock_new_push, zsock_new_pull, zsock_new_xpub, zsock_new_xsub, zsock_new_pair, zsock_new_stream,
  zsock_new_sub, zmsg_popstr, zframe_strhex, zframe_strdup, zsock_zap_domain, zsock_plain_username,
  zsock_plain_password, zsock_curve_publickey, zsock_curve_secretkey, zsock_curve_serverkey,
  zsock_identity, zsock_recv,
}
use rust_czmq.Ownership.{unless_null, released_by}

-- The calls after which the caller must destroy or free what is returned, unless it is NULL: objects,
-- but also texts, and the list of `zcert_meta_keys`.
abbrev given_by : PtrCall → Ptr → Option Ptr
given_by zmsg_new p = unless_null p
given_by (zmsg_new_signal _) p = unless_null p
given_by (zmsg_recv _) p = unless_null p
given_by (zmsg_encode _) p = unless_null p
given_by (zmsg_decode _) p = unless_null p
given_by (zmsg_pop _) p = unless_null p
given_by (zmsg_popmsg _) p = unless_null p
given_by (zmsg_dup _) p = unless_null p
given_by (zframe_new _) p = unless_null p
given_by zframe_new_empty p = unless_null p
given_by (zframe_recv _) p = unless_null p
given_by (zframe_dup _) p = unless_null p
given_by zcert_new p = unless_null p
given_by (zcert_new_from _ _) p = unless_null p
given_by (zcert_load _) p = unless_null p
given_by (zcert_dup _) p = unless_null p
given_by (zcert_meta_keys _) p = unless_null p
given_by (zcertstore_new _) p = unless_null p
given_by zhashx_new p = unless_null p
given_by zpoller_new p = unless_null p
given_by (zactor_new _ _) p = unless_null p
given_by (zactor_recv _) p = unless_null p
given_by (zsock_new _) p = unless_null p
given_by (zsock_new_pub _) p = unless_null p
given_by (zsock_new_req _) p = unless_null p
given_by (zsock_new_rep _) p = unless_null p
given_by (zsock_new_dealer _) p = unless_null p
given_by (zsock_new_router _) p = unless_null p
given_by (zsock_new_push _) p = unless_null p
given_by (zsock_new_pull _) p = unless_null p
given_by (zsock_new_xpub _) p = unless_null p
given_by (zsock_new_xsub _) p = unless_null p
given_by (zsock_new_pair _) p = unless_null p
given_by (zsock_new_stream _) p = unless_null p
given_by (zsock_new_sub _ _) p = unless_null p
given_by (zmsg_popstr _) p = unless_null p
given_by (zframe_strhex _) p = unless_null p
given_by (zframe_strdup _) p = unless_null p
given_by (zsock_zap_domain _) p = unless_null p
given_by (zsock_plain_username _) p = unless_null p
given_by (zsock_plain_password _) p = unless_null p
given_by (zsock_curve_publickey _) p = unless_null p
given_by (zsock_curve_secretkey _) p = unless_null p
given_by (zsock_curve_serverkey _) p = unless_null p
given_by (zsock_identity _) p = unless_null p
given_by _ p = none

abbrev pub acquired_by : Event → Option Ptr
acquired_by (Event.got_ptr q p) = given_by q p
acquired_by (Event.got_slot (zsock_recv _ _) _ slot) = unless_null slot
acquired_by _ = none

-- 1 for `some q`, and 0 for anything else.
abbrev pub times : Ptr → Option Ptr → ℕ
times q none = 0
times q (some p) = if p == q then 1 else 0

-- How often a pointer was acquired and not released since.
abbrev pub balance : List Event → Ptr → ℕ
balance [] q = 0
balance (e ∷ es) q = times q (acquired_by e) + (balance es q - times q (released_by e))

-- No call releases a pointer that is not owned at the time: no double free, and no free of what
-- was given away.
abbrev pub IsSound : List Event → Type 0
IsSound [] = Unit
IsSound (e ∷ es) = ((q : Ptr) → times q (released_by e) ≤ balance es q) × IsSound es

-- How often a pointer was acquired, and how often it was released.
abbrev pub times_given : List Event → Ptr → ℕ
times_given [] q = 0
times_given (e ∷ es) q = times q (acquired_by e) + times_given es q

abbrev pub times_released : List Event → Ptr → ℕ
times_released [] q = 0
times_released (e ∷ es) q = times q (released_by e) + times_released es q
