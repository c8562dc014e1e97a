-- ===== src/Panics/Making.antt =====
-- Which calls of a program panic, of all methods that make, consume or give a handle, or that speak to
-- an actor.
use rust_czmq.Prelude.{
  ◌==◌, ◌≡◌, refl, Bool, true, false, not, Option, none, some, Bool-cases, Option-cases, inl, inr,
  if◌then◌else◌,
}
use rust_czmq.Rust.Text.{Bytes, has_nul, is_utf8, to_text, c_string}
use rust_czmq.Ffi.{
  null, Czmq, Machine, Run, done, failed, panicked, stuck, map_run, unwrap, try_c_string_nul,
  try_c_string_eq,
}
use rust_czmq.Ffi.Calls.{
  zmsg_new_signal, zmsg_recv, zmsg_encode, zmsg_decode, zmsg_popmsg, zmsg_dup, zframe_new,
  zframe_new_empty, zframe_recv, zframe_dup, zcert_new, zcert_load, zpoller_new, zactor_new,
  zactor_recv, zsock_new_sub, zcertstore_new, Task, PtrCall, zsock_new_pub, zsock_new_req,
  zsock_new_rep, zsock_new_dealer, zsock_new_router, zsock_new_push, zsock_new_pull, zsock_new_xpub,
  zsock_new_xsub, zsock_new_pair, zsock_new_stream,
}
use rust_czmq.Ownership.Makers.{Maker, made_by, as_socket}
use rust_czmq.ZSock.{zsock_sockish, new_at}
use rust_czmq.ZSock.Constructors.{new_at_lem}

module _ {W A : Type 0} where
  abbrev pub has_panicked : Run W A → Bool
  has_panicked (panicked _) = true
  has_panicked _ = false

module _ {W A B : Type 0} where
  pub map_run-has_panicked : (f : A → B) (r : Run W A) → has_panicked (map_run f r) ≡ has_panicked r
  map_run-has_panicked f (done a s) = refl
  map_run-has_panicked f (failed e s) = refl
  map_run-has_panicked f (panicked s) = refl
  map_run-has_panicked f stuck = refl

-- A constructor of a socket panics on an endpoint with a NUL, if what comes before it succeeds, and
-- `ZCert::load` on a path that is no text.
abbrev pub maker_panics : Maker → Bool
maker_panics (Maker.new_pub e) = has_nul e
maker_panics (Maker.new_req e) = has_nul e
maker_panics (Maker.new_rep e) = has_nul e
maker_panics (Maker.new_dealer e) = has_nul e
maker_panics (Maker.new_router e) = has_nul e
maker_panics (Maker.new_push e) = has_nul e
maker_panics (Maker.new_pull e) = has_nul e
maker_panics (Maker.new_xpub e) = has_nul e
maker_panics (Maker.new_xsub e) = has_nul e
maker_panics (Maker.new_pair e) = has_nul e
maker_panics (Maker.new_stream e) = has_nul e
maker_panics (Maker.new_sub e none) = has_nul e
maker_panics (Maker.new_sub e (some t)) = if has_nul t then false else has_nul e
maker_panics (Maker.load_cert path) = not (is_utf8 path)
maker_panics _ = false

module _ (c : Czmq) (s : Machine c.World) where
  open c use {World}

  opened :
      (maker : Bytes → PtrCall) (e : Bytes)
      → has_panicked (map_run (as_socket c) (new_at c maker e s)) ≡ has_nul e
  opened maker e = elim (Bool-cases (has_nul e)) [
    | inl nul ↦ rw (new_at_lem c e s maker, nul)
    | inr clean ↦ elim (Bool-cases ((c.ptr_call (maker e) s.world).0 == null)) [
      | inl z ↦ rw (new_at_lem c e s maker, clean, z)
      | inr z ↦ rw (new_at_lem c e s maker, clean, z)
    ]
  ]

  loaded : (path : Bytes) → has_panicked (made_by c (Maker.load_cert path) s) ≡ not (is_utf8 path)
  unfolding made_by to_text
  loaded path = elim (Bool-cases (is_utf8 path)) [
    | inr other ↦ rw (other, unwrap)
    | inl good ↦ elim (Bool-cases (has_nul path)) [
      | inl nul ↦ rw (good, unwrap, try_c_string_nul path s nul)
      | inr clean ↦ elim (Bool-cases ((c.ptr_call (zcert_load path) s.world).0 == null)) [
        | inl z ↦ rw (good, unwrap, try_c_string_eq path s clean, z, good)
        | inr z ↦ rw (good, unwrap, try_c_string_eq path s clean, z)
      ]
    ]
  ]

  subscribed :
      (e : Bytes) (t : Option Bytes)
      → has_panicked (made_by c (Maker.new_sub e t) s) ≡ maker_panics (Maker.new_sub e t)
  unfolding made_by c_string
  subscribed e none = elim (Bool-cases (has_nul e)) [
    | inl nul ↦ rw (nul, unwrap)
    | inr clean ↦ elim (Bool-cases ((c.ptr_call (zsock_new_sub e none) s.world).0 == null)) [
      | inl z ↦ rw (clean, unwrap, z)
      | inr z ↦ rw (clean, unwrap, z)
    ]
  ]
  subscribed e (some t) = elim (Bool-cases (has_nul t)) [
    | inl nul ↦ rw (try_c_string_nul t s nul, nul)
    | inr plain ↦ elim (Bool-cases (has_nul e)) [
      | inl nul ↦ rw (try_c_string_eq t s plain, plain, nul, unwrap)
      | inr clean ↦ elim (Bool-cases ((c.ptr_call (zsock_new_sub e (some t)) s.world).0 == null)) [
        | inl z ↦ rw (try_c_string_eq t s plain, plain, clean, unwrap, z)
        | inr z ↦ rw (try_c_string_eq t s plain, plain, clean, unwrap, z)
      ]
    ]
  ]

  stored : (l : Option Bytes) → has_panicked (made_by c (Maker.new_store l) s) ≡ false
  unfolding made_by
  stored none = elim (Bool-cases ((c.ptr_call (zcertstore_new none) s.world).0 == null)) [
    | inl z ↦ rw z
    | inr z ↦ rw z
  ]
  stored (some l) = elim (Bool-cases (has_nul l)) [
    | inl nul ↦ rw (try_c_string_nul l s nul)
    | inr clean ↦ elim (Bool-cases ((c.ptr_call (zcertstore_new (some l)) s.world).0 == null)) [
      | inl z ↦ rw (try_c_string_eq l s clean, z)
      | inr z ↦ rw (try_c_string_eq l s clean, z)
    ]
  ]

  from_texts :
      (decode : Bytes → Option Bytes) (pk sk : Bytes)
      → has_panicked (made_by c (Maker.cert_from_txt decode pk sk) s) ≡ false
  unfolding made_by
  from_texts decode pk sk = elim (Option-cases (decode pk)) [
    | inl bad ↦ rw (map_run, bad)
    | inr (public, e) ↦ elim (Option-cases (decode sk)) [
      | inl bad ↦ rw (map_run, e, bad)
      | inr (secret, e') ↦ rw (map_run, e, e')
    ]
  ]

  pub made_by-has_panicked : (maker : Maker) → has_panicked (made_by c maker s) ≡ maker_panics maker
  unfolding made_by zsock_sockish
  made_by-has_panicked Maker.new_empty_frame =
      elim (Bool-cases ((c.ptr_call zframe_new_empty s.world).0 == null)) [
        | inl z ↦ rw z
        | inr z ↦ rw z
      ]
  made_by-has_panicked (Maker.new_signal n) =
      elim (Bool-cases ((c.ptr_call (zmsg_new_signal n) s.world).0 == null)) [
        | inl z ↦ rw z
        | inr z ↦ rw z
      ]
  made_by-has_panicked (Maker.new_frame t) =
      elim (Bool-cases ((c.ptr_call (zframe_new t) s.world).0 == null)) [
        | inl z ↦ rw z
        | inr z ↦ rw z
      ]
  made_by-has_panicked (Maker.recv_message z) =
      elim (Bool-cases ((c.ptr_call (zmsg_recv z.zsock) s.world).0 == null)) [
        | inl z ↦ rw z
        | inr z ↦ rw z
      ]
  made_by-has_panicked (Maker.recv_frame z) =
      elim (Bool-cases ((c.ptr_call (zframe_recv z.zsock) s.world).0 == null)) [
        | inl z ↦ rw z
        | inr z ↦ rw z
      ]
  made_by-has_panicked (Maker.encode_message q) =
      elim (Bool-cases ((c.ptr_call (zmsg_encode q) s.world).0 == null)) [
        | inl z ↦ rw z
        | inr z ↦ rw z
      ]
  made_by-has_panicked (Maker.decode_frame q) =
      elim (Bool-cases ((c.ptr_call (zmsg_decode q) s.world).0 == null)) [
        | inl z ↦ rw z
        | inr z ↦ rw z
      ]
  made_by-has_panicked (Maker.pop_frame q) = refl
  made_by-has_panicked (Maker.pop_message q) =
      elim (Bool-cases ((c.ptr_call (zmsg_popmsg q) s.world).0 == null)) [
        | inl z ↦ rw z
        | inr z ↦ rw z
      ]
  made_by-has_panicked (Maker.dup_message q) =
      elim (Bool-cases ((c.ptr_call (zmsg_dup q) s.world).0 == null)) [
        | inl z ↦ rw z
        | inr z ↦ rw z
      ]
  made_by-has_panicked (Maker.dup_frame q) =
      elim (Bool-cases ((c.ptr_call (zframe_dup q) s.world).0 == null)) [
        | inl z ↦ rw z
        | inr z ↦ rw z
      ]
  made_by-has_panicked Maker.new_cert =
      elim (Bool-cases ((c.ptr_call zcert_new s.world).0 == null)) [ inl z ↦ rw z | inr z ↦ rw z ]
  made_by-has_panicked Maker.new_poller =
      elim (Bool-cases ((c.ptr_call zpoller_new s.world).0 == null)) [ inl z ↦ rw z | inr z ↦ rw z ]
  made_by-has_panicked (Maker.new_actor task) =
      elim (Bool-cases ((c.ptr_call (zactor_new task null) s.world).0 == null)) [
        | inl z ↦ rw z
        | inr z ↦ rw z
      ]
  made_by-has_panicked Maker.new_auth =
      elim (Bool-cases ((c.ptr_call (zactor_new Task.zauth null) s.world).0 == null)) [
        | inl z ↦ rw z
        | inr z ↦ rw z
      ]
  made_by-has_panicked (Maker.new_monitor z) =
      elim (Bool-cases ((c.ptr_call (zactor_new Task.zmonitor z.zsock) s.world).0 == null)) [
        | inl z ↦ rw z
        | inr z ↦ rw z
      ]
  made_by-has_panicked (Maker.recv_from_actor q) =
      elim (Bool-cases ((c.ptr_call (zactor_recv q) s.world).0 == null)) [
        | inl z ↦ rw z
        | inr z ↦ rw z
      ]
  made_by-has_panicked Maker.new_message = refl
  made_by-has_panicked Maker.new_hash_table = refl
  made_by-has_panicked (Maker.dup_cert q) = refl
  made_by-has_panicked (Maker.new_socket t) = refl
  made_by-has_panicked (Maker.cert_from_keys pk sk) = refl
  made_by-has_panicked (Maker.cert_from_txt decode pk sk) = from_texts decode pk sk
  made_by-has_panicked (Maker.load_cert path) = loaded path
  made_by-has_panicked (Maker.new_sub e t) = subscribed e t
  made_by-has_panicked (Maker.new_store l) = stored l
  made_by-has_panicked (Maker.new_pub e) = opened zsock_new_pub e
  made_by-has_panicked (Maker.new_req e) = opened zsock_new_req e
  made_by-has_panicked (Maker.new_rep e) = opened zsock_new_rep e
  made_by-has_panicked (Maker.new_dealer e) = opened zsock_new_dealer e
  made_by-has_panicked (Maker.new_router e) = opened zsock_new_router e
  made_by-has_panicked (Maker.new_push e) = opened zsock_new_push e
  made_by-has_panicked (Maker.new_pull e) = opened zsock_new_pull e
  made_by-has_panicked (Maker.new_xpub e) = opened zsock_new_xpub e
  made_by-has_panicked (Maker.new_xsub e) = opened zsock_new_xsub e
  made_by-has_panicked (Maker.new_pair e) = opened zsock_new_pair e
  made_by-has_panicked (Maker.new_stream e) = opened zsock_new_stream e
