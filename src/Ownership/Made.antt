-- ===== src/Ownership/Made.antt =====
-- What the methods that make a handle do to a property of what is held and of the calls so far.
use rust_czmq.Prelude.{
  ◌==◌, ◌≡◌, true, false, refl, ◌∙◌, inl, inr, Option, none, some, List, ◌∷◌, Bool-cases,
  Option-cases,
}
use rust_czmq.Rust.Text.{Bytes, has_nul, is_utf8, to_text, c_string}
use rust_czmq.Ffi.{
  Ptr, PtrCall, null, Czmq, Event, Machine, map_run, unwrap, try_c_string_nul, try_c_string_eq,
}
use rust_czmq.Ownership.{unless_null}
use rust_czmq.Ownership.Balance.{acquired_by}
use rust_czmq.Ownership.Handles.{
  Handle, message, frame, cert, socket, actor, poller, hash_table, cert_store, pointer_in, Session,
}
use rust_czmq.Ownership.Keeps.{Keeps}
use rust_czmq.Ffi.Calls.{
  zmsg_new, zmsg_new_signal, zmsg_recv, zmsg_encode, zmsg_decode, zmsg_pop, zmsg_popmsg, zmsg_dup,
  zframe_new, zframe_new_empty, zframe_recv, zframe_dup, zcert_new, zcert_load, zcert_dup,
  zpoller_new, zactor_new, zactor_recv, zhashx_new, zsock_new, zsock_new_sub, zcertstore_new, Task,
  zsock_new_pub, zsock_new_req, zsock_new_rep, zsock_new_dealer, zsock_new_router, zsock_new_push,
  zsock_new_pull, zsock_new_xpub, zsock_new_xsub, zsock_new_pair, zsock_new_stream,
}
use rust_czmq.Ownership.Makers.{Maker, made_by, as_socket}
use rust_czmq.Ownership.Session.{with_made}
use rust_czmq.ZSock.{zsock_sockish, new_at}
use rust_czmq.ZSock.Constructors.{new_at_lem}

module _ (c : Czmq) (I : List Handle → List Event → Type 0) (k : Keeps I) where
  open c use {World}

  abbrev Holds : Session World → Type 0
  Holds p = I p.held p.machine.trace

  -- A maker of one call that returns a pointer: nothing is held if it is NULL, and else the pointer
  -- is.
  fresh :
      (maker : Maker) (call : PtrCall) (of : Ptr → Handle) (hs : List Handle) (s : Machine World)
      → let h = of (c.ptr_call call s.world).0 in
        let e = Event.got_ptr call (c.ptr_call call s.world).0 in
        let after : Machine World = record {
          world = (c.ptr_call call s.world).1;
          trace = e ∷ s.trace;
        } in
        let p = with_made c hs (made_by c maker s) s in
        I hs s.trace
        → acquired_by e ≡ unless_null (pointer_in h)
        → ((pointer_in h == null) ≡ true → p ≡ record { held = hs; machine = after })
        → ((pointer_in h == null) ≡ false → p ≡ record { held = h ∷ hs; machine = after })
        → Holds p
  fresh maker call of hs s b a none_made made =
      let h = of (c.ptr_call call s.world).0 in
      elim (Bool-cases (pointer_in h == null)) [
        | inl z ↦ rw (none_made z) (k.quiet _ _ _ b (a ∙ rw z) refl)
        | inr z ↦ rw (made z) (k.given _ _ _ h b a refl)
      ]

  -- A socket at an endpoint.
  opened :
      (maker : Bytes → PtrCall) (e : Bytes) (hs : List Handle) (s : Machine World)
      → I hs s.trace
      → ((p : Ptr) → acquired_by (Event.got_ptr (maker e) p) ≡ unless_null p)
      → Holds (with_made c hs (map_run (as_socket c) (new_at c maker e s)) s)
  opened maker e hs s b a =
      let p = (c.ptr_call (maker e) s.world).0 in
      elim (Bool-cases (has_nul e)) [
        | inl nul ↦ rw (new_at_lem c e s maker, nul) b
        | inr clean ↦ elim (Bool-cases (p == null)) [
          | inl z ↦ rw (new_at_lem c e s maker, clean, z) (k.quiet _ _ _ b (a p ∙ rw z) refl)
          | inr z ↦ rw (new_at_lem c e s maker, clean, z) (k.given _ _ _ (socket p) b (a p) refl)
        ]
      ]

  loaded :
      (path : Bytes) (hs : List Handle) (s : Machine World)
      → I hs s.trace
      → Holds (with_made c hs (made_by c (Maker.load_cert path) s) s)
  unfolding made_by to_text
  loaded path hs s b =
      let p = (c.ptr_call (zcert_load path) s.world).0 in
      elim (Bool-cases (is_utf8 path)) [
        | inr other ↦ rw (other, unwrap) b
        | inl good ↦ elim (Bool-cases (has_nul path)) [
          | inl nul ↦ rw (good, unwrap, try_c_string_nul path s nul) b
          | inr clean ↦ elim (Bool-cases (p == null)) [
            | inl z ↦
                rw (good, unwrap, try_c_string_eq path s clean, z, good)
                  (k.quiet _ _ _ b (rw z) refl)
            | inr z ↦
                rw (good, unwrap, try_c_string_eq path s clean, z)
                  (k.given _ _ _ (cert p) b refl refl)
          ]
        ]
      ]

  subscribed :
      (e : Bytes) (subscribe : Option Bytes) (hs : List Handle) (s : Machine World)
      → I hs s.trace
      → Holds (with_made c hs (made_by c (Maker.new_sub e subscribe) s) s)
  unfolding made_by c_string
  subscribed e none hs s b =
      let p = (c.ptr_call (zsock_new_sub e none) s.world).0 in
      elim (Bool-cases (has_nul e)) [
        | inl nul ↦ rw (nul, unwrap) b
        | inr clean ↦ elim (Bool-cases (p == null)) [
          | inl z ↦ rw (clean, unwrap, z) (k.quiet _ _ _ b (rw z) refl)
          | inr z ↦ rw (clean, unwrap, z) (k.given _ _ _ (socket p) b refl refl)
        ]
      ]
  subscribed e (some t) hs s b =
      let p = (c.ptr_call (zsock_new_sub e (some t)) s.world).0 in
      elim (Bool-cases (has_nul t)) [
        | inl nul ↦ rw (try_c_string_nul t s nul) b
        | inr plain ↦ elim (Bool-cases (has_nul e)) [
          | inl nul ↦ rw (try_c_string_eq t s plain, nul, unwrap) b
          | inr clean ↦ elim (Bool-cases (p == null)) [
            | inl z ↦ rw (try_c_string_eq t s plain, clean, unwrap, z) (k.quiet _ _ _ b (rw z) refl)
            | inr z ↦
                rw (try_c_string_eq t s plain, clean, unwrap, z)
                  (k.given _ _ _ (socket p) b refl refl)
          ]
        ]
      ]

  stored :
      (location : Option Bytes) (hs : List Handle) (s : Machine World)
      → I hs s.trace
      → Holds (with_made c hs (made_by c (Maker.new_store location) s) s)
  unfolding made_by
  stored none hs s b =
      let p = (c.ptr_call (zcertstore_new none) s.world).0 in
      elim (Bool-cases (p == null)) [
        | inl z ↦ rw z (k.quiet _ _ _ b (rw z) refl)
        | inr z ↦ rw z (k.given _ _ _ (cert_store p) b refl refl)
      ]
  stored (some l) hs s b =
      let p = (c.ptr_call (zcertstore_new (some l)) s.world).0 in
      elim (Bool-cases (has_nul l)) [
        | inl nul ↦ rw (try_c_string_nul l s nul) b
        | inr clean ↦ elim (Bool-cases (p == null)) [
          | inl z ↦ rw (try_c_string_eq l s clean, z) (k.quiet _ _ _ b (rw z) refl)
          | inr z ↦ rw (try_c_string_eq l s clean, z) (k.given _ _ _ (cert_store p) b refl refl)
        ]
      ]

  from_texts :
      (decode : Bytes → Option Bytes) (pk sk : Bytes) (hs : List Handle) (s : Machine World)
      → I hs s.trace
      → Holds (with_made c hs (made_by c (Maker.cert_from_txt decode pk sk) s) s)
  unfolding made_by
  from_texts decode pk sk hs s b = elim (Option-cases (decode pk)) [
    | inl bad ↦ rw (with_made, bad) b
    | inr (public, e) ↦ elim (Option-cases (decode sk)) [
      | inl bad ↦ rw (with_made, e, bad) b
      | inr (secret, e') ↦ rw (with_made, e, e') (k.given _ _ _ (cert _) b refl refl)
    ]
  ]

  pub made_lem :
      (maker : Maker) (hs : List Handle) (s : Machine World)
      → I hs s.trace
      → Holds (with_made c hs (made_by c maker s) s)
  unfolding made_by zsock_sockish
  made_lem Maker.new_message hs s b =
      k.given _ _ _ (message (c.ptr_call zmsg_new s.world).0) b refl refl
  made_lem Maker.new_empty_frame hs s b =
      fresh Maker.new_empty_frame zframe_new_empty frame hs s b refl (λ z. rw z) (λ z. rw z)
  made_lem (Maker.new_signal n) hs s b =
      fresh (Maker.new_signal n) (zmsg_new_signal n) message hs s b refl (λ z. rw z) (λ z. rw z)
  made_lem (Maker.new_frame t) hs s b =
      fresh (Maker.new_frame t) (zframe_new t) frame hs s b refl (λ z. rw z) (λ z. rw z)
  made_lem (Maker.recv_message z) hs s b =
      fresh (Maker.recv_message z) (zmsg_recv z.zsock) message hs s b refl (λ z. rw z) (λ z. rw z)
  made_lem (Maker.recv_frame z) hs s b =
      fresh (Maker.recv_frame z) (zframe_recv z.zsock) frame hs s b refl (λ z. rw z) (λ z. rw z)
  made_lem (Maker.encode_message q) hs s b =
      fresh (Maker.encode_message q) (zmsg_encode q) frame hs s b refl (λ z. rw z) (λ z. rw z)
  made_lem (Maker.decode_frame q) hs s b =
      fresh (Maker.decode_frame q) (zmsg_decode q) message hs s b refl (λ z. rw z) (λ z. rw z)
  made_lem (Maker.pop_frame q) hs s b =
      fresh (Maker.pop_frame q) (zmsg_pop q) frame hs s b refl (λ z. rw z) (λ z. rw z)
  made_lem (Maker.pop_message q) hs s b =
      fresh (Maker.pop_message q) (zmsg_popmsg q) message hs s b refl (λ z. rw z) (λ z. rw z)
  made_lem (Maker.dup_message q) hs s b =
      fresh (Maker.dup_message q) (zmsg_dup q) message hs s b refl (λ z. rw z) (λ z. rw z)
  made_lem (Maker.dup_frame q) hs s b =
      fresh (Maker.dup_frame q) (zframe_dup q) frame hs s b refl (λ z. rw z) (λ z. rw z)
  made_lem Maker.new_cert hs s b =
      fresh Maker.new_cert zcert_new cert hs s b refl (λ z. rw z) (λ z. rw z)
  made_lem Maker.new_poller hs s b =
      fresh Maker.new_poller zpoller_new poller hs s b refl (λ z. rw z) (λ z. rw z)
  made_lem (Maker.dup_cert q) hs s b =
      k.given _ _ _ (cert (c.ptr_call (zcert_dup q) s.world).0) b refl refl
  made_lem (Maker.new_actor task) hs s b =
      fresh (Maker.new_actor task) (zactor_new task null) actor hs s b refl (λ z. rw z) (λ z. rw z)
  made_lem Maker.new_auth hs s b =
      fresh Maker.new_auth (zactor_new Task.zauth null) actor hs s b refl (λ z. rw z) (λ z. rw z)
  made_lem (Maker.new_monitor z) hs s b =
      fresh (Maker.new_monitor z) (zactor_new Task.zmonitor z.zsock) actor hs s b refl (λ z. rw z)
        (λ z. rw z)
  made_lem (Maker.recv_from_actor q) hs s b =
      fresh (Maker.recv_from_actor q) (zactor_recv q) message hs s b refl (λ z. rw z) (λ z. rw z)
  made_lem Maker.new_hash_table hs s b =
      k.given _ _ _ (hash_table (c.ptr_call zhashx_new s.world).0) b refl refl
  made_lem (Maker.new_socket t) hs s b =
      k.given _ _ _ (socket (c.ptr_call (zsock_new t) s.world).0) b refl refl
  made_lem (Maker.cert_from_keys pk sk) hs s b = k.given _ _ _ (cert _) b refl refl
  made_lem (Maker.cert_from_txt decode pk sk) hs s b = from_texts decode pk sk hs s b
  made_lem (Maker.load_cert path) hs s b = loaded path hs s b
  made_lem (Maker.new_sub e t) hs s b = subscribed e t hs s b
  made_lem (Maker.new_store l) hs s b = stored l hs s b
  made_lem (Maker.new_pub e) hs s b = opened zsock_new_pub e hs s b (λ p. refl)
  made_lem (Maker.new_req e) hs s b = opened zsock_new_req e hs s b (λ p. refl)
  made_lem (Maker.new_rep e) hs s b = opened zsock_new_rep e hs s b (λ p. refl)
  made_lem (Maker.new_dealer e) hs s b = opened zsock_new_dealer e hs s b (λ p. refl)
  made_lem (Maker.new_router e) hs s b = opened zsock_new_router e hs s b (λ p. refl)
  made_lem (Maker.new_push e) hs s b = opened zsock_new_push e hs s b (λ p. refl)
  made_lem (Maker.new_pull e) hs s b = opened zsock_new_pull e hs s b (λ p. refl)
  made_lem (Maker.new_xpub e) hs s b = opened zsock_new_xpub e hs s b (λ p. refl)
  made_lem (Maker.new_xsub e) hs s b = opened zsock_new_xsub e hs s b (λ p. refl)
  made_lem (Maker.new_pair e) hs s b = opened zsock_new_pair e hs s b (λ p. refl)
  made_lem (Maker.new_stream e) hs s b = opened zsock_new_stream e hs s b (λ p. refl)
