-- ===== src/ZCert/Keys.antt =====
-- The keys that `from_keys` hands to C.
use rust_czmq.Prelude.{ℕ, zero, suc, ◌-◌, ◌≡◌, arith, [], ◌∷◌, ◌++◌, length, take, true}
use rust_czmq.Rust.Text.{Bytes}
use rust_czmq.Ffi.{Czmq, Event, Machine, done, raw_array}
use rust_czmq.Ffi.Calls.{zcert_new_from}
use rust_czmq.ZCert.{key_size, from_keys}

take-append_all : (n : ℕ) (xs ys : Bytes) → take n (xs ++ ys) ≡ take n xs ++ take (n - length xs) ys
take-append_all zero xs ys = ground arith
take-append_all (suc n) [] ys = ground arith
take-append_all (suc n) (x ∷ xs) ys = ground (arith, take-append_all n xs ys)

module _ (c : Czmq) (s : Machine c.World) where
  -- The first 32 bytes of a key, filled up from the memory behind it.
  abbrev pub key_seen : Bytes → Bytes
  key_seen key = take key_size key ++ take (key_size - length key) (c.beyond s.world key)

  -- `from_keys` makes an owned certificate of the first 32 bytes of both keys; a shorter key is
  -- filled up from the memory behind its slice.
  pub from_keys_lem :
      (public_key secret_key : Bytes)
      → from_keys c public_key secret_key s
        ≡ done
            (record {
              zcert =
                  (c.ptr_call
                    (zcert_new_from (key_seen public_key) (key_seen secret_key))
                    s.world).0;
              owned = true;
            })
            (record {
              world =
                  (c.ptr_call
                    (zcert_new_from (key_seen public_key) (key_seen secret_key))
                    s.world).1;
              trace =
                  Event.got_ptr
                    (zcert_new_from (key_seen public_key) (key_seen secret_key))
                    (c.ptr_call
                      (zcert_new_from (key_seen public_key) (key_seen secret_key))
                      s.world).0
                  ∷ s.trace;
            })
  unfolding from_keys raw_array
  from_keys_lem public_key secret_key = rw (
    take-append_all key_size public_key (c.beyond s.world public_key),
    take-append_all key_size secret_key (c.beyond s.world secret_key),
  )
