-- ===== src/ZHashX/Keys.antt =====
-- The keys of `insert_raw`, `update`, `delete` and `lookup`.
use rust_czmq.Prelude.{◌≡◌, true, []}
use rust_czmq.Rust.Text.{Bytes, has_nul, c_string_or_empty}
use rust_czmq.Error.{from_nul_error}
use rust_czmq.Ffi.{Ptr, Czmq, Machine, failed, try_c_string_nul}
use rust_czmq.ZHashX.{ZHashX, insert_raw, update, delete, lookup}

module _ (c : Czmq) (h : ZHashX) (key : Bytes) (item : Ptr) (s : Machine c.World) where
  -- A key with a NUL is refused by `insert_raw`, which then calls nothing; but `update`, `delete`
  -- and `lookup` do with it what they do with the empty key.
  pub key_with_nul :
      has_nul key ≡ true
      → (insert_raw c h key item s ≡ failed (from_nul_error key) s)
        × (update c h key item s ≡ update c h [] item s)
        × (delete c h key s ≡ delete c h [] s)
        × (lookup c h key s ≡ lookup c h [] s)
  unfolding insert_raw update delete lookup c_string_or_empty has_nul
  key_with_nul nul = (rw (try_c_string_nul key s nul), rw nul, rw nul, rw nul)
