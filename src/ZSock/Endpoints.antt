-- ===== src/ZSock/Endpoints.antt =====
-- The list of endpoints that `attach` hands to C.
use rust_czmq.Prelude.{ℕ, suc, ◌+◌, ◌≡◌, ◌∙◌, true, List, [], ◌∷◌, ◌++◌, ltb, arith, length}
use mathlib.Core.List.{append_assoc}
use rust_czmq.Rust.Text.{Bytes, ascii}
use rust_czmq.ZSock.{concat_loop, concat_endpoints}

-- The endpoints with a comma between any two.
unfoldable pub joined : Bytes → List Bytes → Bytes
joined e [] = e
joined e (e' ∷ es) = e ++ ascii "," ++ joined e' es

concat_loop_lem :
    (count iter : ℕ) (e : Bytes) (es : List Bytes) (done_so_far : Bytes)
    → iter + suc (length es) ≡ count
    → concat_loop count iter (e ∷ es) done_so_far ≡ done_so_far ++ joined e es ++ ascii ","
unfolding concat_loop joined
concat_loop_lem count iter e [] before h =
    let more : ltb iter count ≡ true = ground arith in rw (more, append_assoc)
concat_loop_lem count iter e (e' ∷ es) before h =
    let more : ltb iter count ≡ true = ground arith in
    rw more (
      concat_loop_lem count (iter + 1) e' es ((before ++ e) ++ ascii ",") (omega arith)
      ∙ simp append_assoc)

-- `concat_endpoints` puts a comma behind every endpoint, the last one included: its test on the
-- number of endpoints is true in every round.
pub concat_endpoints-joined :
    (e : Bytes) (es : List Bytes) → concat_endpoints (e ∷ es) ≡ joined e es ++ ascii ","
unfolding concat_endpoints
concat_endpoints-joined e es = concat_loop_lem (length (e ∷ es)) 0 e es [] (omega arith)
