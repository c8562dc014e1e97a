-- ===== src/Error/Texts.antt =====
-- What the rendered text of an error tells of it.
use rust_czmq.Prelude.{◌≡◌, arith, ◌++◌}
use rust_czmq.Rust.Text.{Bytes}
use rust_czmq.Error.{ErrorKind, Error, invalid_arg, headline, display}
use rust_czmq.Error.Causes.{Foreign, cause_text}

-- No headline followed by a text is another headline followed by a text.
headline_parts :
    (k j : ErrorKind) (s t : Bytes) → headline k ++ s ≡ headline j ++ t → (k ≡ j) × (s ≡ t)
unfolding headline
headline_parts invalid_arg j s t h = ground arith
headline_parts _ j s t h = ground arith

-- Two errors that display alike have the same kind, and their causes display alike.
pub display-injective_parts :
    (render : Foreign → Bytes) (e f : Error)
    → display render e ≡ display render f
    → (e.kind ≡ f.kind) × (cause_text render e.cause ≡ cause_text render f.cause)
unfolding display
display-injective_parts render e f h =
    headline_parts e.kind f.kind (cause_text render e.cause) (cause_text render f.cause) h
