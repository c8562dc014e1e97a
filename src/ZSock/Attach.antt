-- ===== src/ZSock/Attach.antt =====
-- What `attach` lets C know of the endpoints.
use rust_czmq.Prelude.{Bool, true, false, ◌||◌, List, [], ◌∷◌, ◌++◌, ◌==◌, if◌then◌else◌}
use rust_czmq.Rust.Text.{Bytes, has_nul}
use rust_czmq.ZSock.{ZSock}

unfoldable pub has_comma : Bytes → Bool
has_comma [] = false
has_comma (b ∷ bs) = if b == 44 then true else has_comma bs

unfoldable pub any_nul : List Bytes → Bool
any_nul [] = false
any_nul (e ∷ es) = has_nul e || any_nul es

-- The endpoints of a text, each with a comma behind it; `seen` is the start of the next one.
unfoldable pub split_from : Bytes → Bytes → List Bytes
split_from seen [] = []
split_from seen (b ∷ bs) =
    let whole = split_from [] bs in
    let longer = split_from (seen ++ b ∷ []) bs in if b == 44 then seen ∷ whole else longer
