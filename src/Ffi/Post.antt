-- ===== src/Ffi/Post.antt =====
-- What holds where a run ends: one property where it returns, and one where it fails or panics.
use rust_czmq.Ffi.{Machine, Run, Io, done, failed, panicked, stuck, and_then, cleaned, map_run}

module _ {W A : Type 0} where
  abbrev pub Post : (A → Machine W → Type 0) → (Machine W → Type 0) → Run W A → Type 0
  Post P Q (done a s) = P a s
  Post P Q (failed e s) = Q s
  Post P Q (panicked s) = Q s
  Post P Q stuck = Unit

  -- One property for all ends.
  abbrev pub Ends : (Machine W → Type 0) → Run W A → Type 0
  Ends Q = Post (λ _. Q) Q

module _ {W A B : Type 0} (P : A → Machine W → Type 0) (R : B → Machine W → Type 0)
    (Q : Machine W → Type 0) where
  pub and_then-Post :
      (r : Run W A) (f : A → Io W B)
      → Post P Q r
      → ((a : A) (s : Machine W) → P a s → Post R Q (f a s))
      → Post R Q (and_then r f)
  and_then-Post (done a s) f p next = next a s p
  and_then-Post (failed e s) f q next = q
  and_then-Post (panicked s) f q next = q
  and_then-Post stuck f q next = tt

module _ {W A : Type 0} (P : A → Machine W → Type 0) (Q Q' : Machine W → Type 0) where
  -- What is in scope is dropped where the run fails or panics.
  pub cleaned-Post :
      (r : Run W A) (clean : Io W (Unit {0}))
      → Post P Q' r
      → ((s : Machine W) → Q' s → Ends Q (clean s))
      → Post P Q (cleaned r clean)
  cleaned-Post (done a s) clean p dropped = p
  cleaned-Post (failed e s) clean q dropped =
      and_then-Post (λ _. Q) P Q (clean s) _ (dropped s q) (λ _ _ h. h)
  cleaned-Post (panicked s) clean q dropped =
      and_then-Post (λ _. Q) P Q (clean s) _ (dropped s q) (λ _ _ h. h)
  cleaned-Post stuck clean q dropped = tt

pub map_run-Ends :
    {W A B : Type 0} (Q : Machine W → Type 0) (f : A → B) (r : Run W A)
    → Ends Q r
    → Ends Q (map_run f r)
map_run-Ends Q f (done a s) h = h
map_run-Ends Q f (failed e s) h = h
map_run-Ends Q f (panicked s) h = h
map_run-Ends Q f stuck h = tt
