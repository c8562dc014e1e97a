-- ===== src/Witnesses/Memory.antt =====
-- Memory for any number of messages.
use rust_czmq.Prelude.{
  ℕ, zero, suc, ◌≡◌, ◌≢◌, refl, ap, sym, ◌∙◌, Option, none, some, List, [], ◌∷◌, ◌++◌, map, arith,
  bound, bound_there, length,
}
use mathlib.Core.Path.{fun_ext}
use mathlib.Core.List.{append_assoc, append-nil}
use rust_czmq.Rust.Text.{Bytes}
use rust_czmq.Ffi.{Ptr}
use rust_czmq.ZMsg.Program.{message_handle}
use rust_czmq.ZMsg.Store.{Held, Store}

-- A frame of a nested message is its bytes plus one, and a zero behind them.
abbrev pub encoded : Held → Bytes
encoded [] = []
encoded (f ∷ fs) = map suc f ++ 0 ∷ encoded fs

abbrev pub with_first : Bytes → Option Held → Option Held
with_first f none = none
with_first f (some fs) = some (f ∷ fs)

abbrev pub decoded_from : Bytes → Bytes → Option Held
decoded_from [] [] = some []
decoded_from (b ∷ seen) [] = none
decoded_from seen (zero ∷ bs) = with_first seen (decoded_from [] bs)
decoded_from seen (suc b ∷ bs) = decoded_from (seen ++ b ∷ []) bs

-- The cells of the memory; `none` is a message that was destroyed.
abbrev pub Memory : Type 0
Memory = List (Option Held)

abbrev pub cell : Memory → ℕ → Option Held
cell [] k = none
cell (v ∷ w) zero = v
cell (v ∷ w) (suc k) = cell w k

abbrev pub with_cell : Memory → ℕ → Option Held → Memory
with_cell [] k v = []
with_cell (u ∷ w) zero v = v ∷ w
with_cell (u ∷ w) (suc k) v = u ∷ with_cell w k v

pub cell_free : (w : Memory) → cell w (length w) ≡ none
cell_free [] = refl
cell_free (v ∷ w) = cell_free w

cell-append :
    (w : Memory) (v : Option Held) (j : ℕ) → cell (w ++ v ∷ []) j ≡ bound (cell w) (length w) v j
cell-append [] v zero = refl
cell-append [] v (suc j) = ground arith
cell-append (u ∷ w) v zero = ground arith
cell-append (u ∷ w) v (suc j) = ground (arith, cell-append w v j)

cell-with_cell :
    (w : Memory) (k : ℕ) (h : Held) (v : Option Held) (j : ℕ)
    → cell w k ≡ some h
    → cell (with_cell w k v) j ≡ bound (cell w) k v j
cell-with_cell [] k h v j e = ground arith
cell-with_cell (u ∷ w) zero h v zero e = ground arith
cell-with_cell (u ∷ w) zero h v (suc j) e = ground arith
cell-with_cell (u ∷ w) (suc k) h v zero e = ground arith
cell-with_cell (u ∷ w) (suc k) h v (suc j) e = ground (arith, cell-with_cell w k h v j e)

decoded_frame :
    (seen f rest : Bytes)
    → decoded_from seen (map suc f ++ 0 ∷ rest) ≡ with_first (seen ++ f) (decoded_from [] rest)
decoded_frame seen [] rest = rw append-nil
decoded_frame seen (b ∷ f) rest = decoded_frame (seen ++ b ∷ []) f rest ∙ rw append_assoc

pub decoded_from-encoded : (fs : Held) → decoded_from [] (encoded fs) ≡ some fs
decoded_from-encoded [] = refl
decoded_from-encoded (f ∷ fs) = decoded_frame [] f (encoded fs) ∙ rw (decoded_from-encoded fs)

-- The message at a pointer; there is none at NULL.
abbrev pub at : Memory → Store
at w zero = none
at w (suc k) = cell w k

abbrev pub put : Memory → Ptr → Held → Memory
put w zero fs = w
put w (suc k) fs = with_cell w k (some fs)

abbrev pub freed : Memory → Ptr → Memory
freed w zero = w
freed w (suc k) = with_cell w k none

length-with_cell : (w : Memory) (k : ℕ) (v : Option Held) → length (with_cell w k v) ≡ length w
length-with_cell [] k v = refl
length-with_cell (u ∷ w) zero v = refl
length-with_cell (u ∷ w) (suc k) v = ap suc (length-with_cell w k v)

length-put : (w : Memory) (m : Ptr) (fs : Held) → length (put w m fs) ≡ length w
length-put w zero fs = refl
length-put w (suc k) fs = length-with_cell w k (some fs)

at-append :
    (w : Memory) (fs : Held) (p : Ptr)
    → at (w ++ some fs ∷ []) p ≡ bound (at w) (suc (length w)) (some fs) p
at-append w fs zero = ground arith
at-append w fs (suc j) = ground (arith, cell-append w (some fs) j)

at-put :
    (w : Memory) (m : Ptr) (h fs : Held) (p : Ptr)
    → at w m ≡ some h
    → at (put w m fs) p ≡ bound (at w) m (some fs) p
at-put w zero h fs p e = ground arith
at-put w (suc k) h fs zero e = ground arith
at-put w (suc k) h fs (suc j) e = ground (arith, cell-with_cell w k h (some fs) j e)

at-freed :
    (w : Memory) (m : Ptr) (h : Held) (p : Ptr)
    → at w m ≡ some h
    → at (freed w m) p ≡ bound (at w) m none p
at-freed w zero h p e = ground arith
at-freed w (suc k) h zero e = ground arith
at-freed w (suc k) h (suc j) e = ground (arith, cell-with_cell w k h none j e)

pub appended :
    (w : Memory) (fs : Held) → at (w ++ some fs ∷ []) ≡ bound (at w) (suc (length w)) (some fs)
appended w fs = fun_ext (at-append w fs)

pub changed_whole :
    (w : Memory) (m : Ptr) (h fs : Held)
    → at w m ≡ some h
    → at (put w m fs) ≡ bound (at w) m (some fs)
changed_whole w m h fs e = fun_ext (λ p. at-put w m h fs p e)

pub freed_whole :
    (w : Memory) (m : Ptr) (h : Held) → at w m ≡ some h → at (freed w m) ≡ bound (at w) m none
freed_whole w m h e = fun_ext (λ p. at-freed w m h p e)

-- The message that is added is still there when the other one was changed.
still_there :
    (w : Memory) (m o : Ptr) (fs ks gs : Held)
    → at w m ≡ some fs
    → at w o ≡ some gs
    → m ≢ o
    → at (put w m ks) o ≡ some gs
still_there w m o fs ks gs e e' n =
    at-put w m fs ks o e ∙ bound_there (at w) m (some ks) o (λ p. n (sym p)) ∙ e'

pub nested_whole :
    (w : Memory) (m o : Ptr) (fs ks gs : Held)
    → at w m ≡ some fs
    → at w o ≡ some gs
    → m ≢ o
    → at (freed (put w m ks) o) ≡ bound (bound (at w) m (some ks)) o none
nested_whole w m o fs ks gs e e' n =
    freed_whole (put w m ks) o gs (still_there w m o fs ks gs e e' n)
    ∙ ap (λ st. bound st o none) (changed_whole w m fs ks e)

pub unnested_at :
    (w : Memory) (m : Ptr) (fs ks gs : Held)
    → at w m ≡ some fs
    → (at w (suc (length (put w m ks))) ≡ none)
      × (at (put w m ks ++ some gs ∷ [])
          ≡ bound (bound (at w) m (some ks)) (suc (length (put w m ks))) (some gs))
unnested_at w m fs ks gs e = (
  rw (length-put w m ks) (cell_free w),
  appended (put w m ks) gs
      ∙ ap (λ st. bound st (suc (length (put w m ks))) (some gs)) (changed_whole w m fs ks e),
)
