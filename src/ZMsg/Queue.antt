-- ===== src/ZMsg/Queue.antt =====
-- A message as a queue of texts.
use rust_czmq.Prelude.{◌≡◌, refl, ◌∙◌, false, some, List, [], ◌∷◌, ◌++◌, map, arith, All}
use mathlib.Core.List.{append_assoc, append-nil}
use rust_czmq.Rust.Text.{
  Bytes, IsText, text, from_utf8, has_nul, c_string_or_empty-eq, until_nul-eq,
}
use rust_czmq.Ffi.{Czmq, Machine}
use rust_czmq.ZMsg.{ZMsg}
use rust_czmq.ZMsg.Frames.{
  MsgLaws, MsgOp, add_str, pop_str, Reply, added, text_popped, Does, adds, refuses, pops_text,
  pops_no_text, pops_bytes, pops_no_bytes, counts,
}
use rust_czmq.ZMsg.Refinement.{exec_all, DoesAll, finished, then_does, exec_all-DoesAll}

-- A text as it can be sent and read back.
abbrev pub IsPlain : Bytes → Type 0
IsPlain t = IsText t × (has_nul t ≡ false)

add_lem :
    {t : Bytes} {fs gs : List Bytes} → IsPlain t → Does (add_str t) fs added gs → gs ≡ fs ++ t ∷ []
add_lem {t} (_, nul) (adds _ _ e) = e ∙ rw (c_string_or_empty-eq t nul)
add_lem h (refuses _ e r _) = absurd (ground arith)
add_lem h (pops_text e _ _ _) = absurd (ground arith)
add_lem h (pops_no_text e _ _ _) = absurd (ground arith)
add_lem h (pops_bytes e _ _ _) = absurd (ground arith)
add_lem h (pops_no_bytes e _ _ _) = absurd (ground arith)
add_lem h (counts e _ _) = absurd (ground arith)

pop_lem :
    {t : Bytes} {ts gs : List Bytes} {r : Reply}
    → IsPlain t
    → Does pop_str (t ∷ ts) r gs
    → (r ≡ text_popped (some (text t))) × (gs ≡ ts)
unfolding from_utf8
pop_lem h (adds a _ _) = elim a [ ]
pop_lem h (refuses a _ _ _) = elim a [ ]
pop_lem {t} (utf8, nul) (pops_text _ f e r) =
    let same : f ≡ t = ground arith in (r ∙ rw (same, until_nul-eq t nul, utf8), ground arith)
pop_lem h (pops_no_text _ e _ _) = absurd (ground arith)
pop_lem h (pops_bytes e _ _ _) = absurd (ground arith)
pop_lem h (pops_no_bytes e _ _ _) = absurd (ground arith)
pop_lem h (counts e _ _) = absurd (ground arith)

abbrev pub pops : List Bytes → List MsgOp
pops = map (λ t. pop_str)

abbrev pub popped_all : List Bytes → List Reply
popped_all = map (λ t. text_popped (some (text t)))

pops_lem :
    (ts : List Bytes) {rs : List Reply} {hs : List Bytes}
    → All IsPlain ts
    → DoesAll (pops ts) ts rs hs
    → (rs ≡ popped_all ts) × (hs ≡ [])
pops_lem [] h (finished _) = (refl, refl)
pops_lem (t ∷ ts) (plain, h) (then_does {gs = gs} {hs = hs} {rs = rs} d ds) =
    let (e, left) = pop_lem plain d in
    let (es, empty) = pops_lem ts h (rw left at ds) in (rw (e, es), empty)

adds_lem :
    (ts : List Bytes) {ops : List MsgOp} {fs : List Bytes} {rs : List Reply} {hs : List Bytes}
    → All IsPlain ts
    → DoesAll (map add_str ts ++ ops) fs (map (λ t. added) ts ++ rs) hs
    → DoesAll ops (fs ++ ts) rs hs
adds_lem [] {fs} h d = rw append-nil d
adds_lem (t ∷ ts) {fs} (plain, h) (then_does d ds) =
    let e = add_lem plain d in rw append_assoc at (adds_lem ts h (rw e at ds))

module _ (c : Czmq) (m : ZMsg) (laws : MsgLaws c m.zmsg) where
  -- By the laws of the library, texts without NUL that `addstr` has added to an empty message, each
  -- without an error, are what as many calls of `popstr` return, in the same order; and then the
  -- message is empty.
  pub popstr-addstr :
      (ts : List Bytes) (rs : List Reply) (s s' : Machine c.World)
      → All IsPlain ts
      → laws.frames s.world ≡ []
      → exec_all c m (map add_str ts ++ pops ts) s ≡ some (map (λ t. added) ts ++ rs, s')
      → (rs ≡ popped_all ts) × (laws.frames s'.world ≡ [])
  popstr-addstr ts rs s s' h empty run =
      let (rs0, s0, run0, does) = exec_all-DoesAll c m laws (map add_str ts ++ pops ts) s in
      let e : rs0 ≡ map (λ t. added) ts ++ rs = ground arith in
      let e' : s0 ≡ s' = ground arith in
      pops_lem ts h (rw empty at (adds_lem ts h (rw (e, e') at does)))
