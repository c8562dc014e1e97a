-- ===== src/ZMsg/Nested.antt =====
-- A message that is put into an empty one by `addmsg` and taken out by `popmsg`.
use rust_czmq.Prelude.{
  ℕ, ◌≡◌, refl, ◌∙◌, true, Option, none, some, [], ◌∷◌, ◌++◌, arith, bound, bound_here, bound_there,
}
use rust_czmq.Rust.Text.{Bytes}
use rust_czmq.Ffi.{Czmq, Machine}
use rust_czmq.Variables.{Stands, handle_to}
use rust_czmq.ZMsg.{ZMsg}
use rust_czmq.ZMsg.Program.{
  message_handle, nest, unnest, Reply, returned, found, Values, Uses, Does, adds_text, adds_not,
  nests, unnests, unnests_none, unnests_not, does_nothing, uses_opened, uses_added, DoesAll,
  finished, then_does, Vars, run_messages,
}
use rust_czmq.ZMsg.Store.{Held, MessageLaws}
use rust_czmq.ZMsg.Values.{run_messages-DoesAll}

opened_var : {z x w : ℕ} → Uses (unnest z x) w → w ≡ x
opened_var (uses_opened _ _) = refl
opened_var (uses_added _ _ _ _ rule) = elim rule [ ]

module _ (code : Held → Bytes) (decoded : Bytes → Option Held)
    (decoded-code : (fs : Held) → decoded (code fs) ≡ some fs) where
  nested_lem :
      {x y : ℕ} {vs us : Values} (fs gs : Held)
      → Does code decoded (nest x y) vs returned us
      → vs x ≡ some fs
      → vs y ≡ some gs
      → us x ≡ some (fs ++ code gs ∷ [])
  nested_lem fs gs (nests x y vs hs ks n e e') v v' =
      let same : hs ≡ fs = ground arith in
      let same' : ks ≡ gs = ground arith in
      let us = bound vs x (some (hs ++ code ks ∷ [])) in
      bound_there us y none x n ∙ bound_here vs x (some (hs ++ code ks ∷ [])) ∙ rw (same, same')
  nested_lem fs gs (adds_text _ x vs hs ks e rule) v v' = elim rule [ ]

  unnested_lem :
      {z x : ℕ} {vs us : Values} {r : Reply} (gs : Held)
      → Does code decoded (unnest z x) vs r us
      → vs x ≡ some (code gs ∷ [])
      → (r ≡ found true) × (us z ≡ some gs)
  unnested_lem gs (unnests z x vs f fs ks e d) v =
      let first : f ≡ code gs = ground arith in
      let whole : decoded f ≡ some gs = rw first (decoded-code gs) in
      let same : ks ≡ gs = ground arith in
      (refl, rw same (bound_here (bound vs x (some fs)) z (some gs)))
  unnested_lem gs (unnests_none z x vs e) v = absurd (ground arith)
  unnested_lem gs (unnests_not z x vs f fs ks e d either) v =
      let first : f ≡ code gs = ground arith in
      let whole : decoded f ≡ some gs = rw first (decoded-code gs) in absurd (ground arith)
  unnested_lem gs (adds_text _ _ _ _ _ _ rule) v = elim rule [ ]
  unnested_lem gs (adds_not _ _ _ _ _ _ rule) v = elim rule [ ]
  unnested_lem {z} {x} gs (does_nothing _ w vs e uses) v =
      let same : w ≡ x = opened_var uses in absurd (ground arith)

module _ (c : Czmq) (laws : MessageLaws c) where
  open laws use {held, code, decoded}

  found_again :
      {x y z : ℕ} {vs ws : Values} {r : Reply} (gs : Held)
      → DoesAll code decoded (nest x y ∷ unnest z x ∷ []) vs (returned ∷ r ∷ []) ws
      → vs x ≡ some []
      → vs y ≡ some gs
      → (r ≡ found true) × (ws z ≡ some gs)
  found_again gs (then_does d (then_does d' (finished _))) v v' =
      unnested_lem code decoded laws.decoded-code gs d'
        (nested_lem code decoded laws.decoded-code [] gs d v v')

  -- By the laws of the library, a message that `addmsg` has put into an empty message without an error
  -- is found by `popmsg`, and the message that `popmsg` returns has the same frames in the same order,
  -- is owned, and is assigned to the variable that was named.
  pub popmsg-addmsg :
      (x y z : ℕ) (gs : Held) (r : Reply) (env env' : Vars) (vs : Values) (s s' : Machine c.World)
      → Stands env vs (held s.world)
      → vs x ≡ some []
      → vs y ≡ some gs
      → run_messages c (nest x y ∷ unnest z x ∷ []) env s ≡ some (returned ∷ r ∷ [], env', s')
      → (r ≡ found true)
        × ((m : ZMsg) × (env' z ≡ some m) × (m.owned ≡ true) × (held s'.world m.zmsg ≡ some gs))
  popmsg-addmsg x y z gs r env env' vs s s' stands v v' run =
      let (rs, env0, ws, s0, run0, does, stands') =
        run_messages-DoesAll c laws (nest x y ∷ unnest z x ∷ []) env vs s stands in
      let e : rs ≡ returned ∷ r ∷ [] = ground arith in
      let e' : env0 ≡ env' = ground arith in
      let e'' : s0 ≡ s' = ground arith in
      let (told, value) = found_again gs (rw e at does) v v' in
      let held_there = handle_to env0 ws (held s0.world) stands' z gs value in
      (told, rw (e', e'') at held_there)
