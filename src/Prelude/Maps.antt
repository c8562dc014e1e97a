-- ===== src/Prelude/Maps.antt =====
-- Finite maps as functions from numbers, changed at one place.
use Prim.Native.Nat.{ℕ}
use mathlib.Core.Path.{◌≡◌, sym, ◌∙◌}
use mathlib.Core.Logic.{◌≢◌, ◌⊎◌, inl, inr}
use mathlib.Core.Bool.{true, false}
use mathlib.Core.Option.{Option, some}
use native.Mathlib.Omega.{arith}
use rust_czmq.Prelude.Tests.{◌==◌, Bool-cases, if◌then◌else◌}

-- Either the place that was changed, or another one.
pub place : (j k : ℕ) → (j ≡ k) ⊎ (j ≢ k)
place j k = elim (Bool-cases (j == k)) [ inl e ↦ inl (ground arith) | inr e ↦ inr (ground arith) ]

module _ {ℓ} {A : Type ℓ} where
  abbrev pub bound : (ℕ → Option A) → ℕ → Option A → ℕ → Option A
  bound t k v = λ j. if j == k then v else t j

  pub bound_here : (t : ℕ → Option A) (k : ℕ) (v : Option A) → bound t k v k ≡ v
  bound_here t k v = let e : (k == k) ≡ true = ground arith in rw e

  pub bound_there : (t : ℕ → Option A) (k : ℕ) (v : Option A) (j : ℕ) → j ≢ k → bound t k v j ≡ t j
  bound_there t k v j n = let e : (j == k) ≡ false = ground arith in rw e

  -- What is read from a changed map is either new or was there.
  pub bound-some :
      (t : ℕ → Option A) (k : ℕ) (v : Option A) (j : ℕ) (a : A)
      → bound t k v j ≡ some a
      → ((j ≡ k) × (v ≡ some a)) ⊎ ((j ≢ k) × (t j ≡ some a))
  bound-some t k v j a h = elim (place j k) [
    | inl e ↦ let new : bound t k v j ≡ v = rw e (bound_here t k v) in inl (e, sym new ∙ h)
    | inr n ↦ inr (n, sym (bound_there t k v j n) ∙ h)
  ]
