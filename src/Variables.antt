-- ===== src/Variables.antt =====
-- The invariant of a program with variables that hold handles, such as ZFrame: each of them owns what
-- it points to, that is in memory, and no two variables have the same pointer.
use rust_czmq.Prelude.{
  ℕ, ◌≡◌, ◌≢◌, ◌∙◌, sym, ◌⊎◌, inl, inr, Bool, true, Option, none, some, arith, bound, bound_here,
  bound_there, bound-some, place,
}
use rust_czmq.Ffi.{Ptr}

-- What such a handle is.
pub record Handle (H : Type 0) : Type 0 where
  pub address : H → Ptr
  pub is_owned : H → Bool

module _ {H : Type 0} ⦃d : Handle H⦄ where
  -- No variable has the pointer.
  abbrev pub NotIn : (ℕ → Option H) → Ptr → Type 0
  NotIn env p = (y : ℕ) (g : H) → env y ≡ some g → (d.address g) ≢ p

module _ {H V : Type 0} ⦃d : Handle H⦄ where
  abbrev pub Known : (ℕ → Option H) → (ℕ → Option V) → (Ptr → Option V) → ℕ → Type 0
  Known env vs st x =
      ((env x ≡ none) × (vs x ≡ none))
      ⊎ ((f : H) × (h : V) × (env x ≡ some f)
          × (vs x ≡ some h)
          × ((d.is_owned f) ≡ true)
          × (st (d.address f) ≡ some h))

  pub record Stands (env : (ℕ → Option H)) (vs : (ℕ → Option V)) (st : (Ptr → Option V))
      : Type 0 where
    pub known : (x : ℕ) → Known env vs st x
    pub apart :
        (x y : ℕ) (f g : H)
        → env x ≡ some f
        → env y ≡ some g
        → (d.address f) ≡ (d.address g)
        → x ≡ y

  module _ (env : (ℕ → Option H)) (vs : (ℕ → Option V)) (st : (Ptr → Option V))
      (stands : Stands env vs st) where
    pub stored :
        (y : ℕ) (g : H)
        → env y ≡ some g
        → (h : V) × (vs y ≡ some h) × ((d.is_owned g) ≡ true) × (st (d.address g) ≡ some h)
    stored y g e = elim (stands.known y) [
      | inl (e', _) ↦ ground arith
      | inr (f, h, e', v, o, s) ↦
          let same : f ≡ g = ground arith in (h, v, rw (sym same) o, rw (sym same) s)
    ]

    -- A variable that has a value has a handle to it.
    pub handle_to :
        (x : ℕ) (h : V)
        → vs x ≡ some h
        → (f : H) × (env x ≡ some f) × (d.is_owned f ≡ true) × (st (d.address f) ≡ some h)
    handle_to x h v = elim (stands.known x) [
      | inl (_, v') ↦ ground arith
      | inr (f, k, e, v', o, s) ↦ let same : k ≡ h = ground arith in (f, e, o, s ∙ rw same)
    ]

    pub not_stored : (p : Ptr) → st p ≡ none → NotIn env p
    not_stored p free y g e same = let (h, _, _, s) = stored y g e in ground (arith)

    -- What is in no variable may change.
    pub unheld : (q : Ptr) (v : Option V) → NotIn env q → Stands env vs (bound st q v)
    unheld q v out = record {
      known = λ x. elim (stands.known x) [
        | inl (e, w) ↦ inl (e, w)
        | inr (f, h, e, w, o, s) ↦
            inr (f, h, e, w, o, bound_there st q v (d.address f) (out x f e) ∙ s)
      ];
      apart = stands.apart;
    }

    -- A variable is given another frame that no variable has, or none.
    pub assigned :
        (x : ℕ) (f : H) (h : V)
        → (d.is_owned f) ≡ true
        → st (d.address f) ≡ some h
        → NotIn env (d.address f)
        → Stands (bound env x (some f)) (bound vs x (some h)) st
    assigned x f h o s out = record {
      known = λ y. elim (place y x) [
        | inl e ↦
            inr (f, h, rw e (bound_here env x (some f)), rw e (bound_here vs x (some h)), o, s)
        | inr n ↦
            rw (bound_there env x (some f) y n, bound_there vs x (some h) y n) (stands.known y)
      ];
      apart = λ y z g k eg ek same. elim (bound-some env x (some f) y g eg) [
        | inl (ey, ef) ↦ elim (bound-some env x (some f) z k ek) [
          | inl (ez, _) ↦ ey ∙ sym ez
          | inr (_, ek') ↦ let n = out z k ek' in ground arith
        ]
        | inr (_, eg') ↦ elim (bound-some env x (some f) z k ek) [
          | inl (_, ef) ↦ let n = out y g eg' in ground arith
          | inr (_, ek') ↦ stands.apart y z g k eg' ek' same
        ]
      ];
    }

    pub cleared : (x : ℕ) → Stands (bound env x none) (bound vs x none) st
    cleared x = record {
      known = λ y. elim (place y x) [
        | inl e ↦ inl (rw e (bound_here env x none), rw e (bound_here vs x none))
        | inr n ↦ rw (bound_there env x none y n, bound_there vs x none y n) (stands.known y)
      ];
      apart = λ y z g k eg ek same. elim (bound-some env x none y g eg) [
        | inl (_, gone) ↦ ground arith
        | inr (_, eg') ↦ elim (bound-some env x none z k ek) [
          | inl (_, gone) ↦ ground arith
          | inr (_, ek') ↦ stands.apart y z g k eg' ek' same
        ]
      ];
    }

    -- The frame of a variable is changed in its place.
    pub changed :
        (x : ℕ) (f : H) (h : V)
        → env x ≡ some f
        → Stands env (bound vs x (some h)) (bound st (d.address f) (some h))
    changed x f h e = record {
      known = λ y. elim (place y x) [
        | inl same ↦ inr (
          f,
          h,
          rw same e,
          rw same (bound_here vs x (some h)),
          (stored x f e).2,
          bound_here st (d.address f) (some h),
        )
        | inr n ↦ elim (stands.known y) [
          | inl (e', v) ↦ inl (e', bound_there vs x (some h) y n ∙ v)
          | inr (g, k, e', v, o, s) ↦
              let other : (d.address g) ≢ (d.address f) = λ p. n (stands.apart y x g f e' e p) in
              inr (
                g,
                k,
                e',
                bound_there vs x (some h) y n ∙ v,
                o,
                bound_there st (d.address f) (some h) (d.address g) other ∙ s,
              )
        ]
      ];
      apart = stands.apart;
    }

    -- The frame that a variable had is in none when the variable is given another.
    pub replaced :
        (x : ℕ) (f g : H)
        → env x ≡ some g
        → NotIn env (d.address f)
        → NotIn (bound env x (some f)) (d.address g)
    replaced x f g e out y k ek same = elim (bound-some env x (some f) y k ek) [
      | inl (_, ef) ↦ let n = out x g e in ground arith
      | inr (n, ek') ↦ n (stands.apart y x k g ek' e same)
    ]

    pub removed : (x : ℕ) (g : H) → env x ≡ some g → NotIn (bound env x none) (d.address g)
    removed x g e y k ek same = elim (bound-some env x none y k ek) [
      | inl (_, gone) ↦ ground arith
      | inr (n, ek') ↦ n (stands.apart y x k g ek' e same)
    ]
