-- ===== src/ZMsg/Program.antt =====
-- A program with variables that hold messages, and what the methods of src/zmsg.rs do to them.
use rust_czmq.Prelude.{
  ℕ, ◌==◌, ◌≡◌, ◌≢◌, ◌⊎◌, Bool, true, false, Option, none, some, List, [], ◌∷◌, ◌++◌, length, bound,
  if◌then◌else◌,
}
use rust_czmq.Rust.Text.{Bytes, Utf8Result, from_utf8, c_string_or_empty, until_nul}
use rust_czmq.Error.{Error}
use rust_czmq.Ffi.{Czmq, Machine, Run, Io, done, failed, panicked, stuck, pure, ◌>>=◌, ◌>>◌}
use rust_czmq.Variables.{Handle}
use rust_czmq.ZMsg.{
  ZMsg, null_error, non_zero_error, new, dup, pushstr, addstr, popstr, size, eq, addmsg, popmsg,
  drop,
}
use rust_czmq.ZMsg.Store.{Held, frames_eq}

-- The variables are numbers. What makes a message assigns it to the first variable, and the message
-- that was in that is dropped; `nest x y` is `x.addmsg(y)`, and `unnest x y` is
-- `if let Some(m) = y.popmsg() { x = m }`.
pub data MessageOp : Type 0 where
  make : ℕ → MessageOp
  copy : ℕ → ℕ → MessageOp
  push add : ℕ → Bytes → MessageOp
  pop count : ℕ → MessageOp
  is_same : ℕ → ℕ → MessageOp
  nest unnest : ℕ → ℕ → MessageOp
  discard : ℕ → MessageOp

-- What the caller gets back; `refused` is an `Err`. Nothing is done with a variable that holds no
-- message, or with one that would be added to itself: that program does not compile.
pub data Reply : Type 0 where
  returned absent : Reply
  refused : Error → Reply
  text : Option Utf8Result → Reply
  number : ℕ → Reply
  answer found : Bool → Reply

-- The messages that the variables stand for.
abbrev pub Values : Type 0
Values = ℕ → Option Held

-- The methods that add a text.
pub data Adds : MessageOp → ℕ → Held → Held → Type 0 where
  pushes : (x : ℕ) (t : Bytes) (fs : Held) → Adds (push x t) x fs (c_string_or_empty t ∷ fs)
  adds : (x : ℕ) (t : Bytes) (fs : Held) → Adds (add x t) x fs (fs ++ c_string_or_empty t ∷ [])

-- The variables that have to hold a message.
pub data Uses : MessageOp → ℕ → Type 0 where
  uses_copied : (x y : ℕ) → Uses (copy x y) y
  uses_added : (op : MessageOp) (x : ℕ) (fs gs : Held) → Adds op x fs gs → Uses op x
  uses_popped : (x : ℕ) → Uses (pop x) x
  uses_counted : (x : ℕ) → Uses (count x) x
  uses_left : (x y : ℕ) → Uses (is_same x y) x
  uses_right : (x y : ℕ) → Uses (is_same x y) y
  uses_outer : (x y : ℕ) → Uses (nest x y) x
  uses_inner : (x y : ℕ) → Uses (nest x y) y
  uses_opened : (x y : ℕ) → Uses (unnest x y) y
  uses_discarded : (x : ℕ) → Uses (discard x) x

module _ (code : Held → Bytes) (decoded : Bytes → Option Held) where
  -- One method on the values.
  pub data Does : MessageOp → Values → Reply → Values → Type 0 where
    makes : (x : ℕ) (vs : Values) → Does (make x) vs returned (bound vs x (some []))
    copies :
        (x y : ℕ) (vs : Values) (fs : Held)
        → vs y ≡ some fs
        → Does (copy x y) vs returned (bound vs x (some fs))
    copies_not :
        (x y : ℕ) (vs : Values) (fs : Held)
        → vs y ≡ some fs
        → Does (copy x y) vs (refused null_error) vs
    adds_text :
        (op : MessageOp) (x : ℕ) (vs : Values) (fs gs : Held)
        → vs x ≡ some fs
        → Adds op x fs gs
        → Does op vs returned (bound vs x (some gs))
    adds_not :
        (op : MessageOp) (x : ℕ) (vs : Values) (fs gs : Held)
        → vs x ≡ some fs
        → Adds op x fs gs
        → Does op vs (refused non_zero_error) vs
    pops :
        (x : ℕ) (vs : Values) (f : Bytes) (fs : Held)
        → vs x ≡ some (f ∷ fs)
        → Does (pop x) vs (text (some (from_utf8 (until_nul f)))) (bound vs x (some fs))
    pops_none : (x : ℕ) (vs : Values) → vs x ≡ some [] → Does (pop x) vs (text none) vs
    counts :
        (x : ℕ) (vs : Values) (fs : Held)
        → vs x ≡ some fs
        → Does (count x) vs (number (length fs)) vs
    compares :
        (x y : ℕ) (vs : Values) (fs gs : Held)
        → vs x ≡ some fs
        → vs y ≡ some gs
        → Does (is_same x y) vs (answer (frames_eq fs gs)) vs
    nests :
        (x y : ℕ) (vs : Values) (fs gs : Held)
        → x ≢ y
        → vs x ≡ some fs
        → vs y ≡ some gs
        → Does (nest x y) vs returned (bound (bound vs x (some (fs ++ code gs ∷ []))) y none)
    -- The message that was to be added is moved, and so it is lost.
    nests_not :
        (x y : ℕ) (vs : Values) (fs gs : Held)
        → x ≢ y
        → vs x ≡ some fs
        → vs y ≡ some gs
        → Does (nest x y) vs (refused non_zero_error) (bound vs y none)
    nests_itself : (x y : ℕ) (vs : Values) → x ≡ y → Does (nest x y) vs absent vs
    unnests :
        (x y : ℕ) (vs : Values) (f : Bytes) (fs gs : Held)
        → vs y ≡ some (f ∷ fs)
        → decoded f ≡ some gs
        → Does (unnest x y) vs (found true) (bound (bound vs y (some fs)) x (some gs))
    unnests_none : (x y : ℕ) (vs : Values) → vs y ≡ some [] → Does (unnest x y) vs (found false) vs
    unnests_not :
        (x y : ℕ) (vs : Values) (f : Bytes) (fs ks : Held)
        → vs y ≡ some (f ∷ fs)
        → decoded f ≡ none
        → (ks ≡ fs) ⊎ (ks ≡ f ∷ fs)
        → Does (unnest x y) vs (found false) (bound vs y (some ks))
    discards :
        (x : ℕ) (vs : Values) (fs : Held)
        → vs x ≡ some fs
        → Does (discard x) vs returned (bound vs x none)
    does_nothing :
        (op : MessageOp) (x : ℕ) (vs : Values) → vs x ≡ none → Uses op x → Does op vs absent vs

  pub data DoesAll : List MessageOp → Values → List Reply → Values → Type 0 where
    finished : (vs : Values) → DoesAll [] vs [] vs
    then_does :
        {op : MessageOp} {ops : List MessageOp} {vs us ws : Values} {r : Reply} {rs : List Reply}
        → Does op vs r us
        → DoesAll ops us rs ws
        → DoesAll (op ∷ ops) vs (r ∷ rs) ws

instance abbrev pub message_handle : Handle ZMsg
message_handle = record { address = λ m. m.zmsg; is_owned = λ m. m.owned }

-- The messages in the variables.
abbrev pub Vars : Type 0
Vars = ℕ → Option ZMsg

-- The end of a method, with the variables behind an `Err`; `none` is a panic.
abbrev pub ended :
    {W A : Type 0} → Vars → (A → Reply × Vars) → Run W A → Option (Reply × Vars × Machine W)
ended env f (done a s) = some ((f a).0, (f a).1, s)
ended env f (failed e s) = some (refused e, env, s)
ended env f (panicked s) = none
ended env f stuck = none

module _ (c : Czmq) where
  unfoldable pub drop_old : Option ZMsg → Io c.World (Unit {0})
  unfolding drop
  drop_old none = pure tt
  drop_old (some m) = drop c m

  -- `x = m;`
  abbrev pub assign : ℕ → Vars → ZMsg → Io c.World Vars
  assign x env m = do drop_old (env x); pure (bound env x (some m))

  abbrev pub assign_found : ℕ → Vars → Option ZMsg → Io c.World (Reply × Vars)
  assign_found x env none = pure (found false, env)
  assign_found x env (some m) = do env' ← assign x env m; pure (found true, env')

  abbrev pub Outcome : Type 0
  Outcome = Option (Reply × Vars × Machine c.World)

  abbrev pub with_var : Option ZMsg → Vars → Machine c.World → (ZMsg → Outcome) → Outcome
  with_var none env s go = some (absent, env, s)
  with_var (some m) env s go = go m

  unfoldable pub exec : MessageOp → Vars → Machine c.World → Outcome
  unfolding new dup pushstr addstr popstr size eq addmsg popmsg drop drop_old
  exec (make x) env s = ended env (λ env'. (returned, env')) ((new c >>= λ m. assign x env m) s)
  exec (copy x y) env s =
      with_var (env y) env s
        (λ m. ended env (λ env'. (returned, env')) ((dup c m >>= λ m'. assign x env m') s))
  exec (push x t) env s =
      with_var (env x) env s (λ m. ended env (λ _. (returned, env)) (pushstr c m t s))
  exec (add x t) env s =
      with_var (env x) env s (λ m. ended env (λ _. (returned, env)) (addstr c m t s))
  exec (pop x) env s = with_var (env x) env s (λ m. ended env (λ t. (text t, env)) (popstr c m s))
  exec (count x) env s = with_var (env x) env s (λ m. ended env (λ n. (number n, env)) (size c m s))
  exec (is_same x y) env s =
      with_var (env x) env s
        (λ m. with_var (env y) env s (λ o. ended env (λ b. (answer b, env)) (eq c m o s)))
  exec (nest x y) env s =
      if x == y
      then some (absent, env, s)
      else with_var (env x) env s (λ m.
        with_var (env y) env s
          (λ o. ended (bound env y none) (λ _. (returned, bound env y none)) (addmsg c m o s)))
  exec (unnest x y) env s =
      with_var (env y) env s
        (λ m. ended env (λ r. r) ((popmsg c m >>= λ found. assign_found x env found) s))
  exec (discard x) env s =
      with_var (env x) env s (λ m. ended env (λ _. (returned, bound env x none)) (drop c m s))

  -- One method after the other.
  unfoldable pub run_messages :
      List MessageOp → Vars → Machine c.World → Option (List Reply × Vars × Machine c.World)
  unfolding exec
  run_messages [] env s = some ([], env, s)
  run_messages (op ∷ ops) env s = elim (exec op env s) [
    | none ↦ none
    | some (r, env', s') ↦ elim (run_messages ops env' s') [
      | none ↦ none
      | some (rs, env'', s'') ↦ some (r ∷ rs, env'', s'')
    ]
  ]
