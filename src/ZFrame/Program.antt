-- ===== src/ZFrame/Program.antt =====
-- A program with variables that hold frames, and what the methods of src/zframe.rs do to them.
use rust_czmq.Prelude.{ℕ, ◌≡◌, Bool, Option, none, some, List, [], ◌∷◌, length, bound}
use rust_czmq.Rust.Text.{Bytes, Utf8Result, from_utf8, bytes_eq, c_string_or_empty}
use rust_czmq.Error.{Error, error, null_ptr}
use rust_czmq.Error.Causes
use rust_czmq.Error.Causes.{ZFrameError}
use rust_czmq.Ffi.{Czmq, Machine, Run, Io, done, failed, panicked, stuck, pure, ◌>>=◌, ◌>>◌}
use rust_czmq.Variables.{Handle}
use rust_czmq.ZFrame.{
  ZFrame, new, empty, from, dup, data_of, size, streq, more, set_more, eq, reset, drop,
}
use rust_czmq.ZFrame.Store.{Held}

-- A program with variables, which are numbers. The methods that make a frame assign it to the
-- first variable, and what was in that is dropped.
pub data FrameOp : Type 0 where
  make make_from : ℕ → Bytes → FrameOp
  make_empty : ℕ → FrameOp
  copy : ℕ → ℕ → FrameOp
  put : ℕ → Bytes → FrameOp
  mark : ℕ → Bool → FrameOp
  read measure is_marked : ℕ → FrameOp
  is_text : ℕ → Bytes → FrameOp
  is_same : ℕ → ℕ → FrameOp
  discard : ℕ → FrameOp

-- What the caller gets back; `refused` is an `Err`. Nothing is done with a variable that holds no
-- frame: that program does not compile.
pub data Reply : Type 0 where
  returned absent : Reply
  refused : Error → Reply
  text : Utf8Result → Reply
  number : ℕ → Reply
  answer : Bool → Reply

-- The frames that the variables stand for.
abbrev pub Values : Type 0
Values = ℕ → Option Held

abbrev pub cannot_make : Error
cannot_make = error null_ptr (Causes.zframe ZFrameError.instantiate)

abbrev pub cannot_copy : Error
cannot_copy = error null_ptr (Causes.zframe ZFrameError.cmd_failed)

-- The variable that an operation assigns, its new bytes, and the error if it has no memory.
pub data Makes : FrameOp → Values → ℕ → Bytes → Error → Type 0 where
  makes : (x : ℕ) (b : Bytes) (vs : Values) → Makes (make x b) vs x b cannot_make
  makes_from : (x : ℕ) (b : Bytes) (vs : Values) → Makes (make_from x b) vs x b cannot_make
  makes_empty : (x : ℕ) (vs : Values) → Makes (make_empty x) vs x [] cannot_make
  copies :
      (x y : ℕ) (h : Held) (vs : Values) → vs y ≡ some h → Makes (copy x y) vs x (h.0) cannot_copy

-- The operations that change one frame in its place.
pub data Changes : FrameOp → ℕ → Held → Option Held → Type 0 where
  puts : (x : ℕ) (b : Bytes) (h : Held) → Changes (put x b) x h (some (b, h.1))
  marks : (x : ℕ) (b : Bool) (h : Held) → Changes (mark x b) x h (some (h.0, b))
  discards : (x : ℕ) (h : Held) → Changes (discard x) x h none

-- The operations that read one frame.
pub data Reads : FrameOp → ℕ → Held → Reply → Type 0 where
  reads : (x : ℕ) (h : Held) → Reads (read x) x h (text (from_utf8 (h.0)))
  measures : (x : ℕ) (h : Held) → Reads (measure x) x h (number (length (h.0)))
  sees_mark : (x : ℕ) (h : Held) → Reads (is_marked x) x h (answer (h.1))
  compares_text :
      (x : ℕ) (t : Bytes) (h : Held)
      → Reads (is_text x t) x h (answer (bytes_eq (h.0) (c_string_or_empty t)))

pub data Uses : FrameOp → ℕ → Type 0 where
  uses_copied : (x y : ℕ) → Uses (copy x y) y
  uses_left : (x y : ℕ) → Uses (is_same x y) x
  uses_right : (x y : ℕ) → Uses (is_same x y) y
  uses_changed : (op : FrameOp) (x : ℕ) (h : Held) (o : Option Held) → Changes op x h o → Uses op x
  uses_read : (op : FrameOp) (x : ℕ) (h : Held) (r : Reply) → Reads op x h r → Uses op x

-- One method on the values: no value changes but that of the variable it names first.
pub data Does : FrameOp → Values → Reply → Values → Type 0 where
  makes_frame :
      (op : FrameOp) (vs : Values) (x : ℕ) (b : Bytes) (e : Error) (m : Bool)
      → Makes op vs x b e
      → Does op vs returned (bound vs x (some (b, m)))
  refuses :
      (op : FrameOp) (vs : Values) (x : ℕ) (b : Bytes) (e : Error)
      → Makes op vs x b e
      → Does op vs (refused e) vs
  changes :
      (op : FrameOp) (vs : Values) (x : ℕ) (h : Held) (o : Option Held)
      → vs x ≡ some h
      → Changes op x h o
      → Does op vs returned (bound vs x o)
  replies :
      (op : FrameOp) (vs : Values) (x : ℕ) (h : Held) (r : Reply)
      → vs x ≡ some h
      → Reads op x h r
      → Does op vs r vs
  compares :
      (x y : ℕ) (vs : Values) (h k : Held)
      → vs x ≡ some h
      → vs y ≡ some k
      → Does (is_same x y) vs (answer (bytes_eq (h.0) (k.0))) vs
  does_nothing :
      (op : FrameOp) (vs : Values) (x : ℕ) → vs x ≡ none → Uses op x → Does op vs absent vs

pub data DoesAll : List FrameOp → Values → List Reply → Values → Type 0 where
  finished : (vs : Values) → DoesAll [] vs [] vs
  then_does :
      {op : FrameOp} {ops : List FrameOp} {vs us ws : Values} {r : Reply} {rs : List Reply}
      → Does op vs r us
      → DoesAll ops us rs ws
      → DoesAll (op ∷ ops) vs (r ∷ rs) ws

instance abbrev pub frame_handle : Handle ZFrame
frame_handle = record { address = λ f. f.zframe; is_owned = λ f. f.owned }

-- The frames in the variables.
abbrev pub Vars : Type 0
Vars = ℕ → Option ZFrame

abbrev pub ended : {W : Type 0} → Vars → Run W (Reply × Vars) → Option (Reply × Vars × Machine W)
ended env (done (r, env') s) = some (r, env', s)
ended env (failed e s) = some (refused e, env, s)
ended env (panicked s) = none
ended env stuck = none

module _ (c : Czmq) where
  unfoldable pub drop_old : Option ZFrame → Io c.World (Unit {0})
  unfolding drop
  drop_old none = pure tt
  drop_old (some f) = drop c f

  -- `x = m?;`
  abbrev pub assign : ℕ → Vars → Io c.World ZFrame → Io c.World (Reply × Vars)
  assign x env m = do f ← m; drop_old (env x); pure (returned, bound env x (some f))

  abbrev pub with_var :
      {A : Type 0} → Option A → Vars → (A → Io c.World (Reply × Vars)) → Io c.World (Reply × Vars)
  with_var none env m = pure (absent, env)
  with_var (some f) env m = m f

  unfoldable pub step : FrameOp → Vars → Io c.World (Reply × Vars)
  unfolding new from empty dup reset set_more data_of size more streq eq drop drop_old
  step (make x b) env = assign x env (new c b)
  step (make_from x b) env = assign x env (from c b)
  step (make_empty x) env = assign x env (empty c)
  step (copy x y) env = with_var (env y) env (λ f. assign x env (dup c f))
  step (put x b) env = with_var (env x) env (λ f. do reset c f b; pure (returned, env))
  step (mark x b) env = with_var (env x) env (λ f. do set_more c f b; pure (returned, env))
  step (read x) env = with_var (env x) env (λ f. do t ← data_of c f; pure (text t, env))
  step (measure x) env = with_var (env x) env (λ f. do n ← size c f; pure (number n, env))
  step (is_marked x) env = with_var (env x) env (λ f. do b ← more c f; pure (answer b, env))
  step (is_text x t) env = with_var (env x) env (λ f. do b ← streq c f t; pure (answer b, env))
  step (is_same x y) env =
      with_var (env x) env (λ f. with_var (env y) env (λ g. do b ← eq c f g; pure (answer b, env)))
  step (discard x) env = with_var (env x) env (λ f. do drop c f; pure (returned, bound env x none))

  unfoldable pub exec : FrameOp → Vars → Machine c.World → Option (Reply × Vars × Machine c.World)
  unfolding step
  exec op env s = ended env (step op env s)

  -- One method after the other; `none` is a panic.
  unfoldable pub run_program :
      List FrameOp → Vars → Machine c.World → Option (List Reply × Vars × Machine c.World)
  unfolding exec
  run_program [] env s = some ([], env, s)
  run_program (op ∷ ops) env s = elim (exec op env s) [
    | none ↦ none
    | some (r, env', s') ↦ elim (run_program ops env' s') [
      | none ↦ none
      | some (rs, env'', s'') ↦ some (r ∷ rs, env'', s'')
    ]
  ]
