-- ===== src/Ffi.antt =====
-- The C library behind czmq-sys, and the actions of the crate: what a function does is the calls
-- it makes, one after the other, and how it ends.
pub mod Int
pub mod Post
pub mod Calls
pub use Int.{ℤ, pos, negsuc, minus_one, int_eq, flag}
pub use Calls.{Ptr, null, PtrCall, IntCall, SizeCall, SlotCall, VoidCall}
use rust_czmq.Prelude.{
  ℕ, ◌≡◌, refl, Bool, true, false, Option, none, some, List, ◌∷◌, ◌==◌, if◌then◌else◌, take, ◌++◌,
}
use rust_czmq.Rust.Text.{Bytes, has_nul, c_string, is_utf8, until_nul}
use rust_czmq.Error.{Error, Result, ok, err, from_nul_error, from_utf8_error}

-- CZMQ as a library that this repository does not contain: a state and the functions on it. A
-- slot call returns a code and the pointer that it leaves in the slot it was given.
pub record Czmq : Type 1 where
  pub World : Type 0
  pub ptr_call : PtrCall → World → Ptr × World
  pub int_call : IntCall → World → ℤ × World
  pub size_call : SizeCall → World → ℕ × World
  pub slot_call : SlotCall → World → ℤ × Ptr × World
  pub void_call : VoidCall → World → World
  -- zsys_create_pipe: the front end that it returns, and the back end that it stores
  pub pipe_call : World → Ptr × Ptr × World
  -- memory: `n` bytes at a pointer, and the bytes before the first NUL at a pointer
  pub bytes_at : World → Ptr → ℕ → Bytes
  pub text_at : World → Ptr → Bytes
  -- memory behind the end of a Rust slice
  pub beyond : World → Bytes → Bytes
  -- what is read through the pointer of a `CString` that was dropped
  pub freed_text : World → Bytes → Bytes
  -- the fields `state` and `certs` of a `zcertstore_t`
  pub state_field : World → Ptr → Ptr
  pub certs_field : World → Ptr → Ptr

pub data Event : Type 0 where
  got_ptr : PtrCall → Ptr → Event
  got_int : IntCall → ℤ → Event
  got_size : SizeCall → ℕ → Event
  got_slot : SlotCall → ℤ → Ptr → Event
  got_pipe : Ptr → Ptr → Event
  did : VoidCall → Event

-- The library's state, and the calls made so far with their replies, the latest first.
pub record Machine (W : Type 0) : Type 0 where
  pub world : W
  pub trace : List Event

-- How an action ends: it returns, it returns an `Err`, or it panics. `stuck` is no end of the
-- program: the fuel of a loop ran out.
pub data Run (W : Type 0) (A : Type 0) : Type 0 where
  done : A → Machine W → Run W A
  failed : Error → Machine W → Run W A
  panicked : Machine W → Run W A
  stuck : Run W A

abbrev pub Io : Type 0 → Type 0 → Type 0
Io W A = Machine W → Run W A

module _ {W A : Type 0} where
  abbrev pub pure : A → Io W A
  pure a s = done a s

  abbrev pub fail : Error → Io W A
  fail e s = failed e s

  abbrev pub panic : Io W A
  panic s = panicked s

module _ {W A B : Type 0} where
  abbrev pub and_then : Run W A → (A → Io W B) → Run W B
  and_then (done a s) f = f a s
  and_then (failed e s) f = failed e s
  and_then (panicked s) f = panicked s
  and_then stuck f = stuck

  abbrev pub map_run : (A → B) → Run W A → Run W B
  map_run f (done a s) = done (f a) s
  map_run f (failed e s) = failed e s
  map_run f (panicked s) = panicked s
  map_run f stuck = stuck

  infixl 5 ◌>>=◌ ◌>>◌
  abbrev pub ◌>>=◌ : Io W A → (A → Io W B) → Io W B
  m >>= f = λ s. and_then (m s) f

  abbrev pub ◌>>◌ : Io W A → Io W B → Io W B
  m >> n = m >>= λ _. n

module _ {W A : Type 0} where
  abbrev pub cleaned : Run W A → Io W (Unit {0}) → Run W A
  cleaned (done a s) clean = done a s
  cleaned (failed e s) clean = and_then (clean s) (λ _. fail e)
  cleaned (panicked s) clean = and_then (clean s) (λ _. panic)
  cleaned stuck clean = stuck

  -- A step that ends the function if it fails or panics, and then drops what is in scope.
  abbrev pub or_drop : Io W (Unit {0}) → Io W A → Io W A
  or_drop clean m s = cleaned (m s) clean

  -- What a run returns, and the error that it ends with.
  abbrev pub result_of : Run W A → Option A
  result_of (done a _) = some a
  result_of _ = none

  abbrev pub error_of : Run W A → Option Error
  error_of (failed e _) = some e
  error_of _ = none

  abbrev pub lift : Result A → Io W A
  lift (ok a) = pure a
  lift (err e) = fail e

  abbrev pub out_of_fuel : Io W A
  out_of_fuel s = stuck

  -- An `Option` where `none` panics: `unwrap`, indexing, `assert!`.
  abbrev pub unwrap : Option A → Io W A
  unwrap none = panic
  unwrap (some a) = pure a

-- `try!(CString::new(s))`
unfoldable pub try_c_string : {W : Type 0} → Bytes → Io W Bytes
try_c_string s = elim (c_string s) [ none ↦ fail (from_nul_error s) | some t ↦ pure t ]

pub try_c_string_nul :
    {W : Type 0} (t : Bytes) (s : Machine W)
    → has_nul t ≡ true
    → try_c_string t s ≡ failed (from_nul_error t) s
unfolding try_c_string c_string
try_c_string_nul t s h = let e : c_string t ≡ none = rw h in rw (try_c_string, e)

pub try_c_string_eq :
    {W : Type 0} (t : Bytes) (s : Machine W) → has_nul t ≡ false → try_c_string t s ≡ done t s
unfolding try_c_string c_string
try_c_string_eq t s h = let e : c_string t ≡ some t = rw h in rw (try_c_string, e)

-- `try!(str::from_utf8(s))`
unfoldable pub try_utf8 : {W : Type 0} → Bytes → Io W Bytes
try_utf8 s = if is_utf8 s then pure s else fail (from_utf8_error s)

module _ (c : Czmq) where
  open c use {World, ptr_call, int_call, size_call, slot_call, void_call, pipe_call}

  unfoldable pub ask_ptr : PtrCall → Io World Ptr
  ask_ptr q s =
      let (p, w) = ptr_call q s.world in
      done p (record { world = w; trace = got_ptr q p ∷ s.trace })

  unfoldable pub ask_int : IntCall → Io World ℤ
  ask_int q s =
      let (i, w) = int_call q s.world in
      done i (record { world = w; trace = got_int q i ∷ s.trace })

  unfoldable pub ask_size : SizeCall → Io World ℕ
  ask_size q s =
      let (n, w) = size_call q s.world in
      done n (record { world = w; trace = got_size q n ∷ s.trace })

  unfoldable pub ask_slot : SlotCall → Io World (ℤ × Ptr)
  ask_slot q s =
      let (i, p, w) = slot_call q s.world in
      done (i, p) (record { world = w; trace = got_slot q i p ∷ s.trace })

  unfoldable pub tell : VoidCall → Io World (Unit {0})
  tell q s = done tt (record { world = void_call q s.world; trace = did q ∷ s.trace })

  unfoldable pub ask_pipe : Io World (Ptr × Ptr)
  ask_pipe s =
      let (front, back, w) = pipe_call s.world in
      done (front, back) (record { world = w; trace = got_pipe front back ∷ s.trace })

  -- `slice::from_raw_parts(p, n)` and `CStr::from_ptr(p)`
  unfoldable pub read_bytes : Ptr → ℕ → Io World Bytes
  read_bytes p n s = done (c.bytes_at s.world p n) s

  unfoldable pub read_text : Ptr → Io World Bytes
  read_text p s = done (c.text_at s.world p) s

  -- What C reads through the pointer of a slice that it takes for an array of `n` bytes, or for a
  -- terminated text: it does not stop at the end of the slice.
  unfoldable pub raw_array : ℕ → Bytes → Io World Bytes
  raw_array n bytes s = done (take n (bytes ++ c.beyond s.world bytes)) s

  unfoldable pub raw_text : Bytes → Io World Bytes
  raw_text bytes s = done (until_nul (bytes ++ c.beyond s.world bytes)) s

  -- What C reads through the pointer of a `CString` that was dropped before the call.
  unfoldable pub dangling_text : Bytes → Io World Bytes
  dangling_text bytes s = done (c.freed_text s.world bytes) s
