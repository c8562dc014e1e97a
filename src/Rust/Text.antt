-- ===== src/Rust/Text.antt =====
-- std::str and std::ffi: `str::from_utf8`, `CString::new` and comparison of texts.
use Prim.Native.Char.{code}
use Prim.Native.String.{String}
use rust_czmq.Prelude.{
  ℕ, zero, suc, ◌≡◌, refl, ◌↔◌, Bool, true, false, ◌&&◌, Option, none, some, List, [], ◌∷◌, arith,
  ◌==◌, leb, if◌then◌else◌,
}

abbrev pub Bytes : Type 0
Bytes = List ℕ

-- The bytes of an ASCII literal.
abbrev pub ascii : String → Bytes
ascii String.[] = []
ascii (String.◌∷◌ c s) = code c ∷ ascii s

-- Between two characters, or inside one: `n + 1` bytes are still due, the next from `lo` to `hi`.
pub data Utf8State : Type 0 where
  start : Utf8State
  due : ℕ → ℕ → ℕ → Utf8State

between : ℕ → ℕ → ℕ → Bool
between lo hi b = leb lo b && leb b hi

-- The first byte of a character fixes its length, and the range of its second byte.
lead : ℕ → Option Utf8State
unfolding between
lead b =
    if leb b 0x7f
    then some start
    else if between 0xc2 0xdf b
    then some (due 0 0x80 0xbf)
    else if b == 0xe0
    then some (due 1 0xa0 0xbf)
    else if b == 0xed
    then some (due 1 0x80 0x9f)
    else if between 0xe1 0xef b
    then some (due 1 0x80 0xbf)
    else if b == 0xf0
    then some (due 2 0x90 0xbf)
    else if between 0xf1 0xf3 b
    then some (due 2 0x80 0xbf)
    else if b == 0xf4
    then some (due 2 0x80 0x8f)
    else none

utf8_step : Utf8State → ℕ → Option Utf8State
unfolding lead
utf8_step start b = lead b
utf8_step (due zero lo hi) b = if between lo hi b then some start else none
utf8_step (due (suc n) lo hi) b = if between lo hi b then some (due n 0x80 0xbf) else none

utf8_run : Utf8State → Bytes → Bool
unfolding utf8_step
utf8_run start [] = true
utf8_run (due n lo hi) [] = false
utf8_run q (b ∷ bs) = elim (utf8_step q b) [ none ↦ false | some q' ↦ utf8_run q' bs ]

-- Whether `str::from_utf8` accepts the bytes.
unfoldable pub is_utf8 : Bytes → Bool
unfolding utf8_run
is_utf8 = utf8_run start

abbrev pub IsText : Bytes → Type 0
IsText s = is_utf8 s ≡ true

-- `String::from_utf8(bytes)` where the error gives the bytes back: a text, or raw bytes.
pub data Utf8Result : Type 0 where
  text raw : Bytes → Utf8Result

unfoldable pub from_utf8 : Bytes → Utf8Result
from_utf8 bytes = if is_utf8 bytes then text bytes else raw bytes

-- `match r { Ok(s) => s.into_bytes(), Err(b) => b }`
unfoldable pub into_bytes : Utf8Result → Bytes
into_bytes (text s) = s
into_bytes (raw b) = b

-- `Path::to_str` and `CString::into_string`: the text, if it is one.
unfoldable pub to_text : Bytes → Option Bytes
to_text s = if is_utf8 s then some s else none

unfoldable pub has_nul : Bytes → Bool
has_nul [] = false
has_nul (b ∷ bs) = if b == 0 then true else has_nul bs

-- `CString::new`: the text, unless a NUL byte is inside.
unfoldable pub c_string : Bytes → Option Bytes
c_string s = if has_nul s then none else some s

-- `CString::new(s).unwrap_or(CString::new("").unwrap())`
unfoldable pub c_string_or_empty : Bytes → Bytes
c_string_or_empty s = if has_nul s then [] else s

-- What C reads of a terminated text: the bytes before the first NUL.
unfoldable pub until_nul : Bytes → Bytes
until_nul [] = []
until_nul (b ∷ bs) = if b == 0 then [] else b ∷ until_nul bs

unfoldable pub bytes_eq : Bytes → Bytes → Bool
bytes_eq [] [] = true
bytes_eq [] (y ∷ ys) = false
bytes_eq (x ∷ xs) [] = false
bytes_eq (x ∷ xs) (y ∷ ys) = (x == y) && bytes_eq xs ys

pub bytes_eq_iff : (xs ys : Bytes) → (bytes_eq xs ys ≡ true) ↔ (xs ≡ ys)
unfolding bytes_eq
bytes_eq_iff [] [] = ground arith
bytes_eq_iff [] (y ∷ ys) = ground arith
bytes_eq_iff (x ∷ xs) [] = ground arith
bytes_eq_iff (x ∷ xs) (y ∷ ys) = ground (arith, bytes_eq_iff xs ys)

pub c_string_or_empty-eq : (s : Bytes) → has_nul s ≡ false → c_string_or_empty s ≡ s
unfolding c_string_or_empty
c_string_or_empty-eq s h = rw h

-- A text without NUL is read back whole.
pub until_nul-eq : (s : Bytes) → has_nul s ≡ false → until_nul s ≡ s
unfolding until_nul has_nul
until_nul-eq [] h = refl
until_nul-eq (b ∷ bs) h = ground (arith, until_nul-eq bs)

utf8_two_bytes : is_utf8 (0xc3 ∷ 0xa9 ∷ []) ≡ true
unfolding is_utf8
utf8_two_bytes = refl

utf8_overlong : is_utf8 (0xc0 ∷ 0xaf ∷ []) ≡ false
unfolding is_utf8
utf8_overlong = refl

utf8_surrogate : is_utf8 (0xed ∷ 0xa0 ∷ 0x80 ∷ []) ≡ false
unfolding is_utf8
utf8_surrogate = refl
