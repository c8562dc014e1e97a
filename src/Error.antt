-- ===== src/Error.antt =====
-- src/error.rs: the error of every fallible call, a kind and a boxed cause.
pub mod Causes
pub mod Texts
use rust_czmq.Prelude.{◌++◌}
use rust_czmq.Rust.Text.{Bytes, ascii}
use Causes.{Cause, Foreign, cause_text, foreign, nul_error, utf8_error}

pub data ErrorKind : Type 0 where
  invalid_arg invalid_path invalid_ptr missing_frame non_zero null_ptr string_conversion : ErrorKind

pub record Error : Type 0 where
  pub kind : ErrorKind
  pub cause : Cause

-- `Error::new`
abbrev pub error : ErrorKind → Cause → Error
error k e = record { kind = k; cause = e }

-- A `Result` that is at hand as a value.
pub data Result (A : Type 0) : Type 0 where
  ok : A → Result A
  err : Error → Result A

-- `impl From<NulError> for Error` and `impl From<Utf8Error> for Error`, which `try!` applies.
unfoldable pub from_nul_error : Bytes → Error
from_nul_error ne = error string_conversion (foreign (nul_error ne))

unfoldable pub from_utf8_error : Bytes → Error
from_utf8_error u8e = error string_conversion (foreign (utf8_error u8e))

headline : ErrorKind → Bytes
headline invalid_arg = ascii "Argument was invalid: "
headline invalid_path = ascii "File path was invalid: "
headline invalid_ptr = ascii "CZMQ returned invalid pointer: "
headline missing_frame = ascii "Missing frame in CZMQ reply: "
headline non_zero = ascii "CZMQ returned non-zero code: "
headline null_ptr = ascii "CZMQ returned null pointer: "
headline string_conversion = ascii "String conversion error: "

-- `impl Display for Error`
pub display : (Foreign → Bytes) → Error → Bytes
display render e = headline e.kind ++ cause_text render e.cause

-- `description` of `impl error::Error for Error`
description_of : ErrorKind → Bytes
description_of invalid_arg = ascii "Argument was invalid"
description_of invalid_path = ascii "File path was invalid"
description_of invalid_ptr = ascii "CZMQ returned invalid pointer"
description_of missing_frame = ascii "Missing frame in CZMQ reply"
description_of non_zero = ascii "CZMQ returned non-zero code"
description_of null_ptr = ascii "CZMQ returned null pointer"
description_of string_conversion = ascii "Could not convert string to required type"

description : Error → Bytes
unfolding description_of
description e = description_of e.kind
