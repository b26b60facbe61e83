-- ===== src/Error.antt =====
-- src/error.rs: the errors of the program, and how they are made from those of the libraries.
use ovfs.Prelude.{ℕ, zero, suc, ◌/◌, ◌%◌, String, Option, none, some, ltb, ◌==◌, if◌then◌else◌}
use ovfs.Prelude.Outcome.{Outcome}
use ovfs.Libc
use Prim.Native.String.{◌++◌ as ◌<>◌}

-- An `anyhow::Error` is only ever shown: it is the text of its `{:?}`.
abbrev pub AnyError : Type 0
AnyError = String

pub data Error : Type 0 where
  vhost_user_fs_error unexpected : String → Option AnyError → Error

abbrev pub Result : Type 0 → Type 0
Result = Outcome Error

abbrev pub new_vhost_user_fs_error : String → Option AnyError → Error
new_vhost_user_fs_error message source = vhost_user_fs_error message source

abbrev pub new_unexpected_error : String → Option AnyError → Error
new_unexpected_error message source = unexpected message source

-- The kinds of `opendal::Error` that the program tells apart.
pub data ErrorKind : Type 0 where
  unsupported is_a_directory not_found permission_denied already_exists not_a_directory : ErrorKind
  range_not_satisfied rate_limited other_kind : ErrorKind

-- Decimal digits, as `{}` prints a number; the fuel is the number itself.
digit : ℕ → String
digit n =
    if n == 0
    then "0"
    else if n == 1
    then "1"
    else if n == 2
    then "2"
    else if n == 3
    then "3"
    else if n == 4
    then "4"
    else if n == 5
    then "5"
    else if n == 6
    then "6"
    else if n == 7
    then "7"
    else if n == 8
    then "8"
    else "9"

decimal : ℕ → ℕ → String
decimal zero n = digit (n % 10)
decimal (suc fuel) n =
    let high = decimal fuel (n / 10) in if ltb n 10 then digit n else high <> digit (n % 10)

-- `From<libc::c_int> for Error`; `strerror` is the C library's, and `none` its null pointer.
pub from_errno : (ℕ → Option String) → ℕ → Error
unfolding decimal digit
from_errno strerror errno = elim (strerror errno) [
  | none ↦ vhost_user_fs_error ("errno: " <> decimal errno errno) none
  | some message ↦ vhost_user_fs_error message none
]

-- `From<opendal::Error> for Error`
pub from_kind : (ℕ → Option String) → ErrorKind → Error
from_kind strerror unsupported = from_errno strerror Libc.eopnotsupp
from_kind strerror is_a_directory = from_errno strerror Libc.eisdir
from_kind strerror not_found = from_errno strerror Libc.enoent
from_kind strerror permission_denied = from_errno strerror Libc.eacces
from_kind strerror already_exists = from_errno strerror Libc.eexist
from_kind strerror not_a_directory = from_errno strerror Libc.enotdir
from_kind strerror range_not_satisfied = from_errno strerror Libc.einval
from_kind strerror rate_limited = from_errno strerror Libc.ebusy
from_kind strerror other_kind = from_errno strerror Libc.enoent

-- `std::io::Error`: its kind and its message.
pub data IoErrorKind : Type 0 where
  other unexpected_eof write_zero : IoErrorKind

pub record IoError : Type 0 where
  pub kind : IoErrorKind
  pub message : String

describe : String → Option AnyError → String
describe message none = message
describe message (some source) = message <> ", source: " <> source

-- `From<Error> for io::Error`
pub to_io_error : Error → IoError
unfolding describe
to_io_error (vhost_user_fs_error message source) = record {
  kind = other;
  message = describe ("Vhost user fs error: " <> message) source;
}
to_io_error (unexpected message source) = record {
  kind = other;
  message = describe ("Unexpected error: " <> message) source;
}
