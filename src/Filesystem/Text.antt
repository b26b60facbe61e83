-- ===== src/Filesystem/Text.antt =====
-- The names and paths of src/filesystem.rs, as UTF-8 bytes: `bytes_to_cstr`, `bytes_to_str`, and
-- the `format!` calls that build paths.
use ovfs.Prelude.{ℕ, zero, suc, Bool, true, false, ◌&&◌, Option, none, some, List, [], ◌∷◌, ◌++◌}
use ovfs.Prelude.{ltb, leb, ◌==◌, if◌then◌else◌}
use mathlib.Core.Option

-- `str::from_utf8` as a machine: at a character's start, or expecting a byte of a range and then
-- some more continuation bytes.
pub data Utf8 : Type 0 where
  start : Utf8
  expect : ℕ → ℕ → ℕ → Utf8

within : ℕ → ℕ → ℕ → Bool
within lo hi b = leb lo b && leb b hi

utf8_step : Utf8 → ℕ → Option Utf8
unfolding within
utf8_step start b =
    if ltb b 0x80
    then some start
    else if within 0xc2 0xdf b
    then some (expect 0x80 0xbf 0)
    else if b == 0xe0
    then some (expect 0xa0 0xbf 1)
    else if b == 0xed
    then some (expect 0x80 0x9f 1)
    else if within 0xe1 0xef b
    then some (expect 0x80 0xbf 1)
    else if b == 0xf0
    then some (expect 0x90 0xbf 2)
    else if within 0xf1 0xf3 b
    then some (expect 0x80 0xbf 2)
    else if b == 0xf4
    then some (expect 0x80 0x8f 2)
    else none
utf8_step (expect lo hi zero) b = if within lo hi b then some start else none
utf8_step (expect lo hi (suc more)) b =
    if within lo hi b then some (expect 0x80 0xbf more) else none

utf8_run : Utf8 → List ℕ → Bool
utf8_run start [] = true
utf8_run (expect lo hi more) [] = false
utf8_run u (b ∷ bytes) = elim (utf8_step u b) [ none ↦ false | some next ↦ utf8_run next bytes ]

unfoldable pub is_utf8 : List ℕ → Bool
unfolding utf8_run utf8_step
is_utf8 bytes = utf8_run start bytes

-- `CStr::from_bytes_with_nul`: the only zero byte is the last one. The result is without it.
unfoldable pub bytes_to_cstr : List ℕ → Option (List ℕ)
bytes_to_cstr [] = none
bytes_to_cstr (b ∷ []) = if b == 0 then some [] else none
bytes_to_cstr (b ∷ c ∷ bytes) =
    let rest = bytes_to_cstr (c ∷ bytes) in
    if b == 0 then none else Option.map (λ name. b ∷ name) rest

-- `none` is the error EINVAL, which every caller drops.
unfoldable pub bytes_to_str : List ℕ → Option (List ℕ)
bytes_to_str buf = elim (bytes_to_cstr buf) [
  | none ↦ none
  | some name ↦ if is_utf8 name then some name else none
]

abbrev pub slash : ℕ
slash = 0x2f

-- `format!("{}/{}", parent, name)`
unfoldable pub join_path : List ℕ → List ℕ → List ℕ
join_path parent name = parent ++ (slash ∷ name)

-- `str::ends_with('/')`
unfoldable pub ends_with_slash : List ℕ → Bool
ends_with_slash [] = false
ends_with_slash (b ∷ []) = b == slash
ends_with_slash (b ∷ c ∷ bytes) = ends_with_slash (c ∷ bytes)

-- `if !path.ends_with('/') { format!("{}/", path) } else { path.to_string() }`
unfoldable pub dir_path : List ℕ → List ℕ
dir_path path = if ends_with_slash path then path else path ++ (slash ∷ [])

-- `name.truncate(name.len() - 1)`
drop_last : List ℕ → List ℕ
drop_last [] = []
drop_last (b ∷ []) = []
drop_last (b ∷ c ∷ bytes) = b ∷ drop_last (c ∷ bytes)

-- The name of a directory is shown without its slash.
unfoldable pub shown_name : List ℕ → List ℕ
unfolding drop_last
shown_name name = if ends_with_slash name then drop_last name else name
