-- ===== src/Message/Layout.antt =====
-- The bytes of the structures of src/filesystem_message.rs: `ByteValued` shows a `repr(C)` value as
-- the bytes of its memory. The fields have no padding between them, and the host is little-endian.
use native.Mathlib.Nat.{pow-suc}
use ovfs.Prelude.{
  ◌^◌, ◌<◌, arith, ℕ, zero, suc, ◌+◌, ◌*◌, ◌/◌, ◌%◌, ◌≡◌, refl, List, [], ◌∷◌, length, take, drop,
}

-- A number as `w` bytes, the lowest first, and back.
unfoldable pub le : ℕ → ℕ → List ℕ
le zero n = []
le (suc w) n = (n % 256) ∷ le w (n / 256)

unfoldable pub un_le : List ℕ → ℕ
un_le [] = 0
un_le (b ∷ bytes) = b + 256 * un_le bytes

pub un_le-le : (w n : ℕ) → n < 256 ^ w → un_le (le w n) ≡ n
unfolding le un_le
un_le-le zero n h = omega arith
un_le-le (suc w) n h =
    omega (arith, pow-suc 256 w, un_le-le w (n / 256) (omega (arith, pow-suc 256 w)))

-- The field of `w` bytes at an offset.
abbrev pub field : ℕ → ℕ → List ℕ → ℕ
field offset w bytes = un_le (take w (drop offset bytes))

pub length-u8 : (n : ℕ) → length (le 1 n) ≡ 1
unfolding le
length-u8 n = refl

-- `vm_memory::ByteValued`: `size_of`, `as_slice`, and the value that some bytes are.
pub record ByteValued (A : Type 0) : Type 0 where
  pub size_of : ℕ
  pub as_slice : A → List ℕ
  pub from_slice : List ℕ → A
  pub length-as_slice : (a : A) → length (as_slice a) ≡ size_of

-- A `u8`.
instance abbrev pub u8_byte_valued : ByteValued ℕ
u8_byte_valued = record {
  size_of = 1;
  as_slice = le 1;
  from_slice = field 0 1;
  length-as_slice = length-u8;
}
