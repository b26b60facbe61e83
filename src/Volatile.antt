-- ===== src/Volatile.antt =====
-- `vm_memory::VolatileSlice`, which the program takes from a library: a window of guest memory,
-- with its address in the process and its length. The bitmap of dirty pages is `()` in this
-- program (`GuestMemoryMmap` with its default parameter), so `mark_dirty` does nothing.
use ovfs.Prelude.{ℕ, ◌+◌, ◌-◌, ◌≤◌, ◌≡◌, Option, some, List, [], ◌∷◌, ◌++◌, length}
use ovfs.Prelude.{refl, arith, length-append, append_assoc}
use ovfs.Memory.{span, length-span}

pub record Volatile : Type 1 where
  pub VolatileSlice : Type 0
  -- `ptr_guard().as_ptr()`, `len()`
  pub ptr : VolatileSlice → ℕ
  pub len : VolatileSlice → ℕ
  -- `none` is a `VolatileMemoryError`
  pub offset : VolatileSlice → ℕ → Option VolatileSlice
  pub subslice : VolatileSlice → ℕ → ℕ → Option VolatileSlice

-- What the library documents of `offset` and `subslice`.
pub record IsVolatile (v : Volatile) : Type 0 where
  pub offset_lem :
      (s : v.VolatileSlice) (n : ℕ)
      → n ≤ v.len s
      → (t : v.VolatileSlice) × (v.offset s n ≡ some t)
        × (v.ptr t ≡ v.ptr s + n)
        × (v.len t ≡ v.len s - n)
  pub subslice_lem :
      (s : v.VolatileSlice) (i n : ℕ)
      → i + n ≤ v.len s
      → (t : v.VolatileSlice) × (v.subslice s i n ≡ some t)
        × (v.ptr t ≡ v.ptr s + i)
        × (v.len t ≡ n)

module _ (v : Volatile) where
  open v use {VolatileSlice, ptr, len}

  abbrev pub addresses : VolatileSlice → List ℕ
  addresses s = span (ptr s) (len s)

  -- The addresses that a list of slices covers, in order: the flat view of a descriptor chain.
  unfoldable pub cells : List VolatileSlice → List ℕ
  cells [] = []
  cells (s ∷ slices) = addresses s ++ cells slices

  pub length-cells-cons :
      (s : VolatileSlice) (slices : List VolatileSlice)
      → length (cells (s ∷ slices)) ≡ len s + length (cells slices)
  unfolding cells
  length-cells-cons s slices =
      omega (arith, length-append (addresses s) (cells slices), length-span (ptr s) (len s))

  pub cells-append : (xs ys : List VolatileSlice) → cells (xs ++ ys) ≡ cells xs ++ cells ys
  unfolding cells
  cells-append [] ys = refl
  cells-append (x ∷ xs) ys = simp (cells-append xs ys, append_assoc)
