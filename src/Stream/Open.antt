-- ===== src/Stream/Open.antt =====
-- `Reader::new` and `Writer::new` of src/util.rs: from the descriptors of a chain to a stream.
use ovfs.Prelude.{ℕ, ◌+◌, ◌-◌, ◌<◌, ◌≡◌, refl, arith, Option, none, some, List, [], ◌∷◌}
use ovfs.Prelude.{leb, if◌then◌else◌, length}
use ovfs.Prelude.Outcome.{Outcome, ok, err, map_err}
use ovfs.Prelude.Result.{◌>>=◌, >>=-inv, ok_or, ok_or-eq-ok, unwrap}
use ovfs.Error.{Error, AnyError, Result, new_vhost_user_fs_error}
use ovfs.Volatile.{Volatile, cells, length-cells-cons}
use ovfs.Chain.{usize_mod, checked_add, overflow}
use ovfs.Chain.Flat.{room, IsValid}
use ovfs.Stream.{Reader, Writer}

-- `virtio_queue::Descriptor`
pub record Descriptor : Type 0 where
  pub addr : ℕ
  pub len : ℕ

-- `vm_memory::GuestMemoryMmap`, which a library implements: the mapped regions of the guest.
pub record GuestMemory (v : Volatile) : Type 1 where
  pub Region : Type 0
  pub find_region : ℕ → Option Region
  pub start_addr : Region → ℕ
  pub get_slice : Region → ℕ → ℕ → Outcome AnyError v.VolatileSlice

abbrev pub no_region : Error
no_region = new_vhost_user_fs_error "no memory region for this address range" none

-- `GuestAddress::checked_sub`
unfoldable pub checked_sub : ℕ → ℕ → Option ℕ
checked_sub a b = if leb b a then some (a - b) else none

module _ (v : Volatile) (g : GuestMemory v) where
  open v use {VolatileSlice}

  -- What the library documents of `get_slice`: the slice has the length that is asked for.
  pub record IsGuestMemory : Type 0 where
    pub len-get_slice :
        (region : g.Region) (offset n : ℕ) {s : VolatileSlice}
        → g.get_slice region offset n ≡ ok s
        → v.len s ≡ n

  -- The closure of `map`: the combined length so far, and the slice.
  unfoldable pub open_slice : ℕ → Descriptor → Result (ℕ × VolatileSlice)
  open_slice total desc = do
    sum ← ok_or overflow (checked_add total desc.len)
    region ← ok_or no_region (g.find_region desc.addr)
    offset ← unwrap (checked_sub desc.addr (g.start_addr region))
    slice ←
        map_err (λ e. new_vhost_user_fs_error "volatile memory error" (some e))
          (g.get_slice region offset desc.len)
    ok (sum, slice)

  -- `collect` stops at the first error.
  unfoldable pub collect : ℕ → List Descriptor → Result (List VolatileSlice)
  collect total [] = ok []
  collect total (desc ∷ descs) = do
    (sum, slice) ← open_slice total desc
    slices ← collect sum descs
    ok (slice ∷ slices)

  -- The descriptors are `desc_chain.readable()`.
  unfoldable pub reader_new : List Descriptor → Result (Reader v)
  reader_new descs = do
    buffers ← collect 0 descs
    ok (record { buffer = record { buffers = buffers; bytes_consumed = 0 } })

  -- The descriptors are `desc_chain.writable()`.
  unfoldable pub writer_new : List Descriptor → Result (Writer v)
  writer_new descs = do
    buffers ← collect 0 descs
    ok (record { buffer = record { buffers = buffers; bytes_consumed = 0 } })

  abbrev pub total_len : List Descriptor → ℕ
  total_len [] = 0
  total_len (desc ∷ descs) = desc.len + total_len descs

  map_err-eq-ok :
      {E : Type 0} (f : E → Error) (o : Outcome E VolatileSlice) {s : VolatileSlice}
      → map_err f o ≡ ok s
      → o ≡ ok s
  map_err-eq-ok f (ok a) h = cc
  map_err-eq-ok f (err e) h = cc
  map_err-eq-ok f Outcome.panic h = cc
  map_err-eq-ok f Outcome.hang h = cc

  open_slice_fits :
      IsGuestMemory
      → (total : ℕ) (desc : Descriptor) (r : ℕ × VolatileSlice) → open_slice total desc ≡ ok r
      → (r.0 ≡ total + desc.len) × (r.0 < usize_mod) × (v.len r.1 ≡ desc.len)
  unfolding open_slice
  open_slice_fits G total desc r e =
      let (sum, e1, r1) = >>=-inv (ok_or overflow (checked_add total desc.len)) _ e in
      let (region, e2, r2) = >>=-inv (ok_or no_region (g.find_region desc.addr)) _ r1 in
      let (offset, e3, r3) = >>=-inv (unwrap (checked_sub desc.addr (g.start_addr region))) _ r2 in
      let (slice, e4, r4) = >>=-inv (map_err _ (g.get_slice region offset desc.len)) _ r3 in
      go sum slice (G.len-get_slice region offset desc.len (map_err-eq-ok _ _ e4))
        (ok_or-eq-ok overflow _ e1) r4
    where
      go :
          (sum : ℕ) (slice : VolatileSlice)
          → v.len slice ≡ desc.len
          → checked_add total desc.len ≡ some sum
          → ◌≡◌ {A = Result (ℕ × VolatileSlice)} (ok (sum, slice)) (ok r)
          → (r.0 ≡ total + desc.len) × (r.0 < usize_mod) × (v.len r.1 ≡ desc.len)
      go sum slice h1 h2 h3 = unfold checked_add in ground arith

  collect_fits :
      IsGuestMemory
      → (total : ℕ) (descs : List Descriptor) (slices : List VolatileSlice) → total < usize_mod
      → collect total descs ≡ ok slices
      → (length (cells v slices) ≡ total_len descs) × (total + total_len descs < usize_mod)
  unfolding collect
  collect_fits G total [] slices h e = go slices e
    where
      go :
          (slices : List VolatileSlice)
          → ◌≡◌ {A = Result (List VolatileSlice)} (ok []) (ok slices)
          → (length (cells v slices) ≡ 0) × (total + 0 < usize_mod)
      go [] e = (unfold cells in refl, omega arith)
      go (s ∷ slices) e = cc
  collect_fits G total (desc ∷ descs) slices h e =
      let (r, e1, r1) = >>=-inv (open_slice total desc) _ e in
      let (rest, e2, r2) = >>=-inv (collect r.0 descs) _ r1 in
      let fits = open_slice_fits G total desc r e1 in
      go r.0 r.1 rest fits (collect_fits G r.0 descs rest fits.1 e2) r2
    where
      go :
          (sum : ℕ) (s : VolatileSlice) (rest : List VolatileSlice)
          → (sum ≡ total + desc.len) × (sum < usize_mod) × (v.len s ≡ desc.len)
          → (length (cells v rest) ≡ total_len descs) × (sum + total_len descs < usize_mod)
          → ◌≡◌ {A = Result (List VolatileSlice)} (ok (s ∷ rest)) (ok slices)
          → (length (cells v slices) ≡ desc.len + total_len descs)
            × (total + (desc.len + total_len descs) < usize_mod)
      go sum s rest fits ih e =
          let same : slices ≡ s ∷ rest = cc in rw same (omega (arith, length-cells-cons v s rest))

  -- Over guest memory whose slices have the length that is asked for, a reader that opens has room
  -- for the combined length of its descriptors, and this length fits a usize.
  pub reader_new_lem :
      IsGuestMemory
      → (descs : List Descriptor) {r : Reader v} → reader_new descs ≡ ok r
      → IsValid v r.buffer × (room v r.buffer ≡ total_len descs)
  unfolding reader_new
  reader_new_lem G descs {r} e =
      let (slices, e1, r1) = >>=-inv (collect 0 descs) _ e in
      let fits = collect_fits G 0 descs slices (omega arith) e1 in
      let same : r ≡ record { buffer = record { buffers = slices; bytes_consumed = 0 } } = cc in
      rw same (omega arith)

  -- Over guest memory whose slices have the length that is asked for, a writer that opens has room
  -- for the combined length of its descriptors, and this length fits a usize.
  pub writer_new_lem :
      IsGuestMemory
      → (descs : List Descriptor) {w : Writer v} → writer_new descs ≡ ok w
      → IsValid v w.buffer × (room v w.buffer ≡ total_len descs)
  unfolding writer_new
  writer_new_lem G descs {w} e =
      let (slices, e1, r1) = >>=-inv (collect 0 descs) _ e in
      let fits = collect_fits G 0 descs slices (omega arith) e1 in
      let same : w ≡ record { buffer = record { buffers = slices; bytes_consumed = 0 } } = cc in
      rw same (omega arith)
