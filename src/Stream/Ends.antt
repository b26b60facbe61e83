-- ===== src/Stream/Ends.antt =====
-- Termination of the streams of src/util.rs, and of `read_exact` and `write_all` over them.
use ovfs.Prelude.{
  ℕ, zero, suc, ◌-◌, ◌≤◌, ◌≡◌, ◌≢◌, refl, List, [], ◌∷◌, ◌++◌, length, drop, length-drop, arith,
}
use ovfs.Prelude.Outcome.{Outcome, ok, err, panic, hang, Exec}
use ovfs.Prelude.Outcome as Plain
use ovfs.Prelude.Exec.Ends.{Ends, ends-map_err, plain-Ends-bind}
use ovfs.Error.{Error, to_io_error}
use ovfs.Memory.{Memory}
use ovfs.Volatile.{Volatile}
use ovfs.Chain.{overflow, checked_add, DescriptorChainConsumer, split_at}
use ovfs.Chain.Ends.{Ends-consume, ends-split_at}
use ovfs.Stream.{
  IoResult, Reader, Writer, read_slices, read_result, read, read_exact_loop, read_exact,
  write_slices, write, write_all_loop, write_all, writer_split_at,
}
use ovfs.Prelude.{Option, none, some}
use ovfs.Prelude.Result
use ovfs.Stream.Open.{
  Descriptor, GuestMemory, no_region, checked_sub, open_slice, collect, reader_new, writer_new,
}
use native.Mathlib.Nat.{le_refl}
use ovfs.Stream.Copy.{read_slices_lem, write_slices_lem}

pub Ends-or_raise :
    {S E F A : Type 0} (f : E → F) (m : Exec S E A) → Ends m → Ends (Plain.or_raise f m)
Ends-or_raise f m h = record { at = λ s. ends-map_err f (m s).0 (h.at s) }

module _ (v : Volatile) where
  Ends-read_slices :
      (mem : Memory) (rem total : ℕ) (slices : List v.VolatileSlice)
      → Ends (read_slices v mem rem total slices)
  Ends-read_slices mem rem total slices = record {
    at = λ filled e. let done = read_slices_lem v mem rem total slices filled in cc;
  }

  Ends-write_slices :
      (rem : List ℕ) (total : ℕ) (slices : List v.VolatileSlice)
      → Ends (write_slices v rem total slices)
  Ends-write_slices rem total slices = record {
    at = λ mem e. let done = write_slices_lem v rem total slices mem in cc;
  }

  ends-read_result :
      (r : IoResult (ℕ × DescriptorChainConsumer v) × List ℕ) → r.0 ≢ hang → read_result v r ≢ hang
  ends-read_result (ok (n, c), filled) h = λ e. cc
  ends-read_result (err x, filled) h = λ e. cc
  ends-read_result (panic, filled) h = λ e. cc
  ends-read_result (hang, filled) h = absurd (h refl)

  ends-read : (mem : Memory) (r : Reader v) (count : ℕ) → read v mem r count ≢ hang
  unfolding read
  ends-read mem r count = ends-read_result _ (
      (Ends-or_raise to_io_error _ (
          Ends-consume v (read_slices v mem count 0) (Ends-read_slices mem count 0) count
            r.buffer)).at
        [])

  read_exact_loop_round :
      (fuel : ℕ) (mem : Memory) (rem : ℕ) (filled : List ℕ) (r : Reader v)
      (o : IoResult (ℕ × List ℕ × Reader v))
      → read v mem r (suc rem) ≡ o
      → o ≢ hang
      → ((n : ℕ) (bytes : List ℕ) (r' : Reader v)
          → read_exact_loop v fuel mem (suc rem - suc n) (filled ++ bytes) r' ≢ hang)
      → read_exact_loop v (suc fuel) mem (suc rem) filled r ≢ hang
  unfolding read_exact_loop
  read_exact_loop_round fuel mem rem filled r (ok (zero, bytes, r')) e h rest =
      rw (e, read_exact_loop) (λ p. cc)
  read_exact_loop_round fuel mem rem filled r (ok (suc n, bytes, r')) e h rest =
      rw (e, read_exact_loop) (rest n bytes r')
  read_exact_loop_round fuel mem rem filled r (err x) e h rest = rw (e, read_exact_loop) (λ p. cc)
  read_exact_loop_round fuel mem rem filled r panic e h rest = rw (e, read_exact_loop) (λ p. cc)
  read_exact_loop_round fuel mem rem filled r hang e h rest = absurd (h refl)

  ends-read_exact_loop :
      (fuel : ℕ) (mem : Memory) (rem : ℕ) (filled : List ℕ) (r : Reader v)
      → rem ≤ fuel
      → read_exact_loop v fuel mem rem filled r ≢ hang
  unfolding read_exact_loop
  ends-read_exact_loop fuel mem zero filled r h = λ e. cc
  ends-read_exact_loop zero mem (suc rem) filled r h = absurd (omega arith)
  ends-read_exact_loop (suc fuel) mem (suc rem) filled r h =
      read_exact_loop_round fuel mem rem filled r (read v mem r (suc rem)) refl
        (ends-read mem r (suc rem))
        λ n bytes r'.
          ends-read_exact_loop fuel mem (suc rem - suc n) (filled ++ bytes) r' (omega arith)

  pub ends-read_exact : (mem : Memory) (r : Reader v) (count : ℕ) → read_exact v mem r count ≢ hang
  unfolding read_exact
  ends-read_exact mem r count = ends-read_exact_loop count mem count [] r (le_refl count)

  Ends-write : (w : Writer v) (buf : List ℕ) → Ends (write v w buf)
  unfolding write
  Ends-write w buf =
      plain-Ends-bind _ _
        (Ends-or_raise to_io_error _
          (Ends-consume v (write_slices v buf 0) (Ends-write_slices buf 0) (length buf) w.buffer))
        λ p. record { at = λ mem e. cc }

  write_all_loop_round :
      (fuel : ℕ) (w : Writer v) (b : ℕ) (buf : List ℕ) (mem : Memory) (o : IoResult (ℕ × Writer v))
      (mem' : Memory)
      → write v w (b ∷ buf) mem ≡ (o, mem')
      → o ≢ hang
      → ((n : ℕ) (w' : Writer v) → (write_all_loop v fuel w' (drop n buf) mem').0 ≢ hang)
      → (write_all_loop v (suc fuel) w (b ∷ buf) mem).0 ≢ hang
  unfolding write_all_loop
  write_all_loop_round fuel w b buf mem (ok (zero, w')) mem' e h rest =
      rw (e, write_all_loop) (λ p. cc)
  write_all_loop_round fuel w b buf mem (ok (suc n, w')) mem' e h rest =
      rw (e, write_all_loop, e) (rest n w')
  write_all_loop_round fuel w b buf mem (err x) mem' e h rest = rw (e, write_all_loop) (λ p. cc)
  write_all_loop_round fuel w b buf mem panic mem' e h rest = rw (e, write_all_loop) (λ p. cc)
  write_all_loop_round fuel w b buf mem hang mem' e h rest = absurd (h refl)

  Ends-write_all_loop :
      (fuel : ℕ) (w : Writer v) (buf : List ℕ) (mem : Memory)
      → length buf ≤ fuel
      → (write_all_loop v fuel w buf mem).0 ≢ hang
  unfolding write_all_loop
  Ends-write_all_loop fuel w [] mem h = λ e. cc
  Ends-write_all_loop zero w (b ∷ buf) mem h = absurd (omega arith)
  Ends-write_all_loop (suc fuel) w (b ∷ buf) mem h =
      write_all_loop_round fuel w b buf mem (write v w (b ∷ buf) mem).0 (write v w (b ∷ buf) mem).1
        refl ((Ends-write w (b ∷ buf)).at mem)
        λ n w'. Ends-write_all_loop fuel w' (drop n buf) _ (omega (arith, length-drop n buf))

  pub Ends-write_all : (w : Writer v) (buf : List ℕ) → Ends (write_all v w buf)
  unfolding write_all
  Ends-write_all w buf = record {
    at = λ mem. Ends-write_all_loop (length buf) w buf mem (le_refl (length buf));
  }

  pub ends-writer_split_at : (n : ℕ) (w : Writer v) → writer_split_at v n w ≢ hang
  unfolding writer_split_at
  ends-writer_split_at n w = go (split_at v n w.buffer) refl (ends-split_at v n w.buffer)
    where
      go :
          (o : Outcome Error (DescriptorChainConsumer v × DescriptorChainConsumer v))
          → split_at v n w.buffer ≡ o
          → o ≢ hang
          → writer_split_at v n w ≢ hang
      go (ok halves) e h = rw (e, writer_split_at) (λ p. cc)
      go (err x) e h = rw (e, writer_split_at) (λ p. cc)
      go panic e h = rw (e, writer_split_at) (λ p. cc)
      go hang e h = absurd (h refl)

ends-ok : {A : Type 0} (a : A) → ◌≢◌ {A = Outcome Error A} (ok a) hang
ends-ok a e = cc

ends-then :
    {A B : Type 0} (o : Outcome Error A) (f : A → Outcome Error B)
    → o ≢ hang
    → ((a : A) → f a ≢ hang)
    → (Result.◌>>=◌ o f) ≢ hang
ends-then (ok a) f h k = k a
ends-then (err x) f h k = λ e. cc
ends-then panic f h k = λ e. cc
ends-then hang f h k = absurd (h refl)

ends-ok_or : {A : Type 0} (x : Error) (o : Option A) → Result.ok_or x o ≢ hang
ends-ok_or x none = λ e. cc
ends-ok_or x (some a) = λ e. cc

ends-unwrap : {A : Type 0} (o : Option A) → ◌≢◌ {A = Outcome Error A} (Result.unwrap o) hang
ends-unwrap none = λ e. cc
ends-unwrap (some a) = λ e. cc

module _ (v : Volatile) (g : GuestMemory v)
    (ends : (region : g.Region) (offset n : ℕ) → g.get_slice region offset n ≢ hang) where
  ends-open_slice : (total : ℕ) (desc : Descriptor) → open_slice v g total desc ≢ hang
  unfolding open_slice
  ends-open_slice total desc =
      ends-then (Result.ok_or overflow (checked_add total desc.len)) _ (ends-ok_or _ _) λ sum.
        ends-then (Result.ok_or no_region (g.find_region desc.addr)) _ (ends-ok_or _ _) λ region.
          ends-then (Result.unwrap (checked_sub desc.addr (g.start_addr region))) _ (ends-unwrap _)
            λ offset.
              ends-then (Plain.map_err _ (g.get_slice region offset desc.len)) _
                (ends-map_err _ _ (ends region offset desc.len)) λ slice. ends-ok (sum, slice)

  ends-collect : (total : ℕ) (descs : List Descriptor) → collect v g total descs ≢ hang
  unfolding collect
  ends-collect total [] = λ e. cc
  ends-collect total (desc ∷ descs) =
      ends-then (open_slice v g total desc) _ (ends-open_slice total desc) λ p.
        ends-then (collect v g p.0 descs) _ (ends-collect p.0 descs)
          λ slices. ends-ok (p.1 ∷ slices)

  pub ends-reader_new : (descs : List Descriptor) → reader_new v g descs ≢ hang
  unfolding reader_new
  ends-reader_new descs =
      ends-then (collect v g 0 descs) _ (ends-collect 0 descs) λ buffers. ends-ok _

  pub ends-writer_new : (descs : List Descriptor) → writer_new v g descs ≢ hang
  unfolding writer_new
  ends-writer_new descs =
      ends-then (collect v g 0 descs) _ (ends-collect 0 descs) λ buffers. ends-ok _
