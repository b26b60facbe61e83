-- ===== src/Buffer/Frame.antt =====
-- The addresses to which the copies of src/buffer.rs write.
use ovfs.Prelude.{
  ℕ, ◌+◌, ◌-◌, ◌≡◌, ◌≤◌, ap, ◌∙◌, arith, min, List, [], ◌∷◌, length, take, drop, length-take, ◌==◌,
  Bool-cases, inl, inr,
}
use ovfs.Prelude.Exec.Yields.{Yields, plain-Yields-bind}
use ovfs.Error.{to_io_error}
use ovfs.Memory.{Memory, span, take-span, copy_to}
use ovfs.Volatile.{Volatile, IsVolatile, cells, addresses}
use ovfs.Chain.Frame.{
  Apart, Apart-take, Apart-front, Apart-back, store-Apart, Still, OffChain, Yields-consume,
}
use ovfs.Stream.{Writer}
use ovfs.Stream.Frame.{Off, Yields-or_raise}
use ovfs.Buffer.{BufferWrapper, fill, read_vectored_at_volatile, write_from_at}
use mathlib.Core.Path.{subst}

-- A copy of no more bytes than a slice has.
copy_to-Apart :
    (mem : Memory) (a ptr len : ℕ) (bytes : List ℕ)
    → length bytes ≤ len
    → Apart a (span ptr len)
    → copy_to mem ptr bytes a ≡ mem a
copy_to-Apart mem a ptr len bytes fits p =
    let short : min (length bytes) len ≡ length bytes = omega arith in
    store-Apart mem a (span ptr (length bytes)) bytes (
      subst (Apart a) (take-span (length bytes) ptr len ∙ ap (span ptr) short)
        (Apart-take a (length bytes) (span ptr len) p))

module _ (v : Volatile) (L : IsVolatile v) (a b : ℕ) where
  Yields-fill :
      (bytes : List ℕ) (result : ℕ) (slices : List v.VolatileSlice)
      → Apart a (cells v slices)
      → Yields (Still v L a b) (λ n. Unit) (fill v bytes result slices)
  unfolding fill cells
  Yields-fill bytes result [] p = record { at = λ mem still. (still, tt) }
  Yields-fill bytes result (s ∷ slices) p =
      let num : ℕ = min (length bytes - result) (v.len s) in
      let piece : List ℕ = take num (drop result bytes) in
      let rest =
        Yields-fill bytes (result + num) slices (Apart-back a (addresses v s) (cells v slices) p) in
      record {
        at = λ mem still. elim (Bool-cases (num == 0)) [
          | inl stop ↦ rw stop (still, tt)
          | inr more ↦ rw more (
              rest.at (copy_to mem (v.ptr s) piece) (
                copy_to-Apart mem a (v.ptr s) (v.len s) piece
                  (omega (arith, length-take num (drop result bytes)))
                  (Apart-front a (addresses v s) (cells v slices) p)
                ∙ still))
        ];
      }

  Yields-read_vectored :
      (w : BufferWrapper) (slices : List v.VolatileSlice)
      → Apart a (cells v slices)
      → Yields (Still v L a b) (λ n. Unit) (read_vectored_at_volatile v w slices)
  unfolding read_vectored_at_volatile
  Yields-read_vectored w [] p = record { at = λ mem still. (still, tt) }
  Yields-read_vectored w (s ∷ slices) p = Yields-fill w.buffer 0 (s ∷ slices) p

  pub Yields-write_from_at :
      (w : Writer v) (buffer : BufferWrapper) (count : ℕ)
      → Off v L a b w
      → Yields (Still v L a b) (λ r. Off v L a b r.1) (write_from_at v w buffer count)
  unfolding write_from_at
  Yields-write_from_at w buffer count p =
      plain-Yields-bind _ _
        (Yields-or_raise (OffChain v L a b) to_io_error _ (
          Yields-consume v L a b (read_vectored_at_volatile v buffer) (Yields-read_vectored buffer)
            count w.buffer p))
        λ r q. record { at = λ mem still. (still, q) }
