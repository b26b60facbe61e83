-- ===== src/Buffer/Ends.antt =====
-- Termination of the copies of src/buffer.rs.
use ovfs.Prelude.{ℕ, ◌+◌, ◌-◌, ◌≢◌, refl, min, List, [], ◌∷◌, length, ◌==◌, Bool-cases, inl, inr}
use ovfs.Prelude.Outcome.{ok, err, panic, hang}
use ovfs.Prelude.Exec.Ends.{Ends, plain-Ends-bind}
use ovfs.Error.{to_io_error}
use ovfs.Memory.{Memory}
use ovfs.Volatile.{Volatile}
use ovfs.Chain.Ends.{Ends-consume}
use ovfs.Chain.{DescriptorChainConsumer}
use ovfs.Stream.{IoResult, Reader, Writer}
use ovfs.Stream.Ends.{Ends-or_raise}
use ovfs.Buffer.{
  BufferWrapper, fill, filled_reader, read_vectored_at_volatile, write_vectored_at_volatile,
  read_to_at, write_from_at,
}

module _ (v : Volatile) where
  Ends-fill :
      (bytes : List ℕ) (result : ℕ) (slices : List v.VolatileSlice)
      → Ends (fill v bytes result slices)
  unfolding fill
  Ends-fill bytes result [] = record { at = λ mem e. cc }
  Ends-fill bytes result (s ∷ slices) = record {
    at = λ mem. elim (Bool-cases (min (length bytes - result) (v.len s) == 0)) [
      | inl stop ↦ rw stop (λ e. cc)
      | inr more ↦
          rw more ((Ends-fill bytes (result + min (length bytes - result) (v.len s)) slices).at _)
    ];
  }

  Ends-read_vectored :
      (b : BufferWrapper) (slices : List v.VolatileSlice)
      → Ends (read_vectored_at_volatile v b slices)
  unfolding read_vectored_at_volatile
  Ends-read_vectored b [] = record { at = λ mem e. cc }
  Ends-read_vectored b (s ∷ slices) = Ends-fill b.buffer 0 (s ∷ slices)

  Ends-write_vectored :
      (mem : Memory) (slices : List v.VolatileSlice)
      → Ends (write_vectored_at_volatile v mem slices)
  unfolding write_vectored_at_volatile
  Ends-write_vectored mem [] = record { at = λ b e. cc }
  Ends-write_vectored mem (s ∷ slices) = record { at = λ b e. cc }

  pub Ends-write_from_at :
      (w : Writer v) (b : BufferWrapper) (count : ℕ) → Ends (write_from_at v w b count)
  unfolding write_from_at
  Ends-write_from_at w b count =
      plain-Ends-bind _ _
        (Ends-or_raise to_io_error _
          (Ends-consume v (read_vectored_at_volatile v b) (Ends-read_vectored b) count w.buffer))
        λ p. record { at = λ mem e. cc }

  ends-filled_reader :
      (r : IoResult (ℕ × DescriptorChainConsumer v) × BufferWrapper)
      → r.0 ≢ hang
      → (filled_reader v r).0 ≢ hang
  ends-filled_reader (ok (n, c), b) h = λ e. cc
  ends-filled_reader (err x, b) h = λ e. cc
  ends-filled_reader (panic, b) h = λ e. cc
  ends-filled_reader (hang, b) h = absurd (h refl)

  pub Ends-read_to_at : (mem : Memory) (r : Reader v) (count : ℕ) → Ends (read_to_at v mem r count)
  unfolding read_to_at
  Ends-read_to_at mem r count = record {
    at = λ b. ends-filled_reader _ (
        (Ends-or_raise to_io_error _ (
            Ends-consume v (write_vectored_at_volatile v mem) (Ends-write_vectored mem) count
              r.buffer)).at
          b);
  }
