-- ===== src/Buffer.antt =====
-- src/buffer.rs: `BufferWrapper`, the bytes of an `opendal::Buffer` behind a `RefCell`, copied to
-- and from the slices of a chain. The state of `write_vectored_at_volatile` is the buffer, and that
-- of `read_vectored_at_volatile` is guest memory.
pub mod Copy
pub mod Ends
pub mod Frame
use ovfs.Prelude.{ℕ, ◌+◌, ◌-◌, min, List, [], ◌∷◌, ◌++◌, ◌==◌, if◌then◌else◌, length, take, drop}
use ovfs.Prelude.Outcome.{Outcome, ok, Exec, or_raise, continue, ◌>>=◌}
use ovfs.Error.{Error, IoError, to_io_error}
use ovfs.Memory.{Memory, copy_to, copy_from}
use ovfs.Volatile.{Volatile}
use ovfs.Chain.{DescriptorChainConsumer, consume}
use ovfs.Stream.{IoResult, Reader, Writer}

-- `opendal::Buffer` is the bytes that it holds.
pub record BufferWrapper : Type 0 where
  pub buffer : List ℕ

module _ (v : Volatile) where
  open v use {VolatileSlice, ptr, len}

  -- The loop of `read_vectored_at_volatile`, which stops at the first slice that takes no byte.
  unfoldable pub fill : List ℕ → ℕ → List VolatileSlice → Exec Memory Error ℕ
  fill bytes result [] mem = (ok result, mem)
  fill bytes result (s ∷ slices) mem =
      let num = min (length bytes - result) (len s) in
      let rest =
        fill bytes (result + num) slices (copy_to mem (ptr s) (take num (drop result bytes))) in
      if num == 0 then (ok result, mem) else rest

  -- An empty list of slices is answered 0 before the loop, as the loop would.
  unfoldable pub read_vectored_at_volatile :
      BufferWrapper → List VolatileSlice → Exec Memory Error ℕ
  read_vectored_at_volatile b [] mem = (ok 0, mem)
  read_vectored_at_volatile b (s ∷ slices) mem = fill b.buffer 0 (s ∷ slices) mem

  -- The loop of `write_vectored_at_volatile`: the slices are copied whole, one behind the other.
  unfoldable pub join : Memory → List VolatileSlice → List ℕ
  join mem [] = []
  join mem (s ∷ slices) = copy_from mem (ptr s) (len s) ++ join mem slices

  unfoldable pub total_size : List VolatileSlice → ℕ
  total_size [] = 0
  total_size (s ∷ slices) = len s + total_size slices

  unfoldable pub write_vectored_at_volatile :
      Memory → List VolatileSlice → Exec BufferWrapper Error ℕ
  write_vectored_at_volatile mem [] b = (ok 0, b)
  write_vectored_at_volatile mem (s ∷ slices) b =
      (ok (total_size (s ∷ slices)), record { buffer = join mem (s ∷ slices) })

  -- `Reader::read_to_at` of src/util.rs, into a `BufferWrapper`.
  abbrev filled_reader :
      IoResult (ℕ × DescriptorChainConsumer v) × BufferWrapper
      → IoResult (ℕ × Reader v) × BufferWrapper
  filled_reader (ok (n, c), b) = (ok (n, record { buffer = c }), b)
  filled_reader (Outcome.err e, b) = (Outcome.err e, b)
  filled_reader (Outcome.panic, b) = (Outcome.panic, b)
  filled_reader (Outcome.hang, b) = (Outcome.hang, b)

  unfoldable pub read_to_at : Memory → Reader v → ℕ → Exec BufferWrapper IoError (ℕ × Reader v)
  read_to_at mem r count b =
      filled_reader
        (or_raise to_io_error (consume v count (write_vectored_at_volatile mem) r.buffer) b)

  -- `Writer::write_from_at` of src/util.rs, from a `BufferWrapper`.
  abbrev moved_writer : ℕ × DescriptorChainConsumer v → Exec Memory IoError (ℕ × Writer v)
  moved_writer (n, c) mem = (ok (n, record { buffer = c }), mem)

  unfoldable pub write_from_at : Writer v → BufferWrapper → ℕ → Exec Memory IoError (ℕ × Writer v)
  write_from_at w b count =
      or_raise to_io_error (consume v count (read_vectored_at_volatile b) w.buffer) >>= moved_writer
