-- ===== src/Stream.antt =====
-- `Reader` and `Writer` of src/util.rs: a descriptor chain read, and written, as a stream of bytes.
-- `read_exact` and `write_all` are the loops of the standard library over `read` and `write`. The
-- streams never return `Interrupted`, which those loops would retry.
pub mod Copy
pub mod Read
pub mod Write
pub mod Open
pub mod Ends
pub mod Frame
use ovfs.Prelude.{ℕ, zero, suc, ◌+◌, ◌-◌, min, List, [], ◌∷◌, ◌++◌, ◌==◌, if◌then◌else◌}
use ovfs.Prelude.{length, take, drop}
use ovfs.Prelude.Outcome.{Outcome, ok, err, panic, hang, Exec, pure, raise, lift, map_err, or_raise}
use ovfs.Prelude.Outcome.{continue, ◌>>=◌}
use ovfs.Error.{Error, Result, IoError, unexpected_eof, write_zero, to_io_error}
use ovfs.Memory.{Memory, copy_to, copy_from}
use ovfs.Volatile.{Volatile}
use ovfs.Chain.{DescriptorChainConsumer, consume, split_at}

abbrev pub IoResult : Type 0 → Type 0
IoResult = Outcome IoError

-- The error that `read_exact` makes at the end of the stream, and `write_all` when nothing is taken.
abbrev pub eof : IoError
eof = record { kind = unexpected_eof; message = "failed to fill whole buffer" }

abbrev pub no_write : IoError
no_write = record { kind = write_zero; message = "failed to write whole buffer" }

module _ (v : Volatile) where
  open v use {VolatileSlice, ptr, len}

  pub record Reader : Type 0 where
    pub buffer : DescriptorChainConsumer v

  pub record Writer : Type 0 where
    pub buffer : DescriptorChainConsumer v

  -- The closure of `read`: `rem` bytes of the buffer are left, and `filled` is its front part.
  unfoldable pub read_slices : Memory → ℕ → ℕ → List VolatileSlice → Exec (List ℕ) Error ℕ
  read_slices mem rem total [] filled = (ok total, filled)
  read_slices mem rem total (s ∷ slices) filled =
      let copy_len = min rem (len s) in
      read_slices mem (rem - copy_len) (total + copy_len) slices
        (filled ++ copy_from mem (ptr s) copy_len)

  -- `read` into a buffer of `count` bytes: the number of bytes, the part of the buffer that it
  -- fills, and the reader.
  abbrev read_result :
      IoResult (ℕ × DescriptorChainConsumer v) × List ℕ → IoResult (ℕ × List ℕ × Reader)
  read_result (ok (n, c), filled) = ok (n, filled, record { buffer = c })
  read_result (err e, filled) = err e
  read_result (panic, filled) = panic
  read_result (hang, filled) = hang

  unfoldable pub read : Memory → Reader → ℕ → IoResult (ℕ × List ℕ × Reader)
  read mem r count =
      read_result (or_raise to_io_error (consume v count (read_slices mem count 0) r.buffer) [])

  -- The loop of `read_exact`, with `rem` bytes to go.
  unfoldable pub read_exact_loop : ℕ → Memory → ℕ → List ℕ → Reader → IoResult (List ℕ × Reader)
  read_exact_loop fuel mem zero filled r = ok (filled, r)
  read_exact_loop zero mem (suc rem) filled r = hang
  read_exact_loop (suc fuel) mem (suc rem) filled r = elim (read mem r (suc rem)) [
    | ok (zero, bytes, r') ↦ err eof
    | ok (suc n, bytes, r') ↦ read_exact_loop fuel mem (suc rem - suc n) (filled ++ bytes) r'
    | err e ↦ err e
    | panic ↦ panic
    | hang ↦ hang
  ]

  -- Every round reads a byte at least.
  unfoldable pub read_exact : Memory → Reader → ℕ → IoResult (List ℕ × Reader)
  read_exact mem r count = read_exact_loop count mem count [] r

  -- The closure of `write`: `rem` is what is left of the buffer.
  unfoldable pub write_slices : List ℕ → ℕ → List VolatileSlice → Exec Memory Error ℕ
  write_slices rem total [] mem = (ok total, mem)
  write_slices rem total (s ∷ slices) mem =
      let copy_len = min (length rem) (len s) in
      write_slices (drop copy_len rem) (total + copy_len) slices
        (copy_to mem (ptr s) (take copy_len rem))

  abbrev moved : ℕ × DescriptorChainConsumer v → Exec Memory IoError (ℕ × Writer)
  moved (n, c) = pure (n, record { buffer = c })

  unfoldable pub write : Writer → List ℕ → Exec Memory IoError (ℕ × Writer)
  write w buf =
      or_raise to_io_error (consume v (length buf) (write_slices buf 0) w.buffer) >>= moved

  -- The loop of `write_all`.
  unfoldable pub write_all_loop : ℕ → Writer → List ℕ → Exec Memory IoError Writer
  write_all_loop fuel w [] mem = (ok w, mem)
  write_all_loop zero w (b ∷ buf) mem = (hang, mem)
  write_all_loop (suc fuel) w (b ∷ buf) mem =
      let round = write w (b ∷ buf) mem in
      elim (round.0) [
        | ok (zero, w') ↦ (err no_write, round.1)
        | ok (suc n, w') ↦ write_all_loop fuel w' (drop (suc n) (b ∷ buf)) round.1
        | err e ↦ (err e, round.1)
        | panic ↦ (panic, round.1)
        | hang ↦ (hang, round.1)
      ]

  unfoldable pub write_all : Writer → List ℕ → Exec Memory IoError Writer
  write_all w buf = write_all_loop (length buf) w buf

  unfoldable pub bytes_written : Writer → ℕ
  bytes_written w = w.buffer.bytes_consumed

  -- `Writer::split_at`: the writer as it is left, and the new one.
  abbrev writers : DescriptorChainConsumer v × DescriptorChainConsumer v → Writer × Writer
  writers (a, b) = (record { buffer = a }, record { buffer = b })

  unfoldable pub writer_split_at : ℕ → Writer → Result (Writer × Writer)
  writer_split_at offset w = elim (split_at v offset w.buffer) [
    | ok halves ↦ ok (writers halves)
    | err e ↦ err e
    | panic ↦ panic
    | hang ↦ hang
  ]
