-- ===== src/Buffer/Copy.antt =====
-- What `read_to_at` and `write_from_at` move between a chain and a buffer.
use ovfs.Prelude.{ℕ, ◌+◌, ◌-◌, ◌≤◌, ◌<◌, ◌≡◌, refl, sym, ◌∙◌, ap, ap₂, min, arith}
use ovfs.Prelude.{
  List, [], ◌∷◌, ◌++◌, length, take, drop, Bool-cases, inl, inr, ◌==◌, if◌then◌else◌,
}
use ovfs.Prelude.{length-drop, drop-drop, ltb}
use ovfs.Prelude.Outcome.{ok}
use ovfs.Memory.{store_short, Memory, load, store}
use ovfs.Volatile.{Volatile, IsVolatile, cells, addresses, length-cells-cons}
use ovfs.Chain.{gather}
use ovfs.Chain.Flat.{left, room, IsValid, gather_count, gather-cells}
use ovfs.Chain.Consume.{IsAfter, consume_lem}
use ovfs.Stream.{Reader, Writer, write_slices}
use native.Mathlib.Nat.{le_refl}
use ovfs.Stream.Copy.{store-gather, answer, write_slices_lem}
use ovfs.Buffer.{
  BufferWrapper, fill, read_vectored_at_volatile, join, total_size, write_vectored_at_volatile,
  read_to_at, write_from_at,
}
use mathlib.Core.List.{map-append}

module _ (v : Volatile) where
  open v use {VolatileSlice, ptr, len}

  total_size_lem : (slices : List VolatileSlice) → total_size v slices ≡ length (cells v slices)
  unfolding total_size
  total_size_lem [] = unfold cells in refl
  total_size_lem (s ∷ slices) = omega (arith, total_size_lem slices, length-cells-cons v s slices)

  join_lem :
      (mem : Memory) (slices : List VolatileSlice) → join v mem slices ≡ load mem (cells v slices)
  unfolding join cells
  join_lem mem [] = refl
  join_lem mem (s ∷ slices) =
      ap (λ l. load mem (addresses v s) ++ l) (join_lem mem slices)
      ∙ sym (map-append mem (addresses v s) (cells v slices))

  -- Every slice has a byte.
  abbrev pub NonEmpty : List VolatileSlice → Type 0
  NonEmpty [] = Unit
  NonEmpty (s ∷ slices) = (0 < len s) × NonEmpty slices

  -- Over slices that are not empty, the loop stores the bytes as `write` does.
  fill_lem :
      (bytes : List ℕ) (result : ℕ) (slices : List VolatileSlice) (mem : Memory)
      → NonEmpty slices
      → fill v bytes result slices mem ≡ write_slices v (drop result bytes) result slices mem
  unfolding fill write_slices
  fill_lem bytes result [] mem h = refl
  fill_lem bytes result (s ∷ slices) mem h =
      let num : ℕ = min (length bytes - result) (len s) in
      let rem : List ℕ = drop result bytes in
      elim (Bool-cases (num == 0)) [
        | inl stop ↦
            let empty : length rem ≡ 0 = ground (arith, length-drop result bytes) in
            rw stop (
              sym (
                write_slices_lem v rem result (s ∷ slices) mem
                ∙ ap₂ answer (omega arith) (store_short mem (cells v (s ∷ slices)) rem empty)))
        | inr more ↦ rw more (
            fill_lem bytes (result + num) slices _ h.1
            ∙ unfold write_slices in rw (length-drop result bytes, drop-drop))
      ]

  read_vectored_lem :
      (b : BufferWrapper) (slices : List VolatileSlice) (mem : Memory)
      → NonEmpty slices
      → read_vectored_at_volatile v b slices mem ≡ write_slices v b.buffer 0 slices mem
  unfolding read_vectored_at_volatile
  read_vectored_lem b [] mem h = unfold write_slices in refl
  read_vectored_lem b (s ∷ slices) mem h = fill_lem b.buffer 0 (s ∷ slices) mem h

  write_vectored_lem :
      (mem : Memory) (slices : List VolatileSlice)
      → write_vectored_at_volatile v mem slices (record { buffer = [] })
        ≡ (ok (length (cells v slices)), record { buffer = load mem (cells v slices) })
  unfolding write_vectored_at_volatile
  write_vectored_lem mem [] = unfold cells in refl
  write_vectored_lem mem (s ∷ slices) =
      ap₂ (λ n l. (ok n, record { buffer = l })) (total_size_lem (s ∷ slices))
        (join_lem mem (s ∷ slices))

  NonEmpty-gather :
      (count total : ℕ) (slices : List VolatileSlice)
      → NonEmpty slices
      → NonEmpty (gather v count total slices)
  unfolding gather
  NonEmpty-gather count total [] h = h
  NonEmpty-gather count total (s ∷ slices) h =
      let seen : ℕ = total + (if ltb (count - total) (len s) then count - total else len s) in
      ground (arith, NonEmpty-gather count seen slices h.1)

  -- Over slices that do what they document, write_from_at of a whole buffer, on a valid writer
  -- none of whose slices is empty, stores as many bytes of the buffer as there is room for at the
  -- addresses of the writer, which has then moved on by their number.
  pub write_from_at_lem :
      IsVolatile v
      → (w : Writer v) (b : BufferWrapper) (mem : Memory) → IsValid v w.buffer
      → NonEmpty w.buffer.buffers
      → let n = min (length b.buffer) (room v w.buffer) in
        (w' : Writer v) × (write_from_at v w b (length b.buffer) mem
          ≡ (ok (n, w'), store mem (left v w.buffer) b.buffer))
        × IsAfter v w.buffer n w'.buffer
  unfolding write_from_at
  write_from_at_lem L w b mem valid full =
      let count : ℕ = length b.buffer in
      let mem' : Memory = store mem (left v w.buffer) b.buffer in
      let bufs = gather v count 0 w.buffer.buffers in
      let gathered : read_vectored_at_volatile v b bufs mem
          ≡ (ok (min count (room v w.buffer)), mem') =
        read_vectored_lem b bufs mem (NonEmpty-gather count 0 w.buffer.buffers full)
        ∙ write_slices_lem v b.buffer 0 bufs mem
        ∙ ap₂ answer (omega (arith, gather_count v count w.buffer.buffers))
            (store-gather v count w.buffer.buffers b.buffer mem (le_refl count)) in
      let (c, e, after) =
        consume_lem v (read_vectored_at_volatile v b) w.buffer mem mem' _ L valid (omega arith)
          count gathered (unfold read_vectored_at_volatile in refl) in
      (record { buffer = c }, rw e, after)

  -- Over slices that do what they document, read_to_at of a count of bytes from a valid reader
  -- into an empty buffer takes some number of the first bytes, at least the smaller of the count
  -- and what is left, and at most what is left; the buffer holds them, and the reader has moved on
  -- by them.
  pub read_to_at_lem :
      IsVolatile v
      → (mem : Memory) (r : Reader v) (count : ℕ) → IsValid v r.buffer
      → (n : ℕ) × (r' : Reader v) × (read_to_at v mem r count (record { buffer = [] })
          ≡ (ok (n, r'), record { buffer = load mem (take n (left v r.buffer)) }))
        × IsAfter v r.buffer n r'.buffer
        × (min count (room v r.buffer) ≤ n)
        × (n ≤ room v r.buffer)
  unfolding read_to_at
  read_to_at_lem L mem r count valid =
      let bufs = gather v count 0 r.buffer.buffers in
      let n : ℕ = length (cells v bufs) in
      let b : BufferWrapper = record { buffer = load mem (take n (left v r.buffer)) } in
      let (front, fits) = gather-cells v count r.buffer.buffers in
      let gathered : write_vectored_at_volatile v mem bufs (record { buffer = [] }) ≡ (ok n, b) =
        write_vectored_lem mem bufs ∙ ap (λ l. (ok n, record { buffer = load mem l })) front in
      let (c, e, after) =
        consume_lem v (write_vectored_at_volatile v mem) r.buffer (record { buffer = [] }) b n L
          valid fits count gathered (unfold write_vectored_at_volatile in refl) in
      (
        n,
        record { buffer = c },
        rw e,
        after,
        omega (arith, gather_count v count r.buffer.buffers),
        fits,
      )
