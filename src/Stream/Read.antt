-- ===== src/Stream/Read.antt =====
-- What `read` and `read_exact` return, and what they leave.
use ovfs.Prelude.{ℕ, zero, suc, ◌-◌, ◌≤◌, ◌<◌, ◌≡◌, refl, ◌∙◌, ap, ap₂, min, arith}
use ovfs.Prelude.{List, [], ◌++◌, length, take, length-drop}
use ovfs.Prelude.{ℕ-cases, inl, inr}
use ovfs.Prelude.Outcome.{ok, err}
use ovfs.Memory.{Memory, load}
use ovfs.Volatile.{Volatile, IsVolatile}
use ovfs.Chain.{gather}
use ovfs.Chain.Flat.{left, room, IsValid, take-gather, gather_count}
use ovfs.Chain.Consume.{IsAfter, IsAfter-IsValid, IsAfter-zero, IsAfter-at, consume_lem}
use ovfs.Stream.{Reader, read_slices, read, read_exact_loop, read_exact, eof}
use ovfs.Stream.Copy.{answer, read_slices_lem}

module _ (v : Volatile) (L : IsVolatile v) (mem : Memory) where
  -- Over slices that do what they document, read on a valid reader into a buffer returns the first
  -- bytes that are left, as many as fit the buffer, and the reader has moved on by their number.
  pub read_lem :
      (r : Reader v) (count : ℕ)
      → IsValid v r.buffer
      → let n = min count (room v r.buffer) in
        (r' : Reader v) × (read v mem r count ≡ ok (n, load mem (take count (left v r.buffer)), r'))
        × IsAfter v r.buffer n r'.buffer
  unfolding read
  read_lem r count w =
      let n : ℕ = min count (room v r.buffer) in
      let bytes : List ℕ = load mem (take count (left v r.buffer)) in
      let gathered : read_slices v mem count 0 (gather v count 0 r.buffer.buffers) []
          ≡ (ok n, bytes) =
        read_slices_lem v mem count 0 (gather v count 0 r.buffer.buffers) []
        ∙ ap₂ answer (omega (arith, gather_count v count r.buffer.buffers))
            (ap (load mem) (take-gather v count r.buffer.buffers)) in
      let (c, e, after) =
        consume_lem v (read_slices v mem count 0) r.buffer [] bytes n L w (omega arith) count
          gathered (unfold read_slices in refl) in
      (record { buffer = c }, rw e, after)

  -- One round of the loop.
  read_exact_loop_step :
      (fuel rem n : ℕ) (filled bytes : List ℕ) (r r' : Reader v)
      → read v mem r (suc rem) ≡ ok (suc n, bytes, r')
      → read_exact_loop v (suc fuel) mem (suc rem) filled r
        ≡ read_exact_loop v fuel mem (suc rem - suc n) (filled ++ bytes) r'
  unfolding read_exact_loop
  read_exact_loop_step fuel rem n filled bytes r r' e = rw (e, read_exact_loop)

  read_exact_loop_stop :
      (fuel rem : ℕ) (filled bytes : List ℕ) (r r' : Reader v)
      → read v mem r (suc rem) ≡ ok (0, bytes, r')
      → read_exact_loop v (suc fuel) mem (suc rem) filled r ≡ err eof
  unfolding read_exact_loop
  read_exact_loop_stop fuel rem filled bytes r r' e = rw (e, read_exact_loop)

  read_exact_loop_done :
      (fuel rem : ℕ) (filled : List ℕ) (r : Reader v)
      → rem ≡ 0
      → read_exact_loop v fuel mem rem filled r ≡ ok (filled, r)
  unfolding read_exact_loop
  read_exact_loop_done fuel zero filled r e = refl
  read_exact_loop_done fuel (suc rem) filled r e = absurd (omega arith)

  -- Over slices that do what they document, read_exact on a valid reader that has at least the
  -- requested number of bytes returns exactly the first of them, and the reader has moved on by
  -- this number.
  pub read_exact_lem :
      (r : Reader v) (count : ℕ)
      → IsValid v r.buffer
      → count ≤ room v r.buffer
      → (r' : Reader v) × (read_exact v mem r count
          ≡ ok (load mem (take count (left v r.buffer)), r'))
        × IsAfter v r.buffer count r'.buffer
  unfolding read_exact
  read_exact_lem r zero w h = (r, read_exact_loop_done 0 0 [] r refl, IsAfter-zero v r.buffer)
  read_exact_lem r (suc count) w h =
      let (r', e, after) = read_lem r (suc count) w in
      let bytes : List ℕ = load mem (take (suc count) (left v r.buffer)) in
      let e' : read v mem r (suc count) ≡ ok (suc count, bytes, r') =
        e ∙ ap (λ n. ok (n, bytes, r')) (omega arith) in
      (
        r',
        read_exact_loop_step count count count [] bytes r r' e'
            ∙ read_exact_loop_done count (suc count - suc count) bytes r' (omega arith),
        IsAfter-at v (suc count) (omega arith) after,
      )

  -- One more round at the end of the stream.
  read_exact_loop-eof :
      (fuel rem : ℕ) (filled : List ℕ) (r : Reader v)
      → IsValid v r.buffer
      → room v r.buffer ≡ 0
      → read_exact_loop v (suc fuel) mem (suc rem) filled r ≡ err eof
  read_exact_loop-eof fuel rem filled r w none_left =
      let (r', e, after) = read_lem r (suc rem) w in
      let e' : read v mem r (suc rem) ≡ ok (0, load mem (take (suc rem) (left v r.buffer)), r') =
        e ∙ ap (λ n. ok (n, load mem (take (suc rem) (left v r.buffer)), r')) (omega arith) in
      read_exact_loop_stop fuel rem filled _ r r' e'

  -- Over slices that do what they document, read_exact of more bytes than a valid reader has left
  -- ends, with the error of the end of the stream.
  pub read_exact-eof :
      (r : Reader v) (count : ℕ)
      → IsValid v r.buffer
      → room v r.buffer < count
      → read_exact v mem r count ≡ err eof
  unfolding read_exact
  read_exact-eof r zero w h = absurd (omega arith)
  read_exact-eof r (suc count) w h = elim (ℕ-cases (room v r.buffer)) [
    | inl none_left ↦ read_exact_loop-eof count count [] r w none_left
    | inr (k, some_left) ↦
        let (r', e, after) = read_lem r (suc count) w in
        let bytes : List ℕ = load mem (take (suc count) (left v r.buffer)) in
        let e' : read v mem r (suc count) ≡ ok (suc k, bytes, r') =
          e ∙ ap (λ n. ok (n, bytes, r')) (omega arith) in
        let end : room v r'.buffer ≡ 0 = omega (
          arith,
          ap length after.dropped,
          length-drop (min (suc count) (room v r.buffer)) (left v r.buffer),
        ) in
        let w' : IsValid v r'.buffer = IsAfter-IsValid v (omega arith) after w in
        read_exact_loop_step count count k [] bytes r r' e'
        ∙ ap₂ (λ f m. read_exact_loop v f mem m bytes r') (omega arith) (omega arith)
        ∙ read_exact_loop-eof (count - 1) (count - suc k) bytes r' w' end
  ]
