-- ===== src/Stream/Write.antt =====
-- What `write` and `write_all` store, and what they leave.
use ovfs.Prelude.{ℕ, zero, suc, ◌≤◌, ◌<◌, ◌≡◌, refl, sym, ◌∙◌, ap, ap₂, min, arith}
use ovfs.Prelude.{List, [], ◌∷◌, length, drop, length-drop, ℕ-cases, inl, inr}
use ovfs.Prelude.Outcome.{ok, err}
use ovfs.Memory.{Memory, store}
use ovfs.Volatile.{Volatile, IsVolatile}
use ovfs.Chain.{gather}
use ovfs.Chain.Flat.{left, room, IsValid, gather_count}
use ovfs.Chain.Consume.{IsAfter, IsAfter-IsValid, IsAfter-zero, IsAfter-at, consume_lem}
use ovfs.Stream.{Writer, write_slices, write, write_all_loop, write_all, no_write}
use ovfs.Stream.Copy.{answer, store-gather, write_slices_lem}
use native.Mathlib.Nat.{le_refl}

-- A stream that has no address left takes no byte.
pub store_nowhere :
    (mem : Memory) (addrs bytes : List ℕ) → length addrs ≡ 0 → store mem addrs bytes ≡ mem
unfolding store
store_nowhere mem [] bytes h = refl
store_nowhere mem (a ∷ addrs) bytes h = absurd (omega arith)

pub store_nothing : (mem : Memory) (addrs : List ℕ) → store mem addrs [] ≡ mem
unfolding store
store_nothing mem [] = refl
store_nothing mem (a ∷ addrs) = refl

module _ (v : Volatile) (L : IsVolatile v) where
  -- `write` stores as much of the buffer as there is room for, and moves on by it.
  pub write_lem :
      (w : Writer v) (buf : List ℕ) (mem : Memory)
      → IsValid v w.buffer
      → let n = min (length buf) (room v w.buffer) in
        (w' : Writer v) × (write v w buf mem ≡ (ok (n, w'), store mem (left v w.buffer) buf))
        × IsAfter v w.buffer n w'.buffer
  unfolding write
  write_lem w buf mem valid =
      let count : ℕ = length buf in
      let n : ℕ = min count (room v w.buffer) in
      let mem' : Memory = store mem (left v w.buffer) buf in
      let bufs = gather v count 0 w.buffer.buffers in
      let gathered : write_slices v buf 0 bufs mem ≡ (ok n, mem') =
        write_slices_lem v buf 0 bufs mem
        ∙ ap₂ answer (omega (arith, gather_count v count w.buffer.buffers))
            (store-gather v count w.buffer.buffers buf mem (le_refl count)) in
      let (c, e, after) =
        consume_lem v (write_slices v buf 0) w.buffer mem mem' n L valid (omega arith) count
          gathered (unfold write_slices in refl) in
      (record { buffer = c }, rw e, after)

  write_all_loop_step :
      (fuel n b : ℕ) (buf : List ℕ) (w w' : Writer v) (mem mem' : Memory)
      → write v w (b ∷ buf) mem ≡ (ok (suc n, w'), mem')
      → write_all_loop v (suc fuel) w (b ∷ buf) mem ≡ write_all_loop v fuel w' (drop n buf) mem'
  unfolding write_all_loop
  write_all_loop_step fuel n b buf w w' mem mem' e = rw (e, write_all_loop, e)

  write_all_loop_stop :
      (fuel b : ℕ) (buf : List ℕ) (w w' : Writer v) (mem mem' : Memory)
      → write v w (b ∷ buf) mem ≡ (ok (0, w'), mem')
      → write_all_loop v (suc fuel) w (b ∷ buf) mem ≡ (err no_write, mem')
  unfolding write_all_loop
  write_all_loop_stop fuel b buf w w' mem mem' e = rw (e, write_all_loop, e)

  write_all_loop_done :
      (fuel : ℕ) (buf : List ℕ) (w : Writer v) (mem : Memory)
      → length buf ≡ 0
      → write_all_loop v fuel w buf mem ≡ (ok w, mem)
  unfolding write_all_loop
  write_all_loop_done fuel [] w mem h = refl
  write_all_loop_done fuel (b ∷ buf) w mem h = absurd (omega arith)

  -- Over slices that do what they document, write_all of a buffer for which a valid writer has
  -- room stores the bytes at the first addresses of the writer, which has then moved on by their
  -- number.
  pub write_all_lem :
      (w : Writer v) (buf : List ℕ) (mem : Memory)
      → IsValid v w.buffer
      → length buf ≤ room v w.buffer
      → (w' : Writer v) × (write_all v w buf mem ≡ (ok w', store mem (left v w.buffer) buf))
        × IsAfter v w.buffer (length buf) w'.buffer
  unfolding write_all
  write_all_lem w [] mem valid h = (
    w,
    write_all_loop_done 0 [] w mem refl
        ∙ ap (λ m. (ok w, m)) (sym (store_nothing mem (left v w.buffer))),
    IsAfter-zero v w.buffer,
  )
  write_all_lem w (b ∷ buf) mem valid h =
      let (w', e, after) = write_lem w (b ∷ buf) mem valid in
      let mem' : Memory = store mem (left v w.buffer) (b ∷ buf) in
      let whole : min (suc (length buf)) (room v w.buffer) ≡ suc (length buf) = omega arith in
      let e' : write v w (b ∷ buf) mem ≡ (ok (suc (length buf), w'), mem') =
        e ∙ ap (λ n. (ok (n, w'), mem')) whole in
      (
        w',
        write_all_loop_step (length buf) (length buf) b buf w w' mem mem' e'
            ∙ write_all_loop_done (length buf) (drop (length buf) buf) w' mem'
                (omega (arith, length-drop (length buf) buf)),
        IsAfter-at v (suc (length buf)) whole after,
      )

  write_all_loop_full :
      (fuel : ℕ) (w : Writer v) (buf : List ℕ) (mem : Memory)
      → IsValid v w.buffer
      → room v w.buffer ≡ 0
      → 0 < length buf
      → 0 < fuel
      → write_all_loop v fuel w buf mem ≡ (err no_write, mem)
  write_all_loop_full fuel w [] mem valid full h f = absurd (omega arith)
  write_all_loop_full zero w (b ∷ buf) mem valid full h f = absurd (omega arith)
  write_all_loop_full (suc fuel) w (b ∷ buf) mem valid full h f =
      let (w', e, after) = write_lem w (b ∷ buf) mem valid in
      let e' : write v w (b ∷ buf) mem ≡ (ok (0, w'), mem) =
        e
        ∙ ap₂ (λ n m. (ok (n, w'), m)) (omega arith)
            (store_nowhere mem (left v w.buffer) (b ∷ buf) full) in
      write_all_loop_stop fuel b buf w w' mem mem e'

  -- Over slices that do what they document, write_all of a buffer for which a valid writer has no
  -- room ends, with the error that nothing more was written; the front of the buffer is stored at
  -- all the addresses of the writer.
  pub write_all-no_room :
      (w : Writer v) (buf : List ℕ) (mem : Memory)
      → IsValid v w.buffer
      → room v w.buffer < length buf
      → write_all v w buf mem ≡ (err no_write, store mem (left v w.buffer) buf)
  unfolding write_all
  write_all-no_room w [] mem valid h = absurd (omega arith)
  write_all-no_room w (b ∷ buf) mem valid h = elim (ℕ-cases (room v w.buffer)) [
    | inl full ↦
        write_all_loop_full (suc (length buf)) w (b ∷ buf) mem valid full (omega arith)
          (omega arith)
        ∙ ap (λ m. (err no_write, m)) (sym (store_nowhere mem (left v w.buffer) (b ∷ buf) full))
    | inr (k, some_room) ↦
        let (w', e, after) = write_lem w (b ∷ buf) mem valid in
        let mem' : Memory = store mem (left v w.buffer) (b ∷ buf) in
        let e' : write v w (b ∷ buf) mem ≡ (ok (suc k, w'), mem') =
          e ∙ ap (λ n. (ok (n, w'), mem')) (omega arith) in
        let end : room v w'.buffer ≡ 0 = omega (
          arith,
          ap length after.dropped,
          length-drop (min (suc (length buf)) (room v w.buffer)) (left v w.buffer),
        ) in
        write_all_loop_step (length buf) k b buf w w' mem mem' e'
        ∙ write_all_loop_full (length buf) w' (drop k buf) mem'
            (IsAfter-IsValid v (omega arith) after valid) end (omega (arith, length-drop k buf))
            (omega arith)
  ]
