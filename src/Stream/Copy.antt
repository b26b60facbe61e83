-- ===== src/Stream/Copy.antt =====
-- The closures of `read` and `write` on the flat view.
use ovfs.Prelude.{ℕ, ◌+◌, ◌-◌, ◌≤◌, ◌≡◌, refl, sym, ◌∙◌, ap, ap₂, min, arith}
use ovfs.Prelude.{List, [], ◌∷◌, ◌++◌, length, take, drop, take_at, take_all}
use ovfs.Prelude.{append-nil, append_assoc, length-drop, length-take}
use ovfs.Prelude.Outcome.{Outcome, ok}
use ovfs.Memory.{Memory, span, length-span, take-span, load, store, store-take, store-addresses}
use ovfs.Volatile.{Volatile, addresses, cells, length-cells-cons}
use ovfs.Chain.{gather}
use ovfs.Chain.Flat.{take-cells, take-gather}
use ovfs.Error.{Error}
use Prim.Native.Nat.{zero-le}
use ovfs.Prelude.{take-min-length, drop-min-length}
use ovfs.Stream.{read_slices, write_slices}
use mathlib.Core.List.{map-append}

abbrev pub answer {ℓ} : {A : Type ℓ} → ℕ → A → Outcome Error ℕ × A
answer n a = (ok n, a)

module _ (v : Volatile) where
  open v use {VolatileSlice, ptr, len}

  -- `read` copies the first `rem` bytes of the slices, or all if there are fewer.
  pub read_slices_lem :
      (mem : Memory) (rem total : ℕ) (slices : List VolatileSlice) (filled : List ℕ)
      → read_slices v mem rem total slices filled ≡ (
        ok (total + min rem (length (cells v slices))),
        filled ++ load mem (take rem (cells v slices)),
      )
  unfolding read_slices
  read_slices_lem mem rem total [] filled =
      unfold cells in ap₂ answer (omega arith) (rw (take_all {A = ℕ} rem [] zero-le, append-nil))
  read_slices_lem mem rem total (s ∷ slices) filled =
      let n : ℕ = min rem (len s) in
      let rest : List ℕ = cells v slices in
      let bytes : load mem (span (ptr s) n) ++ load mem (take (rem - n) rest)
          ≡ load mem (take rem (cells v (s ∷ slices))) =
        ap₂ (λ a b. load mem a ++ load mem b) (sym (take-span rem (ptr s) (len s)))
          (take_at (rem - n) (rem - len s) rest (omega arith))
        ∙ sym (map-append mem (take rem (addresses v s)) (take (rem - len s) rest))
        ∙ ap (load mem) (sym (take-cells v s slices rem)) in
      read_slices_lem mem (rem - n) (total + n) slices (filled ++ load mem (span (ptr s) n))
      ∙ ap₂ answer (omega (arith, length-cells-cons v s slices))
          (append_assoc filled _ _ ∙ ap (λ l. filled ++ l) bytes)

  -- The bytes that one slice takes.
  copy_slice :
      (mem : Memory) (p n : ℕ) (bytes : List ℕ)
      → let k = min (length bytes) n in
        store mem (span p (length (take k bytes))) (take k bytes)
        ≡ store mem (span p n) (take n bytes)
  copy_slice mem p n bytes =
      let k : ℕ = min (length bytes) n in
      let size : length (take k bytes) ≡ min k n = omega (arith, length-take k bytes) in
      ap (λ j. store mem (span p j) (take k bytes)) size
      ∙ ap (λ l. store mem l (take k bytes)) (sym (take-span k p n))
      ∙ store-take mem k (span p n) (take k bytes) (omega (arith, length-take k bytes))
      ∙ ap (store mem (span p n)) (take-min-length n bytes)

  -- `write` stores the buffer at the first addresses of the slices, as far as they go.
  pub write_slices_lem :
      (rem : List ℕ) (total : ℕ) (slices : List VolatileSlice) (mem : Memory)
      → write_slices v rem total slices mem
        ≡ (ok (total + min (length rem) (length (cells v slices))), store mem (cells v slices) rem)
  unfolding write_slices
  write_slices_lem rem total [] mem = unfold cells store in ap₂ answer (omega arith) refl
  write_slices_lem rem total (s ∷ slices) mem =
      let n : ℕ = min (length rem) (len s) in
      let flat : store mem (cells v (s ∷ slices)) rem
          ≡ store (store mem (addresses v s) (take (len s) rem)) (cells v slices)
              (drop (len s) rem) =
        unfold cells in store-addresses mem (addresses v s) (cells v slices) rem ∙ rw length-span in
      write_slices_lem (drop n rem) (total + n) slices _
      ∙ ap₂ answer (omega (arith, length-cells-cons v s slices, length-drop n rem)) (
          ap₂ (λ m l. store m (cells v slices) l) (copy_slice mem (ptr s) (len s) rem)
            (drop-min-length (len s) rem)
          ∙ sym flat)

  -- A buffer no longer than `count` goes where it would go in the whole chain.
  pub store-gather :
      (count : ℕ) (slices : List VolatileSlice) (buf : List ℕ) (mem : Memory)
      → length buf ≤ count
      → store mem (cells v (gather v count 0 slices)) buf ≡ store mem (cells v slices) buf
  store-gather count slices buf mem h =
      sym (store-take mem count (cells v (gather v count 0 slices)) buf h)
      ∙ ap (λ l. store mem l buf) (take-gather v count slices)
      ∙ store-take mem count (cells v slices) buf h
