-- ===== src/Stream/Frame.antt =====
-- The addresses to which the streams of src/util.rs write.
use ovfs.Prelude.{
  ℕ, zero, suc, ◌≡◌, refl, sym, ◌∙◌, List, [], ◌∷◌, length, drop, Bool-cases, true, false, leb, inl,
  inr, ◌≤◌, ◌<◌, arith,
}
use ovfs.Prelude.Outcome.{Outcome, ok, err, panic, hang, Exec}
use ovfs.Prelude.Outcome as Plain
use ovfs.Prelude.Exec.Yields.{Good, Yields, Good-map_err, plain-Yields-bind}
use ovfs.Error.{to_io_error}
use ovfs.Memory.{Memory}
use ovfs.Volatile.{Volatile, IsVolatile, cells}
use ovfs.Chain.Flat.{left, room}
use ovfs.Chain.Frame.{Apart, Apart-take, Apart-drop, store-Apart, Still, OffChain, Yields-consume}
use ovfs.Chain.Split.{split_at_lem, split_at-out_of_bounds}
use ovfs.Stream.{IoResult, Writer, write_slices, write, write_all_loop, write_all, writer_split_at}
use ovfs.Stream.Copy.{write_slices_lem}
use mathlib.Core.Path.{subst}

pub Yields-or_raise :
    {S E F A : Type 0} {Inv : S → Type 0} (Q : A → Type 0) (f : E → F) (m : Exec S E A)
    → Yields Inv Q m
    → Yields Inv Q (Plain.or_raise f m)
Yields-or_raise Q f m y = record {
  at = λ s inv. let (kept, q) = y.at s inv in (kept, Good-map_err Q f (m s).0 q);
}

leb-le : (n m : ℕ) → leb n m ≡ true → n ≤ m
leb-le n m e = ground arith

leb-lt : (n m : ℕ) → leb n m ≡ false → m < n
leb-lt n m e = ground arith

module _ (v : Volatile) (L : IsVolatile v) (a b : ℕ) where
  abbrev pub Off : Writer v → Type 0
  Off w = Apart a (left v w.buffer)

  abbrev OffWritten : ℕ × Writer v → Type 0
  OffWritten p = Off p.1

  Yields-write_slices :
      (buf : List ℕ) (slices : List v.VolatileSlice)
      → Apart a (cells v slices)
      → Yields (Still v L a b) (λ n. Unit) (write_slices v buf 0 slices)
  Yields-write_slices buf slices p = record {
    at = λ mem still.
        rw (write_slices_lem v buf 0 slices mem)
          (store-Apart mem a (cells v slices) buf p ∙ still, tt);
  }

  Yields-write :
      (w : Writer v) (buf : List ℕ) → Off w → Yields (Still v L a b) OffWritten (write v w buf)
  unfolding write
  Yields-write w buf p =
      plain-Yields-bind _ _
        (Yields-or_raise (OffChain v L a b) to_io_error _ (
          Yields-consume v L a b (write_slices v buf 0) (Yields-write_slices buf) (length buf)
            w.buffer p))
        λ r q. record { at = λ mem still. (still, q) }

  write_all_loop_round :
      (fuel : ℕ) (w : Writer v) (x : ℕ) (buf : List ℕ) (mem : Memory) (o : IoResult (ℕ × Writer v))
      (mem' : Memory)
      → write v w (x ∷ buf) mem ≡ (o, mem')
      → Still v L a b mem'
      → Good OffWritten o
      → ((n : ℕ) (w' : Writer v)
          → Off w'
          → Still v L a b (write_all_loop v fuel w' (drop n buf) mem').1
            × Good Off (write_all_loop v fuel w' (drop n buf) mem').0)
      → Still v L a b (write_all_loop v (suc fuel) w (x ∷ buf) mem).1
        × Good Off (write_all_loop v (suc fuel) w (x ∷ buf) mem).0
  unfolding write_all_loop
  write_all_loop_round fuel w x buf mem (ok (zero, w')) mem' e still q rest =
      rw (e, write_all_loop, e) (still, tt)
  write_all_loop_round fuel w x buf mem (ok (suc n, w')) mem' e still q rest =
      rw (e, write_all_loop, e) (rest n w' q)
  write_all_loop_round fuel w x buf mem (err y) mem' e still q rest =
      rw (e, write_all_loop, e) (still, tt)
  write_all_loop_round fuel w x buf mem panic mem' e still q rest =
      rw (e, write_all_loop, e) (still, tt)
  write_all_loop_round fuel w x buf mem hang mem' e still q rest =
      rw (e, write_all_loop, e) (still, tt)

  Still-write_all_loop :
      (fuel : ℕ) (w : Writer v) (buf : List ℕ) (mem : Memory)
      → Off w
      → Still v L a b mem
      → Still v L a b (write_all_loop v fuel w buf mem).1
        × Good Off (write_all_loop v fuel w buf mem).0
  unfolding write_all_loop
  Still-write_all_loop fuel w [] mem p still = (still, p)
  Still-write_all_loop zero w (x ∷ buf) mem p still = (still, tt)
  Still-write_all_loop (suc fuel) w (x ∷ buf) mem p still =
      let (kept, q) = (Yields-write w (x ∷ buf) p).at mem still in
      write_all_loop_round fuel w x buf mem (write v w (x ∷ buf) mem).0 (write v w (x ∷ buf) mem).1
        refl kept q
        λ n w' p'. Still-write_all_loop fuel w' (drop n buf) (write v w (x ∷ buf) mem).1 p' kept

  pub Yields-write_all :
      (w : Writer v) (buf : List ℕ) → Off w → Yields (Still v L a b) Off (write_all v w buf)
  unfolding write_all
  Yields-write_all w buf p = record {
    at = λ mem still. Still-write_all_loop (length buf) w buf mem p still;
  }

  pub Good-writer_split_at :
      (n : ℕ) (w : Writer v)
      → Off w
      → Good (λ halves. Off halves.0 × Off halves.1) (writer_split_at v n w)
  unfolding writer_split_at
  Good-writer_split_at n w p = elim (Bool-cases (leb n (room v w.buffer))) [
    | inl inside ↦
        let (front, back, e, taken, rest, counted, none_yet) =
          split_at_lem v L n w.buffer (leb-le n _ inside) in
        rw (e, writer_split_at)
          (
            subst (Apart a) (sym taken) (Apart-take a n (left v w.buffer) p),
            subst (Apart a) (sym rest) (Apart-drop a n (left v w.buffer) p),
          )
    | inr outside ↦
        rw (split_at-out_of_bounds v n w.buffer (leb-lt n _ outside), writer_split_at) tt
  ]
