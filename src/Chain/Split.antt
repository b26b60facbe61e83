-- ===== src/Chain/Split.antt =====
-- `split_at` cuts the flat view of a chain in two, and fails exactly when it is too short.
use ovfs.Prelude.{ℕ, zero, suc, ◌+◌, ◌-◌, ◌≤◌, ◌<◌, ◌≡◌, refl, sym, ◌∙◌, ap, arith}
use ovfs.Prelude.{List, [], ◌∷◌, ◌++◌, Option, none, some, inl, inr}
use ovfs.Prelude.{false, ltb, Bool-cases, length, take, drop, append-nil}
use ovfs.Prelude.Outcome.{ok, err, panic, hang}
use ovfs.Error.{Result}
use ovfs.Volatile.{Volatile, IsVolatile, addresses, cells, length-cells-cons}
use ovfs.Chain.{DescriptorChainConsumer, position, cut, divide, split_at, out_of_bounds}
use ovfs.Chain.Flat.{
  left, room, addresses-tail, addresses-head, drop-cells_inside, drop-cells_behind,
  take-cells_behind, take-cells_inside,
}
use mathlib.Core.Option

module _ (v : Volatile) where
  open v use {VolatileSlice, ptr, len}

  abbrev Halves : Type 0
  Halves = List VolatileSlice × List VolatileSlice

  abbrev keep_front : VolatileSlice → Result Halves → Result Halves
  keep_front s (ok (kept, other)) = ok (s ∷ kept, other)
  keep_front s (err e) = err e
  keep_front s panic = panic
  keep_front s hang = hang

  cut-cons :
      (s : VolatileSlice) (remain : ℕ) (kept other : List VolatileSlice)
      → cut v remain (s ∷ kept) other ≡ keep_front s (cut v remain kept other)
  unfolding cut
  cut-cons s zero kept other = refl
  cut-cons s (suc remain) kept [] = refl
  cut-cons s (suc remain) kept (front ∷ other) = ground arith

  divide-cons :
      (s : VolatileSlice) (at : Option ℕ) (remain : ℕ) (slices : List VolatileSlice)
      → divide v (Option.map suc at) remain (s ∷ slices) ≡ keep_front s (divide v at remain slices)
  unfolding divide
  divide-cons s (some at) remain slices = cut-cons s remain (take at slices) (drop at slices)
  divide-cons s none zero slices = refl
  divide-cons s none (suc remain) slices = refl

  abbrev division : ℕ → List VolatileSlice → Result Halves
  division n slices = divide v (position v n slices).0 (position v n slices).1 slices

  -- The two parts cover the first `n` addresses and the rest.
  abbrev Splits : ℕ → List VolatileSlice → Halves → Type 0
  Splits n slices (kept, other) =
      (cells v kept ≡ take n (cells v slices)) × (cells v other ≡ drop n (cells v slices))

  -- A cut inside the first slice.
  cut_inside :
      IsVolatile v
      → (s : VolatileSlice) (slices : List VolatileSlice) (n : ℕ) → n < len s
      → (h : Halves) × (cut v n [] (s ∷ slices) ≡ ok h) × Splits n (s ∷ slices) h
  unfolding cut
  cut_inside L s slices zero h = (([], s ∷ slices), refl, (unfold cells in refl, refl))
  cut_inside L s slices (suc n) h =
      let (head, found, p, q) = L.subslice_lem s 0 (suc n) (omega arith) in
      let (tail, found', p', q') = L.offset_lem s (suc n) (omega arith) in
      (
        (head ∷ [], tail ∷ slices),
        rw (found, found', cut),
        (
          unfold cells in
              rw append-nil (addresses-head v s head (suc n) (omega arith) p q)
              ∙ sym (take-cells_inside v s slices (suc n) (omega arith)),
          unfold cells in
              ap (λ l. l ++ cells v slices) (addresses-tail v s tail (suc n) p' q')
              ∙ sym (drop-cells_inside v s slices (suc n) (omega arith)),
        ),
      )

  Splits-cons :
      (s : VolatileSlice) (slices : List VolatileSlice) (n : ℕ) (h : Halves)
      → len s ≤ n
      → Splits (n - len s) slices h
      → Splits n (s ∷ slices) (s ∷ h.0, h.1)
  unfolding cells
  Splits-cons s slices n h le (front, back) = (
    ap (λ l. addresses v s ++ l) front ∙ sym (take-cells_behind v s slices n le),
    back ∙ sym (drop-cells_behind v s slices n le),
  )

  -- A split in range succeeds, and the parts cover the two parts of the addresses.
  division_lem :
      IsVolatile v
      → (n : ℕ) (slices : List VolatileSlice) → n ≤ length (cells v slices)
      → (h : Halves) × (division n slices ≡ ok h) × Splits n slices h
  unfolding position
  division_lem L zero [] h =
      (([], []), unfold divide in refl, (unfold cells in refl, unfold cells in refl))
  division_lem L (suc n) [] h = absurd (unfold cells in omega arith)
  division_lem L n (s ∷ slices) h = elim (Bool-cases (ltb n (len s))) [
    | inl inside ↦
        let (halves, e, sp) = cut_inside L s slices n (ground arith) in
        (halves, rw inside (unfold divide in e), sp)
    | inr outside ↦
        let le : len s ≤ n = ground arith in
        let (halves, e, sp) =
          division_lem L (n - len s) slices (omega (arith, length-cells-cons v s slices)) in
        (
          (s ∷ halves.0, halves.1),
          rw (outside, divide-cons) (ap (keep_front s) e),
          Splits-cons s slices n halves le sp,
        )
  ]

  division_fail :
      (n : ℕ) (slices : List VolatileSlice)
      → length (cells v slices) < n
      → division n slices ≡ err out_of_bounds
  unfolding position
  division_fail zero slices h = absurd (omega arith)
  division_fail (suc n) [] h = unfold divide in refl
  division_fail (suc n) (s ∷ slices) h =
      let long : len s + length (cells v slices) < suc n =
        omega (arith, length-cells-cons v s slices) in
      let outside : ltb (suc n) (len s) ≡ false = ground arith in
      rw (outside, divide-cons)
        (ap (keep_front s) (division_fail (suc n - len s) slices (omega arith)))

  -- Over slices that do what they document, split_at at an offset of at most the bytes that are
  -- left returns two consumers, one of the first bytes up to the offset that keeps the count of
  -- consumed bytes, and one of the bytes behind it that has consumed none.
  pub split_at_lem :
      IsVolatile v
      → (n : ℕ) (c : DescriptorChainConsumer v) → n ≤ room v c
      → (a b : DescriptorChainConsumer v) × (split_at v n c ≡ ok (a, b))
        × (left v a ≡ take n (left v c))
        × (left v b ≡ drop n (left v c))
        × (a.bytes_consumed ≡ c.bytes_consumed)
        × (b.bytes_consumed ≡ 0)
  unfolding split_at
  split_at_lem L n c h =
      let (halves, e, (front, back)) = division_lem L n c.buffers h in
      (
        record { buffers = halves.0; bytes_consumed = c.bytes_consumed },
        record { buffers = halves.1; bytes_consumed = 0 },
        rw e,
        front,
        back,
        refl,
        refl,
      )

  -- split_at at an offset beyond the bytes that are left fails with the error that says so.
  pub split_at-out_of_bounds :
      (n : ℕ) (c : DescriptorChainConsumer v) → room v c < n → split_at v n c ≡ err out_of_bounds
  unfolding split_at
  split_at-out_of_bounds n c h = rw (division_fail n c.buffers h)
