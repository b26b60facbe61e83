-- ===== src/Chain/Flat.antt =====
-- The flat view of a consumer: the addresses that are left in it.
use ovfs.Prelude.{ℕ, ◌+◌, ◌-◌, ◌≤◌, ◌<◌, ◌≡◌, refl, sym, ◌∙◌, ap, ap₂, arith}
use ovfs.Prelude.{List, [], ◌∷◌, ◌++◌, ltb, leb, Bool-cases, inl, inr}
use ovfs.Prelude.{length, take, drop, drop_all, drop-append_le, drop-append_ge}
use ovfs.Prelude.{take-append, take-append_le, take-append_ge, if◌then◌else◌}
use Prim.Native.Nat.{zero-le}
use mathlib.Core.Path.{subst}
use native.Mathlib.Nat.{sub-zero}
use ovfs.Prelude.{min, length-take, length-append, take_all}
use ovfs.Volatile.{cells-append}
use native.Mathlib.Nat.{le_refl}
use ovfs.Prelude.Outcome.{ok}
use ovfs.Memory.{span, length-span, take-span, drop-span}
use ovfs.Volatile.{Volatile, IsVolatile, addresses, cells}
use ovfs.Chain.{usize_mod, DescriptorChainConsumer, gather, advance}

module _ (v : Volatile) where
  open v use {VolatileSlice, ptr, len}

  abbrev pub left : DescriptorChainConsumer v → List ℕ
  left c = cells v c.buffers

  abbrev pub room : DescriptorChainConsumer v → ℕ
  room c = length (left c)

  -- The combined length of the chain fits a `usize`, as `Reader::new` and `Writer::new` check.
  pub record IsValid (c : DescriptorChainConsumer v) : Type 0 where
    pub fits : c.bytes_consumed + room c < usize_mod

  pub addresses-tail :
      (s t : VolatileSlice) (n : ℕ)
      → ptr t ≡ ptr s + n
      → len t ≡ len s - n
      → addresses v t ≡ drop n (addresses v s)
  addresses-tail s t n p q = rw (p, q, drop-span)

  pub addresses-head :
      (s t : VolatileSlice) (n : ℕ)
      → n ≤ len s
      → ptr t ≡ ptr s + 0
      → len t ≡ n
      → addresses v t ≡ take n (addresses v s)
  addresses-head s t n h p q = rw (p, q, take-span) (ap₂ span (omega arith) (omega arith))

  -- A split of the flat view inside the first slice, and one behind it.
  pub drop-cells_inside :
      (s : VolatileSlice) (slices : List VolatileSlice) (n : ℕ)
      → n ≤ len s
      → drop n (cells v (s ∷ slices)) ≡ drop n (addresses v s) ++ cells v slices
  unfolding cells
  drop-cells_inside s slices n h =
      drop-append_le n (addresses v s) (cells v slices) (rw length-span h)

  pub take-cells_inside :
      (s : VolatileSlice) (slices : List VolatileSlice) (n : ℕ)
      → n ≤ len s
      → take n (cells v (s ∷ slices)) ≡ take n (addresses v s)
  unfolding cells
  take-cells_inside s slices n h =
      take-append_le n (addresses v s) (cells v slices) (rw length-span h)

  pub drop-cells_behind :
      (s : VolatileSlice) (slices : List VolatileSlice) (n : ℕ)
      → len s ≤ n
      → drop n (cells v (s ∷ slices)) ≡ drop (n - len s) (cells v slices)
  unfolding cells
  drop-cells_behind s slices n h =
      drop-append_ge n (addresses v s) (cells v slices) (rw length-span h) ∙ rw length-span

  pub take-cells_behind :
      (s : VolatileSlice) (slices : List VolatileSlice) (n : ℕ)
      → len s ≤ n
      → take n (cells v (s ∷ slices)) ≡ addresses v s ++ take (n - len s) (cells v slices)
  unfolding cells
  take-cells_behind s slices n h =
      take-append_ge n (addresses v s) (cells v slices) (rw length-span h) ∙ rw length-span

  pub take-cells :
      (s : VolatileSlice) (slices : List VolatileSlice) (n : ℕ)
      → take n (cells v (s ∷ slices)) ≡ take n (addresses v s) ++ take (n - len s) (cells v slices)
  unfolding cells
  take-cells s slices n = take-append n (addresses v s) (cells v slices) ∙ rw length-span

  take-cells_congr :
      (s : VolatileSlice) (n : ℕ) (xs ys : List VolatileSlice)
      → take (n - len s) (cells v xs) ≡ take (n - len s) (cells v ys)
      → take n (cells v (s ∷ xs)) ≡ take n (cells v (s ∷ ys))
  take-cells_congr s n xs ys h =
      take-cells s xs n ∙ ap (λ l. take n (addresses v s) ++ l) h ∙ sym (take-cells s ys n)

  -- Popping `n` bytes drops the first `n` addresses.
  pub advance_lem :
      IsVolatile v
      → (n : ℕ) (slices : List VolatileSlice)
      → (rest : List VolatileSlice) × (advance v n slices ≡ ok rest)
        × (cells v rest ≡ drop n (cells v slices))
  unfolding advance
  advance_lem L n [] = ([], refl, unfold cells in sym (drop_all n [] zero-le))
  advance_lem L n (s ∷ slices) = elim (Bool-cases (ltb n (len s))) [
    | inl inside ↦
        let (t, found, p, q) = L.offset_lem s n (ground arith) in
        (
          t ∷ slices,
          rw (inside, found),
          unfold cells in
              ap (λ l. l ++ cells v slices) (addresses-tail s t n p q)
              ∙ sym (drop-cells_inside s slices n (ground arith)),
        )
    | inr outside ↦
        let (rest, done, flat) = advance_lem L (n - len s) slices in
        (rest, rw outside done, flat ∙ sym (drop-cells_behind s slices n (ground arith)))
  ]

  -- The slices handed to the closure hold the first `count` addresses of the chain.
  pub gather_lem :
      (count total : ℕ) (slices : List VolatileSlice)
      → take (count - total) (cells v (gather v count total slices))
        ≡ take (count - total) (cells v slices)
  unfolding gather
  gather_lem count total [] = refl
  gather_lem count total (s ∷ slices) = elim (Bool-cases (leb count total)) [
    | inl done ↦ let none_left : count - total ≡ 0 = ground arith in rw none_left refl
    | inr more ↦
        let seen : ℕ = total + (if ltb (count - total) (len s) then count - total else len s) in
        let e : count - seen ≡ count - total - len s = ground arith in
        rw more (
          take-cells_congr s (count - total) (gather v count seen slices) slices (
            subst (λ k. take k (cells v (gather v count seen slices)) ≡ take k (cells v slices)) e
              (gather_lem count seen slices)))
  ]

  pub take-gather :
      (count : ℕ) (slices : List VolatileSlice)
      → take count (cells v (gather v count 0 slices)) ≡ take count (cells v slices)
  take-gather count slices =
      subst (λ k. take k (cells v (gather v count 0 slices)) ≡ take k (cells v slices))
        (sub-zero count) (gather_lem count 0 slices)

  pub gather_count :
      (count : ℕ) (slices : List VolatileSlice)
      → min count (length (cells v (gather v count 0 slices))) ≡ min count (length (cells v slices))
  gather_count count slices = omega (
    arith,
    ap length (take-gather count slices),
    length-take count (cells v (gather v count 0 slices)),
    length-take count (cells v slices),
  )

  -- The closure is handed a front part of the chain.
  pub gather_prefix :
      (count total : ℕ) (slices : List VolatileSlice)
      → (rest : List VolatileSlice) × (slices ≡ gather v count total slices ++ rest)
  unfolding gather
  gather_prefix count total [] = ([], refl)
  gather_prefix count total (s ∷ slices) = elim (Bool-cases (leb count total)) [
    | inl done ↦ (s ∷ slices, rw done)
    | inr more ↦
        let seen : ℕ = total + (if ltb (count - total) (len s) then count - total else len s) in
        let (rest, e) = gather_prefix count seen slices in (rest, rw more (ap (λ l. s ∷ l) e))
  ]

  pub gather-cells :
      (count : ℕ) (slices : List VolatileSlice)
      → let n = length (cells v (gather v count 0 slices)) in
        (cells v (gather v count 0 slices) ≡ take n (cells v slices))
        × (n ≤ length (cells v slices))
  gather-cells count slices =
      let front : List ℕ = cells v (gather v count 0 slices) in
      let (rest, e) = gather_prefix count 0 slices in
      let flat : cells v slices ≡ front ++ cells v rest =
        ap (cells v) e ∙ cells-append v (gather v count 0 slices) rest in
      (
        sym (
            ap (take (length front)) flat
            ∙ take-append_le (length front) front (cells v rest) (le_refl _)
            ∙ take_all (length front) front (le_refl _)),
        omega (arith, ap length flat, length-append front (cells v rest)),
      )
