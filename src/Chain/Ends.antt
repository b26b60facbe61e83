-- ===== src/Chain/Ends.antt =====
-- Termination of `consume` and `split_at` of src/util.rs.
use ovfs.Prelude.{
  ℕ, zero, suc, ◌-◌, ◌≢◌, refl, Option, none, some, List, [], ◌∷◌, ltb, Option-cases, Bool-cases,
  inl, inr, take, drop,
}
use ovfs.Prelude.Outcome.{Outcome, ok, err, panic, hang, Exec}
use ovfs.Prelude.Outcome as Plain
use ovfs.Prelude.Exec.Ends.{Ends, plain-Ends-bind, plain-Ends-ok_or}
use ovfs.Error.{Error, Result}
use ovfs.Volatile.{Volatile}
use ovfs.Chain.{
  DescriptorChainConsumer, checked_add, advance, consume_from, consume, gather, overflow, split_at,
  cut, divide, parts,
}

module _ (v : Volatile) where
  open v use {VolatileSlice, len}

  ends-advance : (n : ℕ) (slices : List VolatileSlice) → advance v n slices ≢ hang
  unfolding advance
  ends-advance n [] = λ e. cc
  ends-advance n (s ∷ slices) = elim (Bool-cases (ltb n (len s))) [
    | inl inside ↦ elim (Option-cases (v.offset s n)) [
      | inl none_there ↦ rw (inside, none_there) (λ e. cc)
      | inr (t, there) ↦ rw (inside, there) (λ e. cc)
    ]
    | inr outside ↦ rw outside (ends-advance (n - len s) slices)
  ]

  module _ {S : Type 0} (f : List VolatileSlice → Exec S Error ℕ)
      (ends : (slices : List VolatileSlice) → Ends (f slices)) where
    Ends-consume_from :
        (count : ℕ) (c : DescriptorChainConsumer v) (slices : List VolatileSlice)
        → Ends (consume_from v count f c slices)
    Ends-consume_from count c [] = record { at = λ s e. cc }
    Ends-consume_from count c (s ∷ slices) =
        plain-Ends-bind (f (s ∷ slices)) _ (ends (s ∷ slices)) λ n.
          plain-Ends-bind (Plain.ok_or overflow (checked_add c.bytes_consumed n)) _
            (plain-Ends-ok_or overflow (checked_add c.bytes_consumed n))
            λ total.
              plain-Ends-bind (Plain.lift (advance v n c.buffers)) _
                (record { at = λ mem. ends-advance n c.buffers })
                λ buffers. record { at = λ mem e. cc }

    pub Ends-consume : (count : ℕ) (c : DescriptorChainConsumer v) → Ends (consume v count f c)
    unfolding consume
    Ends-consume count c = Ends-consume_from count c (gather v count 0 c.buffers)

  ends-cut : (remain : ℕ) (kept other : List VolatileSlice) → cut v remain kept other ≢ hang
  unfolding cut
  ends-cut zero kept other = λ e. cc
  ends-cut (suc remain) kept [] = λ e. cc
  ends-cut (suc remain) kept (front ∷ other) =
      elim (Option-cases (v.subslice front 0 (suc remain))) [
        | inl no_head ↦ rw (no_head, cut) (λ e. cc)
        | inr (head, e1) ↦ elim (Option-cases (v.offset front (suc remain))) [
          | inl no_tail ↦ rw (e1, cut, no_tail) (λ e. cc)
          | inr (tail, e2) ↦ rw (e1, cut, e2) (λ e. cc)
        ]
      ]

  ends-divide :
      (at : Option ℕ) (remain : ℕ) (buffers : List VolatileSlice)
      → divide v at remain buffers ≢ hang
  unfolding divide
  ends-divide (some at) remain buffers = ends-cut remain (take at buffers) (drop at buffers)
  ends-divide none zero buffers = λ e. cc
  ends-divide none (suc remain) buffers = λ e. cc

  ends-parts :
      (consumed : ℕ) (o : Result (List VolatileSlice × List VolatileSlice))
      → o ≢ hang
      → parts v consumed o ≢ hang
  ends-parts consumed (ok (kept, other)) h = λ e. cc
  ends-parts consumed (err x) h = λ e. cc
  ends-parts consumed panic h = λ e. cc
  ends-parts consumed hang h = absurd (h refl)

  pub ends-split_at : (n : ℕ) (c : DescriptorChainConsumer v) → split_at v n c ≢ hang
  unfolding split_at
  ends-split_at n c = ends-parts c.bytes_consumed _ (ends-divide _ _ c.buffers)
