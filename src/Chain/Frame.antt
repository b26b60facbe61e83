-- ===== src/Chain/Frame.antt =====
-- The addresses to which the closure of `consume` of src/util.rs writes.
use ovfs.Prelude.{
  ℕ, zero, suc, ◌+◌, ◌-◌, ◌≡◌, ◌≢◌, refl, sym, ◌∙◌, arith, List, [], ◌∷◌, ◌++◌, take, drop, false,
  Bool-cases, inl, inr, leb, ltb, ◌==◌, Option-cases, if◌then◌else◌,
}
use ovfs.Prelude.Outcome.{Outcome, ok, err, panic, hang, Exec}
use ovfs.Prelude.Outcome as Plain
use ovfs.Prelude.Exec.Yields.{Good, Yields, plain-Yields-bind}
use ovfs.Error.{Error}
use ovfs.Memory.{Memory, store, poke}
use ovfs.Volatile.{Volatile, IsVolatile, cells, addresses}
use ovfs.Chain.{
  DescriptorChainConsumer, checked_add, advance, consume_from, consume, gather, overflow,
}
use ovfs.Chain.Flat.{left, advance_lem}
use mathlib.Core.Path.{subst}

-- An address that is not among some addresses.
abbrev pub Apart : ℕ → List ℕ → Type 0
Apart a [] = Unit
Apart a (x ∷ xs) = (a ≢ x) × Apart a xs

pub Apart-take : (a n : ℕ) (xs : List ℕ) → Apart a xs → Apart a (take n xs)
Apart-take a zero xs p = tt
Apart-take a (suc n) [] p = tt
Apart-take a (suc n) (x ∷ xs) (ne, p) = (ne, Apart-take a n xs p)

pub Apart-drop : (a n : ℕ) (xs : List ℕ) → Apart a xs → Apart a (drop n xs)
Apart-drop a zero xs p = p
Apart-drop a (suc n) [] p = tt
Apart-drop a (suc n) (x ∷ xs) (ne, p) = Apart-drop a n xs p

pub Apart-append : (a : ℕ) (xs ys : List ℕ) → Apart a xs → Apart a ys → Apart a (xs ++ ys)
Apart-append a [] ys p q = q
Apart-append a (x ∷ xs) ys (ne, p) q = (ne, Apart-append a xs ys p q)

pub Apart-front : (a : ℕ) (xs ys : List ℕ) → Apart a (xs ++ ys) → Apart a xs
Apart-front a [] ys p = tt
Apart-front a (x ∷ xs) ys (ne, p) = (ne, Apart-front a xs ys p)

pub Apart-back : (a : ℕ) (xs ys : List ℕ) → Apart a (xs ++ ys) → Apart a ys
Apart-back a [] ys p = p
Apart-back a (x ∷ xs) ys (ne, p) = Apart-back a xs ys p

ne_== : (a b : ℕ) → a ≢ b → (b == a) ≡ false
ne_== a b h = ground arith

pub store-Apart :
    (mem : Memory) (a : ℕ) (addrs bytes : List ℕ) → Apart a addrs → store mem addrs bytes a ≡ mem a
unfolding store
store-Apart mem a [] bytes p = refl
store-Apart mem a (x ∷ addrs) [] p = refl
store-Apart mem a (x ∷ addrs) (y ∷ bytes) (ne, p) =
    store-Apart (poke mem x y) a addrs bytes p ∙ rw (ne_== x a (λ e. ne (sym e))) refl

module _ (v : Volatile) (L : IsVolatile v) (a b : ℕ) where
  -- The byte at `a` is still `b`.
  abbrev pub Still : Memory → Type 0
  Still mem = mem a ≡ b

  Apart-gather :
      (count total : ℕ) (slices : List v.VolatileSlice)
      → Apart a (cells v slices)
      → Apart a (cells v (gather v count total slices))
  unfolding gather cells
  Apart-gather count total [] p = tt
  Apart-gather count total (s ∷ slices) p = elim (Bool-cases (leb count total)) [
    | inl e ↦ rw (e, gather) tt
    | inr e ↦
        rw (e, gather)
          (Apart-append a (addresses v s) _ (Apart-front a (addresses v s) (cells v slices) p) (
            Apart-gather count
              (total + (if ltb (count - total) (v.len s) then count - total else v.len s)) slices
              (Apart-back a (addresses v s) (cells v slices) p)))
  ]

  abbrev pub OffChain : ℕ × DescriptorChainConsumer v → Type 0
  OffChain p = Apart a (left v p.1)

  Good-advance :
      (n : ℕ) (slices : List v.VolatileSlice)
      → Apart a (cells v slices)
      → Good (λ rest. Apart a (cells v rest)) (advance v n slices)
  Good-advance n slices p =
      let (rest, e, flat) = advance_lem v L n slices in
      rw e (subst (Apart a) (sym flat) (Apart-drop a n (cells v slices) p))

  module _ (f : List v.VolatileSlice → Exec Memory Error ℕ)
      (frames : (slices : List v.VolatileSlice)
        → Apart a (cells v slices)
        → Yields Still (λ n. Unit) (f slices)) where
    Yields-consume_from :
        (count : ℕ) (c : DescriptorChainConsumer v) (slices : List v.VolatileSlice)
        → Apart a (left v c)
        → Apart a (cells v slices)
        → Yields Still OffChain (consume_from v count f c slices)
    Yields-consume_from count c [] p q = record { at = λ mem still. (still, p) }
    Yields-consume_from count c (s ∷ slices) p q =
        plain-Yields-bind (f (s ∷ slices)) _ (frames (s ∷ slices) q) λ n u.
          plain-Yields-bind {Q = λ t. Unit} (Plain.ok_or overflow (checked_add c.bytes_consumed n))
            _
            (record {
              at = λ mem still. elim (Option-cases (checked_add c.bytes_consumed n)) [
                | inl e ↦ rw e (still, tt)
                | inr (t, e) ↦ rw e (still, tt)
              ];
            })
            λ total u'.
              plain-Yields-bind (Plain.lift (advance v n c.buffers)) _
                (record { at = λ mem still. (still, Good-advance n c.buffers p) })
                λ buffers q'. record { at = λ mem still. (still, q') }

    pub Yields-consume :
        (count : ℕ) (c : DescriptorChainConsumer v)
        → Apart a (left v c)
        → Yields Still OffChain (consume v count f c)
    unfolding consume
    Yields-consume count c p =
        Yields-consume_from count c (gather v count 0 c.buffers) p
          (Apart-gather count 0 c.buffers p)
