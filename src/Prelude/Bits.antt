-- ===== src/Prelude/Bits.antt =====
-- Masks of consecutive ones at variables: `n & !7` rounds a `usize` down to a multiple of 8.
use Prim.Native.Nat.{ℕ, zero, suc, ◌-◌, ◌*◌, ◌/◌, ◌^◌, ◌≤◌, ◌<◌, min}
use Prim.Native.Nat.{bit_and, digits, bit_and-bitwise}
use mathlib.Core.Path.{◌≡◌, refl, ◌∙◌}
use native.Mathlib.Nat.{pow-suc}
use native.Mathlib.Omega.{arith}

-- The digits of `a & b` from `n` digits on.
abbrev and_digits : ℕ → ℕ → ℕ → ℕ
and_digits n a b = digits (λ _. zero) min n a b

-- Below `bound`, `& mask` is `f`.
abbrev Masks : ℕ → ℕ → (ℕ → ℕ) → Type 0
Masks bound mask f = (n a : ℕ) → a ≤ n → a < bound → and_digits n a mask ≡ f a

Masks-ones : (k : ℕ) → Masks (2 ^ k) (2 ^ k - 1) (λ a. a)
Masks-ones k zero zero h lt = refl
Masks-ones k zero (suc a) h lt = absurd (omega arith)
Masks-ones k (suc n) zero h lt = refl
Masks-ones zero (suc n) (suc a) h lt = absurd (omega arith)
Masks-ones (suc k) (suc n) (suc a) h lt =
    let half : (2 ^ suc k - 1) / 2 ≡ 2 ^ k - 1 = omega (arith, pow-suc 2 k) in
    rw half (
      omega
        (arith, pow-suc 2 k, Masks-ones k n (suc a / 2) (omega arith) (omega (arith, pow-suc 2 k))))

-- A zero digit below the mask.
Masks-zero :
    (bound mask : ℕ) (f : ℕ → ℕ)
    → f 0 ≡ 0
    → Masks bound mask f
    → Masks (bound * 2) (mask * 2) (λ a. f (a / 2) * 2)
Masks-zero bound mask f f0 m zero zero h lt = omega (arith, f0)
Masks-zero bound mask f f0 m zero (suc a) h lt = absurd (omega arith)
Masks-zero bound mask f f0 m (suc n) zero h lt = omega (arith, f0)
Masks-zero bound mask f f0 m (suc n) (suc a) h lt =
    let half : mask * 2 / 2 ≡ mask = omega arith in
    rw half (omega (arith, m n (suc a / 2) (omega arith) (omega arith)))

-- `n & !7` on a 64-bit word.
pub bit_and-align : (a : ℕ) → a < 2 ^ 64 → bit_and a (2 ^ 64 - 8) ≡ a / 8 * 8
bit_and-align a h = bit_and-bitwise a (2 ^ 64 - 8) ∙ masked a a (omega arith) h ∙ omega arith
  where
    masked : Masks (2 ^ 64) (2 ^ 64 - 8) (λ a. a / 2 / 2 / 2 * 2 * 2 * 2)
    masked =
        Masks-zero (2 ^ 63) (2 ^ 63 - 4) (λ a. a / 2 / 2 * 2 * 2) refl
          (Masks-zero (2 ^ 62) (2 ^ 62 - 2) (λ a. a / 2 * 2) refl
            (Masks-zero (2 ^ 61) (2 ^ 61 - 1) (λ a. a) refl (Masks-ones 61)))
