-- ===== src/Prelude/Result.antt =====
-- Chains of fallible calls that change no state: `?` on a `Result`.
use mathlib.Core.Option.{Option, none, some}
use mathlib.Core.Path.{◌≡◌, refl}
use ovfs.Prelude.Outcome.{Outcome, ok, err, panic, hang, map_err}

module _ {ℓ} {E A B : Type ℓ} where
  infixl 5 ◌>>=◌
  abbrev pub ◌>>=◌ : Outcome E A → (A → Outcome E B) → Outcome E B
  panic >>= next = panic
  hang >>= next = hang
  err x >>= next = err x
  ok x >>= next = next x

  -- A chain that succeeded had its first part succeed, and the rest on that value.
  pub >>=-inv :
      (o : Outcome E A) (next : A → Outcome E B) {y : B}
      → (o >>= next) ≡ ok y
      → (x : A) × (o ≡ ok x) × (next x ≡ ok y)
  >>=-inv panic next done = cc
  >>=-inv hang next done = cc
  >>=-inv (err x) next done = cc
  >>=-inv (ok x) next done = (x, refl, done)

module _ {ℓ} {E A : Type ℓ} where
  abbrev pub ok_or : E → Option A → Outcome E A
  ok_or e none = err e
  ok_or e (some a) = ok a

  abbrev pub unwrap : Option A → Outcome E A
  unwrap none = panic
  unwrap (some a) = ok a

  pub ok_or-eq-ok : (e : E) (o : Option A) {a : A} → ok_or e o ≡ ok a → o ≡ some a
  ok_or-eq-ok e none h = cc
  ok_or-eq-ok e (some a) h = cc

pub map_err-ok :
    {E F A : Type 0} (f : E → F) (o : Outcome E A) {a : A} → map_err f o ≡ ok a → o ≡ ok a
map_err-ok f (ok x) e = cc
map_err-ok f (err x) e = cc
map_err-ok f panic e = cc
map_err-ok f hang e = cc
