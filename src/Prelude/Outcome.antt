-- ===== src/Prelude/Outcome.antt =====
-- What a call of the program does: it returns, returns an error, panics, or loops for ever. `Exec`
-- is a call that also changes a state: what was written before an error or a panic stays written.
use mathlib.Core.Option.{Option, none, some}

pub data Outcome {ℓ} (E : Type ℓ) (A : Type ℓ) : Type ℓ where
  ok : A → Outcome E A
  err : E → Outcome E A
  panic : Outcome E A
  hang : Outcome E A

-- The call returned a value or an error.
abbrev pub Answers {ℓ} : {E A : Type ℓ} → Outcome E A → Type 0
Answers (ok a) = Unit
Answers (err e) = Unit
Answers panic = ⊥
Answers hang = ⊥

abbrev pub Exec {ℓ} : Type ℓ → Type ℓ → Type ℓ → Type ℓ
Exec S E A = S → Outcome E A × S

module _ {ℓ} {S E A : Type ℓ} where
  abbrev pub pure : A → Exec S E A
  pure a s = (ok a, s)

  abbrev pub raise : E → Exec S E A
  raise e s = (err e, s)

  abbrev pub abort : Exec S E A
  abort s = (panic, s)

  abbrev pub lift : Outcome E A → Exec S E A
  lift o s = (o, s)

  abbrev pub gets : (S → A) → Exec S E A
  gets f s = (ok (f s), s)

  -- `Option::unwrap` and `Option::expect`.
  abbrev pub unwrap : Option A → Exec S E A
  unwrap none = abort
  unwrap (some a) = pure a

  -- `Option::ok_or`.
  abbrev pub ok_or : E → Option A → Exec S E A
  ok_or e none = raise e
  ok_or e (some a) = pure a

module _ {ℓ} {S E A B : Type ℓ} where
  abbrev pub continue : Outcome E A → (A → Exec S E B) → Exec S E B
  continue (ok a) f s = f a s
  continue (err e) f s = (err e, s)
  continue panic f s = (panic, s)
  continue hang f s = (hang, s)

  infixl 5 ◌>>=◌ ◌>>◌
  abbrev pub ◌>>=◌ : Exec S E A → (A → Exec S E B) → Exec S E B
  ◌>>=◌ m f s = continue (m s).0 f (m s).1

  abbrev pub ◌>>◌ : Exec S E A → Exec S E B → Exec S E B
  m >> n = m >>= λ _. n

module _ {ℓ} {E F A : Type ℓ} where
  -- `Result::map_err`
  abbrev pub map_err : (E → F) → Outcome E A → Outcome F A
  map_err f (ok a) = ok a
  map_err f (err e) = err (f e)
  map_err f panic = panic
  map_err f hang = hang

module _ {ℓ} {S E F A : Type ℓ} where
  abbrev pub or_raise : (E → F) → Exec S E A → Exec S F A
  or_raise f m s = (map_err f (m s).0, (m s).1)
