-- ===== src/Prelude/Exec.antt =====
-- Calls that change a state, sealed: proofs about long handlers go by the rules of `Keeps`, and only
-- those about short ones unfold `◌>>=◌`.
pub mod Keeps
pub mod Ends
pub mod Yields
use mathlib.Core.Path.{◌≡◌, refl, ap}
use mathlib.Core.Option.{Option, none, some}
use ovfs.Prelude.Outcome.{Outcome, ok, err, panic, hang, Exec}

module _ {ℓ} {S E A : Type ℓ} where
  unfoldable pub pure : A → Exec S E A
  pure a s = (ok a, s)

  unfoldable pub raise : E → Exec S E A
  raise e s = (err e, s)

  unfoldable pub lift : Outcome E A → Exec S E A
  lift o s = (o, s)

  -- `Option::ok_or`
  unfoldable pub ok_or : E → Option A → Exec S E A
  ok_or e none s = (err e, s)
  ok_or e (some a) s = (ok a, s)

  -- `Result::unwrap`
  unfoldable pub unwrap : {F : Type ℓ} → Outcome F A → Exec S E A
  unwrap (ok a) s = (ok a, s)
  unwrap (err e) s = (panic, s)
  unwrap panic s = (panic, s)
  unwrap hang s = (hang, s)

module _ {ℓ} {S E A B : Type ℓ} where
  unfoldable pub continue : Outcome E A → (A → Exec S E B) → Exec S E B
  continue (ok a) f s = f a s
  continue (err e) f s = (err e, s)
  continue panic f s = (panic, s)
  continue hang f s = (hang, s)

  infixl 5 ◌>>=◌ ◌>>◌
  -- Opening this opens the other actions too.
  unfoldable pub ◌>>=◌ : Exec S E A → (A → Exec S E B) → Exec S E B
  unfolding continue pure raise lift ok_or unwrap
  ◌>>=◌ m f s = continue (m s).0 f (m s).1

  abbrev pub ◌>>◌ : Exec S E A → Exec S E B → Exec S E B
  m >> n = m >>= λ _. n

  -- A call whose first part is known.
  pub >>=-at_ok :
      (m : Exec S E A) (f : A → Exec S E B) (s : S) {a : A} {s' : S}
      → m s ≡ (ok a, s')
      → (m >>= f) s ≡ f a s'
  unfolding ◌>>=◌
  >>=-at_ok m f s e = ap (λ r. continue r.0 f r.1) e

  pub >>=-at_err :
      (m : Exec S E A) (f : A → Exec S E B) (s : S) {x : E} {s' : S}
      → m s ≡ (err x, s')
      → (m >>= f) s ≡ (err x, s')
  unfolding ◌>>=◌
  >>=-at_err m f s e = ap (λ r. continue r.0 f r.1) e

  pub >>=-at_panic :
      (m : Exec S E A) (f : A → Exec S E B) (s : S) {s' : S}
      → m s ≡ (panic, s')
      → (m >>= f) s ≡ (panic, s')
  unfolding ◌>>=◌
  >>=-at_panic m f s e = ap (λ r. continue r.0 f r.1) e

  continue-inv :
      (r : Outcome E A × S) (f : A → Exec S E B) (o : Outcome E A) (s1 : S) {b : B} {s' : S}
      → r ≡ (o, s1)
      → continue o f s1 ≡ (ok b, s')
      → (a : A) × (s2 : S) × (r ≡ (ok a, s2)) × (f a s2 ≡ (ok b, s'))
  unfolding continue
  continue-inv r f (ok a) s1 e h = (a, s1, e, h)
  continue-inv r f (err x) s1 e h = cc
  continue-inv r f panic s1 e h = cc
  continue-inv r f hang s1 e h = cc

  -- A call that succeeded had both parts succeed.
  pub >>=-inv :
      (m : Exec S E A) (f : A → Exec S E B) (s : S) {b : B} {s' : S}
      → (m >>= f) s ≡ (ok b, s')
      → (a : A) × (s1 : S) × (m s ≡ (ok a, s1)) × (f a s1 ≡ (ok b, s'))
  unfolding ◌>>=◌
  >>=-inv m f s h = continue-inv (m s) f (m s).0 (m s).1 refl h
