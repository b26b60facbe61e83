-- ===== src/Prelude/Exec/Yields.antt =====
-- Calls that keep an invariant, with a property of the value that they return.
use mathlib.Core.Bool.{Bool, true, false}
use ovfs.Prelude.Tests.{if◌then◌else◌}
use ovfs.Prelude.Outcome as Plain
use ovfs.Prelude.Outcome.{Outcome, ok, err, panic, hang, Exec}
use ovfs.Prelude.Exec.{pure, unwrap, continue, ◌>>=◌}
use ovfs.Prelude.Exec.Keeps.{Keeps}

abbrev pub Good : {E A : Type 0} → (A → Type 0) → Outcome E A → Type 0
Good Q (ok a) = Q a
Good Q (err e) = Unit
Good Q panic = Unit
Good Q hang = Unit

pub record Yields {S E A : Type 0} (Inv : S → Type 0) (Q : A → Type 0) (call : Exec S E A)
    : Type 0 where
  pub at : (before : S) → Inv before → Inv (call before).1 × Good Q (call before).0

pub Good-map_err :
    {E F A : Type 0} (Q : A → Type 0) (f : E → F) (o : Outcome E A)
    → Good Q o
    → Good Q (Plain.map_err f o)
Good-map_err Q f (ok a) q = q
Good-map_err Q f (err e) q = tt
Good-map_err Q f panic q = tt
Good-map_err Q f hang q = tt

module _ {S E A : Type 0} {Inv : S → Type 0} {Q : A → Type 0} where
  pub Yields-pure : (a : A) → Q a → Yields Inv Q (pure {S = S} {E = E} a)
  unfolding pure
  Yields-pure a q = record { at = λ s inv. (inv, q) }

  pub Yields-unwrap :
      {F : Type 0} (o : Outcome F A) → Good Q o → Yields Inv Q (unwrap {S = S} {E = E} o)
  unfolding unwrap
  Yields-unwrap (ok a) q = record { at = λ s inv. (inv, q) }
  Yields-unwrap (err e) q = record { at = λ s inv. (inv, tt) }
  Yields-unwrap panic q = record { at = λ s inv. (inv, tt) }
  Yields-unwrap hang q = record { at = λ s inv. (inv, tt) }

  -- What a call keeps, without what it returns.
  pub Yields-Keeps : (call : Exec S E A) → Yields Inv Q call → Keeps Inv call
  Yields-Keeps call y = record { at = λ s inv. (y.at s inv).0 }

  pub Yields-if :
      (test : Bool) (then_call else_call : Exec S E A)
      → Yields Inv Q then_call
      → Yields Inv Q else_call
      → Yields Inv Q (if test then then_call else else_call)
  Yields-if false then_call else_call a b = b
  Yields-if true then_call else_call a b = a

module _ {S E A B : Type 0} {Inv : S → Type 0} {Q : A → Type 0} where
  module _ {R : B → Type 0} where
    Yields-continue :
        (o : Outcome E A) (next : A → Exec S E B) (s : S)
        → Inv s
        → Good Q o
        → ((a : A) → Q a → Yields Inv R (next a))
        → Inv (continue o next s).1 × Good R (continue o next s).0
    unfolding continue
    Yields-continue (ok a) next s inv q k = (k a q).at s inv
    Yields-continue (err e) next s inv q k = (inv, tt)
    Yields-continue panic next s inv q k = (inv, tt)
    Yields-continue hang next s inv q k = (inv, tt)

    pub Yields-bind :
        (first : Exec S E A) (next : A → Exec S E B)
        → Yields Inv Q first
        → ((a : A) → Q a → Yields Inv R (next a))
        → Yields Inv R (first >>= next)
    unfolding ◌>>=◌
    Yields-bind first next y k = record {
      at = λ s inv.
          let (kept, q) = y.at s inv in Yields-continue (first s).0 next (first s).1 kept q k;
    }

    -- The same for the sequence of `Outcome`.
    plain-Yields-continue :
        (o : Outcome E A) (next : A → Exec S E B) (s : S)
        → Inv s
        → Good Q o
        → ((a : A) → Q a → Yields Inv R (next a))
        → Inv (Plain.continue o next s).1 × Good R (Plain.continue o next s).0
    plain-Yields-continue (ok a) next s inv q k = (k a q).at s inv
    plain-Yields-continue (err e) next s inv q k = (inv, tt)
    plain-Yields-continue panic next s inv q k = (inv, tt)
    plain-Yields-continue hang next s inv q k = (inv, tt)

    pub plain-Yields-bind :
        (first : Exec S E A) (next : A → Exec S E B)
        → Yields Inv Q first
        → ((a : A) → Q a → Yields Inv R (next a))
        → Yields Inv R (Plain.◌>>=◌ first next)
    plain-Yields-bind first next y k = record {
      at = λ s inv.
          let (kept, q) = y.at s inv in plain-Yields-continue (first s).0 next (first s).1 kept q k;
    }

  Keeps-continue_with :
      (o : Outcome E A) (next : A → Exec S E B) (s : S)
      → Inv s
      → Good Q o
      → ((a : A) → Q a → Keeps Inv (next a))
      → Inv (continue o next s).1
  unfolding continue
  Keeps-continue_with (ok a) next s inv q k = (k a q).at s inv
  Keeps-continue_with (err e) next s inv q k = inv
  Keeps-continue_with panic next s inv q k = inv
  Keeps-continue_with hang next s inv q k = inv

  pub Keeps-bind_with :
      (first : Exec S E A) (next : A → Exec S E B)
      → Yields Inv Q first
      → ((a : A) → Q a → Keeps Inv (next a))
      → Keeps Inv (first >>= next)
  unfolding ◌>>=◌
  Keeps-bind_with first next y k = record {
    at = λ s inv.
        let (kept, q) = y.at s inv in Keeps-continue_with (first s).0 next (first s).1 kept q k;
  }
