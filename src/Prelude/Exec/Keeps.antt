-- ===== src/Prelude/Exec/Keeps.antt =====
-- Invariants of calls, one rule for each way to build a call.
use mathlib.Core.Bool.{Bool, true, false}
use mathlib.Core.Option.{Option, none, some}
use ovfs.Prelude.Tests.{if◌then◌else◌}
use ovfs.Prelude.Outcome.{Outcome, ok, err, panic, hang, Exec}
use ovfs.Prelude.Exec.{pure, raise, lift, ok_or, unwrap, continue, ◌>>=◌}

-- `call` keeps `Inv`, however it ends.
pub record Keeps {S E A : Type 0} (Inv : S → Type 0) (call : Exec S E A) : Type 0 where
  pub at : (before : S) → Inv before → Inv (call before).1

module _ {S E A : Type 0} {P : S → Type 0} where
  pub Keeps-pure : (a : A) → Keeps P (pure {S = S} {E = E} a)
  unfolding pure
  Keeps-pure a = record { at = λ s p. p }

  pub Keeps-raise : (e : E) → Keeps P (raise {S = S} {A = A} e)
  unfolding raise
  Keeps-raise e = record { at = λ s p. p }

  pub Keeps-lift : (o : Outcome E A) → Keeps P (lift {S = S} o)
  unfolding lift
  Keeps-lift o = record { at = λ s p. p }

  pub Keeps-ok_or : (e : E) (o : Option A) → Keeps P (ok_or {S = S} e o)
  unfolding ok_or
  Keeps-ok_or e none = record { at = λ s p. p }
  Keeps-ok_or e (some a) = record { at = λ s p. p }

  pub Keeps-unwrap : {F : Type 0} (o : Outcome F A) → Keeps P (unwrap {S = S} {E = E} o)
  unfolding unwrap
  Keeps-unwrap (ok a) = record { at = λ s p. p }
  Keeps-unwrap (err e) = record { at = λ s p. p }
  Keeps-unwrap panic = record { at = λ s p. p }
  Keeps-unwrap hang = record { at = λ s p. p }

  pub Keeps-if :
      (test : Bool) (then_call else_call : Exec S E A)
      → Keeps P then_call
      → Keeps P else_call
      → Keeps P (if test then then_call else else_call)
  Keeps-if false then_call else_call kept_then kept_else = kept_else
  Keeps-if true then_call else_call kept_then kept_else = kept_then

module _ {S E A B : Type 0} {Inv : S → Type 0} where
  Keeps-continue :
      (o : Outcome E A) (next : A → Exec S E B)
      → ((x : A) → Keeps Inv (next x))
      → Keeps Inv (continue o next)
  unfolding continue
  Keeps-continue panic next kept = record { at = λ s inv. inv }
  Keeps-continue hang next kept = record { at = λ s inv. inv }
  Keeps-continue (err x) next kept = record { at = λ s inv. inv }
  Keeps-continue (ok x) next kept = kept x

  pub Keeps-bind :
      (first : Exec S E A) (next : A → Exec S E B)
      → Keeps Inv first
      → ((x : A) → Keeps Inv (next x))
      → Keeps Inv (first >>= next)
  unfolding ◌>>=◌
  Keeps-bind first next kept_first kept_next = record {
    at = λ s inv.
        let (o, s1) = first s in (Keeps-continue o next kept_next).at s1 (kept_first.at s inv);
  }

pub ruleset keeps_rules =
    (Keeps-bind, Keeps-if, Keeps-lift, Keeps-ok_or, Keeps-pure, Keeps-raise, Keeps-unwrap)
