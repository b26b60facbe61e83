-- ===== src/Prelude/Exec/Ends.antt =====
-- Calls that end: they return, fail or panic, but do not loop for ever.
use mathlib.Core.Path.{◌≡◌, refl}
use mathlib.Core.Logic.{◌≢◌}
use mathlib.Core.Bool.{Bool, true, false}
use mathlib.Core.Option.{Option, none, some}
use ovfs.Prelude.Tests.{if◌then◌else◌}
use ovfs.Prelude.Outcome as Plain
use ovfs.Prelude.Outcome.{Outcome, ok, err, panic, hang, Exec}
use ovfs.Prelude.Exec.{pure, raise, lift, ok_or, unwrap, continue, ◌>>=◌}

pub record Ends {S E A : Type 0} (call : Exec S E A) : Type 0 where
  pub at : (before : S) → (call before).0 ≢ hang

module _ {S E A : Type 0} where
  pub Ends-pure : (a : A) → Ends (pure {S = S} {E = E} a)
  unfolding pure
  Ends-pure a = record { at = λ s e. cc }

  pub Ends-raise : (e : E) → Ends (raise {S = S} {A = A} e)
  unfolding raise
  Ends-raise x = record { at = λ s e. cc }

  pub Ends-lift : (o : Outcome E A) → o ≢ hang → Ends (lift {S = S} o)
  unfolding lift
  Ends-lift o h = record { at = λ s. h }

  pub Ends-ok_or : (e : E) (o : Option A) → Ends (ok_or {S = S} e o)
  unfolding ok_or
  Ends-ok_or x none = record { at = λ s e. cc }
  Ends-ok_or x (some a) = record { at = λ s e. cc }

  pub Ends-unwrap : {F : Type 0} (o : Outcome F A) → o ≢ hang → Ends (unwrap {S = S} {E = E} o)
  unfolding unwrap
  Ends-unwrap (ok a) h = record { at = λ s e. cc }
  Ends-unwrap (err x) h = record { at = λ s e. cc }
  Ends-unwrap panic h = record { at = λ s e. cc }
  Ends-unwrap hang h = absurd (h refl)

  pub Ends-if :
      (test : Bool) (then_call else_call : Exec S E A)
      → Ends then_call
      → Ends else_call
      → Ends (if test then then_call else else_call)
  Ends-if false then_call else_call ends_then ends_else = ends_else
  Ends-if true then_call else_call ends_then ends_else = ends_then

module _ {S E A B : Type 0} where
  Ends-continue :
      (o : Outcome E A) (next : A → Exec S E B) (s : S)
      → o ≢ hang
      → ((x : A) → Ends (next x))
      → (continue o next s).0 ≢ hang
  unfolding continue
  Ends-continue (ok x) next s h ends = (ends x).at s
  Ends-continue (err x) next s h ends = λ e. cc
  Ends-continue panic next s h ends = λ e. cc
  Ends-continue hang next s h ends = absurd (h refl)

  pub Ends-bind :
      (first : Exec S E A) (next : A → Exec S E B)
      → Ends first
      → ((x : A) → Ends (next x))
      → Ends (first >>= next)
  unfolding ◌>>=◌
  Ends-bind first next ends_first ends_next = record {
    at = λ s. Ends-continue (first s).0 next (first s).1 (ends_first.at s) ends_next;
  }

  -- The same for the sequence of `Outcome`.
  plain-Ends-continue :
      (o : Outcome E A) (next : A → Exec S E B) (s : S)
      → o ≢ hang
      → ((x : A) → Ends (next x))
      → (Plain.continue o next s).0 ≢ hang
  plain-Ends-continue (ok x) next s h ends = (ends x).at s
  plain-Ends-continue (err x) next s h ends = λ e. cc
  plain-Ends-continue panic next s h ends = λ e. cc
  plain-Ends-continue hang next s h ends = absurd (h refl)

  pub plain-Ends-bind :
      (first : Exec S E A) (next : A → Exec S E B)
      → Ends first
      → ((x : A) → Ends (next x))
      → Ends (Plain.◌>>=◌ first next)
  plain-Ends-bind first next ends_first ends_next = record {
    at = λ s. plain-Ends-continue (first s).0 next (first s).1 (ends_first.at s) ends_next;
  }

module _ {S E A : Type 0} where
  pub plain-Ends-ok_or : (e : E) (o : Option A) → Ends (Plain.ok_or {S = S} e o)
  plain-Ends-ok_or x none = record { at = λ s e. cc }
  plain-Ends-ok_or x (some a) = record { at = λ s e. cc }

module _ {E F A : Type 0} where
  pub ends-map_err : (f : E → F) (o : Outcome E A) → o ≢ hang → Plain.map_err f o ≢ hang
  ends-map_err f (ok a) h = λ e. cc
  ends-map_err f (err x) h = λ e. cc
  ends-map_err f panic h = λ e. cc
  ends-map_err f hang h = absurd (h refl)

pub ruleset ends_rules =
    (Ends-bind, Ends-if, Ends-lift, Ends-ok_or, Ends-pure, Ends-raise, Ends-unwrap)

-- A sequence ends from a state if its first part does, and the rest from the state that this leaves.
module _ {S E A B : Type 0} where
  ends-continue_at :
      (r : Outcome E A × S) (next : A → Exec S E B) (o : Outcome E A) (s : S)
      → r ≡ (o, s)
      → o ≢ hang
      → ((x : A) → r ≡ (ok x, s) → (next x s).0 ≢ hang)
      → (continue o next s).0 ≢ hang
  unfolding continue
  ends-continue_at r next (ok x) s e h rest = rest x e
  ends-continue_at r next (err x) s e h rest = λ p. cc
  ends-continue_at r next panic s e h rest = λ p. cc
  ends-continue_at r next hang s e h rest = absurd (h refl)

  pub ends-bind_at :
      (first : Exec S E A) (next : A → Exec S E B) (s : S)
      → (first s).0 ≢ hang
      → ((x : A) → first s ≡ (ok x, (first s).1) → (next x (first s).1).0 ≢ hang)
      → ((first >>= next) s).0 ≢ hang
  unfolding ◌>>=◌
  ends-bind_at first next s h rest =
      ends-continue_at (first s) next (first s).0 (first s).1 refl h rest
