-- ===== src/Prelude/Dict.antt =====
-- `std::collections::HashMap` with `String` keys, as an association list; the program never iterates
-- over one. A `String` is the bytes of its UTF-8 form.
use Prim.Native.Nat.{ℕ}
use mathlib.Core.Path.{◌≡◌}
use mathlib.Core.Option.{Option, none, some}
use mathlib.Core.List.{List, [], ◌∷◌}
use native.Mathlib.Omega.{arith}
use ovfs.Prelude.Tests.{bytes_eq, bytes_eq_refl, bytes_eq_sound, if◌then◌else◌}

abbrev pub Dict {ℓ} : Type ℓ → Type ℓ
Dict V = List (List ℕ × V)

module _ {ℓ} {V : Type ℓ} where
  unfoldable pub lookup : List ℕ → Dict V → Option V
  lookup key [] = none
  lookup key ((j, v) ∷ rest) = if bytes_eq j key then some v else lookup key rest

  unfoldable pub remove : List ℕ → Dict V → Dict V
  remove k [] = []
  remove k ((j, v) ∷ d) = let rest = remove k d in if bytes_eq j k then rest else (j, v) ∷ rest

  unfoldable pub insert : List ℕ → V → Dict V → Dict V
  insert k v d = (k, v) ∷ remove k d

  pub lookup-remove :
      (k j : List ℕ) (d : Dict V)
      → lookup j (remove k d) ≡ (if bytes_eq k j then none else lookup j d)
  unfolding lookup remove
  lookup-remove k j [] = ground arith
  lookup-remove k j ((i, v) ∷ d) = ground (
    arith,
    lookup-remove k j d,
    bytes_eq_sound i k,
    bytes_eq_sound i j,
    bytes_eq_sound k j,
    bytes_eq_refl i,
  )

  pub lookup-insert :
      (k j : List ℕ) (v : V) (d : Dict V)
      → lookup j (insert k v d) ≡ (if bytes_eq k j then some v else lookup j d)
  unfolding insert lookup
  lookup-insert k j v d = ground (arith, lookup-remove k j d)

  pub lookup-insert_same :
      (key : List ℕ) (new : V) (d : Dict V) → lookup key (insert key new d) ≡ some new
  lookup-insert_same key new d = ground (arith, lookup-insert key key new d, bytes_eq_refl key)

  pub lookup-remove_same : (key : List ℕ) (d : Dict V) → lookup key (remove key d) ≡ none
  lookup-remove_same key d = ground (arith, lookup-remove key key d, bytes_eq_refl key)
