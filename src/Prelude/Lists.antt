-- ===== src/Prelude/Lists.antt =====
-- Lists measured and indexed by native numbers, under the library's names.
use Prim.Native.Nat.{ℕ, zero, suc, ◌+◌, ◌-◌, ◌≤◌, min}
use mathlib.Core.Path.{◌≡◌, refl, sym, ap, ◌∙◌}
use mathlib.Core.List.{List, [], ◌∷◌, ◌++◌}
use mathlib.Core.Option.{Option, none, some}
use native.Mathlib.Omega.{arith}

module _ {ℓ} {A : Type ℓ} where
  abbrev pub length : List A → ℕ
  length [] = 0
  length (x ∷ xs) = suc (length xs)

  abbrev pub get_elem? : List A → ℕ → Option A
  get_elem? [] i = none
  get_elem? (x ∷ xs) zero = some x
  get_elem? (x ∷ xs) (suc i) = get_elem? xs i

  abbrev pub take : ℕ → List A → List A
  take zero xs = []
  take (suc n) [] = []
  take (suc n) (x ∷ xs) = x ∷ take n xs

  abbrev pub drop : ℕ → List A → List A
  drop zero xs = xs
  drop (suc n) [] = []
  drop (suc n) (x ∷ xs) = drop n xs

  abbrev pub replicate : ℕ → A → List A
  replicate zero a = []
  replicate (suc n) a = a ∷ replicate n a

  pub length-append : (xs ys : List A) → length (xs ++ ys) ≡ length xs + length ys
  length-append [] ys = omega arith
  length-append (x ∷ xs) ys = omega (arith, length-append xs ys)

  pub take-append-drop : (n : ℕ) (xs : List A) → take n xs ++ drop n xs ≡ xs
  take-append-drop zero xs = refl
  take-append-drop (suc n) [] = refl
  take-append-drop (suc n) (x ∷ xs) = ap (λ l. x ∷ l) (take-append-drop n xs)

  pub length-take : (n : ℕ) (xs : List A) → length (take n xs) ≡ min n (length xs)
  length-take zero xs = omega arith
  length-take (suc n) [] = omega arith
  length-take (suc n) (x ∷ xs) = omega (arith, length-take n xs)

  pub length-drop : (n : ℕ) (xs : List A) → length (drop n xs) ≡ length xs - n
  length-drop zero xs = omega arith
  length-drop (suc n) [] = omega arith
  length-drop (suc n) (x ∷ xs) = omega (arith, length-drop n xs)

  pub length-replicate : (n : ℕ) (a : A) → length (replicate n a) ≡ n
  length-replicate zero a = refl
  length-replicate (suc n) a = ap suc (length-replicate n a)

module _ {ℓ} {A : Type ℓ} where
  pub take_all : (n : ℕ) (xs : List A) → length xs ≤ n → take n xs ≡ xs
  take_all zero [] h = refl
  take_all zero (x ∷ xs) h = absurd (omega arith)
  take_all (suc n) [] h = refl
  take_all (suc n) (x ∷ xs) h = ap (λ l. x ∷ l) (take_all n xs (omega arith))

  pub drop_all : (n : ℕ) (xs : List A) → length xs ≤ n → drop n xs ≡ []
  drop_all zero [] h = refl
  drop_all zero (x ∷ xs) h = absurd (omega arith)
  drop_all (suc n) [] h = refl
  drop_all (suc n) (x ∷ xs) h = drop_all n xs (omega arith)

  pub take-append_le : (n : ℕ) (xs ys : List A) → n ≤ length xs → take n (xs ++ ys) ≡ take n xs
  take-append_le zero xs ys h = refl
  take-append_le (suc n) [] ys h = absurd (omega arith)
  take-append_le (suc n) (x ∷ xs) ys h = ap (λ l. x ∷ l) (take-append_le n xs ys (omega arith))

  pub drop-append_le :
      (n : ℕ) (xs ys : List A) → n ≤ length xs → drop n (xs ++ ys) ≡ drop n xs ++ ys
  drop-append_le zero xs ys h = refl
  drop-append_le (suc n) [] ys h = absurd (omega arith)
  drop-append_le (suc n) (x ∷ xs) ys h = drop-append_le n xs ys (omega arith)

  pub take-append_ge :
      (n : ℕ) (xs ys : List A) → length xs ≤ n → take n (xs ++ ys) ≡ xs ++ take (n - length xs) ys
  take-append_ge n [] ys h = ap (λ k. take k ys) (omega arith)
  take-append_ge zero (x ∷ xs) ys h = absurd (omega arith)
  take-append_ge (suc n) (x ∷ xs) ys h =
      ap (λ l. x ∷ l)
        (rw (take-append_ge n xs ys (omega arith)) (ap (λ k. xs ++ take k ys) (omega arith)))

  pub drop-append_ge :
      (n : ℕ) (xs ys : List A) → length xs ≤ n → drop n (xs ++ ys) ≡ drop (n - length xs) ys
  drop-append_ge n [] ys h = ap (λ k. drop k ys) (omega arith)
  drop-append_ge zero (x ∷ xs) ys h = absurd (omega arith)
  drop-append_ge (suc n) (x ∷ xs) ys h =
      rw (drop-append_ge n xs ys (omega arith)) (ap (λ k. drop k ys) (omega arith))

  pub take_at : (j k : ℕ) (xs : List A) → j ≡ k → take j xs ≡ take k xs
  take_at j k xs h = ap (λ n. take n xs) h

  pub drop_at : (j k : ℕ) (xs : List A) → j ≡ k → drop j xs ≡ drop k xs
  drop_at j k xs h = ap (λ n. drop n xs) h

  pub drop-drop : (m n : ℕ) (xs : List A) → drop m (drop n xs) ≡ drop (n + m) xs
  drop-drop m zero xs = drop_at m (0 + m) xs (omega arith)
  drop-drop m (suc n) [] = rw (drop_all m [] (omega arith), drop_all (suc n + m) [] (omega arith))
  drop-drop m (suc n) (x ∷ xs) =
      drop-drop m n xs ∙ drop_at (suc (n + m)) (suc n + m) (x ∷ xs) (omega arith)

  pub take-take : (m n : ℕ) (xs : List A) → take m (take n xs) ≡ take (min m n) xs
  take-take zero n xs = take_at 0 (min 0 n) xs (omega arith)
  take-take (suc m) zero xs = take_at 0 (min (suc m) 0) xs (omega arith)
  take-take (suc m) (suc n) [] = rw (take_all (min (suc m) (suc n)) [] (omega arith))
  take-take (suc m) (suc n) (x ∷ xs) =
      rw (take-take m n xs) (take_at (suc (min m n)) (min (suc m) (suc n)) (x ∷ xs) (omega arith))

  pub take-drop : (m n : ℕ) (xs : List A) → take m (drop n xs) ≡ drop n (take (n + m) xs)
  take-drop m zero xs = take_at m (0 + m) xs (omega arith)
  take-drop m (suc n) [] = rw (take_all m [] (omega arith), take_all (suc n + m) [] (omega arith))
  take-drop m (suc n) (x ∷ xs) =
      take-drop m n xs
      ∙ ap (drop (suc n)) (take_at (suc (n + m)) (suc n + m) (x ∷ xs) (omega arith))

  pub take-append :
      (n : ℕ) (xs ys : List A) → take n (xs ++ ys) ≡ take n xs ++ take (n - length xs) ys
  take-append n [] ys = rw (take_all n [] (omega arith)) (take_at n (n - 0) ys (omega arith))
  take-append zero (x ∷ xs) ys = take_at 0 (0 - suc (length xs)) ys (omega arith)
  take-append (suc n) (x ∷ xs) ys = rw (take-append n xs ys) (
      ap (λ l. x ∷ (take n xs ++ l))
        (take_at (n - length xs) (suc n - suc (length xs)) ys (omega arith)))

  pub drop-append :
      (n : ℕ) (xs ys : List A) → drop n (xs ++ ys) ≡ drop n xs ++ drop (n - length xs) ys
  drop-append n [] ys = rw (drop_all n [] (omega arith)) (drop_at n (n - 0) ys (omega arith))
  drop-append zero (x ∷ xs) ys =
      ap (λ l. x ∷ xs ++ l) (drop_at 0 (0 - suc (length xs)) ys (omega arith))
  drop-append (suc n) (x ∷ xs) ys = rw (drop-append n xs ys) (
      ap (λ l. drop n xs ++ l) (drop_at (n - length xs) (suc n - suc (length xs)) ys (omega arith)))

  pub take-min-length : (k : ℕ) (xs : List A) → take (min (length xs) k) xs ≡ take k xs
  take-min-length k [] = take_all (min 0 k) [] (omega arith) ∙ sym (take_all k [] (omega arith))
  take-min-length zero (x ∷ xs) = take_at (min (suc (length xs)) 0) 0 (x ∷ xs) (omega arith)
  take-min-length (suc k) (x ∷ xs) =
      take_at (min (suc (length xs)) (suc k)) (suc (min (length xs) k)) (x ∷ xs) (omega arith)
      ∙ ap (λ l. x ∷ l) (take-min-length k xs)

  pub drop-min-length : (k : ℕ) (xs : List A) → drop (min (length xs) k) xs ≡ drop k xs
  drop-min-length k [] = drop_all (min 0 k) [] (omega arith) ∙ sym (drop_all k [] (omega arith))
  drop-min-length zero (x ∷ xs) = drop_at (min (suc (length xs)) 0) 0 (x ∷ xs) (omega arith)
  drop-min-length (suc k) (x ∷ xs) =
      drop_at (min (suc (length xs)) (suc k)) (suc (min (length xs) k)) (x ∷ xs) (omega arith)
      ∙ drop-min-length k xs
