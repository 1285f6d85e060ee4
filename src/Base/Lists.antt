-- ===== src/Base/Lists.antt =====
-- Lists measured and indexed by native numbers, under the library's names, and the vector
-- operations of the source: overwriting a range, growing by zeros, a slice.
use Prim.Native.Nat.{ℕ, zero, suc, ◌+◌, ◌-◌, ◌≤◌, min}
use mathlib.Core.Path.{◌≡◌, refl, ap, sym, ◌∙◌}
use mathlib.Core.List.{List, [], ◌∷◌, ◌++◌}
use mathlib.Core.Option.{Option, none, some}
use native.Mathlib.Omega.{arith}

module _ {ℓ} {A : Type ℓ} where
  abbrev pub length : List A → ℕ
  length [] = 0
  length (x ∷ xs) = suc (length xs)

  abbrev pub get_elem? : List A → ℕ → Option A
  get_elem? [] i = none
  get_elem? (x ∷ xs) zero = some x
  get_elem? (x ∷ xs) (suc i) = get_elem? xs i

  abbrev pub take : ℕ → List A → List A
  take zero xs = []
  take (suc n) [] = []
  take (suc n) (x ∷ xs) = x ∷ take n xs

  abbrev pub drop : ℕ → List A → List A
  drop zero xs = xs
  drop (suc n) [] = []
  drop (suc n) (x ∷ xs) = drop n xs

  -- Shut, so that no tactic writes out a long vector.
  unfoldable pub replicate : ℕ → A → List A
  replicate zero a = []
  replicate (suc n) a = a ∷ replicate n a

  -- `std::copy` into the vector from index `i` on; what would pass its end is not written.
  abbrev pub overwrite : List A → ℕ → List A → List A
  overwrite [] i ys = []
  overwrite (x ∷ xs) (suc i) ys = x ∷ overwrite xs i ys
  overwrite (x ∷ xs) zero [] = x ∷ xs
  overwrite (x ∷ xs) zero (y ∷ ys) = y ∷ overwrite xs zero ys

  -- The `n` elements from index `i` on.
  abbrev pub slice : ℕ → ℕ → List A → List A
  slice i n xs = take n (drop i xs)

module _ {ℓ} {A : Type ℓ} where
  pub length-append : (xs ys : List A) → length (xs ++ ys) ≡ length xs + length ys
  length-append [] ys = omega arith
  length-append (x ∷ xs) ys = omega (arith, length-append xs ys)

  pub length-take : (n : ℕ) (xs : List A) → length (take n xs) ≡ min n (length xs)
  length-take zero xs = omega arith
  length-take (suc n) [] = omega arith
  length-take (suc n) (x ∷ xs) = omega (arith, length-take n xs)

  pub length-drop : (n : ℕ) (xs : List A) → length (drop n xs) ≡ length xs - n
  length-drop zero xs = omega arith
  length-drop (suc n) [] = omega arith
  length-drop (suc n) (x ∷ xs) = omega (arith, length-drop n xs)

  pub length-replicate : (n : ℕ) (a : A) → length (replicate n a) ≡ n
  unfolding replicate
  length-replicate zero a = refl
  length-replicate (suc n) a = ap suc (length-replicate n a)

  pub length-overwrite :
      (xs : List A) (i : ℕ) (ys : List A) → length (overwrite xs i ys) ≡ length xs
  length-overwrite [] i ys = refl
  length-overwrite (x ∷ xs) (suc i) ys = ap suc (length-overwrite xs i ys)
  length-overwrite (x ∷ xs) zero [] = refl
  length-overwrite (x ∷ xs) zero (y ∷ ys) = ap suc (length-overwrite xs zero ys)

  pub take-append-drop : (n : ℕ) (xs : List A) → take n xs ++ drop n xs ≡ xs
  take-append-drop zero xs = refl
  take-append-drop (suc n) [] = refl
  take-append-drop (suc n) (x ∷ xs) = rw (take-append-drop n xs)

  pub take_all : (n : ℕ) (xs : List A) → length xs ≤ n → take n xs ≡ xs
  take_all zero [] h = refl
  take_all zero (x ∷ xs) h = absurd (omega arith)
  take_all (suc n) [] h = refl
  take_all (suc n) (x ∷ xs) h = ap (◌∷◌ x) (take_all n xs (omega arith))

  pub drop_all : (n : ℕ) (xs : List A) → length xs ≤ n → drop n xs ≡ []
  drop_all zero [] h = refl
  drop_all zero (x ∷ xs) h = absurd (omega arith)
  drop_all (suc n) [] h = refl
  drop_all (suc n) (x ∷ xs) h = drop_all n xs (omega arith)

  pub take-append : (xs ys : List A) → take (length xs) (xs ++ ys) ≡ xs
  take-append [] ys = refl
  take-append (x ∷ xs) ys = ap (◌∷◌ x) (take-append xs ys)

  pub drop-append : (xs ys : List A) → drop (length xs) (xs ++ ys) ≡ ys
  drop-append [] ys = refl
  drop-append (x ∷ xs) ys = drop-append xs ys

  pub take-append_le : (n : ℕ) (xs ys : List A) → n ≤ length xs → take n (xs ++ ys) ≡ take n xs
  take-append_le zero xs ys h = refl
  take-append_le (suc n) [] ys h = absurd (omega arith)
  take-append_le (suc n) (x ∷ xs) ys h = ap (◌∷◌ x) (take-append_le n xs ys (omega arith))

  pub drop-append_le :
      (n : ℕ) (xs ys : List A) → n ≤ length xs → drop n (xs ++ ys) ≡ drop n xs ++ ys
  drop-append_le zero xs ys h = refl
  drop-append_le (suc n) [] ys h = absurd (omega arith)
  drop-append_le (suc n) (x ∷ xs) ys h = drop-append_le n xs ys (omega arith)

  pub take-take : (n : ℕ) (m : ℕ) (xs : List A) → n ≤ m → take n (take m xs) ≡ take n xs
  take-take zero m xs h = refl
  take-take (suc n) zero xs h = absurd (omega arith)
  take-take (suc n) (suc m) [] h = refl
  take-take (suc n) (suc m) (x ∷ xs) h = ap (◌∷◌ x) (take-take n m xs (omega arith))

  pub take_drop-nil : (i n : ℕ) → slice {A = A} i n [] ≡ []
  take_drop-nil zero zero = refl
  take_drop-nil zero (suc n) = refl
  take_drop-nil (suc i) zero = refl
  take_drop-nil (suc i) (suc n) = refl

  pub take-add : (n m : ℕ) (xs : List A) → take (n + m) xs ≡ take n xs ++ take m (drop n xs)
  take-add zero m xs = ap (λ k. take k xs) (omega arith)
  take-add (suc n) m [] = ap (λ k. take k []) add_lem ∙ sym (take_drop-nil (suc n) m)
    where
      add_lem : suc n + m ≡ suc (n + m)
      add_lem = omega arith
  take-add (suc n) m (x ∷ xs) = ap (λ k. take k (x ∷ xs)) add_lem ∙ ap (◌∷◌ x) (take-add n m xs)
    where
      add_lem : suc n + m ≡ suc (n + m)
      add_lem = omega arith

  pub drop-nil : (n : ℕ) → drop {A = A} n [] ≡ []
  drop-nil zero = refl
  drop-nil (suc n) = refl

  pub drop-drop : (n m : ℕ) (xs : List A) → drop n (drop m xs) ≡ drop (m + n) xs
  drop-drop n zero xs = ap (λ k. drop k xs) (omega arith)
  drop-drop n (suc m) [] = drop-nil n ∙ sym (drop-nil (suc m + n))
  drop-drop n (suc m) (x ∷ xs) =
      drop-drop n m xs ∙ ap (λ k. drop k (x ∷ xs)) {x = suc (m + n)} (omega arith)

  pub drop-take : (k n : ℕ) (xs : List A) → k ≤ n → drop k (take n xs) ≡ take (n - k) (drop k xs)
  drop-take zero n xs h = ap (λ m. take m xs) (omega arith)
  drop-take (suc k) zero xs h = absurd (omega arith)
  drop-take (suc k) (suc n) [] h = sym (take_drop-nil 0 (suc n - suc k))
  drop-take (suc k) (suc n) (x ∷ xs) h =
      drop-take k n xs (omega arith) ∙ ap (λ m. take m (drop k xs)) (omega arith)

module _ {ℓ} {A : Type ℓ} where
  pub length-slice : (i n : ℕ) (xs : List A) → i + n ≤ length xs → length (slice i n xs) ≡ n
  length-slice i n xs h = omega (arith, length-take n (drop i xs), length-drop i xs)

  pub slice-add :
      (i n m : ℕ) (xs : List A) → slice i (n + m) xs ≡ slice i n xs ++ slice (i + n) m xs
  slice-add i n m xs = rw (← drop-drop n i xs) (take-add n m (drop i xs))

  pub slice-append_le :
      (i n : ℕ) (xs ys : List A) → i + n ≤ length xs → slice i n (xs ++ ys) ≡ slice i n xs
  slice-append_le i n xs ys h =
      rw (drop-append_le i xs ys (omega arith))
        (take-append_le n (drop i xs) ys (omega (arith, length-drop i xs)))

  pub take-overwrite :
      (xs ys : List A) → length ys ≤ length xs → take (length ys) (overwrite xs 0 ys) ≡ ys
  take-overwrite xs [] h = refl
  take-overwrite [] (y ∷ ys) h = absurd (omega arith)
  take-overwrite (x ∷ xs) (y ∷ ys) h = ap (◌∷◌ y) (take-overwrite xs ys (omega arith))

  pub slice-overwrite_self :
      (xs : List A) (i : ℕ) (ys : List A)
      → i + length ys ≤ length xs
      → slice i (length ys) (overwrite xs i ys) ≡ ys
  slice-overwrite_self xs zero ys h = take-overwrite xs ys (omega arith)
  slice-overwrite_self [] (suc i) ys h = absurd (omega arith)
  slice-overwrite_self (x ∷ xs) (suc i) ys h = slice-overwrite_self xs i ys (omega arith)

  pub slice-overwrite_before :
      (j n : ℕ) (xs : List A) (i : ℕ) (ys : List A)
      → j + n ≤ i
      → slice j n (overwrite xs i ys) ≡ slice j n xs
  slice-overwrite_before j n [] i ys h = refl
  slice-overwrite_before zero zero (x ∷ xs) i ys h = refl
  slice-overwrite_before zero (suc n) (x ∷ xs) zero ys h = absurd (omega arith)
  slice-overwrite_before zero (suc n) (x ∷ xs) (suc i) ys h =
      ap (◌∷◌ x) (slice-overwrite_before zero n xs i ys (omega arith))
  slice-overwrite_before (suc j) n (x ∷ xs) zero ys h = absurd (omega arith)
  slice-overwrite_before (suc j) n (x ∷ xs) (suc i) ys h =
      slice-overwrite_before j n xs i ys (omega arith)

  pub drop-slice :
      (k i n : ℕ) (xs : List A) → k ≤ n → drop k (slice i n xs) ≡ slice (i + k) (n - k) xs
  drop-slice k i n xs h = rw (← drop-drop k i xs) (drop-take k n (drop i xs) h)
