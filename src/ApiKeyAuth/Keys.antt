-- ===== src/ApiKeyAuth/Keys.antt =====
-- ApiKeyAuth.cc: the ordered vector of keys is a set, and the binary search decides it.
use vortex_net.Base.{
  ◌≡◌, refl, sym, ap, inl, inr, Bool, true, false, ◌||◌, List, [], ◌∷◌, arith, ◌==◌, Bool-cases,
  &&-true,
}
use vortex_net.ApiKeyAuth.{Str, str_lt, str_eq, search_key}

pub str_eq_self : (a : Str) → str_eq a a ≡ true
unfolding str_eq
str_eq_self [] = refl
str_eq_self (x ∷ xs) = ground (arith, str_eq_self xs)

pub eq_of_str_eq : (a b : Str) → str_eq a b ≡ true → a ≡ b
unfolding str_eq
eq_of_str_eq [] [] h = refl
eq_of_str_eq [] (y ∷ ys) h = absurd (cc)
eq_of_str_eq (x ∷ xs) [] h = absurd (cc)
eq_of_str_eq (x ∷ xs) (y ∷ ys) h =
    let (e, es) = &&-true (x == y) (str_eq xs ys) h in
    let head : x ≡ y = ground (arith, e) in let tail = eq_of_str_eq xs ys es in cc (head, tail)

pub str_lt_irrefl : (a : Str) → str_lt a a ≡ false
unfolding str_lt
str_lt_irrefl [] = refl
str_lt_irrefl (x ∷ xs) = ground (arith, str_lt_irrefl xs)

pub str_lt_trans : (a b c : Str) → str_lt a b ≡ true → str_lt b c ≡ true → str_lt a c ≡ true
unfolding str_lt
str_lt_trans a [] c h k = absurd (cc)
str_lt_trans a (y ∷ ys) [] h k = absurd (cc)
str_lt_trans [] (y ∷ ys) (z ∷ zs) h k = refl
str_lt_trans (x ∷ xs) (y ∷ ys) (z ∷ zs) h k = ground (arith, str_lt_trans xs ys zs)

-- Neither below the other: equal.
pub str_eq_of_not_lt : (a b : Str) → str_lt a b ≡ false → str_lt b a ≡ false → str_eq a b ≡ true
unfolding str_lt str_eq
str_eq_of_not_lt [] [] h k = refl
str_eq_of_not_lt [] (y ∷ ys) h k = absurd (cc)
str_eq_of_not_lt (x ∷ xs) [] h k = absurd (cc)
str_eq_of_not_lt (x ∷ xs) (y ∷ ys) h k = ground (arith, str_eq_of_not_lt xs ys)

unfoldable pub has : Str → List Str → Bool
has k [] = false
has k (x ∷ xs) = str_eq x k || has k xs

abbrev pub Above : Str → List Str → Type 0
Above k [] = Unit
Above k (x ∷ xs) = (str_lt k x ≡ true) × Above k xs

-- In strictly rising order.
abbrev pub IsSorted : List Str → Type 0
IsSorted [] = Unit
IsSorted (x ∷ xs) = Above x xs × IsSorted xs

pub Above-mono : (a b : Str) (xs : List Str) → str_lt a b ≡ true → Above b xs → Above a xs
Above-mono a b [] h k = tt
Above-mono a b (x ∷ xs) h k = (str_lt_trans a b x h k.0, Above-mono a b xs h k.1)

has-Above : (k : Str) (xs : List Str) → Above k xs → has k xs ≡ false
unfolding has
has-Above k [] a = refl
has-Above k (x ∷ xs) a = elim (Bool-cases (str_eq x k)) [
  | inl e ↦
      let same = eq_of_str_eq x k e in absurd (cc (ap (λ y. str_lt k y) same, str_lt_irrefl k, a.0))
  | inr e ↦ rw e (has-Above k xs a.1)
]

-- On an ordered vector the binary search finds exactly the keys that it holds.
pub search_key-has : (k : Str) (xs : List Str) → IsSorted xs → search_key k xs ≡ has k xs
unfolding search_key has
search_key-has k [] s = refl
search_key-has k (x ∷ xs) s = elim (Bool-cases (str_lt x k)) [
  | inl e ↦
      let other : str_eq x k ≡ false = elim (Bool-cases (str_eq x k)) [
        | inl f ↦ absurd (cc (ap (λ y. str_lt x y) (eq_of_str_eq x k f), str_lt_irrefl x, e))
        | inr f ↦ f
      ] in
      rw (e, other) (search_key-has k xs s.1)
  | inr e ↦ elim (Bool-cases (str_lt k x)) [
    | inl f ↦
        let other : str_eq x k ≡ false = elim (Bool-cases (str_eq x k)) [
          | inl g ↦ absurd (cc (ap (λ y. str_lt k y) (eq_of_str_eq x k g), str_lt_irrefl k, f))
          | inr g ↦ g
        ] in
        rw (e, f, other) (sym (has-Above k xs (Above-mono k x xs f s.0)))
    | inr f ↦ rw (e, f, str_eq_of_not_lt x k e f)
  ]
]
