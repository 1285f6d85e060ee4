-- ===== src/ApiKeyAuth/Sets.antt =====
-- ApiKeyAuth.cc: loading, adding and removing keys, as operations on the set of keys.
use vortex_net.Base.{
  ◌≡◌, refl, sym, ◌∙◌, ap, inl, inr, true, false, ◌||◌, List, [], ◌∷◌, arith, Bool-cases,
}
use vortex_net.ApiKeyAuth.{Str, str_lt, str_eq, insert_key, sort, unique_from, unique, load}
use vortex_net.ApiKeyAuth.Keys.{
  eq_of_str_eq, str_lt_irrefl, str_lt_trans, str_eq_of_not_lt, has, Above, IsSorted,
}

-- In rising order, with repetitions: nothing in the list is below `k`.
abbrev NotBelow : Str → List Str → Type 0
NotBelow k [] = Unit
NotBelow k (x ∷ xs) = (str_lt x k ≡ false) × NotBelow k xs

abbrev IsOrdered : List Str → Type 0
IsOrdered [] = Unit
IsOrdered (x ∷ xs) = NotBelow x xs × IsOrdered xs

has-insert_key : (j k : Str) (xs : List Str) → has j (insert_key k xs) ≡ str_eq k j || has j xs
unfolding has insert_key
has-insert_key j k [] = refl
has-insert_key j k (x ∷ xs) = ground (arith, has-insert_key j k xs)

has-sort : (j : Str) (xs : List Str) → has j (sort xs) ≡ has j xs
unfolding has sort
has-sort j [] = refl
has-sort j (x ∷ xs) = has-insert_key j x (sort xs) ∙ ap (λ b. str_eq x j || b) (has-sort j xs)

NotBelow-insert_key :
    (j k : Str) (xs : List Str) → str_lt k j ≡ false → NotBelow j xs → NotBelow j (insert_key k xs)
unfolding insert_key
NotBelow-insert_key j k [] h n = (h, tt)
NotBelow-insert_key j k (x ∷ xs) h n = ground (arith, NotBelow-insert_key j k xs h n.1)

not_below_trans : (a b c : Str) → str_lt b a ≡ false → str_lt c b ≡ false → str_lt c a ≡ false
not_below_trans a b c h k = elim (Bool-cases (str_lt c a)) [
  | inl e ↦ elim (Bool-cases (str_lt a b)) [
    | inl f ↦ absurd (cc (str_lt_trans c a b e f, k))
    | inr f ↦
        let same = eq_of_str_eq a b (str_eq_of_not_lt a b f h) in
        absurd (cc (ap (λ y. str_lt c y) same, e, k))
  ]
  | inr e ↦ e
]

NotBelow-mono : (a b : Str) (xs : List Str) → str_lt b a ≡ false → NotBelow b xs → NotBelow a xs
NotBelow-mono a b [] h n = tt
NotBelow-mono a b (x ∷ xs) h n = (not_below_trans a b x h n.0, NotBelow-mono a b xs h n.1)

str_lt_asym : (a b : Str) → str_lt a b ≡ true → str_lt b a ≡ false
str_lt_asym a b h = elim (Bool-cases (str_lt b a)) [
  | inl e ↦ absurd (cc (str_lt_trans a b a h e, str_lt_irrefl a))
  | inr e ↦ e
]

insert_key-IsOrdered : (k : Str) (xs : List Str) → IsOrdered xs → IsOrdered (insert_key k xs)
unfolding insert_key
insert_key-IsOrdered k [] s = (tt, tt)
insert_key-IsOrdered k (x ∷ xs) s = elim (Bool-cases (str_lt x k)) [
  | inl e ↦ rw e (NotBelow-insert_key x k xs (str_lt_asym x k e) s.0, insert_key-IsOrdered k xs s.1)
  | inr e ↦ rw e ((e, NotBelow-mono k x xs e s.0), s)
]

sort-IsOrdered : (xs : List Str) → IsOrdered (sort xs)
unfolding sort
sort-IsOrdered [] = tt
sort-IsOrdered (x ∷ xs) = insert_key-IsOrdered x (sort xs) (sort-IsOrdered xs)

has-unique_from : (j k : Str) (xs : List Str) → has j (unique_from k xs) ≡ str_eq k j || has j xs
unfolding has unique_from
has-unique_from j k [] = refl
has-unique_from j k (x ∷ xs) = elim (Bool-cases (str_eq k x)) [
  | inl e ↦
      let same : str_eq x j ≡ str_eq k j = ap (λ y. str_eq y j) (sym (eq_of_str_eq k x e)) in
      rw e (has-unique_from j k xs ∙ rw same (ground arith))
  | inr e ↦ rw e (ap (λ b. str_eq k j || b) (has-unique_from j x xs))
]

-- Above the head in order and different from it.
Above-unique_from :
    (j k : Str) (xs : List Str)
    → str_lt j k ≡ true
    → NotBelow k xs
    → IsOrdered xs
    → Above j (unique_from k xs)
unfolding unique_from
Above-unique_from j k [] h n s = (h, tt)
Above-unique_from j k (x ∷ xs) h n s = elim (Bool-cases (str_eq k x)) [
  | inl e ↦ rw e (Above-unique_from j k xs h n.1 s.1)
  | inr e ↦ rw e (h, Above-unique_from j x xs (below_of j k x h e n.0) s.0 s.1)
]
  where
    below_of :
        (j k x : Str)
        → str_lt j k ≡ true
        → str_eq k x ≡ false
        → str_lt x k ≡ false
        → str_lt j x ≡ true
    below_of j k x h e n = elim (Bool-cases (str_lt k x)) [
      | inl f ↦ str_lt_trans j k x h f
      | inr f ↦ absurd (cc (str_eq_of_not_lt k x f n, e))
    ]

unique_from-IsSorted :
    (k : Str) (xs : List Str) → NotBelow k xs → IsOrdered xs → IsSorted (unique_from k xs)
unfolding unique_from
unique_from-IsSorted k [] n s = (tt, tt)
unique_from-IsSorted k (x ∷ xs) n s = elim (Bool-cases (str_eq k x)) [
  | inl e ↦ rw e (unique_from-IsSorted k xs n.1 s.1)
  | inr e ↦ rw e (elim (Bool-cases (str_lt k x)) [
    | inl f ↦ (Above-unique_from k x xs f s.0 s.1, unique_from-IsSorted x xs s.0 s.1)
    | inr f ↦ absurd (cc (str_eq_of_not_lt k x f n.0, e))
  ])
]

unique-IsSorted : (xs : List Str) → IsOrdered xs → IsSorted (unique xs)
unfolding unique
unique-IsSorted [] s = tt
unique-IsSorted (x ∷ xs) s = unique_from-IsSorted x xs s.0 s.1

has-unique : (j : Str) (xs : List Str) → has j (unique xs) ≡ has j xs
unfolding unique has
has-unique j [] = refl
has-unique j (x ∷ xs) = has-unique_from j x xs

pub load-IsSorted : (ks : List Str) → IsSorted (load ks)
unfolding load
load-IsSorted ks = unique-IsSorted (sort ks) (sort-IsOrdered ks)

pub has-load : (j : Str) (ks : List Str) → has j (load ks) ≡ has j ks
unfolding load
has-load j ks = has-unique j (sort ks) ∙ has-sort j ks
