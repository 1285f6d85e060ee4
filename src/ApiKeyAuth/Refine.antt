-- ===== src/ApiKeyAuth/Refine.antt =====
-- ApiKeyAuth.cc: after any loading, adding and removing of keys, `authenticate` answers as a plain set would.
use vortex_net.Base.{
  ◌≡◌, refl, sym, ◌∙◌, ap, inl, inr, Bool, true, false, not, ◌&&◌, ◌||◌, List, [], ◌∷◌, arith,
  Bool-cases,
}
use vortex_net.ApiKeyAuth.{
  Str, str_lt, str_eq, load, add_key, remove_key, search_key, extract_token, authenticate,
}
use vortex_net.ApiKeyAuth.Keys.{
  str_eq_self, eq_of_str_eq, str_eq_of_not_lt, has, Above, IsSorted, Above-mono, search_key-has,
}
use vortex_net.ApiKeyAuth.Sets.{load-IsSorted, has-load}

Above-add_key :
    (j k : Str) (xs : List Str) → str_lt j k ≡ true → Above j xs → Above j (add_key k xs)
unfolding add_key
Above-add_key j k [] h a = (h, tt)
Above-add_key j k (x ∷ xs) h a = ground (arith, Above-add_key j k xs h a.1)

add_key-IsSorted : (k : Str) (xs : List Str) → IsSorted xs → IsSorted (add_key k xs)
unfolding add_key
add_key-IsSorted k [] s = (tt, tt)
add_key-IsSorted k (x ∷ xs) s = elim (Bool-cases (str_lt x k)) [
  | inl e ↦ rw e (Above-add_key x k xs e s.0, add_key-IsSorted k xs s.1)
  | inr e ↦ elim (Bool-cases (str_eq x k)) [
    | inl f ↦ rw (e, f) s
    | inr f ↦
        rw (e, f)
          (elim (Bool-cases (str_lt k x)) [
            | inl g ↦ ((g, Above-mono k x xs g s.0), s)
            | inr g ↦ absurd (cc (str_eq_of_not_lt x k e g, f))
          ])
  ]
]

has-add_key : (j k : Str) (xs : List Str) → has j (add_key k xs) ≡ str_eq k j || has j xs
unfolding has add_key
has-add_key j k [] = refl
has-add_key j k (x ∷ xs) = elim (Bool-cases (str_lt x k)) [
  | inl e ↦ rw e (ap (λ b. str_eq x j || b) (has-add_key j k xs) ∙ ground arith)
  | inr e ↦ elim (Bool-cases (str_eq x k)) [
    | inl f ↦
        let same : str_eq x j ≡ str_eq k j = ap (λ y. str_eq y j) (eq_of_str_eq x k f) in
        rw (e, f) (rw same (ground arith))
    | inr f ↦ rw (e, f)
  ]
]

Above-remove_key : (j k : Str) (xs : List Str) → Above j xs → Above j (remove_key k xs)
unfolding remove_key
Above-remove_key j k [] a = tt
Above-remove_key j k (x ∷ xs) a = ground (arith, Above-remove_key j k xs a.1)

remove_key-IsSorted : (k : Str) (xs : List Str) → IsSorted xs → IsSorted (remove_key k xs)
unfolding remove_key
remove_key-IsSorted k [] s = tt
remove_key-IsSorted k (x ∷ xs) s =
    ground (arith, remove_key-IsSorted k xs s.1, Above-remove_key x k xs s.0)

has-remove_key :
    (j k : Str) (xs : List Str) → has j (remove_key k xs) ≡ has j xs && not (str_eq j k)
unfolding has remove_key
has-remove_key j k [] = refl
has-remove_key j k (x ∷ xs) = elim (Bool-cases (str_eq x k)) [
  | inl e ↦
      let same : str_eq x j ≡ str_eq k j = ap (λ y. str_eq y j) (eq_of_str_eq x k e) in
      rw e (
        has-remove_key j k xs
        ∙ rw same (elim (Bool-cases (str_eq k j)) [
          | inl f ↦
              let self : str_eq j k ≡ true =
                ap (λ y. str_eq y k) (sym (eq_of_str_eq k j f)) ∙ str_eq_self k in
              rw (f, self) (ground arith)
          | inr f ↦ rw f
        ]))
  | inr e ↦ rw e (
      ap (λ b. str_eq x j || b) (has-remove_key j k xs) ∙ (elim (Bool-cases (str_eq x j)) [
        | inl f ↦
            let other : str_eq j k ≡ false = ap (λ y. str_eq y k) (sym (eq_of_str_eq x j f)) ∙ e in
            rw (f, other)
        | inr f ↦ rw f
      ]))
]

-- The operations that change the keys.
pub data Op : Type 0 where
  loads : List Str → Op
  adds : Str → Op
  removes : Str → Op

abbrev pub apply : List Str → Op → List Str
apply keys (loads ks) = load ks
apply keys (adds k) = add_key k keys
apply keys (removes k) = remove_key k keys

-- From no keys, the latest operation first.
unfoldable pub keys_after : List Op → List Str
keys_after [] = []
keys_after (o ∷ os) = apply (keys_after os) o

abbrev pub one_of : Str → List Str → Bool
one_of k [] = false
one_of k (x ∷ xs) = str_eq x k || one_of k xs

-- Whether a key is in the set, by the operations alone.
abbrev pub member : Str → List Op → Bool
member k [] = false
member k (loads ks ∷ os) = one_of k ks
member k (adds j ∷ os) = str_eq j k || member k os
member k (removes j ∷ os) = member k os && not (str_eq k j)

has-one_of : (k : Str) (xs : List Str) → has k xs ≡ one_of k xs
unfolding has
has-one_of k [] = refl
has-one_of k (x ∷ xs) = ap (λ b. str_eq x k || b) (has-one_of k xs)

keys_after-IsSorted : (os : List Op) → IsSorted (keys_after os)
unfolding keys_after
keys_after-IsSorted [] = tt
keys_after-IsSorted (loads ks ∷ os) = load-IsSorted ks
keys_after-IsSorted (adds k ∷ os) = add_key-IsSorted k (keys_after os) (keys_after-IsSorted os)
keys_after-IsSorted (removes k ∷ os) =
    remove_key-IsSorted k (keys_after os) (keys_after-IsSorted os)

has-keys_after : (k : Str) (os : List Op) → has k (keys_after os) ≡ member k os
unfolding keys_after has
has-keys_after k [] = refl
has-keys_after k (loads ks ∷ os) = has-load k ks ∙ has-one_of k ks
has-keys_after k (adds j ∷ os) =
    has-add_key k j (keys_after os) ∙ ap (λ b. str_eq j k || b) (has-keys_after k os)
has-keys_after k (removes j ∷ os) =
    has-remove_key k j (keys_after os) ∙ ap (λ b. b && not (str_eq k j)) (has-keys_after k os)

abbrev pub nonempty : Str → Bool
nonempty [] = false
nonempty (c ∷ s) = true

-- After any sequence of loads, additions and removals, a header is accepted exactly if its token is not
-- empty and is in the set that the sequence leaves: the last load's keys, with those added and less
-- those removed since.
pub authenticate_lem :
    (os : List Op) (header : Str)
    → authenticate (keys_after os) header
      ≡ nonempty (extract_token header) && member (extract_token header) os
unfolding authenticate
authenticate_lem os header = of_token (extract_token header)
  where
    of_token :
        (t : Str)
        → elim t [ [] ↦ false | c ∷ s ↦ search_key (c ∷ s) (keys_after os) ]
          ≡ nonempty t && member t os
    of_token [] = refl
    of_token (c ∷ s) =
        search_key-has (c ∷ s) (keys_after os) (keys_after-IsSorted os) ∙ has-keys_after (c ∷ s) os
