-- ===== src/ApiKeyAuth/Token.antt =====
-- ApiKeyAuth.cc, `extractToken`: what is read from a header.
use vortex_net.Base.{
  ℕ, ◌+◌, ◌≤◌, ◌≡◌, refl, ◌∙◌, ap, ◌⊎◌, inl, inr, true, false, [], ◌∷◌, ◌++◌, arith, ◌==◌, ==_iff,
  Bool-cases, map,
}
use vortex_net.ApiKeyAuth.{
  Str, is_space, to_lower, trim_left, trim_right, scheme, strip_scheme, extract_token,
}

-- A blank: a space or a tab.
abbrev pub IsBlank : ℕ → Type 0
IsBlank c = (c ≡ 32) ⊎ (c ≡ 9)

abbrev pub AllBlank : Str → Type 0
AllBlank [] = Unit
AllBlank (c ∷ s) = IsBlank c × AllBlank s

-- The last of the characters, the first standing before the list, is no blank.
abbrev pub EndsSolid : ℕ → Str → Type 0
EndsSolid c [] = ¬ IsBlank c
EndsSolid c (d ∷ s) = EndsSolid d s

-- The letters of the first word, which are small, each small or capital in the second.
abbrev pub AnyCase : Str → Str → Type 0
AnyCase [] [] = Unit
AnyCase [] (c ∷ cs) = ⊥
AnyCase (k ∷ ks) [] = ⊥
AnyCase (k ∷ ks) (c ∷ cs) = ((c ≡ k) ⊎ (c + 32 ≡ k)) × AnyCase ks cs

-- `bearer`.
abbrev pub bearer_word : Str
bearer_word = 98 ∷ 101 ∷ 97 ∷ 114 ∷ 101 ∷ 114 ∷ []

abbrev AllSmall : Str → Type 0
AllSmall [] = Unit
AllSmall (k ∷ ks) = (97 ≤ k) × (k ≤ 122) × AllSmall ks

to_lower-AnyCase : (ks word : Str) → AllSmall ks → AnyCase ks word → map to_lower word ≡ ks
to_lower-AnyCase [] [] a e = refl
to_lower-AnyCase [] (c ∷ cs) a e = absurd e
to_lower-AnyCase (k ∷ ks) [] a e = absurd e
to_lower-AnyCase (k ∷ ks) (c ∷ cs) a e =
    let one : to_lower c ≡ k = elim e.0 [
      | inl same ↦ ground (arith, same, a.0, a.1)
      | inr capital ↦ ground (arith, capital, a.0, a.1)
    ] in
    rw (one, to_lower-AnyCase ks cs a.2 e.1)

is_space-IsBlank : (c : ℕ) → IsBlank c → is_space c ≡ true
is_space-IsBlank c (inl e) = rw e
is_space-IsBlank c (inr e) = rw e

is_space-solid : (c : ℕ) → ¬ IsBlank c → is_space c ≡ false
is_space-solid c h = elim (Bool-cases (c == 32)) [
  | inl e ↦ absurd (h (inl ((==_iff c 32).0 e)))
  | inr e ↦ elim (Bool-cases (c == 9)) [
    | inl f ↦ absurd (h (inr ((==_iff c 9).0 f)))
    | inr f ↦ rw (e, f)
  ]
]

trim_right-EndsSolid : (c : ℕ) (s : Str) → EndsSolid c s → trim_right (c ∷ s) ≡ c ∷ s
unfolding trim_right
trim_right-EndsSolid c [] h = rw (is_space-solid c h)
trim_right-EndsSolid c (d ∷ s) h = rw (trim_right-EndsSolid d s h)

abbrev AllSpace : Str → Type 0
AllSpace [] = Unit
AllSpace (c ∷ s) = (is_space c ≡ true) × AllSpace s

AllBlank-AllSpace : (s : Str) → AllBlank s → AllSpace s
AllBlank-AllSpace [] a = tt
AllBlank-AllSpace (c ∷ s) a = (is_space-IsBlank c a.0, AllBlank-AllSpace s a.1)

trim_left-append : (pre s : Str) → AllSpace pre → trim_left (pre ++ s) ≡ trim_left s
unfolding trim_left
trim_left-append [] s a = refl
trim_left-append (c ∷ pre) s a = rw (a.0) (trim_left-append pre s a.1)

trim_right_blank : (post : Str) → AllSpace post → trim_right post ≡ []
unfolding trim_right
trim_right_blank [] a = refl
trim_right_blank (c ∷ post) a = rw (trim_right_blank post a.1, a.0, trim_right)

trim_right-append : (s post : Str) → AllSpace post → trim_right (s ++ post) ≡ trim_right s
unfolding trim_right
trim_right-append [] post a = trim_right_blank post a
trim_right-append (c ∷ s) post a = rw (trim_right-append s post a, trim_right)

strip_scheme-append :
    (ks word rest : Str) → map to_lower word ≡ ks → strip_scheme ks (word ++ rest) ≡ (true, rest)
unfolding strip_scheme
strip_scheme-append [] [] rest e = refl
strip_scheme-append [] (c ∷ word) rest e = absurd (cc)
strip_scheme-append (k ∷ ks) [] rest e = absurd (cc)
strip_scheme-append (k ∷ ks) (c ∷ word) rest e =
    let head : to_lower c ≡ k = cc in
    let tail : map to_lower word ≡ ks = cc in
    let test : (to_lower c == k) ≡ true = ground (arith, head) in
    rw test (strip_scheme-append ks word rest tail)

-- A word that reads `bearer` in lower case does not begin with a blank.
trim_left-word :
    (word rest : Str) → map to_lower word ≡ scheme → trim_left (word ++ rest) ≡ word ++ rest
unfolding trim_left
trim_left-word [] rest e = absurd (cc)
trim_left-word (c ∷ word) rest e =
    let head : to_lower c ≡ 98 = cc in
    let solid : is_space c ≡ false = ground (arith, head) in rw solid

trim_left_solid : (c : ℕ) (s : Str) → is_space c ≡ false → trim_left (c ∷ s) ≡ c ∷ s
unfolding trim_left
trim_left_solid c s h = rw h

-- A header of blanks, `Bearer` in any case, at least one blank, a token and blanks gives the token, if
-- that begins and ends with no blank. The blanks before `Bearer` and behind the token may be missing.
pub extract_token_lem :
    (pre word mid post s : Str) (m c : ℕ)
    → AllBlank pre
    → AnyCase bearer_word word
    → IsBlank m
    → AllBlank mid
    → ¬ IsBlank c
    → EndsSolid c s
    → AllBlank post
    → extract_token (pre ++ (word ++ ((m ∷ mid) ++ ((c ∷ s) ++ post)))) ≡ c ∷ s
unfolding extract_token
extract_token_lem pre word mid post s m c a any bm b solid last d =
    let tail = (m ∷ mid) ++ ((c ∷ s) ++ post) in
    let w : map to_lower word ≡ scheme = to_lower-AnyCase bearer_word word (omega arith) any in
    let front : trim_left (pre ++ (word ++ tail)) ≡ word ++ tail =
      trim_left-append pre (word ++ tail) (AllBlank-AllSpace pre a) ∙ trim_left-word word tail w in
    let first : trim_left ((c ∷ s) ++ post) ≡ (c ∷ s) ++ post =
      trim_left_solid c (s ++ post) (is_space-solid c solid) in
    rw (front, strip_scheme-append scheme word tail w)
      (ap trim_right (
          trim_left-append (m ∷ mid) ((c ∷ s) ++ post) (AllBlank-AllSpace (m ∷ mid) (bm, b))
          ∙ first)
        ∙ trim_right-append (c ∷ s) post (AllBlank-AllSpace post d)
        ∙ trim_right-EndsSolid c s last)
