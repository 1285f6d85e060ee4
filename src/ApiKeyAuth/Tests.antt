-- ===== src/ApiKeyAuth/Tests.antt =====
-- Runs of the authenticator, and its theorems at concrete inputs.
use vortex_net.Base.{◌≡◌, refl, inl, inr, arith, true, ◌&&◌, List, [], ◌∷◌, ◌++◌}
use vortex_net.ApiKeyAuth.{
  Str, str_lt, str_eq, insert_key, sort, unique_from, unique, load, search_key, trim_left,
  trim_right, strip_scheme, extract_token, equals_ignore_case, authenticate, authenticate_headers,
}
use vortex_net.ApiKeyAuth.Refine.{
  Op, loads, adds, removes, keys_after, member, nonempty, authenticate_lem,
}
use vortex_net.ApiKeyAuth.Token.{extract_token_lem}

-- `BeArEr`, and the keys `b`, `ab` and `c`.
abbrev bearer : Str
bearer = 66 ∷ 101 ∷ 65 ∷ 114 ∷ 69 ∷ 114 ∷ []

abbrev key_b : Str
key_b = 98 ∷ []

abbrev key_ab : Str
key_ab = 97 ∷ 98 ∷ []

abbrev key_c : Str
key_c = 99 ∷ []

loaded : load (key_b ∷ key_ab ∷ key_b ∷ key_c ∷ []) ≡ key_ab ∷ key_b ∷ key_c ∷ []
unfolding load sort insert_key unique unique_from str_lt str_eq
loaded = refl

-- No blank is needed between the scheme and the token.
run_together : extract_token (bearer ++ key_ab) ≡ key_ab
unfolding extract_token trim_left strip_scheme trim_right
run_together = refl

found :
    authenticate_headers (key_ab ∷ key_b ∷ []) (
      (65 ∷ [], key_c)
      ∷ (
        97 ∷ 85 ∷ 116 ∷ 104 ∷ 111 ∷ 114 ∷ 105 ∷ 122 ∷ 97 ∷ 116 ∷ 105 ∷ 111 ∷ 110 ∷ [],
        bearer ++ (32 ∷ key_b),
      )
      ∷ [])
    ≡ true
unfolding authenticate_headers equals_ignore_case authenticate extract_token trim_left strip_scheme
    trim_right search_key str_lt
found = refl

abbrev history : List Op
history = removes key_b ∷ adds key_c ∷ loads (key_b ∷ key_ab ∷ []) ∷ []

authenticate_lem_example :
    authenticate (keys_after history) (bearer ++ (32 ∷ key_c))
    ≡ nonempty (extract_token (bearer ++ (32 ∷ key_c)))
      && member (extract_token (bearer ++ (32 ∷ key_c))) history
authenticate_lem_example = authenticate_lem history (bearer ++ (32 ∷ key_c))

extract_token_lem_example :
    extract_token ((32 ∷ []) ++ (bearer ++ ((9 ∷ []) ++ (key_ab ++ (32 ∷ []))))) ≡ key_ab
extract_token_lem_example =
    extract_token_lem (32 ∷ []) bearer [] (32 ∷ []) (98 ∷ []) 9 97 (inl refl, tt)
      (inr refl, (inl refl, (inr refl, (inl refl, (inr refl, (inl refl, tt)))))) (inr refl) tt
      (λ b. omega (arith, b)) (λ b. omega (arith, b)) (inl refl, tt)
