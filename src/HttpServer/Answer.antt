-- ===== src/HttpServer/Answer.antt =====
-- HttpServer.h, `respond`, against HttpParser.cc: the length that the answer carries is read back.
use vortex_net.Base.{
  ℕ, zero, suc, ◌+◌, ◌-◌, ◌*◌, ◌/◌, ◌%◌, ◌^◌, ◌<◌, ◌≡◌, ◌∙◌, ap, inl, inr, true, false, [], ◌∷◌,
  some, arith, ltb, lt→ltb, ◌==◌, Bool-cases, length,
}
use vortex_net.ApiKeyAuth.{Str, equals_ignore_case}
use vortex_net.HttpParser.{digits, from_chars, is_digit, scan_response}
use vortex_net.HttpServer.{to_string, to_string_from, response_headers}

digits_cons :
    (d : ℕ) (s : Str) (acc : ℕ) → d < 10 → digits ((48 + d) ∷ s) acc ≡ digits s (acc * 10 + d)
unfolding digits
digits_cons d s acc h =
    let digit : is_digit (48 + d) ≡ true = ground arith in
    let value : acc * 10 + (48 + d - 48) ≡ acc * 10 + d = omega arith in rw (digit, value)

-- Reading the number that is written before `s`, and then `s`, has read the number first.
digits-to_string_from : (k n : ℕ) (s : Str) → n < k → digits (to_string_from k n s) 0 ≡ digits s n
unfolding to_string_from
digits-to_string_from zero n s h = absurd (omega arith)
digits-to_string_from (suc k) n s h = elim (Bool-cases (n / 10 == 0)) [
  | inl e ↦
      rw (e, to_string_from)
        (digits_cons (n % 10) s 0 (omega arith) ∙ ap (digits s) (ground (arith, e)))
  | inr e ↦
      rw (e, to_string_from)
        (digits-to_string_from k (n / 10) ((48 + n % 10) ∷ s) (ground (arith, e))
          ∙ digits_cons (n % 10) s (n / 10) (omega arith)
          ∙ ap (digits s) (omega arith))
]

abbrev StartsDigit : Str → Type 0
StartsDigit [] = ⊥
StartsDigit (c ∷ s) = is_digit c ≡ true

to_string_from-StartsDigit : (k n : ℕ) (s : Str) → n < k → StartsDigit (to_string_from k n s)
unfolding to_string_from
to_string_from-StartsDigit zero n s h = absurd (omega arith)
to_string_from-StartsDigit (suc k) n s h = elim (Bool-cases (n / 10 == 0)) [
  | inl e ↦ rw (e, to_string_from) (ground arith)
  | inr e ↦
      rw (e, to_string_from)
        (to_string_from-StartsDigit k (n / 10) ((48 + n % 10) ∷ s) (ground (arith, e)))
]

from_chars-digits :
    (s : Str) (n : ℕ) → StartsDigit s → digits s 0 ≡ n → n < 2 ^ 64 → from_chars s ≡ some n
unfolding from_chars
from_chars-digits [] n d e h = absurd d
from_chars-digits (c ∷ s) n d e h = rw (d, e, lt→ltb n (2 ^ 64) h)

from_chars-to_string : (n : ℕ) → n < 2 ^ 64 → from_chars (to_string n) ≡ some n
unfolding digits
from_chars-to_string n h =
    from_chars-digits (to_string n) n (to_string_from-StartsDigit (suc n) n [] (omega arith))
      (digits-to_string_from (suc n) n [] (omega arith)) h

-- A client that is given the header lines of `respond` as they were written reads a response that is not
-- chunked, with a body of exactly the length of the one that follows, for any body below 2^64 bytes.
pub scan_response-response_headers :
    (body content_type : Str)
    → length body < 2 ^ 64
    → scan_response
        (response_headers body content_type)
        (record { has_body = false; length = 0; is_chunked = false })
      ≡ record { has_body = ltb 0 (length body); length = length body; is_chunked = false }
unfolding scan_response response_headers equals_ignore_case digits
scan_response-response_headers body content_type h =
    rw (from_chars-to_string (length body) h) (ground arith)
