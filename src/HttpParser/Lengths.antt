-- ===== src/HttpParser/Lengths.antt =====
-- HttpParser.cc, `parseRequest`: the length that a head announces.
use vortex_net.Base.{
  ℕ, zero, suc, ◌<◌, ◌≡◌, refl, sym, ◌∙◌, ap, inl, inr, true, false, not, List, [], ◌∷◌, Option,
  none, some, arith, ltb, lt→ltb, if◌then◌else◌, Bool-cases,
}
use vortex_net.ApiKeyAuth.{Str}
use vortex_net.HttpParser.{
  HttpRequest, HttpParser, Found, head, from_chars, or_else, is_content_length, scan_request,
  took_request, parse_request, expecting, expect_body, got_all,
}

abbrev pub or_option : Option ℕ → Option ℕ → Option ℕ
or_option none b = b
or_option (some n) b = some n

-- The number of one header, if it is a Content-Length that holds one.
abbrev pub length_of : Str → Str → Option ℕ
length_of key val = if is_content_length key then from_chars val else none

-- The last Content-Length header that holds a number; those that hold none are passed over.
abbrev pub announced : List (Str × Str) → Option ℕ
announced [] = none
announced ((key, val) ∷ hs) = or_option (announced hs) (length_of key val)

abbrev pub body_length : HttpRequest → ℕ
body_length req = or_else (announced req.headers) 0

or_else-or_option :
    (a b : Option ℕ) (old : ℕ) → or_else (or_option a b) old ≡ or_else a (or_else b old)
or_else-or_option none b old = refl
or_else-or_option (some n) b old = refl

scan_request-step :
    (key val : Str) (hs : List (Str × Str)) (old : ℕ)
    → scan_request ((key, val) ∷ hs) (ltb 0 old) old
      ≡ scan_request hs (ltb 0 (or_else (length_of key val) old)) (or_else (length_of key val) old)
unfolding scan_request
scan_request-step key val hs old = elim (Bool-cases (is_content_length key)) [
  | inl e ↦ rw e
  | inr e ↦ rw e
]

scan_request-announced :
    (hs : List (Str × Str)) (old : ℕ)
    → scan_request hs (ltb 0 old) old
      ≡ (ltb 0 (or_else (announced hs) old), or_else (announced hs) old)
unfolding scan_request
scan_request-announced [] old = refl
scan_request-announced ((key, val) ∷ hs) old =
    scan_request-step key val hs old
    ∙ scan_request-announced hs (or_else (length_of key val) old)
    ∙ ap (λ n. (ltb 0 n, n)) (sym (or_else-or_option (announced hs) (length_of key val) old))

-- The parser after the head `req` of `n` bytes, whose body is `length` bytes long.
abbrev pub after_head : HttpParser → ℕ → HttpRequest → ℕ → HttpParser
after_head p n req length = record p {
  is_req = true;
  header_len = n;
  header = req;
  content_length = length;
  state = if ltb 0 length then expect_body else got_all;
  done = not (ltb 0 length);
}

took_request-after_head :
    (p : HttpParser) (n : ℕ) (req : HttpRequest)
    → p.content_length ≡ 0
    → took_request p n req ≡ after_head p n req (body_length req)
unfolding took_request
took_request-after_head p n req z =
    rw (scan_request-announced req.headers 0) (kept (body_length req))
  where
    kept :
        (l : ℕ)
        → expecting (ltb 0 l) (record p {
          is_req = true;
          header_len = n;
          header = req;
          content_length = if ltb 0 l then l else p.content_length;
        })
          ≡ after_head p n req l
    kept zero =
        ap
          (λ c.
            expecting false
              (record p { is_req = true; header_len = n; header = req; content_length = c }))
          z
    kept (suc l) = rw (lt→ltb 0 (suc l) (omega arith))

-- A head that is found, on a parser that was reset, is taken over with its length, and the body that
-- it announces, by the last Content-Length that holds a number, is expected next; with none, or 0, all is
-- there. The buffer stays as it is.
pub parse_request-announced :
    (phr : List ℕ → Found HttpRequest) (p : HttpParser) (buf : List ℕ) (n : ℕ) (req : HttpRequest)
    → p.content_length ≡ 0
    → phr buf ≡ head n req
    → 0 < n
    → parse_request phr p buf ≡ (true, after_head p n req (body_length req), buf)
unfolding parse_request
parse_request-announced phr p buf n req z e h =
    rw (e, parse_request) (rw (lt→ltb 0 n h, took_request-after_head p n req z))
