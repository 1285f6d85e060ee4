-- ===== src/HttpParser/Tests.antt =====
-- Runs of the parser, and its theorem at a concrete input.
use vortex_net.Base.{◌≡◌, refl, true, false, List, [], ◌∷◌, arith, codes}
use vortex_net.ApiKeyAuth.{Str, equals_ignore_case}
use vortex_net.HttpParser.{
  HttpRequest, head, failed, new, digits, from_chars, scan_request, scan_response, parse_request,
  parse_response, took_request, got_all,
}
use vortex_net.HttpParser.Lengths.{after_head, body_length, parse_request-announced}

abbrev post : List (Str × Str) → HttpRequest
post hs = record { method = codes "POST"; path = codes "/v1/chat"; headers = hs }

-- Only the digits at the front count, and a value with none is passed over.
loose :
    scan_request
      ((codes "CONTENT-Length", codes "12abc") ∷ (codes "Content-Length", codes "x") ∷ [])
      false
      0
    ≡ (true, 12)
unfolding scan_request equals_ignore_case from_chars digits
loose = refl

-- Two different lengths: the last one counts.
two_lengths :
    scan_request
      ((codes "Content-Length", codes "5") ∷ (codes "Content-Length", codes "0") ∷ [])
      false
      0
    ≡ (false, 0)
unfolding scan_request equals_ignore_case from_chars digits
two_lengths = refl

-- A request with a chunked body counts as one without a body.
chunked_request :
    (took_request new 40 (post ((codes "Transfer-Encoding", codes "chunked") ∷ []))).state ≡ got_all
unfolding took_request scan_request equals_ignore_case
chunked_request = refl

-- A response with a body of 5 bytes and then one of 0 expects a body, of which nothing is missing.
stuck :
    (scan_response
      ((codes "Content-Length", codes "5") ∷ (codes "Content-Length", codes "0") ∷ [])
      (record { has_body = false; length = 0; is_chunked = false }))
    ≡ record { has_body = true; length = 0; is_chunked = false }
unfolding scan_response equals_ignore_case from_chars digits
stuck = refl

-- A response that is no response stays in the buffer: only the parser is changed.
bad_response : parse_response (λ b. failed) new (codes "x") ≡ (false, record new { is_req = false })
unfolding parse_response
bad_response = refl

-- The length is taken over, and 12 bytes of the body are missing.
parse_request-announced_example :
    parse_request
      (λ b. head 40 (post ((codes "Content-Length", codes "12") ∷ [])))
      new
      (codes "POST")
    ≡ (
      true,
      after_head new 40
          (post ((codes "Content-Length", codes "12") ∷ []))
          (body_length (post ((codes "Content-Length", codes "12") ∷ []))),
      codes "POST",
    )
parse_request-announced_example =
    parse_request-announced (λ b. head 40 (post ((codes "Content-Length", codes "12") ∷ []))) new
      (codes "POST") 40 (post ((codes "Content-Length", codes "12") ∷ [])) refl refl (omega arith)
