-- ===== src/HttpServer/Tests.antt =====
-- Runs of the HTTP server, and its theorems at concrete inputs.
use vortex_net.Base.{ℕ, ◌≡◌, refl, true, false, none, List, [], ◌∷◌, ◌++◌, arith, codes, take, drop}
use vortex_net.ApiKeyAuth.{equals_ignore_case}
use vortex_net.HttpParser.{
  HttpRequest, Found, head, partial, digits, from_chars, scan_request, scan_response, parse_request,
  consume_body, took_request, reset,
}
use vortex_net.HttpServer.{
  dispatch, collect_body, after_parse, on_message, to_string_from, find_reason, response_headers,
  header_lines, respond,
}
use vortex_net.HttpServer.Bodies.{fresh, call, feed, concat, feed-body}
use vortex_net.HttpServer.Answer.{scan_response-response_headers}
use vortex_net.HttpParser.Lengths.{body_length}

abbrev post : HttpRequest
post = record {
  method = codes "POST";
  path = codes "/";
  headers = (codes "Content-Length", codes "3") ∷ [];
}

-- Stands for the parser: a head is the bytes "H\n".
abbrev phr : List ℕ → Found HttpRequest
phr [] = partial
phr (a ∷ []) = partial
phr (a ∷ b ∷ r) = head 2 post

-- A request whose body comes in a second message has stale headers.
stale : feed phr (fresh true [], []) (codes "H\n" ∷ codes "abc" ∷ []) ≡ (
  fresh true
      (record { method = codes "POST"; path = codes "/"; headers = none; body = codes "abc" } ∷ []),
  [],
)
unfolding feed on_message parse_request took_request scan_request equals_ignore_case from_chars
    digits after_parse collect_body consume_body dispatch reset
stale = refl

-- The second request, which came with the first, stays in the buffer.
pipelined :
    feed phr (fresh true [], []) (codes "H\nabcH\ndef" ∷ [])
    ≡ (fresh true (call true post (codes "abc") ∷ []), codes "H\ndef")
unfolding feed on_message parse_request took_request scan_request equals_ignore_case from_chars
    digits after_parse collect_body consume_body dispatch reset
pipelined = refl

body_length_3 : body_length post ≡ 3
unfolding equals_ignore_case from_chars digits
body_length_3 = refl

feed-body_example :
    feed phr (fresh true [], []) ((codes "H\n" ++ codes "a") ∷ codes "b" ∷ codes "cH" ∷ []) ≡ (
      fresh true (
          call false post
            (take (body_length post) (codes "a" ++ concat (codes "b" ∷ codes "cH" ∷ [])))
          ∷ []),
      drop (body_length post) (codes "a" ++ concat (codes "b" ∷ codes "cH" ∷ [])),
    )
unfolding equals_ignore_case from_chars digits
feed-body_example =
    feed-body phr true (codes "H\n") (codes "a") (codes "b" ∷ codes "cH" ∷ []) post [] (omega arith)
      refl (omega arith) (omega arith)

not_found :
    respond 404 (codes "no") (codes "text/plain")
    ≡ codes
        "HTTP/1.1 404 Not Found\r\nContent-Type: text/plain\r\nContent-Length: 2\r\nConnection: keep-alive\r\nAccess-Control-Allow-Origin: *\r\nAccess-Control-Allow-Methods: GET, POST, OPTIONS\r\nAccess-Control-Allow-Headers: Content-Type\r\n\r\nno"
unfolding respond to_string_from find_reason header_lines response_headers
not_found = refl

scan_response-response_headers_example :
    scan_response
      (response_headers (codes "hello") (codes "text/plain"))
      (record { has_body = false; length = 0; is_chunked = false })
    ≡ record { has_body = true; length = 5; is_chunked = false }
scan_response-response_headers_example =
    scan_response-response_headers (codes "hello") (codes "text/plain") (omega arith)
