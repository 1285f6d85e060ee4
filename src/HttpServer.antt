-- ===== src/HttpServer.antt =====
-- Http/HttpServer.h: the requests of one connection, with their bodies, given to the callback. The
-- buffer is the list of its readable bytes, and the calls of the callback are a list.
pub mod Bodies
pub mod Answer
mod Tests
use vortex_net.Base.{
  ℕ, zero, suc, ◌+◌, ◌/◌, ◌%◌, Bool, true, false, List, [], ◌∷◌, ◌++◌, Option, none, some, ltb,
  ◌==◌, min, codes, if◌then◌else◌, length, take, drop,
}
use vortex_net.ApiKeyAuth.{Str}
use vortex_net.HttpParser.{
  HttpParser, HttpRequest, Found, is_expecting_body, is_got_all, parse_request, consume_body,
  bytes_remaining, reset,
}
use vortex_net.HttpParser as Parser

-- What the callback is called with. The headers are views into the input buffer: none stands for views
-- whose bytes were retrieved in an earlier message, and may have been overwritten or freed since.
pub record Call : Type 0 where
  pub method : Str
  pub path : Str
  pub headers : Option (List (Str × Str))
  pub body : List ℕ

-- `ConnState`, with the calls of `onRequest_` made for the connection, and whether the head came in the
-- message that is being handled.
pub record ConnState : Type 0 where
  pub parser : HttpParser
  pub body : List ℕ
  pub calls : List Call
  pub views_hold : Bool

-- `onConnection`, for a connection that is up.
abbrev pub on_connection : ConnState
on_connection = record { parser = Parser.new; body = []; calls = []; views_hold = false }

abbrev pub call_of : ConnState → Call
call_of st = record {
  method = st.parser.header.method;
  path = st.parser.header.path;
  headers = if st.views_hold then some st.parser.header.headers else none;
  body = st.body;
}

-- `dispatch`, with `has_callback` for whether `onRequest_` is set.
unfoldable pub dispatch : Bool → ConnState → ConnState
dispatch has_callback st = record {
  parser = reset st.parser;
  body = [];
  calls = if has_callback then st.calls ++ call_of st ∷ [] else st.calls;
  views_hold = false;
}

-- The end of `collectBody`.
abbrev pub dispatch_if_got : Bool → ConnState → ConnState
dispatch_if_got has_callback st = if is_got_all st.parser then dispatch has_callback st else st

unfoldable pub collect_body : Bool → ConnState → List ℕ → ConnState × List ℕ
collect_body has_callback st buf =
    let n = min (bytes_remaining st.parser) (length buf) in
    let (parser, rest) = consume_body st.parser buf n in
    if ltb 0 n
    then (
      dispatch_if_got has_callback (record st { parser = parser; body = st.body ++ take n buf }),
      rest,
    )
    else (dispatch_if_got has_callback st, buf)

-- `onMessage` below a head that was found.
unfoldable pub after_parse : Bool → ConnState → List ℕ → ConnState × List ℕ
after_parse has_callback st buf =
    let n = st.parser.header_len in
    let rest = if ltb 0 n then drop n buf else buf in
    if is_expecting_body st.parser
    then collect_body has_callback st rest
    else (dispatch has_callback st, rest)

unfoldable pub on_message :
    (List ℕ → Found HttpRequest) → Bool → ConnState → List ℕ → ConnState × List ℕ
on_message phr has_callback st buf =
    let (ok, parser, rest) = parse_request phr st.parser buf in
    if is_expecting_body st.parser
    then collect_body has_callback (record st { views_hold = false }) buf
    else (if ok
        then after_parse has_callback (record st { parser = parser; views_hold = true }) rest
        else (record st { parser = parser }, rest))

-- `std::to_string`, on fuel: as many digits as there are units at most.
unfoldable pub to_string_from : ℕ → ℕ → Str → Str
to_string_from zero n s = s
to_string_from (suc k) n s =
    let digit = (48 + n % 10) ∷ s in
    elim (n / 10 == 0) [ true ↦ digit | false ↦ to_string_from k (n / 10) digit ]

abbrev pub to_string : ℕ → Str
to_string n = to_string_from (suc n) n []

-- The table of `respond`, and what stands for a status that it does not hold.
abbrev pub reasons : List (ℕ × Str)
reasons =
    (200, codes "OK")
    ∷ (201, codes "Created")
    ∷ (204, codes "No Content")
    ∷ (400, codes "Bad Request")
    ∷ (401, codes "Unauthorized")
    ∷ (404, codes "Not Found")
    ∷ (405, codes "Method Not Allowed")
    ∷ (500, codes "Internal Server Error")
    ∷ (503, codes "Service Unavailable")
    ∷ []

unfoldable pub find_reason : ℕ → List (ℕ × Str) → Str
find_reason status [] = codes "Unknown"
find_reason status ((s, r) ∷ rs) = if s == status then r else find_reason status rs

abbrev pub crlf : Str
crlf = 13 ∷ 10 ∷ []

-- The headers of the response, and their lines.
unfoldable pub response_headers : Str → Str → List (Str × Str)
response_headers body content_type =
    (codes "Content-Type", content_type)
    ∷ (codes "Content-Length", to_string (length body))
    ∷ (codes "Connection", codes "keep-alive")
    ∷ (codes "Access-Control-Allow-Origin", codes "*")
    ∷ (codes "Access-Control-Allow-Methods", codes "GET, POST, OPTIONS")
    ∷ (codes "Access-Control-Allow-Headers", codes "Content-Type")
    ∷ []

unfoldable pub header_lines : List (Str × Str) → Str
header_lines [] = []
header_lines ((key, val) ∷ hs) = key ++ (codes ": " ++ (val ++ (crlf ++ header_lines hs)))

-- `respond`, as the text that it sends.
unfoldable pub respond : ℕ → Str → Str → Str
respond status body content_type =
    codes "HTTP/1.1 "
    ++ (to_string status
        ++ (codes " "
            ++ (find_reason status reasons
                ++ (crlf
                    ++ (header_lines (response_headers body content_type) ++ (crlf ++ body))))))
