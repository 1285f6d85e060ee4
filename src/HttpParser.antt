-- ===== src/HttpParser.antt =====
-- Http/HttpParser.h and HttpParser.cc: the heads of requests and responses, and how much of a body is
-- still to come. The buffer is the list of its readable bytes. picohttpparser is an argument: what its
-- two functions find at the front of the bytes.
pub mod Lengths
mod Tests
use vortex_net.Base.{
  ℕ, zero, suc, ◌+◌, ◌-◌, ◌*◌, ◌%◌, ◌^◌, Bool, true, false, ◌&&◌, ◌||◌, List, [], ◌∷◌, Option, none,
  some, ltb, leb, ◌==◌, if◌then◌else◌, length, drop, add64, sub64,
}
use vortex_net.ApiKeyAuth.{Str, equals_ignore_case}

-- The method and the path are copies. In the source the headers are views into the input buffer: these
-- are the strings that they stand for while the message that brought the head is handled, and they
-- are read here in that message only.
pub record HttpRequest : Type 0 where
  pub method : Str
  pub path : Str
  pub headers : List (Str × Str)

abbrev pub no_request : HttpRequest
no_request = record { method = []; path = []; headers = [] }

-- `HttpParser::State`.
pub data State : Type 0 where
  expect_headers : State
  expect_body : State
  got_all : State

pub record HttpParser : Type 0 where
  pub header : HttpRequest
  -- The member `got_all_`, which nothing reads.
  pub done : Bool
  pub header_len : ℕ
  pub resp_status : ℕ
  pub resp_is_chunked : Bool
  pub content_length : ℕ
  pub body_bytes_read : ℕ
  pub state : State
  pub is_req : Bool

abbrev pub new : HttpParser
new = record {
  header = no_request;
  done = false;
  header_len = 0;
  resp_status = 0;
  resp_is_chunked = false;
  content_length = 0;
  body_bytes_read = 0;
  state = expect_headers;
  is_req = true;
}

abbrev pub is_expecting_body : HttpParser → Bool
is_expecting_body p = elim p.state [ expect_body ↦ true | _ ↦ false ]

abbrev pub is_got_all : HttpParser → Bool
is_got_all p = elim p.state [ got_all ↦ true | _ ↦ false ]

-- What `phr_parse_request` gives: the number of bytes of the head with what is in it, -2, or -1.
pub data Found (A : Type 0) : Type 0 where
  head : ℕ → A → Found A
  partial : Found A
  failed : Found A

pub record ResponseHead : Type 0 where
  pub status : ℕ
  pub headers : List (Str × Str)

-- `content-length`, `transfer-encoding` and `chunked`.
abbrev pub content_length_name : Str
content_length_name =
    99 ∷ 111 ∷ 110 ∷ 116 ∷ 101 ∷ 110 ∷ 116 ∷ 45 ∷ 108 ∷ 101 ∷ 110 ∷ 103 ∷ 116 ∷ 104 ∷ []

abbrev pub transfer_encoding_name : Str
transfer_encoding_name =
    116 ∷ 114 ∷ 97 ∷ 110 ∷ 115 ∷ 102 ∷ 101 ∷ 114 ∷ 45 ∷ 101 ∷ 110 ∷ 99 ∷ 111 ∷ 100 ∷ 105 ∷ 110 ∷ 103
    ∷ []

abbrev pub chunked_name : Str
chunked_name = 99 ∷ 104 ∷ 117 ∷ 110 ∷ 107 ∷ 101 ∷ 100 ∷ []

-- `std::from_chars` into a `size_t`: the digits at the front, if there are any and they fit.
abbrev pub is_digit : ℕ → Bool
is_digit c = leb 48 c && leb c 57

unfoldable pub digits : Str → ℕ → ℕ
digits [] n = n
digits (c ∷ s) n = let more = digits s (n * 10 + (c - 48)) in if is_digit c then more else n

unfoldable pub from_chars : Str → Option ℕ
from_chars [] = none
from_chars (c ∷ s) =
    let n = digits (c ∷ s) 0 in if is_digit c && ltb n (2 ^ 64) then some n else none

-- On failure the variable keeps what it held.
abbrev pub or_else : Option ℕ → ℕ → ℕ
or_else none old = old
or_else (some n) old = n

abbrev pub read_length : Str → ℕ → ℕ
read_length val old = or_else (from_chars val) old

abbrev pub is_content_length : Str → Bool
is_content_length key = equals_ignore_case key content_length_name

abbrev pub is_chunked_coding : Str → Str → Bool
is_chunked_coding key val =
    equals_ignore_case key transfer_encoding_name && equals_ignore_case val chunked_name

-- The loops over the headers, from their variables `has_body`, `content_length` and `is_chunked` on.
unfoldable pub scan_request : List (Str × Str) → Bool → ℕ → Bool × ℕ
scan_request [] has_body length = (has_body, length)
scan_request ((key, val) ∷ hs) has_body length =
    let length' = if is_content_length key then read_length val length else length in
    let has_body' = if is_content_length key then ltb 0 length' else has_body in
    scan_request hs has_body' length'

pub record Response : Type 0 where
  pub has_body : Bool
  pub length : ℕ
  pub is_chunked : Bool

unfoldable pub scan_response : List (Str × Str) → Response → Response
scan_response [] r = r
scan_response ((key, val) ∷ hs) r =
    let length' = if is_content_length key then read_length val r.length else r.length in
    let chunked = is_chunked_coding key val in
    scan_response hs (record {
      has_body = r.has_body || (is_content_length key && ltb 0 length') || chunked;
      length = length';
      is_chunked = r.is_chunked || chunked;
    })

-- The parser after a head: a body comes next, or all is there.
abbrev pub expecting : Bool → HttpParser → HttpParser
expecting has_body p = record p {
  state = if has_body then expect_body else got_all;
  done = if has_body then false else true;
}

unfoldable pub took_request : HttpParser → ℕ → HttpRequest → HttpParser
took_request p n req =
    let (has_body, length) = scan_request req.headers false 0 in
    expecting has_body (record p {
      is_req = true;
      header_len = n;
      header = req;
      content_length = if has_body then length else p.content_length;
    })

-- `parseRequest`, with its answer and the buffer, which an error empties.
unfoldable pub parse_request :
    (List ℕ → Found HttpRequest) → HttpParser → List ℕ → Bool × HttpParser × List ℕ
parse_request phr p buf = elim (phr buf) [
  | head n req ↦
      if ltb 0 n then (true, took_request p n req, buf) else (false, record p { is_req = true }, [])
  | partial ↦ (false, record p { is_req = true; done = false }, buf)
  | failed ↦ (false, record p { is_req = true }, [])
]

unfoldable pub took_response : HttpParser → ℕ → ResponseHead → HttpParser
took_response p n resp =
    let r =
      scan_response resp.headers (record { has_body = false; length = 0; is_chunked = false }) in
    expecting r.has_body (record p {
      is_req = false;
      header_len = n;
      resp_status = resp.status;
      content_length = r.length;
      resp_is_chunked = r.is_chunked;
    })

-- `parseResponse`; the buffer stays as it is.
unfoldable pub parse_response :
    (List ℕ → Found ResponseHead) → HttpParser → List ℕ → Bool × HttpParser
parse_response phr p buf = elim (phr buf) [
  | head n resp ↦
      if ltb 0 n then (true, took_response p n resp) else (false, record p { is_req = false })
  | partial ↦ (false, record p { is_req = false; done = false })
  | failed ↦ (false, record p { is_req = false })
]

unfoldable pub retrieve_header : HttpParser → List ℕ → List ℕ
retrieve_header p buf = if ltb 0 p.header_len then drop p.header_len buf else buf

unfoldable pub consume_body : HttpParser → List ℕ → ℕ → HttpParser × List ℕ
consume_body p buf n =
    let read = add64 p.body_bytes_read n in
    (
      if leb p.content_length read
          then record p { body_bytes_read = read; state = got_all; done = true }
          else record p { body_bytes_read = read },
      drop n buf,
    )

abbrev pub bytes_remaining : HttpParser → ℕ
bytes_remaining p = sub64 p.content_length p.body_bytes_read

unfoldable pub reset : HttpParser → HttpParser
reset p = record p {
  header = no_request;
  done = false;
  body_bytes_read = 0;
  header_len = 0;
  content_length = 0;
  resp_is_chunked = false;
  resp_status = 0;
  state = expect_headers;
}
