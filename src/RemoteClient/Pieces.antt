-- ===== src/RemoteClient/Pieces.antt =====
-- RemoteClient.cc, `onMessage`: one piece of the body of a response.
use vortex_net.Base.{
  ℕ, ◌+◌, ◌-◌, ◌≤◌, ◌<◌, ◌^◌, ◌≡◌, true, false, List, [], ◌++◌, Option, none, arith, leb, le→leb,
  min, add64, sub64, length, take, drop, take_all, drop_all, length-append,
}
use vortex_net.HttpParser.{
  HttpParser, Found, head, ResponseHead, scan_response, expect_body, parse_response, took_response,
  consume_body, bytes_remaining,
}
use vortex_net.HttpParser as Parser
use vortex_net.HttpContext.{HttpContext, reset}
use vortex_net.RemoteClient.{relay_body}

-- The client's context while its request is out, and once the response is over.
abbrev pub asked : Option ℕ → HttpContext
asked r = record { parser = Parser.new; client = r }

abbrev pub over : HttpContext
over = record { parser = record Parser.new { is_req = false }; client = none }

-- The head of `n` bytes has gone by, and `got` of the `total` bytes of the body.
abbrev pub waiting : Option ℕ → ℕ → ℕ → ℕ → List ℕ → HttpContext
waiting r n status total got = record {
  parser = record Parser.new {
    is_req = false;
    header_len = n;
    resp_status = status;
    content_length = total;
    body_bytes_read = length got;
    state = expect_body;
  };
  client = r;
}

pub relay_body-more :
    (r : Option ℕ) (n status total : ℕ) (got h c : List ℕ)
    → total < 2 ^ 64
    → length got + length c < total
    → relay_body (waiting r n status total got) h c ≡ record {
      context = waiting r n status total (got ++ c);
      to_client = h ++ c;
      returned = false;
      closed = false;
      rest = [];
    }
unfolding relay_body consume_body
relay_body-more r n status total got h c l k =
    let all : min (length c) (sub64 total (length got)) ≡ length c = omega arith in
    let read : add64 (length got) (length c) ≡ length (got ++ c) =
      omega (arith, length-append got c) in
    let short : leb total (length (got ++ c)) ≡ false = ground (arith, length-append got c) in
    rw (all, read, short, take_all (length c) c (omega arith), drop_all (length c) c (omega arith))

pub relay_body-done :
    (r : Option ℕ) (n status total : ℕ) (got h c : List ℕ)
    → total < 2 ^ 64
    → length got < total
    → total ≤ length got + length c
    → relay_body (waiting r n status total got) h c ≡ record {
      context = over;
      to_client = h ++ take (total - length got) c;
      returned = true;
      closed = false;
      rest = drop (total - length got) c;
    }
unfolding relay_body consume_body reset Parser.reset
relay_body-done r n status total got h c l k m =
    let rest = total - length got in
    let part : min (length c) (sub64 total (length got)) ≡ rest = omega arith in
    let read : add64 (length got) rest ≡ total = omega arith in
    rw (part, read, le→leb total total (omega arith))
