-- ===== src/RemoteClient.antt =====
-- Proxy/src/L7/RemoteClient.h and RemoteClient.cc: the gateway's side of one connection to a backend. The
-- pool has set both callbacks.
pub mod Pieces
pub mod Response
mod Tests
use vortex_net.Base.{
  ℕ, zero, suc, Bool, true, false, not, ◌&&◌, ◌||◌, List, [], ◌∷◌, ◌++◌, Option, none, some, ltb,
  min, if◌then◌else◌, length, take, drop,
}
use vortex_net.ApiKeyAuth.{Str}
use vortex_net.HttpParser.{
  HttpParser, Found, ResponseHead, is_expecting_body, is_got_all, parse_response, consume_body,
  bytes_remaining,
}
use vortex_net.HttpContext.{HttpContext, reset, is_prefix}

-- `up`: whether the TcpClient holds its connection, whose bytes are `sent`. `client_conn` is the number of
-- the client's connection, and `disconnected` whether `TcpClient::disconnect` was called: a connection
-- that is up is then in `kDisconnecting`.
pub record RemoteClient : Type 0 where
  pub server_ip : Str
  pub server_port : ℕ
  pub up : Bool
  pub sent : List ℕ
  pub pending_buffer : List ℕ
  pub client_conn : Option ℕ
  pub is_busy : Bool
  pub disconnected : Bool

-- After `connect`; the pool sets `is_busy` at once.
abbrev pub new : Str → ℕ → RemoteClient
new ip port = record {
  server_ip = ip;
  server_port = port;
  up = false;
  sent = [];
  pending_buffer = [];
  client_conn = none;
  is_busy = false;
  disconnected = false;
}

abbrev pub bind_client : RemoteClient → ℕ → RemoteClient
bind_client r conn = record r { client_conn = some conn; is_busy = true }

abbrev pub unbind : RemoteClient → RemoteClient
unbind r = record r { client_conn = none; is_busy = false }

abbrev pub set_busy : RemoteClient → Bool → RemoteClient
set_busy r b = record r { is_busy = b }

abbrev pub clear_pending_buffer : RemoteClient → RemoteClient
clear_pending_buffer r = record r { pending_buffer = [] }

abbrev pub force_close : RemoteClient → RemoteClient
force_close r = record r { disconnected = true }

-- `sendToBackend`, of the first n bytes of a buffer, which keeps them. `TcpClient::send` is true
-- whenever there is a connection, and `TcpConnection::send` drops the bytes of one that was shut down.
unfoldable pub send_to_backend : RemoteClient → List ℕ → ℕ → RemoteClient
send_to_backend r buf n =
    if r.up
    then if r.disconnected then r else record r { sent = r.sent ++ take n buf }
    else record r { pending_buffer = r.pending_buffer ++ take n buf }

-- `onConnection` of a new connection, with whether the client's connection is still there. The TcpClient
-- calls it before it keeps the connection. A `disconnect` before did not reach this connection.
unfoldable pub on_connected : RemoteClient → Bool → RemoteClient
on_connected r client_lives =
    if client_lives && ltb 0 (length r.pending_buffer)
    then record r {
      up = true;
      disconnected = false;
      sent = r.sent ++ r.pending_buffer;
      pending_buffer = [];
    }
    else record r { up = true; disconnected = false }

-- `onConnection` of a lost connection: whether the client is sent the 502 and shut down.
unfoldable pub answers_bad_gateway : RemoteClient → Bool → Bool
answers_bad_gateway r client_lives = r.is_busy && client_lives

-- What `onMessage` does: the client's context, the bytes for the client, whether the backend is given back
-- to the pool, whether it is disconnected, and what is left in the buffer.
pub record Relay : Type 0 where
  pub context : HttpContext
  pub to_client : List ℕ
  pub returned : Bool
  pub closed : Bool
  pub rest : List ℕ

-- The last chunk, `0` and two line ends.
abbrev pub zero_chunk : Str
zero_chunk = 48 ∷ 13 ∷ 10 ∷ 13 ∷ 10 ∷ []

unfoldable pub has_zero_chunk : List ℕ → Bool
has_zero_chunk [] = is_prefix zero_chunk []
has_zero_chunk (c ∷ s) = is_prefix zero_chunk (c ∷ s) || has_zero_chunk s

-- The context is reset, and the backend returned, if the response is over.
abbrev pub finish_if : Bool → HttpContext → List ℕ → List ℕ → Relay
finish_if over ctx bytes rest = record {
  context = if over then reset ctx else ctx;
  to_client = bytes;
  returned = over;
  closed = false;
  rest = rest;
}

-- A piece of a body of known length.
unfoldable pub relay_body : HttpContext → List ℕ → List ℕ → Relay
relay_body ctx head buf =
    let n = min (length buf) (bytes_remaining ctx.parser) in
    let (parser, rest) = consume_body ctx.parser buf n in
    finish_if (is_got_all parser) (record ctx { parser = parser }) (head ++ take n buf) rest

-- A piece of a chunked body: all that is there goes out.
unfoldable pub relay_chunks : HttpContext → List ℕ → List ℕ → Relay
relay_chunks ctx head buf = finish_if (has_zero_chunk buf) ctx (head ++ buf) []

abbrev pub unchanged : HttpContext → List ℕ → Relay
unchanged ctx buf = record {
  context = ctx;
  to_client = [];
  returned = false;
  closed = false;
  rest = buf;
}

-- Behind the head that was parsed: the head goes out, and what came with it.
unfoldable pub relay_after_head : HttpContext → List ℕ → Relay
relay_after_head ctx buf =
    let n = ctx.parser.header_len in
    let rest = if ltb 0 n then drop n buf else buf in
    let m = min (length rest) (bytes_remaining ctx.parser) in
    if ctx.parser.resp_is_chunked
    then relay_chunks ctx (take n buf) rest
    else (if ltb 0 m
        then relay_body ctx (take n buf) rest
        else finish_if (is_got_all ctx.parser) ctx (take n buf) rest)

-- `onMessage` for the context of a client that is waiting.
unfoldable pub relay_response : (List ℕ → Found ResponseHead) → HttpContext → List ℕ → Relay
relay_response phr ctx buf =
    let (ok, parser) = parse_response phr ctx.parser buf in
    if is_expecting_body ctx.parser
    then (if ctx.parser.resp_is_chunked
        then relay_chunks ctx [] buf
        else (if is_got_all ctx.parser then unchanged ctx buf else relay_body ctx [] buf))
    else (if ok
        then relay_after_head (record ctx { parser = parser }) buf
        else unchanged (record ctx { parser = parser }) buf)

abbrev pub orphaned : HttpContext → List ℕ → Relay
orphaned ctx buf = record {
  context = ctx;
  to_client = [];
  returned = false;
  closed = true;
  rest = buf;
}

-- `onMessage`, with whether the client's connection, whose context is `ctx`, is still there.
unfoldable pub on_message :
    (List ℕ → Found ResponseHead) → RemoteClient → Bool → HttpContext → List ℕ → Relay
on_message phr r client_lives ctx buf =
    if client_lives && r.is_busy then relay_response phr ctx buf else orphaned ctx buf
