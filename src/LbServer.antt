-- ===== src/LbServer.antt =====
-- Proxy/src/L7/LB_Server.h: the gateway, with its checks, its routes and the requests that it passes on.
pub mod Admission
pub mod Request
pub mod Delivery
mod Tests
use vortex_net.Base.{
  ℕ, zero, suc, ◌/◌, ◌%◌, Bool, true, false, ◌||◌, List, [], ◌∷◌, ◌++◌, Option, none, some, ltb,
  min, max, codes, if◌then◌else◌, length, drop, u32_mod,
}
use vortex_net.ApiKeyAuth.{Str, str_eq, authenticate_headers}
use vortex_net.ApiKeyAuth as Keys
use vortex_net.HttpParser.{
  HttpRequest, Found, is_expecting_body, is_got_all, parse_request, consume_body, bytes_remaining,
}
use vortex_net.HttpContext.{HttpContext, reset, bound_r_client, is_prefix, parse_model_name}
use vortex_net.HttpContext as Context
use vortex_net.RemoteClient.{RemoteClient, bind_client, send_to_backend}
use vortex_net.ConnectionPool.{ConnectionPool, borrow_connection, with_client}
use vortex_net.ServerNode.{ServerNode, InetAddress}
use vortex_net.Selector.{Selector, add_node, get_by_hash}
use vortex_net.TokenBucket.{
  TokenBucket, Round, Outcome, taken, free, refused, spinning, try_acquire, update,
}

-- `pool` is the one of the loop, and `keys` what the authenticator holds.
pub record LbServer : Type 0 where
  pub im_selector : Selector
  pub default_llm_selector : Option Selector
  pub route_table : List (Str × Selector)
  pub keys : List Str
  pub llm_limiter : TokenBucket
  pub im_limiter : TokenBucket
  pub pool : ConnectionPool

-- The code outside: `phr_parse_request`, `std::hash`, `inet_ntop` with the port behind it, `std::stoi`, and
-- the hash of a virtual node.
pub record World : Type 0 where
  pub phr : List ℕ → Found HttpRequest
  pub hash : Str → ℕ
  pub to_ip_port : InetAddress → Str
  pub stoi : Str → Option ℕ
  pub partition : InetAddress → ℕ → ℕ

-- The texts that the gateway itself sends.
pub data Answer : Type 0 where
  unauthorized : Answer
  too_many_requests : Answer
  not_found : Answer

-- A client's connection, by its number.
pub record Client : Type 0 where
  pub id : ℕ
  pub context : HttpContext
  pub answers : List Answer
  pub is_shut : Bool

-- `onConnection`, for a connection that is up.
abbrev pub on_connection : ℕ → Client
on_connection id = record { id = id; context = Context.new; answers = []; is_shut = false }

unfoldable pub find_route : Str → List (Str × Selector) → Option Selector
find_route name [] = none
find_route name ((k, q) ∷ rs) =
    let rest = find_route name rs in if str_eq k name then some q else rest

unfoldable pub set_route : Str → Selector → List (Str × Selector) → List (Str × Selector)
set_route name q [] = (name, q) ∷ []
set_route name q ((k, q') ∷ rs) =
    let rest = set_route name q rs in if str_eq k name then (k, q) ∷ rs else (k, q') ∷ rest

abbrev pub no_selector : Selector
no_selector = record { server_group = []; ring = []; failed_requests = 0 }

abbrev pub or_new : Option Selector → Selector
or_new none = no_selector
or_new (some q) = q

-- `addNode`.
unfoldable pub add_route_node : World → LbServer → Str → ServerNode → LbServer
add_route_node w s name n = record s {
  route_table =
      set_route name (add_node w.partition (or_new (find_route name s.route_table)) n)
        s.route_table;
}

unfoldable pub add_default_llm_node : World → LbServer → ServerNode → LbServer
add_default_llm_node w s n = record s {
  default_llm_selector = some (add_node w.partition (or_new s.default_llm_selector) n);
}

abbrev pub load_keys : LbServer → List Str → LbServer
load_keys s keys = record s { keys = Keys.load keys }

-- `updateRateLimit`, at the time `now`.
unfoldable pub update_rate_limit : LbServer → Str → ℕ → ℕ → ℕ → LbServer
update_rate_limit s name cap rate now =
    if str_eq name (codes "llm")
    then record s { llm_limiter = update s.llm_limiter cap rate now }
    else (if str_eq name (codes "im")
        then record s { im_limiter = update s.im_limiter cap rate now }
        else s)

-- What `tryAcquire` leaves of a bucket, and what it returns; none while it is in its loop.
abbrev pub settled : TokenBucket → Outcome → TokenBucket
settled b (taken cur next) = record b { state = next }
settled b free = b
settled b refused = b
settled b (spinning cur) = b

abbrev pub granted : Outcome → Option Bool
granted (taken cur next) = some true
granted free = some true
granted refused = some false
granted (spinning cur) = none

abbrev pub acquire : TokenBucket → ℕ → List Round → Outcome
acquire b need rounds = try_acquire b.config b.state need rounds

unfoldable pub estimated_tokens : HttpContext → ℕ
estimated_tokens ctx = max 1 (ctx.parser.content_length / 4 % u32_mod)

-- What becomes of a request whose head was parsed.
pub data Verdict : Type 0 where
  passes : InetAddress → Verdict
  rejected : Answer → Verdict
  -- `tryAcquire` is still in its loop.
  stays : Verdict

abbrev pub or_default : Option Selector → Option Selector → Option Selector
or_default none d = d
or_default (some q) d = some q

unfoldable pub select_llm : LbServer → Str → Option Selector
select_llm s name = or_default (find_route name s.route_table) s.default_llm_selector

abbrev pub route_to : World → Option Selector → Str → Verdict
route_to w none name = rejected not_found
route_to w (some q) name = passes (get_by_hash q (w.hash name))

-- The verdict on a request that passes if its tokens are granted.
abbrev pub if_granted : Option Bool → Verdict → Verdict
if_granted none v = stays
if_granted (some false) v = rejected too_many_requests
if_granted (some true) v = v

unfoldable pub admit_llm : World → LbServer → HttpContext → List ℕ → List Round → LbServer × Verdict
admit_llm w s ctx buf rounds =
    let o = acquire s.llm_limiter (estimated_tokens ctx) rounds in
    let name = parse_model_name ctx buf in
    if authenticate_headers s.keys ctx.parser.header.headers
    then (
      record s { llm_limiter = settled s.llm_limiter o },
      if_granted (granted o) (route_to w (select_llm s name) name),
    )
    else (s, rejected unauthorized)

unfoldable pub admit_im : World → LbServer → HttpContext → List Round → LbServer × Verdict
admit_im w s ctx rounds =
    let o = acquire s.im_limiter 1 rounds in
    (
      record s { im_limiter = settled s.im_limiter o },
      if_granted (granted o) (passes (get_by_hash s.im_selector (w.hash ctx.parser.header.path))),
    )

abbrev pub is_llm_path : Str → Bool
is_llm_path path = is_prefix (codes "/v1") path

abbrev pub is_im_path : Str → Bool
is_im_path path = is_prefix (codes "/im") path || is_prefix (codes "/api/im") path

-- The checks of `onMessage`, down to the choice of a backend.
unfoldable pub admit : World → LbServer → HttpContext → List ℕ → List Round → LbServer × Verdict
admit w s ctx buf rounds =
    let path = ctx.parser.header.path in
    if is_llm_path path
    then admit_llm w s ctx buf rounds
    else (if is_im_path path then admit_im w s ctx rounds else (s, rejected not_found))

pub data Result : Type 0 where
  -- The handler returns, and leaves that in the buffer.
  returns : LbServer → Client → List ℕ → Result
  -- It reads through the null pointer that `getClient` gave.
  null_client : Result
  -- `std::stoi` throws on the port of the backend's address.
  bad_target : Result
  -- It is still in the loop of `tryAcquire`.
  spins : Result

-- A call of `sendToBackend` of the backend r.
abbrev pub send : ConnectionPool → ℕ → List ℕ → ℕ → ConnectionPool
send p r buf n = with_client p r (send_to_backend (p.clients r) buf n)

abbrev pub reset_if_got : HttpContext → HttpContext
reset_if_got ctx = if is_got_all ctx.parser then reset ctx else ctx

-- The branch of `onMessage` that expects a body.
unfoldable pub relay_request : LbServer → Client → List ℕ → Result
relay_request s c buf = elim c.context.client [
  | none ↦ null_client
  | some r ↦
      let n = min (length buf) (bytes_remaining c.context.parser) in
      let (parser, rest) = consume_body c.context.parser buf n in
      returns (record s { pool = send s.pool r buf n })
        (record c { context = reset_if_got (record c.context { parser = parser }) }) rest
]

-- The part of a body that came with the head.
unfoldable pub relay_rest : LbServer → Client → ℕ → List ℕ → Result
relay_rest s c r buf =
    let n = min (length buf) (bytes_remaining c.context.parser) in
    let (parser, rest) = consume_body c.context.parser buf n in
    if ltb 0 n
    then returns (record s { pool = send s.pool r buf n })
        (record c { context = reset_if_got (record c.context { parser = parser }) }) rest
    else returns s (record c { context = reset_if_got c.context }) buf

-- The end of `onMessage`, with a backend that was borrowed.
unfoldable pub forward_to : LbServer → Client → ℕ → ConnectionPool → List ℕ → Result
forward_to s c r pool buf =
    let bound = with_client pool r (bind_client (pool.clients r) c.id) in
    let n = c.context.parser.header_len in
    relay_rest (record s { pool = send bound r buf n })
      (record c { context = bound_r_client c.context r }) r (if ltb 0 n then drop n buf else buf)

unfoldable pub forward : World → LbServer → Client → InetAddress → List ℕ → Result
forward w s c addr buf = elim (borrow_connection w.stoi s.pool (w.to_ip_port addr)) [
  | none ↦ bad_target
  | some (r, pool) ↦ forward_to s c r pool buf
]

abbrev pub reject : Client → Answer → Client
reject c a = record c { answers = c.answers ++ a ∷ []; is_shut = true }

abbrev pub carry_out : World → LbServer × Verdict → Client → List ℕ → Result
carry_out w (s, passes addr) c buf = forward w s c addr buf
carry_out w (s, rejected a) c buf = returns s (reject c a) buf
carry_out w (s, stays) c buf = spins

unfoldable pub on_message : World → LbServer → Client → List ℕ → List Round → Result
on_message w s c buf rounds =
    let (ok, parser, rest) = parse_request w.phr c.context.parser buf in
    let ctx = record c.context { parser = parser } in
    let c' = record c { context = ctx } in
    if is_expecting_body c.context.parser
    then relay_request s c buf
    else (if ok then carry_out w (admit w s ctx rest rounds) c' rest else returns s c' rest)
