-- ===== src/LbServer/Tests.antt =====
-- Runs of the gateway, and its theorems at concrete inputs.
use vortex_net.Base.{
  ◌<◌, ◌≡◌, refl, true, false, List, [], ◌∷◌, ◌++◌, none, some, arith, codes, length, take, drop,
  ◌^◌,
}
use vortex_net.ApiKeyAuth.{Str, equals_ignore_case}
use vortex_net.HttpParser.{
  HttpRequest, HttpParser, head, parse_request, took_request, scan_request, from_chars, digits,
  is_expecting_body,
}
use vortex_net.HttpParser as Parser
use vortex_net.HttpParser.Lengths.{after_head, body_length}
use vortex_net.HttpContext.{HttpContext, is_prefix}
use vortex_net.RemoteClient as Remote
use vortex_net.ConnectionPool.{
  ConnectionPool, borrow_connection, make_client, pop_back, split_target, rfind_colon, set_client,
}
use vortex_net.Selector.{no_server, get_by_hash, find_entry, lower_bound}
use vortex_net.TokenBucket.{
  TokenBucket, Round, try_acquire, acquire_loop, attempt, settle, produced,
}
use vortex_net.LbServer.{
  LbServer, World, Client, on_connection, unauthorized, no_selector, passes, null_client, admit,
  admit_im, relay_request, reject, on_message,
}
use vortex_net.LbServer.Admission.{parsed_context}
use vortex_net.LbServer.Request.{delivered}
use vortex_net.LbServer.Delivery.{Step, message, connects, feed, Arrived, Completes, feed-delivered}

abbrev post : Str → HttpRequest
post path = record {
  method = codes "POST";
  path = path;
  headers = (codes "Content-Length", codes "3") ∷ [];
}

-- A head of two bytes.
abbrev world : Str → World
world path = record {
  phr = λ b. head 2 (post path);
  hash = length;
  to_ip_port = λ a. codes "10.0.0.1:80";
  stoi = λ s. some 80;
  partition = λ a i. i;
}

abbrev empty_pool : ConnectionPool
empty_pool = record { clients = λ r. Remote.new [] 0; next = 0; idle_map = λ t. [] }

abbrev bucket : TokenBucket
bucket = record {
  config = record { capacity = 10; refill_rate = 1000 };
  state = record { timestamp_ms = 5; tokens = 10 };
}

abbrev server : LbServer
server = record {
  im_selector = no_selector;
  default_llm_selector = none;
  route_table = [];
  keys = codes "key" ∷ [];
  llm_limiter = bucket;
  im_limiter = bucket;
  pool = empty_pool;
}

abbrev rounds : List Round
rounds = record { now = 5; found = none } ∷ []

abbrev no_key : Client
no_key =
    reject
      (record (on_connection 3) {
        context = parsed_context (world (codes "/v1/chat")) (on_connection 3) (codes "hh");
      })
      unauthorized

null_read : on_message (world (codes "/v1/chat")) server no_key (codes "hhb") rounds ≡ null_client
unfolding on_message relay_request parse_request took_request scan_request equals_ignore_case
    from_chars digits
null_read = refl

abbrev charged : LbServer
charged = record server {
  im_limiter = record bucket { state = record { timestamp_ms = 5; tokens = 9 } };
}

abbrev chat : World
chat = world (codes "/im/send")

abbrev request : HttpRequest
request = post (codes "/im/send")

abbrev client : Client
client = on_connection 3

abbrev at_head : HttpContext
at_head = record {
  parser = after_head (record Parser.new { is_req = true }) 2 request (body_length request);
  client = none;
}

admitted : admit chat server at_head (codes "hha") rounds ≡ (charged, passes no_server)
unfolding admit admit_im equals_ignore_case from_chars digits is_prefix try_acquire acquire_loop
    attempt settle produced get_by_hash find_entry lower_bound
admitted = refl

abbrev lent : ConnectionPool
lent = make_client empty_pool (codes "10.0.0.1") 80

borrowed : borrow_connection (λ s. some 80) empty_pool (codes "10.0.0.1:80") ≡ some (0, lent)
unfolding borrow_connection pop_back split_target rfind_colon
borrowed = refl

short_body : body_length request < 2 ^ 64
unfolding equals_ignore_case from_chars digits
short_body = omega arith

not_up : (lent.clients 0).up ≡ false
unfolding set_client
not_up = refl

-- The backend comes up between the two halves of the body.
abbrev steps : List Step
steps = message (codes "b") ∷ connects ∷ message (codes "c") ∷ []

complete : Completes (body_length request) (codes "a") steps
unfolding equals_ignore_case from_chars digits
complete = (omega arith, (omega arith, omega arith))

feed-delivered_example :
    Arrived client 0
      ((delivered (lent.clients 0) ++ codes "hh") ++ take (body_length request) (codes "abc"))
      (drop (body_length request) (codes "abc"))
      (feed chat 0 (on_message chat server client (codes "hha") rounds) steps)
feed-delivered_example =
    feed-delivered chat server charged client none true (codes "hh") (codes "a") request rounds
      no_server 0 lent (omega arith) refl admitted borrowed steps (λ u. absurd (cc (u, not_up)))
      short_body complete
