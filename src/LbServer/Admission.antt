-- ===== src/LbServer/Admission.antt =====
-- LB_Server.h, `onMessage`: no request reaches a backend unless it passed the checks.
use vortex_net.Base.{ℕ, ◌≡◌, ◌⊎◌, true, false, List, [], ◌∷◌, ◌++◌, some}
use vortex_net.ApiKeyAuth.{authenticate_headers}
use vortex_net.HttpParser.{parse_request}
use vortex_net.HttpContext.{HttpContext, parse_model_name}
use vortex_net.ConnectionPool.{ConnectionPool}
use vortex_net.ServerNode.{InetAddress}
use vortex_net.Selector.{Selector, get_by_hash}
use vortex_net.TokenBucket.{Round}
use vortex_net.LbServer.{
  LbServer, World, Client, Answer, Result, returns, granted, acquire, estimated_tokens, select_llm,
  is_llm_path, is_im_path,
}

-- The request whose head is in the context may go to that backend: one for a model needs a known key,
-- granted tokens and a group for its model, one for the chat a granted token.
pub data Allowed (w : World) (s : LbServer) (ctx : HttpContext) (buf : List ℕ) (rounds : List Round)
    : InetAddress → Type 0 where
  llm_request :
      is_llm_path ctx.parser.header.path ≡ true
      → authenticate_headers s.keys ctx.parser.header.headers ≡ true
      → granted (acquire s.llm_limiter (estimated_tokens ctx) rounds) ≡ some true
      → (q : Selector) → select_llm s (parse_model_name ctx buf) ≡ some q
      → Allowed w s ctx buf rounds (get_by_hash q (w.hash (parse_model_name ctx buf)))
  im_request :
      is_llm_path ctx.parser.header.path ≡ false
      → is_im_path ctx.parser.header.path ≡ true
      → granted (acquire s.im_limiter 1 rounds) ≡ some true
      → Allowed w s ctx buf rounds (get_by_hash s.im_selector (w.hash ctx.parser.header.path))

-- The client is told no, and its connection is closed for writing.
pub record Refused (before : List Answer) (c' : Client) : Type 0 where
  pub answer : Answer
  pub answered : c'.answers ≡ before ++ answer ∷ []
  pub is_shut : c'.is_shut ≡ true

-- What a result holds, if it is one of a handler that returned.
abbrev client_answers : Result → List Answer
client_answers (returns s c b) = c.answers
client_answers _ = []

abbrev result_pool : ConnectionPool → Result → ConnectionPool
result_pool p (returns s c b) = s.pool
result_pool p _ = p

abbrev result_client : Client → Result → Client
result_client d (returns s c b) = c
result_client d _ = d

-- What a handler that parsed a head has done.
abbrev pub Handled :
    World → LbServer → LbServer → List Answer → Client → HttpContext → List ℕ → List Round → Type 0
Handled w s s' before c' ctx buf rounds =
    ((s'.pool ≡ s.pool) × Refused before c')
    ⊎ ((a : InetAddress) × Allowed w s ctx buf rounds a × (c'.answers ≡ before))

abbrev pub parsed_context : World → Client → List ℕ → HttpContext
parsed_context w c buf = record c.context { parser = (parse_request w.phr c.context.parser buf).1 }
