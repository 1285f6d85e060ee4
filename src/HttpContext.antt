-- ===== src/HttpContext.antt =====
-- Proxy/src/L7/HttpContext.h and HttpContext.cc: the parser of a client's connection, the backend it is
-- bound to, and the name of the model in a body. The calls that only pass on to the parser are made of it
-- directly.
mod Tests
use vortex_net.Base.{
  ℕ, zero, suc, ◌+◌, ◌-◌, Bool, true, false, ◌&&◌, List, [], ◌∷◌, Option, none, some, ◌==◌, codes,
  if◌then◌else◌, slice, drop,
}
use vortex_net.ApiKeyAuth.{Str}
use vortex_net.HttpParser.{HttpParser}
use vortex_net.HttpParser as Parser

-- `client` is the number of the RemoteClient that `client_` points to.
pub record HttpContext : Type 0 where
  pub parser : HttpParser
  pub client : Option ℕ

abbrev pub new : HttpContext
new = record { parser = Parser.new; client = none }

-- `reset`: the backend is let go of only if the parser's last message was a response.
unfoldable pub reset : HttpContext → HttpContext
reset c = record {
  parser = Parser.reset c.parser;
  client = if c.parser.is_req then c.client else none;
}

abbrev pub bound_r_client : HttpContext → ℕ → HttpContext
bound_r_client c r = record c { client = some r }

-- `std::string_view::find`: the first place, from `pos` on, at which the text stands.
unfoldable pub is_prefix : Str → Str → Bool
is_prefix [] s = true
is_prefix (x ∷ xs) [] = false
is_prefix (x ∷ xs) (y ∷ ys) = (x == y) && is_prefix xs ys

abbrev pub shift : ℕ → Option ℕ → Option ℕ
shift n none = none
shift n (some i) = some (n + i)

unfoldable pub find : Str → Str → Option ℕ
find needle [] = if is_prefix needle [] then some 0 else none
find needle (c ∷ s) =
    let rest = find needle s in if is_prefix needle (c ∷ s) then some 0 else shift 1 rest

abbrev pub find_from : Str → Str → ℕ → Option ℕ
find_from needle s pos = shift pos (find needle (drop pos s))

-- `"model"`, `:` and `"`.
abbrev pub model_key : Str
model_key = 34 ∷ 109 ∷ 111 ∷ 100 ∷ 101 ∷ 108 ∷ 34 ∷ []

abbrev pub colon : Str
colon = 58 ∷ []

abbrev pub quote : Str
quote = 34 ∷ []

infixl 5 ◌>>=◌
abbrev ◌>>=◌ {ℓ κ} : {A : Type ℓ} {B : Type κ} → Option A → (A → Option B) → Option B
none >>= f = none
some a >>= f = f a

-- The four searches of `parseModelName` in the body.
unfoldable pub model_name : Str → Option Str
model_name body = do
  pos ← find model_key body
  colon_pos ← find_from colon body pos
  start_quote ← find_from quote body colon_pos
  end_quote ← find_from quote body (start_quote + 1)
  some (slice (start_quote + 1) (end_quote - start_quote - 1) body)

abbrev pub or_empty : Option Str → Str
or_empty none = []
or_empty (some s) = s

-- `parseModelName`, of a buffer that begins with the head.
unfoldable pub parse_model_name : HttpContext → List ℕ → Str
parse_model_name c buf = or_empty (model_name (drop c.parser.header_len buf))
