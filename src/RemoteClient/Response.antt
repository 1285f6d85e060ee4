-- ===== src/RemoteClient/Response.antt =====
-- RemoteClient.cc, `onMessage`: a response of known length is passed on whole, and then the backend is
-- given back.
use vortex_net.Base.{
  ℕ, suc, ◌+◌, ◌-◌, ◌≤◌, ◌<◌, ◌^◌, ◌≡◌, refl, sym, ◌∙◌, ap, inl, inr, true, false, List, [], ◌∷◌,
  ◌++◌, Option, arith, ltb, lt→ltb, min, sub64, Bool-cases, length, take, drop, take-append,
  drop-append, length-append, append-nil, append_assoc, if◌then◌else◌,
}
use vortex_net.ApiKeyAuth.{Str}
use vortex_net.HttpParser.{
  HttpParser, Found, head, ResponseHead, scan_response, expect_body, parse_response, took_response,
  consume_body, bytes_remaining,
}
use vortex_net.HttpParser as Parser
use vortex_net.HttpServer.Bodies.{Completes, concat, take-append_ge, drop-append_ge}
use vortex_net.HttpContext.{HttpContext, reset}
use vortex_net.RemoteClient.Pieces.{asked, over, waiting, relay_body-more, relay_body-done}
use vortex_net.RemoteClient.{
  RemoteClient, Relay, on_message, relay_response, relay_after_head, relay_body,
}

-- What the messages of a response have done so far.
pub record Exchange : Type 0 where
  pub context : HttpContext
  pub to_client : List ℕ
  pub returns : ℕ
  pub rest : List ℕ

abbrev pub extend : Exchange → Relay → Exchange
extend x y = record {
  context = y.context;
  to_client = x.to_client ++ y.to_client;
  returns = if y.returned then suc x.returns else x.returns;
  rest = y.rest;
}

-- The messages from the backend: each chunk comes in behind what is left in the buffer.
unfoldable pub feed :
    (List ℕ → Found ResponseHead) → RemoteClient → Exchange → List (List ℕ) → Exchange
feed phr rc x [] = x
feed phr rc x (c ∷ cs) = feed phr rc (extend x (on_message phr rc true x.context (x.rest ++ c))) cs

abbrev pub begun : Option ℕ → Exchange
begun r = record { context = asked r; to_client = []; returns = 0; rest = [] }

-- The response of the head `h` and the body that is the first `total` of `bytes` was passed on.
abbrev pub passed_on : ℕ → List ℕ → List ℕ → Exchange
passed_on total h bytes = record {
  context = over;
  to_client = h ++ take total bytes;
  returns = 1;
  rest = drop total bytes;
}

abbrev half : Option ℕ → ℕ → ℕ → ℕ → List ℕ → List ℕ → Exchange
half r n status total h got = record {
  context = waiting r n status total got;
  to_client = h ++ got;
  returns = 0;
  rest = [];
}

module _ (phr : List ℕ → Found ResponseHead) (rc : RemoteClient) (busy : rc.is_busy ≡ true)
    (r : Option ℕ) (n status total : ℕ) (small : total < 2 ^ 64) (h : List ℕ) where
  on_message-waiting :
      (got c : List ℕ)
      → on_message phr rc true (waiting r n status total got) c
        ≡ relay_body (waiting r n status total got) [] c
  unfolding on_message relay_response
  on_message-waiting got c = rw busy

  feed-more :
      (got c : List ℕ) (cs : List (List ℕ))
      → length got < total
      → Completes total (got ++ c) cs
      → feed phr rc
          (extend (half r n status total h got) (relay_body (waiting r n status total got) [] c))
          cs
        ≡ passed_on total h (got ++ concat (c ∷ cs))
  unfolding feed
  feed-more got c [] l k =
      let e : c ++ [] ≡ c = append-nil c in
      let m : total ≤ length got + length c = omega (arith, k, length-append got c) in
      rw (
        e,
        relay_body-done r n status total got [] c small l m,
        take-append_ge total got c (omega arith),
        drop-append_ge total got c (omega arith),
        append_assoc h got (take (total - length got) c),
      )
  feed-more got c (d ∷ cs) l k =
      let e : got ++ (c ++ concat (d ∷ cs)) ≡ (got ++ c) ++ concat (d ∷ cs) =
        sym (append_assoc got c (concat (d ∷ cs))) in
      ap (λ y. feed phr rc (extend (half r n status total h got) y) (d ∷ cs))
        (relay_body-more r n status total got [] c small (omega (arith, k.0, length-append got c)))
      ∙ ap
          (λ z.
            feed phr rc
              (record {
                context = waiting r n status total (got ++ c);
                to_client = z;
                returns = 0;
                rest = [];
              })
              (d ∷ cs))
          (append_assoc h got c)
      ∙ ap (λ y. feed phr rc (extend (half r n status total h (got ++ c)) y) cs)
          (on_message-waiting (got ++ c) d)
      ∙ feed-more (got ++ c) d cs k.0 k.1
      ∙ ap (passed_on total h) (sym e)

abbrev no_headers : Parser.Response
no_headers = record { has_body = false; length = 0; is_chunked = false }

-- The headers announce a body of that length, if it is not 0, and are not of a chunked one.
abbrev pub Announces : List (Str × Str) → ℕ → Type 0
Announces hs total =
    scan_response hs no_headers
    ≡ record { has_body = ltb 0 total; length = total; is_chunked = false }

module _ (phr : List ℕ → Found ResponseHead) (rc : RemoteClient) (busy : rc.is_busy ≡ true)
    (r : Option ℕ) (h b : List ℕ) (resp : ResponseHead) (total : ℕ)
    (found : phr (h ++ b) ≡ head (length h) resp) (some_head : 0 < length h)
    (announces : Announces resp.headers total) (small : total < 2 ^ 64) where
  abbrev after : HttpContext
  after = record { parser = took_response Parser.new (length h) resp; client = r }

  parse-head :
      parse_response phr Parser.new (h ++ b) ≡ (true, took_response Parser.new (length h) resp)
  unfolding parse_response
  parse-head = rw (found, parse_response) (rw (lt→ltb 0 (length h) some_head))

  on_message-head : on_message phr rc true (asked r) (h ++ b) ≡ relay_after_head after (h ++ b)
  unfolding on_message relay_response
  on_message-head = rw (busy, parse-head)

  after-waiting : 0 < total → after ≡ waiting r (length h) resp.status total []
  unfolding took_response
  after-waiting p = rw announces (rw (lt→ltb 0 total p))

  with_head :
      (ctx : HttpContext) (c : List ℕ)
      → extend (begun r) (relay_body ctx h c)
        ≡ extend (half r (length h) resp.status total h []) (relay_body ctx [] c)
  unfolding relay_body
  with_head ctx c = rw (append-nil h)

  behind_head :
      (c : List ℕ)
      → c ≡ b
      → 0 < total
      → extend (begun r) (relay_after_head (waiting r (length h) resp.status total []) (h ++ c))
        ≡ extend
            (half r (length h) resp.status total h [])
            (relay_body (waiting r (length h) resp.status total []) [] c)
  unfolding relay_after_head
  behind_head [] e p =
      let z : ltb 0 (min 0 (sub64 total 0)) ≡ false = ground arith in
      rw (lt→ltb 0 (length h) some_head, drop-append h [], take-append h [], z)
        (sym (
          ap (extend (half r (length h) resp.status total h []))
            (relay_body-more r (length h) resp.status total [] [] [] small p)
          ∙ rw (append-nil h, append-nil h)))
  behind_head (x ∷ xs) e p =
      let c = x ∷ xs in
      let m : ltb 0 (min (length c) (sub64 total 0)) ≡ true =
        lt→ltb 0 (min (length c) (sub64 total 0)) (omega arith) in
      rw (lt→ltb 0 (length h) some_head, drop-append h c, take-append h c, m)
        (with_head (waiting r (length h) resp.status total []) c)

  -- The head announced no body.
  abbrev headed : HttpContext
  headed = record {
    parser = record Parser.new {
      is_req = false;
      header_len = length h;
      resp_status = resp.status;
      state = Parser.got_all;
      done = true;
    };
    client = r;
  }

  after-headed : total ≡ 0 → after ≡ headed
  unfolding took_response
  after-headed z = rw announces (rw z)

  nothing_more :
      (c : List ℕ) → extend (begun r) (relay_after_head headed (h ++ c)) ≡ passed_on 0 h c
  unfolding relay_after_head reset Parser.reset
  nothing_more c =
      let z : min (length c) 0 ≡ 0 = omega arith in
      rw (lt→ltb 0 (length h) some_head, drop-append h c, take-append h c, z, append-nil h)

  no_body :
      (cs : List (List ℕ))
      → total ≡ 0
      → Completes total b cs
      → feed phr rc (extend (begun r) (on_message phr rc true (asked r) (h ++ b))) cs
        ≡ passed_on total h (b ++ concat cs)
  unfolding feed
  no_body [] z k =
      ap (extend (begun r))
        (on_message-head ∙ ap (λ x. relay_after_head x (h ++ b)) (after-headed z))
      ∙ nothing_more b
      ∙ rw (z, append-nil b)
  no_body (c ∷ cs) z k = absurd (omega (arith, k.0))

  -- Of a response of known length, whose head is found as the first message comes in, to a client that is
  -- still there: if the chunks complete the body, the client is sent exactly the head and the body that the
  -- head announces, in order, wherever the bytes are cut; the backend is given back once, and the client's
  -- context is bound to no backend and ready for the next request. What came behind the body stays in the
  -- buffer.
  pub feed-passed_on :
      (cs : List (List ℕ))
      → Completes total b cs
      → feed phr rc (begun r) ((h ++ b) ∷ cs) ≡ passed_on total h (b ++ concat cs)
  unfolding feed
  feed-passed_on cs k = elim (Bool-cases (ltb 0 total)) [
    | inr e ↦ no_body cs (ground (arith, e)) k
    | inl e ↦
        let p : 0 < total = ground (arith, e) in
        ap (λ y. feed phr rc (extend (begun r) y) cs)
          (on_message-head ∙ ap (λ x. relay_after_head x (h ++ b)) (after-waiting p))
        ∙ ap (λ x. feed phr rc x cs) (behind_head b refl p)
        ∙ feed-more phr rc busy r (length h) resp.status total small h [] b cs p k
  ]
