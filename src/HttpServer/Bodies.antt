-- ===== src/HttpServer/Bodies.antt =====
-- HttpServer.h: a request reaches the callback with exactly its body, however its bytes arrive.
use vortex_net.Base.{
  ℕ, zero, suc, ◌+◌, ◌-◌, ◌≤◌, ◌<◌, ◌^◌, ◌≡◌, refl, sym, ◌∙◌, ap, inl, inr, Bool, true, false, List,
  [], ◌∷◌, ◌++◌, none, some, if◌then◌else◌, arith, ltb, leb, lt→ltb, le→leb, min, add64, sub64,
  Bool-cases, length, take, drop, drop-append, take_all, drop_all, length-append, append-nil,
  append_assoc,
}
use vortex_net.HttpParser.{
  HttpRequest, HttpParser, Found, head, expect_body, consume_body, bytes_remaining, reset,
  parse_request,
}
use vortex_net.HttpParser as Parser
use vortex_net.HttpParser.Lengths.{body_length, parse_request-announced}
use vortex_net.HttpServer.{Call, ConnState, dispatch, collect_body, after_parse, on_message}

-- Between two requests.
abbrev pub fresh : Bool → List Call → ConnState
fresh is_req calls = record {
  parser = record Parser.new { is_req = is_req };
  body = [];
  calls = calls;
  views_hold = false;
}

-- The call for a request, with its headers if they are read in place.
abbrev pub call : Bool → HttpRequest → List ℕ → Call
call v req body = record {
  method = req.method;
  path = req.path;
  headers = if v then some req.headers else none;
  body = body;
}

-- The head `req` of `n` bytes is there, and `got` of its body of `total` bytes.
abbrev pub waiting : Bool → ℕ → HttpRequest → ℕ → List ℕ → List Call → ConnState
waiting v n req total got calls = record {
  parser = record Parser.new {
    header_len = n;
    header = req;
    content_length = total;
    body_bytes_read = length got;
    state = expect_body;
  };
  body = got;
  calls = calls;
  views_hold = v;
}

pub take-append_ge :
    (n : ℕ) (xs ys : List ℕ) → length xs ≤ n → take n (xs ++ ys) ≡ xs ++ take (n - length xs) ys
take-append_ge n [] ys h = ground arith
take-append_ge zero (x ∷ xs) ys h = absurd (omega arith)
take-append_ge (suc n) (x ∷ xs) ys h =
    ap (◌∷◌ x) (take-append_ge n xs ys (omega arith) ∙ ap (λ k. xs ++ take k ys) (omega arith))

pub drop-append_ge :
    (n : ℕ) (xs ys : List ℕ) → length xs ≤ n → drop n (xs ++ ys) ≡ drop (n - length xs) ys
drop-append_ge n [] ys h = ground arith
drop-append_ge zero (x ∷ xs) ys h = absurd (omega arith)
drop-append_ge (suc n) (x ∷ xs) ys h =
    drop-append_ge n xs ys (omega arith) ∙ ap (λ k. drop k ys) (omega arith)

collect_more :
    (v : Bool) (n total : ℕ) (req : HttpRequest) (got c : List ℕ) (calls : List Call)
    → total < 2 ^ 64
    → length got + length c < total
    → collect_body true (waiting v n req total got calls) c
      ≡ (waiting v n req total (got ++ c) calls, [])
unfolding collect_body consume_body
collect_more v n total req got [] calls l h =
    let none_left : min (sub64 total (length got)) 0 ≡ 0 = omega arith in
    rw (none_left, append-nil got)
collect_more v n total req got (x ∷ xs) calls l h =
    let c = x ∷ xs in
    let all : min (sub64 total (length got)) (length c) ≡ length c = omega arith in
    let read : add64 (length got) (length c) ≡ length (got ++ c) =
      omega (arith, length-append got c) in
    let short : leb total (length (got ++ c)) ≡ false = ground (arith, length-append got c) in
    let some_read : ltb 0 (length c) ≡ true = lt→ltb 0 (length c) (omega arith) in
    rw (
      all,
      some_read,
      read,
      short,
      take_all (length c) c (omega arith),
      drop_all (length c) c (omega arith),
    )

collect_done :
    (v : Bool) (n total : ℕ) (req : HttpRequest) (got c : List ℕ) (calls : List Call)
    → total < 2 ^ 64
    → length got < total
    → total ≤ length got + length c
    → collect_body true (waiting v n req total got calls) c
      ≡ (fresh true (calls ++ call v req (take total (got ++ c)) ∷ []), drop total (got ++ c))
unfolding collect_body consume_body dispatch reset
collect_done v n total req got c calls l h k =
    let rest = total - length got in
    let part : min (sub64 total (length got)) (length c) ≡ rest = omega arith in
    let read : add64 (length got) rest ≡ total = omega arith in
    let some_read : ltb 0 rest ≡ true = lt→ltb 0 rest (omega arith) in
    rw (
      part,
      some_read,
      read,
      le→leb total total (omega arith),
      take-append_ge total got c (omega arith),
      drop-append_ge total got c (omega arith),
    )

-- The messages of a connection: each chunk comes in behind what is left in the buffer.
unfoldable pub feed :
    (List ℕ → Found HttpRequest) → ConnState × List ℕ → List (List ℕ) → ConnState × List ℕ
feed phr (st, buf) [] = (st, buf)
feed phr (st, buf) (c ∷ cs) = feed phr (on_message phr true st (buf ++ c)) cs

abbrev pub concat : List (List ℕ) → List ℕ
concat [] = []
concat (c ∷ cs) = c ++ concat cs

-- The chunks complete a body of `total` bytes of which `got` is there, and none comes after the chunk
-- that completes it.
abbrev pub Completes : ℕ → List ℕ → List (List ℕ) → Type 0
Completes total got [] = total ≤ length got
Completes total got (c ∷ cs) = (length got < total) × Completes total (got ++ c) cs

-- Whether the headers are still read in place: no message came after the one with the head.
abbrev pub at_once : Bool → List (List ℕ) → Bool
at_once v [] = v
at_once v (c ∷ cs) = false

at_once_later : (cs : List (List ℕ)) → at_once false cs ≡ false
at_once_later [] = refl
at_once_later (c ∷ cs) = refl

feed-waiting :
    (phr : List ℕ → Found HttpRequest) (v : Bool) (n total : ℕ) (req : HttpRequest)
    → (got c : List ℕ) (cs : List (List ℕ)) (calls : List Call) → total < 2 ^ 64
    → length got < total
    → Completes total (got ++ c) cs
    → feed phr (collect_body true (waiting v n req total got calls) c) cs ≡ (
      fresh true (calls ++ call (at_once v cs) req (take total (got ++ concat (c ∷ cs))) ∷ []),
      drop total (got ++ concat (c ∷ cs)),
    )
unfolding feed on_message
feed-waiting phr v n total req got c [] calls l h k =
    let e : c ++ [] ≡ c = append-nil c in
    rw e (collect_done v n total req got c calls l h (omega (arith, length-append got c)))
feed-waiting phr v n total req got c (d ∷ cs) calls l h k =
    let e : got ++ (c ++ concat (d ∷ cs)) ≡ (got ++ c) ++ concat (d ∷ cs) =
      sym (append_assoc got c (concat (d ∷ cs))) in
    ap (λ r. feed phr r (d ∷ cs))
      (collect_more v n total req got c calls l (omega (arith, k.0, length-append got c)))
    ∙ feed-waiting phr false n total req (got ++ c) d cs calls l k.0 k.1
    ∙ ap
        (λ x. (
          fresh true (calls ++ call x req (take total ((got ++ c) ++ concat (d ∷ cs))) ∷ []),
          drop total ((got ++ c) ++ concat (d ∷ cs)),
        ))
        (at_once_later cs)
    ∙ ap (λ b. (fresh true (calls ++ call false req (take total b) ∷ []), drop total b)) (sym e)

-- The message that holds the head.
on_message-head :
    (phr : List ℕ → Found HttpRequest) (is_req : Bool) (h b : List ℕ) (req : HttpRequest)
    → (calls : List Call) → 0 < length h
    → phr (h ++ b) ≡ head (length h) req
    → 0 < body_length req
    → on_message phr true (fresh is_req calls) (h ++ b)
      ≡ collect_body true (waiting true (length h) req (body_length req) [] calls) b
unfolding on_message after_parse
on_message-head phr is_req h b req calls l e k =
    rw
      (parse_request-announced phr (record Parser.new { is_req = is_req }) (h ++ b) (length h) req
        refl e l)
      (rw (lt→ltb 0 (body_length req) k, lt→ltb 0 (length h) l, drop-append h b))

on_message-head_only :
    (phr : List ℕ → Found HttpRequest) (is_req : Bool) (h b : List ℕ) (req : HttpRequest)
    → (calls : List Call) → 0 < length h
    → phr (h ++ b) ≡ head (length h) req
    → body_length req ≡ 0
    → on_message phr true (fresh is_req calls) (h ++ b)
      ≡ (fresh true (calls ++ call true req [] ∷ []), b)
unfolding on_message after_parse dispatch reset
on_message-head_only phr is_req h b req calls l e z =
    rw
      (parse_request-announced phr (record Parser.new { is_req = is_req }) (h ++ b) (length h) req
        refl e l)
      (rw (z, lt→ltb 0 (length h) l, drop-append h b))

-- From a connection between two requests: a head that is found as the first message comes in, with the
-- first bytes of its body behind it, and chunks that complete the body, give one call of the callback, with
-- the method and the path of that head and exactly the body that it announces, wherever the bytes are
-- cut. The callback is also given the headers of that head if all came in one message; otherwise its
-- views of them are stale. What came behind the body stays in the buffer, and the connection is
-- between two requests again.
pub feed-body :
    (phr : List ℕ → Found HttpRequest) (is_req : Bool) (h b : List ℕ) (cs : List (List ℕ))
    → (req : HttpRequest) (calls : List Call) → 0 < length h
    → phr (h ++ b) ≡ head (length h) req
    → body_length req < 2 ^ 64
    → Completes (body_length req) b cs
    → feed phr (fresh is_req calls, []) ((h ++ b) ∷ cs) ≡ (
      fresh true
          (calls ++ call (at_once true cs) req (take (body_length req) (b ++ concat cs)) ∷ []),
      drop (body_length req) (b ++ concat cs),
    )
unfolding feed
feed-body phr is_req h b cs req calls l e t k = elim (Bool-cases (ltb 0 (body_length req))) [
  | inl p ↦
      ap (λ r. feed phr r cs) (on_message-head phr is_req h b req calls l e (ground (arith, p)))
      ∙ feed-waiting phr true (length h) (body_length req) req [] b cs calls t (ground (arith, p)) k
  | inr p ↦ no_body cs k (ground (arith, p))
]
  where
    no_body :
        (cs : List (List ℕ))
        → Completes (body_length req) b cs
        → body_length req ≡ 0
        → feed phr (on_message phr true (fresh is_req calls) (h ++ b)) cs ≡ (
          fresh true
              (calls ++ call (at_once true cs) req (take (body_length req) (b ++ concat cs)) ∷ []),
          drop (body_length req) (b ++ concat cs),
        )
    no_body [] k z = on_message-head_only phr is_req h b req calls l e z ∙ rw (z, append-nil b)
    no_body (c ∷ cs) k z = absurd (omega (arith, k.0))
