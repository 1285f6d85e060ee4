-- ===== src/LbServer/Request.antt =====
-- LB_Server.h and RemoteClient.cc: a body on its way to its backend, message by message.
use vortex_net.Base.{
  ℕ, ◌+◌, ◌-◌, ◌≤◌, ◌<◌, ◌^◌, ◌≡◌, refl, sym, subst, ◌∙◌, ap, ◌⊎◌, inl, inr, true, false, List, [],
  ◌∷◌, ◌++◌, some, arith, ltb, leb, lt→ltb, ltb→lt, le→leb, min, add64, sub64, ==_iff, Bool-cases,
  length, take, drop, take_all, drop_all, length-append, append-nil, append_assoc,
}
use vortex_net.HttpParser.{
  HttpRequest, HttpParser, Found, head, expect_body, got_all, consume_body, bytes_remaining,
  parse_request,
}
use vortex_net.HttpParser as Parser
use vortex_net.HttpServer.Bodies.{take-append_ge, drop-append_ge}
use vortex_net.HttpContext.{HttpContext, reset}
use vortex_net.RemoteClient.{RemoteClient, send_to_backend, on_connected}
use vortex_net.ConnectionPool.{ConnectionPool, set_client, with_client}
use vortex_net.LbServer.{LbServer, Client, Result, returns, send, relay_request, relay_rest}

-- What a backend was sent, with what is kept for it until it is connected, in order.
abbrev pub delivered : RemoteClient → List ℕ
delivered x = x.sent ++ x.pending_buffer

-- Once the connection is up nothing is kept back, and it was not shut down.
abbrev pub InOrder : RemoteClient → Type 0
InOrder x = x.up ≡ true → (x.pending_buffer ≡ []) × (x.disconnected ≡ false)

pub send_to_backend-delivered :
    (x : RemoteClient) (buf : List ℕ) (n : ℕ)
    → InOrder x
    → (delivered (send_to_backend x buf n) ≡ delivered x ++ take n buf)
      × InOrder (send_to_backend x buf n)
unfolding send_to_backend
send_to_backend-delivered x buf n o = elim (Bool-cases x.up) [
  | inl e ↦
      rw (e, (o e).0, (o e).1)
        (rw (append-nil x.sent, append-nil (x.sent ++ take n buf)) refl, λ _. (refl, refl))
  | inr e ↦ rw e (sym (append_assoc x.sent x.pending_buffer (take n buf)), λ u. absurd (cc (u)))
]

pub on_connected-delivered :
    (x : RemoteClient)
    → (delivered (on_connected x true) ≡ delivered x) × InOrder (on_connected x true)
unfolding on_connected
on_connected-delivered x = elim (Bool-cases (ltb 0 (length x.pending_buffer))) [
  | inl e ↦ rw e (append-nil (x.sent ++ x.pending_buffer), λ _. (refl, refl))
  | inr e ↦ rw e (refl, λ _. (empty x.pending_buffer e, refl))
]
  where
    empty : (l : List ℕ) → ltb 0 (length l) ≡ false → l ≡ []
    empty [] e = refl
    empty (y ∷ ys) e = absurd (ground (arith, e))

-- The backend r was delivered those bytes, and in order.
pub record Holds (p : ConnectionPool) (r : ℕ) (bytes : List ℕ) : Type 0 where
  pub bytes_lem : delivered (p.clients r) ≡ bytes
  pub order : InOrder (p.clients r)

pub with_client-Holds :
    (p : ConnectionPool) (r : ℕ) (v : RemoteClient) (bytes : List ℕ)
    → delivered v ≡ bytes
    → InOrder v
    → Holds (with_client p r v) r bytes
unfolding set_client
with_client-Holds p r v bytes e o =
    let s = (==_iff r r).1 refl in record { bytes_lem = rw s e; order = rw s o }

pub send-Holds :
    (p : ConnectionPool) (r : ℕ) (bytes buf : List ℕ) (n : ℕ)
    → Holds p r bytes
    → Holds (send p r buf n) r (bytes ++ take n buf)
send-Holds p r bytes buf n h =
    let (e, o) = send_to_backend-delivered (p.clients r) buf n h.order in
    with_client-Holds p r (send_to_backend (p.clients r) buf n) (bytes ++ take n buf)
      (e ∙ ap (λ x. x ++ take n buf) h.bytes_lem) o

-- The client's context once its request is out.
abbrev pub asked : ℕ → HttpContext
asked r = record { parser = Parser.new; client = some r }

abbrev pub waiting : ℕ → ℕ → HttpRequest → ℕ → List ℕ → HttpContext
waiting r n req total got = record {
  parser = record Parser.new {
    header_len = n;
    header = req;
    content_length = total;
    body_bytes_read = length got;
    state = expect_body;
  };
  client = some r;
}

module _ (c : Client) (r n : ℕ) (req : HttpRequest) (total : ℕ) (small : total < 2 ^ 64)
    (pre : List ℕ) where
  abbrev client_at : HttpContext → Client
  client_at ctx = record c { context = ctx }

  -- The head is through, and `got` of the body and what follows it has come in.
  unfoldable pub Progress : Result → List ℕ → Type 0
  Progress res got =
      ((length got < total)
        × (s : LbServer) × (res ≡ returns s (client_at (waiting r n req total got)) [])
        × Holds s.pool r (pre ++ got))
      ⊎ ((total ≤ length got)
          × (s : LbServer) × (res ≡ returns s (client_at (asked r)) (drop total got))
          × Holds s.pool r (pre ++ take total got))

  relay-more :
      (s : LbServer) (got x : List ℕ)
      → length got + length x < total
      → relay_request s (client_at (waiting r n req total got)) x
        ≡ returns
            (record s { pool = send s.pool r x (length x) })
            (client_at (waiting r n req total (got ++ x)))
            []
  unfolding relay_request consume_body
  relay-more s got x k =
      let all : min (length x) (sub64 total (length got)) ≡ length x = omega arith in
      let read : add64 (length got) (length x) ≡ length (got ++ x) =
        omega (arith, length-append got x) in
      let short : leb total (length (got ++ x)) ≡ false = ground (arith, length-append got x) in
      rw (all, read, short, drop_all (length x) x (omega arith))

  relay-done :
      (s : LbServer) (got x : List ℕ)
      → length got < total
      → total ≤ length got + length x
      → relay_request s (client_at (waiting r n req total got)) x
        ≡ returns
            (record s { pool = send s.pool r x (total - length got) })
            (client_at (asked r))
            (drop (total - length got) x)
  unfolding relay_request consume_body reset Parser.reset
  relay-done s got x l k =
      let rest = total - length got in
      let part : min (length x) (sub64 total (length got)) ≡ rest = omega arith in
      let read : add64 (length got) rest ≡ total = omega arith in
      rw (part, read, le→leb total total (omega arith))

  pub relay_request-Progress :
      (s : LbServer) (got x : List ℕ)
      → length got < total
      → Holds s.pool r (pre ++ got)
      → Progress (relay_request s (client_at (waiting r n req total got)) x) (got ++ x)
  unfolding Progress
  relay_request-Progress s got x l h = elim (Bool-cases (ltb (length got + length x) total)) [
    | inl e ↦ inl (
      omega (arith, length-append got x, ltb→lt (length got + length x) total e),
      record s { pool = send s.pool r x (length x) },
      relay-more s got x (ground (arith, e)),
      subst (Holds (send s.pool r x (length x)) r)
          (ap (λ y. (pre ++ got) ++ y) (take_all (length x) x (omega arith))
            ∙ append_assoc pre got x)
          (send-Holds s.pool r (pre ++ got) x (length x) h),
    )
    | inr e ↦
        let k : total ≤ length got + length x = ground (arith, e) in
        let rest = total - length got in
        inr (
          omega (arith, k, length-append got x),
          record s { pool = send s.pool r x rest },
          rw (drop-append_ge total got x (omega arith)) (relay-done s got x l k),
          subst (Holds (send s.pool r x rest) r)
              (append_assoc pre got (take rest x)
                ∙ ap (λ y. pre ++ y) (sym (take-append_ge total got x (omega arith))))
              (send-Holds s.pool r (pre ++ got) x rest h),
        )
  ]

  relay_rest-some :
      (s : LbServer) (x : List ℕ)
      → 0 < total
      → 0 < length x
      → relay_rest s (client_at (waiting r n req total [])) r x
        ≡ relay_request s (client_at (waiting r n req total [])) x
  unfolding relay_rest relay_request
  relay_rest-some s x p q = rw (lt→ltb 0 (min (length x) (sub64 total 0)) (omega arith))

  -- What came with the head.
  pub relay_rest-Progress :
      (s : LbServer) (x : List ℕ)
      → 0 < total
      → Holds s.pool r (pre ++ [])
      → Progress (relay_rest s (client_at (waiting r n req total [])) r x) x
  unfolding Progress relay_rest
  relay_rest-Progress s [] p h =
      let z : ltb 0 (min 0 (sub64 total 0)) ≡ false = ground arith in inl (p, s, rw z, h)
  relay_rest-Progress s (y ∷ ys) p h =
      subst (λ res. Progress res (y ∷ ys)) (sym (relay_rest-some s (y ∷ ys) p (omega arith)))
        (relay_request-Progress s [] (y ∷ ys) p h)

  abbrev pub headed : HttpContext
  headed = record {
    parser = record Parser.new { header_len = n; header = req; state = got_all; done = true };
    client = some r;
  }

  pub relay_rest-headed :
      (s : LbServer) (x : List ℕ)
      → total ≡ 0
      → Holds s.pool r (pre ++ [])
      → Progress (relay_rest s (client_at headed) r x) x
  unfolding Progress relay_rest reset Parser.reset
  relay_rest-headed s x z h =
      let e : min (length x) 0 ≡ 0 = omega arith in inr (omega (arith, z), s, rw (z, e), rw z h)
