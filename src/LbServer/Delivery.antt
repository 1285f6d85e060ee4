-- ===== src/LbServer/Delivery.antt =====
-- LB_Server.h and RemoteClient.cc: an admitted request reaches its backend as it is, however its bytes
-- arrive, and whether the connection to the backend is up before, between or after them.
use vortex_net.Base.{
  ℕ, ◌≤◌, ◌<◌, ◌^◌, ◌≡◌, refl, sym, subst, ◌∙◌, ap, inl, inr, Bool, true, List, [], ◌∷◌, ◌++◌,
  Option, some, arith, ltb, lt→ltb, ltb→lt, Bool-cases, length, take, drop, take-append,
  drop-append, append-nil, append_assoc,
}
use vortex_net.HttpParser.{
  HttpRequest, HttpParser, Found, head, expect_body, got_all, consume_body, bytes_remaining,
  parse_request,
}
use vortex_net.HttpParser as Parser
use vortex_net.HttpParser.Lengths.{after_head, body_length, parse_request-announced}
use vortex_net.HttpContext.{HttpContext}
use vortex_net.RemoteClient.{bind_client, on_connected}
use vortex_net.ConnectionPool.{ConnectionPool, borrow_connection, with_client}
use vortex_net.ServerNode.{InetAddress}
use vortex_net.TokenBucket.{Round}
use vortex_net.LbServer.{
  LbServer, World, Client, passes, Result, returns, null_client, bad_target, spins, admit, send,
  relay_request, relay_rest, forward, forward_to, on_message,
}
use vortex_net.LbServer.Request.{
  delivered, InOrder, on_connected-delivered, Holds, with_client-Holds, send-Holds, asked, waiting,
  Progress, headed, relay_request-Progress, relay_rest-Progress, relay_rest-headed,
}

-- The steps that a request sees: its messages, and the connection to its backend coming up.
pub data Step : Type 0 where
  message : List ℕ → Step
  connects : Step

abbrev pub connect : LbServer → ℕ → LbServer
connect s r = record s { pool = with_client s.pool r (on_connected (s.pool.clients r) true) }

unfoldable pub feed : World → ℕ → Result → List Step → Result
feed w r res [] = res
feed w r (returns s c buf) (message x ∷ ss) = feed w r (on_message w s c (buf ++ x) []) ss
feed w r (returns s c buf) (connects ∷ ss) = feed w r (returns (connect s r) c buf) ss
feed w r null_client (x ∷ ss) = null_client
feed w r bad_target (x ∷ ss) = bad_target
feed w r spins (x ∷ ss) = spins

abbrev pub bodies : List Step → List ℕ
bodies [] = []
bodies (message x ∷ ss) = x ++ bodies ss
bodies (connects ∷ ss) = bodies ss

-- The messages complete a body of `total` bytes of which `got` is there, and none comes after the one that
-- completes it.
abbrev pub Completes : ℕ → List ℕ → List Step → Type 0
Completes total got [] = total ≤ length got
Completes total got (message x ∷ ss) = (length got < total) × Completes total (got ++ x) ss
Completes total got (connects ∷ ss) = Completes total got ss

-- The handler returned, the backend r holds those bytes in order, and the client's context is ready for
-- the response, with that left in the buffer.
pub record Arrived (c : Client) (r : ℕ) (bytes rest : List ℕ) (res : Result) : Type 0 where
  pub server : LbServer
  pub result_lem : res ≡ returns server (record c { context = asked r }) rest
  pub holds : Holds server.pool r bytes

module _ (w : World) (c : Client) (r n : ℕ) (req : HttpRequest) (total : ℕ) (small : total < 2 ^ 64)
    (pre : List ℕ) where
  abbrev Goes : Result → List ℕ → Type 0
  Goes = Progress c r n req total small pre

  connect-Holds :
      (s : LbServer) (bytes : List ℕ) → Holds s.pool r bytes → Holds (connect s r).pool r bytes
  connect-Holds s bytes h =
      let (e, o) = on_connected-delivered (s.pool.clients r) in
      with_client-Holds s.pool r (on_connected (s.pool.clients r) true) bytes (e ∙ h.bytes_lem) o

  pub feed-Arrived :
      (ss : List Step) (res : Result) (got : List ℕ)
      → Goes res got
      → Completes total got ss
      → Arrived c r
          (pre ++ take total (got ++ bodies ss))
          (drop total (got ++ bodies ss))
          (feed w r res ss)
  unfolding feed on_message Progress
  feed-Arrived [] res got (inl (l, s, e, h)) k = absurd (omega (arith, l, k))
  feed-Arrived [] res got (inr (l, s, e, h)) k =
      rw (append-nil got) (record { server = s; result_lem = e; holds = h })
  feed-Arrived (message x ∷ ss) res got (inr (l, s, e, h)) k = absurd (omega (arith, l, k.0))
  feed-Arrived (message x ∷ ss) res got (inl (l, s, e, h)) k =
      rw (e, sym (append_assoc got x (bodies ss)))
        (feed-Arrived ss (relay_request s (record c { context = waiting r n req total got }) x)
          (got ++ x) (relay_request-Progress c r n req total small pre s got x l h) k.1)
  feed-Arrived (connects ∷ ss) res got (inl (l, s, e, h)) k = rw e (
      feed-Arrived ss (returns (connect s r) (record c { context = waiting r n req total got }) [])
        got (inl (l, connect s r, refl, connect-Holds s (pre ++ got) h)) k)
  feed-Arrived (connects ∷ ss) res got (inr (l, s, e, h)) k = rw e (
      feed-Arrived ss (returns (connect s r) (record c { context = asked r }) (drop total got)) got
        (inr (l, connect s r, refl, connect-Holds s (pre ++ take total got) h)) k)

module _ (w : World) (s s1 : LbServer) (c : Client) (client : Option ℕ) (is_req : Bool)
    (h b : List ℕ) (req : HttpRequest) (rounds : List Round) (addr : InetAddress) (r : ℕ)
    (pool : ConnectionPool) where
  -- Before the head, and behind it.
  abbrev pub idle_context : HttpContext
  idle_context = record { parser = record Parser.new { is_req = is_req }; client = client }

  abbrev pub head_context : HttpContext
  head_context = record {
    parser = after_head (record Parser.new { is_req = is_req }) (length h) req (body_length req);
    client = client;
  }

  abbrev sent_head : LbServer
  sent_head = record s1 {
    pool = send (with_client pool r (bind_client (pool.clients r) c.id)) r (h ++ b) (length h);
  }

  sent_head-Holds :
      InOrder (pool.clients r) → Holds sent_head.pool r ((delivered (pool.clients r) ++ h) ++ [])
  sent_head-Holds o =
      let bound =
        with_client-Holds pool r (bind_client (pool.clients r) c.id) (delivered (pool.clients r))
          refl o in
      subst (Holds sent_head.pool r)
        (ap (λ x. delivered (pool.clients r) ++ x) (take-append h b)
          ∙ sym (append-nil (delivered (pool.clients r) ++ h)))
        (send-Holds (with_client pool r (bind_client (pool.clients r) c.id)) r
          (delivered (pool.clients r)) (h ++ b) (length h) bound)

  abbrev bound_context : HttpContext
  bound_context = record head_context { client = some r }

  expects_body :
      ltb 0 (body_length req) ≡ true → bound_context ≡ waiting r (length h) req (body_length req) []
  expects_body e = rw e

  all_there :
      (small : body_length req < 2 ^ 64) (pre : List ℕ)
      → body_length req ≡ 0
      → bound_context ≡ headed c r (length h) req (body_length req) small pre
  all_there small pre z = rw z

  module _ (some_head : 0 < length h) (found : w.phr (h ++ b) ≡ head (length h) req)
      (admitted : admit w s head_context (h ++ b) rounds ≡ (s1, passes addr))
      (borrowed : borrow_connection w.stoi s1.pool (w.to_ip_port addr) ≡ some (r, pool)) where
    forward-head :
        forward w s1 (record c { context = head_context }) addr (h ++ b)
        ≡ relay_rest sent_head (record c { context = bound_context }) r b
    unfolding forward forward_to
    forward-head = rw (borrowed, forward) (rw (lt→ltb 0 (length h) some_head, drop-append h b))

    on_message-head :
        on_message w s (record c { context = idle_context }) (h ++ b) rounds
        ≡ relay_rest sent_head (record c { context = bound_context }) r b
    unfolding on_message
    on_message-head =
        rw
          (parse_request-announced w.phr (record Parser.new { is_req = is_req }) (h ++ b) (length h)
            req refl found some_head)
          (rw admitted forward-head)

    -- A request whose head is found as the first message comes in, on a connection that is ready for one; that
    -- is admitted and for which a backend is borrowed that keeps nothing back once it is up and has not been
    -- disconnected then; and whose messages complete the body that the head announces: the backend is delivered, behind what it was
    -- delivered before, exactly the head and that body, in order, wherever the bytes are cut and whenever the
    -- backend's connection comes up. No handler fails, the context is ready for the response, and what came
    -- behind the body stays in the buffer.
    pub feed-delivered :
        (ss : List Step)
        → InOrder (pool.clients r)
        → body_length req < 2 ^ 64
        → Completes (body_length req) b ss
        → Arrived c r
            ((delivered (pool.clients r) ++ h) ++ take (body_length req) (b ++ bodies ss))
            (drop (body_length req) (b ++ bodies ss))
            (feed w r (on_message w s (record c { context = idle_context }) (h ++ b) rounds) ss)
    feed-delivered ss o small k =
        let pre = delivered (pool.clients r) ++ h in
        feed-Arrived w c r (length h) req (body_length req) small pre ss
          (on_message w s (record c { context = idle_context }) (h ++ b) rounds) b
          (rw on_message-head (elim (Bool-cases (ltb 0 (body_length req))) [
            | inl e ↦
                subst
                  (λ ctx.
                    Progress c r (length h) req (body_length req) small pre
                      (relay_rest sent_head (record c { context = ctx }) r b) b)
                  (sym (expects_body e))
                  (relay_rest-Progress c r (length h) req (body_length req) small pre sent_head b
                    (ltb→lt 0 (body_length req) e) (sent_head-Holds o))
            | inr e ↦
                let z : body_length req ≡ 0 = ground (arith, e) in
                subst
                  (λ ctx.
                    Progress c r (length h) req (body_length req) small pre
                      (relay_rest sent_head (record c { context = ctx }) r b) b)
                  (sym (all_there small pre z))
                  (relay_rest-headed c r (length h) req (body_length req) small pre sent_head b z
                    (sent_head-Holds o))
          ]))
          k
