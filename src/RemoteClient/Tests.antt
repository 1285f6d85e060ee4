-- ===== src/RemoteClient/Tests.antt =====
-- Runs of a backend's connection, and its theorem at a concrete input.
use vortex_net.Base.{◌≡◌, refl, ℕ, true, false, List, [], ◌∷◌, some, arith, codes}
use vortex_net.ApiKeyAuth.{equals_ignore_case}
use vortex_net.HttpParser.{ResponseHead, head, scan_response, from_chars, digits}
use vortex_net.HttpContext.{is_prefix}
use vortex_net.RemoteClient.{
  RemoteClient, bind_client, force_close, send_to_backend, on_connected, has_zero_chunk, on_message,
}
use vortex_net.RemoteClient as Remote
use vortex_net.RemoteClient.Response.{feed, begun, passed_on, Announces, feed-passed_on}

abbrev bound : RemoteClient
bound = bind_client (Remote.new (codes "10.0.0.1") 80) 3

-- What is sent before the connection is up goes out first.
flushed :
    (send_to_backend (on_connected (send_to_backend bound (codes "ab") 1) true) (codes "cd") 2).sent
    ≡ codes "acd"
unfolding send_to_backend on_connected
flushed = refl

-- A backend that was disconnected while it was idle takes a request, and loses it.
abbrev stray : RemoteClient
stray = force_close (on_connected (Remote.new (codes "10.0.0.1") 80) true)

lost_request : send_to_backend stray (codes "GET") 3 ≡ stray
unfolding send_to_backend on_connected
lost_request = refl

-- The end of a chunked body that is cut by two messages is seen in neither.
abbrev last_chunk : List ℕ
last_chunk = 48 ∷ 13 ∷ 10 ∷ 13 ∷ 10 ∷ []

whole_end : has_zero_chunk last_chunk ≡ true
unfolding has_zero_chunk is_prefix
whole_end = refl

cut_end : has_zero_chunk (48 ∷ 13 ∷ []) ≡ false
unfolding has_zero_chunk is_prefix
cut_end = refl

cut_end_rest : has_zero_chunk (10 ∷ 13 ∷ 10 ∷ []) ≡ false
unfolding has_zero_chunk is_prefix
cut_end_rest = refl

abbrev answer : ResponseHead
answer = record { status = 200; headers = (codes "Content-Length", codes "3") ∷ [] }

answer-Announces : Announces answer.headers 3
unfolding scan_response equals_ignore_case from_chars digits
answer-Announces = refl

-- A head of two bytes, and a body of three in two pieces.
feed-passed_on_example :
    feed (λ b. head 2 answer) bound (begun (some 7)) (codes "HHa" ∷ codes "bc" ∷ [])
    ≡ passed_on 3 (codes "HH") (codes "abc")
feed-passed_on_example =
    feed-passed_on (λ b. head 2 answer) bound refl (some 7) (codes "HH") (codes "a") answer 3 refl
      (omega arith) answer-Announces (omega arith) (codes "bc" ∷ []) (omega arith, omega arith)
