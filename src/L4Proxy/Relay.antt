-- ===== src/L4Proxy/Relay.antt =====
-- L4/LB_Server.h and L4/RemoteClient.cc: the bytes of a session in both directions.
use vortex_net.Base.{
  ℕ, ◌≡◌, refl, sym, ◌∙◌, ap, inl, inr, Bool, true, false, List, [], ◌∷◌, ◌++◌, Option, none, some,
  arith, ltb, length, append-nil, append_assoc, Bool-cases, if◌then◌else◌,
}
use vortex_net.L4Proxy.{
  RemoteClient, Session, with_context, send_to_backend, on_backend_up, on_client_message,
  on_backend_down, on_backend_message,
}

-- What happens to a session while its client is there. A backend's events come from its RemoteClient.
pub data Event : Type 0 where
  from_client : List ℕ → Event
  from_backend : List ℕ → Event
  backend_up : Event
  backend_down : Event

abbrev on_context : Session → (RemoteClient → Session) → Option Session
on_context s f = elim s.context [ none ↦ none | some r ↦ some (f r) ]

unfoldable pub on_event : Session → Event → Option Session
on_event s (from_client bytes) = on_client_message s bytes
on_event s (from_backend bytes) = on_context s (λ r. on_backend_message s r bytes)
on_event s backend_up = on_context s (λ r. with_context s (on_backend_up r))
on_event s backend_down = on_context s (λ r. on_backend_down s r)

unfoldable pub run : Session → List Event → Option Session
run s [] = some s
run s (e ∷ es) = elim (on_event s e) [ none ↦ none | some t ↦ run t es ]

-- The bytes of an event from the client, and from the backend.
abbrev pub from_client_of : Event → List ℕ
from_client_of (from_client bytes) = bytes
from_client_of _ = []

-- What the backend says that the client can hear: nothing once a connection to the backend was lost.
abbrev pub heard_of : Bool → Event → List ℕ
heard_of over (from_backend bytes) = if over then [] else bytes
heard_of over _ = []

abbrev pub is_over : Bool → Event → Bool
is_over over backend_down = true
is_over over _ = over

abbrev pub collect : List Event → List ℕ
collect [] = []
collect (e ∷ es) = from_client_of e ++ collect es

abbrev pub heard : Bool → List Event → List ℕ
heard over [] = []
heard over (e ∷ es) = heard_of over e ++ heard (is_over over e) es

-- Whether a connection to the backend has been lost after the events.
abbrev pub ends : Bool → List Event → Bool
ends over [] = over
ends over (e ∷ es) = ends (is_over over e) es

abbrev pub delivered : RemoteClient → List ℕ
delivered r = r.sent ++ r.pending_buffer

-- Once the connection is up nothing is kept back, and it was not shut down.
abbrev pub InOrder : RemoteClient → Type 0
InOrder r = r.up ≡ true → (r.pending_buffer ≡ []) × (r.closing ≡ false)

-- The session of a client that is there, with those bytes for the backend and for the client, in order,
-- and whether the client was shut down.
pub record Relays (s : Session) (to_backend to_client : List ℕ) (over : Bool) : Type 0 where
  pub backend : RemoteClient
  pub has_backend : s.context ≡ some backend
  pub lives : s.lives ≡ true
  pub sent_lem : delivered backend ≡ to_backend
  pub received_lem : s.to_client ≡ to_client
  pub shut_lem : s.is_shut ≡ over
  pub order : InOrder backend

send_to_backend-delivered :
    (r : RemoteClient) (bytes : List ℕ)
    → InOrder r
    → (delivered (send_to_backend r bytes) ≡ delivered r ++ bytes)
      × InOrder (send_to_backend r bytes)
unfolding send_to_backend
send_to_backend-delivered r bytes o = elim (Bool-cases r.up) [
  | inl e ↦
      rw (e, (o e).0, (o e).1)
        (rw (append-nil r.sent, append-nil (r.sent ++ bytes)) refl, λ _. (refl, refl))
  | inr e ↦ rw e (sym (append_assoc r.sent r.pending_buffer bytes), λ u. absurd (cc (u)))
]

on_backend_up-delivered :
    (r : RemoteClient) → (delivered (on_backend_up r) ≡ delivered r) × InOrder (on_backend_up r)
unfolding on_backend_up
on_backend_up-delivered r = elim (Bool-cases (ltb 0 (length r.pending_buffer))) [
  | inl e ↦ rw e (append-nil (r.sent ++ r.pending_buffer), λ _. (refl, refl))
  | inr e ↦ rw e (refl, λ _. (empty r.pending_buffer e, refl))
]
  where
    empty : (l : List ℕ) → ltb 0 (length l) ≡ false → l ≡ []
    empty [] e = refl
    empty (y ∷ ys) e = absurd (ground (arith, e))

-- An event is handled, and adds the bytes that it brings.
on_event-Relays :
    (s : Session) (b c : List ℕ) (over : Bool) (e : Event)
    → Relays s b c over
    → (t : Session) × (on_event s e ≡ some t)
      × Relays t (b ++ from_client_of e) (c ++ heard_of over e) (is_over over e)
unfolding on_event on_client_message on_backend_message on_backend_down
on_event-Relays s b c over (from_client bytes) r =
    let (d, o) = send_to_backend-delivered r.backend bytes r.order in
    (
      with_context s (send_to_backend r.backend bytes),
      rw (r.has_backend),
      record {
        backend = send_to_backend r.backend bytes;
        has_backend = refl;
        lives = r.lives;
        sent_lem = d ∙ ap (λ x. x ++ bytes) r.sent_lem;
        received_lem = r.received_lem ∙ sym (append-nil c);
        shut_lem = r.shut_lem;
        order = o;
      },
    )
on_event-Relays s b c true (from_backend bytes) r = (
  s,
  rw (r.has_backend) (rw (r.lives) (rw (r.shut_lem) refl)),
  record {
    backend = r.backend;
    has_backend = r.has_backend;
    lives = r.lives;
    sent_lem = r.sent_lem ∙ sym (append-nil b);
    received_lem = r.received_lem ∙ sym (append-nil c);
    shut_lem = r.shut_lem;
    order = r.order;
  },
)
on_event-Relays s b c false (from_backend bytes) r = (
  record s { to_client = s.to_client ++ bytes },
  rw (r.has_backend) (rw (r.lives) (rw (r.shut_lem) refl)),
  record {
    backend = r.backend;
    has_backend = r.has_backend;
    lives = r.lives;
    sent_lem = r.sent_lem ∙ sym (append-nil b);
    received_lem = ap (λ x. x ++ bytes) r.received_lem;
    shut_lem = r.shut_lem;
    order = r.order;
  },
)
on_event-Relays s b c over backend_up r =
    let (d, o) = on_backend_up-delivered r.backend in
    (
      with_context s (on_backend_up r.backend),
      rw (r.has_backend),
      record {
        backend = on_backend_up r.backend;
        has_backend = refl;
        lives = r.lives;
        sent_lem = d ∙ r.sent_lem ∙ sym (append-nil b);
        received_lem = r.received_lem ∙ sym (append-nil c);
        shut_lem = r.shut_lem;
        order = o;
      },
    )
on_event-Relays s b c over backend_down r = (
  on_backend_down s r.backend,
  rw (r.has_backend),
  record {
    backend = record (r.backend) { up = false };
    has_backend = refl;
    lives = r.lives;
    sent_lem = r.sent_lem ∙ sym (append-nil b);
    received_lem = r.received_lem ∙ sym (append-nil c);
    shut_lem = rw (r.lives) refl;
    order = λ u. absurd (cc (u));
  },
)

-- While the client is there, whatever its backend's connection does: no handler faults; the backend is
-- given, or is to be given once it is up, exactly the bytes of the client behind those before them; and the
-- client is given exactly the bytes that came from the backend before a connection to it was first
-- lost, which shuts the client down; each in the order in which they came.
pub run-Relays :
    (s : Session) (b c : List ℕ) (over : Bool) (es : List Event)
    → Relays s b c over
    → (t : Session) × (run s es ≡ some t)
      × Relays t (b ++ collect es) (c ++ heard over es) (ends over es)
unfolding run
run-Relays s b c over [] r = (s, refl, rw (append-nil b, append-nil c) r)
run-Relays s b c over (e ∷ es) r =
    let (t, h, q) = on_event-Relays s b c over e r in
    let (u, k, z) =
      run-Relays t (b ++ from_client_of e) (c ++ heard_of over e) (is_over over e) es q in
    (
      u,
      rw (h, run) k,
      rw
          (
            sym (append_assoc b (from_client_of e) (collect es)),
            sym (append_assoc c (heard_of over e) (heard (is_over over e) es)),
          )
          z,
    )
