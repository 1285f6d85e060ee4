-- ===== src/L4Proxy/Tests.antt =====
-- Runs of the relay, and its theorem at a concrete input.
use vortex_net.Base.{◌≡◌, refl, true, false, List, [], ◌∷◌, none, some, codes}
use vortex_net.Selector.{Selector, get_by_hash, find_entry, lower_bound}
use vortex_net.L4Proxy.{
  Session, RemoteClient, new_client, on_client_up, on_client_down, on_client_message, check_turn,
}
use vortex_net.L4Proxy.Relay.{
  Event, from_client, from_backend, backend_up, backend_down, run, Relays, run-Relays,
}

abbrev no_backends : Selector
no_backends = record { server_group = []; ring = []; failed_requests = 0 }

abbrev refused : Session
refused = record { lives = true; to_client = []; is_shut = true; context = none }

-- A client for which there is no backend is shut down, and has nothing in its context.
no_backend : on_client_up no_backends 7 ≡ refused
unfolding on_client_up get_by_hash find_entry lower_bound
no_backend = refl

-- Its next bytes, and its end, are handled as if it had.
message_faults : on_client_message refused (codes "x") ≡ none
unfolding on_client_message
message_faults = refl

down_faults : on_client_down refused ≡ none
unfolding on_client_down
down_faults = refl

last_task : check_turn 3 2 ≡ (2, 0)
unfolding check_turn
last_task = refl

abbrev backend : RemoteClient
backend = new_client (record { ip = 10; port = 80 })

abbrev session : Session
session = record { lives = true; to_client = []; is_shut = false; context = some backend }

session-Relays : Relays session [] [] false
session-Relays = record {
  backend = backend;
  has_backend = refl;
  lives = refl;
  sent_lem = refl;
  received_lem = refl;
  shut_lem = refl;
  order = λ u. absurd (cc (u));
}

-- Bytes before the connection is up, while it is, and after it was lost.
abbrev events : List Event
events =
    from_client (codes "a")
    ∷ backend_up
    ∷ from_client (codes "b")
    ∷ from_backend (codes "x")
    ∷ backend_down
    ∷ backend_up
    ∷ from_client (codes "c")
    ∷ from_backend (codes "y")
    ∷ []

run-Relays_example :
    (t : Session) × (run session events ≡ some t) × Relays t (codes "abc") (codes "x") true
run-Relays_example = run-Relays session [] [] false events session-Relays
