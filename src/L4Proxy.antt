-- ===== src/L4Proxy.antt =====
-- Proxy/src/L4: the balancer that relays the bytes of one client's connection (LB_Server.h) over a connection
-- to a backend (RemoteClient.cc), and the turns of the health checks (HealthChecker.cc).
pub mod Relay
mod Tests
use vortex_net.Base.{
  ℕ, zero, suc, ◌+◌, ◌%◌, Bool, true, false, ◌&&◌, List, [], ◌∷◌, ◌++◌, Option, none, some, ltb,
  ◌==◌, if◌then◌else◌, length,
}
use vortex_net.ServerNode.{InetAddress}
use vortex_net.Selector.{Selector, get_by_hash}

-- `up`: whether the TcpClient holds a connection; `sent` are the bytes that its connections were given.
-- `stopped`: whether `TcpClient::stop` was called; `closing`: whether the connection was shut down.
pub record RemoteClient : Type 0 where
  pub server_addr : InetAddress
  pub up : Bool
  pub sent : List ℕ
  pub pending_buffer : List ℕ
  pub stopped : Bool
  pub closing : Bool

abbrev pub new_client : InetAddress → RemoteClient
new_client a = record {
  server_addr = a;
  up = false;
  sent = [];
  pending_buffer = [];
  stopped = false;
  closing = false;
}

-- The client's connection: whether it is there, the bytes that it was given, whether it was shut down, and the
-- RemoteClient in its context.
pub record Session : Type 0 where
  pub lives : Bool
  pub to_client : List ℕ
  pub is_shut : Bool
  pub context : Option RemoteClient

-- `onConnection` of a client that comes, with the hash of the text of its IP.
unfoldable pub on_client_up : Selector → ℕ → Session
on_client_up q ip_hash =
    let addr = get_by_hash q ip_hash in
    if addr.ip == 0
    then record { lives = true; to_client = []; is_shut = true; context = none }
    else record { lives = true; to_client = []; is_shut = false; context = some (new_client addr) }

-- `TcpClient::stop`.
abbrev pub stop : RemoteClient → RemoteClient
stop r = record r { stopped = true; closing = r.up }

-- `sendToBackend`: the whole buffer. `TcpConnection::send` does nothing on a connection that was shut
-- down: the bytes stay in the buffer of a client that is gone.
unfoldable pub send_to_backend : RemoteClient → List ℕ → RemoteClient
send_to_backend r bytes =
    if r.up
    then if r.closing then r else record r { sent = r.sent ++ bytes }
    else record r { pending_buffer = r.pending_buffer ++ bytes }

-- `RemoteClient::onConnection` of a connection that is up, with what the TcpClient does around it.
unfoldable pub on_backend_up : RemoteClient → RemoteClient
on_backend_up r =
    if ltb 0 (length r.pending_buffer)
    then record r {
      up = true;
      closing = false;
      sent = r.sent ++ r.pending_buffer;
      pending_buffer = [];
    }
    else record r { up = true; closing = false }

-- The handlers; none is the read of a context that holds no RemoteClient.
abbrev pub with_context : Session → RemoteClient → Session
with_context s r = record s { context = some r }

-- `onConnection` of a client that goes.
unfoldable pub on_client_down : Session → Option Session
on_client_down s = elim s.context [
  | none ↦ none
  | some r ↦ some (record s { lives = false; context = some (stop r) })
]

-- `onMessage` of the client.
unfoldable pub on_client_message : Session → List ℕ → Option Session
on_client_message s bytes = elim s.context [
  | none ↦ none
  | some r ↦ some (with_context s (send_to_backend r bytes))
]

-- `RemoteClient::onConnection` of a connection that is lost: the client is shut down.
unfoldable pub on_backend_down : Session → RemoteClient → Session
on_backend_down s r = record s {
  is_shut = if s.lives then true else s.is_shut;
  context = some (record r { up = false });
}

-- `RemoteClient::onMessage`. A client that was shut down is given nothing: `TcpConnection::send` does
-- nothing then.
unfoldable pub on_backend_message : Session → RemoteClient → List ℕ → Session
on_backend_message s r bytes =
    if s.lives
    then if s.is_shut then s else record s { to_client = s.to_client ++ bytes }
    else with_context s (record r { closing = true })

-- The turns of `HealthChecker::start`: the task that is started, and the next `TaskIndex_`, among so many.
unfoldable pub check_turn : ℕ → ℕ → ℕ × ℕ
check_turn tasks index = (index, (index + 1) % tasks)
