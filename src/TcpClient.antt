-- ===== src/TcpClient.antt =====
-- src/TcpClient.cc: a client's connection, which it makes again if it is lost.
pub mod Retry
mod Tests
use vortex_net.Base.{
  ℕ, zero, suc, Bool, true, false, ◌&&◌, List, [], ◌∷◌, ◌++◌, Option, none, some, if◌then◌else◌,
}
use vortex_net.Connector.{Connector, Outcome}
use vortex_net.Connector as Connecting

-- The `TcpConnection` that the client holds: its number and its socket, whether it was shut down, and the bytes
-- that it was given.
pub record Connection : Type 0 where
  pub id : ℕ
  pub fd : ℕ
  pub is_shut : Bool
  pub sent : List ℕ

-- `destroyed` are the connections whose `connectDestroyed` was queued.
pub record TcpClient : Type 0 where
  pub connector : Connector
  pub conn : Option Connection
  pub next_conn_id : ℕ
  pub retries : Bool
  pub connect_wanted : Bool
  pub destroyed : List Connection

abbrev pub new : TcpClient
new = record {
  connector = record Connecting.new { has_new_connection = true };
  conn = none;
  next_conn_id = 1;
  retries = false;
  connect_wanted = true;
  destroyed = [];
}

abbrev pub enable_retry : TcpClient → TcpClient
enable_retry c = record c { retries = true; connector = record (c.connector) { retries = true } }

-- `connect`, in the loop's thread, with what the connector meets.
unfoldable pub connect : TcpClient → ℕ → Outcome → TcpClient
connect c fd o = record c {
  connect_wanted = true;
  connector = Connecting.start true c.connector fd o;
}

abbrev pub shut_down : Connection → Connection
shut_down k = record k { is_shut = true }

-- `disconnect`, with what `conn_` holds; none is the call through a pointer that is null.
abbrev pub shut_conn : TcpClient → Connection → TcpClient
shut_conn c k = record c { connect_wanted = false; conn = some (shut_down k) }

abbrev pub disconnect_from : TcpClient → Option Connection → Option TcpClient
disconnect_from c none = none
disconnect_from c (some k) = some (shut_conn c k)

unfoldable pub disconnect : TcpClient → Option TcpClient
disconnect c = disconnect_from c c.conn

-- `newConnection`, which the connector calls.
unfoldable pub new_connection : TcpClient → ℕ → TcpClient
new_connection c fd = record c {
  next_conn_id = suc c.next_conn_id;
  conn = some (record { id = c.next_conn_id; fd = fd; is_shut = false; sent = [] });
}

-- A step of the connector, which calls `newConnection` if it has handed over a socket.
abbrev pub take_over : TcpClient → Connector → List ℕ → TcpClient
take_over c k [] = record c { connector = k }
take_over c k (fd ∷ fds) = new_connection (record c { connector = record k { handed = fds } }) fd

abbrev pub run_connector : TcpClient → Option Connector → Option TcpClient
run_connector c none = none
run_connector c (some k) = some (take_over c k k.handed)

-- `removeConnection`, of the connection k.
unfoldable pub remove_connection : TcpClient → Connection → TcpClient
remove_connection c k = record c {
  conn = none;
  destroyed = k ∷ c.destroyed;
  connector = if c.retries && c.connect_wanted then Connecting.restart c.connector else c.connector;
}

abbrev pub shut_if_there : Option Connection → Option Connection
shut_if_there none = none
shut_if_there (some k) = some (shut_down k)

-- `stop`.
unfoldable pub stop : TcpClient → TcpClient
stop c = record c {
  connect_wanted = false;
  connector = Connecting.stop c.connector;
  conn = shut_if_there c.conn;
}

-- `send`, of a buffer's bytes: whether there is a connection, which then has them if it was not shut
-- down.
abbrev pub send_to : TcpClient → Option Connection → List ℕ → Bool × TcpClient
send_to c none bytes = (false, c)
send_to c (some k) bytes =
    (true, if k.is_shut then c else record c { conn = some (record k { sent = k.sent ++ bytes }) })

unfoldable pub send : TcpClient → List ℕ → Bool × TcpClient
send c bytes = send_to c c.conn bytes
