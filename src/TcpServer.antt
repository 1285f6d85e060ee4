-- ===== src/TcpServer.antt =====
-- src/TcpServer.cc and src/Acceptor.cc: the connections that a server has, and what it asks of their loops.
pub mod Tally
mod Tests
use vortex_net.Base.{
  ℕ, zero, suc, ◌+◌, Bool, true, false, List, [], ◌∷◌, ◌++◌, Option, none, some, ◌==◌,
  if◌then◌else◌,
}
use vortex_net.EventLoopThreadPool.{EventLoopThreadPool, get_next_loop}
use vortex_net.EventLoopThreadPool as Pool

-- A `TcpConnection` of the server. Its name is the server's with the number `id` behind it.
pub record Connection : Type 0 where
  pub id : ℕ
  pub fd : ℕ
  -- The loop that `getNextLoop` gave.
  pub io_loop : Option ℕ

-- A functor that is given to the loop of the connection.
pub data Functor : Type 0 where
  establish : Connection → Functor
  destroy : Connection → Functor

-- `connections` is the map, from the newest on, and `functors` what the loops were given, the latest first.
pub record TcpServer : Type 0 where
  pub thread_pool : EventLoopThreadPool
  pub started : ℕ
  pub is_listening : Bool
  -- An `int` in the source: the number of the next connection, here without its bound of 2^31.
  pub next_conn_id : ℕ
  pub connections : List Connection
  pub functors : List Functor
  -- The sockets that were accepted and closed at once.
  pub closed : List ℕ

abbrev pub new : EventLoopThreadPool → TcpServer
new pool = record {
  thread_pool = pool;
  started = 0;
  is_listening = false;
  next_conn_id = 1;
  connections = [];
  functors = [];
  closed = [];
}

-- `start`, with the loops that the threads of the pool give: the second call and those after it only count.
-- The acceptor listens, in the server's loop.
unfoldable pub start : TcpServer → List ℕ → TcpServer
start s given = record s {
  thread_pool = if s.started == 0 then Pool.start s.thread_pool given else s.thread_pool;
  started = suc s.started;
  is_listening = if s.started == 0 then true else s.is_listening;
}

-- `newConnection`.
unfoldable pub new_connection : TcpServer → ℕ → TcpServer
new_connection s fd =
    let (io_loop, pool) = get_next_loop s.thread_pool in
    let conn : Connection = record { id = s.next_conn_id; fd = fd; io_loop = io_loop } in
    record s {
      thread_pool = pool;
      next_conn_id = suc s.next_conn_id;
      connections = conn ∷ s.connections;
      functors = establish conn ∷ s.functors;
    }

-- `Acceptor::handleRead`, with whether the server has set its callback and the socket that `accept` gave.
unfoldable pub handle_read : Bool → TcpServer → Option ℕ → TcpServer
handle_read has_callback s none = s
handle_read has_callback s (some fd) =
    if has_callback then new_connection s fd else record s { closed = fd ∷ s.closed }

-- `std::unordered_map::erase`, by the name.
unfoldable pub erase : ℕ → List Connection → List Connection
erase id [] = []
erase id (c ∷ cs) = let rest = erase id cs in if id == c.id then rest else c ∷ rest

-- `removeConnectionInLoop`, in the server's loop.
unfoldable pub remove_connection_in_loop : TcpServer → Connection → TcpServer
remove_connection_in_loop s conn = record s {
  connections = erase conn.id s.connections;
  functors = destroy conn ∷ s.functors;
}

-- `~TcpServer`: what is still in the map is destroyed.
unfoldable pub destroy_all : List Connection → List Functor → List Functor
destroy_all [] fs = fs
destroy_all (c ∷ cs) fs = destroy_all cs (destroy c ∷ fs)

unfoldable pub destruct : TcpServer → TcpServer
destruct s = record s { connections = []; functors = destroy_all s.connections s.functors }
