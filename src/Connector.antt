-- ===== src/Connector.antt =====
-- src/Connector.h and Connector.cc: connecting to a server, with retries. A descriptor is a number; what
-- socket, connect and getsockopt answer is an argument. Reading the descriptor of a channel that is not
-- there is a fault, `none`.
pub mod Backoff
pub mod Descriptors
mod Tests
use vortex_net.Base.{
  ℕ, zero, suc, ◌+◌, ◌*◌, Bool, true, false, not, ◌&&◌, List, [], ◌∷◌, ◌++◌, Option, none, some,
  min, if◌then◌else◌,
}

-- `StateE`.
pub data ConnState : Type 0 where
  disconnected : ConnState
  connected : ConnState
  connecting : ConnState

abbrev pub is_connecting : ConnState → Bool
is_connecting connecting = true
is_connecting _ = false

-- The functors that the connector queues in its loop; a queued channel is only kept alive.
pub data Task : Type 0 where
  start_task : Task
  stop_task : Task
  error_task : ℕ → Task

pub record Connector : Type 0 where
  pub state : ConnState
  pub connect_wanted : Bool
  pub retries : Bool
  pub has_new_connection : Bool
  pub has_error_callback : Bool
  -- The channel's descriptor; its interest is in writing.
  pub channel : Option ℕ
  pub retry_delay_ms : ℕ
  pub pending : List Task
  -- The delays given to `runAfter`, each to start again, the latest first.
  pub delays : List ℕ
  -- How many timers of `retry` have still to go off.
  pub retry_timers : ℕ
  -- The descriptors closed, and those given to the new connection callback, the latest first.
  pub closed : List ℕ
  pub handed : List ℕ

abbrev pub init_retry_delay_ms : ℕ
init_retry_delay_ms = 500

abbrev pub max_retry_delay_ms : ℕ
max_retry_delay_ms = 30 * 1000

abbrev pub new : Connector
new = record {
  state = disconnected;
  connect_wanted = false;
  retries = false;
  has_new_connection = false;
  has_error_callback = false;
  channel = none;
  retry_delay_ms = 500;
  pending = [];
  delays = [];
  retry_timers = 0;
  closed = [];
  handed = [];
}

-- How `::connect` ends: 0 or an error's number, by the cases of the switch.
pub data Outcome : Type 0 where
  -- 0, EINPROGRESS, EINTR and EISCONN.
  under_way : Outcome
  -- EAGAIN, ECONNREFUSED and ENETUNREACH, with the number.
  refused : ℕ → Outcome
  -- Any other error.
  other : Outcome

abbrev pub the_fd : Option ℕ → List ℕ
the_fd none = []
the_fd (some fd) = fd ∷ []

-- The method `connecting`.
unfoldable pub begin : Connector → ℕ → Connector
begin c fd = record c {
  state = connecting;
  channel = some fd;
  closed = the_fd c.channel ++ c.closed;
}

unfoldable pub retry : Connector → ℕ → ℕ → Connector
retry c fd error =
    let shut = record c { state = disconnected; channel = none; closed = fd ∷ c.closed } in
    if c.connect_wanted && c.retries
    then record shut {
      delays = c.retry_delay_ms ∷ c.delays;
      retry_timers = suc c.retry_timers;
      retry_delay_ms = min (2 * c.retry_delay_ms) max_retry_delay_ms;
    }
    else (if not c.retries && c.has_error_callback
        then record shut { pending = c.pending ++ error_task error ∷ [] }
        else shut)

-- `connect`, with the new socket.
unfoldable pub connect : Connector → ℕ → Outcome → Connector
connect c fd under_way = begin c fd
connect c fd (refused error) = retry c fd error
connect c fd other = record c { closed = fd ∷ c.closed }

-- `startInLoop`.
unfoldable pub start_in_loop : Connector → ℕ → Outcome → Connector
start_in_loop c fd o = if c.connect_wanted then connect c fd o else c

-- `start`, from the loop's thread or another.
unfoldable pub start : Bool → Connector → ℕ → Outcome → Connector
start in_loop c fd o =
    let wanted = record c { connect_wanted = true } in
    if in_loop
    then start_in_loop wanted fd o
    else record wanted { pending = c.pending ++ start_task ∷ [] }

-- A timer of `retry` goes off: it calls `start`, which wants a connection again.
unfoldable pub on_retry_timer : Connector → ℕ → Outcome → Connector
on_retry_timer c fd o = elim c.retry_timers [
  | zero ↦ c
  | suc n ↦ start true (record c { retry_timers = n }) fd o
]

-- The timer that it sets calls `startInLoop`.
unfoldable pub restart : Connector → Connector
restart c = record c {
  state = disconnected;
  retry_delay_ms = init_retry_delay_ms;
  connect_wanted = true;
  delays = init_retry_delay_ms ∷ c.delays;
}

unfoldable pub stop : Connector → Connector
stop c = record c { connect_wanted = false; pending = c.pending ++ stop_task ∷ [] }

unfoldable pub stop_in_loop : Connector → Connector
stop_in_loop c = record c { state = disconnected; channel = none }

-- The branch of `handleWrite` for a connection that succeeded.
unfoldable pub succeed : Connector → ℕ → Connector
succeed c fd =
    if c.connect_wanted
    then record c {
      state = connected;
      channel = none;
      handed = if c.has_new_connection then fd ∷ c.handed else c.handed;
    }
    else record c { state = connected; closed = fd ∷ c.closed }

abbrev pub verdict : Connector → ℕ → ℕ → Connector
verdict c fd error = elim error [ zero ↦ succeed c fd | suc e ↦ retry c fd (suc e) ]

-- The body of `handleWrite` below its guard, with the channel.
abbrev pub write_ready : Option ℕ → Connector → ℕ → Option Connector
write_ready none c error = none
write_ready (some fd) c error = some (verdict c fd error)

-- `handleWrite` and `handleError`, with the socket's error.
unfoldable pub handle_write : Connector → ℕ → Option Connector
handle_write c error = if is_connecting c.state then write_ready c.channel c error else some c

unfoldable pub handle_error : Connector → ℕ → Option Connector
handle_error c error = elim c.channel [ none ↦ none | some fd ↦ some (retry c fd error) ]
