-- ===== src/TcpConnection.antt =====
-- src/TcpConnection.cc and TcpConnection.h: one connection, driven by its event loop. What the kernel
-- answers to `::write` and `::readv` is an argument of each call; the callbacks of the user are
-- recorded in the order in which they are made, and functors queued in the loop stay in a list.
pub mod Stream
pub mod Flush
pub mod Calls
pub mod Closing
pub mod Shutdown
pub mod Close
mod Tests
use vortex_net.Base.{
  ℕ, ◌+◌, ◌-◌, Bool, true, false, not, ◌&&◌, List, [], ◌∷◌, ◌++◌, Option, none, some, length, take,
  drop, ltb, leb, ◌==◌, if◌then◌else◌,
}
use vortex_net.Buffer.{
  Buffer, readable_bytes, peek, retrieve, retrieve_all, retrieve_all_as_string, append, read_fd,
  Readv, ReadResult, done, overrun,
}

-- `StateE`.
pub data ConnState : Type 0 where
  disconnected connecting connected disconnecting : ConnState

-- What is queued in the loop for later.
pub data Functor : Type 0 where
  send_in_loop_task : List ℕ → Functor
  shutdown_in_loop_task : Functor
  force_close_in_loop_task : Functor
  write_complete_task : Functor
  high_water_mark_task : ℕ → Functor

-- The calls made to the user and to the owner of the connection.
pub data Callback : Type 0 where
  connection_callback : ConnState → Callback
  message_callback : Callback
  close_callback : Callback

pub record TcpConnection : Type 0 where
  pub state : ConnState
  -- The interest that `channel_` has registered.
  pub read_enabled : Bool
  pub write_enabled : Bool
  -- The channel is in the poller.
  pub registered : Bool
  pub output_buffer : Buffer
  pub input_buffer : Buffer
  pub high_water_mark : ℕ
  pub has_write_complete : Bool
  pub has_high_water_mark : Bool
  -- What the outside has seen: the bytes that the kernel took, and whether the write side is shut.
  pub wire : List ℕ
  pub write_shut : Bool
  pub pending : List Functor
  pub calls : List Callback

-- What `::write` answers.
pub data Write : Type 0 where
  wrote : ℕ → Write
  would_block : Write
  -- EPIPE or ECONNRESET.
  peer_gone : Write
  other_error : Write

abbrev pub is_connected : ConnState → Bool
is_connected connected = true
is_connected _ = false

abbrev pub is_disconnecting : ConnState → Bool
is_disconnecting disconnecting = true
is_disconnecting _ = false

abbrev pub is_disconnected : ConnState → Bool
is_disconnected disconnected = true
is_disconnected _ = false

-- `state_==kConnected || state_==kDisconnecting`.
abbrev pub is_open : ConnState → Bool
is_open connected = true
is_open disconnecting = true
is_open _ = false

abbrev pub queue_if : Bool → Functor → List Functor → List Functor
queue_if test f fs = if test then fs ++ (f ∷ []) else fs

abbrev pub queue_in_loop : TcpConnection → Functor → TcpConnection
queue_in_loop c f = record c { pending = c.pending ++ (f ∷ []) }

-- The write that `sendInLoop` tries at once: how much went out, whether the peer is gone.
pub record Tried : Type 0 where
  pub conn : TcpConnection
  pub nwrote : ℕ
  pub fault_error : Bool

unfoldable pub write_now : TcpConnection → List ℕ → Write → Tried
write_now c bytes (wrote n) = record {
  conn = record c {
    wire = c.wire ++ take n bytes;
    pending =
        queue_if ((length bytes - n == 0) && c.has_write_complete) write_complete_task c.pending;
  };
  nwrote = n;
  fault_error = false;
}
write_now c bytes would_block = record { conn = c; nwrote = 0; fault_error = false }
write_now c bytes peer_gone = record { conn = c; nwrote = 0; fault_error = true }
write_now c bytes other_error = record { conn = c; nwrote = 0; fault_error = false }

-- What was not written goes to the output buffer, and the loop is asked to say when the socket can
-- take more.
unfoldable pub keep_rest : TcpConnection → List ℕ → TcpConnection
keep_rest c rest =
    let old = readable_bytes c.output_buffer in
    let over =
      leb c.high_water_mark (old + length rest)
      && ltb old c.high_water_mark
      && c.has_high_water_mark in
    record c {
      output_buffer = append c.output_buffer rest;
      write_enabled = true;
      pending = queue_if over (high_water_mark_task (old + length rest)) c.pending;
    }

unfoldable pub try_write : TcpConnection → List ℕ → Write → Tried
unfolding write_now
try_write c bytes w =
    if not c.write_enabled && (readable_bytes c.output_buffer == 0)
    then write_now c bytes w
    else record { conn = c; nwrote = 0; fault_error = false }

unfoldable pub send_in_loop : TcpConnection → List ℕ → Write → TcpConnection
send_in_loop c bytes w =
    if is_disconnected c.state
    then c
    else let t = try_write c bytes w in
      if not t.fault_error && ltb 0 (length bytes - t.nwrote)
      then keep_rest t.conn (drop t.nwrote bytes)
      else t.conn

-- `send(const std::string &)` and `send(const char *, size_t)`, from the loop's thread or another.
unfoldable pub send : Bool → TcpConnection → List ℕ → Write → TcpConnection
send in_loop c bytes w =
    if is_connected c.state
    then if in_loop then send_in_loop c bytes w else queue_in_loop c (send_in_loop_task bytes)
    else c

-- `send(Buffer *)`, with the buffer that it consumes.
unfoldable pub send_buffer : Bool → TcpConnection → Buffer → Write → TcpConnection × Buffer
send_buffer in_loop c buf w =
    if is_connected c.state
    then if in_loop
      then (send_in_loop c (peek buf (readable_bytes buf)) w, retrieve_all buf)
      else (let (bytes, rest) = retrieve_all_as_string buf in (send false c bytes w, rest))
    else (c, buf)

unfoldable pub shutdown_in_loop : TcpConnection → TcpConnection
shutdown_in_loop c = if c.write_enabled then c else record c { write_shut = true }

unfoldable pub shutdown : Bool → TcpConnection → TcpConnection
shutdown in_loop c =
    if is_connected c.state
    then (let closing = record c { state = disconnecting } in
        if in_loop then shutdown_in_loop closing else queue_in_loop closing shutdown_in_loop_task)
    else c

-- `channel_->disableAll()`.
abbrev pub disable_all : TcpConnection → TcpConnection
disable_all c = record c { read_enabled = false; write_enabled = false }

abbrev pub log : TcpConnection → List Callback → TcpConnection
log c events = record c { calls = c.calls ++ events }

unfoldable pub handle_close : TcpConnection → TcpConnection
handle_close c =
    log (disable_all (record c { state = disconnected }))
      (connection_callback disconnected ∷ close_callback ∷ [])

unfoldable pub force_close_in_loop : TcpConnection → TcpConnection
force_close_in_loop c = if is_open c.state then handle_close c else c

unfoldable pub force_close : Bool → TcpConnection → TcpConnection
force_close in_loop c =
    if is_open c.state
    then (let closing = record c { state = disconnecting } in
        if in_loop
        then force_close_in_loop closing
        else queue_in_loop closing force_close_in_loop_task)
    else c

unfoldable pub connect_established : TcpConnection → TcpConnection
connect_established c =
    log (record c { state = connected; read_enabled = true; registered = true })
      (connection_callback connected ∷ [])

unfoldable pub connect_destroyed : TcpConnection → TcpConnection
connect_destroyed c =
    let down =
      if is_connected c.state
      then log (disable_all (record c { state = disconnected }))
          (connection_callback disconnected ∷ [])
      else c in
    record down { registered = false }

-- `handleRead`; none where `readFd` runs past its stack buffer.
unfoldable pub handle_read : TcpConnection → Readv → Option TcpConnection
handle_read c r = elim (read_fd c.input_buffer r) [
  | overrun n ↦ none
  | done buf n e ↦
      let filled = record c { input_buffer = buf } in
      some (if ltb 0 n then log filled (message_callback ∷ []) else handle_close filled)
]

abbrev pub written : Write → ℕ
written (wrote n) = n
written _ = 0

unfoldable pub drained : TcpConnection → TcpConnection
drained c =
    let quiet = record c {
      write_enabled = false;
      pending = queue_if c.has_write_complete write_complete_task c.pending;
    } in
    if is_disconnecting c.state then shutdown_in_loop quiet else quiet

unfoldable pub handle_write : TcpConnection → Write → TcpConnection
handle_write c w =
    if c.write_enabled && ltb 0 (written w)
    then (let rest = record c {
      output_buffer = retrieve c.output_buffer (written w);
      wire = c.wire ++ take (written w) (peek c.output_buffer (readable_bytes c.output_buffer));
    } in
        if readable_bytes rest.output_buffer == 0 then drained rest else rest)
    else c

-- A queued functor, when the loop runs it.
unfoldable pub run_functor : TcpConnection → Functor → Write → TcpConnection
run_functor c (send_in_loop_task bytes) w = send_in_loop c bytes w
run_functor c shutdown_in_loop_task w = shutdown_in_loop c
run_functor c force_close_in_loop_task w = force_close_in_loop c
run_functor c write_complete_task w = c
run_functor c (high_water_mark_task n) w = c
