-- ===== src/TcpClient/Tests.antt =====
-- Runs of the client, and its theorem at a concrete input.
use vortex_net.Base.{ℕ, ◌≡◌, refl, true, List, [], ◌∷◌, Option, none, some}
use vortex_net.Connector as Connecting
use vortex_net.Connector.{under_way, refused}
use vortex_net.TcpClient.{
  TcpClient, new, enable_retry, connect, disconnect, new_connection, remove_connection, stop,
}
use vortex_net.TcpClient.Retry.{
  Event, start_functor, retry_timer, stop_functor, lost, run, on_event, run-stop,
}

-- A client that has no connection may not be disconnected.
null_connection : disconnect new ≡ none
unfolding disconnect
null_connection = refl

abbrev delays_of : Option TcpClient → List ℕ
delays_of none = []
delays_of (some c) = c.connector.delays

-- A connection that is lost is made again, after half a second.
abbrev connected : TcpClient
connected = new_connection (enable_retry new) 8

lost_one : delays_of (run connected (lost ∷ [])) ≡ 500 ∷ []
unfolding run on_event new_connection remove_connection Connecting.restart
lost_one = refl

-- A timer of `retry` that is pending when the client is stopped begins an attempt all the same.
abbrev refused_once : TcpClient
refused_once = connect (enable_retry new) 8 (refused 111)

abbrev channel_of : Option TcpClient → Option ℕ
channel_of none = none
channel_of (some c) = c.connector.channel

stop_then_retry :
    channel_of (run (stop refused_once) (stop_functor ∷ retry_timer 9 under_way ∷ [])) ≡ some 9
unfolding run on_event connect stop Connecting.stop Connecting.stop_in_loop Connecting.start
    Connecting.start_in_loop Connecting.connect Connecting.begin Connecting.retry
    Connecting.on_retry_timer
stop_then_retry = refl

-- Stopped, the client keeps still when its connection is lost and when an attempt that waited comes.
abbrev quiet_events : List Event
quiet_events = stop_functor ∷ lost ∷ start_functor 9 under_way ∷ retry_timer 9 under_way ∷ []

abbrev quiet : TcpClient
quiet = record (stop connected) {
  conn = none;
  destroyed = record { id = 1; fd = 8; is_shut = true; sent = [] } ∷ [];
}

none_handed : connected.connector.handed ≡ []
unfolding new_connection
none_handed = refl

no_timer : connected.connector.retry_timers ≡ 0
unfolding new_connection
no_timer = refl

keeps_quiet : run (stop connected) quiet_events ≡ some quiet
unfolding run on_event new_connection remove_connection stop Connecting.stop Connecting.stop_in_loop
    Connecting.start_in_loop Connecting.on_retry_timer
keeps_quiet = refl

run-stop_example :
    (quiet.next_conn_id ≡ connected.next_conn_id)
    × (quiet.connector.delays ≡ connected.connector.delays)
run-stop_example = run-stop quiet_events connected quiet none_handed no_timer keeps_quiet
