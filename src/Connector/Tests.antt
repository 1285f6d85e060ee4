-- ===== src/Connector/Tests.antt =====
-- Runs of the connector, and its theorems at concrete inputs.
use vortex_net.Base.{ℕ, ◌+◌, ◌≡◌, refl, true, false, List, [], ◌∷◌, Option, none, some}
use vortex_net.Connector.{
  Connector, new, begin, retry, connect, start_in_loop, start, stop, stop_in_loop, restart,
  on_retry_timer, under_way, refused, handle_write, handle_error, the_fd,
}
use vortex_net.Connector.Backoff.{
  Way, at_once, by_error, by_write, Failure, fail_all, retried, restart-delays,
}
use vortex_net.Connector.Descriptors.{
  handle_event, Reach, fresh, starts, fires, count, Reach-Accounted,
}

abbrev client : Connector
client = record new { retries = true; has_new_connection = true }

abbrev by : ℕ → Way → Failure
by fd way = record { way = way; fd = fd; error = 111 }

abbrev delays_of : Option Connector → List ℕ
delays_of none = []
delays_of (some c) = c.delays

-- Seven failures: the delay stops at half a minute.
capped :
    delays_of (
      fail_all (restart client) (
        by 7 at_once
        ∷ by 8 by_error
        ∷ by 9 by_write
        ∷ by 7 at_once
        ∷ by 8 by_error
        ∷ by 9 at_once
        ∷ by 7 by_write
        ∷ []))
    ≡ 30000 ∷ 16000 ∷ 8000 ∷ 4000 ∷ 2000 ∷ 1000 ∷ 500 ∷ 500 ∷ []
unfolding fail_all retried restart on_retry_timer start start_in_loop connect retry begin
    handle_error handle_write
capped = refl

-- Stopping a connection that is under way drops the channel without closing its socket.
stop_leaks :
    ((stop_in_loop (stop (start true client 7 under_way))).channel ≡ none)
    × ((stop_in_loop (stop (start true client 7 under_way))).closed ≡ [])
    × ((stop_in_loop (stop (start true client 7 under_way))).handed ≡ [])
unfolding stop_in_loop stop start start_in_loop connect begin
stop_leaks = (refl, refl, refl)

-- A second start that is refused drops the first attempt's channel without closing its socket.
second_start_leaks :
    ((start true (start true client 7 under_way) 8 (refused 111)).channel ≡ none)
    × ((start true (start true client 7 under_way) 8 (refused 111)).closed ≡ 8 ∷ [])
unfolding start start_in_loop connect begin retry
second_start_leaks = (refl, refl)

restart-delays_example :
    (d : Connector) × (fail_all (restart client) (by 7 at_once ∷ by 8 by_write ∷ []) ≡ some d)
    × (d.delays ≡ 1000 ∷ 500 ∷ 500 ∷ [])
restart-delays_example = restart-delays client (by 7 at_once ∷ by 8 by_write ∷ []) refl

-- An error and writability in one event: the socket is closed once.
failed : Connector
failed = retry (begin (record client { connect_wanted = true }) 7) 7 111

failed-Reach : Reach failed (7 ∷ [])
unfolding failed start start_in_loop connect begin retry handle_event handle_error handle_write
failed-Reach = fires (starts (fresh true false) refl 7 under_way) 7 refl (some 111) (some 111) refl

Reach-Accounted_example :
    ((x : ℕ)
      → count x (7 ∷ [])
        ≡ count x failed.closed + count x failed.handed + count x (the_fd failed.channel))
    × ((fd : ℕ) (e w : Option ℕ)
        → failed.channel ≡ some fd
        → (c' : Connector) × (handle_event failed e w ≡ some c'))
Reach-Accounted_example = Reach-Accounted failed (7 ∷ []) failed-Reach
