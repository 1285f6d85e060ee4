-- ===== src/Channel/Tests.antt =====
-- Runs of the dispatch of events.
use vortex_net.Base.{◌≡◌, refl, true, false, [], ◌∷◌}
use vortex_net.Channel.{
  Revents, Callbacks, close_call, error_call, read_call, handle_event, handle_event_with_guard,
}

abbrev all_set : Callbacks
all_set = record { on_read = true; on_write = true; on_close = true; on_error = true }

abbrev broken : Revents
broken = record {
  epollin = false;
  epollpri = false;
  epollout = false;
  epollerr = true;
  epollhup = true;
}

-- A broken connection is closed before its error is handled.
close_first : handle_event false true broken all_set ≡ close_call ∷ error_call ∷ []
unfolding handle_event handle_event_with_guard
close_first = refl

-- What is left to read goes first, and the close waits.
half_closed :
    handle_event true true (record broken { epollin = true; epollerr = false }) all_set
    ≡ read_call ∷ []
unfolding handle_event handle_event_with_guard
half_closed = refl

-- Nothing is called for an object that is gone.
not_there : handle_event true false broken all_set ≡ []
unfolding handle_event
not_there = refl
