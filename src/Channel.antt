-- ===== src/Channel.antt =====
-- src/Channel.cc: the callbacks that the events of a descriptor lead to.
mod Tests
use vortex_net.Base.{Bool, true, false, not, ◌&&◌, ◌||◌, List, [], ◌∷◌, ◌++◌, if◌then◌else◌}

-- `revents_`, by the bits of it that the code reads.
pub record Revents : Type 0 where
  pub epollin : Bool
  pub epollpri : Bool
  pub epollout : Bool
  pub epollerr : Bool
  pub epollhup : Bool

-- Which callbacks are set.
pub record Callbacks : Type 0 where
  pub on_read : Bool
  pub on_write : Bool
  pub on_close : Bool
  pub on_error : Bool

pub data Call : Type 0 where
  close_call : Call
  error_call : Call
  read_call : Call
  write_call : Call

abbrev pub call_if : Bool → Call → List Call
call_if b c = if b then c ∷ [] else []

-- `handleEventWithGuard`: the callbacks that it calls, in order.
unfoldable pub handle_event_with_guard : Revents → Callbacks → List Call
handle_event_with_guard r cb =
    call_if ((r.epollhup && not r.epollin) && cb.on_close) close_call
    ++ (call_if (r.epollerr && cb.on_error) error_call
        ++ (call_if ((r.epollin || r.epollpri) && cb.on_read) read_call
            ++ call_if (r.epollout && cb.on_write) write_call))

-- `handleEvent`, with `tied_` and whether what the channel is tied to is still there.
unfoldable pub handle_event : Bool → Bool → Revents → Callbacks → List Call
handle_event tied lives r cb =
    if tied
    then (if lives then handle_event_with_guard r cb else [])
    else handle_event_with_guard r cb
