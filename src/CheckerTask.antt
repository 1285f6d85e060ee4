-- ===== src/CheckerTask.antt =====
-- Proxy/src/L4/HealthCheck/CheckerTask.h and CheckerTask.cc: one backend's probe. The client and the
-- loop are seen through the calls made of them, the latest first; reading the handle of a timer that was
-- never set, and cancelling one that has gone off and is deleted, is a fault, `none`.
pub mod Probe
mod Tests
use vortex_net.Base.{ℕ, Bool, true, false, List, [], ◌∷◌, Option, none, some, if◌then◌else◌}
use vortex_net.ServerNode.{ServerNode, update_status}

pub data Call : Type 0 where
  connect : Call
  stop : Call
  -- `runAfter(2.0, onTimeout)`, with the handle that it gives.
  run_after : ℕ → Call
  cancel : ℕ → Call
  -- `SO_LINGER` of 0 seconds, then `forceClose`.
  force_close : Call

pub record CheckerTask : Type 0 where
  pub node : ServerNode
  pub has_determined : Bool
  pub is_probing : Bool
  pub timer_id : Option ℕ
  -- Whether the timer of `timer_id` has gone off.
  pub timer_expired : Bool
  pub calls : List Call

abbrev pub new : ServerNode → CheckerTask
new n = record {
  node = n;
  has_determined = false;
  is_probing = false;
  timer_id = none;
  timer_expired = false;
  calls = [];
}

unfoldable pub start : CheckerTask → ℕ → CheckerTask
start t timer = if t.is_probing then t else record t {
  is_probing = true;
  has_determined = false;
  timer_id = some timer;
  timer_expired = false;
  calls = run_after timer ∷ connect ∷ t.calls;
}

unfoldable pub on_timeout : CheckerTask → CheckerTask
on_timeout t = if t.has_determined then record t { timer_expired = true } else record t {
  timer_expired = true;
  has_determined = true;
  node = update_status t.node false;
  calls = stop ∷ t.calls;
  is_probing = false;
}

abbrev pub cancel_set : Option ℕ → CheckerTask → Option CheckerTask
cancel_set none t = some t
cancel_set (some timer) t =
    if t.timer_expired then none else some (record t { calls = cancel timer ∷ t.calls })

-- The rest of `onConnection`, once the timer is cancelled.
abbrev pub connection_is : CheckerTask → Bool → CheckerTask
connection_is t up =
    if up
    then (if t.has_determined then t else record t {
      has_determined = true;
      node = update_status t.node true;
      calls = force_close ∷ t.calls;
      is_probing = false;
    })
    else record t { is_probing = false }

-- `onConnection`, of a connection that is up or down.
unfoldable pub on_connection : CheckerTask → Bool → Option CheckerTask
on_connection t up = elim (cancel_set t.timer_id t) [
  | none ↦ none
  | some c ↦ some (connection_is c up)
]

-- The error's number, by the test in `onError`: EAGAIN and EMFILE, or any other.
pub data ProbeError : Type 0 where
  local : ProbeError
  remote : ProbeError

abbrev pub failed : Option ℕ → CheckerTask → Option CheckerTask
failed none t = none
failed (some timer) t =
    if t.timer_expired
    then none
    else some (record t {
      has_determined = true;
      node = update_status t.node false;
      calls = stop ∷ cancel timer ∷ t.calls;
      is_probing = false;
    })

unfoldable pub on_error : CheckerTask → ProbeError → Option CheckerTask
on_error t local =
    some (if t.has_determined then t else record t { has_determined = true; is_probing = false })
on_error t remote = if t.has_determined then some t else failed t.timer_id t
