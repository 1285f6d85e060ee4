-- ===== src/EventLoop.antt =====
-- src/EventLoop.cc: the queue of functors, the wake-up, and the turns of the loop. A functor is a number, and
-- what other threads, callbacks and functors do in between are steps of their own.
pub mod Turns
mod Tests
use vortex_net.Base.{
  ℕ, zero, suc, ◌<◌, ◌≡◌, Bool, true, false, not, ◌||◌, List, [], ◌∷◌, ◌++◌, if◌then◌else◌,
}

-- Where the loop's thread is.
pub data Phase : Type 0 where
  -- In `poll`.
  polling : Phase
  -- Between `poll` and `doPendingFunctors`.
  handling : Phase
  -- In the loop of `doPendingFunctors`, with the rest of its `functors`.
  calling : List ℕ → Phase
  -- Behind the loop of `loop`.
  ended : Phase

-- `wakeups` is what the counter of the event descriptor holds. `queued`, `ran` and `late` are kept for the
-- statements: all functors ever queued, those that were called, and those that functors of this turn queued.
pub record EventLoop : Type 0 where
  pub phase : Phase
  pub quits : Bool
  pub wakeups : ℕ
  pub calling_pending_functors : Bool
  pub pending_functors : List ℕ
  pub queued : List ℕ
  pub ran : List ℕ
  pub late : List ℕ

-- `loop`, as it enters its first `poll`.
abbrev pub new : EventLoop
new = record {
  phase = polling;
  quits = false;
  wakeups = 0;
  calling_pending_functors = false;
  pending_functors = [];
  queued = [];
  ran = [];
  late = [];
}

abbrev pub wakeup : EventLoop → EventLoop
wakeup l = record l { wakeups = suc l.wakeups }

abbrev pub push_back : EventLoop → ℕ → EventLoop
push_back l f = record l {
  pending_functors = l.pending_functors ++ f ∷ [];
  queued = l.queued ++ f ∷ [];
}

-- `queueInLoop`, with whether it is called in the loop's thread.
unfoldable pub queue_in_loop : Bool → EventLoop → ℕ → EventLoop
queue_in_loop in_thread l f =
    if not in_thread || not l.calling_pending_functors
    then wakeup (push_back l f)
    else push_back l f

-- `quit`.
unfoldable pub quit : Bool → EventLoop → EventLoop
quit in_thread l =
    if in_thread then record l { quits = true } else wakeup (record l { quits = true })

-- `handleReading`: a read takes the whole counter.
abbrev pub handle_reading : EventLoop → EventLoop
handle_reading l = record l { wakeups = 0 }

-- `doPendingFunctors`, down to the swap.
unfoldable pub begin_functors : EventLoop → EventLoop
begin_functors l = record l {
  phase = calling l.pending_functors;
  calling_pending_functors = true;
  pending_functors = [];
  late = [];
}

-- The next functor is called.
abbrev pub call_functor : EventLoop → ℕ → List ℕ → EventLoop
call_functor l f fs = record l { phase = calling fs; ran = l.ran ++ f ∷ [] }

-- The end of `doPendingFunctors`, and the test of `loop`.
unfoldable pub end_functors : EventLoop → EventLoop
end_functors l = record l {
  phase = if l.quits then ended else polling;
  calling_pending_functors = false;
}

-- What the loop's thread and the others can do next.
pub data Step : EventLoop → EventLoop → Type 0 where
  -- Another thread.
  queued_outside : {l : EventLoop} (f : ℕ) → Step l (queue_in_loop false l f)
  quit_outside : {l : EventLoop} → Step l (quit false l)
  -- `poll` returns, for whatever channel, or after its time.
  poll_returns : {l : EventLoop} → l.phase ≡ polling → Step l (record l { phase = handling })
  -- The callbacks of the channels, the wake-up's among them.
  woken : {l : EventLoop} → l.phase ≡ handling → 0 < l.wakeups → Step l (handle_reading l)
  queued_by_callback :
      {l : EventLoop} (f : ℕ) → l.phase ≡ handling → Step l (queue_in_loop true l f)
  quit_by_callback : {l : EventLoop} → l.phase ≡ handling → Step l (quit true l)
  -- `doPendingFunctors`.
  functors_begin : {l : EventLoop} → l.phase ≡ handling → Step l (begin_functors l)
  functor_called :
      {l : EventLoop} (f : ℕ) (fs : List ℕ)
      → l.phase ≡ calling (f ∷ fs)
      → Step l (call_functor l f fs)
  queued_by_functor :
      {l : EventLoop} (f : ℕ) (fs : List ℕ)
      → l.phase ≡ calling fs
      → Step l (record (queue_in_loop true l f) { late = l.late ++ f ∷ [] })
  quit_by_functor : {l : EventLoop} (fs : List ℕ) → l.phase ≡ calling fs → Step l (quit true l)
  functors_end : {l : EventLoop} → l.phase ≡ calling [] → Step l (end_functors l)

pub data Reach : EventLoop → Type 0 where
  start : Reach new
  step : {l m : EventLoop} → Reach l → Step l m → Reach m
