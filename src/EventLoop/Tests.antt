-- ===== src/EventLoop/Tests.antt =====
-- Runs of the loop, and its theorem at a concrete input.
use vortex_net.Base.{◌<◌, ◌≡◌, refl, ◌⊎◌, ◌++◌, true, false, [], ◌∷◌, arith}
use vortex_net.EventLoop.{
  EventLoop, polling, new, queue_in_loop, begin_functors, end_functors, Reach, start, step,
  queued_outside, poll_returns, woken, functors_begin, functor_called, queued_by_functor,
  functors_end,
}
use vortex_net.EventLoop.Turns.{Steps, taken, Reach-Live}

-- Another thread queues 1, the loop wakes up and calls it, and it queues 2.
abbrev stalled : EventLoop
stalled = record new { pending_functors = 2 ∷ []; queued = 1 ∷ 2 ∷ []; ran = 1 ∷ []; late = 2 ∷ [] }

abbrev queued_one : EventLoop
queued_one = queue_in_loop false new 1

stalled-Reach : Reach stalled
unfolding queue_in_loop begin_functors end_functors
stalled-Reach =
    let r1 = step start (queued_outside 1) in
    let r2 = step r1 (poll_returns refl) in
    let r3 = step r2 (woken refl (omega arith)) in
    let r4 = step r3 (functors_begin refl) in
    let r5 = step r4 (functor_called 1 [] refl) in
    let r6 = step r5 (queued_by_functor 2 [] refl) in step r6 (functors_end refl)

-- The loop goes back to `poll` with 2 pending and no wake-up: 2 waits for another event, or for the time of
-- `poll`.
no_wakeup : (stalled.wakeups ≡ 0) × (stalled.phase ≡ polling) × (stalled.pending_functors ≡ 2 ∷ [])
no_wakeup = (refl, refl, refl)

Reach-Live_example :
    (stalled.queued ≡ (stalled.ran ++ taken stalled.phase) ++ stalled.pending_functors)
    × (stalled.phase ≡ polling
        → ((0 < stalled.wakeups) ⊎ (stalled.pending_functors ≡ stalled.late))
          × (stalled.quits ≡ true → 0 < stalled.wakeups)
          × ((m : EventLoop) × Steps stalled m × (m.ran ≡ stalled.ran ++ stalled.pending_functors)))
Reach-Live_example = Reach-Live stalled stalled-Reach
