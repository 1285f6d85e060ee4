-- ===== src/TimerQueue/Tests.antt =====
-- Runs of the timer queue, and its theorems at concrete inputs.
use vortex_net.Base.{◌≡◌, refl, inl, true, false, [], ◌∷◌, none, some, arith, if◌then◌else◌}
use vortex_net.TimerQueue.{
  rearm_first, Timer, TimerQueue, contains, deref, insert_entry, insert, cancel_in_loop,
  get_expired, handle_read, before, from, activate, insert_pointer, run_expired, act_all, act,
  finish_expired, finish_one, reset_timerfd, delay, store, free, cancels, erase_entry,
  erase_pointer, drop_timer, first_time,
}
use vortex_net.TimerQueue.Order.{IsSorted, has_entry, insert_lem}
use vortex_net.TimerQueue.Expiry.{Cancelled, cancel_lem}
use vortex_net.TimerQueue.Stale.{cancel-expired}

abbrev one_shot : Timer
one_shot = record { expiration = 50; interval = 0; repeat = false; sequence = 1 }

abbrev every : Timer
every = record { expiration = 70; interval = 30; repeat = true; sequence = 2 }

abbrev two : TimerQueue
two = record {
  timers = record { time = 50; timer = 1000 } ∷ record { time = 70; timer = 2000 } ∷ [];
  active_timers = 1000 ∷ 2000 ∷ [];
  canceling_timers = [];
  calling_expired_timers = false;
  heap = (1000, one_shot) ∷ (2000, every) ∷ [];
  alarm = some (0, 100000);
}

two-IsSorted : IsSorted two.timers
two-IsSorted = ((refl, tt), (tt, tt))

-- The repeating timer is set again; the one-shot timer is deleted and stays marked active.
fired : TimerQueue
fired = record {
  timers = record { time = 110; timer = 2000 } ∷ [];
  active_timers = 1000 ∷ 2000 ∷ [];
  canceling_timers = [];
  calling_expired_timers = true;
  heap = (2000, record every { expiration = 110 }) ∷ [];
  alarm = some (0, 100000);
}

handle_read_both : handle_read (λ p. []) two 80 81 ≡ some fired
unfolding fired handle_read get_expired before from activate insert_pointer contains run_expired
    deref act_all finish_expired finish_one insert insert_entry store free reset_timerfd delay
    rearm_first
handle_read_both = refl

-- A callback that cancels its own one-shot timer: the timer is in `activeTimers_`, so it is looked
-- for in the set, and deleted under the feet of the loop that goes on to read it.
cancel_in_callback : handle_read (λ p. cancels p ∷ []) two 60 61 ≡ none
unfolding handle_read get_expired before from activate insert_pointer contains run_expired deref
    act_all act cancel_in_loop drop_timer erase_entry erase_pointer free finish_expired
cancel_in_callback = refl

insert_lem_example :
    let (q', earliest) = insert two 3000 (record one_shot { expiration = 60 }) in
    IsSorted q'.timers × (first_time q'.timers ≡ (if earliest then some 60 else some 50))
insert_lem_example = insert_lem two 3000 (record one_shot { expiration = 60 }) two-IsSorted

cancel_lem_example :
    (q' : TimerQueue) × (cancel_in_loop two 2000 10 ≡ some q')
    × Cancelled two 2000 (record { time = 70; timer = 2000 }) q'
unfolding contains deref has_entry
cancel_lem_example = cancel_lem two 2000 10 every two-IsSorted refl refl refl

cancel-expired_example : cancel_in_loop fired 1000 200 ≡ none
unfolding before deref
cancel-expired_example =
    cancel-expired two fired 1000 80 81 200 one_shot (inl (refl, ((λ e. absurd (omega arith)), tt)))
      refl refl handle_read_both
