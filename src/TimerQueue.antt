-- ===== src/TimerQueue.antt =====
-- src/TimerQueue.cc, Timer.cc and Timer.h: the timers of one event loop. Timers are pointers into a
-- heap of allocated timers; reading or deleting one that was deleted is a fault, `none`. Times are
-- microseconds of the monotonic clock.
pub mod Order
pub mod Expiry
pub mod Stale
mod Tests
use vortex_net.Base.{
  ℕ, ◌+◌, ◌-◌, ◌*◌, ◌/◌, ◌%◌, ◌^◌, Bool, true, false, not, ◌&&◌, ◌||◌, List, [], ◌∷◌, ◌++◌, Option,
  none, some, ltb, ◌==◌, if◌then◌else◌, map,
}

-- `Timer`. `interval` is in whole microseconds, as `addTime` casts it.
pub record Timer : Type 0 where
  pub expiration : ℕ
  pub interval : ℕ
  pub repeat : Bool
  pub sequence : ℕ

abbrev pub restart : Timer → ℕ → Timer
restart t now = record t { expiration = if t.repeat then now + t.interval else 0 }

-- `std::pair<Timestamp, Timer *>`, ordered by time and then by address.
pub record Entry : Type 0 where
  pub time : ℕ
  pub timer : ℕ

abbrev pub entry_lt : Entry → Entry → Bool
entry_lt a b = ltb a.time b.time || ((a.time == b.time) && ltb a.timer b.timer)

abbrev pub entry_eq : Entry → Entry → Bool
entry_eq a b = (a.time == b.time) && (a.timer == b.timer)

-- `std::set::insert` and `erase` of the sets of entries and of pointers.
unfoldable pub insert_entry : Entry → List Entry → List Entry
insert_entry e [] = e ∷ []
insert_entry e (x ∷ xs) =
    if entry_lt e x then e ∷ x ∷ xs else if entry_lt x e then x ∷ insert_entry e xs else x ∷ xs

unfoldable pub erase_entry : Entry → List Entry → List Entry
erase_entry e [] = []
erase_entry e (x ∷ xs) = if entry_eq x e then xs else x ∷ erase_entry e xs

unfoldable pub contains : ℕ → List ℕ → Bool
contains p [] = false
contains p (x ∷ xs) = (x == p) || contains p xs

unfoldable pub insert_pointer : ℕ → List ℕ → List ℕ
insert_pointer p xs = if contains p xs then xs else p ∷ xs

unfoldable pub erase_pointer : ℕ → List ℕ → List ℕ
erase_pointer p [] = []
erase_pointer p (x ∷ xs) = if x == p then erase_pointer p xs else x ∷ erase_pointer p xs

-- The allocated timers.
abbrev pub Heap : Type 0
Heap = List (ℕ × Timer)

unfoldable pub deref : ℕ → Heap → Option Timer
deref p [] = none
deref p ((q, t) ∷ h) = if q == p then some t else deref p h

unfoldable pub store : ℕ → Timer → Heap → Heap
store p t h = (p, t) ∷ h

-- `delete`, of a pointer that `deref` has just read.
unfoldable pub free : ℕ → Heap → Heap
free p [] = []
free p ((q, t) ∷ h) = if q == p then free p h else (q, t) ∷ free p h

pub record TimerQueue : Type 0 where
  pub timers : List Entry
  pub active_timers : List ℕ
  pub canceling_timers : List ℕ
  pub calling_expired_timers : Bool
  pub heap : Heap
  -- The delay last given to `timerfd_settime`, in seconds and nanoseconds.
  pub alarm : Option (ℕ × ℕ)

-- `resetTimerfd`: a time that has passed, or is near, becomes 100 microseconds.
unfoldable pub delay : ℕ → ℕ → ℕ
delay expiration now = if ltb (expiration - now) 100 then 100 else expiration - now

unfoldable pub reset_timerfd : TimerQueue → ℕ → ℕ → TimerQueue
reset_timerfd q expiration now = record q {
  alarm = some (delay expiration now / 1000000, delay expiration now % 1000000 * 1000);
}

-- The test of `insert` for the earliest timer.
abbrev pub is_earliest : ℕ → List Entry → Bool
is_earliest time [] = true
is_earliest time (x ∷ xs) = ltb time x.time

-- `insert` of an allocated timer, with its answer.
unfoldable pub insert : TimerQueue → ℕ → Timer → TimerQueue × Bool
insert q p t = (
  record q {
    timers = insert_entry (record { time = t.expiration; timer = p }) q.timers;
    active_timers = insert_pointer p q.active_timers;
  },
  is_earliest t.expiration q.timers,
)

-- `addTimer` in the loop's thread: the new timer is allocated at `p`.
unfoldable pub add_timer : TimerQueue → ℕ → Timer → ℕ → TimerQueue
add_timer q p t now =
    let (q', earliest) = insert (record q { heap = store p t q.heap }) p t in
    if earliest then reset_timerfd q' t.expiration now else q'

abbrev pub uintptr_max : ℕ
uintptr_max = 2 ^ 64 - 1

-- `lower_bound` with the sentry, as the entries before it and those from it on.
unfoldable pub before : Entry → List Entry → List Entry
before s [] = []
before s (x ∷ xs) = let rest = before s xs in if entry_lt x s then x ∷ rest else []

unfoldable pub from : Entry → List Entry → List Entry
from s [] = []
from s (x ∷ xs) = let rest = from s xs in if entry_lt x s then rest else x ∷ xs

abbrev pub sentry : ℕ → Entry
sentry now = record { time = now; timer = uintptr_max }

unfoldable pub activate : List Entry → List ℕ → List ℕ
activate [] active = active
activate (e ∷ es) active = activate es (insert_pointer e.timer active)

-- `getExpired`: the expired entries leave the set, and their timers are put into `activeTimers_`.
unfoldable pub get_expired : TimerQueue → ℕ → List Entry × TimerQueue
get_expired q now =
    let expired = before (sentry now) q.timers in
    (
      expired,
      record q {
        timers = from (sentry now) q.timers;
        active_timers = activate expired q.active_timers;
      },
    )

-- `timers_.find(e) == timers_.begin()`; on an empty set both are the end.
abbrev pub found_first : Entry → List Entry → Bool
found_first e [] = true
found_first e (x ∷ xs) = entry_eq x e

abbrev pub first_time : List Entry → Option ℕ
first_time [] = none
first_time (x ∷ xs) = some x.time

-- Reads the entry at the iterator; the end of the set is no entry.
abbrev pub rearm : Bool → TimerQueue → Option ℕ → ℕ → Option TimerQueue
rearm false q time now = some q
rearm true q none now = none
rearm true q (some t) now = some (reset_timerfd q t now)

unfoldable pub drop_timer : TimerQueue → ℕ → Timer → TimerQueue
drop_timer q p t = record q {
  timers = erase_entry (record { time = t.expiration; timer = p }) q.timers;
  active_timers = erase_pointer p q.active_timers;
  heap = free p q.heap;
}

unfoldable pub cancel_in_loop : TimerQueue → ℕ → ℕ → Option TimerQueue
cancel_in_loop q p now =
    if contains p q.active_timers
    then elim (deref p q.heap) [
      | none ↦ none
      | some t ↦
          elim (rearm (found_first (record { time = t.expiration; timer = p }) q.timers) q
            (first_time q.timers) now) [ none ↦ none | some q' ↦ some (drop_timer q' p t) ]
    ]
    else some (
        if q.calling_expired_timers
        then record q { canceling_timers = insert_pointer p q.canceling_timers }
        else q)

-- What a callback may do to the queue.
pub data Action : Type 0 where
  adds : ℕ → Timer → Action
  cancels : ℕ → Action

unfoldable pub act : TimerQueue → Action → ℕ → Option TimerQueue
act q (adds p t) now = some (add_timer q p t now)
act q (cancels p) now = cancel_in_loop q p now

unfoldable pub act_all : TimerQueue → List Action → ℕ → Option TimerQueue
act_all q [] now = some q
act_all q (a ∷ as') now = elim (act q a now) [ none ↦ none | some q' ↦ act_all q' as' now ]

-- The first loop of `handleRead`: `run` is called on each expired timer, which must be allocated, and
-- does what `callback` says of it.
unfoldable pub run_expired : (ℕ → List Action) → TimerQueue → List Entry → ℕ → Option TimerQueue
run_expired callback q [] now = some q
run_expired callback q (e ∷ es) now = elim (deref e.timer q.heap) [
  | none ↦ none
  | some t ↦ elim (act_all q (callback e.timer) now) [
    | none ↦ none
    | some q' ↦ run_expired callback q' es now
  ]
]

-- The second loop: a repeating timer that was not cancelled is restarted, any other is deleted.
unfoldable pub finish_one : TimerQueue → ℕ → Timer → ℕ → TimerQueue
finish_one q p t now =
    if t.repeat && not (contains p q.canceling_timers)
    then (insert (record q { heap = store p (restart t now) (free p q.heap) }) p (restart t now)).0
    else record q { heap = free p q.heap }

unfoldable pub finish_expired : TimerQueue → List Entry → ℕ → Option TimerQueue
finish_expired q [] now = some q
finish_expired q (e ∷ es) now = elim (deref e.timer q.heap) [
  | none ↦ none
  | some t ↦ finish_expired (finish_one q e.timer t now) es now
]

-- The alarm for the first entry's timer, which is read.
unfoldable pub rearm_first : TimerQueue → List Entry → ℕ → Option TimerQueue
rearm_first q [] now = some q
rearm_first q (e ∷ es) now = elim (deref e.timer q.heap) [
  | none ↦ none
  | some t ↦ some (reset_timerfd q t.expiration now)
]

-- `handleRead` at the time `now`, the clock read at its start and again for the alarm.
unfoldable pub handle_read : (ℕ → List Action) → TimerQueue → ℕ → ℕ → Option TimerQueue
handle_read callback q now later =
    let (expired, rest) = get_expired q now in
    elim (run_expired callback (record rest { calling_expired_timers = true }) expired now) [
      | none ↦ none
      | some q' ↦ elim (finish_expired q' expired now) [
        | none ↦ none
        | some q'' ↦ rearm_first (record q'' { canceling_timers = [] }) q''.timers later
      ]
    ]
