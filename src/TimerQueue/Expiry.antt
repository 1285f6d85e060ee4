-- ===== src/TimerQueue/Expiry.antt =====
-- TimerQueue.cc: which timers expire, and what a cancellation in time does.
use vortex_net.Base.{
  ℕ, ◌≤◌, ◌<◌, ◌≡◌, refl, ap, sym, subst, ◌∙◌, inl, inr, true, false, List, [], ◌∷◌, ◌++◌, none,
  some, arith, ◌==◌, if◌then◌else◌, Bool-cases,
}
use vortex_net.TimerQueue.{
  Timer, Entry, TimerQueue, Heap, entry_lt, entry_eq, before, from, sentry, get_expired,
  uintptr_max, contains, deref, free, erase_pointer, erase_entry, drop_timer, cancel_in_loop,
  found_first, first_time, rearm, reset_timerfd,
}
use vortex_net.TimerQueue.Order.{
  Above, IsSorted, has_entry, has_entry-erase_entry, erase_entry-IsSorted,
}

-- Every timer's address is below the largest one.
abbrev pub AllBelow : List Entry → Type 0
AllBelow [] = Unit
AllBelow (x ∷ xs) = (x.timer < uintptr_max) × AllBelow xs

abbrev pub AllDue : ℕ → List Entry → Type 0
AllDue now [] = Unit
AllDue now (x ∷ xs) = (x.time ≤ now) × AllDue now xs

abbrev pub AllLater : ℕ → List Entry → Type 0
AllLater now [] = Unit
AllLater now (x ∷ xs) = (now < x.time) × AllLater now xs

before-append-from : (s : Entry) (xs : List Entry) → before s xs ++ from s xs ≡ xs
unfolding before from
before-append-from s [] = refl
before-append-from s (x ∷ xs) = elim (Bool-cases (entry_lt x s)) [
  | inl h ↦ rw h (ap (◌∷◌ x) (before-append-from s xs))
  | inr h ↦ rw h
]

before-AllDue : (now : ℕ) (xs : List Entry) → AllDue now (before (sentry now) xs)
unfolding before
before-AllDue now [] = tt
before-AllDue now (x ∷ xs) = ground (arith, before-AllDue now xs)

Above-AllLater :
    (now : ℕ) (x : Entry) (xs : List Entry) → now < x.time → Above x xs → AllLater now xs
Above-AllLater now x [] h k = tt
Above-AllLater now x (y ∷ ys) h k = (ground (arith, k.0), Above-AllLater now x ys h k.1)

from-AllLater :
    (now : ℕ) (xs : List Entry) → IsSorted xs → AllBelow xs → AllLater now (from (sentry now) xs)
unfolding from
from-AllLater now [] s b = tt
from-AllLater now (x ∷ xs) s b = elim (Bool-cases (entry_lt x (sentry now))) [
  | inl h ↦ rw h (from-AllLater now xs s.1 b.1)
  | inr h ↦ rw h (
      let later : now < x.time = ground (arith, b.0, h) in
      (later, Above-AllLater now x xs later s.0))
]

-- `getExpired` splits the set in two, in order: the timers that it gives are due, those that it keeps
-- are later than now.
pub get_expired_lem :
    (q : TimerQueue) (now : ℕ)
    → IsSorted q.timers
    → AllBelow q.timers
    → let (expired, q') = get_expired q now in
      (expired ++ q'.timers ≡ q.timers) × AllDue now expired × AllLater now q'.timers
unfolding get_expired
get_expired_lem q now s b = (
  before-append-from (sentry now) q.timers,
  before-AllDue now q.timers,
  from-AllLater now q.timers s b,
)

contains-erase_pointer : (p : ℕ) (xs : List ℕ) → contains p (erase_pointer p xs) ≡ false
unfolding contains erase_pointer
contains-erase_pointer p [] = refl
contains-erase_pointer p (x ∷ xs) = ground (arith, contains-erase_pointer p xs)

pub deref-free : (p r : ℕ) (h : Heap) → deref p (free r h) ≡ (if r == p then none else deref p h)
unfolding deref free
deref-free p r [] = ground arith
deref-free p r ((x, t) ∷ h) = ground (arith, deref-free p r h)

-- What cancelling the timer `p`, with the entry `e`, leaves.
pub record Cancelled (q : TimerQueue) (p : ℕ) (e : Entry) (q' : TimerQueue) : Type 0 where
  pub sorted : IsSorted q'.timers
  pub others :
      (f : Entry) → has_entry f q'.timers ≡ (if entry_eq e f then false else has_entry f q.timers)
  pub inactive : contains p q'.active_timers ≡ false
  pub deleted : (r : ℕ) → deref r q'.heap ≡ (if p == r then none else deref r q.heap)

drop_timer-Cancelled :
    (q q' : TimerQueue) (p : ℕ) (t : Timer)
    → IsSorted q.timers
    → q'.timers ≡ q.timers
    → q'.heap ≡ q.heap
    → Cancelled q p (record { time = t.expiration; timer = p }) (drop_timer q' p t)
unfolding drop_timer
drop_timer-Cancelled q q' p t s same_timers same_heap =
    let e : Entry = record { time = t.expiration; timer = p } in
    record {
      sorted = erase_entry-IsSorted e q'.timers (subst IsSorted (sym same_timers) s);
      others = λ f.
          ap (λ xs. has_entry f (erase_entry e xs)) same_timers
          ∙ has_entry-erase_entry f e q.timers s;
      inactive = contains-erase_pointer p q'.active_timers;
      deleted = λ r. ap (λ h. deref r (free p h)) same_heap ∙ deref-free r p q.heap;
    }

-- The iterator is read only where the set has an entry.
rearm_total :
    (q : TimerQueue) (e : Entry) (xs : List Entry) (now : ℕ)
    → has_entry e xs ≡ true
    → (q' : TimerQueue) × (rearm (found_first e xs) q (first_time xs) now ≡ some q')
      × (q'.timers ≡ q.timers)
      × (q'.active_timers ≡ q.active_timers)
      × (q'.heap ≡ q.heap)
unfolding has_entry reset_timerfd
rearm_total q e [] now h = absurd (cc)
rearm_total q e (x ∷ xs) now h = elim (Bool-cases (entry_eq x e)) [
  | inl k ↦ rw k (reset_timerfd q x.time now, refl, refl, refl, refl)
  | inr k ↦ rw k (q, refl, refl, refl, refl)
]

-- `cancelInLoop` of a timer that is active, allocated and in the set succeeds: the set stays in order
-- and loses that one entry, the timer is deleted and no longer active, and no other entry and no other
-- allocated timer changes.
pub cancel_lem :
    (q : TimerQueue) (p now : ℕ) (t : Timer)
    → IsSorted q.timers
    → contains p q.active_timers ≡ true
    → deref p q.heap ≡ some t
    → has_entry (record { time = t.expiration; timer = p }) q.timers ≡ true
    → (q' : TimerQueue) × (cancel_in_loop q p now ≡ some q')
      × Cancelled q p (record { time = t.expiration; timer = p }) q'
unfolding cancel_in_loop
cancel_lem q p now t s a d h =
    let e : Entry = record { time = t.expiration; timer = p } in
    let (q', r, same_timers, same_active, same_heap) = rearm_total q e q.timers now h in
    (
      drop_timer q' p t,
      rw (a, d, cancel_in_loop) (rw (r, cancel_in_loop)),
      drop_timer-Cancelled q q' p t s same_timers same_heap,
    )
