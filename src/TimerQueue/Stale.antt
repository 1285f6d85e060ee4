-- ===== src/TimerQueue/Stale.antt =====
-- TimerQueue.cc: a one-shot timer stays in `activeTimers_` after it has run and been deleted.
use vortex_net.Base.{
  ℕ, ◌≡◌, ◌≢◌, refl, ap, subst, ◌∙◌, ◌⊎◌, inl, inr, true, false, not, ◌&&◌, List, [], ◌∷◌, Option,
  none, some, arith, ◌==◌, if◌then◌else◌, Bool-cases, Option-cases,
}
use vortex_net.TimerQueue.{
  Timer, Entry, TimerQueue, Heap, before, sentry, get_expired, activate, restart, store, contains,
  deref, free, insert_pointer, cancel_in_loop, handle_read, run_expired, act_all, finish_one,
  finish_expired, rearm_first, reset_timerfd, insert,
}
use vortex_net.TimerQueue.Expiry.{deref-free}

abbrev pub Absent : ℕ → List Entry → Type 0
Absent p [] = Unit
Absent p (x ∷ xs) = (x.timer ≢ p) × Absent p xs

-- The timer `p` has one entry in the list.
abbrev pub Once : ℕ → List Entry → Type 0
Once p [] = ⊥
Once p (x ∷ xs) = ((x.timer ≡ p) × Absent p xs) ⊎ ((x.timer ≢ p) × Once p xs)

contains-insert_pointer :
    (p r : ℕ) (xs : List ℕ) → contains p xs ≡ true → contains p (insert_pointer r xs) ≡ true
unfolding contains insert_pointer
contains-insert_pointer p r xs h = ground arith

contains-insert_pointer_self : (p : ℕ) (xs : List ℕ) → contains p (insert_pointer p xs) ≡ true
unfolding contains insert_pointer
contains-insert_pointer_self p xs = ground arith

contains-activate :
    (p : ℕ) (es : List Entry) (xs : List ℕ)
    → contains p xs ≡ true
    → contains p (activate es xs) ≡ true
unfolding activate
contains-activate p [] xs h = h
contains-activate p (e ∷ es) xs h =
    contains-activate p es (insert_pointer e.timer xs) (contains-insert_pointer p e.timer xs h)

activate-Once :
    (p : ℕ) (es : List Entry) (xs : List ℕ) → Once p es → contains p (activate es xs) ≡ true
unfolding activate
activate-Once p [] xs o = absurd o
activate-Once p (e ∷ es) xs (inl (same, _)) =
    contains-activate p es (insert_pointer e.timer xs) (rw same (contains-insert_pointer_self p xs))
activate-Once p (e ∷ es) xs (inr (_, o)) = activate-Once p es (insert_pointer e.timer xs) o

-- Marked active, with the heap giving `o` for it.
record Marked (p : ℕ) (o : Option Timer) (q : TimerQueue) : Type 0 where
  active : contains p q.active_timers ≡ true
  holds : deref p q.heap ≡ o

deref-store :
    (p r : ℕ) (t : Timer) (h : Heap)
    → deref p (store r t h) ≡ (if r == p then some t else deref p h)
unfolding deref store
deref-store p r t h = refl

eqb_self : (a : ℕ) → (a == a) ≡ true
eqb_self a = ground arith

eqb_false : {a b : ℕ} → a ≢ b → (a == b) ≡ false
eqb_false h = ground arith

-- Finishing another timer leaves this one's marks alone.
finish_one-Marked :
    (p r : ℕ) (t : Timer) (o : Option Timer) (q : TimerQueue) (now : ℕ)
    → r ≢ p
    → Marked p o q
    → Marked p o (finish_one q r t now)
unfolding finish_one insert
finish_one-Marked p r t o q now ne m =
    elim (Bool-cases (t.repeat && not (contains r q.canceling_timers))) [
      | inl e ↦ rw e (record {
        active = contains-insert_pointer p r q.active_timers m.active;
        holds =
            deref-store p r (restart t now) (free r q.heap)
            ∙ rw (eqb_false ne) (deref-free p r q.heap ∙ rw (eqb_false ne) m.holds);
      })
      | inr e ↦
          rw e (record {
            active = m.active;
            holds = deref-free p r q.heap ∙ rw (eqb_false ne) m.holds;
          })
    ]

finish_expired-step :
    (q q' : TimerQueue) (e : Entry) (es : List Entry) (now : ℕ)
    → finish_expired q (e ∷ es) now ≡ some q'
    → (t : Timer) × (deref e.timer q.heap ≡ some t)
      × (finish_expired (finish_one q e.timer t now) es now ≡ some q')
unfolding finish_expired
finish_expired-step q q' e es now h = elim (Option-cases (deref e.timer q.heap)) [
  | inl d ↦ absurd (ground (arith, d, h))
  | inr (t, d) ↦ (t, d, rw (d, finish_expired) at h)
]

finish_expired-Absent :
    (p : ℕ) (o : Option Timer) (es : List Entry) (q q' : TimerQueue) (now : ℕ)
    → Absent p es
    → Marked p o q
    → finish_expired q es now ≡ some q'
    → Marked p o q'
unfolding finish_expired
finish_expired-Absent p o [] q q' now a m h = let same : q ≡ q' = cc in subst (Marked p o) same m
finish_expired-Absent p o (e ∷ es) q q' now a m h =
    let (t, d, rest) = finish_expired-step q q' e es now h in
    finish_expired-Absent p o es (finish_one q e.timer t now) q' now a.1
      (finish_one-Marked p e.timer t o q now a.0 m) rest

finish_one_self :
    (p : ℕ) (t : Timer) (o : Option Timer) (q : TimerQueue) (now : ℕ)
    → t.repeat ≡ false
    → Marked p o q
    → Marked p none (finish_one q p t now)
unfolding finish_one
finish_one_self p t o q now once m =
    rw once (record { active = m.active; holds = deref-free p p q.heap ∙ rw (eqb_self p) })

finish_expired-Once :
    (p : ℕ) (t : Timer) (es : List Entry) (q q' : TimerQueue) (now : ℕ)
    → t.repeat ≡ false
    → Once p es
    → Marked p (some t) q
    → finish_expired q es now ≡ some q'
    → Marked p none q'
finish_expired-Once p t [] q q' now once o m h = absurd o
finish_expired-Once p t (e ∷ es) q q' now once (inl (same, a)) m h =
    let (t', d, rest) = finish_expired-step q q' e es now h in
    let same_timer : t ≡ t' = cc (m.holds, ap (λ r. deref r q.heap) same) in
    let one : Marked p none (finish_one q e.timer t' now) =
      rw (same, ← same_timer) (finish_one_self p t (some t) q now once m) in
    finish_expired-Absent p none es (finish_one q e.timer t' now) q' now a one rest
finish_expired-Once p t (e ∷ es) q q' now once (inr (ne, o)) m h =
    let (t', d, rest) = finish_expired-step q q' e es now h in
    finish_expired-Once p t es (finish_one q e.timer t' now) q' now once o
      (finish_one-Marked p e.timer t' (some t) q now ne m) rest

run_quiet :
    (q q' : TimerQueue) (es : List Entry) (now : ℕ)
    → run_expired (λ p. []) q es now ≡ some q'
    → q ≡ q'
unfolding run_expired act_all
run_quiet q q' [] now h = cc
run_quiet q q' (e ∷ es) now h = elim (Option-cases (deref e.timer q.heap)) [
  | inl d ↦ absurd (ground (arith, d, h))
  | inr (t, d) ↦ run_quiet q q' es now (rw (d, run_expired) at h)
]

Marked-rearm_first :
    (p : ℕ) (o : Option Timer) (q q' : TimerQueue) (es : List Entry) (later : ℕ)
    → Marked p o q
    → rearm_first q es later ≡ some q'
    → Marked p o q'
unfolding rearm_first reset_timerfd
Marked-rearm_first p o q q' [] later m h = let same : q ≡ q' = cc in subst (Marked p o) same m
Marked-rearm_first p o q q' (e ∷ es) later m h = elim (Option-cases (deref e.timer q.heap)) [
  | inl d ↦ absurd (ground (arith, d, h))
  | inr (t, d) ↦
      let same : reset_timerfd q t.expiration later ≡ q' = ground (arith, d, h) in
      subst (Marked p o) same (record { active = m.active; holds = m.holds })
]

cancel-Marked : (p at : ℕ) (q : TimerQueue) → Marked p none q → cancel_in_loop q p at ≡ none
unfolding cancel_in_loop
cancel-Marked p at q m = rw (m.active, m.holds, cancel_in_loop)

-- The queue while the callbacks run.
called : TimerQueue → ℕ → TimerQueue
called q now = record (get_expired q now).1 { calling_expired_timers = true }

-- The parts of a run of `handleRead` that does not fault.
handle_read-parts :
    (q q' : TimerQueue) (now later : ℕ)
    → handle_read (λ r. []) q now later ≡ some q'
    → (q'' : TimerQueue) × (finish_expired (called q now) (before (sentry now) q.timers) now
        ≡ some q'')
      × (rearm_first (record q'' { canceling_timers = [] }) q''.timers later ≡ some q')
unfolding handle_read get_expired called
handle_read-parts q q' now later h =
    elim (Option-cases (run_expired (λ r. []) (called q now) es now)) [
      | inl e ↦ absurd (ground (arith, e, h))
      | inr (q1, e) ↦
          let same : called q now ≡ q1 = run_quiet (called q now) q1 es now e in
          elim (Option-cases (finish_expired q1 es now)) [
            | inl f ↦ absurd (ground (arith, e, f, h))
            | inr (q'', f) ↦ (q'', rw same f, ground (arith, e, f, h))
          ]
    ]
  where
    es : List Entry
    es = before (sentry now) q.timers

-- Once a one-shot timer has expired and `handleRead` has run, with callbacks that leave the queue
-- alone, cancelling it by its old `TimerId` reads the deleted timer: a fault, at any later time.
pub cancel-expired :
    (q q' : TimerQueue) (p now later at : ℕ) (t : Timer)
    → Once p (before (sentry now) q.timers)
    → deref p q.heap ≡ some t
    → t.repeat ≡ false
    → handle_read (λ r. []) q now later ≡ some q'
    → cancel_in_loop q' p at ≡ none
unfolding called get_expired
cancel-expired q q' p now later at t once d one_shot h =
    let (q'', f, same) = handle_read-parts q q' now later h in
    let m =
      finish_expired-Once p t (before (sentry now) q.timers) (called q now) q'' now one_shot once
        (record {
          active = activate-Once p (before (sentry now) q.timers) q.active_timers once;
          holds = d;
        })
        f in
    cancel-Marked p at q' (
      Marked-rearm_first p none (record q'' { canceling_timers = [] }) q' q''.timers later
        (record { active = m.active; holds = m.holds }) same)
