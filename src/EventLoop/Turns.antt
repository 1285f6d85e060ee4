-- ===== src/EventLoop/Turns.antt =====
-- EventLoop.cc: every functor is called once and in order, and when `poll` may keep it waiting.
use vortex_net.Base.{
  ℕ, ◌<◌, ◌≡◌, refl, sym, subst, ◌∙◌, ap, ◌⊎◌, inl, inr, Bool, true, false, List, [], ◌∷◌, ◌++◌,
  arith, append-nil, append_assoc, Bool-cases, if◌then◌else◌,
}
use vortex_net.EventLoop.{
  Phase, polling, handling, calling, ended, EventLoop, wakeup, push_back, queue_in_loop, quit,
  begin_functors, call_functor, end_functors, Step, queued_outside, quit_outside, poll_returns,
  woken, queued_by_callback, quit_by_callback, functors_begin, functor_called, queued_by_functor,
  quit_by_functor, functors_end, Reach, start, step,
}

-- The functors that are swapped out and not called yet.
abbrev pub taken : Phase → List ℕ
taken (calling fs) = fs
taken _ = []

abbrev pub is_calling : Phase → Bool
is_calling (calling fs) = true
is_calling _ = false

-- `poll` will return at once, or the loop is about to look at the queue.
abbrev pub Awake : EventLoop → Type 0
Awake l = (l.phase ≡ handling) ⊎ (0 < l.wakeups)

pub record Inv (l : EventLoop) : Type 0 where
  pub in_order : l.queued ≡ (l.ran ++ taken l.phase) ++ l.pending_functors
  pub flag : l.calling_pending_functors ≡ is_calling l.phase
  pub live : Awake l ⊎ (l.pending_functors ≡ l.late)
  pub ends : (l.phase ≡ polling) → (l.quits ≡ true) → 0 < l.wakeups

push_back-in_order :
    (l : EventLoop) (f : ℕ)
    → l.queued ≡ (l.ran ++ taken l.phase) ++ l.pending_functors
    → (push_back l f).queued ≡ (l.ran ++ taken l.phase) ++ (push_back l f).pending_functors
push_back-in_order l f e =
    ap (λ x. x ++ f ∷ []) e ∙ append_assoc (l.ran ++ taken l.phase) l.pending_functors (f ∷ [])

-- A functor that is queued with a wake-up.
wakeup-Inv : (l : EventLoop) (f : ℕ) → Inv l → Inv (wakeup (push_back l f))
wakeup-Inv l f i = record {
  in_order = push_back-in_order l f i.in_order;
  flag = i.flag;
  live = inl (inr (omega arith));
  ends = λ p q. omega arith;
}

queue_in_loop-woken :
    (l : EventLoop) (f : ℕ)
    → l.calling_pending_functors ≡ false
    → queue_in_loop true l f ≡ wakeup (push_back l f)
unfolding queue_in_loop
queue_in_loop-woken l f e = rw e

queue_in_loop-silent :
    (l : EventLoop) (f : ℕ)
    → l.calling_pending_functors ≡ true
    → queue_in_loop true l f ≡ push_back l f
unfolding queue_in_loop
queue_in_loop-silent l f e = rw e

-- A functor that a functor queues: no wake-up, but it is late.
late-Inv :
    (l : EventLoop) (f : ℕ) (fs : List ℕ)
    → l.phase ≡ calling fs
    → Inv l
    → Inv (record (push_back l f) { late = l.late ++ f ∷ [] })
late-Inv l f fs p i = record {
  in_order = push_back-in_order l f i.in_order;
  flag = i.flag;
  live = elim i.live [ inl a ↦ inl a | inr e ↦ inr (ap (λ x. x ++ f ∷ []) e) ];
  ends = i.ends;
}

-- What is awake while functors are called stays so.
still_live :
    (l : EventLoop) (fs : List ℕ)
    → l.phase ≡ calling fs
    → Inv l
    → (0 < l.wakeups) ⊎ (l.pending_functors ≡ l.late)
still_live l fs p i = elim i.live [
  | inl (inl h) ↦ absurd (cc (p, h))
  | inl (inr w) ↦ inl w
  | inr e ↦ inr e
]

-- Out of `doPendingFunctors`, to the phase v.
leave-Inv :
    (l : EventLoop) (v : Phase)
    → taken v ≡ []
    → is_calling v ≡ false
    → ((v ≡ polling) → l.quits ≡ false)
    → l.phase ≡ calling []
    → Inv l
    → Inv (record l { phase = v; calling_pending_functors = false })
leave-Inv l v t c q p i = record {
  in_order = rw t (rw p at i.in_order);
  flag = sym c;
  live = elim (still_live l [] p i) [ inl w ↦ inl (inr w) | inr e ↦ inr e ];
  ends = λ h k. absurd (cc (q h, k));
}

end-Inv : (l : EventLoop) → l.phase ≡ calling [] → Inv l → Inv (end_functors l)
unfolding end_functors
end-Inv l p i = elim (Bool-cases l.quits) [
  | inl e ↦
      subst (λ v. Inv (record l { phase = v; calling_pending_functors = false }))
        (sym (ap (λ b. if b then ended else polling) e))
        (leave-Inv l ended refl refl (λ h. absurd (cc (h))) p i)
  | inr e ↦
      subst (λ v. Inv (record l { phase = v; calling_pending_functors = false }))
        (sym (ap (λ b. if b then ended else polling) e))
        (leave-Inv l polling refl refl (λ h. e) p i)
]

step-Inv : {l m : EventLoop} → Step l m → Inv l → Inv m
unfolding queue_in_loop quit begin_functors end_functors
step-Inv (queued_outside {l} f) i = wakeup-Inv l f i
step-Inv (quit_outside {l}) i = record {
  in_order = i.in_order;
  flag = i.flag;
  live = inl (inr (omega arith));
  ends = λ p q. omega arith;
}
step-Inv (poll_returns {l} p) i = record {
  in_order = rw p at i.in_order;
  flag = i.flag ∙ ap is_calling p;
  live = inl (inl refl);
  ends = λ q. absurd (cc (q));
}
step-Inv (woken {l} p w) i = record {
  in_order = i.in_order;
  flag = i.flag;
  live = inl (inl p);
  ends = λ q. absurd (cc (p, q));
}
step-Inv (queued_by_callback {l} f p) i =
    subst Inv (sym (queue_in_loop-woken l f (i.flag ∙ ap is_calling p))) (wakeup-Inv l f i)
step-Inv (quit_by_callback {l} p) i = record {
  in_order = i.in_order;
  flag = i.flag;
  live = inl (inl p);
  ends = λ q. absurd (cc (p, q));
}
step-Inv (functors_begin {l} p) i = record {
  in_order =
      rw (append-nil (l.ran ++ l.pending_functors), sym (append-nil l.ran)) (rw p at i.in_order);
  flag = refl;
  live = inr refl;
  ends = λ q. absurd (cc (q));
}
step-Inv (functor_called {l} f fs p) i = record {
  in_order =
      (rw p at i.in_order)
      ∙ ap (λ x. x ++ l.pending_functors) (sym (append_assoc l.ran (f ∷ []) fs));
  flag = i.flag ∙ ap is_calling p;
  live = elim (still_live l (f ∷ fs) p i) [ inl w ↦ inl (inr w) | inr e ↦ inr e ];
  ends = λ q. absurd (cc (q));
}
step-Inv (queued_by_functor {l} f fs p) i =
    subst (λ x. Inv (record x { late = l.late ++ f ∷ [] }))
      (sym (queue_in_loop-silent l f (i.flag ∙ ap is_calling p))) (late-Inv l f fs p i)
step-Inv (quit_by_functor {l} fs p) i = record {
  in_order = i.in_order;
  flag = i.flag;
  live = i.live;
  ends = λ q. absurd (cc (p, q));
}
step-Inv (functors_end {l} p) i = end-Inv l p i

Reach-Inv : {l : EventLoop} → Reach l → Inv l
Reach-Inv start = record {
  in_order = refl;
  flag = refl;
  live = inr refl;
  ends = λ p q. absurd (cc (q));
}
Reach-Inv (step r s) = step-Inv s (Reach-Inv r)

-- The steps of the loop itself: `poll` returns, and `doPendingFunctors` goes on.
abbrev pub is_own : {l m : EventLoop} → Step l m → Bool
is_own (poll_returns p) = true
is_own (functors_begin p) = true
is_own (functor_called f fs p) = true
is_own (functors_end p) = true
is_own _ = false

-- Any number of the loop's own steps.
pub data Steps : EventLoop → EventLoop → Type 0 where
  done : {l : EventLoop} → Steps l l
  next : {l m n : EventLoop} (s : Step l m) → is_own s ≡ true → Steps m n → Steps l n

Steps-append : {l m n : EventLoop} → Steps l m → Steps m n → Steps l n
Steps-append done t = t
Steps-append (next s o r) t = next s o (Steps-append r t)

-- Steps that lead from l to where the functors `fs` were called.
record Called (l : EventLoop) (fs : List ℕ) : Type 0 where
  target : EventLoop
  steps : Steps l target
  at_end : target.phase ≡ calling []
  ran_lem : target.ran ≡ l.ran ++ fs

call_all : (fs : List ℕ) (l : EventLoop) → l.phase ≡ calling fs → Called l fs
call_all [] l p = record { target = l; steps = done; at_end = p; ran_lem = sym (append-nil l.ran) }
call_all (f ∷ fs) l p =
    let c = call_all fs (call_functor l f fs) refl in
    record {
      target = c.target;
      steps = next (functor_called f fs p) refl c.steps;
      at_end = c.at_end;
      ran_lem = c.ran_lem ∙ append_assoc l.ran (f ∷ []) fs;
    }

-- The turn that begins as `poll` returns.
turn_ends :
    (l : EventLoop)
    → l.phase ≡ polling
    → (m : EventLoop) × Steps l m × (m.ran ≡ l.ran ++ l.pending_functors)
unfolding begin_functors end_functors
turn_ends l p =
    let l1 = record l { phase = handling } in
    let c = call_all l.pending_functors (begin_functors l1) refl in
    (
      end_functors c.target,
      next (poll_returns p) refl (
          next (functors_begin refl) refl
            (Steps-append c.steps (next (functors_end c.at_end) refl done))),
      c.ran_lem,
    )

-- Whatever other threads, callbacks and functors do: every functor that was queued was called once, in the
-- order of the queue, or is still to be called. While the loop is in `poll`, a turn of its own steps ends with
-- everything called that is pending; and a wake-up is waiting, so that `poll` returns at once, if `quit` was
-- called, or if anything is pending but the functors that functors of the last turn queued, in order.
pub Reach-Live :
    (l : EventLoop)
    → Reach l
    → (l.queued ≡ (l.ran ++ taken l.phase) ++ l.pending_functors)
      × (l.phase ≡ polling
          → ((0 < l.wakeups) ⊎ (l.pending_functors ≡ l.late))
            × (l.quits ≡ true → 0 < l.wakeups)
            × ((m : EventLoop) × Steps l m × (m.ran ≡ l.ran ++ l.pending_functors)))
Reach-Live l r =
    ((Reach-Inv r).in_order, λ p. (live p (Reach-Inv r).live, (Reach-Inv r).ends p, turn_ends l p))
  where
    live :
        l.phase ≡ polling
        → Awake l ⊎ (l.pending_functors ≡ l.late)
        → (0 < l.wakeups) ⊎ (l.pending_functors ≡ l.late)
    live p (inl (inl h)) = absurd (cc (p, h))
    live p (inl (inr w)) = inl w
    live p (inr e) = inr e
