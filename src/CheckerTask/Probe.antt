-- ===== src/CheckerTask/Probe.antt =====
-- CheckerTask.cc: whatever the order of the events, a probe reports at most once, and what came first.
use vortex_net.Base.{
  ℕ, ◌≡◌, refl, ◌∙◌, ap, Bool, true, false, inl, inr, List, [], ◌∷◌, Option, none, some,
  Option-cases, if◌then◌else◌,
}
use vortex_net.ServerNode.{ServerNode, update_status}
use vortex_net.CheckerTask.{
  CheckerTask, start, on_timeout, on_connection, run_after, connect, stop, cancel, force_close,
  connection_is, ProbeError, local, remote, failed, on_error,
}

-- What may happen after a probe was started.
pub data Event : Type 0 where
  times_out : Event
  comes_up : Event
  goes_down : Event
  fails : ProbeError → Event

unfoldable pub step : CheckerTask → Event → Option CheckerTask
step t times_out = some (on_timeout t)
step t comes_up = on_connection t true
step t goes_down = on_connection t false
step t (fails e) = on_error t e

unfoldable pub run : CheckerTask → List Event → Option CheckerTask
run t [] = some t
run t (e ∷ es) = elim (step t e) [ none ↦ none | some t' ↦ run t' es ]

-- The node after the first event that decides; an error of the machine's own decides nothing about it.
abbrev pub reported : ServerNode → List Event → ServerNode
reported n [] = n
reported n (times_out ∷ es) = update_status n false
reported n (comes_up ∷ es) = update_status n true
reported n (goes_down ∷ es) = reported n es
reported n (fails local ∷ es) = n
reported n (fails remote ∷ es) = update_status n false

-- No connection comes up or goes down after the timer has gone off.
abbrev pub InTime : Bool → List Event → Type 0
InTime off [] = Unit
InTime off (times_out ∷ es) = InTime true es
InTime off (comes_up ∷ es) = (off ≡ false) × InTime off es
InTime off (goes_down ∷ es) = (off ≡ false) × InTime off es
InTime off (fails e ∷ es) = InTime off es

if_true {ℓ} : {A : Type ℓ} (x y : A) (b : Bool) → b ≡ true → (if b then x else y) ≡ x
if_true x y true h = refl
if_true x y false h = absurd (cc)

if_false {ℓ} : {A : Type ℓ} (x y : A) (b : Bool) → b ≡ false → (if b then x else y) ≡ y
if_false x y false h = refl
if_false x y true h = absurd (cc)

-- `onConnection` while the timer runs, if it was set.
abbrev cancelled : CheckerTask → CheckerTask
cancelled t = elim t.timer_id [
  | none ↦ t
  | some timer ↦ record t { calls = cancel timer ∷ t.calls }
]

on_connection-running :
    (t : CheckerTask) (up : Bool)
    → t.timer_expired ≡ false
    → on_connection t up ≡ some (connection_is (cancelled t) up)
unfolding on_connection
on_connection-running t up x = elim (Option-cases t.timer_id) [
  | inl n ↦ rw (n, on_connection) refl
  | inr (timer, n) ↦ rw (n, on_connection) (rw x refl)
]

cancelled-frame :
    (t : CheckerTask)
    → ((cancelled t).has_determined ≡ t.has_determined)
      × ((cancelled t).node ≡ t.node)
      × ((cancelled t).timer_expired ≡ t.timer_expired)
      × ((cancelled t).timer_id ≡ t.timer_id)
cancelled-frame t = elim (Option-cases t.timer_id) [
  | inl n ↦ rw n (refl, refl, refl, refl)
  | inr (timer, n) ↦ rw n (refl, refl, refl, refl)
]

run_none : (t : CheckerTask) → run t [] ≡ some t
unfolding run
run_none t = refl

run_next :
    (t t' : CheckerTask) (e : Event) (es : List Event)
    → step t e ≡ some t'
    → run t (e ∷ es) ≡ run t' es
unfolding run
run_next t t' e es h = rw (h, run) refl

up_determined : (t : CheckerTask) → t.has_determined ≡ true → connection_is t true ≡ t
up_determined t d = if_true _ _ t.has_determined d

up_waiting :
    (t : CheckerTask)
    → t.has_determined ≡ false
    → connection_is t true ≡ record t {
      has_determined = true;
      node = update_status t.node true;
      calls = force_close ∷ t.calls;
      is_probing = false;
    }
up_waiting t d = if_false _ _ t.has_determined d

-- A task that has determined, before and after a step, with whether its timer has gone off.
record Settled (n : ServerNode) (off : Bool) (t : CheckerTask) : Type 0 where
  determined : t.has_determined ≡ true
  node_lem : t.node ≡ n
  timer_lem : t.timer_expired ≡ off

run-Settled :
    (n : ServerNode) (off : Bool) (t : CheckerTask) (es : List Event)
    → Settled n off t
    → InTime off es
    → (t' : CheckerTask) × (run t es ≡ some t') × (t'.node ≡ n)
unfolding step on_timeout on_error
run-Settled n off t [] s k = (t, run_none t, s.node_lem)
run-Settled n off t (times_out ∷ es) s k =
    let (t', r, e) =
      run-Settled n true (record t { timer_expired = true }) es
        (record { determined = s.determined; node_lem = s.node_lem; timer_lem = refl }) k in
    (t', run_next t _ times_out es (ap some (if_true _ _ t.has_determined s.determined)) ∙ r, e)
run-Settled n off t (comes_up ∷ es) s (x, k) =
    let (d, m, o, i) = cancelled-frame t in
    let (t', r, e) =
      run-Settled n off (cancelled t) es
        (record {
          determined = d ∙ s.determined;
          node_lem = m ∙ s.node_lem;
          timer_lem = o ∙ s.timer_lem;
        })
        k in
    (
      t',
      run_next t _ comes_up es (
            on_connection-running t true (s.timer_lem ∙ x)
            ∙ ap some (up_determined (cancelled t) (d ∙ s.determined)))
          ∙ r,
      e,
    )
run-Settled n off t (goes_down ∷ es) s (x, k) =
    let (d, m, o, i) = cancelled-frame t in
    let (t', r, e) =
      run-Settled n off (connection_is (cancelled t) false) es
        (record {
          determined = d ∙ s.determined;
          node_lem = m ∙ s.node_lem;
          timer_lem = o ∙ s.timer_lem;
        })
        k in
    (t', run_next t _ goes_down es (on_connection-running t false (s.timer_lem ∙ x)) ∙ r, e)
run-Settled n off t (fails local ∷ es) s k =
    let (t', r, e) = run-Settled n off t es s k in
    (t', run_next t t (fails local) es (ap some (if_true _ _ t.has_determined s.determined)) ∙ r, e)
run-Settled n off t (fails remote ∷ es) s k =
    let (t', r, e) = run-Settled n off t es s k in
    (t', run_next t t (fails remote) es (if_true _ _ t.has_determined s.determined) ∙ r, e)

run_waiting :
    (t : CheckerTask) (timer : ℕ) (es : List Event)
    → t.has_determined ≡ false
    → t.timer_id ≡ some timer
    → t.timer_expired ≡ false
    → InTime false es
    → (t' : CheckerTask) × (run t es ≡ some t') × (t'.node ≡ reported t.node es)
unfolding step on_timeout on_error
run_waiting t timer [] d i x k = (t, run_none t, refl)
run_waiting t timer (times_out ∷ es) d i x k =
    let after = record t {
      timer_expired = true;
      has_determined = true;
      node = update_status t.node false;
      calls = stop ∷ t.calls;
      is_probing = false;
    } in
    let (t', r, e) =
      run-Settled after.node true after es
        (record { determined = refl; node_lem = refl; timer_lem = refl }) k in
    (t', run_next t after times_out es (ap some (if_false _ _ t.has_determined d)) ∙ r, e)
run_waiting t timer (comes_up ∷ es) d i x (y, k) =
    let (d', m, o, i') = cancelled-frame t in
    let after = record (cancelled t) {
      has_determined = true;
      node = update_status (cancelled t).node true;
      calls = force_close ∷ (cancelled t).calls;
      is_probing = false;
    } in
    let (t', r, e) =
      run-Settled after.node false after es
        (record { determined = refl; node_lem = refl; timer_lem = o ∙ x }) k in
    (
      t',
      run_next t after comes_up es
            (on_connection-running t true x ∙ ap some (up_waiting (cancelled t) (d' ∙ d)))
          ∙ r,
      e ∙ ap (λ z. update_status z true) m,
    )
run_waiting t timer (goes_down ∷ es) d i x (y, k) =
    let (d', m, o, i') = cancelled-frame t in
    let (t', r, e) =
      run_waiting (connection_is (cancelled t) false) timer es (d' ∙ d) (i' ∙ i) (o ∙ x) k in
    (
      t',
      run_next t _ goes_down es (on_connection-running t false x) ∙ r,
      e ∙ ap (λ z. reported z es) m,
    )
run_waiting t timer (fails local ∷ es) d i x k =
    let after = record t { has_determined = true; is_probing = false } in
    let (t', r, e) =
      run-Settled t.node false after es
        (record { determined = refl; node_lem = refl; timer_lem = x }) k in
    (t', run_next t after (fails local) es (ap some (if_false _ _ t.has_determined d)) ∙ r, e)
run_waiting t timer (fails remote ∷ es) d i x k =
    let after = record t {
      has_determined = true;
      node = update_status t.node false;
      calls = stop ∷ cancel timer ∷ t.calls;
      is_probing = false;
    } in
    let (t', r, e) =
      run-Settled after.node false after es
        (record { determined = refl; node_lem = refl; timer_lem = x }) k in
    (
      t',
      run_next t after (fails remote) es (
            if_false _ _ t.has_determined d
            ∙ ap (λ y. failed y t) i
            ∙ if_false _ _ t.timer_expired x)
          ∙ r,
      e,
    )

-- Whatever events follow the start of a probe, in any order in which no connection comes up or goes
-- down after the timer has gone off, none faults, and the node's status is updated as the first event
-- that decides says, and at most once.
pub start-reported :
    (t : CheckerTask) (timer : ℕ) (es : List Event)
    → t.is_probing ≡ false
    → InTime false es
    → (t' : CheckerTask) × (run (start t timer) es ≡ some t') × (t'.node ≡ reported t.node es)
unfolding start
start-reported t timer es p k =
    let began : CheckerTask = record t {
      is_probing = true;
      has_determined = false;
      timer_id = some timer;
      timer_expired = false;
      calls = run_after timer ∷ connect ∷ t.calls;
    } in
    let begins : start t timer ≡ began = if_false _ _ t.is_probing p in
    let (t', r, n) = run_waiting began timer es refl refl refl k in
    (t', ap (λ x. run x es) begins ∙ r, n)
