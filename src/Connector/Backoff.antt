-- ===== src/Connector/Backoff.antt =====
-- Connector.cc: how long the connector waits between its attempts.
use vortex_net.Base.{
  ℕ, zero, suc, ◌<◌, Option, none, some, ◌*◌, ◌^◌, ◌≡◌, refl, ◌∙◌, ap, true, List, [], ◌∷◌, arith,
  min,
}
use native.Mathlib.Numerals.{unary_clauses}
use vortex_net.Connector.{
  Connector, Outcome, under_way, refused, retry, restart, begin, connect, start, start_in_loop,
  on_retry_timer, handle_error, handle_write,
}

-- How an attempt fails: `::connect` says so at once, with EAGAIN, ECONNREFUSED or ENETUNREACH; or it is
-- under way, and the channel's error or writability finds the socket's error, which is not 0.
pub data Way : Type 0 where
  at_once : Way
  by_error : Way
  by_write : Way

pub record Failure : Type 0 where
  pub way : Way
  pub fd : ℕ
  pub error : ℕ

abbrev pub outcome : Failure → Outcome
outcome f = elim f.way [ at_once ↦ refused f.error | by_error ↦ under_way | by_write ↦ under_way ]

-- The event of the attempt's channel; none is the read of a channel that is not there.
abbrev pub found_out : Way → ℕ → Connector → Option Connector
found_out at_once error c = some c
found_out by_error error c = handle_error c error
found_out by_write error c = handle_write c (suc error)

-- The attempts that a timer of `retry` begins, each when the one before has failed.
unfoldable pub retried : Connector → List Failure → Option Connector
retried c [] = some c
retried c (f ∷ fs) = elim (found_out f.way f.error (on_retry_timer c f.fd (outcome f))) [
  | none ↦ none
  | some c' ↦ retried c' fs
]

-- The first attempt is begun by the timer of `restart`.
unfoldable pub fail_all : Connector → List Failure → Option Connector
fail_all c [] = some c
fail_all c (f ∷ fs) = elim (found_out f.way f.error (start_in_loop c f.fd (outcome f))) [
  | none ↦ none
  | some c' ↦ retried c' fs
]

-- The delay after `k` failures in a row: doubled each time, up to half a minute.
abbrev pub delay_after : ℕ → ℕ
delay_after k = min (500 * 2 ^ k) 30000

-- The delays of `n` failures from the `k`th on, the latest first, before those given.
abbrev pub delays_from : ℕ → List Failure → List ℕ → List ℕ
delays_from k [] ds = ds
delays_from k (f ∷ fs) ds = delays_from (suc k) fs (delay_after k ∷ ds)

double : (k : ℕ) → min (2 * delay_after k) 30000 ≡ delay_after (suc k)
double k = simp unary_clauses (ground arith)

-- A connector whose attempt failed, after the one given.
record Failed (c c' : Connector) : Type 0 where
  wanted_lem : c'.connect_wanted ≡ true
  retries_lem : c'.retries ≡ true
  timer_lem : 0 < c'.retry_timers
  delay_lem : c'.retry_delay_ms ≡ min (2 * c.retry_delay_ms) 30000
  delays_lem : c'.delays ≡ c.retry_delay_ms ∷ c.delays

retry-Failed :
    (c : Connector) (fd error : ℕ)
    → c.connect_wanted ≡ true
    → c.retries ≡ true
    → Failed c (retry c fd error)
unfolding retry
retry-Failed c fd error w r =
    rw (w, r)
      (record {
        wanted_lem = refl;
        retries_lem = refl;
        timer_lem = omega arith;
        delay_lem = refl;
        delays_lem = refl;
      })

start_in_loop-wanted :
    (c : Connector) (fd : ℕ) (o : Outcome)
    → c.connect_wanted ≡ true
    → start_in_loop c fd o ≡ connect c fd o
unfolding start_in_loop
start_in_loop-wanted c fd o w = rw w refl

begun-Failed : (c : Connector) (fd : ℕ) (d : Connector) → Failed (begin c fd) d → Failed c d
unfolding begin
begun-Failed c fd d x = record {
  wanted_lem = x.wanted_lem;
  retries_lem = x.retries_lem;
  timer_lem = x.timer_lem;
  delay_lem = x.delay_lem;
  delays_lem = x.delays_lem;
}

attempt-Failed :
    (c : Connector) (f : Failure)
    → c.connect_wanted ≡ true
    → c.retries ≡ true
    → (c' : Connector) × (found_out f.way f.error (start_in_loop c f.fd (outcome f)) ≡ some c')
      × Failed c c'
unfolding connect begin handle_error handle_write
attempt-Failed c f w r = by_way f.way
  where
    by_way :
        (way : Way)
        → let g : Failure = record { way = way; fd = f.fd; error = f.error } in
          (c' : Connector) × (found_out way f.error (start_in_loop c f.fd (outcome g)) ≡ some c')
          × Failed c c'
    by_way at_once = (
      retry c f.fd f.error,
      ap some (start_in_loop-wanted c f.fd (refused f.error) w),
      retry-Failed c f.fd f.error w r,
    )
    by_way by_error = (
      retry (begin c f.fd) f.fd f.error,
      ap (λ x. handle_error x f.error) (start_in_loop-wanted c f.fd under_way w),
      begun-Failed c f.fd _ (retry-Failed (begin c f.fd) f.fd f.error w r),
    )
    by_way by_write = (
      retry (begin c f.fd) f.fd (suc f.error),
      ap (λ x. handle_write x (suc f.error)) (start_in_loop-wanted c f.fd under_way w),
      begun-Failed c f.fd _ (retry-Failed (begin c f.fd) f.fd (suc f.error) w r),
    )

-- The timer begins the attempt of a connector that is wanted as `startInLoop` does.
retry_timer-wanted :
    (c : Connector) (f : Failure)
    → c.connect_wanted ≡ true
    → c.retries ≡ true
    → 0 < c.retry_timers
    → (c' : Connector) × (found_out f.way f.error (on_retry_timer c f.fd (outcome f)) ≡ some c')
      × Failed c c'
unfolding on_retry_timer start
retry_timer-wanted c f w r t = fires c.retry_timers refl t
  where
    fires :
        (n : ℕ)
        → c.retry_timers ≡ n
        → 0 < n
        → (c' : Connector) × (found_out f.way f.error (on_retry_timer c f.fd (outcome f)) ≡ some c')
          × Failed c c'
    fires zero e l = absurd (omega (arith, l))
    fires (suc n) e l =
        let began = record c { retry_timers = n; connect_wanted = true } in
        let (c', h, x) = attempt-Failed began f refl r in
        (
          c',
          ap
                (λ m. found_out f.way f.error (elim m [
                  | zero ↦ c
                  | suc k ↦ start true (record c { retry_timers = k }) f.fd (outcome f)
                ]))
                e
              ∙ h,
          record {
            wanted_lem = x.wanted_lem;
            retries_lem = x.retries_lem;
            timer_lem = x.timer_lem;
            delay_lem = x.delay_lem;
            delays_lem = x.delays_lem;
          },
        )

retried-delays :
    (k : ℕ) (fs : List Failure) (c : Connector)
    → c.connect_wanted ≡ true
    → c.retries ≡ true
    → 0 < c.retry_timers
    → c.retry_delay_ms ≡ delay_after k
    → (d : Connector) × (retried c fs ≡ some d) × (d.delays ≡ delays_from k fs c.delays)
unfolding retried
retried-delays k [] c w r t d = (c, refl, refl)
retried-delays k (f ∷ fs) c w r t d =
    let (c', h, x) = retry_timer-wanted c f w r t in
    let (e, run, ds) =
      retried-delays (suc k) fs c' x.wanted_lem x.retries_lem x.timer_lem
        (x.delay_lem ∙ ap (λ y. min (2 * y) 30000) d ∙ double k) in
    (
      e,
      rw (h, retried) run,
      ds ∙ ap (delays_from (suc k) fs) (x.delays_lem ∙ ap (λ y. y ∷ c.delays) d),
    )

-- After `restart` the connector that retries waits half a second before its first attempt. When its attempts
-- fail one after another, each at once with EAGAIN, ECONNREFUSED or ENETUNREACH or later with an error that
-- handleError or handleWrite finds, no handler reads a channel that is not there, and the wait after
-- the failure number k from 0 is min (500 * 2 ^ k, 30000) milliseconds.
pub restart-delays :
    (c : Connector) (fs : List Failure)
    → c.retries ≡ true
    → (d : Connector) × (fail_all (restart c) fs ≡ some d)
      × (d.delays ≡ delays_from 0 fs (500 ∷ c.delays))
unfolding restart fail_all
restart-delays c [] r = (restart c, refl, refl)
restart-delays c (f ∷ fs) r =
    let (c', h, x) = attempt-Failed (restart c) f refl r in
    let (d, run, ds) =
      retried-delays 1 fs c' x.wanted_lem x.retries_lem x.timer_lem (x.delay_lem ∙ omega arith) in
    (d, rw (h, fail_all) run, ds ∙ ap (delays_from 1 fs) (x.delays_lem))
