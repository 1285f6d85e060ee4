-- ===== src/TokenBucket/Tests.antt =====
-- Runs of the limiter with the gateway's configurations, and its theorems at concrete inputs.
use vortex_net.Base.{◌+◌, ◌*◌, ◌≤◌, ◌≡◌, refl, subst, List, [], ◌∷◌, none, some, arith, min}
use vortex_net.TokenBucket.{
  Config, State, Round, refused, produced, settle, try_acquire, available_tokens, update,
}
use vortex_net.TokenBucket.Settle.{IsSmall, IsValid, credit}
use vortex_net.TokenBucket.Rate.{Request, given, duration, rate_bound, update_lem}
use vortex_net.TokenBucket.Retry.{Explained, AllValid, try_acquire-Explained}
use vortex_net.TokenBucket.Flood.{Leaks, burst, given-burst}

-- The gateway's limiters of the model routes and of the chat routes.
abbrev llm : Config
llm = record { capacity = 8192; refill_rate = 2048 }

abbrev im : Config
im = record { capacity = 10000; refill_rate = 5000 }

abbrev drained : State
drained = record { timestamp_ms = 0; tokens = 0 }

abbrev half : State
half = record { timestamp_ms = 100; tokens = 4096 }

llm-IsSmall : IsSmall llm
llm-IsSmall = omega arith

half-IsValid : IsValid llm half
half-IsValid = omega arith

-- After a millisecond the chat limiter moves its clock; the other counts two tokens and does not.
settle-im : settle im drained 1 ≡ record { timestamp_ms = 1; tokens = 5 }
unfolding settle produced
settle-im = refl

settle-llm : settle llm drained 1 ≡ record { timestamp_ms = 0; tokens = 2 }
unfolding settle produced
settle-llm = refl

try_acquire_over : try_acquire im drained 10001 [] ≡ refused
unfolding try_acquire
try_acquire_over = refl

-- The clock has come round: 200 ms have passed.
abbrev past_wrap : State
past_wrap = record { timestamp_ms = 4294967196; tokens = 0 }

available_after_wrap : available_tokens (record { config = im; state = past_wrap }) 100 ≡ 1000
unfolding available_tokens produced
available_after_wrap = refl

abbrev calls : List Request
calls = record { gap = 10; need = 100 } ∷ record { gap = 500; need = 8000 } ∷ []

rate_bound_example :
    1000 * given llm half 100 calls ≤ credit llm half 100 + 2048 * duration calls + 2 * 2047
rate_bound_example = rate_bound half 100 calls llm-IsSmall half-IsValid (omega arith) (omega arith)

update_lem_example :
    available_tokens (update (record { config = llm; state = half }) 1000 100 200) 200
    ≡ min 1000 (available_tokens (record { config = llm; state = half }) 200)
update_lem_example =
    (update_lem (record { config = llm; state = half }) 1000 100 200 llm-IsSmall half-IsValid
      (omega arith) (omega arith) (omega arith)).4

drained-IsValid : IsValid llm drained
drained-IsValid = omega arith

abbrev contended : List Round
contended = record { now = 101; found = some drained } ∷ record { now = 1101; found = none } ∷ []

contended-AllValid : AllValid llm contended
contended-AllValid = (
  omega arith,
  (λ seen e. let same : drained ≡ seen = cc in subst (IsValid llm) same drained-IsValid),
  (omega arith, (λ seen e. absurd (cc)), tt),
)

try_acquire-Explained_example : Explained llm 5 half contended (try_acquire llm half 5 contended)
try_acquire-Explained_example =
    try_acquire-Explained llm 5 half contended llm-IsSmall half-IsValid contended-AllValid

drained-Leaks : Leaks llm drained 1 2
unfolding produced
drained-Leaks = omega arith

given-burst_example : given llm drained 1 (burst 2 1000000) ≡ 2000000
given-burst_example =
    given-burst llm-IsSmall 1 2 (omega arith) 1000000 drained drained-Leaks (omega arith)
      (omega arith)
