-- ===== src/TokenBucket.antt =====
-- Proxy/src/L7/Middleware/TokenBucket.cc and .h: the rate limiter of the gateway. All values are
-- `uint32_t` unless the source widens them; each atomic access is a step of its own.
pub mod Settle
pub mod Rate
pub mod Flood
pub mod Retry
mod Tests
use vortex_net.Base.{
  ℕ, ◌+◌, ◌-◌, ◌*◌, ◌/◌, ◌%◌, Bool, true, false, List, [], ◌∷◌, Option, none, some, ltb, leb, ◌==◌,
  if◌then◌else◌, add32, sub32, add64, mul64, u32_mod,
}

pub record State : Type 0 where
  pub timestamp_ms : ℕ
  pub tokens : ℕ

pub record Config : Type 0 where
  pub capacity : ℕ
  pub refill_rate : ℕ

pub record TokenBucket : Type 0 where
  pub config : Config
  pub state : State

unfoldable pub new : ℕ → ℕ → TokenBucket
new capacity rate = record {
  config = record { capacity = capacity; refill_rate = rate };
  state = record { timestamp_ms = 0; tokens = capacity };
}

-- The tokens that the milliseconds since the last settlement have produced, rounded down.
unfoldable pub produced : Config → State → ℕ → ℕ
produced cfg cur now = mul64 (sub32 now cur.timestamp_ms) cfg.refill_rate / 1000

-- `total >= capacity ? capacity : static_cast<uint32_t>(total)`.
abbrev pub capped : ℕ → ℕ → ℕ
capped capacity total = if leb capacity total then capacity else total % u32_mod

-- The settlement inside `tryAcquire`: the clock advances only if a token was produced, and only by
-- the time that the tokens account for.
unfoldable pub settle : Config → State → ℕ → State
settle cfg cur now =
    let made = produced cfg cur now in
    if ltb 0 made
    then record {
      timestamp_ms = add32 cur.timestamp_ms (mul64 made 1000 / cfg.refill_rate % u32_mod);
      tokens = capped cfg.capacity (add64 cur.tokens made);
    }
    else cur

-- One round of the loop of `tryAcquire`: the state to publish, or none for too few tokens.
unfoldable pub attempt : Config → State → ℕ → ℕ → Option State
attempt cfg cur now need =
    let settled = settle cfg cur now in
    if ltb settled.tokens need
    then none
    else some (record settled { tokens = settled.tokens - need })

-- What a round of a compare-and-swap loop meets: the clock's value, and, if the exchange fails,
-- the state that it finds.
pub record Round : Type 0 where
  pub now : ℕ
  pub found : Option State

pub data Outcome : Type 0 where
  -- The call returned true, and its exchange replaced the first state by the second.
  taken : State → State → Outcome
  -- It returned true, and touched nothing.
  free : Outcome
  -- It returned false, and touched nothing.
  refused : Outcome
  -- The rounds given are over and it still tries.
  spinning : State → Outcome

unfoldable pub acquire_loop : Config → ℕ → State → List Round → Outcome
acquire_loop cfg need cur [] = spinning cur
acquire_loop cfg need cur (r ∷ rs) = elim (attempt cfg cur r.now need) [
  | none ↦ refused
  | some next ↦ elim r.found [ none ↦ taken cur next | some seen ↦ acquire_loop cfg need seen rs ]
]

-- `tryAcquire(need)` of a caller that read the configuration `cfg` and then the state `cur`.
unfoldable pub try_acquire : Config → State → ℕ → List Round → Outcome
try_acquire cfg cur need rounds =
    if need == 0
    then free
    else if ltb cfg.capacity need
    then refused
    else acquire_loop cfg need cur rounds

unfoldable pub available_tokens : TokenBucket → ℕ → ℕ
available_tokens b now =
    capped b.config.capacity (add64 b.state.tokens (produced b.config b.state now))

-- The state that `update` publishes: everything produced so far under the old configuration, cut
-- to both capacities, at the present time.
unfoldable pub update_state : Config → ℕ → State → ℕ → State
update_state old new_capacity cur now =
    let total = add64 cur.tokens (produced old cur now) in
    let below_old = if ltb old.capacity total then old.capacity else total in
    let below_new = if ltb new_capacity below_old then new_capacity else below_old in
    record { timestamp_ms = now; tokens = below_new % u32_mod }

unfoldable pub update_loop : Config → ℕ → State → List Round → Outcome
update_loop old new_capacity cur [] = spinning cur
update_loop old new_capacity cur (r ∷ rs) = elim r.found [
  | none ↦ taken cur (update_state old new_capacity cur r.now)
  | some seen ↦ update_loop old new_capacity seen rs
]

-- `update`, once its exchange has succeeded in the state `cur` at the time `now`.
unfoldable pub update : TokenBucket → ℕ → ℕ → ℕ → TokenBucket
update b new_capacity new_rate now = record {
  config = record { capacity = new_capacity; refill_rate = new_rate };
  state = update_state b.config new_capacity b.state now;
}
