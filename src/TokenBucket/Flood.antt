-- ===== src/TokenBucket/Flood.antt =====
-- TokenBucket.cc: at rates above 1000 a second the settlement can count a token without moving the
-- clock, so that the same millisecond is paid out again and again.
use vortex_net.Base.{
  ℕ, ◌+◌, ◌-◌, ◌*◌, ◌≤◌, ◌<◌, ◌≡◌, refl, ap, List, [], ◌∷◌, some, arith, lt→ltb, le→ltb,
  div-eq_zero, add32, min, u32_mod, zero, suc,
}
use vortex_net.TokenBucket.{Config, State, produced, settle, attempt}
use vortex_net.TokenBucket.Settle.{IsSmall, IsValid, settle_lem, advance}
use vortex_net.TokenBucket.Rate.{Request, given, given-nil, given-taken}

pub record Leaks (cfg : Config) (st : State) (now need : ℕ) : Type 0 where
  pub valid : IsValid cfg st
  pub pays : need ≤ produced cfg st now
  pub still : produced cfg st now * 1000 < cfg.refill_rate

-- The state that such a call leaves: the clock stays.
after : Config → State → ℕ → ℕ → State
after cfg st now need = record st {
  tokens = min cfg.capacity (st.tokens + produced cfg st now) - need;
}

-- Calls of one size in one millisecond.
abbrev pub burst : ℕ → ℕ → List Request
burst need zero = []
burst need (suc n) = record { gap = 0; need = need } ∷ burst need n

module _ {cfg : Config} (small : IsSmall cfg) (now need : ℕ) (fits : need ≤ cfg.capacity) where
  settle-Leaks :
      (st : State)
      → Leaks cfg st now need
      → 0 < need
      → settle cfg st now
        ≡ record st { tokens = min cfg.capacity (st.tokens + produced cfg st now) }
  settle-Leaks st l asked =
      rw (settle_lem small st now l.valid, lt→ltb 0 (produced cfg st now) (omega (arith, l.pays)))
        (ap
          (λ t. record {
            timestamp_ms = t;
            tokens = min cfg.capacity (st.tokens + produced cfg st now);
          })
          still)
    where
      none_counted : advance cfg st now ≡ 0
      none_counted = div-eq_zero _ _ l.still

      still : add32 st.timestamp_ms (advance cfg st now) ≡ st.timestamp_ms
      still = omega (arith, none_counted, l.valid.stamp_fits)

  attempt-Leaks :
      (st : State)
      → Leaks cfg st now need
      → 0 < need
      → attempt cfg st now need ≡ some (after cfg st now need)
  unfolding attempt after
  attempt-Leaks st l asked = rw (
    settle-Leaks st l asked,
    le→ltb (min cfg.capacity (st.tokens + produced cfg st now)) need (omega (arith, l.pays)),
  )

  produced-after : (st : State) → produced cfg (after cfg st now need) now ≡ produced cfg st now
  unfolding produced after
  produced-after st = refl

  after-Leaks : (st : State) → Leaks cfg st now need → Leaks cfg (after cfg st now need) now need
  unfolding after
  after-Leaks st l = record {
    valid = record { stamp_fits = l.valid.stamp_fits; within = omega arith };
    pays = omega (arith, l.pays, produced-after st);
    still = omega (arith, l.still, produced-after st);
  }

  -- Where the time since the last settlement yields the tokens of one call, yet fewer than the rate
  -- yields in a second's thousandth, every call of a burst is granted, however long the burst: no
  -- time passes, and the bucket pays for each.
  pub given-burst :
      (n : ℕ) (st : State)
      → Leaks cfg st now need
      → 0 < need
      → now < u32_mod
      → given cfg st now (burst need n) ≡ n * need
  given-burst zero st l asked here = rw (given-nil cfg st now) (omega arith)
  given-burst (suc n) st l asked here =
      rw
        (
          given-taken cfg st (after cfg st now need) now (record { gap = 0; need = need })
              (burst need n) asked fits granted,
          same,
        )
        (omega (arith, given-burst n (after cfg st now need) (after-Leaks st l) asked here))
    where
      same : add32 now 0 ≡ now
      same = omega arith

      granted : attempt cfg st (add32 now 0) need ≡ some (after cfg st now need)
      granted = rw same (attempt-Leaks st l asked)
