-- ===== src/TokenBucket/Settle.antt =====
-- TokenBucket.cc: bounds of the settlement. No product or sum wraps, the bucket never holds more
-- than its capacity, and the clock of the bucket never passes the present.
use vortex_net.Base.{
  ℕ, ◌+◌, ◌-◌, ◌*◌, ◌/◌, ◌%◌, ◌≤◌, ◌<◌, ◌≡◌, ap, ◌∙◌, ◌⊎◌, inl, inr, Bool-cases, none, some, arith,
  ltb, ltb→lt, not_ltb→le, if◌then◌else◌, add32, sub32, mul64, add64, u32_mod, mul64_lem,
  mul-lt_u64, pos_of_mul, u64_mod, min, ap₂, div-le, div-mul-le, div-mul-gt,
}
use vortex_net.TokenBucket.{Config, State, produced, settle, attempt, capped}

pub record IsSmall (cfg : Config) : Type 0 where
  pub cap_fits : cfg.capacity < u32_mod
  pub rate_fits : cfg.refill_rate < u32_mod

pub record IsValid (cfg : Config) (st : State) : Type 0 where
  pub stamp_fits : st.timestamp_ms < u32_mod
  pub within : st.tokens ≤ cfg.capacity

-- The milliseconds since the last settlement.
abbrev pub elapsed : State → ℕ → ℕ
elapsed st now = sub32 now st.timestamp_ms

-- The milliseconds that a settlement accounts for.
abbrev pub advance : Config → State → ℕ → ℕ
advance cfg cur now = produced cfg cur now * 1000 / cfg.refill_rate

module _ {cfg : Config} (small : IsSmall cfg) (cur : State) (now : ℕ) where
  pub produced_lem : produced cfg cur now ≡ elapsed cur now * cfg.refill_rate / 1000
  unfolding produced
  produced_lem =
      ap (λ n. n / 1000) (mul64_lem (elapsed cur now) cfg.refill_rate (omega arith) small.rate_fits)

  pub produced-le : produced cfg cur now * 1000 ≤ elapsed cur now * cfg.refill_rate
  produced-le = rw produced_lem (div-mul-le (elapsed cur now * cfg.refill_rate) 1000)

  pub produced-fits : produced cfg cur now * 1000 < u64_mod
  produced-fits = omega (
    arith,
    produced-le,
    mul-lt_u64 (elapsed cur now) cfg.refill_rate (omega arith) small.rate_fits,
  )

  pub rate-pos : 0 < produced cfg cur now → 0 < cfg.refill_rate
  rate-pos h = pos_of_mul (elapsed cur now) cfg.refill_rate (omega (arith, produced-le))

  pub advance-le : 0 < produced cfg cur now → advance cfg cur now ≤ elapsed cur now
  advance-le h =
      div-le (produced cfg cur now * 1000) (elapsed cur now) cfg.refill_rate (rate-pos h)
        produced-le

  -- The settlement without its wraps and casts.
  pub settle_lem :
      IsValid cfg cur
      → settle cfg cur now ≡ (
          if ltb 0 (produced cfg cur now)
          then record {
            timestamp_ms = add32 cur.timestamp_ms (advance cfg cur now);
            tokens = min cfg.capacity (cur.tokens + produced cfg cur now);
          }
          else cur)
  unfolding settle
  settle_lem v = elim (Bool-cases (ltb 0 (produced cfg cur now))) [
    | inl e ↦
        rw e (ap₂ (λ t n. record { timestamp_ms = t; tokens = n }) (stamp (ltb→lt _ _ e)) count)
    | inr e ↦ rw e
  ]
    where
      stamp :
          0 < produced cfg cur now
          → add32 cur.timestamp_ms (mul64 (produced cfg cur now) 1000 / cfg.refill_rate % u32_mod)
            ≡ add32 cur.timestamp_ms (advance cfg cur now)
      stamp h =
          rw
            (let e : mul64 (produced cfg cur now) 1000 ≡ produced cfg cur now * 1000 =
                omega (arith, produced-fits) in
              e)
            (ap (add32 cur.timestamp_ms) (omega (arith, advance-le h)))

      count :
          capped cfg.capacity (add64 cur.tokens (produced cfg cur now))
          ≡ min cfg.capacity (cur.tokens + produced cfg cur now)
      count = ground (arith, produced-fits, v.within, small.cap_fits)

-- What a bucket may yet give, in thousandths of a token: its tokens, and the time not yet settled.
abbrev pub credit : Config → State → ℕ → ℕ
credit cfg st now = 1000 * st.tokens + cfg.refill_rate * elapsed st now

mul_split : (r e a : ℕ) → a ≤ e → r * (e - a) + r * a ≡ r * e
mul_split r e a h =
    let joined : r * (e - a) + r * a ≡ r * (e - a + a) = omega arith in
    joined ∙ ap (λ k. r * k) (omega arith)

credit_drift :
    (tokens made e adv rate : ℕ)
    → adv ≤ e
    → made * 1000 < adv * rate + rate
    → 1000 * (tokens + made) + rate * (e - adv) ≤ 1000 * tokens + rate * e + (rate - 1)
credit_drift tokens made e adv rate h k = omega (arith, mul_split rate e adv h)

-- What a settlement keeps.
pub record Settled (cfg : Config) (cur : State) (now : ℕ) (st : State) : Type 0 where
  pub valid : IsValid cfg st
  pub backward : elapsed st now ≤ elapsed cur now
  pub drift : credit cfg st now ≤ credit cfg cur now + (cfg.refill_rate - 1)

module _ {cfg : Config} (small : IsSmall cfg) (cur : State) (now : ℕ) where
  settle-Settled : IsValid cfg cur → now < u32_mod → Settled cfg cur now (settle cfg cur now)
  settle-Settled v here = elim (Bool-cases (ltb 0 (produced cfg cur now))) [
    | inl e ↦ rw (settle_lem small cur now v, e) (moved (ltb→lt _ _ e))
    | inr e ↦
        rw (settle_lem small cur now v, e)
          (record { valid = v; backward = omega arith; drift = omega arith })
  ]
    where
      moved :
          0 < produced cfg cur now
          → Settled cfg cur now (record {
            timestamp_ms = add32 cur.timestamp_ms (advance cfg cur now);
            tokens = min cfg.capacity (cur.tokens + produced cfg cur now);
          })
      moved h =
          let bound = advance-le small cur now h in
          let left : sub32 now (add32 cur.timestamp_ms (advance cfg cur now))
              ≡ elapsed cur now - advance cfg cur now =
            omega (arith, v.stamp_fits, here, bound) in
          record {
            valid = record { stamp_fits = omega arith; within = omega arith };
            backward = omega (arith, left);
            drift = omega (
              arith,
              ap (λ k. cfg.refill_rate * k) left,
              credit_drift cur.tokens (produced cfg cur now) (elapsed cur now) (advance cfg cur now)
                  cfg.refill_rate bound
                  (div-mul-gt (produced cfg cur now * 1000) cfg.refill_rate
                    (rate-pos small cur now h)),
            );
          }

-- What a granted attempt does: the state stays valid, the tokens asked for have been taken out of a
-- bucket that was not over its capacity, the bucket's clock does not pass the present, and the credit
-- falls by the tokens given, but for less than one token of rounding.
pub record Granted (cfg : Config) (cur : State) (now need : ℕ) (next : State) : Type 0 where
  pub valid : IsValid cfg next
  pub room : next.tokens + need ≤ cfg.capacity
  pub backward : elapsed next now ≤ elapsed cur now
  pub drift : credit cfg next now + 1000 * need ≤ credit cfg cur now + (cfg.refill_rate - 1)

-- A granted attempt on a valid state is as `Granted` says, and a refused one finds fewer tokens than
-- asked for, after counting those that time has produced.
pub attempt_lem :
    {cfg : Config} (cur : State) (now need : ℕ)
    → IsSmall cfg
    → IsValid cfg cur
    → now < u32_mod
    → ((next : State) × (attempt cfg cur now need ≡ some next) × Granted cfg cur now need next)
      ⊎ ((attempt cfg cur now need ≡ none)
          × (min cfg.capacity (cur.tokens + produced cfg cur now) < need))
unfolding attempt
attempt_lem {cfg} cur now need small v here =
    elim (Bool-cases (ltb (settle cfg cur now).tokens need)) [
      | inl e ↦ inr (rw e, omega (arith, ltb→lt _ _ e, tokens-settle))
      | inr e ↦ inl (
        record (settle cfg cur now) { tokens = (settle cfg cur now).tokens - need },
        rw e,
        granted (not_ltb→le _ _ e),
      )
    ]
  where
    settled : Settled cfg cur now (settle cfg cur now)
    settled = settle-Settled small cur now v here

    tokens-settle :
        (settle cfg cur now).tokens ≡ min cfg.capacity (cur.tokens + produced cfg cur now)
    tokens-settle = rw (settle_lem small cur now v) (ground (arith, v.within))

    granted :
        need ≤ (settle cfg cur now).tokens
        → Granted cfg cur now need
            (record (settle cfg cur now) { tokens = (settle cfg cur now).tokens - need })
    granted h = record {
      valid = record {
        stamp_fits = settled.valid.stamp_fits;
        within = omega (arith, settled.valid.within);
      };
      room = omega (arith, settled.valid.within);
      backward = settled.backward;
      drift = omega (arith, settled.drift);
    }
