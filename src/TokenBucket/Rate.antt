-- ===== src/TokenBucket/Rate.antt =====
-- TokenBucket.cc: what a sequence of calls of `tryAcquire` on one bucket may be given altogether,
-- and what `update` keeps.
use vortex_net.Base.{
  ℕ, ◌+◌, ◌-◌, ◌*◌, ◌≤◌, ◌<◌, ◌≡◌, refl, ap, subst, ◌⊎◌, inl, inr, List, [], ◌∷◌, none, some,
  length, arith, add32, sub32, u32_mod, min,
}
use vortex_net.TokenBucket.{
  Config, State, TokenBucket, Round, taken, free, refused, produced, attempt, acquire_loop,
  try_acquire, available_tokens, update, update_state,
}
use vortex_net.TokenBucket.Settle.{
  IsSmall, IsValid, elapsed, credit, Granted, attempt_lem, produced-fits,
}

-- An exchange that succeeds at once, at the time `now`.
abbrev pub at_once : ℕ → List Round
at_once now = record { now = now; found = none } ∷ []

-- A call that comes `gap` milliseconds after the one before, and asks for `need` tokens.
pub record Request : Type 0 where
  pub gap : ℕ
  pub need : ℕ

-- The tokens given to the calls, one after the other.
unfoldable pub given : Config → State → ℕ → List Request → ℕ
given cfg st now [] = 0
given cfg st now (q ∷ qs) = elim (try_acquire cfg st q.need (at_once (add32 now q.gap))) [
  | taken cur next ↦ q.need + given cfg next (add32 now q.gap) qs
  | _ ↦ given cfg st (add32 now q.gap) qs
]

abbrev pub duration : List Request → ℕ
duration [] = 0
duration (q ∷ qs) = q.gap + duration qs

-- A call without contention gives nothing, or makes one granted attempt.
pub try_acquire-at_once :
    (cfg : Config) (st : State) (need now : ℕ)
    → let out = try_acquire cfg st need (at_once now) in
      (out ≡ free)
      ⊎ (out ≡ refused)
      ⊎ ((next : State) × (out ≡ taken st next) × (attempt cfg st now need ≡ some next))
unfolding try_acquire acquire_loop
try_acquire-at_once cfg st need now = ground arith

acquired :
    (cfg : Config) (st next : State) (now need : ℕ)
    → 0 < need
    → need ≤ cfg.capacity
    → attempt cfg st now need ≡ some next
    → try_acquire cfg st need (at_once now) ≡ taken st next
unfolding try_acquire acquire_loop
acquired cfg st next now need asked fits a = ground arith

given_cases :
    (cfg : Config) (st : State) (now : ℕ) (q : Request) (qs : List Request)
    → (given cfg st now (q ∷ qs) ≡ given cfg st (add32 now q.gap) qs)
      ⊎ ((next : State) × (attempt cfg st (add32 now q.gap) q.need ≡ some next)
          × (given cfg st now (q ∷ qs) ≡ q.need + given cfg next (add32 now q.gap) qs))
unfolding given
given_cases cfg st now q qs = elim (try_acquire-at_once cfg st q.need (add32 now q.gap)) [
  | inl e ↦ inl (rw (e, given))
  | inr (inl e) ↦ inl (rw (e, given))
  | inr (inr (next, e, a)) ↦ inr (next, a, rw (e, given))
]

pub given-nil : (cfg : Config) (st : State) (now : ℕ) → given cfg st now [] ≡ 0
unfolding given
given-nil cfg st now = refl

-- A call that is given its tokens takes them from what the later calls find.
pub given-taken :
    (cfg : Config) (st next : State) (now : ℕ) (q : Request) (qs : List Request)
    → 0 < q.need
    → q.need ≤ cfg.capacity
    → attempt cfg st (add32 now q.gap) q.need ≡ some next
    → given cfg st now (q ∷ qs) ≡ q.need + given cfg next (add32 now q.gap) qs
unfolding given
given-taken cfg st next now q qs asked fits a =
    let e : try_acquire cfg st q.need (at_once (add32 now q.gap)) ≡ taken st next =
      acquired cfg st next (add32 now q.gap) q.need asked fits a in
    rw (e, given)

pub attempt-Granted :
    {cfg : Config} (cur : State) (now need : ℕ) (next : State)
    → IsSmall cfg
    → IsValid cfg cur
    → now < u32_mod
    → attempt cfg cur now need ≡ some next
    → Granted cfg cur now need next
attempt-Granted {cfg} cur now need next small v here e =
    elim (attempt_lem cur now need small v here) [
      | inl (other, e', g) ↦ let same : other ≡ next = cc in subst (Granted cfg cur now need) same g
      | inr (e', _) ↦ absurd (cc)
    ]

-- Over any sequence of calls that ends before the 32-bit clock comes round, the tokens given are at
-- most what the bucket held and what its rate yields over the time, but for the rounding of the
-- clock: up to `refill_rate - 1` thousandths of a token for each call. That is less than one token
-- for a rate up to 1000, and may be several for the gateway's rates.
pub rate_bound :
    {cfg : Config} (st : State) (now : ℕ) (qs : List Request)
    → IsSmall cfg
    → IsValid cfg st
    → now < u32_mod
    → elapsed st now + duration qs < u32_mod
    → 1000 * given cfg st now qs
      ≤ credit cfg st now + cfg.refill_rate * duration qs + length qs * (cfg.refill_rate - 1)
unfolding given
rate_bound st now [] small v here short = omega arith
rate_bound {cfg} st now (q ∷ qs) small v here short = elim (given_cases cfg st now q qs) [
  | inl e ↦ rw e (
      omega (
        arith,
        later,
        ap (λ k. cfg.refill_rate * k) later,
        rate_bound st (add32 now q.gap) qs small v (omega arith) (omega (arith, later)),
      ))
  | inr (next, a, e) ↦
      let g = attempt-Granted st (add32 now q.gap) q.need next small v (omega arith) a in
      rw e (
        omega (
          arith,
          ap (λ k. cfg.refill_rate * k) later,
          g.drift,
          rate_bound next (add32 now q.gap) qs small g.valid (omega arith)
              (omega (arith, later, g.backward)),
        ))
]
  where
    later : elapsed st (add32 now q.gap) ≡ elapsed st now + q.gap
    later = omega (arith, v.stamp_fits)

tokens-update_state :
    (cfg : Config) (new_capacity : ℕ) (cur : State) (now : ℕ)
    → IsSmall cfg
    → IsValid cfg cur
    → new_capacity < u32_mod
    → (update_state cfg new_capacity cur now).tokens
      ≡ min new_capacity (min cfg.capacity (cur.tokens + produced cfg cur now))
unfolding update_state
tokens-update_state cfg new_capacity cur now small v h = ground (arith, produced-fits small cur now)

available_lem :
    (b : TokenBucket) (now : ℕ)
    → IsSmall b.config
    → IsValid b.config b.state
    → available_tokens b now
      ≡ min b.config.capacity (b.state.tokens + produced b.config b.state now)
unfolding available_tokens
available_lem b now small v = ground (arith, produced-fits small b.state now)

produced_now :
    (cfg : Config) (st : State) (now : ℕ) → sub32 now st.timestamp_ms ≡ 0 → produced cfg st now ≡ 0
unfolding produced
produced_now cfg st now h = rw h (omega arith)

timestamp-update_state :
    (cfg : Config) (new_capacity : ℕ) (cur : State) (now : ℕ)
    → (update_state cfg new_capacity cur now).timestamp_ms ≡ now
unfolding update_state
timestamp-update_state cfg new_capacity cur now = refl

-- `update` leaves a state that fits both capacities and is dated now, and the tokens on hand at that
-- moment are those on hand before it, cut to the new capacity: none is lost and none is made.
pub update_lem :
    (b : TokenBucket) (new_capacity new_rate now : ℕ)
    → IsSmall b.config
    → IsValid b.config b.state
    → new_capacity < u32_mod
    → new_rate < u32_mod
    → now < u32_mod
    → let c = update b new_capacity new_rate now in
      IsSmall c.config
      × IsValid c.config c.state
      × (c.state.timestamp_ms ≡ now)
      × (c.state.tokens ≤ b.config.capacity)
      × (available_tokens c now ≡ min new_capacity (available_tokens b now))
unfolding update
update_lem b new_capacity new_rate now small v cap_fits rate_fits here =
    (ok, ok', stamp, omega (arith, count), after)
  where
    next : State
    next = update_state b.config new_capacity b.state now

    stamp : next.timestamp_ms ≡ now
    stamp = timestamp-update_state b.config new_capacity b.state now

    count :
        next.tokens
        ≡ min new_capacity (min b.config.capacity (b.state.tokens + produced b.config b.state now))
    count = tokens-update_state b.config new_capacity b.state now small v cap_fits

    ok : IsSmall (update b new_capacity new_rate now).config
    ok = record { cap_fits = cap_fits; rate_fits = rate_fits }

    ok' : IsValid (update b new_capacity new_rate now).config next
    ok' = record { stamp_fits = omega (arith, stamp); within = omega (arith, count) }

    after :
        available_tokens (update b new_capacity new_rate now) now
        ≡ min new_capacity (available_tokens b now)
    after =
        rw
          (
            available_lem (update b new_capacity new_rate now) now ok ok',
            available_lem b now small v,
          )
          (omega (
            arith,
            count,
            produced_now (update b new_capacity new_rate now).config next now
                (omega (arith, stamp)),
          ))
