-- ===== src/TokenBucket/Retry.antt =====
-- TokenBucket.cc: the compare-and-swap loop of `tryAcquire` under contention.
use vortex_net.Base.{
  ℕ, ◌≡◌, ◌⊎◌, inl, inr, List, [], ◌∷◌, none, some, Option-cases, ◌==◌, ltb, ◌<◌, u32_mod, ==_iff,
  ltb→lt, Bool-cases,
}
use vortex_net.TokenBucket.{
  Config, State, Round, Outcome, taken, free, refused, spinning, attempt, acquire_loop, try_acquire,
}
use vortex_net.TokenBucket.Settle.{IsSmall, IsValid, Granted}
use vortex_net.TokenBucket.Rate.{attempt-Granted}

-- The loop, begun with the first state, comes to look at the last one at the time `now`.
pub data Sees : State → List Round → State → ℕ → Type 0 where
  here : {st : State} {r : Round} {rs : List Round} → Sees st (r ∷ rs) st r.now
  later :
      {st seen cur : State} {r : Round} {rs : List Round} {now : ℕ}
      → r.found ≡ some seen
      → Sees seen rs cur now
      → Sees st (r ∷ rs) cur now

-- The loop, begun with the first state, sees the last one at the time `now`, all exchanges before
-- having failed, and the exchange of that round succeeds.
pub data Wins : State → List Round → State → ℕ → Type 0 where
  wins : {st : State} {r : Round} {rs : List Round} → r.found ≡ none → Wins st (r ∷ rs) st r.now
  loses :
      {st seen cur : State} {r : Round} {rs : List Round} {now : ℕ}
      → r.found ≡ some seen
      → Wins seen rs cur now
      → Wins st (r ∷ rs) cur now

-- Every exchange of the rounds failed.
abbrev pub AllFail : List Round → Type 0
AllFail [] = Unit
AllFail (r ∷ rs) = ((seen : State) × (r.found ≡ some seen)) × AllFail rs

abbrev pub AllValid : Config → List Round → Type 0
AllValid cfg [] = Unit
AllValid cfg (r ∷ rs) =
    (r.now < u32_mod) × ((seen : State) → r.found ≡ some seen → IsValid cfg seen) × AllValid cfg rs

-- What an outcome says of the states that the call saw.
abbrev pub Explained : Config → ℕ → State → List Round → Outcome → Type 0
Explained cfg need st rounds (taken cur next) =
    (now : ℕ) × Wins st rounds cur now × Granted cfg cur now need next
Explained cfg need st rounds free = need ≡ 0
Explained cfg need st rounds refused =
    (cfg.capacity < need)
    ⊎ ((cur : State) × (now : ℕ) × Sees st rounds cur now × (attempt cfg cur now need ≡ none))
Explained cfg need st rounds (spinning cur) = AllFail rounds

later_Explained :
    (cfg : Config) (need : ℕ) (st seen : State) (r : Round) (rs : List Round) (out : Outcome)
    → r.found ≡ some seen
    → Explained cfg need seen rs out
    → Explained cfg need st (r ∷ rs) out
later_Explained cfg need st seen r rs (taken cur next) e (now, s, g) = (now, loses e s, g)
later_Explained cfg need st seen r rs free e x = x
later_Explained cfg need st seen r rs refused e (inl x) = inl x
later_Explained cfg need st seen r rs refused e (inr (cur, now, s, a)) =
    inr (cur, now, later e s, a)
later_Explained cfg need st seen r rs (spinning cur) e x = ((seen, e), x)

acquire_loop-retry :
    (cfg : Config) (need : ℕ) (st next seen : State) (r : Round) (rs : List Round)
    → attempt cfg st r.now need ≡ some next
    → r.found ≡ some seen
    → acquire_loop cfg need st (r ∷ rs) ≡ acquire_loop cfg need seen rs
unfolding acquire_loop
acquire_loop-retry cfg need st next seen r rs e f = rw (e, f, acquire_loop)

acquire_loop-win :
    (cfg : Config) (need : ℕ) (st next : State) (r : Round) (rs : List Round)
    → attempt cfg st r.now need ≡ some next
    → r.found ≡ none
    → acquire_loop cfg need st (r ∷ rs) ≡ taken st next
unfolding acquire_loop
acquire_loop-win cfg need st next r rs e f = rw (e, f, acquire_loop)

acquire_loop-Explained :
    (cfg : Config) (need : ℕ) (st : State) (rounds : List Round)
    → IsSmall cfg
    → IsValid cfg st
    → AllValid cfg rounds
    → Explained cfg need st rounds (acquire_loop cfg need st rounds)
unfolding acquire_loop
acquire_loop-Explained cfg need st [] small v all = tt
acquire_loop-Explained cfg need st (r ∷ rs) small v all =
    elim (Option-cases (attempt cfg st r.now need)) [
      | inl e ↦ rw (e, acquire_loop) (inr (st, r.now, here, e))
      | inr (next, e) ↦ elim (Option-cases r.found) [
        | inl f ↦
            rw (acquire_loop-win cfg need st next r rs e f)
              (r.now, wins f, attempt-Granted st r.now need next small v all.0 e)
        | inr (seen, f) ↦ rw (acquire_loop-retry cfg need st next seen r rs e f) (
            later_Explained cfg need st seen r rs (acquire_loop cfg need seen rs) f
              (acquire_loop-Explained cfg need seen rs small (all.1 seen f) all.2))
      ]
    ]

-- However often other threads win the exchange, as long as they leave valid states: a call that
-- takes tokens lost every exchange before one that succeeded, and that one replaced the state that
-- the call had seen last by a granted attempt on that very state; a call that is
-- refused asked for more than the capacity, or saw a state with too few tokens; a call that gives
-- nothing asked for none; and a call goes on only while every exchange has failed.
pub try_acquire-Explained :
    (cfg : Config) (need : ℕ) (st : State) (rounds : List Round)
    → IsSmall cfg
    → IsValid cfg st
    → AllValid cfg rounds
    → Explained cfg need st rounds (try_acquire cfg st need rounds)
unfolding try_acquire
try_acquire-Explained cfg need st rounds small v all = elim (Bool-cases (need == 0)) [
  | inl e ↦ rw e ((==_iff need 0).0 e)
  | inr e ↦ elim (Bool-cases (ltb cfg.capacity need)) [
    | inl f ↦ rw (e, f) (inl (ltb→lt _ _ f))
    | inr f ↦ rw (e, f) (acquire_loop-Explained cfg need st rounds small v all)
  ]
]
