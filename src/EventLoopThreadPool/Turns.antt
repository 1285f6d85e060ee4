-- ===== src/EventLoopThreadPool/Turns.antt =====
-- EventLoopThreadPool.cc, `getNextLoop`: each loop has its turn.
use vortex_net.Base.{
  ℕ, zero, suc, ◌+◌, ◌≤◌, ◌<◌, ◌≡◌, refl, sym, subst, ◌∙◌, ap, true, false, List, [], ◌∷◌, Option,
  some, leb, length, get_elem?, drop, map, arith,
}
use vortex_net.EventLoopThreadPool.{EventLoopThreadPool, is_empty, get_next_loop, get_all_loops}

-- What the next `m` calls give, and the pool after them.
unfoldable pub calls : ℕ → EventLoopThreadPool → List (Option ℕ) × EventLoopThreadPool
calls zero p = ([], p)
calls (suc m) p =
    let (loop, p') = get_next_loop p in let (rest, p'') = calls m p' in (loop ∷ rest, p'')

drop_step :
    (i : ℕ) (xs : List ℕ)
    → i < length xs
    → map some (drop i xs) ≡ get_elem? xs i ∷ map some (drop (suc i) xs)
drop_step i [] h = absurd (omega arith)
drop_step zero (x ∷ xs) h = refl
drop_step (suc i) (x ∷ xs) h = drop_step i xs (omega arith)

drop_end : (xs : List ℕ) (i : ℕ) → length xs ≤ i → map some (drop i xs) ≡ []
drop_end [] zero h = refl
drop_end [] (suc i) h = refl
drop_end (x ∷ xs) zero h = absurd (omega arith)
drop_end (x ∷ xs) (suc i) h = drop_end xs i (omega arith)

not_empty : (xs : List ℕ) (i : ℕ) → i < length xs → is_empty xs ≡ false
not_empty [] i h = absurd (omega arith)
not_empty (x ∷ xs) i h = refl

-- The pool at the position `i` of its round.
abbrev at : ℕ → List ℕ → ℕ → EventLoopThreadPool
at base loops i = record { base_loop = base; loops = loops; next = i }

get_next_loop_within :
    (base : ℕ) (loops : List ℕ) (i : ℕ)
    → suc i < length loops
    → get_next_loop (at base loops i) ≡ (get_elem? loops i, at base loops (suc i))
unfolding get_next_loop
get_next_loop_within base loops i h =
    let more : leb (length loops) (suc i) ≡ false = ground (arith, h) in
    rw (not_empty loops i (omega arith), more)

get_next_loop_last :
    (base : ℕ) (loops : List ℕ) (i : ℕ)
    → suc i ≡ length loops
    → get_next_loop (at base loops i) ≡ (get_elem? loops i, at base loops 0)
unfolding get_next_loop
get_next_loop_last base loops i h =
    let full : leb (length loops) (suc i) ≡ true = ground (arith, h) in
    rw (not_empty loops i (omega arith), full)

calls_step :
    (m : ℕ) (p p' : EventLoopThreadPool) (loop : Option ℕ)
    → get_next_loop p ≡ (loop, p')
    → calls (suc m) p ≡ (loop ∷ (calls m p').0, (calls m p').1)
unfolding calls
calls_step m p p' loop e = ap (λ r. (r.0 ∷ (calls m r.1).0, (calls m r.1).1)) e

-- From the position `i` to the end of the round.
calls_round :
    (m base : ℕ) (loops : List ℕ) (i : ℕ)
    → i + suc m ≡ length loops
    → calls (suc m) (at base loops i) ≡ (map some (drop i loops), at base loops 0)
unfolding calls
calls_round zero base loops i h =
    calls_step 0 (at base loops i) (at base loops 0) (get_elem? loops i)
      (get_next_loop_last base loops i (omega arith))
    ∙ rw (drop_step i loops (omega arith), drop_end loops (suc i) (omega arith))
calls_round (suc m) base loops i h =
    calls_step (suc m) (at base loops i) (at base loops (suc i)) (get_elem? loops i)
      (get_next_loop_within base loops i (omega arith))
    ∙ ap (λ r. (get_elem? loops i ∷ r.0, r.1)) (calls_round m base loops (suc i) (omega arith))
    ∙ ap (λ l. (l, at base loops 0)) (sym (drop_step i loops (omega arith)))

calls_all :
    (base : ℕ) (loops : List ℕ)
    → calls (length (get_all_loops (at base loops 0))) (at base loops 0)
      ≡ (map some (get_all_loops (at base loops 0)), at base loops 0)
unfolding calls get_next_loop get_all_loops
calls_all base [] = refl
calls_all base (x ∷ xs) = calls_round (length xs) base (x ∷ xs) 0 (omega arith)

-- In as many calls as there are loops, a pool that is at the start of a round gives each loop once, in
-- order, and is at the start of a round again; with no loops every call gives the base loop.
pub calls-get_all_loops :
    (p : EventLoopThreadPool)
    → p.next ≡ 0
    → calls (length (get_all_loops p)) p ≡ (map some (get_all_loops p), p)
calls-get_all_loops p z =
    let same : at p.base_loop p.loops 0 ≡ p = ap (λ n. at p.base_loop p.loops n) (sym z) in
    subst (λ q. calls (length (get_all_loops q)) q ≡ (map some (get_all_loops q), q)) same
      (calls_all p.base_loop p.loops)
