-- ===== src/EventLoopThreadPool/Tests.antt =====
-- A run of the pool, and its theorem at a concrete input.
use vortex_net.Base.{◌≡◌, refl, [], ◌∷◌, some}
use vortex_net.EventLoopThreadPool.{EventLoopThreadPool, start, get_next_loop, get_all_loops}
use vortex_net.EventLoopThreadPool.Turns.{calls, calls-get_all_loops}

abbrev idle : EventLoopThreadPool
idle = record { base_loop = 1; loops = []; next = 0 }

-- Five calls on three loops.
turns :
    (calls 5 (start idle (10 ∷ 20 ∷ 30 ∷ []))).0
    ≡ some 10 ∷ some 20 ∷ some 30 ∷ some 10 ∷ some 20 ∷ []
unfolding calls start get_next_loop
turns = refl

calls-get_all_loops_example :
    calls 3 (record idle { loops = 10 ∷ 20 ∷ 30 ∷ [] })
    ≡ (some 10 ∷ some 20 ∷ some 30 ∷ [], record idle { loops = 10 ∷ 20 ∷ 30 ∷ [] })
unfolding get_all_loops
calls-get_all_loops_example = calls-get_all_loops (record idle { loops = 10 ∷ 20 ∷ 30 ∷ [] }) refl
