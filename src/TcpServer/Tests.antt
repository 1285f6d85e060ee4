-- ===== src/TcpServer/Tests.antt =====
-- Runs of the server, and its theorem at a concrete input.
use vortex_net.Base.{◌+◌, ◌≤◌, ◌<◌, ◌≡◌, refl, true, [], ◌∷◌, some, arith}
use vortex_net.EventLoopThreadPool.{EventLoopThreadPool, get_next_loop}
use vortex_net.EventLoopThreadPool as Pool
use vortex_net.TcpServer.{
  Connection, TcpServer, new, new_connection, handle_read, remove_connection_in_loop, destruct,
  start,
}
use vortex_net.TcpServer.Tally.{
  Reach, begins, accepts, removes, live, established, destroyed, Reach-Tally,
}

abbrev pool : EventLoopThreadPool
pool = record { base_loop = 1; loops = 2 ∷ 3 ∷ []; next = 0 }

abbrev first : Connection
first = record { id = 1; fd = 8; io_loop = some 2 }

abbrev second : Connection
second = record { id = 2; fd = 9; io_loop = some 3 }

abbrev both : TcpServer
both = handle_read true (handle_read true (new pool) (some 8)) (some 9)

-- The loops of the pool take turns.
two_loops : both.connections ≡ second ∷ first ∷ []
unfolding handle_read new_connection get_next_loop
two_loops = refl

-- The threads are started once, however often the server is.
starts_once : (start (start (new pool) (4 ∷ [])) (5 ∷ [])).thread_pool.loops ≡ 2 ∷ 3 ∷ 4 ∷ []
unfolding start Pool.start
starts_once = refl

abbrev one_left : TcpServer
one_left = remove_connection_in_loop both first

there : 0 < live 1 both.connections
unfolding handle_read new_connection get_next_loop
there = omega arith

one_left-Reach : Reach one_left
one_left-Reach = removes (accepts (accepts (begins pool) true (some 8)) true (some 9)) first there

Reach-Tally_example :
    (established 1 one_left.functors ≤ 1)
    × (established 1 one_left.functors
        ≡ live 1 one_left.connections + destroyed 1 one_left.functors)
    × (destroyed 1 (destruct one_left).functors ≡ established 1 (destruct one_left).functors)
Reach-Tally_example = Reach-Tally one_left one_left-Reach 1
