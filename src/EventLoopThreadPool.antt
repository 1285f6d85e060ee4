-- ===== src/EventLoopThreadPool.antt =====
-- src/EventLoopThreadPool.h and EventLoopThreadPool.cc: the loops of a server's threads, handed out in
-- turn. A loop is a number, its address; the threads themselves are not here.
pub mod Turns
mod Tests
use vortex_net.Base.{
  ℕ, zero, suc, ◌+◌, Bool, true, false, List, [], ◌∷◌, ◌++◌, Option, none, some, leb, if◌then◌else◌,
  length, get_elem?,
}

pub record EventLoopThreadPool : Type 0 where
  pub base_loop : ℕ
  pub loops : List ℕ
  pub next : ℕ

-- `start`, with the loops that the new threads give.
unfoldable pub start : EventLoopThreadPool → List ℕ → EventLoopThreadPool
start p given = record p { loops = p.loops ++ given }

abbrev pub is_empty : List ℕ → Bool
is_empty [] = true
is_empty (x ∷ xs) = false

-- `getNextLoop`; an index out of range gives no loop.
unfoldable pub get_next_loop : EventLoopThreadPool → Option ℕ × EventLoopThreadPool
get_next_loop p = if is_empty p.loops then (some p.base_loop, p) else (
  get_elem? p.loops p.next,
  record p { next = if leb (length p.loops) (suc p.next) then 0 else suc p.next },
)

unfoldable pub get_all_loops : EventLoopThreadPool → List ℕ
get_all_loops p = if is_empty p.loops then p.base_loop ∷ [] else p.loops
