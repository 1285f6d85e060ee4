-- ===== src/ConnectionPool/Tests.antt =====
-- Runs of the pool, and its theorem at a concrete input.
use vortex_net.Base.{◌≤◌, ◌≡◌, refl, ℕ, true, [], Option, some, arith, codes, length}
use vortex_net.ApiKeyAuth.{Str, str_eq}
use vortex_net.RemoteClient as Remote
use vortex_net.ConnectionPool.{
  ConnectionPool, max_conns, rfind_colon, split_target, borrow_connection, return_connection,
  make_client, take_idle, set_idle, set_client, pop_back,
}
use vortex_net.ConnectionPool.Loans.{Reach, fresh, borrows, returns, Lent, Reach-Lent}

abbrev stoi : Str → Option ℕ
stoi s = some (length s)

abbrev target : Str
target = codes "10.0.0.1:80"

abbrev empty_pool : ConnectionPool
empty_pool = record { clients = λ r. Remote.new [] 0; next = 0; idle_map = λ t. [] }

abbrev one : ConnectionPool
one = make_client empty_pool (codes "10.0.0.1") 2

address : split_target stoi target ≡ some (codes "10.0.0.1", 2)
unfolding split_target rfind_colon
address = refl

first : borrow_connection stoi empty_pool target ≡ some (0, one)
unfolding borrow_connection pop_back split_target rfind_colon
first = refl

lent_one : Reach one
lent_one = borrows (fresh (λ r. Remote.new [] 0)) stoi target 0 first

busy_one : (one.clients 0).is_busy ≡ true
unfolding set_client
busy_one = refl

idle_one : Reach (return_connection one target 0)
idle_one = returns lent_one target 0 (omega arith) busy_one

-- What was given back is handed out again.
abbrev given_back : ConnectionPool
given_back = return_connection one target 0

abbrev again : ConnectionPool
again = take_idle given_back target [] 0

second : borrow_connection stoi given_back target ≡ some (0, again)
unfolding borrow_connection return_connection pop_back set_idle str_eq
second = refl

Reach-Lent_example :
    ((u : Str) → length (given_back.idle_map u) ≤ max_conns) × Lent given_back again 0
Reach-Lent_example = Reach-Lent stoi given_back again target 0 idle_one second
