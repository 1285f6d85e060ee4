-- ===== src/Selector/Tests.antt =====
-- Runs of the selector, and its theorems at concrete inputs.
use vortex_net.Base.{
  ℕ, suc, ◌+◌, ◌*◌, ◌<◌, ◌≡◌, refl, ◌⊎◌, false, List, [], ◌∷◌, Option, some, arith, zero,
}
use vortex_net.Base.Int.{neg_part, ◌+ℤ◌, ◌-ℤ◌}
use vortex_net.ServerNode.{ServerNode, InetAddress, new}
use vortex_net.Selector.{
  Selector, Best, scan, deduct, better, settle_best, panic_mode, choose, get_next_server,
  get_by_hash, find_entry, lower_bound, add_node, remove_node, addr_at,
}
use vortex_net.Selector.Choose.{Chosen, get_next_server-Chosen}
use vortex_net.Selector.Fair.{Fit, times, credit_at, fair_share}
use vortex_net.Selector.Ring.{get_by_hash-add_node, get_by_hash-remove_node}

abbrev host : ℕ → InetAddress
host p = record { ip = 2130706433; port = p }

-- The weights 5, 1 and 1.
abbrev three : List ServerNode
three = new 1 (host 1000) 5 3 2 ∷ new 2 (host 2000) 1 3 2 ∷ new 3 (host 3000) 1 3 2 ∷ []

abbrev group : Selector
group = record {
  server_group = three;
  ring = (5, host 1000) ∷ (900, host 2000) ∷ [];
  failed_requests = 0;
}

abbrev dead : ServerNode → ServerNode
dead n = record n { is_alive = false }

sequence : ℕ → List ServerNode → List (Option ℕ)
sequence zero ns = []
sequence (suc k) ns = (choose ns).0 ∷ sequence k (choose ns).1

-- The heavy node's turns are spread out.
smooth : sequence 7 three ≡ some 0 ∷ some 0 ∷ some 1 ∷ some 0 ∷ some 2 ∷ some 0 ∷ some 0 ∷ []
unfolding sequence choose settle_best scan better deduct panic_mode ◌+ℤ◌ ◌-ℤ◌
smooth = refl

-- With every node dead the group panics, and one of them is given all the same.
all_dead : (choose (dead (new 1 (host 1000) 5 3 2) ∷ [])).0 ≡ some 0
unfolding choose settle_best scan better deduct panic_mode ◌+ℤ◌ ◌-ℤ◌
all_dead = refl

wraps : get_by_hash group 901 ≡ host 1000
unfolding get_by_hash find_entry lower_bound
wraps = refl

get_next_server-Chosen_example :
    (b : Best) × ((get_next_server group).0 ≡ addr_at three (some b.index))
    × Chosen three (get_next_server group).1.server_group b
    × ((get_next_server group).1.failed_requests ≡ 0)
get_next_server-Chosen_example = get_next_server-Chosen group refl

three-Fit : Fit 7 three
unfolding ◌+ℤ◌
three-Fit = record {
  alive = (refl, (refl, (refl, tt)));
  some_node = refl;
  sum = refl;
  balanced = refl;
  low = low_of;
}
  where
    low_of : (j : ℕ) → j < 3 → neg_part (credit_at three j) < 7
    low_of zero h = omega arith
    low_of (suc zero) h = omega arith
    low_of (suc (suc zero)) h = omega arith
    low_of (suc (suc (suc j))) h = absurd (omega arith)

fair_share_example : times 0 10 three * 7 + 0 < 10 * 5 + 7 + 0
fair_share_example = fair_share 7 10 0 three (omega arith) three-Fit (omega arith)

abbrev partition : InetAddress → ℕ → ℕ
partition a i = a.port + i

get_by_hash-add_node_example :
    (get_by_hash (add_node partition group (new 4 (host 4000) 1 3 2)) 600 ≡ host 4000)
    ⊎ (get_by_hash (add_node partition group (new 4 (host 4000) 1 3 2)) 600 ≡ get_by_hash group 600)
get_by_hash-add_node_example = get_by_hash-add_node partition group (new 4 (host 4000) 1 3 2) 600

get_by_hash-remove_node_example :
    (find_entry 600 (remove_node partition group (new 1 (host 1000) 5 3 2)).ring
      ≡ some (900, host 2000))
    × (get_by_hash (remove_node partition group (new 1 (host 1000) 5 3 2)) 600
        ≡ get_by_hash group 600)
unfolding find_entry lower_bound
get_by_hash-remove_node_example =
    get_by_hash-remove_node partition group (new 1 (host 1000) 5 3 2) 600 (900, host 2000) refl
      (λ j l e. absurd (omega arith))
