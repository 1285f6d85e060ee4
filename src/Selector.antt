-- ===== src/Selector.antt =====
-- Proxy/src/Common/Selector.h and Selector.cc: the choice of a backend, by smooth weighted round robin
-- and by a consistent hash ring. A node is in the group at most once, so it is held by value.
pub mod Choose
pub mod Fair
pub mod Ring
mod Tests
use vortex_net.Base.{
  ℕ, zero, suc, ◌+◌, ◌*◌, ◌/◌, Bool, true, false, not, ◌&&◌, ◌||◌, List, [], ◌∷◌, ◌++◌, Option,
  none, some, ltb, ◌==◌, if◌then◌else◌, length,
}
use vortex_net.Base.Int.{ℤ, pos, ◌+ℤ◌, ◌-ℤ◌, ltb_ℤ}
use vortex_net.ServerNode.{ServerNode, InetAddress}

pub record Selector : Type 0 where
  pub server_group : List ServerNode
  pub ring : List (ℕ × InetAddress)
  pub failed_requests : ℕ

-- `InetAddress(0, "0.0.0.0")`.
abbrev pub no_server : InetAddress
no_server = record { ip = 0; port = 0 }

abbrev pub alive_count : List ServerNode → ℕ
alive_count [] = 0
alive_count (n ∷ ns) = if n.is_alive then suc (alive_count ns) else alive_count ns

-- Only asked of a group that is not empty.
unfoldable pub panic_mode : List ServerNode → Bool
panic_mode ns = ltb (alive_count ns * 100 / length ns) 20

-- The pointer `best`: a position in the group, with that node's current weight.
pub record Best : Type 0 where
  pub index : ℕ
  pub weight : ℤ

unfoldable pub better : Option Best → ℕ → ℤ → Option Best
better none i w = some (record { index = i; weight = w })
better (some b) i w = if ltb_ℤ b.weight w then some (record { index = i; weight = w }) else some b

-- What the loop has when it ends: the nodes, `best` and `total`.
pub record Scan : Type 0 where
  pub nodes : List ServerNode
  pub best : Option Best
  pub total : ℕ

abbrev pub skipped : Bool → ServerNode → Bool
skipped panic n = not n.is_alive && not panic

abbrev pub raised : ServerNode → ServerNode
raised n = record n { current_weight = n.current_weight +ℤ pos n.weight }

-- The loop of `getNextServer`, from the node at position `i` on.
unfoldable pub scan : Bool → List ServerNode → ℕ → Option Best → ℕ → Scan
scan panic [] i best total = record { nodes = []; best = best; total = total }
scan panic (n ∷ ns) i best total =
    let rest = scan panic ns (suc i) best total in
    let rest' =
      scan panic ns (suc i) (better best i (raised n).current_weight) (total + n.weight) in
    if skipped panic n
    then record rest { nodes = n ∷ rest.nodes }
    else record rest' { nodes = raised n ∷ rest'.nodes }

unfoldable pub deduct : ℕ → ℕ → List ServerNode → List ServerNode
deduct i total [] = []
deduct zero total (n ∷ ns) = record n { current_weight = n.current_weight -ℤ pos total } ∷ ns
deduct (suc i) total (n ∷ ns) = n ∷ deduct i total ns

-- The end of `getNextServer`: the best node gives up the total.
unfoldable pub settle_best : Scan → Option ℕ × List ServerNode
settle_best s = elim s.best [
  | none ↦ (none, s.nodes)
  | some b ↦ (some b.index, deduct b.index s.total s.nodes)
]

unfoldable pub choose : List ServerNode → Option ℕ × List ServerNode
choose ns = settle_best (scan (panic_mode ns) ns 0 none 0)

abbrev pub addr_at : List ServerNode → Option ℕ → InetAddress
addr_at ns none = no_server
addr_at [] (some i) = no_server
addr_at (n ∷ ns) (some zero) = n.addr
addr_at (n ∷ ns) (some (suc i)) = addr_at ns (some i)

abbrev pub is_empty : List ServerNode → Bool
is_empty [] = true
is_empty (n ∷ ns) = false

-- `getNextServer()`.
unfoldable pub get_next_server : Selector → InetAddress × Selector
get_next_server q =
    let (chosen, nodes) = choose q.server_group in
    if is_empty q.server_group
    then (no_server, record q { failed_requests = suc q.failed_requests })
    else (addr_at nodes chosen, record q { server_group = nodes })

-- The ring is a `std::map` of the partitions, in order.
unfoldable pub ring_insert : ℕ → InetAddress → List (ℕ × InetAddress) → List (ℕ × InetAddress)
ring_insert k a [] = (k, a) ∷ []
ring_insert k a ((k', a') ∷ r) =
    let rest = ring_insert k a r in
    if ltb k k' then (k, a) ∷ (k', a') ∷ r else if k == k' then (k, a) ∷ r else (k', a') ∷ rest

unfoldable pub ring_erase : ℕ → List (ℕ × InetAddress) → List (ℕ × InetAddress)
ring_erase k [] = []
ring_erase k ((k', a') ∷ r) = if k == k' then r else (k', a') ∷ ring_erase k r

unfoldable pub lower_bound : ℕ → List (ℕ × InetAddress) → Option (ℕ × InetAddress)
lower_bound k [] = none
lower_bound k ((k', a') ∷ r) = if ltb k' k then lower_bound k r else some (k', a')

abbrev pub virtual_nodes : ℕ
virtual_nodes = 100

-- `partition a i` is the hash of the address's text, `#` and the number i.
unfoldable pub mount :
    (InetAddress → ℕ → ℕ) → InetAddress → ℕ → List (ℕ × InetAddress) → List (ℕ × InetAddress)
mount partition a zero r = r
mount partition a (suc i) r = ring_insert (partition a i) a (mount partition a i r)

unfoldable pub unmount :
    (InetAddress → ℕ → ℕ) → InetAddress → ℕ → List (ℕ × InetAddress) → List (ℕ × InetAddress)
unmount partition a zero r = r
unmount partition a (suc i) r = ring_erase (partition a i) (unmount partition a i r)

unfoldable pub add_node : (InetAddress → ℕ → ℕ) → Selector → ServerNode → Selector
add_node partition q n = record q {
  server_group = q.server_group ++ n ∷ [];
  ring = mount partition n.addr virtual_nodes q.ring;
}

unfoldable pub remove_id : ℕ → List ServerNode → List ServerNode
remove_id p [] = []
remove_id p (n ∷ ns) = let rest = remove_id p ns in if n.id == p then rest else n ∷ rest

unfoldable pub remove_node : (InetAddress → ℕ → ℕ) → Selector → ServerNode → Selector
remove_node partition q n = record q {
  server_group = remove_id n.id q.server_group;
  ring = unmount partition n.addr virtual_nodes q.ring;
}

abbrev pub first_entry : List (ℕ × InetAddress) → Option (ℕ × InetAddress)
first_entry [] = none
first_entry (e ∷ r) = some e

abbrev pub or_first : Option (ℕ × InetAddress) → List (ℕ × InetAddress) → Option (ℕ × InetAddress)
or_first none r = first_entry r
or_first (some e) r = some e

-- The entry at or after the hash, or else the first.
unfoldable pub find_entry : ℕ → List (ℕ × InetAddress) → Option (ℕ × InetAddress)
find_entry h r = or_first (lower_bound h r) r

abbrev pub entry_addr : Option (ℕ × InetAddress) → InetAddress
entry_addr none = no_server
entry_addr (some (k, a)) = a

-- `getNextServer(key)`, of the key's hash.
unfoldable pub get_by_hash : Selector → ℕ → InetAddress
get_by_hash q h = entry_addr (find_entry h q.ring)
