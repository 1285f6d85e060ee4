-- ===== src/Selector/Ring.antt =====
-- Selector.cc, the hash ring: a node that comes or goes moves only the keys that are its own.
use vortex_net.Base.{
  ℕ, zero, suc, ◌<◌, ◌≡◌, ◌≢◌, refl, sym, ap, ◌∙◌, ◌⊎◌, inl, inr, false, List, [], ◌∷◌, none, some,
  arith, ltb, ◌==◌, Bool-cases, Option-cases,
}
use vortex_net.ServerNode.{ServerNode, InetAddress}
use vortex_net.Selector.{
  Selector, ring_insert, ring_erase, lower_bound, first_entry, or_first, entry_addr, find_entry,
  get_by_hash, mount, unmount, virtual_nodes, add_node, remove_node,
}

lower_bound-insert :
    (h k : ℕ) (a : InetAddress) (r : List (ℕ × InetAddress))
    → (lower_bound h (ring_insert k a r) ≡ some (k, a))
      ⊎ (lower_bound h (ring_insert k a r) ≡ lower_bound h r)
unfolding lower_bound ring_insert
lower_bound-insert h k a [] = ground arith
lower_bound-insert h k a ((k', a') ∷ r) = ground (arith, lower_bound-insert h k a r)

first_entry-insert :
    (k : ℕ) (a : InetAddress) (r : List (ℕ × InetAddress))
    → (first_entry (ring_insert k a r) ≡ some (k, a))
      ⊎ (first_entry (ring_insert k a r) ≡ first_entry r)
unfolding ring_insert
first_entry-insert k a [] = inl refl
first_entry-insert k a ((k', a') ∷ r) = ground arith

find_entry-insert :
    (h k : ℕ) (a : InetAddress) (r : List (ℕ × InetAddress))
    → (find_entry h (ring_insert k a r) ≡ some (k, a))
      ⊎ (find_entry h (ring_insert k a r) ≡ find_entry h r)
unfolding find_entry
find_entry-insert h k a r = elim (lower_bound-insert h k a r) [
  | inl e ↦ inl (ap (λ x. or_first x (ring_insert k a r)) e)
  | inr e ↦ elim (Option-cases (lower_bound h r)) [
    | inl n ↦ rw (e, n, find_entry) (first_entry-insert k a r)
    | inr (x, s) ↦ inr (rw (e, s, find_entry))
  ]
]

-- The entry that a hash finds after a mount is the node's own, or the one found before.
find_entry-mount :
    (partition : InetAddress → ℕ → ℕ) (a : InetAddress) (i h : ℕ) (r : List (ℕ × InetAddress))
    → ((k : ℕ) × (find_entry h (mount partition a i r) ≡ some (k, a)))
      ⊎ (find_entry h (mount partition a i r) ≡ find_entry h r)
unfolding mount
find_entry-mount partition a zero h r = inr refl
find_entry-mount partition a (suc i) h r =
    elim (find_entry-insert h (partition a i) a (mount partition a i r)) [
      | inl e ↦ inl (partition a i, e)
      | inr e ↦ elim (find_entry-mount partition a i h r) [
        | inl (k, f) ↦ inl (k, e ∙ f)
        | inr f ↦ inr (e ∙ f)
      ]
    ]

-- Adding a node moves keys only to that node: each hash goes to the new node or where it went before.
pub get_by_hash-add_node :
    (partition : InetAddress → ℕ → ℕ) (q : Selector) (n : ServerNode) (h : ℕ)
    → (get_by_hash (add_node partition q n) h ≡ n.addr)
      ⊎ (get_by_hash (add_node partition q n) h ≡ get_by_hash q h)
unfolding get_by_hash add_node
get_by_hash-add_node partition q n h =
    elim (find_entry-mount partition n.addr virtual_nodes h q.ring) [
      | inl (k, e) ↦ inl (ap entry_addr e)
      | inr e ↦ inr (ap entry_addr e)
    ]

the_entry : {e e' : ℕ × InetAddress} → some e ≡ some e' → e ≡ e'
the_entry h = cc

lower_bound-erase :
    (h k : ℕ) (e : ℕ × InetAddress) (r : List (ℕ × InetAddress))
    → k ≢ e.0
    → lower_bound h r ≡ some e
    → lower_bound h (ring_erase k r) ≡ some e
unfolding lower_bound ring_erase
lower_bound-erase h k e [] ne s = absurd (cc)
lower_bound-erase h k e ((k', a') ∷ r) ne s = elim (Bool-cases (ltb k' h)) [
  | inl below ↦ elim (Bool-cases (k == k')) [
    | inl same ↦ rw same (rw below at s)
    | inr other ↦ rw (other, below) (lower_bound-erase h k e r ne (rw below at s))
  ]
  | inr above ↦
      let here : some (k', a') ≡ some e = rw above at s in
      let key : k' ≡ e.0 = ap (λ x. x.0) (the_entry here) in
      let other : (k == k') ≡ false = ground (arith, ne, key) in rw (other, above) here
]

lower_bound-erase_none :
    (h k : ℕ) (r : List (ℕ × InetAddress))
    → lower_bound h r ≡ none
    → lower_bound h (ring_erase k r) ≡ none
unfolding lower_bound ring_erase
lower_bound-erase_none h k [] s = refl
lower_bound-erase_none h k ((k', a') ∷ r) s = ground (arith, lower_bound-erase_none h k r)

first_entry-erase :
    (k : ℕ) (e : ℕ × InetAddress) (r : List (ℕ × InetAddress))
    → k ≢ e.0
    → first_entry r ≡ some e
    → first_entry (ring_erase k r) ≡ some e
unfolding ring_erase
first_entry-erase k e [] ne s = absurd (cc)
first_entry-erase k e (x ∷ r) ne s =
    let same : x ≡ e = cc in
    elim (Bool-cases (k == x.0)) [
      | inl h ↦ absurd (ne (ground (arith, h) ∙ ap (λ y. y.0) same))
      | inr h ↦ rw h s
    ]

find_entry-erase :
    (h k : ℕ) (e : ℕ × InetAddress) (r : List (ℕ × InetAddress))
    → k ≢ e.0
    → find_entry h r ≡ some e
    → find_entry h (ring_erase k r) ≡ some e
unfolding find_entry
find_entry-erase h k e r ne s = elim (Option-cases (lower_bound h r)) [
  | inl n ↦
      rw (lower_bound-erase_none h k r n, find_entry)
        (first_entry-erase k e r ne (rw (n, find_entry) at s))
  | inr (x, l) ↦ rw (lower_bound-erase h k e r ne (l ∙ rw (l, find_entry) at s), find_entry)
]

find_entry-unmount :
    (partition : InetAddress → ℕ → ℕ) (a : InetAddress) (i h : ℕ) (e : ℕ × InetAddress)
    (r : List (ℕ × InetAddress))
    → ((j : ℕ) → j < i → partition a j ≢ e.0)
    → find_entry h r ≡ some e
    → find_entry h (unmount partition a i r) ≡ some e
unfolding unmount
find_entry-unmount partition a zero h e r other s = s
find_entry-unmount partition a (suc i) h e r other s =
    find_entry-erase h (partition a i) e (unmount partition a i r) (other i (omega arith))
      (find_entry-unmount partition a i h e r (λ j l. other j (omega arith)) s)

-- Removing a node moves only the keys of its own partitions: a hash that finds an entry at another
-- partition finds that entry, and so the same server, afterwards.
pub get_by_hash-remove_node :
    (partition : InetAddress → ℕ → ℕ) (q : Selector) (n : ServerNode) (h : ℕ) (e : ℕ × InetAddress)
    → find_entry h q.ring ≡ some e
    → ((j : ℕ) → j < virtual_nodes → partition n.addr j ≢ e.0)
    → (find_entry h (remove_node partition q n).ring ≡ some e)
      × (get_by_hash (remove_node partition q n) h ≡ get_by_hash q h)
unfolding get_by_hash remove_node
get_by_hash-remove_node partition q n h e s other =
    let kept = find_entry-unmount partition n.addr virtual_nodes h e q.ring other s in
    (kept, ap entry_addr (kept ∙ sym s))
