-- ===== src/Selector/Choose.antt =====
-- Selector.cc, `getNextServer()`: a group that is not empty always gives a node, the best of those
-- that count, and the current weights only change hands.
use vortex_net.Base.{
  ℕ, zero, suc, ◌+◌, ◌*◌, ◌/◌, ◌≤◌, ◌<◌, ◌≡◌, refl, ap, ◌∙◌, ◌⊎◌, inl, inr, Bool, true, false, List,
  [], ◌∷◌, Option, none, some, arith, ltb, if◌then◌else◌, Bool-cases, length,
}
use vortex_net.Base.Int.{ℤ, pos, parts_of_eq, ◌+ℤ◌, ◌≤ℤ◌, ltb_ℤ, int_laws}
use vortex_net.ServerNode.{ServerNode}
use vortex_net.Selector.{
  Selector, alive_count, panic_mode, Best, better, skipped, raised, scan, deduct, settle_best,
  choose, addr_at, is_empty, get_next_server,
}

-- No node that counts comes to more than `w`.
abbrev pub AtMost : ℤ → Bool → List ServerNode → Type 0
AtMost w panic [] = Unit
AtMost w panic (n ∷ ns) =
    (skipped panic n ≡ false → (raised n).current_weight ≤ℤ w) × AtMost w panic ns

-- `b` is a node of the list that counts, the first node being at position `i`.
abbrev pub Placed : Best → ℕ → Bool → List ServerNode → Type 0
Placed b i panic [] = ⊥
Placed b i panic (n ∷ ns) =
    ((b.index ≡ i) × (skipped panic n ≡ false) × (b.weight ≡ (raised n).current_weight))
    ⊎ Placed b (suc i) panic ns

abbrev pub counted : Bool → List ServerNode → ℕ
counted panic [] = 0
counted panic (n ∷ ns) = if skipped panic n then counted panic ns else suc (counted panic ns)

with_best :
    (panic : Bool) (ns : List ServerNode) (i : ℕ) (b0 : Best) (total : ℕ)
    → (b : Best) × ((scan panic ns i (some b0) total).best ≡ some b)
      × (b0.weight ≤ℤ b.weight)
      × AtMost b.weight panic ns
      × ((b ≡ b0) ⊎ Placed b i panic ns)
unfolding scan better
with_best panic [] i b0 total = (b0, refl, omega arith, tt, inl refl)
with_best panic (n ∷ ns) i b0 total = elim (Bool-cases (skipped panic n)) [
  | inl e ↦
      let (b, r, le, most, where') = with_best panic ns (suc i) b0 total in
      rw e (
        b,
        r,
        le,
        ((λ h. absurd (cc)), most),
        elim where' [ inl same ↦ inl same | inr p ↦ inr (inr p) ],
      )
  | inr e ↦ elim (Bool-cases (ltb_ℤ b0.weight (raised n).current_weight)) [
    | inl k ↦
        let b1 : Best = record { index = i; weight = (raised n).current_weight } in
        let (b, r, le, most, where') = with_best panic ns (suc i) b1 (total + n.weight) in
        rw (e, k, scan)
          (
            b,
            r,
            ground (arith, k, le),
            ((λ h. le), most),
            inr (elim where' [
              | inl same ↦ inl (ap (λ x. x.index) same, refl, ap (λ x. x.weight) same)
              | inr p ↦ inr p
            ]),
          )
    | inr k ↦
        let (b, r, le, most, where') = with_best panic ns (suc i) b0 (total + n.weight) in
        rw (e, k, scan)
          (
            b,
            r,
            le,
            ((λ h. ground (arith, k, le)), most),
            elim where' [ inl same ↦ inl same | inr p ↦ inr (inr p) ],
          )
  ]
]

pub without_best :
    (panic : Bool) (ns : List ServerNode) (i total : ℕ)
    → 1 ≤ counted panic ns
    → (b : Best) × ((scan panic ns i none total).best ≡ some b)
      × AtMost b.weight panic ns
      × Placed b i panic ns
unfolding scan better
without_best panic [] i total h = absurd (omega arith)
without_best panic (n ∷ ns) i total h = elim (Bool-cases (skipped panic n)) [
  | inl e ↦
      let (b, r, most, p) = without_best panic ns (suc i) total (rw e at h) in
      rw e (b, r, ((λ k. absurd (cc)), most), inr p)
  | inr e ↦
      let b1 : Best = record { index = i; weight = (raised n).current_weight } in
      let (b, r, le, most, where') = with_best panic ns (suc i) b1 (total + n.weight) in
      rw (e, scan)
        (
          b,
          r,
          ((λ k. le), most),
          elim where' [
            | inl same ↦ inl (ap (λ x. x.index) same, refl, ap (λ x. x.weight) same)
            | inr p ↦ inr p
          ],
        )
]

counted_panic : (ns : List ServerNode) → counted true ns ≡ length ns
counted_panic [] = refl
counted_panic (n ∷ ns) = ground (arith, counted_panic ns)

counted_calm : (ns : List ServerNode) → counted false ns ≡ alive_count ns
counted_calm [] = refl
counted_calm (n ∷ ns) = ground (arith, counted_calm ns)

zero_div : (k : ℕ) → 0 / k ≡ 0
zero_div k = grind arith

alive_calm : (ns : List ServerNode) → panic_mode ns ≡ false → 1 ≤ alive_count ns
unfolding panic_mode
alive_calm ns h = elim (Bool-cases (ltb 0 (alive_count ns))) [
  | inl e ↦ ground (arith, e)
  | inr e ↦
      let none_alive : alive_count ns ≡ 0 = ground (arith, e) in
      let low : alive_count ns * 100 / length ns ≡ 0 = rw none_alive (zero_div (length ns)) in
      absurd (ground (arith, low, h))
]

-- With nobody alive the group panics, and then every node counts.
pub counted_pos :
    (b : Bool) (ns : List ServerNode) → is_empty ns ≡ false → panic_mode ns ≡ b → 1 ≤ counted b ns
counted_pos b [] h e = absurd (cc)
counted_pos true (n ∷ ns) h e = ground (arith, counted_panic ns)
counted_pos false (n ∷ ns) h e = omega (arith, counted_calm (n ∷ ns), alive_calm (n ∷ ns) e)

-- The sum of the current weights.
abbrev pub credit : List ServerNode → ℤ
credit [] = pos 0
credit (n ∷ ns) = n.current_weight +ℤ credit ns

pub credit-scan :
    (panic : Bool) (ns : List ServerNode) (i : ℕ) (best : Option Best) (total : ℕ)
    → credit (scan panic ns i best total).nodes +ℤ pos total
      ≡ credit ns +ℤ pos (scan panic ns i best total).total
unfolding scan
credit-scan panic [] i best total = refl
credit-scan panic (n ∷ ns) i best total = elim (Bool-cases (skipped panic n)) [
  | inl e ↦ rw e (omega (int_laws, parts_of_eq (credit-scan panic ns (suc i) best total)))
  | inr e ↦ rw e (
      omega (
        int_laws,
        parts_of_eq (
            credit-scan panic ns (suc i) (better best i (raised n).current_weight)
              (total + n.weight)),
      ))
]

pub length-scan :
    (panic : Bool) (ns : List ServerNode) (i : ℕ) (best : Option Best) (total : ℕ)
    → length (scan panic ns i best total).nodes ≡ length ns
unfolding scan
length-scan panic [] i best total = refl
length-scan panic (n ∷ ns) i best total = ground (
  arith,
  length-scan panic ns (suc i) best total,
  length-scan panic ns (suc i) (better best i (raised n).current_weight) (total + n.weight),
)

addr_at-scan :
    (panic : Bool) (ns : List ServerNode) (i : ℕ) (best : Option Best) (total j : ℕ)
    → addr_at (scan panic ns i best total).nodes (some j) ≡ addr_at ns (some j)
unfolding scan
addr_at-scan panic [] i best total j = refl
addr_at-scan panic (n ∷ ns) i best total zero = elim (Bool-cases (skipped panic n)) [
  | inl e ↦ rw e
  | inr e ↦ rw e
]
addr_at-scan panic (n ∷ ns) i best total (suc j) = elim (Bool-cases (skipped panic n)) [
  | inl e ↦ rw e (addr_at-scan panic ns (suc i) best total j)
  | inr e ↦
      rw e (
        addr_at-scan panic ns (suc i) (better best i (raised n).current_weight) (total + n.weight)
          j)
]

pub credit-deduct :
    (j total : ℕ) (ns : List ServerNode)
    → j < length ns
    → credit (deduct j total ns) +ℤ pos total ≡ credit ns
unfolding deduct
credit-deduct j total [] h = absurd (omega arith)
credit-deduct zero total (n ∷ ns) h = omega int_laws
credit-deduct (suc j) total (n ∷ ns) h =
    omega (int_laws, parts_of_eq (credit-deduct j total ns (omega arith)))

addr_at-deduct :
    (j total i : ℕ) (ns : List ServerNode)
    → addr_at (deduct j total ns) (some i) ≡ addr_at ns (some i)
unfolding deduct
addr_at-deduct j total i [] = refl
addr_at-deduct zero total zero (n ∷ ns) = refl
addr_at-deduct zero total (suc i) (n ∷ ns) = refl
addr_at-deduct (suc j) total zero (n ∷ ns) = refl
addr_at-deduct (suc j) total (suc i) (n ∷ ns) = addr_at-deduct j total i ns

pub Placed-below :
    (b : Best) (i : ℕ) (panic : Bool) (ns : List ServerNode)
    → Placed b i panic ns
    → b.index < i + length ns
Placed-below b i panic [] p = absurd p
Placed-below b i panic (n ∷ ns) (inl (h, _, _)) = omega arith
Placed-below b i panic (n ∷ ns) (inr p) = omega (arith, Placed-below b (suc i) panic ns p)

-- What a choice in the group gives: the node `b`.
pub record Chosen (ns ns' : List ServerNode) (b : Best) : Type 0 where
  pub placed : Placed b 0 (panic_mode ns) ns
  pub most : AtMost b.weight (panic_mode ns) ns
  pub same_credit : credit ns' ≡ credit ns
  pub same_addr : addr_at ns' (some b.index) ≡ addr_at ns (some b.index)

pub choose-Chosen :
    (ns : List ServerNode)
    → is_empty ns ≡ false
    → (b : Best) × ((choose ns).0 ≡ some b.index) × Chosen ns (choose ns).1 b
unfolding choose settle_best
choose-Chosen ns h =
    let panic = panic_mode ns in
    let s = scan panic ns 0 none 0 in
    let (b, r, most, placed) = without_best panic ns 0 0 (counted_pos panic ns h refl) in
    let below : b.index < length s.nodes =
      omega (arith, Placed-below b 0 panic ns placed, length-scan panic ns 0 none 0) in
    rw r (
      b,
      refl,
      record {
        placed = placed;
        most = most;
        same_credit = omega (
          int_laws,
          parts_of_eq (credit-deduct b.index s.total s.nodes below),
          parts_of_eq (credit-scan panic ns 0 none 0),
        );
        same_addr =
            addr_at-deduct b.index s.total b.index s.nodes ∙ addr_at-scan panic ns 0 none 0 b.index;
      },
    )

-- `getNextServer()` on a group that is not empty answers with the address of a node of the group that
-- is alive, or of any node in panic mode, whose raised weight no other node that counts exceeds; the
-- sum of the current weights stays the same and no failed request is counted.
pub get_next_server-Chosen :
    (q : Selector)
    → is_empty q.server_group ≡ false
    → let (addr, q') = get_next_server q in
      (b : Best) × (addr ≡ addr_at q.server_group (some b.index))
      × Chosen q.server_group q'.server_group b
      × (q'.failed_requests ≡ q.failed_requests)
unfolding get_next_server
get_next_server-Chosen q h =
    let (b, r, c) = choose-Chosen q.server_group h in rw (h, r) (b, c.same_addr, c, refl)
