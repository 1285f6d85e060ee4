-- ===== src/Selector/Fair.antt =====
-- Selector.cc: with every node alive, no node is chosen more often than its share of the weights.
use vortex_net.Base.{
  ℕ, zero, suc, ◌+◌, ◌*◌, ◌<◌, ◌≡◌, refl, sym, ap, subst, ◌∙◌, inl, inr, Bool, true, false, List,
  [], ◌∷◌, Option, none, some, arith, ltb, ◌==◌, if◌then◌else◌, Bool-cases, length,
}
use vortex_net.Base.Int.{ℤ, pos, pos_part, neg_part, parts_of_eq, ◌+ℤ◌, ◌-ℤ◌, ◌≤ℤ◌, int_laws}
use vortex_net.ServerNode.{ServerNode}
use vortex_net.Selector.{
  panic_mode, Best, better, skipped, raised, scan, deduct, settle_best, choose, is_empty,
}
use vortex_net.Selector.Choose.{
  AtMost, Placed, credit, without_best, counted_pos, length-scan, Placed-below, credit-scan,
  credit-deduct,
}

abbrev pub AllAlive : List ServerNode → Type 0
AllAlive [] = Unit
AllAlive (n ∷ ns) = (n.is_alive ≡ true) × AllAlive ns

abbrev pub weight_sum : List ServerNode → ℕ
weight_sum [] = 0
weight_sum (n ∷ ns) = n.weight + weight_sum ns

abbrev pub weight_at : List ServerNode → ℕ → ℕ
weight_at [] i = 0
weight_at (n ∷ ns) zero = n.weight
weight_at (n ∷ ns) (suc i) = weight_at ns i

abbrev pub credit_at : List ServerNode → ℕ → ℤ
credit_at [] i = pos 0
credit_at (n ∷ ns) zero = n.current_weight
credit_at (n ∷ ns) (suc i) = credit_at ns i

-- How a scan or a deduction changes a list: the nodes, their liveness and weights stay.
record Same (ns ns' : List ServerNode) : Type 0 where
  alive : AllAlive ns'
  weights : (i : ℕ) → weight_at ns' i ≡ weight_at ns i
  sum : weight_sum ns' ≡ weight_sum ns
  size : length ns' ≡ length ns

scan-Same :
    (panic : Bool) (ns : List ServerNode) (i : ℕ) (best : Option Best) (total : ℕ)
    → AllAlive ns
    → Same ns (scan panic ns i best total).nodes
      × ((scan panic ns i best total).total ≡ total + weight_sum ns)
      × ((j : ℕ)
          → j < length ns
          → credit_at (scan panic ns i best total).nodes j ≡ credit_at ns j +ℤ pos (weight_at ns j))
unfolding scan
scan-Same panic [] i best total a = (
  record { alive = tt; weights = λ j. refl; sum = refl; size = refl },
  omega arith,
  λ j h. absurd (omega arith),
)
scan-Same panic (n ∷ ns) i best total a =
    let (s, t, c) =
      scan-Same panic ns (suc i) (better best i (raised n).current_weight) (total + n.weight) a.1 in
    let rest =
      (scan panic ns (suc i) (better best i (raised n).current_weight) (total + n.weight)).nodes in
    let counts : skipped panic n ≡ false = rw (a.0) in
    rw counts (
      record {
        alive = (a.0, s.alive);
        weights = weights_of rest s.weights;
        sum = ap (λ x. n.weight + x) s.sum;
        size = ap suc s.size;
      },
      omega (arith, t),
      credits_of rest c,
    )
  where
    weights_of :
        (ns' : List ServerNode)
        → ((j : ℕ) → weight_at ns' j ≡ weight_at ns j)
        → (j : ℕ) → weight_at (raised n ∷ ns') j ≡ weight_at (n ∷ ns) j
    weights_of ns' w zero = refl
    weights_of ns' w (suc j) = w j

    credits_of :
        (ns' : List ServerNode)
        → ((j : ℕ) → j < length ns → credit_at ns' j ≡ credit_at ns j +ℤ pos (weight_at ns j))
        → (j : ℕ) → j < suc (length ns)
        → credit_at (raised n ∷ ns') j ≡ credit_at (n ∷ ns) j +ℤ pos (weight_at (n ∷ ns) j)
    credits_of ns' c zero h = refl
    credits_of ns' c (suc j) h = c j (omega arith)

deduct-Same : (k total : ℕ) (ns : List ServerNode) → AllAlive ns → Same ns (deduct k total ns)
unfolding deduct
deduct-Same k total [] a = record { alive = tt; weights = λ j. refl; sum = refl; size = refl }
deduct-Same zero total (n ∷ ns) a = record {
  alive = a;
  weights = same_weights;
  sum = refl;
  size = refl;
}
  where
    same_weights :
        (j : ℕ)
        → weight_at (record n { current_weight = n.current_weight -ℤ pos total } ∷ ns) j
          ≡ weight_at (n ∷ ns) j
    same_weights zero = refl
    same_weights (suc j) = refl
deduct-Same (suc k) total (n ∷ ns) a =
    let s = deduct-Same k total ns a.1 in
    record {
      alive = (a.0, s.alive);
      weights = same_weights s.weights;
      sum = ap (λ x. n.weight + x) s.sum;
      size = ap suc s.size;
    }
  where
    same_weights :
        ((j : ℕ) → weight_at (deduct k total ns) j ≡ weight_at ns j)
        → (j : ℕ) → weight_at (n ∷ deduct k total ns) j ≡ weight_at (n ∷ ns) j
    same_weights w zero = refl
    same_weights w (suc j) = w j

credit_at-deduct :
    (k total : ℕ) (ns : List ServerNode) (j : ℕ)
    → k < length ns
    → credit_at (deduct k total ns) j
      ≡ (if j == k then credit_at ns j -ℤ pos total else credit_at ns j)
unfolding deduct
credit_at-deduct k total [] j h = absurd (omega arith)
credit_at-deduct zero total (n ∷ ns) zero h = refl
credit_at-deduct zero total (n ∷ ns) (suc j) h = ground arith
credit_at-deduct (suc k) total (n ∷ ns) zero h = ground arith
credit_at-deduct (suc k) total (n ∷ ns) (suc j) h =
    ground (arith, credit_at-deduct k total ns j (omega arith))

Placed-weight :
    (b : Best) (i : ℕ) (panic : Bool) (ns : List ServerNode)
    → Placed b i panic ns
    → (j : ℕ) × (b.index ≡ i + j)
      × (j < length ns)
      × (b.weight ≡ credit_at ns j +ℤ pos (weight_at ns j))
Placed-weight b i panic [] p = absurd p
Placed-weight b i panic (n ∷ ns) (inl (e, _, w)) = (0, omega (arith, e), omega arith, w)
Placed-weight b i panic (n ∷ ns) (inr p) =
    let (j, e, l, w) = Placed-weight b (suc i) panic ns p in
    (suc j, omega (arith, e), omega (arith, l), w)

-- If the best weight is not above zero, neither is the sum.
at_most_sum :
    (w : ℤ) (panic : Bool) (ns : List ServerNode)
    → AllAlive ns
    → AtMost w panic ns
    → pos_part w ≡ 0
    → credit ns +ℤ pos (weight_sum ns) ≤ℤ pos 0
at_most_sum w panic [] a m h = omega int_laws
at_most_sum w panic (n ∷ ns) a m h =
    let here : (raised n).current_weight ≤ℤ w = m.0 (rw (a.0)) in
    omega (int_laws, at_most_sum w panic ns a.1 m.1 h, here)

-- All alive, the current weights summing to 0, and none as low as minus the sum of the weights.
pub record Fit (total : ℕ) (ns : List ServerNode) : Type 0 where
  pub alive : AllAlive ns
  pub some_node : is_empty ns ≡ false
  pub sum : weight_sum ns ≡ total
  pub balanced : credit ns ≡ pos 0
  pub low : (j : ℕ) → j < length ns → neg_part (credit_at ns j) < total

record Step (total : ℕ) (ns ns' : List ServerNode) (k : ℕ) : Type 0 where
  chosen : (choose ns).0 ≡ some k
  fit : Fit total ns'
  weights : (j : ℕ) → weight_at ns' j ≡ weight_at ns j
  size : length ns' ≡ length ns
  credits :
      (j : ℕ)
      → j < length ns
      → credit_at ns' j ≡ (
          if j == k
          then credit_at ns j +ℤ pos (weight_at ns j) -ℤ pos total
          else credit_at ns j +ℤ pos (weight_at ns j))

non_empty :
    (ns ns' : List ServerNode) → length ns' ≡ length ns → is_empty ns ≡ false → is_empty ns' ≡ false
non_empty [] ns' e h = absurd (cc)
non_empty (n ∷ ns) [] e h = absurd (omega arith)
non_empty (n ∷ ns) (n' ∷ ns') e h = refl

low_step :
    (total w : ℕ) (c c' : ℤ) (b : Bool)
    → c' ≡ (if b then c +ℤ pos w -ℤ pos total else c +ℤ pos w)
    → neg_part c < total
    → (b ≡ true → 0 < pos_part (c +ℤ pos w))
    → neg_part c' < total
unfolding ◌+ℤ◌ ◌-ℤ◌
low_step total w c c' true e h p =
    let lower : c' ≡ c +ℤ pos w -ℤ pos total = e in rw lower (ground (arith, p refl))
low_step total w c c' false e h p = let higher : c' ≡ c +ℤ pos w = e in rw higher (ground arith)

choose_eq :
    (ns : List ServerNode) (b : Best)
    → (scan (panic_mode ns) ns 0 none 0).best ≡ some b
    → choose ns ≡ (
      some b.index,
      deduct b.index
          (scan (panic_mode ns) ns 0 none 0).total
          (scan (panic_mode ns) ns 0 none 0).nodes,
    )
unfolding choose settle_best
choose_eq ns b r = rw r

best_pos :
    (total : ℕ) (ns : List ServerNode) (b : Best) (j : ℕ)
    → 0 < total
    → Fit total ns
    → AtMost b.weight (panic_mode ns) ns
    → Placed b 0 (panic_mode ns) ns
    → (j == b.index) ≡ true
    → 0 < pos_part (credit_at ns j +ℤ pos (weight_at ns j))
best_pos total ns b j positive f most placed e =
    let (i, at, _, w) = Placed-weight b 0 (panic_mode ns) ns placed in
    let here : j ≡ i = ground (arith, e, at) in
    let above : 0 < pos_part b.weight = elim (Bool-cases (ltb 0 (pos_part b.weight))) [
      | inl k ↦ ground (arith, k)
      | inr k ↦
          let zero_best : pos_part b.weight ≡ 0 = ground (arith, k) in
          absurd (
            omega (
              int_laws,
              at_most_sum b.weight (panic_mode ns) ns f.alive most zero_best,
              parts_of_eq f.balanced,
              f.sum,
            ))
    ] in
    rw (here, ← w) above

choose-Step :
    (total : ℕ) (ns : List ServerNode)
    → 0 < total
    → Fit total ns
    → (k : ℕ) × Step total ns (choose ns).1 k
choose-Step total ns positive f =
    let panic = panic_mode ns in
    let s = scan panic ns 0 none 0 in
    let (b, r, most, placed) = without_best panic ns 0 0 (counted_pos panic ns f.some_node refl) in
    let (same, t, cs) = scan-Same panic ns 0 none 0 f.alive in
    let below : b.index < length s.nodes =
      omega (arith, Placed-below b 0 panic ns placed, length-scan panic ns 0 none 0) in
    let d = deduct-Same b.index s.total s.nodes same.alive in
    let same_total : s.total ≡ total = omega (arith, t, f.sum) in
    let ns' = deduct b.index s.total s.nodes in
    let credits : (j : ℕ)
        → j < length ns
        → credit_at ns' j ≡ (
            if j == b.index
            then credit_at ns j +ℤ pos (weight_at ns j) -ℤ pos total
            else credit_at ns j +ℤ pos (weight_at ns j)) =
      λ j h. credit_at-deduct b.index s.total s.nodes j below ∙ rw (cs j h, same_total) in
    let eq = choose_eq ns b r in
    let fit : Fit total ns' = record {
      alive = d.alive;
      some_node = non_empty ns ns' (d.size ∙ same.size) f.some_node;
      sum = d.sum ∙ same.sum ∙ f.sum;
      balanced = omega (
        int_laws,
        parts_of_eq (credit-deduct b.index s.total s.nodes below),
        parts_of_eq (credit-scan panic ns 0 none 0),
        parts_of_eq f.balanced,
      );
      low = λ j h.
          let inside : j < length ns = omega (arith, d.size, same.size) in
          low_step total (weight_at ns j) (credit_at ns j) (credit_at ns' j) (j == b.index)
            (credits j inside) (f.low j inside) (best_pos total ns b j positive f most placed);
    } in
    (
      b.index,
      record {
        chosen = ap (λ x. x.0) eq;
        fit = subst (Fit total) (sym (ap (λ x. x.1) eq)) fit;
        weights = λ j. ap (λ x. weight_at x.1 j) eq ∙ d.weights j ∙ same.weights j;
        size = ap (λ x. length x.1) eq ∙ d.size ∙ same.size;
        credits = λ j h. ap (λ x. credit_at x.1 j) eq ∙ credits j h;
      },
    )

abbrev pub is_at : ℕ → Option ℕ → Bool
is_at i none = false
is_at i (some k) = i == k

-- How often position `i` is chosen in the next `k` choices.
unfoldable pub times : ℕ → ℕ → List ServerNode → ℕ
times i zero ns = 0
times i (suc k) ns =
    if is_at i (choose ns).0 then suc (times i k (choose ns).1) else times i k (choose ns).1

ledger :
    (b : Bool) (t total k w : ℕ) (c c' : ℤ)
    → c' ≡ (if b then c +ℤ pos w -ℤ pos total else c +ℤ pos w)
    → t * total + neg_part c' < k * w + total + pos_part c'
    → (if b then suc t else t) * total + neg_part c < suc k * w + total + pos_part c
ledger true t total k w c c' e h =
    let lower : c' ≡ c +ℤ pos w -ℤ pos total = e in omega (int_laws, parts_of_eq lower, h)
ledger false t total k w c c' e h =
    let higher : c' ≡ c +ℤ pos w = e in omega (int_laws, parts_of_eq higher, h)

-- In `k` choices from a group that is all alive, whose current weights sum to 0 and stay above minus
-- the total weight (as in a new group), no node is chosen more often than its share of the total, times
-- `k`, rounded up, when its current weight is 0; a current weight that is not 0 moves the bound by it.
pub fair_share :
    (total k i : ℕ) (ns : List ServerNode)
    → 0 < total
    → Fit total ns
    → i < length ns
    → times i k ns * total + neg_part (credit_at ns i)
      < k * weight_at ns i + total + pos_part (credit_at ns i)
unfolding times
fair_share total zero i ns positive f h = omega (arith, f.low i h)
fair_share total (suc k) i ns positive f h =
    let (j, s) = choose-Step total ns positive f in
    let rest = fair_share total k i (choose ns).1 positive s.fit (omega (arith, s.size)) in
    rw s.chosen (
      ledger (i == j) (times i k (choose ns).1) total k (weight_at ns i) (credit_at ns i)
        (credit_at (choose ns).1 i) (s.credits i h) (rw (s.weights i) at rest))
