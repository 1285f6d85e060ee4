-- ===== src/ServerNode/Health.antt =====
-- ServerNode.h, `updateStatus`: when a node counts as alive.
use vortex_net.Base.{
  ℕ, suc, ◌≡◌, refl, Bool, true, false, List, [], ◌∷◌, arith, leb, min, if◌then◌else◌, Bool-cases,
  inl, inr,
}
use vortex_net.ServerNode.{ServerNode, InetAddress, new, update_status, update_all}

-- How many of the latest results are successes, and failures.
abbrev pub successes : List Bool → ℕ
successes [] = 0
successes (r ∷ rs) = if r then suc (successes rs) else 0

abbrev pub failures : List Bool → ℕ
failures [] = 0
failures (r ∷ rs) = if r then 0 else suc (failures rs)

-- What the latest run that was long enough says; a node without one is alive.
abbrev pub verdict : ℕ → ℕ → List Bool → Bool
verdict s f [] = true
verdict s f (r ∷ rs) =
    if r
    then (if leb s (suc (successes rs)) then true else verdict s f rs)
    else (if leb f (suc (failures rs)) then false else verdict s f rs)

pub record Judged (s f : ℕ) (rs : List Bool) (n : ServerNode) : Type 0 where
  pub alive : n.is_alive ≡ verdict s f rs
  pub succeeded : n.success_count ≡ min s (successes rs)
  pub failed : n.fail_count ≡ min f (failures rs)
  pub success_same : n.success_standard ≡ s
  pub fail_same : n.fail_standard ≡ f

step-Judged :
    (s f : ℕ) (rs : List Bool) (n : ServerNode) (r : Bool)
    → Judged s f rs n
    → Judged s f (r ∷ rs) (update_status n r)
unfolding update_status
step-Judged s f rs n true j = elim (Bool-cases (leb n.success_standard (suc n.success_count))) [
  | inl e ↦ rw e (record {
    alive = ground (arith, e, j.succeeded, j.success_same);
    succeeded = ground (arith, e, j.succeeded, j.success_same);
    failed = ground arith;
    success_same = j.success_same;
    fail_same = j.fail_same;
  })
  | inr e ↦ rw e (record {
    alive = ground (arith, e, j.alive, j.succeeded, j.success_same);
    succeeded = ground (arith, e, j.succeeded, j.success_same);
    failed = ground arith;
    success_same = j.success_same;
    fail_same = j.fail_same;
  })
]
step-Judged s f rs n false j = elim (Bool-cases (leb n.fail_standard (suc n.fail_count))) [
  | inl e ↦ rw e (record {
    alive = ground (arith, e, j.failed, j.fail_same);
    succeeded = ground arith;
    failed = ground (arith, e, j.failed, j.fail_same);
    success_same = j.success_same;
    fail_same = j.fail_same;
  })
  | inr e ↦ rw e (record {
    alive = ground (arith, e, j.alive, j.failed, j.fail_same);
    succeeded = ground arith;
    failed = ground (arith, e, j.failed, j.fail_same);
    success_same = j.success_same;
    fail_same = j.fail_same;
  })
]

-- After any sequence of check results a new node is alive or not as the latest run of its standard's
-- length says, and each counter is the length of the current run, cut off at its standard.
pub update_all-Judged :
    (p : ℕ) (a : InetAddress) (w s f : ℕ) (rs : List Bool)
    → Judged s f rs (update_all (new p a w s f) rs)
unfolding update_all
update_all-Judged p a w s f [] = record {
  alive = refl;
  succeeded = ground arith;
  failed = ground arith;
  success_same = refl;
  fail_same = refl;
}
update_all-Judged p a w s f (r ∷ rs) =
    step-Judged s f rs (update_all (new p a w s f) rs) r (update_all-Judged p a w s f rs)
