-- ===== src/ServerNode.antt =====
-- Proxy/src/Common/ServerNode.h: a backend, its weight, and the health that the checks report.
pub mod Health
mod Tests
use vortex_net.Base.{ℕ, suc, Bool, true, false, List, [], ◌∷◌, leb, if◌then◌else◌}
use vortex_net.Base.Int.{ℤ, pos}

-- `InetAddress`, of which only the two numbers matter here.
pub record InetAddress : Type 0 where
  pub ip : ℕ
  pub port : ℕ

-- `ServerNode`. Configured weights and standards are not negative. `id` is the pointer that the group
-- and the health checker share.
pub record ServerNode : Type 0 where
  pub id : ℕ
  pub addr : InetAddress
  pub weight : ℕ
  pub success_standard : ℕ
  pub fail_standard : ℕ
  pub is_alive : Bool
  pub success_count : ℕ
  pub fail_count : ℕ
  pub current_weight : ℤ

abbrev pub new : ℕ → InetAddress → ℕ → ℕ → ℕ → ServerNode
new p a w s f = record {
  id = p;
  addr = a;
  weight = w;
  success_standard = s;
  fail_standard = f;
  is_alive = true;
  success_count = 0;
  fail_count = 0;
  current_weight = pos 0;
}

unfoldable pub update_status : ServerNode → Bool → ServerNode
update_status n true =
    if leb n.success_standard (suc n.success_count)
    then record n { fail_count = 0; success_count = n.success_standard; is_alive = true }
    else record n { fail_count = 0; success_count = suc n.success_count }
update_status n false =
    if leb n.fail_standard (suc n.fail_count)
    then record n { success_count = 0; fail_count = n.fail_standard; is_alive = false }
    else record n { success_count = 0; fail_count = suc n.fail_count }

-- The results of the checks, the latest first.
unfoldable pub update_all : ServerNode → List Bool → ServerNode
update_all n [] = n
update_all n (r ∷ rs) = update_status (update_all n rs) r
