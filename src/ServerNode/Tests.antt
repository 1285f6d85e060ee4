-- ===== src/ServerNode/Tests.antt =====
-- Runs of the node's health, and its theorem at a concrete input.
use vortex_net.Base.{◌≡◌, refl, true, false, [], ◌∷◌}
use vortex_net.ServerNode.{InetAddress, new, update_status, update_all}
use vortex_net.ServerNode.Health.{Judged, update_all-Judged}

abbrev here : InetAddress
here = record { ip = 2130706433; port = 8080 }

-- Two failures take the node out, and two successes are too few to bring it back.
still_dead : (update_all (new 1 here 5 3 2) (true ∷ true ∷ false ∷ false ∷ [])).is_alive ≡ false
unfolding update_all update_status
still_dead = refl

update_all-Judged_example :
    Judged 3 2
      (true ∷ true ∷ true ∷ false ∷ false ∷ [])
      (update_all (new 1 here 5 3 2) (true ∷ true ∷ true ∷ false ∷ false ∷ []))
update_all-Judged_example = update_all-Judged 1 here 5 3 2 (true ∷ true ∷ true ∷ false ∷ false ∷ [])
