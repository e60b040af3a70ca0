-- ===== src/Controller/Members.antt =====
-- Changing the members of networks and users keeps the controller well formed.
use platform_system_netd.Prelude.{
  ℕ, ◌≡◌, refl, not, ◌&&◌, Option, none, some, List, [], ◌∷◌, String, if_cases, ◌==◌,
}
use platform_system_netd.Kernel.{Kernel, Exec}
use platform_system_netd.Kernel.Gives.{Gives}
use platform_system_netd.UidRanges.{Range}
use platform_system_netd.Network.{Network, Virtual, local, physical, virtual}
use platform_system_netd.Network.Identity.{
  Same, set_permission-Same, virtual_add_users-Same, virtual_remove_users-Same, add_interface-Same,
  remove_interface-Same,
}
use platform_system_netd.Controller.State.{Controller, System, return, fail, ◌>>=◌}
use platform_system_netd.Controller.Queries.{
  get_network, is_valid_network, get_network_for_interface,
}
use platform_system_netd.Controller.Commands.{
  delegate, add_to_found, add_interface_to_network, remove_from_found,
  remove_interface_from_network, set_found_permission, set_permission_for_networks, change_users,
  add_users_to_network, remove_users_from_network, set_permission_for_users, allow_protect,
  deny_protect,
}
use platform_system_netd.Controller.Invariant.{IsWellFormed, resume-Outcome}
use platform_system_netd.Controller.Preserved.{KeepsIt, update-KeepsIt}

module _ (kernel : Kernel) where
  add_to_found-KeepsIt :
      (id : ℕ) (interface : String) (o : Option Network) (s : System)
      → IsWellFormed s.controller
      → get_network s.controller id ≡ o
      → KeepsIt (add_to_found kernel id interface o s)
  unfolding fail
  add_to_found-KeepsIt id interface none s v e = v
  add_to_found-KeepsIt id interface (some n) s v e =
      update-KeepsIt id (λ k. k) n _ s v e
        (add_interface-Same kernel (delegate kernel s.controller) interface n)

  pub add_interface_to_network-KeepsIt :
      (id : ℕ) (interface : String) (s : System)
      → IsWellFormed s.controller
      → KeepsIt (add_interface_to_network kernel id interface s)
  unfolding add_interface_to_network fail
  add_interface_to_network-KeepsIt id interface s v =
      if_cases KeepsIt (not (is_valid_network s.controller id)) (λ _. v)
        λ _.
          let existing : ℕ = get_network_for_interface s.controller interface in
          if_cases KeepsIt (not (existing == 0) && not (existing == id)) (λ _. v)
            λ _. add_to_found-KeepsIt id interface _ s v refl

  remove_from_found-KeepsIt :
      (id : ℕ) (interface : String) (o : Option Network) (s : System)
      → IsWellFormed s.controller
      → get_network s.controller id ≡ o
      → KeepsIt (remove_from_found kernel id interface o s)
  unfolding fail
  remove_from_found-KeepsIt id interface none s v e = v
  remove_from_found-KeepsIt id interface (some n) s v e =
      update-KeepsIt id (λ k. k) n _ s v e
        (remove_interface-Same kernel (delegate kernel s.controller) interface n)

  pub remove_interface_from_network-KeepsIt :
      (id : ℕ) (interface : String) (s : System)
      → IsWellFormed s.controller
      → KeepsIt (remove_interface_from_network kernel id interface s)
  unfolding remove_interface_from_network
  remove_interface_from_network-KeepsIt id interface s v =
      remove_from_found-KeepsIt id interface _ s v refl

  set_found_permission-KeepsIt :
      (permission id : ℕ) (o : Option Network) (s : System)
      → IsWellFormed s.controller
      → get_network s.controller id ≡ o
      → KeepsIt (set_found_permission kernel permission id o s)
  unfolding fail
  set_found_permission-KeepsIt permission id none s v e = v
  set_found_permission-KeepsIt permission id (some (physical n)) s v e =
      update-KeepsIt id physical n _ s v e
        (set_permission-Same kernel (delegate kernel s.controller) permission n)
  set_found_permission-KeepsIt permission id (some (local n)) s v e = v
  set_found_permission-KeepsIt permission id (some (virtual n)) s v e = v

  pub set_permission_for_networks-KeepsIt :
      (permission : ℕ) (ids : List ℕ) (s : System)
      → IsWellFormed s.controller
      → KeepsIt (set_permission_for_networks kernel permission ids s)
  unfolding set_permission_for_networks return ◌>>=◌
  set_permission_for_networks-KeepsIt permission [] s v = v
  set_permission_for_networks-KeepsIt permission (id ∷ ids) s v =
      resume-Outcome IsWellFormed IsWellFormed IsWellFormed _ _
        (set_found_permission-KeepsIt permission id _ s v refl)
        λ _ s₁ v₁. set_permission_for_networks-KeepsIt permission ids s₁ v₁

  change_users-KeepsIt :
      (change : Virtual → Exec Virtual) (id : ℕ) (o : Option Network) (s : System)
      → ((n : Virtual) → Gives (Same virtual n) (change n))
      → IsWellFormed s.controller
      → get_network s.controller id ≡ o
      → KeepsIt (change_users kernel change id o s)
  unfolding fail
  change_users-KeepsIt change id none s same v e = v
  change_users-KeepsIt change id (some (virtual n)) s same v e =
      update-KeepsIt id virtual n _ s v e (same n)
  change_users-KeepsIt change id (some (local n)) s same v e = v
  change_users-KeepsIt change id (some (physical n)) s same v e = v

  pub add_users_to_network-KeepsIt :
      (id : ℕ) (ranges : List Range) (s : System)
      → IsWellFormed s.controller
      → KeepsIt (add_users_to_network kernel id ranges s)
  unfolding add_users_to_network
  add_users_to_network-KeepsIt id ranges s v =
      change_users-KeepsIt _ id _ s (virtual_add_users-Same kernel ranges) v refl

  pub remove_users_from_network-KeepsIt :
      (id : ℕ) (ranges : List Range) (s : System)
      → IsWellFormed s.controller
      → KeepsIt (remove_users_from_network kernel id ranges s)
  unfolding remove_users_from_network
  remove_users_from_network-KeepsIt id ranges s v =
      change_users-KeepsIt _ id _ s (virtual_remove_users-Same kernel ranges) v refl

-- The tables of users leave the networks alone.
pub set_permission_for_users-IsWellFormed :
    (permission : ℕ) (uids : List ℕ) (c : Controller)
    → IsWellFormed c
    → IsWellFormed (set_permission_for_users permission uids c)
unfolding set_permission_for_users
set_permission_for_users-IsWellFormed permission [] c v = v
set_permission_for_users-IsWellFormed permission (uid ∷ uids) c v =
    set_permission_for_users-IsWellFormed permission uids _ (record {
      local_stays = v.local_stays;
      default_is_physical = v.default_is_physical;
      ids = v.ids;
      ascending = v.ascending;
    })

pub allow_protect-IsWellFormed :
    (uids : List ℕ) (c : Controller) → IsWellFormed c → IsWellFormed (allow_protect uids c)
unfolding allow_protect
allow_protect-IsWellFormed [] c v = v
allow_protect-IsWellFormed (uid ∷ uids) c v = allow_protect-IsWellFormed uids _ (record {
  local_stays = v.local_stays;
  default_is_physical = v.default_is_physical;
  ids = v.ids;
  ascending = v.ascending;
})

pub deny_protect-IsWellFormed :
    (uids : List ℕ) (c : Controller) → IsWellFormed c → IsWellFormed (deny_protect uids c)
unfolding deny_protect
deny_protect-IsWellFormed [] c v = v
deny_protect-IsWellFormed (uid ∷ uids) c v = deny_protect-IsWellFormed uids _ (record {
  local_stays = v.local_stays;
  default_is_physical = v.default_is_physical;
  ids = v.ids;
  ascending = v.ascending;
})
