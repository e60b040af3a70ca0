-- ===== src/Controller/Assignment.antt =====
-- server/NetworkController.cpp: taking interfaces away, and changing members and users, gives no
-- network an interface.
use platform_system_netd.Prelude.{ℕ, ◌≡◌, refl, Option, none, some, List, [], ◌∷◌, String}
use platform_system_netd.Containers.{number_key, string_key}
use platform_system_netd.Kernel.{Kernel, Exec}
use platform_system_netd.Kernel.Gives.{Gives}
use platform_system_netd.Network.{Network, Virtual, local, physical, virtual}
use platform_system_netd.Network.Members.{Within, set_permission-Within, remove_interface-Within}
use platform_system_netd.Controller.State.{Controller, System, return, fail, ◌>>=◌}
use platform_system_netd.Controller.Queries.{get_network}
use platform_system_netd.Controller.Commands.{
  delegate, remove_from_found, remove_interface_from_network, set_found_permission,
  set_permission_for_networks, change_users, set_permission_for_users, allow_protect, deny_protect,
}
use platform_system_netd.Controller.Invariant.{resume-Outcome}
use platform_system_netd.Controller.Holders.{Fewer}
use platform_system_netd.Controller.Sharing.{FewerAfter, update-Fewer}

module _ (c : Controller) where
  module _ (kernel : Kernel) where
    remove_from_found-Fewer :
        (id : ℕ) (interface : String) (o : Option Network) (s : System)
        → Fewer c s.controller
        → get_network s.controller id ≡ o
        → FewerAfter c (remove_from_found kernel id interface o s)
    unfolding fail
    remove_from_found-Fewer id interface none s h e = h
    remove_from_found-Fewer id interface (some n) s h e =
        update-Fewer c id (λ k. k) n _ s h e
          (remove_interface-Within kernel (delegate kernel s.controller) interface n)

    pub remove_interface_from_network-Fewer :
        (id : ℕ) (interface : String) (s : System)
        → Fewer c s.controller
        → FewerAfter c (remove_interface_from_network kernel id interface s)
    unfolding remove_interface_from_network
    remove_interface_from_network-Fewer id interface s h =
        remove_from_found-Fewer id interface _ s h refl

    set_found_permission-Fewer :
        (permission id : ℕ) (o : Option Network) (s : System)
        → Fewer c s.controller
        → get_network s.controller id ≡ o
        → FewerAfter c (set_found_permission kernel permission id o s)
    unfolding fail
    set_found_permission-Fewer permission id none s h e = h
    set_found_permission-Fewer permission id (some (physical n)) s h e =
        update-Fewer c id physical n _ s h e
          (set_permission-Within kernel (delegate kernel s.controller) permission n)
    set_found_permission-Fewer permission id (some (local n)) s h e = h
    set_found_permission-Fewer permission id (some (virtual n)) s h e = h

    pub set_permission_for_networks-Fewer :
        (permission : ℕ) (ids : List ℕ) (s : System)
        → Fewer c s.controller
        → FewerAfter c (set_permission_for_networks kernel permission ids s)
    unfolding set_permission_for_networks return ◌>>=◌
    set_permission_for_networks-Fewer permission [] s h = h
    set_permission_for_networks-Fewer permission (id ∷ ids) s h =
        resume-Outcome (Fewer c) (Fewer c) (Fewer c) _ _
          (set_found_permission-Fewer permission id _ s h refl)
          (λ _ s₁ h₁. set_permission_for_networks-Fewer permission ids s₁ h₁)

    pub change_users-Fewer :
        (change : Virtual → Exec Virtual) (id : ℕ) (o : Option Network) (s : System)
        → ((n : Virtual) → Gives (Within virtual n) (change n))
        → Fewer c s.controller
        → get_network s.controller id ≡ o
        → FewerAfter c (change_users kernel change id o s)
    unfolding fail
    change_users-Fewer change id none s g h e = h
    change_users-Fewer change id (some (virtual n)) s g h e =
        update-Fewer c id virtual n _ s h e (g n)
    change_users-Fewer change id (some (local n)) s g h e = h
    change_users-Fewer change id (some (physical n)) s g h e = h

  pub users-Fewer :
      (permission : ℕ) (uids : List ℕ) (d : Controller)
      → Fewer c d
      → Fewer c (set_permission_for_users permission uids d)
  unfolding set_permission_for_users
  users-Fewer permission [] d h = h
  users-Fewer permission (uid ∷ uids) d h =
      users-Fewer permission uids _ (record { before = h.before })

  pub allow-Fewer : (uids : List ℕ) (d : Controller) → Fewer c d → Fewer c (allow_protect uids d)
  unfolding allow_protect
  allow-Fewer [] d h = h
  allow-Fewer (uid ∷ uids) d h = allow-Fewer uids _ (record { before = h.before })

  pub deny-Fewer : (uids : List ℕ) (d : Controller) → Fewer c d → Fewer c (deny_protect uids d)
  unfolding deny_protect
  deny-Fewer [] d h = h
  deny-Fewer (uid ∷ uids) d h = deny-Fewer uids _ (record { before = h.before })
