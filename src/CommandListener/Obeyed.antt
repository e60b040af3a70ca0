-- ===== src/CommandListener/Obeyed.antt =====
-- The network command does what its words mean.
use platform_system_netd.Prelude.{ℕ, ◌≡◌, refl, Bool, Option, some, List, String}
use platform_system_netd.Kernel.{Kernel}
use platform_system_netd.Controller.State.{System, exec}
use platform_system_netd.Controller.Requests.{Request, handle}
use platform_system_netd.Controller.Routes.{modify_network_route}
use platform_system_netd.CommandListener.{report}
use platform_system_netd.CommandListener.Arguments.{string_to_permission}
use platform_system_netd.CommandListener.Networks.{
  argc, run_route, run_interface, run_create, run_destroy, run_default, run_permission, run_users,
  run_protect, run_command,
}
use platform_system_netd.CommandListener.Meaning.{
  of_network, of_system, Means, to_attach, to_detach, to_create, to_create_with, to_create_vpn,
  to_destroy, to_set_default, to_clear_default, to_permit_users, to_permit_networks, to_clear_users,
  to_clear_networks, to_bind, to_unbind, to_allow, to_deny, to_add, to_remove, direct, over,
  MeansRoute, of_no_user, of_user, net_id_of,
}

module _ (width : ℕ) (kernel : Kernel) (s : System) where
  -- The answer to the request.
  abbrev pub Obeys : List String → Request → Type 0
  Obeys args r =
      (message : String) × (run_command width kernel args s ≡ report message (handle kernel r s))

  abbrev pub ObeysRoute :
      List String → Bool → Bool → ℕ → ℕ → String → String → Option String → Type 0
  ObeysRoute args add legacy uid net_id interface destination nexthop =
      (message : String) × (run_command width kernel args s
        ≡ report message (
            exec
              (modify_network_route kernel width s.controller net_id interface (some destination)
                nexthop add legacy uid)
              s))

  pub Means-Obeys : (args : List String) (r : Request) → Means width args r → Obeys args r
  unfolding run_command run_interface run_create run_destroy run_default run_permission run_users
      run_protect string_to_permission
  Means-Obeys args r (to_attach name word net_id interface id e f n) =
      rw (e, f, net_id_of width net_id id n) ("addInterfaceToNetwork() failed", refl)
  Means-Obeys args r (to_detach name word net_id interface id e f n) =
      rw (e, f, net_id_of width net_id id n) ("removeInterfaceFromNetwork() failed", refl)
  Means-Obeys args r (to_create name net_id id e n) =
      rw (e, net_id_of width net_id id n) ("createPhysicalNetwork() failed", refl)
  Means-Obeys args r (to_create_with name net_id permission id p e n (of_network f)) =
      rw (e, f, net_id_of width net_id id n) ("createPhysicalNetwork() failed", refl)
  Means-Obeys args r (to_create_with name net_id permission id p e n (of_system f)) =
      rw (e, f, net_id_of width net_id id n) ("createPhysicalNetwork() failed", refl)
  Means-Obeys args r (to_create_vpn name net_id vpn has_dns secure id e f n) =
      rw (e, f, net_id_of width net_id id n) ("createVirtualNetwork() failed", refl)
  Means-Obeys args r (to_destroy name net_id id e n) =
      rw (e, net_id_of width net_id id n) ("destroyNetwork() failed", refl)
  Means-Obeys args r (to_set_default name word net_id more id e f n) =
      rw (e, f, net_id_of width net_id id n) ("setDefaultNetwork() failed", refl)
  Means-Obeys args r (to_clear_default name word more e f) =
      rw (e, f) ("setDefaultNetwork() failed", refl)
  Means-Obeys args r
        (to_permit_users name whom word permission arg more p ids e f g (of_network h) k) =
      rw (e, f, g, h, k) ("", refl)
  Means-Obeys args r
        (to_permit_users name whom word permission arg more p ids e f g (of_system h) k) =
      rw (e, f, g, h, k) ("", refl)
  Means-Obeys args r
        (to_permit_networks name whom word permission arg more p ids e f g (of_network h) k) =
      rw (e, f, g, h, k) ("setPermissionForNetworks() failed", refl)
  Means-Obeys args r
        (to_permit_networks name whom word permission arg more p ids e f g (of_system h) k) =
      rw (e, f, g, h, k) ("setPermissionForNetworks() failed", refl)
  Means-Obeys args r (to_clear_users name whom word arg more ids e f g k) =
      rw (e, f, g, k) ("", refl)
  Means-Obeys args r (to_clear_networks name whom word arg more ids e f g k) =
      rw (e, f, g, k) ("setPermissionForNetworks() failed", refl)
  Means-Obeys args r (to_bind name word net_id more id ranges e f n k) =
      rw (e, f, net_id_of width net_id id n, k) ("addUsersToNetwork() failed", refl)
  Means-Obeys args r (to_unbind name word net_id more id ranges e f n k) =
      rw (e, f, net_id_of width net_id id n, k) ("removeUsersFromNetwork() failed", refl)
  Means-Obeys args r (to_allow name word arg more e f) = rw (e, f) ("", refl)
  Means-Obeys args r (to_deny name word arg more e f) = rw (e, f) ("", refl)

  pub MeansRoute-Obeys :
      (args : List String) (add legacy : Bool) (uid net_id : ℕ) (interface destination : String)
      (nexthop : Option String)
      → MeansRoute width args add legacy uid net_id interface destination nexthop
      → ObeysRoute args add legacy uid net_id interface destination nexthop
  unfolding run_command run_route argc
  MeansRoute-Obeys args add legacy uid net_id interface destination nexthop
        (of_no_user name more a id i d h e (direct word n i' d' a' id' (to_add f) m)) =
      rw (e, f, net_id_of width n id m) ("addRoute() failed", refl)
  MeansRoute-Obeys args add legacy uid net_id interface destination nexthop
        (of_no_user name more a id i d h e (direct word n i' d' a' id' (to_remove f) m)) =
      rw (e, f, net_id_of width n id m) ("removeRoute() failed", refl)
  MeansRoute-Obeys args add legacy uid net_id interface destination nexthop
        (of_no_user name more a id i d h e (over word n i' d' h' a' id' (to_add f) m)) =
      rw (e, f, net_id_of width n id m) ("addRoute() failed", refl)
  MeansRoute-Obeys args add legacy uid net_id interface destination nexthop
        (of_no_user name more a id i d h e (over word n i' d' h' a' id' (to_remove f) m)) =
      rw (e, f, net_id_of width n id m) ("removeRoute() failed", refl)
  MeansRoute-Obeys args add legacy uid net_id interface destination nexthop
        (of_user name w u more a id i d h e g (direct word n i' d' a' id' (to_add f) m)) =
      rw (e, g, f, net_id_of width n id m) ("addRoute() failed", refl)
  MeansRoute-Obeys args add legacy uid net_id interface destination nexthop
        (of_user name w u more a id i d h e g (direct word n i' d' a' id' (to_remove f) m)) =
      rw (e, g, f, net_id_of width n id m) ("removeRoute() failed", refl)
  MeansRoute-Obeys args add legacy uid net_id interface destination nexthop
        (of_user name w u more a id i d h e g (over word n i' d' h' a' id' (to_add f) m)) =
      rw (e, g, f, net_id_of width n id m) ("addRoute() failed", refl)
  MeansRoute-Obeys args add legacy uid net_id interface destination nexthop
        (of_user name w u more a id i d h e g (over word n i' d' h' a' id' (to_remove f) m)) =
      rw (e, g, f, net_id_of width n id m) ("removeRoute() failed", refl)
