-- ===== src/Controller/Routes.antt =====
-- server/NetworkController.cpp: `modifyRoute`, `addRoute` and `removeRoute`.
use platform_system_netd.Prelude.{
  ℕ, ◌≡◌, ◌≢◌, ◌⊎◌, refl, Bool, true, false, not, Option, String, arith, if_cases, ==_iff, inl, inr,
  ◌==◌, if◌then◌else◌,
}
use platform_system_netd.Fwmark.{grants, permission_system}
use platform_system_netd.Kernel.{Kernel, Action, new, del, World, Ret, Result, raise}
use platform_system_netd.Kernel.Errno.{enonet, enodev, enoent}
use platform_system_netd.Kernel.Issues.{IsOk}
use platform_system_netd.Route.Lookups.{table_of}
use platform_system_netd.Route.Rules.{net_id_unset}
use platform_system_netd.Route.Paths.{
  TableType, interface, local_network, legacy_network, legacy_system, add_route, remove_route,
}
use platform_system_netd.Route.Asked.{OneRoute, table_of_type, modify_route-OneRoute}
use platform_system_netd.Controller.State.{Controller, local_net_id}
use platform_system_netd.Controller.Access.{IsSystem}
use platform_system_netd.Controller.Queries.{
  is_valid_network, get_network_for_interface, get_permission_for_user,
}

unfoldable pub route_table_type : Controller → ℕ → Bool → ℕ → TableType
route_table_type c net_id legacy uid =
    if net_id == local_net_id
    then local_network
    else if not legacy
    then interface
    else if grants (get_permission_for_user c uid) permission_system
    then legacy_system
    else legacy_network

module _ (kernel : Kernel) (width : ℕ) where
  abbrev change_route : Bool → String → Option String → Option String → TableType → Ret
  change_route true = add_route kernel width
  change_route false = remove_route kernel width

  unfoldable pub modify_network_route :
      Controller → ℕ → String → Option String → Option String → Bool → Bool → ℕ → Ret
  modify_network_route c net_id name destination nexthop add legacy uid =
      if not (is_valid_network c net_id)
      then raise enonet
      else if get_network_for_interface c name == net_id_unset
      then raise enodev
      else if not (get_network_for_interface c name == net_id)
      then raise enoent
      else change_route add name destination nexthop (route_table_type c net_id legacy uid)

  abbrev pub route_action : Bool → Action
  route_action add = if add then new else del

  change_route-OneRoute :
      (add : Bool) (name : String) (destination nexthop : Option String) (type : TableType)
      (w : World)
      → IsOk (change_route add name destination nexthop type w).0
      → OneRoute
          (route_action add)
          (table_of_type kernel width name type w)
          w.calls
          (change_route add name destination nexthop type w).1.calls
  unfolding add_route remove_route
  change_route-OneRoute true name destination nexthop type w h =
      modify_route-OneRoute kernel width new destination nexthop name type w h
  change_route-OneRoute false name destination nexthop type w h =
      modify_route-OneRoute kernel width del destination nexthop name type w h

  -- Where a route of a network goes, by cases of which just one holds: the local network has one
  -- table; else the legacy commands have one for the system and one for the other users; else it is
  -- the table of the interface.
  abbrev pub TableFor : Controller → ℕ → Bool → ℕ → ℕ → ℕ → Type 0
  TableFor c net_id legacy uid own table =
      ((net_id ≡ 99) × (table ≡ 97))
      ⊎ ((net_id ≢ 99)
          × (((legacy ≡ false) × (table ≡ own))
              ⊎ ((legacy ≡ true)
                  × ((IsSystem c uid × (table ≡ 99)) ⊎ ((¬ IsSystem c uid) × (table ≡ 98))))))

  type-TableFor :
      (c : Controller) (net_id : ℕ) (legacy : Bool) (uid : ℕ) (name : String) (w : World)
      → TableFor c net_id legacy uid
          (table_of kernel name w)
          (table_of_type kernel width name (route_table_type c net_id legacy uid) w)
  unfolding route_table_type
  type-TableFor c net_id legacy uid name w =
      if_cases Fits (net_id == local_net_id)
        (λ here. inl ((==_iff net_id local_net_id).0 here, refl))
        λ elsewhere.
          let other : net_id ≢ 99 = λ e. ground arith in
          if_cases Fits (not legacy) (λ own. inr (other, inl (ground arith, refl)))
            λ old.
              if_cases Fits (grants (get_permission_for_user c uid) permission_system)
                (λ system. inr (other, inr (ground arith, inl (system, refl))))
                (λ plain. inr (other, inr (ground arith, inr ((λ system. cc), refl))))
    where
      Fits : TableType → Type 0
      Fits type =
          TableFor c net_id legacy uid (table_of kernel name w)
            (table_of_type kernel width name type w)

  -- What a success of the method means.
  abbrev Routed :
      Controller → ℕ → String → Bool → Bool → ℕ → World → Result (Unit {0}) × World → Type 0
  Routed c net_id name add legacy uid w out =
      IsOk out.0
      → (get_network_for_interface c name ≡ net_id)
        × ((table : ℕ) × OneRoute (route_action add) table w.calls out.1.calls
            × TableFor c net_id legacy uid (table_of kernel name w) table)

  -- If adding or removing a route of a network succeeds, then the interface belongs to the
  -- network, and the kernel was asked for exactly one route: in the local network's table exactly
  -- if that is the network; of other networks, in the interface's own table without the legacy
  -- flag, and with it in the system's table if the user has the permission of the system, and in
  -- the other legacy table if not.
  pub modify_network_route-OneRoute :
      (c : Controller) (net_id : ℕ) (name : String) (destination nexthop : Option String)
      (add legacy : Bool) (uid : ℕ) (w : World)
      → IsOk (modify_network_route c net_id name destination nexthop add legacy uid w).0
      → (get_network_for_interface c name ≡ net_id)
        × ((table : ℕ) × OneRoute
              (route_action add)
              table
              w.calls
              (modify_network_route c net_id name destination nexthop add legacy uid w).1.calls
            × TableFor c net_id legacy uid (table_of kernel name w) table)
  unfolding modify_network_route raise
  modify_network_route-OneRoute c net_id name destination nexthop add legacy uid w =
      let type : TableType = route_table_type c net_id legacy uid in
      let existing : ℕ = get_network_for_interface c name in
      let Holds : Ret → Type 0 = λ m. Routed c net_id name add legacy uid w (m w) in
      if_cases Holds (not (is_valid_network c net_id)) (λ _ h. absurd h)
        λ _.
          if_cases Holds (existing == net_id_unset) (λ _ h. absurd h)
            λ _.
              if_cases Holds (not (existing == net_id)) (λ _ h. absurd h)
                λ same h. (
                  (==_iff existing net_id).0 (ground arith),
                  (
                    table_of_type kernel width name type w,
                    change_route-OneRoute add name destination nexthop type w h,
                    type-TableFor c net_id legacy uid name w,
                  ),
                )
