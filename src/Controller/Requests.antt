-- ===== src/Controller/Requests.antt =====
-- server/NetworkController.h: the methods that change the controller, as requests that come one
-- after another from the start of the daemon.
use platform_system_netd.Prelude.{
  ℕ, ◌≡◌, inl, inr, refl, sym, subst, Bool, some, List, String, arith, ==_iff, Bool-cases, ◌==◌,
}
use mathlib.Core.Option.{some-injective}
use platform_system_netd.Containers.{number_key, lookup}
use platform_system_netd.Kernel.{Kernel, World, Result, ok, err}
use platform_system_netd.UidRanges.{Range}
use platform_system_netd.Network.{Network, local, new_local}
use platform_system_netd.Network.Identity.{class, get_net_id}
use platform_system_netd.Controller.State.{Controller, System, initial}
use platform_system_netd.Controller.Queries.{get_network}
use platform_system_netd.Controller.Commands.{
  set_default_network, create_physical_network, create_virtual_network, destroy_network,
  add_interface_to_network, remove_interface_from_network, set_permission_for_networks,
  add_users_to_network, remove_users_from_network, set_permission_for_users, allow_protect,
  deny_protect,
}
use platform_system_netd.Controller.Invariant.{IsId, IsWellFormed}
use platform_system_netd.Controller.Preserved.{KeepsIt, set_default_network-KeepsIt}
use platform_system_netd.Controller.Creation.{
  create_physical_network-KeepsIt, create_virtual_network-KeepsIt, destroy_network-KeepsIt,
}
use platform_system_netd.Controller.Members.{
  add_interface_to_network-KeepsIt, remove_interface_from_network-KeepsIt,
  set_permission_for_networks-KeepsIt, add_users_to_network-KeepsIt,
  remove_users_from_network-KeepsIt, set_permission_for_users-IsWellFormed,
  allow_protect-IsWellFormed, deny_protect-IsWellFormed,
}

pub data Request : Type 0 where
  choose_default : ℕ → Request
  create_physical : ℕ → ℕ → Request
  create_virtual : ℕ → Bool → Bool → Request
  destroy : ℕ → Request
  attach detach : ℕ → String → Request
  permit_networks : ℕ → List ℕ → Request
  permit_users : ℕ → List ℕ → Request
  bind_users unbind_users : ℕ → List Range → Request
  allow deny : List ℕ → Request

abbrev change : (Controller → Controller) → System → Result (Unit {0}) × System
change f s = (ok tt, record s { controller = f s.controller })

module _ (kernel : Kernel) where
  abbrev pub handle : Request → System → Result (Unit {0}) × System
  handle (choose_default net_id) = set_default_network kernel net_id
  handle (create_physical net_id permission) = create_physical_network kernel net_id permission
  handle (create_virtual net_id has_dns secure) =
      create_virtual_network kernel net_id has_dns secure
  handle (destroy net_id) = destroy_network kernel net_id
  handle (attach net_id interface) = add_interface_to_network kernel net_id interface
  handle (detach net_id interface) = remove_interface_from_network kernel net_id interface
  handle (permit_networks permission net_ids) =
      set_permission_for_networks kernel permission net_ids
  handle (permit_users permission uids) = change (set_permission_for_users permission uids)
  handle (bind_users net_id ranges) = add_users_to_network kernel net_id ranges
  handle (unbind_users net_id ranges) = remove_users_from_network kernel net_id ranges
  handle (allow uids) = change (allow_protect uids)
  handle (deny uids) = change (deny_protect uids)

  -- The states that requests lead to, from the one of the constructor.
  pub data Reachable : System → Type 0 where
    started : (w : World) → Reachable (record { controller = initial; world = w })
    handled : {s : System} (r : Request) → Reachable s → Reachable (handle r s).1

  initial_ids :
      (id : ℕ) (n : Network)
      → get_network initial id ≡ some n
      → IsId (class n) id × (get_net_id n ≡ id)
  unfolding lookup
  initial_ids id n e = elim (Bool-cases (99 == id)) [
    | inl here ↦
        let at_id : 99 ≡ id = (==_iff 99 id).0 here in
        let is_n : local (new_local 99) ≡ n = some-injective _ n (ground arith) in
        subst (λ x. IsId (class x) id × (get_net_id x ≡ id)) is_n (sym at_id, at_id)
    | inr there ↦ ground arith
  ]

  pub initial-IsWellFormed : IsWellFormed initial
  unfolding lookup
  initial-IsWellFormed = record {
    local_stays = (new_local 99, refl);
    default_is_physical = inl refl;
    ids = initial_ids;
    ascending = tt;
  }

  pub after-IsWellFormed :
      (out : Result (Unit {0}) × System) → KeepsIt out → IsWellFormed out.1.controller
  after-IsWellFormed (ok a, s) h = h
  after-IsWellFormed (err e, s) h = h

  pub handle-KeepsIt : (r : Request) (s : System) → IsWellFormed s.controller → KeepsIt (handle r s)
  handle-KeepsIt (choose_default id) s v = set_default_network-KeepsIt kernel id s v
  handle-KeepsIt (create_physical id permission) s v =
      create_physical_network-KeepsIt kernel id permission s v
  handle-KeepsIt (create_virtual id has_dns secure) s v =
      create_virtual_network-KeepsIt kernel id has_dns secure s v
  handle-KeepsIt (destroy id) s v = destroy_network-KeepsIt kernel id s v
  handle-KeepsIt (attach id interface) s v =
      add_interface_to_network-KeepsIt kernel id interface s v
  handle-KeepsIt (detach id interface) s v =
      remove_interface_from_network-KeepsIt kernel id interface s v
  handle-KeepsIt (permit_networks permission ids) s v =
      set_permission_for_networks-KeepsIt kernel permission ids s v
  handle-KeepsIt (permit_users permission uids) s v =
      set_permission_for_users-IsWellFormed permission uids s.controller v
  handle-KeepsIt (bind_users id ranges) s v = add_users_to_network-KeepsIt kernel id ranges s v
  handle-KeepsIt (unbind_users id ranges) s v =
      remove_users_from_network-KeepsIt kernel id ranges s v
  handle-KeepsIt (allow uids) s v = allow_protect-IsWellFormed uids s.controller v
  handle-KeepsIt (deny uids) s v = deny_protect-IsWellFormed uids s.controller v

  -- In every state that requests lead to, whatever the kernel answers and also where requests fail
  -- half way: the local network stays, the default network is none or a physical network of the
  -- map, and each network has an id of its class's range, the one it is found under, and the ids
  -- of the map ascend.
  pub Reachable-IsWellFormed : (s : System) → Reachable s → IsWellFormed s.controller
  Reachable-IsWellFormed s (started w) = initial-IsWellFormed
  Reachable-IsWellFormed s (handled {s = s₀} r h) =
      after-IsWellFormed (handle r s₀) (handle-KeepsIt r s₀ (Reachable-IsWellFormed s₀ h))
