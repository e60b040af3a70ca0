-- ===== src/Controller/Commands.antt =====
-- server/NetworkController.cpp: the delegate of its physical networks, and the methods that change
-- the controller.
use platform_system_netd.Prelude.{
  ℕ, Bool, true, false, not, ◌&&◌, ◌||◌, Option, none, some, List, [], ◌∷◌, String, leb, ◌==◌,
  if◌then◌else◌,
}
use platform_system_netd.Containers.{number_key, assign, unassign, insert, erase}
use platform_system_netd.Kernel.{Kernel, World, Result, ok, err, Exec, Ret, pure}
use platform_system_netd.Kernel
use platform_system_netd.Kernel.Errno.{esrch, eexist, einval, ebusy, enonet}
use platform_system_netd.UidRanges.{Range}
use platform_system_netd.Network.{
  Network, Virtual, Delegate, physical, virtual, new_physical, new_virtual, for_each,
  add_as_default, remove_as_default, set_permission, virtual_add_users, virtual_remove_users,
  add_interface, remove_interface, clear_interfaces,
}
use platform_system_netd.Route.Rules.{net_id_unset}
use platform_system_netd.Route.Networks.{
  add_virtual_network_fallthrough, remove_virtual_network_fallthrough,
}
use platform_system_netd.Controller.State.{
  Controller, System, Command, return, fail, exec, ◌>>=◌, ◌>>◌, put, put_network, set_default,
  min_net_id, max_net_id, min_oem_id, max_oem_id, local_net_id,
}
use platform_system_netd.Controller.Queries.{
  get_network, is_valid_network, get_network_for_interface,
}

-- A change of an object, which the map then points to; a change that fails leaves the map alone.
unfoldable pub update_with : ℕ → {A : Type 0} → (A → Network) → Exec A → Command
update_with net_id f m = do n ← exec m; put_network net_id (f n)

module _ (kernel : Kernel) where
  unfoldable pub modify_fallthrough : ℕ → String → ℕ → Bool → Ret
  modify_fallthrough vpn_net_id physical_interface permission true =
      add_virtual_network_fallthrough kernel vpn_net_id physical_interface permission
  modify_fallthrough vpn_net_id physical_interface permission false =
      remove_virtual_network_fallthrough kernel vpn_net_id physical_interface permission

  -- For every VPN, in the order of the ids.
  unfoldable pub modify_fallthroughs : List (ℕ × Network) → String → ℕ → Bool → Ret
  modify_fallthroughs [] physical_interface permission add = pure tt
  modify_fallthroughs ((id, virtual n) ∷ networks) physical_interface permission add =
      Kernel.◌>>◌ (modify_fallthrough id physical_interface permission add)
        (modify_fallthroughs networks physical_interface permission add)
  modify_fallthroughs ((id, n) ∷ networks) physical_interface permission add =
      modify_fallthroughs networks physical_interface permission add

  -- `DelegateImpl`, which reads the controller's networks.
  abbrev pub delegate : Controller → Delegate
  delegate c = record {
    add_fallthrough =
        λ interface permission. modify_fallthroughs c.networks interface permission true;
    remove_fallthrough =
        λ interface permission. modify_fallthroughs c.networks interface permission false;
  }

  -- The new default network gets its rules.
  abbrev pub make_default : ℕ → Option Network → Command
  make_default net_id none s = fail enonet s
  make_default net_id (some (physical n)) s =
      update_with net_id physical (add_as_default kernel (delegate s.controller) n) s
  make_default net_id (some n) s = fail einval s

  -- The old one loses its rules.
  abbrev pub unmake_default : ℕ → Option Network → Command
  unmake_default net_id (some (physical n)) s =
      update_with net_id physical (remove_as_default kernel (delegate s.controller) n) s
  unmake_default net_id n s = fail esrch s

  abbrev pub add_default_step : ℕ → Command
  add_default_step net_id s =
      if net_id == net_id_unset
      then return tt s
      else make_default net_id (get_network s.controller net_id) s

  abbrev pub remove_default_step : Command
  remove_default_step s =
      let old : ℕ = s.controller.default_net_id in
      if old == net_id_unset
      then return tt s
      else unmake_default old (get_network s.controller old) s

  unfoldable pub set_default_network : ℕ → Command
  set_default_network net_id s =
      if net_id == s.controller.default_net_id
      then return tt s
      else (do add_default_step net_id; remove_default_step; set_default net_id) s

  -- The rules that let a VPN's traffic fall through to the default network.
  abbrev pub modify_default_fallthrough : ℕ → Bool → Option Network → Ret
  modify_default_fallthrough vpn_net_id add none = Kernel.raise esrch
  modify_default_fallthrough vpn_net_id add (some (physical n)) =
      for_each (λ interface. modify_fallthrough vpn_net_id interface n.permission add) n.interfaces
  modify_default_fallthrough vpn_net_id add (some n) = Kernel.raise einval

  unfoldable pub modify_fallthrough_locked : Controller → ℕ → Bool → Ret
  modify_fallthrough_locked c vpn_net_id add =
      if c.default_net_id == net_id_unset
      then pure tt
      else modify_default_fallthrough vpn_net_id add (get_network c c.default_net_id)

  unfoldable pub create_physical_network : ℕ → ℕ → Command
  create_physical_network net_id permission s =
      if not (
        leb min_net_id net_id && leb net_id max_net_id
        || leb min_oem_id net_id && leb net_id max_oem_id)
      then fail einval s
      else if is_valid_network s.controller net_id
      then fail eexist s
      else update_with net_id physical
          (set_permission kernel (delegate s.controller) permission (new_physical net_id)) s

  unfoldable pub create_virtual_network : ℕ → Bool → Bool → Command
  create_virtual_network net_id has_dns secure s =
      if not (leb min_net_id net_id && leb net_id max_net_id)
      then fail einval s
      else if is_valid_network s.controller net_id
      then fail eexist s
      else (do
        exec (modify_fallthrough_locked s.controller net_id true)
        put_network net_id (virtual (new_virtual net_id has_dns secure)))
          s

  -- The first error that was seen.
  abbrev pub first_error : Result (Unit {0}) → Result (Unit {0}) → Result (Unit {0})
  first_error (ok a) r = r
  first_error (err e) r = err e

  -- The network is the default one: `removeAsDefault`, whose error does not stop the rest. The
  -- cast is right if the default network is physical.
  abbrev pub retire_default : Controller → Network → World → Result (Unit {0}) × World
  retire_default c (physical n) w =
      let (r, w') = remove_as_default kernel (delegate c) n w in
      (elim r [ ok n' ↦ ok tt | err e ↦ err e ], w')
  retire_default c n w = (ok tt, w)

  abbrev pub retire_other : Controller → ℕ → Network → World → Result (Unit {0}) × World
  retire_other c net_id (virtual n) w = modify_fallthrough_locked c net_id false w
  retire_other c net_id n w = (ok tt, w)

  -- Errors do not stop the network from being destroyed; the first one is returned.
  abbrev pub destroy_found : ℕ → Network → System → Result (Unit {0}) × System
  destroy_found net_id n s =
      let c : Controller = s.controller in
      let ((cleared, n'), w₁) = clear_interfaces kernel (delegate c) n s.world in
      let c₁ : Controller = put net_id n' c in
      let is_default : Bool = c.default_net_id == net_id in
      let (retired, w₂) =
        if is_default then retire_default c₁ n' w₁ else retire_other c₁ net_id n' w₁ in
      (
        first_error cleared retired,
        record {
          controller = record c {
            default_net_id = if is_default then net_id_unset else c.default_net_id;
            networks = unassign net_id c₁.networks;
          };
          world = w₂;
        },
      )

  abbrev pub destroy_if_found : ℕ → Option Network → Command
  destroy_if_found net_id none s = fail enonet s
  destroy_if_found net_id (some n) s = destroy_found net_id n s

  unfoldable pub destroy_network : ℕ → Command
  destroy_network net_id s =
      if net_id == local_net_id
      then fail einval s
      else destroy_if_found net_id (get_network s.controller net_id) s

  abbrev pub add_to_found : ℕ → String → Option Network → Command
  add_to_found net_id interface none s = fail enonet s
  add_to_found net_id interface (some n) s =
      update_with net_id (λ n. n) (add_interface kernel (delegate s.controller) interface n) s

  unfoldable pub add_interface_to_network : ℕ → String → Command
  add_interface_to_network net_id interface s =
      let existing : ℕ = get_network_for_interface s.controller interface in
      if not (is_valid_network s.controller net_id)
      then fail enonet s
      else if not (existing == net_id_unset) && not (existing == net_id)
      then fail ebusy s
      else add_to_found net_id interface (get_network s.controller net_id) s

  abbrev pub remove_from_found : ℕ → String → Option Network → Command
  remove_from_found net_id interface none s = fail enonet s
  remove_from_found net_id interface (some n) s =
      update_with net_id (λ n. n) (remove_interface kernel (delegate s.controller) interface n) s

  unfoldable pub remove_interface_from_network : ℕ → String → Command
  remove_interface_from_network net_id interface s =
      remove_from_found net_id interface (get_network s.controller net_id) s

  abbrev pub set_found_permission : ℕ → ℕ → Option Network → Command
  set_found_permission permission net_id none s = fail enonet s
  set_found_permission permission net_id (some (physical n)) s =
      update_with net_id physical (set_permission kernel (delegate s.controller) permission n) s
  set_found_permission permission net_id (some n) s = fail einval s

  -- One network after the other; those before an error keep the new permission.
  unfoldable pub set_permission_for_networks : ℕ → List ℕ → Command
  set_permission_for_networks permission [] = return tt
  set_permission_for_networks permission (net_id ∷ net_ids) = do
    λ s. set_found_permission permission net_id (get_network s.controller net_id) s
    set_permission_for_networks permission net_ids

  abbrev pub change_users : (Virtual → Exec Virtual) → ℕ → Option Network → Command
  change_users change net_id none s = fail enonet s
  change_users change net_id (some (virtual n)) s = update_with net_id virtual (change n) s
  change_users change net_id (some n) s = fail einval s

  unfoldable pub add_users_to_network : ℕ → List Range → Command
  add_users_to_network net_id uid_ranges s =
      change_users (virtual_add_users kernel uid_ranges) net_id (get_network s.controller net_id) s

  unfoldable pub remove_users_from_network : ℕ → List Range → Command
  remove_users_from_network net_id uid_ranges s =
      change_users (virtual_remove_users kernel uid_ranges) net_id (get_network s.controller net_id)
        s

-- The tables of users.
unfoldable pub set_permission_for_users : ℕ → List ℕ → Controller → Controller
set_permission_for_users permission [] c = c
set_permission_for_users permission (uid ∷ uids) c =
    set_permission_for_users permission uids (record c { users = assign uid permission c.users })

unfoldable pub allow_protect : List ℕ → Controller → Controller
allow_protect [] c = c
allow_protect (uid ∷ uids) c =
    allow_protect uids (record c { protectable_users = insert uid c.protectable_users })

unfoldable pub deny_protect : List ℕ → Controller → Controller
deny_protect [] c = c
deny_protect (uid ∷ uids) c =
    deny_protect uids (record c { protectable_users = erase uid c.protectable_users })
