-- ===== src/Controller/Queries.antt =====
-- server/NetworkController.cpp: the methods that only read.
use platform_system_netd.Prelude.{
  ℕ, Bool, true, false, not, ◌&&◌, ◌||◌, Option, none, some, List, [], ◌∷◌, String, ltb, ◌==◌,
  if◌then◌else◌,
}
use platform_system_netd.Containers.{number_key, lookup, contains}
use platform_system_netd.Fwmark.{
  cleared, int_value, set_net_id, set_explicitly_selected, set_protected_from_vpn, set_permission,
  permission_none, permission_system, grants,
}
use platform_system_netd.Kernel.Errno.{enonet, eremoteio, eperm, eacces}
use platform_system_netd.Network.{
  Network, Virtual, local, physical, virtual, has_interface, applies_to_user,
}
use platform_system_netd.Route.Requests.{invalid_uid}
use platform_system_netd.Route.Rules.{net_id_unset}
use platform_system_netd.Controller.State.{Controller, first_application_uid}

abbrev pub get_network : Controller → ℕ → Option Network
get_network c net_id = lookup net_id c.networks

abbrev pub is_some : Option Network → Bool
is_some none = false
is_some (some n) = true

unfoldable pub is_valid_network : Controller → ℕ → Bool
is_valid_network c net_id = is_some (get_network c net_id)

abbrev pub is_virtual : Option Network → Bool
is_virtual (some (virtual n)) = true
is_virtual _ = false

unfoldable pub is_virtual_network : Controller → ℕ → Bool
is_virtual_network c net_id = is_virtual (get_network c net_id)

-- The first VPN, in the order of the ids, that applies to the user.
unfoldable pub first_vpn : ℕ → List (ℕ × Network) → Option Virtual
first_vpn uid [] = none
first_vpn uid ((id, virtual n) ∷ networks) =
    let rest = first_vpn uid networks in if applies_to_user uid n then some n else rest
first_vpn uid ((id, n) ∷ networks) = first_vpn uid networks

abbrev pub get_virtual_network_for_user : Controller → ℕ → Option Virtual
get_virtual_network_for_user c uid = first_vpn uid c.networks

unfoldable pub get_permission_for_user : Controller → ℕ → ℕ
get_permission_for_user c uid = elim (lookup uid c.users) [
  | none ↦ if ltb uid first_application_uid then permission_system else permission_none
  | some permission ↦ permission
]

-- What a check answers. A local network has no permission: the cast to a physical network reads
-- past the object.
pub data Access : Type 0 where
  granted : Access
  refused : ℕ → Access
  undefined : Access

-- The last step of the check: the permission that the network asks for.
abbrev pub check_permission : ℕ → Network → Access
check_permission held (local n) = undefined
check_permission held (physical n) = if grants held n.permission then granted else refused eacces
check_permission held (virtual n) = undefined

abbrev pub is_secure_vpn : Option Virtual → Bool
is_secure_vpn none = false
is_secure_vpn (some n) = n.secure

-- The steps after the user's own permission, for a network of each class.
abbrev pub check_user : Controller → ℕ → Network → Access
check_user c uid (virtual n) = if applies_to_user uid n then granted else refused eperm
check_user c uid n =
    if is_secure_vpn (get_virtual_network_for_user c uid) && not (contains uid c.protectable_users)
    then refused eperm
    else check_permission (get_permission_for_user c uid) n

abbrev pub check_network : Controller → ℕ → Option Network → Access
check_network c uid none = refused enonet
check_network c uid (some n) =
    if uid == invalid_uid
    then refused eremoteio
    else if grants (get_permission_for_user c uid) permission_system
    then granted
    else check_user c uid n

unfoldable pub check_user_network_access : Controller → ℕ → ℕ → Access
check_user_network_access c uid net_id = check_network c uid (get_network c net_id)

unfoldable pub get_default_network : Controller → ℕ
get_default_network c = c.default_net_id

unfoldable pub get_network_for_user : Controller → ℕ → ℕ
get_network_for_user c uid = elim (get_virtual_network_for_user c uid) [
  | none ↦ c.default_net_id
  | some n ↦ n.net_id
]

unfoldable pub get_network_for_connect : Controller → ℕ → ℕ
get_network_for_connect c uid = elim (get_virtual_network_for_user c uid) [
  | none ↦ c.default_net_id
  | some n ↦ if n.secure then c.default_net_id else n.net_id
]

unfoldable pub first_with_interface : String → List (ℕ × Network) → ℕ
first_with_interface interface [] = net_id_unset
first_with_interface interface ((id, n) ∷ networks) =
    let rest = first_with_interface interface networks in
    if has_interface interface n then id else rest

abbrev pub get_network_for_interface : Controller → String → ℕ
get_network_for_interface c interface = first_with_interface interface c.networks

unfoldable pub can_protect : Controller → ℕ → Bool
can_protect c uid =
    grants (get_permission_for_user c uid) permission_system || contains uid c.protectable_users

abbrev pub dns_network : Controller → Option Virtual → ℕ
dns_network c none = c.default_net_id
dns_network c (some n) = if n.has_dns then n.net_id else c.default_net_id

-- The network to resolve names on, and the mark for the socket; none if the check reads past an
-- object.
abbrev pub dns_answer : Controller → ℕ → ℕ → Access → Option (ℕ × ℕ)
dns_answer c uid net_id granted = some (
  net_id,
  int_value (
      set_net_id net_id (
        set_explicitly_selected true
          (set_permission permission_system (set_protected_from_vpn true cleared)))),
)
dns_answer c uid net_id (refused e) =
    let chosen : ℕ = dns_network c (get_virtual_network_for_user c uid) in
    some (
      chosen,
      int_value (
          set_net_id chosen
            (set_permission permission_system (set_protected_from_vpn true cleared))),
    )
dns_answer c uid net_id undefined = none

unfoldable pub get_network_for_dns : Controller → ℕ → ℕ → Option (ℕ × ℕ)
get_network_for_dns c net_id uid = dns_answer c uid net_id (check_user_network_access c uid net_id)
