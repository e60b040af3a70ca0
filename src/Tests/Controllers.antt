-- ===== src/Tests/Controllers.antt =====
-- Runs of the controller.
use platform_system_netd.Prelude.{◌⊎◌, ℕ, true, none, some, ◌≡◌, ◌↔◌, refl, false, [], ◌∷◌}
use platform_system_netd.Containers.{assign, number_key, string_key, lookup, contains}
use platform_system_netd.Fwmark.{of_int, grants, int_value}
use platform_system_netd.Kernel.{pure, raise, lift, ◌>>=◌}
use platform_system_netd.Network.{
  Virtual, applies_to_user, virtual_add_users, for_each, Network, local, has_interface,
  clear_interfaces, clear_from, remove_interface, local_remove_interface,
}
use platform_system_netd.Network.Clearing.{clear_interfaces-IsEmpty}
use platform_system_netd.Controller.Commands.{delegate}
use platform_system_netd.Kernel.Issues.{IsOk}
use platform_system_netd.Route.Requests.{
  reply_result, pad_interface_name, outside_mask, make_rule, send_netlink_request, send_rule,
  modify_ip_rule,
}
use platform_system_netd.Route.Tables.{get_route_table_for_interface, require_table}
use platform_system_netd.Route.Rules.{modify_output_interface_rule}
use platform_system_netd.Route.Networks.{
  remove_interface_from_local_network, modify_local_network, modify_incoming_packet_mark,
}
use platform_system_netd.Iptables.{exec_iptables, exec_if, exec_iptables_command}
use platform_system_netd.Controller.State
use platform_system_netd.Controller.State.{
  exec, fail, put_network, return, put, Controller, System, initial, local_net_id,
}
use platform_system_netd.Controller.Queries.{
  get_network_for_dns, get_network_for_connect, get_network_for_interface, is_valid_network,
  first_with_interface, undefined, granted, check_user_network_access, get_permission_for_user,
  first_vpn,
}
use platform_system_netd.Controller.Invariant.{IsWellFormed}
use platform_system_netd.Controller.Requests.{
  bind_users, create_virtual, create_physical, choose_default, handle, started, handled,
  Reachable-IsWellFormed,
}
use platform_system_netd.Controller.Access.{MayUse, access_iff}
use platform_system_netd.Tests.Kernels.{willing, resolving, fresh}
use platform_system_netd.Route.Asked.{OneRoute}
use platform_system_netd.Route.Lookups.{table_of}
use platform_system_netd.Route.Paths.{
  modify_ip_route, modify_route, require_table_of, require_index, parse_nexthop, add_route,
}
use platform_system_netd.Controller.Routes.{
  modify_network_route, route_table_type, route_action, TableFor, modify_network_route-OneRoute,
}
use platform_system_netd.Controller.Selection.{
  IsVpnOf, DnsMark, connect_avoids_secure_vpns, get_network_for_dns-DnsMark,
}
use platform_system_netd.UidRanges
use platform_system_netd.UidRanges.{has_uid, lower_bound, less, merge}
use platform_system_netd.Kernel
use platform_system_netd.Controller.Commands.{
  add_users_to_network, create_virtual_network, update_with, modify_fallthrough_locked,
}
use platform_system_netd.Prefix.{parse_prefix, split_at_slash}
use platform_system_netd.CStrings.{strtoul, skip_spaces, digits}

abbrev at_start : System
at_start = record { controller = initial; world = fresh }

abbrev pub with_default : System
with_default =
    (handle willing (choose_default 100) (handle willing (create_physical 100 0) at_start).1).1

pub default-IsWellFormed : IsWellFormed with_default.controller
default-IsWellFormed =
    Reachable-IsWellFormed willing with_default
      (handled (choose_default 100) (handled (create_physical 100 0) (started fresh)))

Reachable-IsWellFormed_example : IsWellFormed with_default.controller
Reachable-IsWellFormed_example =
    Reachable-IsWellFormed willing with_default
      (handled (choose_default 100) (handled (create_physical 100 0) (started fresh)))

access_iff_example :
    (check_user_network_access with_default.controller 10000 100 ≡ granted)
    ↔ MayUse with_default.controller 10000 100
access_iff_example = access_iff with_default.controller 10000 100

pub start-IsWellFormed : IsWellFormed initial
start-IsWellFormed = Reachable-IsWellFormed willing at_start (started fresh)

-- An app asks for the local network.
reads_past : check_user_network_access initial 10000 99 ≡ undefined
unfolding check_user_network_access get_permission_for_user first_vpn lookup grants
reads_past = refl

-- The local network loses its one interface.
abbrev pub tethered : Network
tethered = local (record { net_id = 99; interfaces = "rndis0" ∷ [] })

clearing_works : IsOk (clear_interfaces willing (delegate willing initial) tethered fresh).0.0
unfolding clear_interfaces clear_from remove_interface local_remove_interface contains pure raise
    lift remove_interface_from_local_network modify_local_network modify_output_interface_rule
    modify_ip_rule outside_mask pad_interface_name make_rule send_rule send_netlink_request
    reply_result int_value ◌>>=◌ require_table get_route_table_for_interface
    modify_incoming_packet_mark exec_iptables exec_if exec_iptables_command
clearing_works = tt

clear_interfaces-IsEmpty_example :
    has_interface "rndis0" (clear_interfaces willing (delegate willing initial) tethered fresh).0.1
    ≡ false
clear_interfaces-IsEmpty_example =
    clear_interfaces-IsEmpty willing (delegate willing initial) tethered fresh clearing_works
      "rndis0"

-- A route to the network's clients.
abbrev pub sharing : Controller
sharing = put 99 tethered initial

adding_route_works :
    IsOk
      (modify_network_route resolving 32 sharing 99 "rndis0"
        (some "192.168.42.0/24")
        none
        true
        false
        0
        fresh).0
unfolding modify_network_route route_table_type add_route modify_route require_table_of
    modify_ip_route parse_prefix split_at_slash strtoul skip_spaces digits require_index
    parse_nexthop lift pure raise ◌>>=◌ send_netlink_request reply_result is_valid_network
    first_with_interface has_interface contains lookup assign
adding_route_works = tt

modify_network_route-OneRoute_example :
    (get_network_for_interface sharing "rndis0" ≡ 99)
    × ((table : ℕ) × OneRoute
          (route_action resolving 32 true)
          table
          []
          (modify_network_route resolving 32 sharing 99 "rndis0"
            (some "192.168.42.0/24")
            none
            true
            false
            0
            fresh).1.calls
        × TableFor resolving 32 sharing 99 false 0 (table_of resolving "rndis0" fresh) table)
modify_network_route-OneRoute_example =
    modify_network_route-OneRoute resolving 32 sharing 99 "rndis0" (some "192.168.42.0/24") none
      true false 0 fresh adding_route_works

-- A VPN that can be bypassed, with a range of users.
abbrev with_vpn : System
with_vpn =
    (handle willing (bind_users 101 ((10000, 10010) ∷ []))
      (handle willing (create_virtual 101 true false) at_start).1).1

with_vpn-IsWellFormed : IsWellFormed with_vpn.controller
with_vpn-IsWellFormed = Reachable-IsWellFormed willing with_vpn (
    handled (bind_users 101 ((10000, 10010) ∷ []))
      (handled (create_virtual 101 true false) (started fresh)))

connect_avoids_secure_vpns_example :
    (get_network_for_connect with_vpn.controller 10005 ≡ with_vpn.controller.default_net_id)
    ⊎ ((n : Virtual) × IsVpnOf with_vpn.controller 10005
          (get_network_for_connect with_vpn.controller 10005)
          n
        × (n.secure ≡ false))
connect_avoids_secure_vpns_example =
    connect_avoids_secure_vpns with_vpn.controller with_vpn-IsWellFormed 10005

answers : get_network_for_dns with_vpn.controller 101 10005 ≡ some (101, 983141)
unfolding get_network_for_dns check_user_network_access get_permission_for_user grants lookup assign
    applies_to_user has_uid lower_bound less int_value add_users_to_network create_virtual_network
    virtual_add_users update_with exec fail put_network return for_each pure
    modify_fallthrough_locked is_valid_network UidRanges.add merge Kernel.◌>>=◌ State.◌>>=◌
answers = refl

get_network_for_dns-DnsMark_example : DnsMark with_vpn.controller 10005 101 101 (of_int 983141)
get_network_for_dns-DnsMark_example =
    get_network_for_dns-DnsMark with_vpn.controller with_vpn-IsWellFormed 10005 101 101 983141
      answers
