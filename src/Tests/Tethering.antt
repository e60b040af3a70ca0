-- ===== src/Tests/Tethering.antt =====
-- Runs of address translation.
use platform_system_netd.Prelude.{[]}
use platform_system_netd.Containers.{string_key, contains, lookup, assign}
use platform_system_netd.Kernel.{pure, lift, raise, ◌>>=◌}
use platform_system_netd.Kernel.Issues.{IsOk}
use platform_system_netd.Prefix.{is_iface_name, is_name_rest}
use platform_system_netd.Route.Requests.{
  reply_result, pad_interface_name, outside_mask, make_rule, send_netlink_request, send_rule,
  modify_ip_rule,
}
use platform_system_netd.Route.Tables.{get_route_table_for_interface, require_table}
use platform_system_netd.Route.Networks.{enable_tethering, modify_tethered_network, run}
use platform_system_netd.NatController.{
  Nat, enable_nat, add_forward_rules, set_tether_counting_rules, count_pair,
}
use platform_system_netd.NatController.Order.{EndsWithDrop, enable_nat-EndsWithDrop}
use platform_system_netd.Tests.Kernels.{willing, fresh}

abbrev no_pairs : Nat
no_pairs = record { nat_count = 0; iface_pair_list = [] }

tethering_works : IsOk (enable_nat willing "wlan0" "rmnet0" (no_pairs, fresh)).0
unfolding enable_nat is_iface_name is_name_rest add_forward_rules set_tether_counting_rules
    count_pair contains run enable_tethering modify_tethered_network modify_ip_rule outside_mask
    pad_interface_name make_rule send_rule send_netlink_request reply_result require_table
    get_route_table_for_interface lift raise pure ◌>>=◌ lookup assign
tethering_works = tt

enable_nat-EndsWithDrop_example :
    EndsWithDrop willing "wlan0" "rmnet0"
      (enable_nat willing "wlan0" "rmnet0" (no_pairs, fresh)).1.1
enable_nat-EndsWithDrop_example =
    enable_nat-EndsWithDrop willing "wlan0" "rmnet0" (no_pairs, fresh) tethering_works
