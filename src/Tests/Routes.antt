-- ===== src/Tests/Routes.antt =====
-- Runs of the route controller.
use platform_system_netd.Prelude.{
  ◌≡◌, ◌≢◌, ◌⊎◌, refl, sym, subst, arith, true, false, All, [], ◌∷◌, ◌++◌, List,
}
use platform_system_netd.Kernel.{
  new, Result, err, Family, Call, World, command, text, pure, lift, raise, ◌>>=◌,
}
use platform_system_netd.Kernel.Errno.{esrch}
use platform_system_netd.Kernel.Issues.{IsOk}
use platform_system_netd.Containers.{assign, lookup, unassign}
use platform_system_netd.Fwmark.{int_value}
use platform_system_netd.Iptables.{exit_code, exec_iptables_command, exec_if, exec_iptables}
use platform_system_netd.Route.Requests.{
  reply_result, pad_interface_name, outside_mask, make_rule, send_netlink_request, send_rule,
  modify_ip_rule, modify_ip_rule_for_all,
}
use platform_system_netd.Route.Tables.{
  update_table_names_file, get_route_table_for_interface, require_table,
}
use platform_system_netd.Route.Rules.{
  modify_explicit_network_rule, modify_output_interface_rule, modify_implicit_network_rule,
  modify_vpn_uid_range_rule, modify_vpn_output_to_local_rule, modify_vpn_system_permission_rule,
  rule_action,
}
use platform_system_netd.Route.Plans.{
  vpn_output_to_local_rule, vpn_uid_range_rule, vpn_system_permission_rule, explicit_network_rule,
  output_interface_rule, implicit_network_rule,
}
use platform_system_netd.Route.Change.{permission_change_has_no_gap}
use platform_system_netd.Route.Sent.{rules_are_sent}
use platform_system_netd.Route.Networks.{
  add_interface_to_physical_network, remove_interface_from_physical_network,
  modify_physical_network, modify_incoming_packet_mark, incoming_mark,
  modify_physical_network_permission, retry, run, flush_table, forget_if_flushed, flush_routes,
}
use platform_system_netd.Route.Installed.{InForce, Withdrawn, AllLast}
use platform_system_netd.Route.Physical.{physical_rules, physical_calls}
use platform_system_netd.Route.Lookups.{table_of, looked_up}
use platform_system_netd.Route.Membership.{
  add_interface_to_physical_network-InForce, remove_interface_from_physical_network-Withdrawn,
}
use platform_system_netd.Route.Flush.{Attempts, Flushed, retry-Attempts, flush_routes-Flushed}
use platform_system_netd.Tests.Kernels.{willing, fresh}

-- Adding an interface, and removing one, on a kernel that does what it is asked.
adding_works : IsOk (add_interface_to_physical_network willing 100 "wlan0" 0 fresh).0
unfolding modify_physical_network modify_incoming_packet_mark incoming_mark exec_iptables exec_if
    exec_iptables_command exit_code require_table get_route_table_for_interface
    modify_explicit_network_rule modify_output_interface_rule modify_implicit_network_rule
    modify_ip_rule modify_ip_rule_for_all outside_mask pad_interface_name make_rule send_rule
    send_netlink_request reply_result update_table_names_file pure lift raise ◌>>=◌ int_value lookup
    assign add_interface_to_physical_network
adding_works = tt

removing_works : IsOk (remove_interface_from_physical_network willing 100 "wlan0" 0 fresh).0
unfolding modify_physical_network modify_incoming_packet_mark incoming_mark exec_iptables exec_if
    exec_iptables_command exit_code require_table get_route_table_for_interface
    modify_explicit_network_rule modify_output_interface_rule modify_implicit_network_rule
    modify_ip_rule modify_ip_rule_for_all outside_mask pad_interface_name make_rule send_rule
    send_netlink_request reply_result update_table_names_file pure lift raise ◌>>=◌ int_value lookup
    assign unassign remove_interface_from_physical_network flush_routes flush_table retry run
    forget_if_flushed
removing_works = tt

add_interface_to_physical_network-InForce_example :
    All
      (λ rule.
        (family : Family)
        → InForce family rule
            (add_interface_to_physical_network willing 100 "wlan0" 0 fresh).1.calls)
      (physical_rules 100 "wlan0" 0 (table_of willing "wlan0" fresh))
add_interface_to_physical_network-InForce_example =
    add_interface_to_physical_network-InForce willing 100 "wlan0" 0 fresh adding_works

remove_interface_from_physical_network-Withdrawn_example :
    All
      (λ rule.
        (family : Family)
        → Withdrawn family rule
            (remove_interface_from_physical_network willing 100 "wlan0" 0 fresh).1.calls)
      (physical_rules 100 "wlan0" 0 (table_of willing "wlan0" fresh))
remove_interface_from_physical_network-Withdrawn_example =
    remove_interface_from_physical_network-Withdrawn willing 100 "wlan0" 0 fresh removing_works

retry-Attempts_example :
    Attempts willing
      (command (text "ip" ∷ []))
      1
      []
      (retry willing 1 (command (text "ip" ∷ [])) fresh)
retry-Attempts_example = retry-Attempts willing (command (text "ip" ∷ [])) 1 fresh

-- A network that has an interface with one permission gets another.
abbrev added : World
added = (add_interface_to_physical_network willing 100 "wlan0" 0 fresh).1

abbrev first_step : World
first_step = (modify_physical_network willing 100 "wlan0" 1 true added).1

abbrev changed : Result (Unit {0}) × World
changed = modify_physical_network_permission willing 100 "wlan0" 0 1 added

abbrev new_calls : List Call
new_calls = physical_calls 100 "wlan0" 1 true (table_of willing "wlan0" added)

abbrev old_calls : List Call
old_calls = physical_calls 100 "wlan0" 0 false (table_of willing "wlan0" added)

change_works :
    (table_of willing "wlan0" first_step ≡ table_of willing "wlan0" added)
    × (table_of willing "wlan0" added ≡ table_of willing "wlan0" fresh)
    × IsOk changed.0
    × (changed.1.calls ≡ added.calls ++ (new_calls ++ old_calls))
unfolding modify_physical_network modify_incoming_packet_mark incoming_mark exec_iptables exec_if
    exec_iptables_command exit_code require_table get_route_table_for_interface
    modify_explicit_network_rule modify_output_interface_rule modify_implicit_network_rule
    modify_ip_rule modify_ip_rule_for_all outside_mask pad_interface_name make_rule send_rule
    send_netlink_request reply_result update_table_names_file pure lift raise ◌>>=◌ int_value lookup
    assign add_interface_to_physical_network modify_physical_network_permission
change_works = (refl, refl, tt, refl)

before : AllLast new (physical_rules 100 "wlan0" 0 (table_of willing "wlan0" added)) added.calls
before =
    subst (λ table. AllLast new (physical_rules 100 "wlan0" 0 table) added.calls)
      (sym change_works.1)
      (add_interface_to_physical_network-InForce willing 100 "wlan0" 0 fresh adding_works)

permission_change_has_no_gap_example :
    AllLast new
      (physical_rules 100 "wlan0" 0 (table_of willing "wlan0" added))
      (added.calls ++ new_calls)
    ⊎ AllLast new
        (physical_rules 100 "wlan0" 1 (table_of willing "wlan0" added))
        (added.calls ++ new_calls)
permission_change_has_no_gap_example =
    permission_change_has_no_gap willing 100 "wlan0" 0 1 added new_calls old_calls (omega arith)
      change_works.0 before change_works.2 change_works.3

flush_routes-Flushed_example :
    ((table_of willing "wlan0" fresh ≡ 0)
      × (flush_routes willing "wlan0" fresh ≡ (err esrch, looked_up willing "wlan0" fresh)))
    ⊎ ((table_of willing "wlan0" fresh ≢ 0)
        × Flushed willing "wlan0"
            (table_of willing "wlan0" fresh)
            (looked_up willing "wlan0" fresh)
            (flush_routes willing "wlan0" fresh))
flush_routes-Flushed_example = flush_routes-Flushed willing "wlan0" fresh

rules_are_sent_example :
    (modify_vpn_output_to_local_rule willing "tun0" true
      ≡ send_rule willing (rule_action true) (vpn_output_to_local_rule "tun0"))
    × (modify_vpn_uid_range_rule willing 1007 10000 10010 true true
        ≡ send_rule willing (rule_action true) (vpn_uid_range_rule 1007 10000 10010 true))
    × (modify_vpn_system_permission_rule willing 100 1007 true true
        ≡ send_rule willing (rule_action true) (vpn_system_permission_rule 100 1007 true))
    × (modify_explicit_network_rule willing 100 1007 0 10000 10010 true
        ≡ send_rule willing (rule_action true) (explicit_network_rule 100 1007 0 10000 10010))
    × (modify_output_interface_rule willing "tun0" 1007 0 10000 10010 true
        ≡ send_rule willing (rule_action true) (output_interface_rule "tun0" 1007 0 10000 10010))
    × (modify_implicit_network_rule willing 100 1007 0 true
        ≡ send_rule willing (rule_action true) (implicit_network_rule 100 1007 0))
rules_are_sent_example =
    rules_are_sent willing "tun0" 100 1007 0 10000 10010 true true (omega arith) refl
