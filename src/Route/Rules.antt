-- ===== src/Route/Rules.antt =====
-- server/RouteController.cpp: the rules, each with the mark that it selects by. A mark that is not
-- assigned to is clear.
use platform_system_netd.Prelude.{ℕ, Bool, true, false, none, some, String, if◌then◌else◌}
use platform_system_netd.Fwmark.{
  Fwmark, cleared, int_value, set_net_id, set_explicitly_selected, set_protected_from_vpn,
  set_permission, fwmark_net_id_mask, permission_none, permission_system,
}
use platform_system_netd.Kernel.{Kernel, Action, new, del, Ret, ◌>>=◌, ◌>>◌}
use platform_system_netd.Route.Requests.{
  invalid_uid, table_unspec, modify_ip_rule, modify_ip_rule_for_all,
}
use platform_system_netd.Route.Tables.{
  table_local_network, table_legacy_network, table_legacy_system, table_main, require_table,
}
use platform_system_netd.Route.Priority

-- MARK_UNSET and NETID_UNSET of resolv_netid.h, and the root user.
abbrev pub mark_unset : ℕ
mark_unset = 0

abbrev pub net_id_unset : ℕ
net_id_unset = 0

abbrev pub uid_root : ℕ
uid_root = 0

-- `add ? RTM_NEWRULE : RTM_DELRULE`
abbrev pub rule_action : Bool → Action
rule_action add = if add then new else del

-- The pairs of marks and masks, in the order of the assignments.
abbrev pub net_mark : ℕ → Fwmark
net_mark net_id = set_net_id net_id cleared

abbrev pub net_mask : Fwmark
net_mask = set_net_id fwmark_net_id_mask cleared

module _ (kernel : Kernel) where
  unfoldable pub modify_vpn_output_to_local_rule : String → Bool → Ret
  modify_vpn_output_to_local_rule vpn_interface add =
      modify_ip_rule kernel (rule_action add) Priority.vpn_output_to_local table_local_network
        mark_unset mark_unset (some vpn_interface) none invalid_uid invalid_uid

  unfoldable pub modify_vpn_uid_range_rule : ℕ → ℕ → ℕ → Bool → Bool → Ret
  modify_vpn_uid_range_rule table uid_start uid_end secure add =
      let fwmark = set_protected_from_vpn false cleared in
      let mask = set_protected_from_vpn true cleared in
      if secure
      then modify_ip_rule kernel (rule_action add) Priority.secure_vpn table (int_value fwmark)
          (int_value mask) none none uid_start uid_end
      else modify_ip_rule kernel (rule_action add) Priority.bypassable_vpn table
          (int_value (set_explicitly_selected false fwmark))
          (int_value (set_explicitly_selected true mask)) none none uid_start uid_end

  unfoldable pub modify_vpn_system_permission_rule : ℕ → ℕ → Bool → Bool → Ret
  modify_vpn_system_permission_rule net_id table secure add =
      modify_ip_rule_for_all kernel (rule_action add)
        (if secure then Priority.secure_vpn else Priority.bypassable_vpn) table
        (int_value (set_permission permission_system (net_mark net_id)))
        (int_value (set_permission permission_system net_mask))

  unfoldable pub modify_explicit_network_rule : ℕ → ℕ → ℕ → ℕ → ℕ → Bool → Ret
  modify_explicit_network_rule net_id table permission uid_start uid_end add =
      modify_ip_rule kernel (rule_action add) Priority.explicit_network table
        (int_value (set_permission permission (set_explicitly_selected true (net_mark net_id))))
        (int_value (set_permission permission (set_explicitly_selected true net_mask))) none none
        uid_start uid_end

  unfoldable pub modify_output_interface_rule : String → ℕ → ℕ → ℕ → ℕ → Bool → Ret
  modify_output_interface_rule interface table permission uid_start uid_end add =
      modify_ip_rule kernel (rule_action add) Priority.output_interface table
        (int_value (set_permission permission cleared))
        (int_value (set_permission permission cleared)) none (some interface) uid_start uid_end

  unfoldable pub modify_implicit_network_rule : ℕ → ℕ → ℕ → Bool → Ret
  modify_implicit_network_rule net_id table permission add =
      modify_ip_rule_for_all kernel (rule_action add) Priority.implicit_network table
        (int_value (set_permission permission (set_explicitly_selected false (net_mark net_id))))
        (int_value (set_permission permission (set_explicitly_selected true net_mask)))

  unfoldable pub modify_vpn_fallthrough_rule : Action → ℕ → String → ℕ → Ret
  modify_vpn_fallthrough_rule action vpn_net_id physical_interface permission = do
    table ← require_table kernel physical_interface
    modify_ip_rule_for_all kernel action Priority.vpn_fallthrough table
        (int_value
          (set_permission permission (set_explicitly_selected false (net_mark vpn_net_id))))
        (int_value (set_permission permission (set_explicitly_selected true net_mask)))

  unfoldable pub add_legacy_route_rules : Ret
  add_legacy_route_rules = do
    let fwmark = set_explicitly_selected false cleared
    let mask = set_explicitly_selected true cleared
    modify_ip_rule_for_all kernel new Priority.legacy_system table_legacy_system (int_value fwmark)
        (int_value mask)
    modify_ip_rule_for_all kernel new Priority.legacy_network table_legacy_network
        (int_value fwmark) (int_value mask)
    modify_ip_rule_for_all kernel new Priority.vpn_override_system table_legacy_system
        (int_value (set_permission permission_system fwmark))
        (int_value (set_permission permission_system mask))

  unfoldable pub add_local_network_rules : ℕ → Ret
  add_local_network_rules local_net_id = do
    modify_explicit_network_rule local_net_id table_local_network permission_none invalid_uid
        invalid_uid true
    modify_ip_rule_for_all kernel new Priority.local_network table_local_network
        (int_value (set_explicitly_selected false cleared))
        (int_value (set_explicitly_selected true cleared))

  unfoldable pub add_directly_connected_rule : Ret
  add_directly_connected_rule =
      modify_ip_rule kernel new Priority.directly_connected table_main
        (int_value (net_mark net_id_unset)) (int_value net_mask) none none uid_root uid_root

  unfoldable pub add_unreachable_rule : Ret
  add_unreachable_rule =
      modify_ip_rule_for_all kernel new Priority.unreachable table_unspec mark_unset mark_unset
