-- ===== src/Route/Networks.antt =====
-- server/RouteController.cpp: the changes of rules that networks ask for, flushing, and the class's
-- public methods.
use platform_system_netd.Prelude.{
  ℕ, zero, suc, ◌-◌, Bool, true, false, ◌&&◌, none, some, List, [], ◌∷◌, String, ◌==◌,
  if◌then◌else◌,
}
use platform_system_netd.Fwmark.{
  cleared, int_value, set_net_id, set_explicitly_selected, set_protected_from_vpn, set_permission,
  permission_none,
}
use platform_system_netd.Kernel.{
  Kernel, World, Action, new, del, Family, inet, inet6, Word, text, hex, decimal, Call, command,
  Result, ok, err, Ret, pure, ◌>>=◌, ◌>>◌, record_call,
}
use platform_system_netd.Kernel.Errno.{eremoteio}
use platform_system_netd.Containers.{string_key, unassign}
use platform_system_netd.Iptables.{exec_iptables, v4v6, ip_path}
use platform_system_netd.Route.Requests.{invalid_uid, modify_ip_rule, modify_ip_rule_for_all}
use platform_system_netd.Route.Tables.{table_local_network, require_table, update_table_names_file}
use platform_system_netd.Route.Rules.{
  mark_unset, net_id_unset, uid_root, net_mark, net_mask, modify_vpn_output_to_local_rule,
  modify_vpn_uid_range_rule, modify_vpn_system_permission_rule, modify_explicit_network_rule,
  modify_output_interface_rule, modify_implicit_network_rule, modify_vpn_fallthrough_rule,
  add_legacy_route_rules, add_local_network_rules, add_directly_connected_rule,
  add_unreachable_rule,
}
use platform_system_netd.Route.Priority

-- The value that packets from an interface are marked with.
unfoldable pub incoming_mark : ℕ → ℕ → ℕ
incoming_mark net_id permission = int_value (
    set_permission permission
      (set_protected_from_vpn true (set_explicitly_selected true (set_net_id net_id cleared))))

abbrev pub mark_arguments : String → Bool → ℕ → List Word
mark_arguments interface add mark =
    text "-w"
    ∷ text "-t"
    ∷ text "mangle"
    ∷ text (if add then "-A" else "-D")
    ∷ text "INPUT"
    ∷ text "-i"
    ∷ text interface
    ∷ text "-j"
    ∷ text "MARK"
    ∷ text "--set-mark"
    ∷ hex mark
    ∷ []

abbrev pub version : Family → String
version inet = "-4"
version inet6 = "-6"

abbrev pub flush_rules_command : Family → Call
flush_rules_command family =
    command (text ip_path ∷ text (version family) ∷ text "rule" ∷ text "flush" ∷ [])

abbrev pub flush_routes_command : Family → ℕ → Call
flush_routes_command family table = command (
    text ip_path
    ∷ text (version family)
    ∷ text "route"
    ∷ text "flush"
    ∷ text "table"
    ∷ decimal table
    ∷ [])

-- ROUTE_FLUSH_ATTEMPTS
abbrev pub route_flush_attempts : ℕ
route_flush_attempts = 2

-- The name stays in the cache if a flush failed.
unfoldable pub forget_if_flushed : String → ℕ × World → Result (Unit {0}) × World
forget_if_flushed interface (ret, w) =
    if ret == 0
    then (ok tt, record w { interface_to_table = unassign interface w.interface_to_table })
    else (err ret, w)

module _ (kernel : Kernel) where
  unfoldable pub modify_incoming_packet_mark : ℕ → String → ℕ → Bool → Ret
  modify_incoming_packet_mark net_id interface permission add w =
      let (res, w') =
        exec_iptables kernel v4v6 (mark_arguments interface add (incoming_mark net_id permission))
          w in
      (if res == 0 then ok tt else err eremoteio, w')

  unfoldable pub modify_local_network : ℕ → String → Bool → Ret
  modify_local_network net_id interface add = do
    modify_incoming_packet_mark net_id interface permission_none add
    modify_output_interface_rule kernel interface table_local_network permission_none invalid_uid
        invalid_uid add

  unfoldable pub modify_physical_network : ℕ → String → ℕ → Bool → Ret
  modify_physical_network net_id interface permission add = do
    table ← require_table kernel interface
    modify_incoming_packet_mark net_id interface permission add
    modify_explicit_network_rule kernel net_id table permission invalid_uid invalid_uid add
    modify_output_interface_rule kernel interface table permission invalid_uid invalid_uid add
    modify_implicit_network_rule kernel net_id table permission add

  -- The loop over the ranges of users.
  unfoldable pub modify_uid_ranges : ℕ → String → ℕ → Bool → Bool → List (ℕ × ℕ) → Ret
  modify_uid_ranges net_id interface table secure add [] = pure tt
  modify_uid_ranges net_id interface table secure add ((uid_start, uid_end) ∷ ranges) = do
    modify_vpn_uid_range_rule kernel table uid_start uid_end secure add
    modify_explicit_network_rule kernel net_id table permission_none uid_start uid_end add
    modify_output_interface_rule kernel interface table permission_none uid_start uid_end add
    modify_uid_ranges net_id interface table secure add ranges

  unfoldable pub modify_non_uid_based_rules : ℕ → String → ℕ → Bool → Bool → Ret
  modify_non_uid_based_rules net_id interface table secure add = do
    modify_incoming_packet_mark net_id interface permission_none add
    modify_vpn_output_to_local_rule kernel interface add
    modify_vpn_system_permission_rule kernel net_id table secure add
    modify_explicit_network_rule kernel net_id table permission_none uid_root uid_root add

  unfoldable pub modify_virtual_network : ℕ → String → List (ℕ × ℕ) → Bool → Bool → Bool → Ret
  modify_virtual_network net_id interface uid_ranges secure add non_uid_based = do
    table ← require_table kernel interface
    modify_uid_ranges net_id interface table secure add uid_ranges
    if non_uid_based then modify_non_uid_based_rules net_id interface table secure add else pure tt

  unfoldable pub modify_default_network : Action → String → ℕ → Ret
  modify_default_network action interface permission = do
    table ← require_table kernel interface
    modify_ip_rule_for_all kernel action Priority.default_network table
        (int_value (set_permission permission (net_mark net_id_unset)))
        (int_value (set_permission permission net_mask))

  unfoldable pub modify_tethered_network : Action → String → String → Ret
  modify_tethered_network action input_interface output_interface = do
    table ← require_table kernel output_interface
    modify_ip_rule kernel action Priority.tethering table mark_unset mark_unset
        (some input_interface) none invalid_uid invalid_uid

  -- `android_fork_execvp` with no status asked for.
  unfoldable pub run : Call → World → ℕ × World
  run c w = ((kernel.execvp w.calls c).res, record_call c w)

  unfoldable pub run_or_fail : Call → Ret
  unfolding run
  run_or_fail c w = let (res, w') = run c w in (if res == 0 then ok tt else err eremoteio, w')

  unfoldable pub flush_rules : Ret
  flush_rules = do run_or_fail (flush_rules_command inet); run_or_fail (flush_rules_command inet6)

  -- `do err = run(c); while (err != 0 && ++attempts < limit)`, with so many attempts after this.
  unfoldable pub retry : ℕ → Call → World → ℕ × World
  unfolding run
  retry zero c w = run c w
  retry (suc more) c w =
      let (res, w') = run c w in
      let again = retry more c w' in if res == 0 then (res, w') else again

  -- Both families are tried; an error of either one is reported.
  unfoldable pub flush_table : ℕ → World → ℕ × World
  flush_table table w =
      let (res₄, w₁) = retry (route_flush_attempts - 1) (flush_routes_command inet table) w in
      let (res₆, w₂) = retry (route_flush_attempts - 1) (flush_routes_command inet6 table) w₁ in
      (if res₄ == 0 && res₆ == 0 then 0 else eremoteio, w₂)

  unfoldable pub flush_routes : String → Ret
  flush_routes interface = do
    table ← require_table kernel interface
    λ w. forget_if_flushed interface (flush_table table w)

-- RouteController's public methods.
module _ (kernel : Kernel) where
  unfoldable pub init : ℕ → Ret
  init local_net_id = do
    flush_rules kernel
    add_legacy_route_rules kernel
    add_local_network_rules kernel local_net_id
    add_directly_connected_rule kernel
    add_unreachable_rule kernel
    update_table_names_file

  unfoldable pub add_interface_to_local_network : ℕ → String → Ret
  add_interface_to_local_network net_id interface =
      modify_local_network kernel net_id interface true

  unfoldable pub remove_interface_from_local_network : ℕ → String → Ret
  remove_interface_from_local_network net_id interface =
      modify_local_network kernel net_id interface false

  unfoldable pub add_interface_to_physical_network : ℕ → String → ℕ → Ret
  add_interface_to_physical_network net_id interface permission = do
    modify_physical_network kernel net_id interface permission true
    update_table_names_file

  unfoldable pub remove_interface_from_physical_network : ℕ → String → ℕ → Ret
  remove_interface_from_physical_network net_id interface permission = do
    modify_physical_network kernel net_id interface permission false
    flush_routes kernel interface
    update_table_names_file

  unfoldable pub add_interface_to_virtual_network : ℕ → String → Bool → List (ℕ × ℕ) → Ret
  add_interface_to_virtual_network net_id interface secure uid_ranges = do
    modify_virtual_network kernel net_id interface uid_ranges secure true true
    update_table_names_file

  unfoldable pub remove_interface_from_virtual_network : ℕ → String → Bool → List (ℕ × ℕ) → Ret
  remove_interface_from_virtual_network net_id interface secure uid_ranges = do
    modify_virtual_network kernel net_id interface uid_ranges secure false true
    flush_routes kernel interface
    update_table_names_file

  -- The new rules come before the old ones go.
  unfoldable pub modify_physical_network_permission : ℕ → String → ℕ → ℕ → Ret
  modify_physical_network_permission net_id interface old_permission new_permission = do
    modify_physical_network kernel net_id interface new_permission true
    modify_physical_network kernel net_id interface old_permission false

  unfoldable pub add_users_to_virtual_network : ℕ → String → Bool → List (ℕ × ℕ) → Ret
  add_users_to_virtual_network net_id interface secure uid_ranges =
      modify_virtual_network kernel net_id interface uid_ranges secure true false

  unfoldable pub remove_users_from_virtual_network : ℕ → String → Bool → List (ℕ × ℕ) → Ret
  remove_users_from_virtual_network net_id interface secure uid_ranges =
      modify_virtual_network kernel net_id interface uid_ranges secure false false

  unfoldable pub add_interface_to_default_network : String → ℕ → Ret
  add_interface_to_default_network interface permission =
      modify_default_network kernel new interface permission

  unfoldable pub remove_interface_from_default_network : String → ℕ → Ret
  remove_interface_from_default_network interface permission =
      modify_default_network kernel del interface permission

  unfoldable pub enable_tethering : String → String → Ret
  enable_tethering input_interface output_interface =
      modify_tethered_network kernel new input_interface output_interface

  unfoldable pub disable_tethering : String → String → Ret
  disable_tethering input_interface output_interface =
      modify_tethered_network kernel del input_interface output_interface

  unfoldable pub add_virtual_network_fallthrough : ℕ → String → ℕ → Ret
  add_virtual_network_fallthrough vpn_net_id physical_interface permission =
      modify_vpn_fallthrough_rule kernel new vpn_net_id physical_interface permission

  unfoldable pub remove_virtual_network_fallthrough : ℕ → String → ℕ → Ret
  remove_virtual_network_fallthrough vpn_net_id physical_interface permission =
      modify_vpn_fallthrough_rule kernel del vpn_net_id physical_interface permission
