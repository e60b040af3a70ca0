-- ===== src/Tests/Firewall.antt =====
-- Runs of the firewall.
use platform_system_netd.Prelude.{◌≡◌, refl, [], ◌∷◌}
use platform_system_netd.Kernel.{World, text}
use platform_system_netd.Iptables.{
  exec_iptables, exec_if, exec_iptables_command, iptables_path, ip6tables_path,
}
use platform_system_netd.FirewallController.{
  allow, disable_firewall, enable_firewall, local_input, jump, set_egress_source_rule, has_colon,
}
use platform_system_netd.FirewallController.Chains.{after, rules_of, Drops, same_rule, erase_rule}
use platform_system_netd.FirewallController.Blocking.{
  of_source, of_user, set_rule, enabled, ruled, Enabled-Drops,
}
use platform_system_netd.Tests.Kernels.{willing, fresh}

abbrev opened : World
opened =
    set_rule willing (of_user 10005) allow
      (set_rule willing (of_source "fe80::1") allow (enable_firewall willing fresh).1)

input_of_v6 :
    rules_of ip6tables_path local_input
      (set_rule willing (of_source "fe80::1") allow (enable_firewall willing fresh).1)
    ≡ (text "-d" ∷ text "fe80::1" ∷ jump "RETURN") ∷ jump "DROP" ∷ []
unfolding after enable_firewall disable_firewall exec_iptables exec_if exec_iptables_command
    set_egress_source_rule has_colon erase_rule same_rule
input_of_v6 = refl

Enabled-Drops_example : Drops iptables_path opened × Drops ip6tables_path opened
Enabled-Drops_example =
    Enabled-Drops willing opened
      (ruled (of_user 10005) allow (ruled (of_source "fe80::1") allow (enabled fresh)))
