-- ===== src/Route/Selecting.antt =====
-- Which marks the rules select that the rule functions send to the kernel.
use platform_system_netd.Prelude.{
  ℕ, ap, none, arith, ◌%◌, ◌^◌, ◌≡◌, ◌↔◌, refl, Bool, true, false, not, ◌&&◌, String, ◌==◌,
}
use platform_system_netd.Fwmark.{permission_system, Fwmark, IsFwmark}
use platform_system_netd.Kernel.{Kernel, Action, World, Ret, ok, Rule, ◌>>=◌}
use platform_system_netd.Route.Requests.{invalid_uid, agree, send_rule, modify_ip_rule_for_all}
use platform_system_netd.Route.Tables.{require_table}
use platform_system_netd.Route.Rules.{
  rule_action, modify_vpn_uid_range_rule, modify_vpn_system_permission_rule,
  modify_explicit_network_rule, modify_implicit_network_rule,
}
use platform_system_netd.Route.Networks.{modify_default_network}
use platform_system_netd.Route.Plans.{default_network_rule}
use platform_system_netd.Route.Sent.{rules_are_sent, modify_ip_rule-sends, net_inside}
use platform_system_netd.Route.Matching.{
  IsSelected, Holds, explicit_network_rule-selects, implicit_network_rule-selects,
  vpn_system_permission_rule-selects, default_network_rule-selects, vpn_uid_range_rule-selects,
}

-- What is asked of the kernel is one rule, for both families, and the rule selects the mark exactly
-- in this case.
pub record Selects (kernel : Kernel) (action : Action) (mark : Fwmark) (asked : Ret) (P : Type 0)
    : Type 0 where
  pub rule : Rule
  pub sent : asked ≡ send_rule kernel action rule
  pub matches : IsSelected rule mark ↔ P

-- The same of the rule of the default network, whose table is looked up first.
pub record SelectsDefault (kernel : Kernel) (action : Action) (mark : Fwmark) (w w' : World)
    (asked : Ret) (P : Type 0) : Type 0 where
  pub rule : Rule
  pub sent : asked w ≡ send_rule kernel action rule w'
  pub matches : IsSelected rule mark ↔ P

-- The cases in which the rules select a mark.
pub record Selections (kernel : Kernel) (mark : Fwmark) (net_id table permission : ℕ)
    (uid_start uid_end : ℕ) (secure add : Bool) (action : Action) (interface : String)
    (w w' : World) : Type 0 where
  pub explicit :
      Selects kernel
        (rule_action add)
        mark
        (modify_explicit_network_rule kernel net_id table permission uid_start uid_end add)
        ((mark.net_id ≡ net_id % 2 ^ 16)
          × (mark.explicitly_selected ≡ true)
          × Holds mark permission)
  pub implicit :
      Selects kernel
        (rule_action add)
        mark
        (modify_implicit_network_rule kernel net_id table permission add)
        ((mark.net_id ≡ net_id % 2 ^ 16)
          × (mark.explicitly_selected ≡ false)
          × Holds mark permission)
  pub system :
      Selects kernel
        (rule_action add)
        mark
        (modify_vpn_system_permission_rule kernel net_id table secure add)
        ((mark.net_id ≡ net_id % 2 ^ 16) × Holds mark permission_system)
  pub users :
      Selects kernel
        (rule_action add)
        mark
        (modify_vpn_uid_range_rule kernel table uid_start uid_end secure add)
        ((mark.protected_from_vpn ≡ false) × ((mark.explicitly_selected && not secure) ≡ false))
  pub default :
      SelectsDefault kernel action mark w w'
        (modify_default_network kernel action interface permission)
        ((mark.net_id ≡ 0) × Holds mark permission)

module _ (kernel : Kernel) where
  default_is_sent :
      (action : Action) (interface : String) (table permission : ℕ) (w w' : World)
      → require_table kernel interface w ≡ (ok table, w')
      → modify_default_network kernel action interface permission w
        ≡ send_rule kernel action (default_network_rule table permission) w'
  unfolding modify_default_network modify_ip_rule_for_all ◌>>=◌
  default_is_sent action interface table permission w w' found = rw found (
      ap (λ (m : Ret). m w')
        (modify_ip_rule-sends kernel action _ table _ _ none none invalid_uid invalid_uid
          (net_inside 0 permission false false refl) tt tt refl))

  module _ (mark : Fwmark) (valid : IsFwmark mark) where
    -- For a mark with fields in their ranges, a whole range of users or none, and an interface
    -- with a table: the rule functions of the explicitly selected network, of the implicitly
    -- selected one, of a VPN's users, of a VPN for the system, and of the default network each
    -- send one rule to the kernel, for both families, whose mask and value match the mark exactly
    -- if its fields have the network, the flags and at least the bits of the permission that the
    -- function was given.
    pub rules_select :
        (net_id table permission uid_start uid_end : ℕ) (secure add : Bool) (action : Action)
        (interface : String) (w w' : World)
        → agree (uid_start == invalid_uid) (uid_end == invalid_uid) ≡ true
        → require_table kernel interface w ≡ (ok table, w')
        → Selections kernel mark net_id table permission uid_start uid_end secure add action
            interface w w'
    rules_select net_id table permission uid_start uid_end secure add action interface w w' whole
          found =
        let (local, uids, in_system, chosen, output, other) =
          rules_are_sent kernel "" net_id table permission uid_start uid_end secure add
            (omega arith) whole in
        record {
          explicit = record {
            rule = _;
            sent = chosen;
            matches =
                explicit_network_rule-selects mark valid net_id table permission uid_start uid_end;
          };
          implicit = record {
            rule = _;
            sent = other;
            matches = implicit_network_rule-selects mark valid net_id table permission;
          };
          system = record {
            rule = _;
            sent = in_system;
            matches = vpn_system_permission_rule-selects mark valid net_id table secure;
          };
          users = record {
            rule = _;
            sent = uids;
            matches = vpn_uid_range_rule-selects mark valid table uid_start uid_end secure;
          };
          default = record {
            rule = default_network_rule table permission;
            sent = default_is_sent action interface table permission w w' found;
            matches = default_network_rule-selects mark valid table permission;
          };
        }
