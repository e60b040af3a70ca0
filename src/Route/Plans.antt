-- ===== src/Route/Plans.antt =====
-- What each rule function asks of the kernel.
use platform_system_netd.Prelude.{
  ℕ, ◌≡◌, refl, Bool, true, false, not, Option, none, some, List, [], ◌∷◌, String, arith,
  if◌then◌else◌, ◌==◌, ◌%◌, ◌^◌,
}
use platform_system_netd.Fwmark.{int_value, permission_system, fwmark_net_id_mask}
use platform_system_netd.Kernel.{Kernel, Action, inet, inet6, Rule, Padded, Call, ip_rule, ok}
use platform_system_netd.Kernel.Errno.{erange, eusers}
use platform_system_netd.Kernel.Issues.{Issues, Issues-raise, Issues-if, Issues-bind, Issues-lift}
use platform_system_netd.Route.Requests.{
  invalid_uid, padded, no_name, pad_interface_name, make_rule, outside_mask, send_netlink_request,
  send_rule, modify_ip_rule, modify_ip_rule_for_all, agree,
}
use platform_system_netd.Route.Tables.{table_local_network}
use platform_system_netd.Route.Rules.{
  rule_action, modify_vpn_output_to_local_rule, modify_vpn_uid_range_rule,
  modify_vpn_system_permission_rule, modify_explicit_network_rule, modify_output_interface_rule,
  modify_implicit_network_rule,
}
use platform_system_netd.Route.Guard.{fields}
use platform_system_netd.Route.Priority

abbrev pub rule_calls : Action → Rule → List Call
rule_calls action rule = ip_rule action inet rule ∷ ip_rule action inet6 rule ∷ []

pad_interface_name-padded :
    (s : Option String) (p : Padded) → pad_interface_name s ≡ ok p → p ≡ padded s
unfolding pad_interface_name
pad_interface_name-padded none p h = ground arith
pad_interface_name-padded (some s) p h = ground arith

module _ (kernel : Kernel) where
  send_netlink_request-Issues : (c : Call) → Issues (c ∷ []) (send_netlink_request kernel c)
  unfolding send_netlink_request
  send_netlink_request-Issues c = record {
    at = λ w. record {
      done = c ∷ [];
      rest = [];
      in_order = refl;
      recorded = refl;
      complete = λ _. refl;
      cache = refl;
    };
  }

  send_rule-Issues :
      (action : Action) (rule : Rule)
      → Issues (rule_calls action rule) (send_rule kernel action rule)
  unfolding send_rule
  send_rule-Issues action rule =
      Issues-bind _ _ (send_netlink_request-Issues (ip_rule action inet rule))
        (λ _. send_netlink_request-Issues (ip_rule action inet6 rule))

  pub modify_ip_rule-Issues :
      (action : Action) (priority table fwmark mask : ℕ) (iif oif : Option String)
      (uid_start uid_end : ℕ)
      → Issues
          (rule_calls action
            (make_rule priority table fwmark mask (padded iif) (padded oif) uid_start uid_end))
          (modify_ip_rule kernel action priority table fwmark mask iif oif uid_start uid_end)
  unfolding modify_ip_rule
  modify_ip_rule-Issues action priority table fwmark mask iif oif uid_start uid_end =
      Issues-if (outside_mask fwmark mask) _ _ (Issues-raise _ erange) (
        Issues-lift (pad_interface_name iif) _ λ p hp.
          Issues-lift (pad_interface_name oif) _ λ q hq.
            Issues-if (agree (uid_start == invalid_uid) (uid_end == invalid_uid)) _ _
              (rw (pad_interface_name-padded iif p hp, pad_interface_name-padded oif q hq)
                (send_rule-Issues action _))
              (Issues-raise _ eusers))

-- The rules, with the mark and the mask written out field by field.
abbrev pub vpn_output_to_local_rule : String → Rule
vpn_output_to_local_rule interface =
    make_rule Priority.vpn_output_to_local table_local_network 0 0 (padded (some interface)) no_name
      invalid_uid invalid_uid

abbrev pub vpn_uid_range_rule : ℕ → ℕ → ℕ → Bool → Rule
vpn_uid_range_rule table uid_start uid_end secure =
    make_rule (if secure then Priority.secure_vpn else Priority.bypassable_vpn) table
      (int_value (fields 0 false false 0)) (int_value (fields 0 (not secure) true 0)) no_name
      no_name uid_start uid_end

abbrev pub vpn_system_permission_rule : ℕ → ℕ → Bool → Rule
vpn_system_permission_rule net_id table secure =
    make_rule (if secure then Priority.secure_vpn else Priority.bypassable_vpn) table
      (int_value (fields (net_id % 2 ^ 16) false false permission_system))
      (int_value (fields fwmark_net_id_mask false false permission_system)) no_name no_name
      invalid_uid invalid_uid

abbrev pub explicit_network_rule : ℕ → ℕ → ℕ → ℕ → ℕ → Rule
explicit_network_rule net_id table permission uid_start uid_end =
    make_rule Priority.explicit_network table
      (int_value (fields (net_id % 2 ^ 16) true false permission))
      (int_value (fields fwmark_net_id_mask true false permission)) no_name no_name uid_start
      uid_end

abbrev pub output_interface_rule : String → ℕ → ℕ → ℕ → ℕ → Rule
output_interface_rule interface table permission uid_start uid_end =
    make_rule Priority.output_interface table (int_value (fields 0 false false permission))
      (int_value (fields 0 false false permission)) no_name (padded (some interface)) uid_start
      uid_end

abbrev pub implicit_network_rule : ℕ → ℕ → ℕ → Rule
implicit_network_rule net_id table permission =
    make_rule Priority.implicit_network table
      (int_value (fields (net_id % 2 ^ 16) false false permission))
      (int_value (fields fwmark_net_id_mask true false permission)) no_name no_name invalid_uid
      invalid_uid

abbrev pub vpn_fallthrough_rule : ℕ → ℕ → ℕ → Rule
vpn_fallthrough_rule vpn_net_id table permission =
    make_rule Priority.vpn_fallthrough table
      (int_value (fields (vpn_net_id % 2 ^ 16) false false permission))
      (int_value (fields fwmark_net_id_mask true false permission)) no_name no_name invalid_uid
      invalid_uid

abbrev pub default_network_rule : ℕ → ℕ → Rule
default_network_rule table permission =
    make_rule Priority.default_network table (int_value (fields 0 false false permission))
      (int_value (fields fwmark_net_id_mask false false permission)) no_name no_name invalid_uid
      invalid_uid

module _ (kernel : Kernel) (add : Bool) where
  pub vpn_output_to_local-Issues :
      (interface : String)
      → Issues
          (rule_calls (rule_action add) (vpn_output_to_local_rule interface))
          (modify_vpn_output_to_local_rule kernel interface add)
  unfolding modify_vpn_output_to_local_rule
  vpn_output_to_local-Issues interface = modify_ip_rule-Issues kernel _ _ _ _ _ _ _ _ _

  pub vpn_uid_range-Issues :
      (table uid_start uid_end : ℕ) (secure : Bool)
      → Issues
          (rule_calls (rule_action add) (vpn_uid_range_rule table uid_start uid_end secure))
          (modify_vpn_uid_range_rule kernel table uid_start uid_end secure add)
  unfolding modify_vpn_uid_range_rule
  vpn_uid_range-Issues table uid_start uid_end true = modify_ip_rule-Issues kernel _ _ _ _ _ _ _ _ _
  vpn_uid_range-Issues table uid_start uid_end false =
      modify_ip_rule-Issues kernel _ _ _ _ _ _ _ _ _

  pub vpn_system_permission-Issues :
      (net_id table : ℕ) (secure : Bool)
      → Issues
          (rule_calls (rule_action add) (vpn_system_permission_rule net_id table secure))
          (modify_vpn_system_permission_rule kernel net_id table secure add)
  unfolding modify_vpn_system_permission_rule modify_ip_rule_for_all
  vpn_system_permission-Issues net_id table secure = modify_ip_rule-Issues kernel _ _ _ _ _ _ _ _ _

  pub explicit_network-Issues :
      (net_id table permission uid_start uid_end : ℕ)
      → Issues
          (rule_calls
            (rule_action add)
            (explicit_network_rule net_id table permission uid_start uid_end))
          (modify_explicit_network_rule kernel net_id table permission uid_start uid_end add)
  unfolding modify_explicit_network_rule
  explicit_network-Issues net_id table permission uid_start uid_end =
      modify_ip_rule-Issues kernel _ _ _ _ _ _ _ _ _

  pub output_interface-Issues :
      (interface : String) (table permission uid_start uid_end : ℕ)
      → Issues
          (rule_calls
            (rule_action add)
            (output_interface_rule interface table permission uid_start uid_end))
          (modify_output_interface_rule kernel interface table permission uid_start uid_end add)
  unfolding modify_output_interface_rule
  output_interface-Issues interface table permission uid_start uid_end =
      modify_ip_rule-Issues kernel _ _ _ _ _ _ _ _ _

  pub implicit_network-Issues :
      (net_id table permission : ℕ)
      → Issues
          (rule_calls (rule_action add) (implicit_network_rule net_id table permission))
          (modify_implicit_network_rule kernel net_id table permission add)
  unfolding modify_implicit_network_rule modify_ip_rule_for_all
  implicit_network-Issues net_id table permission = modify_ip_rule-Issues kernel _ _ _ _ _ _ _ _ _
