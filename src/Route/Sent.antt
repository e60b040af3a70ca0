-- ===== src/Route/Sent.antt =====
-- The rule functions reach the kernel: the guard of `modifyIpRule` passes every mark that they
-- make, and only an interface name that is too long or half a range of users stops them.
use Prim.Native.String.{len}
use platform_system_netd.Prelude.{
  ℕ, ◌+◌, ◌≤◌, ◌%◌, ◌^◌, ◌≡◌, refl, Bool, true, false, not, ◌&&◌, Option, none, some, String, arith,
  ◌==◌,
}
use platform_system_netd.Fwmark.{int_value, permission_system}
use platform_system_netd.Kernel.{Kernel, Action, ok, lift, ◌>>=◌}
use platform_system_netd.Route.Requests.{
  invalid_uid, ifnamsiz, padded, pad_interface_name, make_rule, outside_mask, agree, send_rule,
  modify_ip_rule, modify_ip_rule_for_all,
}
use platform_system_netd.Route.Rules.{
  rule_action, modify_vpn_output_to_local_rule, modify_vpn_uid_range_rule,
  modify_vpn_system_permission_rule, modify_explicit_network_rule, modify_output_interface_rule,
  modify_implicit_network_rule,
}
use platform_system_netd.Route.Guard.{fields, within-outside_mask, net-IsWithin, any_net-IsWithin}
use platform_system_netd.Route.Plans.{
  vpn_output_to_local_rule, vpn_uid_range_rule, vpn_system_permission_rule, explicit_network_rule,
  output_interface_rule, implicit_network_rule,
}

-- The name and its terminator fit IFNAMSIZ bytes.
abbrev pub Fits : Option String → Type 0
Fits none = Unit
Fits (some s) = len s + 1 ≤ ifnamsiz

pad_interface_name-Fits : (s : Option String) → Fits s → pad_interface_name s ≡ ok (padded s)
unfolding pad_interface_name
pad_interface_name-Fits none h = refl
pad_interface_name-Fits (some s) h = ground arith

pub net_inside :
    (n p : ℕ) (e e' : Bool)
    → (e && not e') ≡ false
    → outside_mask (int_value (fields (n % 2 ^ 16) e false p)) (int_value (fields 65535 e' false p))
      ≡ false
net_inside n p e e' h = within-outside_mask _ _ (net-IsWithin p e e' false false h refl n)

any_net_inside :
    (p : ℕ) (e' s' : Bool)
    → outside_mask (int_value (fields 0 false false p)) (int_value (fields 0 e' s' p)) ≡ false
any_net_inside p e' s' = within-outside_mask _ _ (any_net-IsWithin p false e' false s' refl refl)

module _ (kernel : Kernel) where
  pub modify_ip_rule-sends :
      (action : Action) (priority table fwmark mask : ℕ) (iif oif : Option String)
      (uid_start uid_end : ℕ)
      → outside_mask fwmark mask ≡ false
      → Fits iif
      → Fits oif
      → agree (uid_start == invalid_uid) (uid_end == invalid_uid) ≡ true
      → modify_ip_rule kernel action priority table fwmark mask iif oif uid_start uid_end
        ≡ send_rule kernel action
            (make_rule priority table fwmark mask (padded iif) (padded oif) uid_start uid_end)
  unfolding modify_ip_rule ◌>>=◌ lift
  modify_ip_rule-sends action priority table fwmark mask iif oif uid_start uid_end inside hi ho
        both =
      rw (inside, pad_interface_name-Fits iif hi, pad_interface_name-Fits oif ho, both)

  uid_range_is_sent :
      (table uid_start uid_end : ℕ) (secure add : Bool)
      → agree (uid_start == invalid_uid) (uid_end == invalid_uid) ≡ true
      → modify_vpn_uid_range_rule kernel table uid_start uid_end secure add
        ≡ send_rule kernel (rule_action add) (vpn_uid_range_rule table uid_start uid_end secure)
  unfolding modify_vpn_uid_range_rule
  uid_range_is_sent table uid_start uid_end true add whole =
      modify_ip_rule-sends _ _ _ _ _ _ _ _ _ (any_net_inside 0 false true) tt tt whole
  uid_range_is_sent table uid_start uid_end false add whole =
      modify_ip_rule-sends _ _ _ _ _ _ _ _ _ (any_net_inside 0 true true) tt tt whole

  -- Whatever the network, permission, table and action: each of six rule functions, with a name
  -- that fits and a whole range of users or none, is the request of its rule to the kernel, for
  -- both families.
  pub rules_are_sent :
      (interface : String) (net_id table permission uid_start uid_end : ℕ) (secure add : Bool)
      → Fits (some interface)
      → agree (uid_start == invalid_uid) (uid_end == invalid_uid) ≡ true
      → (modify_vpn_output_to_local_rule kernel interface add
          ≡ send_rule kernel (rule_action add) (vpn_output_to_local_rule interface))
        × (modify_vpn_uid_range_rule kernel table uid_start uid_end secure add
            ≡ send_rule kernel
                (rule_action add)
                (vpn_uid_range_rule table uid_start uid_end secure))
        × (modify_vpn_system_permission_rule kernel net_id table secure add
            ≡ send_rule kernel (rule_action add) (vpn_system_permission_rule net_id table secure))
        × (modify_explicit_network_rule kernel net_id table permission uid_start uid_end add
            ≡ send_rule kernel
                (rule_action add)
                (explicit_network_rule net_id table permission uid_start uid_end))
        × (modify_output_interface_rule kernel interface table permission uid_start uid_end add
            ≡ send_rule kernel
                (rule_action add)
                (output_interface_rule interface table permission uid_start uid_end))
        × (modify_implicit_network_rule kernel net_id table permission add
            ≡ send_rule kernel (rule_action add) (implicit_network_rule net_id table permission))
  unfolding modify_vpn_output_to_local_rule modify_vpn_uid_range_rule
      modify_vpn_system_permission_rule modify_explicit_network_rule modify_output_interface_rule
      modify_implicit_network_rule modify_ip_rule_for_all outside_mask
  rules_are_sent interface net_id table permission uid_start uid_end secure add fits whole = (
    modify_ip_rule-sends _ _ _ _ _ _ _ _ _ refl fits tt refl,
    uid_range_is_sent table uid_start uid_end secure add whole,
    modify_ip_rule-sends _ _ _ _ _ _ _ _ _ (net_inside net_id permission_system false false refl) tt
        tt refl,
    modify_ip_rule-sends _ _ _ _ _ _ _ _ _ (net_inside net_id permission true true refl) tt tt
        whole,
    modify_ip_rule-sends _ _ _ _ _ _ _ _ _ (any_net_inside permission false false) tt fits whole,
    modify_ip_rule-sends _ _ _ _ _ _ _ _ _ (net_inside net_id permission false true refl) tt tt
        refl,
  )
