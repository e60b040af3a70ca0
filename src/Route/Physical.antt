-- ===== src/Route/Physical.antt =====
-- What adding an interface to a physical network leaves with the kernel, what removing it takes
-- away, and what a change of permission keeps.
use platform_system_netd.Prelude.{
  ℕ, ◌≡◌, refl, sym, subst, ap, ◌∙◌, Bool, List, [], ◌∷◌, ◌++◌, append_assoc, String,
}
use platform_system_netd.Kernel.{Kernel, Rule, Call, command, text, World}
use platform_system_netd.Kernel.Issues.{Trace, Issues, IsOk, Issues-bind, Trace-complete}
use platform_system_netd.Iptables.{
  exec_iptables, exec_iptables_command, exec_if, iptables_path, ip6tables_path,
}
use platform_system_netd.Route.Requests.{invalid_uid}
use platform_system_netd.Route.Rules.{rule_action}
use platform_system_netd.Route.Networks.{
  incoming_mark, mark_arguments, modify_incoming_packet_mark, modify_physical_network,
}
use platform_system_netd.Route.Plans.{
  explicit_network_rule, output_interface_rule, implicit_network_rule, explicit_network-Issues,
  output_interface-Issues, implicit_network-Issues,
}
use platform_system_netd.Route.Installed.{AllLast, AllLast-request_calls, request_calls}
use platform_system_netd.Route.Lookups.{table_of, looked_up, calls-looked_up, require_table-Trace}

abbrev pub mark_calls : ℕ → String → ℕ → Bool → List Call
mark_calls net_id interface permission add =
    command (text iptables_path ∷ mark_arguments interface add (incoming_mark net_id permission))
    ∷ command (text ip6tables_path ∷ mark_arguments interface add (incoming_mark net_id permission))
    ∷ []

-- The rules of an interface of a physical network.
abbrev pub physical_rules : ℕ → String → ℕ → ℕ → List Rule
physical_rules net_id interface permission table =
    explicit_network_rule net_id table permission invalid_uid invalid_uid
    ∷ output_interface_rule interface table permission invalid_uid invalid_uid
    ∷ implicit_network_rule net_id table permission
    ∷ []

abbrev pub physical_calls : ℕ → String → ℕ → Bool → ℕ → List Call
physical_calls net_id interface permission add table =
    mark_calls net_id interface permission add
    ++ request_calls (rule_action add) (physical_rules net_id interface permission table)

module _ (kernel : Kernel) where
  pub incoming_packet_mark-Issues :
      (net_id : ℕ) (interface : String) (permission : ℕ) (add : Bool)
      → Issues
          (mark_calls net_id interface permission add)
          (modify_incoming_packet_mark kernel net_id interface permission add)
  unfolding modify_incoming_packet_mark exec_iptables exec_if exec_iptables_command
  incoming_packet_mark-Issues net_id interface permission add = record {
    at = λ w. record {
      done = mark_calls net_id interface permission add;
      rest = [];
      in_order = refl;
      recorded = append_assoc w.calls _ _;
      complete = λ _. refl;
      cache = refl;
    };
  }

  pub physical_network-Trace :
      (net_id : ℕ) (interface : String) (permission : ℕ) (add : Bool) (w : World)
      → Trace
          (physical_calls net_id interface permission add (table_of kernel interface w))
          (looked_up kernel interface w)
          (modify_physical_network kernel net_id interface permission add w)
  unfolding modify_physical_network
  physical_network-Trace net_id interface permission add w =
      require_table-Trace kernel interface w (physical_calls net_id interface permission add) _
        λ table. Issues-bind _ _ (incoming_packet_mark-Issues net_id interface permission add) λ _.
          Issues-bind _ _
            (explicit_network-Issues kernel add net_id table permission invalid_uid invalid_uid)
            λ _.
              Issues-bind _ _
                (output_interface-Issues kernel add interface table permission invalid_uid
                  invalid_uid)
                λ _. implicit_network-Issues kernel add net_id table permission

  pub physical_network-calls :
      (net_id : ℕ) (interface : String) (permission : ℕ) (add : Bool) (w : World)
      → let out = modify_physical_network kernel net_id interface permission add w in
        IsOk out.0
        → out.1.calls
          ≡ w.calls ++ physical_calls net_id interface permission add (table_of kernel interface w)
  physical_network-calls net_id interface permission add w h =
      Trace-complete _ _ (physical_network-Trace net_id interface permission add w) h
      ∙ ap (λ c. c ++ physical_calls net_id interface permission add (table_of kernel interface w))
          (calls-looked_up kernel interface w)

  -- A change that returned was the last to speak of each of its rules.
  pub physical_network-AllLast :
      (net_id : ℕ) (interface : String) (permission : ℕ) (add : Bool) (w : World)
      → let out = modify_physical_network kernel net_id interface permission add w in
        IsOk out.0
        → AllLast
            (rule_action add)
            (physical_rules net_id interface permission (table_of kernel interface w))
            out.1.calls
  physical_network-AllLast net_id interface permission add w h =
      let rules = physical_rules net_id interface permission (table_of kernel interface w) in
      subst (AllLast (rule_action add) rules)
        (append_assoc w.calls (mark_calls net_id interface permission add) _
          ∙ sym (physical_network-calls net_id interface permission add w h))
        (AllLast-request_calls (rule_action add) rules _)
