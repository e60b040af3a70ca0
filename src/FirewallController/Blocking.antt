-- ===== src/FirewallController/Blocking.antt =====
-- The chains of the firewall end with a rule that drops, whatever rules are set.
use platform_system_netd.Prelude.{
  ℕ, ◌≡◌, refl, sym, ap, subst, true, false, not, ◌&&◌, List, [], ◌∷◌, ◌++◌, String, str_eq,
  if_cases, arith,
}
use platform_system_netd.Kernel.{Kernel, World, Result, command, text}
use platform_system_netd.Iptables.{
  IptablesTarget, v4v6, exec_iptables, exec_if, exec_iptables_command, iptables_path,
  ip6tables_path,
}
use platform_system_netd.Prefix.{is_iface_name}
use platform_system_netd.FirewallController.{
  FirewallRule, allow, deny, local_input, local_output, local_forward, op_of, target_of, in_chain,
  jump, disable_firewall, enable_firewall, in_both, set_interface_rule, set_egress_source_rule,
  set_egress_dest_rule, set_uid_rule,
}
use platform_system_netd.FirewallController.Chains.{
  Rule, same_rule, erase_rule, edit, step, rules_of, EndsWith, Drops, exec_keeps, after-snoc,
}

module _ (d : Rule) where
  cons-EndsWith : (r : Rule) (rules : List Rule) → EndsWith d rules → EndsWith d (r ∷ rules)
  cons-EndsWith r rules (before, e) = (r ∷ before, ap (λ (q : List Rule). r ∷ q) e)

  erase-last :
      (r : Rule) (before : List Rule)
      → same_rule r d ≡ false
      → EndsWith d (erase_rule r (before ++ d ∷ []))
  unfolding erase_rule
  erase-last r [] h = rw h ([], refl)
  erase-last r (q ∷ before) h =
      if_cases (EndsWith d) (same_rule r q) (λ _. (before, refl))
        (λ _. cons-EndsWith q _ (erase-last r before h))

  edit-EndsWith :
      (rule : FirewallRule) (r : Rule) (rules : List Rule)
      → same_rule r d ≡ false
      → EndsWith d rules
      → EndsWith d (edit (op_of rule) r rules)
  edit-EndsWith allow r rules h e = cons-EndsWith r rules e
  edit-EndsWith deny r rules h (before, e) =
      subst (λ (q : List Rule). EndsWith d (erase_rule r q)) (sym e) (erase-last r before h)

  step-EndsWith :
      (path chain c p : String) (rule : FirewallRule) (r : Rule) (rules : List Rule)
      → same_rule r d ≡ false
      → EndsWith d rules
      → EndsWith d (step path chain (command (text p ∷ in_chain (op_of rule) c r)) rules)
  step-EndsWith path chain c p rule r rules h e =
      if_cases (EndsWith d) (str_eq p path && str_eq c chain) (λ _. edit-EndsWith rule r rules h e)
        (λ _. e)

  -- A rule that is appended to another chain.
  append-EndsWith :
      (path chain c p : String) (r : Rule) (rules : List Rule)
      → str_eq c chain ≡ false
      → EndsWith d rules
      → EndsWith d (step path chain (command (text p ∷ in_chain "-A" c r)) rules)
  append-EndsWith path chain c p r rules h e =
      if_cases (EndsWith d) (str_eq p path && str_eq c chain) (λ b. absurd (ground arith)) (λ _. e)

  module _ (kernel : Kernel) (path chain : String) where
    both-EndsWith :
        (target : IptablesTarget) (rule : FirewallRule) (in_spec out_spec : Rule) (w : World)
        → same_rule in_spec d ≡ false
        → same_rule out_spec d ≡ false
        → EndsWith d (rules_of path chain w)
        → EndsWith d (rules_of path chain (in_both kernel target rule in_spec out_spec w).1)
    both-EndsWith target rule in_spec out_spec w h k e =
        exec_keeps path chain kernel (EndsWith d) (in_chain (op_of rule) local_output out_spec)
          (λ p rules. step-EndsWith path chain local_output p rule out_spec rules k) target
          (exec_iptables kernel target (in_chain (op_of rule) local_input in_spec) w).1
          (exec_keeps path chain kernel (EndsWith d) (in_chain (op_of rule) local_input in_spec)
            (λ p rules. step-EndsWith path chain local_input p rule in_spec rules h) target w e)

    append_keeps :
        (c : String) (r : Rule) (w : World)
        → str_eq c chain ≡ false
        → EndsWith d (rules_of path chain w)
        → EndsWith d (rules_of path chain (exec_iptables kernel v4v6 (in_chain "-A" c r) w).1)
    append_keeps c r w h e =
        exec_keeps path chain kernel (EndsWith d) (in_chain "-A" c r)
          (λ p rules. append-EndsWith path chain c p r rules h) v4v6 w e

-- An append of the rule itself, whichever of the two programs.
module _ (kernel : Kernel) (d : Rule) (chain : String) (w : World)
    (here : str_eq chain chain ≡ true) where
  append4-EndsWith :
      EndsWith d
        (rules_of iptables_path chain (exec_iptables kernel v4v6 (in_chain "-A" chain d) w).1)
  unfolding exec_iptables exec_if exec_iptables_command
  append4-EndsWith = (rules_of iptables_path chain w, rw (after-snoc, after-snoc, here) refl)

  append6-EndsWith :
      EndsWith d
        (rules_of ip6tables_path chain (exec_iptables kernel v4v6 (in_chain "-A" chain d) w).1)
  unfolding exec_iptables exec_if exec_iptables_command
  append6-EndsWith = (rules_of ip6tables_path chain w, rw (after-snoc, after-snoc, here) refl)

-- A rule to set, as a method of the controller.
pub data Setting : Type 0 where
  of_interface of_source : String → Setting
  of_dest : String → ℕ → ℕ → Setting
  of_user : ℕ → Setting

module _ (kernel : Kernel) where
  abbrev pub set_rule : Setting → FirewallRule → World → World
  set_rule (of_interface iface) rule w = (set_interface_rule kernel iface rule w).1
  set_rule (of_source addr) rule w = (set_egress_source_rule kernel addr rule w).1
  set_rule (of_dest addr protocol port) rule w =
      (set_egress_dest_rule kernel addr protocol port rule w).1
  set_rule (of_user uid) rule w = (set_uid_rule kernel uid rule w).1

  -- After the firewall was enabled, and rules were set.
  pub data Enabled : World → Type 0 where
    enabled : (w : World) → Enabled (enable_firewall kernel w).1
    ruled :
        (setting : Setting) (rule : FirewallRule) {w : World}
        → Enabled w
        → Enabled (set_rule setting rule w)

  enable-Drops :
      (path : String)
      → ((d : Rule) (chain : String) (w : World)
          → str_eq chain chain ≡ true
          → EndsWith d
              (rules_of path chain (exec_iptables kernel v4v6 (in_chain "-A" chain d) w).1))
      → (w : World) → Drops path (enable_firewall kernel w).1
  unfolding enable_firewall
  enable-Drops path append w =
      let drop = jump "DROP" in
      let reject = jump "REJECT" in
      let w₁ = (disable_firewall kernel w).1 in
      let w₂ = (exec_iptables kernel v4v6 (in_chain "-A" local_input drop) w₁).1 in
      let w₃ = (exec_iptables kernel v4v6 (in_chain "-A" local_output reject) w₂).1 in
      record {
        input = append_keeps drop kernel path local_input local_forward reject w₃ refl (
            append_keeps drop kernel path local_input local_output reject w₂ refl
              (append drop local_input w₁ refl));
        output =
            append_keeps reject kernel path local_output local_forward reject w₃ refl
              (append reject local_output w₂ refl);
        forward = append reject local_forward w₃ refl;
      }

  both-Drops :
      (path : String) (target : IptablesTarget) (rule : FirewallRule) (in_spec out_spec : Rule)
      (w : World)
      → ((to : String)
          → (same_rule in_spec (jump to) ≡ false) × (same_rule out_spec (jump to) ≡ false))
      → Drops path w
      → Drops path (in_both kernel target rule in_spec out_spec w).1
  both-Drops path target rule in_spec out_spec w differ h = record {
    input =
        both-EndsWith (jump "DROP") kernel path local_input target rule in_spec out_spec w
          (differ "DROP").0 (differ "DROP").1 h.input;
    output =
        both-EndsWith (jump "REJECT") kernel path local_output target rule in_spec out_spec w
          (differ "REJECT").0 (differ "REJECT").1 h.output;
    forward =
        both-EndsWith (jump "REJECT") kernel path local_forward target rule in_spec out_spec w
          (differ "REJECT").0 (differ "REJECT").1 h.forward;
  }

  set_rule-Drops :
      (path : String) (setting : Setting) (rule : FirewallRule) (w : World)
      → Drops path w
      → Drops path (set_rule setting rule w)
  unfolding set_interface_rule set_egress_source_rule set_egress_dest_rule set_uid_rule same_rule
  set_rule-Drops path (of_interface iface) rule w h =
      if_cases (λ (out : Result ℕ × World). Drops path out.1) (not (is_iface_name iface)) (λ _. h)
        (λ _. both-Drops path v4v6 rule _ _ w (λ to. (refl, refl)) h)
  set_rule-Drops path (of_source addr) rule w h =
      both-Drops path (target_of addr) rule _ _ w (λ to. (refl, refl)) h
  set_rule-Drops path (of_dest addr protocol port) rule w h =
      both-Drops path (target_of addr) rule _ _ w (λ to. (refl, refl)) h
  set_rule-Drops path (of_user uid) rule w h =
      both-Drops path v4v6 rule _ _ w (λ to. (refl, refl)) h

  -- After the firewall was enabled, and any rules for interfaces, addresses, ports and users were
  -- then allowed and denied: if the commands so far worked, then for both families the input chain
  -- ends with the rule that drops, and the output and the forward chain end with the rule that
  -- rejects.
  pub Enabled-Drops : (w : World) → Enabled w → Drops iptables_path w × Drops ip6tables_path w
  Enabled-Drops w (enabled w₀) = (
    enable-Drops iptables_path (append4-EndsWith kernel) w₀,
    enable-Drops ip6tables_path (append6-EndsWith kernel) w₀,
  )
  Enabled-Drops w (ruled setting rule {w = w₀} h) =
      let (h₄, h₆) = Enabled-Drops w₀ h in
      (
        set_rule-Drops iptables_path setting rule w₀ h₄,
        set_rule-Drops ip6tables_path setting rule w₀ h₆,
      )
