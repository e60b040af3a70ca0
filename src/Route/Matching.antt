-- ===== src/Route/Matching.antt =====
-- Which marks a rule selects, when the kernel compares the bits of the mask: the reading that the
-- comments over the rule functions give.
use platform_system_netd.Prelude.{
  ℕ, ◌%◌, ◌^◌, ◌≡◌, ◌↔◌, refl, sym, ap, ◌∙◌, Bool, true, false, not, ◌&&◌, Option, none, some,
  bit_and, arith, ◌==◌, ◌<◌,
}
use platform_system_netd.Fwmark.{permission_system, Fwmark, int_value, IsFwmark}
use platform_system_netd.Fwmark.Bits.{bit_and-zero, bit_and_ones}
use platform_system_netd.Fwmark.Masks.{
  and_fields, bit_and-int_value, int_value_inj, and_fields-IsFwmark,
}
use platform_system_netd.Kernel.{Rule}
use platform_system_netd.Route.Requests.{make_rule}
use platform_system_netd.Route.Guard.{fields}
use platform_system_netd.Route.Plans.{
  explicit_network_rule, implicit_network_rule, default_network_rule, vpn_system_permission_rule,
  vpn_uid_range_rule,
}

abbrev IsSelectedBy : Option (ℕ × ℕ) → Fwmark → Type 0
IsSelectedBy none mark = Unit
IsSelectedBy (some (fwmark, mask)) mark = bit_and (int_value mark) mask ≡ fwmark

-- A rule without a mask selects every mark.
abbrev pub IsSelected : Rule → Fwmark → Type 0
IsSelected rule mark = IsSelectedBy rule.selector mark

-- The permission bits that a rule asks for are all in the mark.
abbrev pub Holds : Fwmark → ℕ → Type 0
Holds mark permission = bit_and mark.permission (permission % 4) ≡ permission % 4

module _ (mark : Fwmark) (valid : IsFwmark mark) (n k : ℕ) (e e' s s' : Bool) (p : ℕ)
    (n_fits : n < 2 ^ 16) (k_fits : k < 2 ^ 16) where
  abbrev wanted : Fwmark
  wanted = fields n e s p

  abbrev mask : Fwmark
  mask = fields k e' s' p

  abbrev FieldsAgree : Type 0
  FieldsAgree =
      (bit_and mark.net_id k ≡ n)
      × ((mark.explicitly_selected && e') ≡ e)
      × ((mark.protected_from_vpn && s') ≡ s)
      × Holds mark p

  masked : bit_and (int_value mark) (int_value mask) ≡ int_value (and_fields mark mask)
  masked = bit_and-int_value mark mask valid (omega arith)

  agreeing : FieldsAgree → int_value (and_fields mark mask) ≡ int_value wanted
  unfolding int_value
  agreeing h = ground (arith, bit_and-zero 12 mark.padding)

  selected_iff : (bit_and (int_value mark) (int_value mask) ≡ int_value wanted) ↔ FieldsAgree
  selected_iff = (forward, λ h. masked ∙ agreeing h)
    where
      forward : bit_and (int_value mark) (int_value mask) ≡ int_value wanted → FieldsAgree
      forward h =
          let same : and_fields mark mask ≡ wanted =
            int_value_inj (and_fields mark mask) wanted (and_fields-IsFwmark mark mask valid)
              (omega arith) (sym masked ∙ h) in
          (
            ap (λ (f : Fwmark). f.net_id) same,
            ap (λ (f : Fwmark). f.explicitly_selected) same,
            ap (λ (f : Fwmark). f.protected_from_vpn) same,
            ap (λ (f : Fwmark). f.permission) same,
          )

-- The mask of a rule about a network is not zero, so the rule has a selector.
net_mask-ne-zero : (e s : Bool) (p : ℕ) → (int_value (fields 65535 e s p) == 0) ≡ false
unfolding int_value
net_mask-ne-zero e s p = ground arith

any_mask-ne-zero : (e : Bool) → (int_value (fields 0 e true 0) == 0) ≡ false
unfolding int_value
any_mask-ne-zero e = ground arith

and-true : (b : Bool) → (b && true) ≡ b
and-true true = refl
and-true false = refl

and-false : (b : Bool) → (b && false) ≡ false
and-false true = refl
and-false false = refl

module _ (mark : Fwmark) (valid : IsFwmark mark) where
  whole_net_id : bit_and mark.net_id 65535 ≡ mark.net_id
  whole_net_id = bit_and_ones 16 mark.net_id valid.net_id

  no_net_id : bit_and mark.net_id 0 ≡ 0
  no_net_id = bit_and-zero 16 mark.net_id valid.net_id

  no_permission : Holds mark 0
  no_permission = bit_and-zero 2 mark.permission valid.permission

  -- A mask over the net id, perhaps the explicit flag, and a permission.
  net_selected_iff :
      (n : ℕ) (e e' : Bool) (p : ℕ)
      → n < 2 ^ 16
      → (bit_and (int_value mark) (int_value (fields 65535 e' false p))
          ≡ int_value (fields n e false p))
        ↔ ((mark.net_id ≡ n) × ((mark.explicitly_selected && e') ≡ e) × Holds mark p)
  net_selected_iff n e e' p fits = (
    (λ h. let a = both.0 h in (sym whole_net_id ∙ a.0, a.1, a.3)),
    (λ h. both.1 (whole_net_id ∙ h.0, h.1, and-false _, h.2)),
  )
    where
      both :
          (bit_and (int_value mark) (int_value (fields 65535 e' false p))
            ≡ int_value (fields n e false p))
          ↔ FieldsAgree mark valid n 65535 e e' false false p fits (omega arith)
      both = selected_iff mark valid n 65535 e e' false false p fits (omega arith)

  -- For a mark with fields in their ranges: the rule for an explicitly chosen network selects it
  -- exactly when it has the network's id, was set explicitly, and holds the network's permission.
  pub explicit_network_rule-selects :
      (net_id table permission uid_start uid_end : ℕ)
      → IsSelected (explicit_network_rule net_id table permission uid_start uid_end) mark ↔ (
          (mark.net_id ≡ net_id % 2 ^ 16)
          × (mark.explicitly_selected ≡ true)
          × Holds mark permission)
  unfolding make_rule
  explicit_network_rule-selects net_id table permission uid_start uid_end =
      let both = net_selected_iff (net_id % 2 ^ 16) true true permission (omega arith) in
      rw (net_mask-ne-zero true false permission) (
        (λ h. let a = both.0 h in (a.0, sym (and-true _) ∙ a.1, a.2)),
        (λ h. both.1 (h.0, and-true _ ∙ h.1, h.2)),
      )

  -- For a mark with fields in their ranges: the rule for sockets that a network was chosen for
  -- selects it exactly when it has the network's id, was not set explicitly, and holds the
  -- network's permission.
  pub implicit_network_rule-selects :
      (net_id table permission : ℕ)
      → IsSelected (implicit_network_rule net_id table permission) mark ↔ (
          (mark.net_id ≡ net_id % 2 ^ 16)
          × (mark.explicitly_selected ≡ false)
          × Holds mark permission)
  unfolding make_rule
  implicit_network_rule-selects net_id table permission =
      let both = net_selected_iff (net_id % 2 ^ 16) false true permission (omega arith) in
      rw (net_mask-ne-zero true false permission) (
        (λ h. let a = both.0 h in (a.0, sym (and-true _) ∙ a.1, a.2)),
        (λ h. both.1 (h.0, and-true _ ∙ h.1, h.2)),
      )

  -- For a mark with fields in their ranges: the rule that lets the system into a VPN selects it
  -- exactly when it has the VPN's id and the permission of the system.
  pub vpn_system_permission_rule-selects :
      (net_id table : ℕ) (secure : Bool)
      → IsSelected (vpn_system_permission_rule net_id table secure) mark
        ↔ ((mark.net_id ≡ net_id % 2 ^ 16) × Holds mark permission_system)
  unfolding make_rule
  vpn_system_permission_rule-selects net_id table secure =
      let both = net_selected_iff (net_id % 2 ^ 16) false false permission_system (omega arith) in
      rw (net_mask-ne-zero false false permission_system)
        ((λ h. ((both.0 h).0, (both.0 h).2)), (λ h. both.1 (h.0, and-false _, h.1)))

  -- For a mark with fields in their ranges: the rule of the default network selects it exactly
  -- when it has no network's id and holds the network's permission.
  pub default_network_rule-selects :
      (table permission : ℕ)
      → IsSelected (default_network_rule table permission) mark
        ↔ ((mark.net_id ≡ 0) × Holds mark permission)
  unfolding make_rule
  default_network_rule-selects table permission =
      let both = net_selected_iff 0 false false permission (omega arith) in
      rw (net_mask-ne-zero false false permission)
        ((λ h. ((both.0 h).0, (both.0 h).2)), (λ h. both.1 (h.0, and-false _, h.1)))

  -- For a mark with fields in their ranges: the rule that catches a VPN's users leaves out the
  -- marks that are protected from VPNs and, for a bypassable VPN, those whose network was chosen
  -- explicitly. No other bit matters.
  pub vpn_uid_range_rule-selects :
      (table uid_start uid_end : ℕ) (secure : Bool)
      → IsSelected (vpn_uid_range_rule table uid_start uid_end secure) mark
        ↔ ((mark.protected_from_vpn ≡ false) × ((mark.explicitly_selected && not secure) ≡ false))
  unfolding make_rule
  vpn_uid_range_rule-selects table uid_start uid_end true =
      let both = selected_iff mark valid 0 0 false false false true 0 (omega arith) (omega arith) in
      rw (any_mask-ne-zero false) (
        (λ h. let a = both.0 h in (sym (and-true _) ∙ a.2, and-false _)),
        (λ h. both.1 (no_net_id, and-false _, and-true _ ∙ h.0, no_permission)),
      )
  vpn_uid_range_rule-selects table uid_start uid_end false =
      let both = selected_iff mark valid 0 0 false true false true 0 (omega arith) (omega arith) in
      rw (any_mask-ne-zero true) (
        (λ h. let a = both.0 h in (sym (and-true _) ∙ a.2, a.1)),
        (λ h. both.1 (no_net_id, h.1, and-true _ ∙ h.0, no_permission)),
      )
