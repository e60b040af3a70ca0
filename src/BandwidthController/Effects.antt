-- ===== src/BandwidthController/Effects.antt =====
-- What setting the quota of an interface leaves in the lists.
use platform_system_netd.Prelude.{
  ℕ, ◌≡◌, refl, ◌∙◌, ap, Bool, true, false, not, ◌&&◌, Option, none, some, List, [], ◌∷◌, String,
  arith, str_eq, str_eq_iff, ◌==◌, if◌then◌else◌, Bool-cases, if_cases, inl, inr,
}
use platform_system_netd.Containers.{string_key, number_key, contains, erase_first}
use platform_system_netd.Containers.Distinct.{IsDistinct, contains-erase_first}
use platform_system_netd.Kernel.{Kernel, World}
use platform_system_netd.Prefix.{is_iface_name}
use platform_system_netd.BandwidthController.{Bandwidth, QuotaInfo, find_quota, update_quota_info}
use platform_system_netd.BandwidthController.Commands.{
  shared, unique, append, reject, make_iptables_quota_cmd,
}
use platform_system_netd.BandwidthController.Running.{also}
use platform_system_netd.BandwidthController.Alerts.{
  update_quota, remove_shared_alert, remove_costly_alert,
}
use platform_system_netd.BandwidthController.Quotas
use platform_system_netd.BandwidthController.Lists.{IsValid}

abbrev amount : Option QuotaInfo → Option ℕ
amount none = none
amount (some q) = some q.quota

-- The quota of an interface.
abbrev pub quota_of : String → Bandwidth → Option ℕ
quota_of name b = amount (find_quota name b.quota_ifaces)

is_short : (iface : String) → is_iface_name iface ≡ true → Quotas.is_too_long iface ≡ false
unfolding is_iface_name
is_short iface h = ground arith

quota-push :
    (iface name : String) (max_bytes : ℕ) (quotas : List QuotaInfo)
    → amount
        (find_quota name (record { iface_name = iface; quota = max_bytes; alert = 0 } ∷ quotas))
      ≡ (if str_eq iface name then some max_bytes else amount (find_quota name quotas))
unfolding find_quota
quota-push iface name max_bytes quotas = ground arith

quota-update :
    (iface name : String) (max_bytes : ℕ) (quotas : List QuotaInfo)
    → Quotas.is_none (find_quota iface quotas) ≡ false
    → amount
        (find_quota name (update_quota_info iface (λ q. record q { quota = max_bytes }) quotas))
      ≡ (if str_eq iface name then some max_bytes else amount (find_quota name quotas))
unfolding find_quota update_quota_info
quota-update iface name max_bytes [] h = cc
quota-update iface name max_bytes (q ∷ quotas) h = ground (
  arith,
  str_eq_iff iface name,
  str_eq_iff q.iface_name name,
  str_eq_iff q.iface_name iface,
  quota-update iface name max_bytes quotas,
)

module _ (kernel : Kernel) where
  end-keeps :
      (res : Bool) (b : Bandwidth) (w : World)
      → ((Quotas.end_shared_quota kernel res (b, w)).1.0.shared_quota_ifaces
          ≡ b.shared_quota_ifaces)
        × ((Quotas.end_shared_quota kernel res (b, w)).1.0.quota_ifaces ≡ b.quota_ifaces)
  unfolding remove_shared_alert remove_costly_alert
  end-keeps res b w = (ground arith, ground arith)

  -- Ending an interface's shared quota takes it from the list, and changes no other quota.
  fail-keeps :
      (iface name : String) (b : Bandwidth) (w : World)
      → is_iface_name iface ≡ true
      → IsDistinct b.shared_quota_ifaces
      → (contains name (Quotas.fail kernel iface (b, w)).1.0.shared_quota_ifaces
          ≡ (not (str_eq iface name) && contains name b.shared_quota_ifaces))
        × ((Quotas.fail kernel iface (b, w)).1.0.quota_ifaces ≡ b.quota_ifaces)
  unfolding Quotas.remove_interface_shared_quota
  fail-keeps iface name b w h distinct =
      let cleanup : Bool × World = Quotas.cleanup_costly_iface kernel iface shared w in
      let names : List String = erase_first iface b.shared_quota_ifaces in
      let erased : Bandwidth = Quotas.with_shared_ifaces names b in
      let (kept, quotas) = end-keeps cleanup.0 erased cleanup.1 in
      elim (Bool-cases (contains iface b.shared_quota_ifaces)) [
        | inl found ↦
            rw (h, is_short iface h, found)
              (
                ap (contains name) kept
                    ∙ contains-erase_first iface name b.shared_quota_ifaces distinct,
                quotas,
              )
        | inr absent ↦
            (ground (arith, absent, is_short iface h, str_eq_iff iface name), ground arith)
      ]

  -- The quotas and the shared interfaces after the method.
  record Effect (iface name : String) (max_bytes : ℕ) (b : Bandwidth)
      (out : Bool × (Bandwidth × World)) : Type 0 where
    quotas :
        quota_of name out.1.0
        ≡ (if not out.0 && str_eq iface name then some max_bytes else quota_of name b)
    members :
        contains name out.1.0.shared_quota_ifaces
        ≡ (not (out.0 && str_eq iface name) && contains name b.shared_quota_ifaces)

  module _ (iface name : String) (max_bytes : ℕ) (b : Bandwidth) (w : World) (v : IsValid b)
      (h : is_iface_name iface ≡ true) where
    fail-Effect : (w' : World) → Effect iface name max_bytes b (Quotas.fail kernel iface (b, w'))
    fail-Effect w' =
        let (members, quotas) = fail-keeps iface name b w' h v.0.0 in
        record {
          quotas = ap (λ (l : List QuotaInfo). amount (find_quota name l)) quotas;
          members = members;
        }

    add-Effect : Effect iface name max_bytes b (Quotas.add_quota kernel iface max_bytes (b, w))
    add-Effect =
        let out : Bool × World =
          also kernel (make_iptables_quota_cmd append iface max_bytes) reject
            (Quotas.prep_costly_iface kernel b iface unique w) in
        if_cases (Effect iface name max_bytes b) out.0 (λ _. fail-Effect out.1)
          λ _. record { quotas = quota-push iface name max_bytes b.quota_ifaces; members = refl }

    change-Effect :
        Quotas.is_none (find_quota iface b.quota_ifaces) ≡ false
        → Effect iface name max_bytes b (Quotas.change_quota kernel iface max_bytes (b, w))
    change-Effect there =
        let out : Bool × World = update_quota kernel iface max_bytes w in
        if_cases (Effect iface name max_bytes b) out.0 (λ _. fail-Effect out.1)
          λ _. record {
            quotas = quota-update iface name max_bytes b.quota_ifaces there;
            members = refl;
          }

  set-Effect :
      (iface name : String) (max_bytes : ℕ) (b : Bandwidth) (w : World)
      → IsValid b
      → is_iface_name iface ≡ true
      → (max_bytes == 0) ≡ false
      → (max_bytes == Quotas.minus_one) ≡ false
      → Effect iface name max_bytes b (Quotas.set_interface_quota kernel iface max_bytes (b, w))
  unfolding Quotas.set_interface_quota
  set-Effect iface name max_bytes b w v h set finite =
      rw (h, set, finite, is_short iface h)
        (if_cases (Effect iface name max_bytes b) (Quotas.is_none (find_quota iface b.quota_ifaces))
          (λ absent. add-Effect iface name max_bytes b w v h)
          (λ there. change-Effect iface name max_bytes b w v h there))

  -- In a valid state, for an interface name and bytes other than 0 and -1: if the quota of an
  -- interface is set without an error, it has these bytes, and all other quotas and the interfaces
  -- of the shared quota are as they were; if it fails, all quotas are as they were, but the
  -- interface is no longer one of those that share the shared quota.
  pub set_interface_quota_effect :
      (iface name : String) (max_bytes : ℕ) (b : Bandwidth) (w : World)
      → IsValid b
      → is_iface_name iface ≡ true
      → (max_bytes == 0) ≡ false
      → (max_bytes == Quotas.minus_one) ≡ false
      → (quota_of name (Quotas.set_interface_quota kernel iface max_bytes (b, w)).1.0 ≡ (
          if not (Quotas.set_interface_quota kernel iface max_bytes (b, w)).0 && str_eq iface name
          then some max_bytes
          else quota_of name b))
        × (contains name
              (Quotas.set_interface_quota kernel iface max_bytes (b, w)).1.0.shared_quota_ifaces
            ≡ (not (
                  (Quotas.set_interface_quota kernel iface max_bytes (b, w)).0 && str_eq iface name)
                && contains name b.shared_quota_ifaces))
  set_interface_quota_effect iface name max_bytes b w v h set finite =
      let effect = set-Effect iface name max_bytes b w v h set finite in
      (effect.quotas, effect.members)
