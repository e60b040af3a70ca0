-- ===== src/BandwidthController/Kept.antt =====
-- What holds after the methods for apps, alerts and the chains.
use platform_system_netd.Prelude.{ℕ, refl, Bool, Option, none, some, List, [], ◌∷◌, String, arith}
use platform_system_netd.Containers.{number_key, string_key, erase_first}
use platform_system_netd.Containers.Distinct.{IsDistinct, erase_first-IsDistinct}
use platform_system_netd.Kernel.{Kernel, World}
use platform_system_netd.BandwidthController.{Bandwidth, QuotaInfo, find_quota}
use platform_system_netd.BandwidthController.Commands.{
  IptJumpOp, SpecialAppOp, add, remove, make_iptables_special_app_cmd,
}
use platform_system_netd.BandwidthController.Running.{run_ipxtables_cmd}
use platform_system_netd.BandwidthController.Tables.{
  setup_iptables_hooks, enable_bandwidth_control, disable_bandwidth_control,
}
use platform_system_netd.BandwidthController.Apps.{
  ipt_op, parse_uids, change_special_apps, manipulate_special_apps, enable_happy_box,
  disable_happy_box, manipulate_naughty_apps, manipulate_nice_apps, on_uids,
}
use platform_system_netd.BandwidthController.Alerts
use platform_system_netd.BandwidthController.Lists.{IsValid, update-IsQuotas}

-- What a method leaves.
pub record After (out : Bool × (Bandwidth × World)) : Type 0 where
  pub valid : IsValid out.1.0

record AppsAfter (out : Bool × (List ℕ × World)) : Type 0 where
  distinct : IsDistinct out.1.0

module _ (kernel : Kernel) (width : ℕ) where
  abbrev ran : SpecialAppOp → String → IptJumpOp → ℕ → World → World
  ran op chain jump uid w =
      (run_ipxtables_cmd kernel (make_iptables_special_app_cmd (ipt_op op) uid chain) jump w).1

  change-AppsAfter :
      (op : SpecialAppOp) (chain : String) (jump : IptJumpOp) (uids : List ℕ) (s : List ℕ × World)
      → IsDistinct s.0
      → AppsAfter (change_special_apps kernel op chain jump uids s)
  unfolding change_special_apps
  change-AppsAfter op chain jump [] s h = record { distinct = h }
  change-AppsAfter add chain jump (uid ∷ uids) (special, w) h =
      ground (arith, change-AppsAfter add chain jump uids (uid ∷ special, ran add chain jump uid w))
  change-AppsAfter remove chain jump (uid ∷ uids) (special, w) h =
      let less : IsDistinct (erase_first uid special) = erase_first-IsDistinct uid special h in
      ground (
        arith,
        change-AppsAfter remove chain jump uids
            (erase_first uid special, ran remove chain jump uid w),
      )

  special-IsDistinct :
      (app_str_uids : List String) (chain : String) (jump : IptJumpOp) (op : SpecialAppOp)
      (s : List ℕ × World)
      → IsDistinct s.0
      → IsDistinct (manipulate_special_apps kernel width app_str_uids chain jump op s).1.0
  unfolding manipulate_special_apps
  special-IsDistinct app_str_uids chain jump op s h =
      elim (parse_uids width app_str_uids)
        as (λ o. IsDistinct (on_uids kernel op chain jump o s).1.0) [
          | none ↦ h
          | some uids ↦ (change-AppsAfter op chain jump uids s h).distinct
        ]

  -- The shared quota.
  module _ (b : Bandwidth) (w : World) (v : IsValid b) where
    pub naughty-After :
        (uids : List String) (op : SpecialAppOp)
        → After (manipulate_naughty_apps kernel width uids op (b, w))
    unfolding manipulate_naughty_apps
    naughty-After uids op = record {
      valid = (v.0, v.1, special-IsDistinct uids _ _ op (b.naughty_app_uids, w) v.2, v.3);
    }

    pub nice-After :
        (uids : List String) (op : SpecialAppOp)
        → After (manipulate_nice_apps kernel width uids op (b, w))
    unfolding manipulate_nice_apps
    nice-After uids op = record {
      valid = (v.0, v.1, v.2, special-IsDistinct uids _ _ op (b.nice_app_uids, w) v.3);
    }

    pub box-After : After (enable_happy_box kernel (b, w))
    unfolding enable_happy_box
    box-After = record { valid = (v.0, v.1, v.2, tt) }

    pub unbox-After : After (disable_happy_box kernel (b, w))
    unfolding disable_happy_box
    unbox-After = record { valid = (v.0, v.1, v.2, tt) }

    pub setup-After : After (setup_iptables_hooks kernel (b, w))
    unfolding setup_iptables_hooks
    setup-After = record { valid = v }

    pub disable-After : After (disable_bandwidth_control kernel (b, w))
    unfolding disable_bandwidth_control
    disable-After = record { valid = v }

    pub enable-After : (force : Bool) → After (enable_bandwidth_control kernel force (b, w))
    unfolding enable_bandwidth_control
    enable-After force = ground arith

    pub global_on-After : (bytes : ℕ) → After (Alerts.set_global_alert kernel bytes (b, w))
    unfolding Alerts.set_global_alert
    global_on-After bytes = ground arith

    pub global_off-After : After (Alerts.remove_global_alert kernel (b, w))
    unfolding Alerts.remove_global_alert
    global_off-After = ground arith

    pub tethered-After : After (Alerts.set_global_alert_in_forward_chain kernel (b, w))
    unfolding Alerts.set_global_alert_in_forward_chain
    tethered-After = ground arith

    pub untethered-After : After (Alerts.remove_global_alert_in_forward_chain kernel (b, w))
    unfolding Alerts.remove_global_alert_in_forward_chain
    untethered-After = ground arith

    pub shared_alert_on-After : (bytes : ℕ) → After (Alerts.set_shared_alert kernel bytes (b, w))
    unfolding Alerts.set_shared_alert
    shared_alert_on-After bytes = ground arith

    pub shared_alert_off-After : After (Alerts.remove_shared_alert kernel (b, w))
    unfolding Alerts.remove_shared_alert Alerts.remove_costly_alert
    shared_alert_off-After = record { valid = ((v.0.0, v.0.1, ground arith), v.1, v.2, v.3) }

    pub interface_alert-After :
        (iface : String) (o : Option QuotaInfo) (f : ℕ × World → Bool × (ℕ × World))
        → After (Alerts.on_interface_alert iface o f (b, w))
    interface_alert-After iface none f = record { valid = v }
    interface_alert-After iface (some q) f = record {
      valid = (v.0, update-IsQuotas iface _ b.quota_ifaces (λ q. refl) (λ q h. h) v.1, v.2, v.3);
    }

    pub alert_on-After :
        (iface : String) (bytes : ℕ) → After (Alerts.set_interface_alert kernel iface bytes (b, w))
    unfolding Alerts.set_interface_alert
    alert_on-After iface bytes = ground (
      arith,
      interface_alert-After iface (find_quota iface b.quota_ifaces)
          (Alerts.set_costly_alert kernel iface bytes),
    )

    pub alert_off-After :
        (iface : String) → After (Alerts.remove_interface_alert kernel iface (b, w))
    unfolding Alerts.remove_interface_alert
    alert_off-After iface = ground (
      arith,
      interface_alert-After iface (find_quota iface b.quota_ifaces)
          (Alerts.remove_costly_alert kernel iface),
    )
