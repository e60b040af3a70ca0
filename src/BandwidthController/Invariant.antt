-- ===== src/BandwidthController/Invariant.antt =====
-- What holds of the controller's lists after any methods.
use platform_system_netd.Prelude.{
  ℕ, ◌≡◌, refl, sym, ◌∙◌, subst, Bool, true, false, not, ◌||◌, List, [], ◌∷◌, String, arith, ◌==◌,
  Bool-cases, if_cases, inl, inr,
}
use platform_system_netd.Containers.{number_key, string_key, contains, erase_first}
use platform_system_netd.Containers.Distinct.{IsDistinct, erase_first-IsDistinct}
use platform_system_netd.Kernel.{Kernel, World}
use platform_system_netd.Prefix.{is_iface_name}
use platform_system_netd.BandwidthController.{Bandwidth, find_quota}
use platform_system_netd.BandwidthController.Commands.{
  shared, append, unique, make_iptables_quota_cmd, reject,
}
use platform_system_netd.BandwidthController.Running.{also}
use platform_system_netd.BandwidthController.Alerts
use platform_system_netd.BandwidthController.Quotas
use platform_system_netd.BandwidthController.Operations.{
  Operation, setup, disable, box, unbox, global_off, tethered, untethered, shared_alert_off, enable,
  naughty, nice, global_on, shared_alert_on, alert_on, quota, shared_quota, alert_off, quota_off,
  shared_quota_off, perform, Reaches, reset, next,
}
use platform_system_netd.BandwidthController.Lists.{
  IsValid, update-IsQuotas, erase-IsQuotas, missing,
}
use platform_system_netd.BandwidthController.Kept.{
  After, naughty-After, nice-After, box-After, unbox-After, setup-After, disable-After,
  enable-After, global_on-After, global_off-After, tethered-After, untethered-After,
  shared_alert_on-After, shared_alert_off-After, alert_on-After, alert_off-After,
}

module _ (kernel : Kernel) (width : ℕ) where
  module _ (b : Bandwidth) (w : World) (v : IsValid b) where
    end-After :
        (res : Bool)
        → (b.shared_quota_bytes == 0) ≡ false
        → (names : List String) → IsDistinct names
        → (w' : World)
        → After (Quotas.end_shared_quota kernel res (Quotas.with_shared_ifaces names b, w'))
    unfolding Alerts.remove_shared_alert Alerts.remove_costly_alert
    end-After res set [] h w' = ground arith
    end-After res set (name ∷ names) h w' = record { valid = ((h, set, v.0.2), v.1, v.2, v.3) }

    not_empty :
        (iface : String) (names : List String)
        → contains iface names ≡ true
        → Quotas.is_empty names ≡ false
    unfolding contains
    not_empty iface [] h = cc
    not_empty iface (name ∷ names) h = refl

    remove_shared-After :
        (iface : String) → After (Quotas.remove_interface_shared_quota kernel iface (b, w))
    unfolding Quotas.remove_interface_shared_quota
    remove_shared-After iface = elim (Bool-cases (contains iface b.shared_quota_ifaces)) [
      | inl found ↦
          if_cases After
            (not (is_iface_name iface)
              || Quotas.is_too_long iface
              || not (contains iface b.shared_quota_ifaces))
            (λ _. record { valid = v })
            λ _.
              end-After (Quotas.cleanup_costly_iface kernel iface shared w).0
                (v.0.1 ∙ not_empty iface b.shared_quota_ifaces found)
                (erase_first iface b.shared_quota_ifaces)
                (erase_first-IsDistinct iface b.shared_quota_ifaces v.0.0)
                (Quotas.cleanup_costly_iface kernel iface shared w).1
      | inr absent ↦ ground arith
    ]

    fail-After : (iface : String) → After (Quotas.fail kernel iface (b, w))
    fail-After iface = record { valid = (remove_shared-After iface).valid }

  add_quota-After :
      (iface : String) (max_bytes : ℕ) (b : Bandwidth) (w : World)
      → IsValid b
      → (max_bytes == 0) ≡ false
      → Quotas.is_none (find_quota iface b.quota_ifaces) ≡ true
      → After (Quotas.add_quota kernel iface max_bytes (b, w))
  add_quota-After iface max_bytes b w v set absent =
      let out : Bool × World =
        also kernel (make_iptables_quota_cmd append iface max_bytes) reject
          (Quotas.prep_costly_iface kernel b iface unique w) in
      if_cases After out.0 (λ _. fail-After b out.1 v iface)
        λ _. record {
          valid = (v.0, ((missing iface b.quota_ifaces absent, v.1.0), (set, v.1.1)), v.2, v.3);
        }

  change_quota-After :
      (iface : String) (max_bytes : ℕ) (b : Bandwidth) (w : World)
      → IsValid b
      → (max_bytes == 0) ≡ false
      → After (Quotas.change_quota kernel iface max_bytes (b, w))
  change_quota-After iface max_bytes b w v set =
      let out : Bool × World = Alerts.update_quota kernel iface max_bytes w in
      if_cases After out.0 (λ _. fail-After b out.1 v iface)
        λ _. record {
          valid = (
            v.0,
            update-IsQuotas iface (λ q. record q { quota = max_bytes }) b.quota_ifaces (λ q. refl)
                (λ q h. set) v.1,
            v.2,
            v.3,
          );
        }

  quota_off-After :
      (iface : String) (b : Bandwidth) (w : World)
      → IsValid b
      → After (Quotas.remove_interface_quota kernel iface (b, w))
  unfolding Quotas.remove_interface_quota
  quota_off-After iface b w v = ground (arith, erase-IsQuotas iface b.quota_ifaces v.1)

  quota-After :
      (iface : String) (max_bytes : ℕ) (b : Bandwidth) (w : World)
      → IsValid b
      → After (Quotas.set_interface_quota kernel iface max_bytes (b, w))
  unfolding Quotas.set_interface_quota
  quota-After iface max_bytes b w v = ground (
    arith,
    quota_off-After iface b w v,
    add_quota-After iface max_bytes b w v,
    change_quota-After iface max_bytes b w v,
  )

  -- Where an interface has joined, the list is not empty.
  record Joined (out : Bool × (Bool × (Bandwidth × World))) : Type 0 where
    valid : IsValid out.1.1.0
    nonempty : (not out.0 || not (Quotas.is_empty out.1.1.0.shared_quota_ifaces)) ≡ true

  join-Joined :
      (iface : String) (max_bytes : ℕ) (b : Bandwidth) (w : World)
      → IsValid b
      → (max_bytes == 0) ≡ false
      → Joined (Quotas.join_shared kernel iface max_bytes (b, w))
  join-Joined iface max_bytes b w v set = elim (Bool-cases (contains iface b.shared_quota_ifaces)) [
    | inl found ↦ ground (arith, not_empty b w v iface b.shared_quota_ifaces found)
    | inr absent ↦ ground arith
  ]

  update-After :
      (iface : String) (max_bytes : ℕ) (out : Bool × (Bool × (Bandwidth × World)))
      → Joined out
      → (max_bytes == 0) ≡ false
      → After (Quotas.update_shared kernel iface max_bytes out)
  update-After iface max_bytes (false, (res, (b, w))) j set = fail-After b w j.valid iface
  update-After iface max_bytes (true, (res, (b, w))) j set =
      ground (arith, fail-After b (Alerts.update_quota kernel "shared" max_bytes w).1 j.valid iface)

  shared_quota-After :
      (iface : String) (max_bytes : ℕ) (b : Bandwidth) (w : World)
      → IsValid b
      → After (Quotas.set_interface_shared_quota kernel iface max_bytes (b, w))
  unfolding Quotas.set_interface_shared_quota
  shared_quota-After iface max_bytes b w v =
      let step : (max_bytes == 0) ≡ false
          → After (
              Quotas.update_shared kernel iface max_bytes
                (Quotas.join_shared kernel iface max_bytes (b, w))) =
        λ set. update-After iface max_bytes _ (join-Joined iface max_bytes b w v set) set in
      if_cases After (max_bytes == 0 || not (is_iface_name iface) || Quotas.is_too_long iface)
        (λ _. record { valid = v })
        λ good.
          if_cases After (max_bytes == Quotas.minus_one) (λ _. remove_shared-After b w v iface)
            (λ _. step (ground arith))

  pub perform-After :
      (op : Operation) (b : Bandwidth) (w : World)
      → IsValid b
      → After (perform kernel width op (b, w))
  perform-After setup b w v = setup-After kernel width b w v
  perform-After disable b w v = disable-After kernel width b w v
  perform-After box b w v = box-After kernel width b w v
  perform-After unbox b w v = unbox-After kernel width b w v
  perform-After global_off b w v = global_off-After kernel width b w v
  perform-After tethered b w v = tethered-After kernel width b w v
  perform-After untethered b w v = untethered-After kernel width b w v
  perform-After shared_alert_off b w v = shared_alert_off-After kernel width b w v
  perform-After (enable force) b w v = enable-After kernel width b w v force
  perform-After (naughty uids op) b w v = naughty-After kernel width b w v uids op
  perform-After (nice uids op) b w v = nice-After kernel width b w v uids op
  perform-After (global_on bytes) b w v = global_on-After kernel width b w v bytes
  perform-After (shared_alert_on bytes) b w v = shared_alert_on-After kernel width b w v bytes
  perform-After (alert_on iface bytes) b w v = alert_on-After kernel width b w v iface bytes
  perform-After (quota iface bytes) b w v = quota-After iface bytes b w v
  perform-After (shared_quota iface bytes) b w v = shared_quota-After iface bytes b w v
  perform-After (alert_off iface) b w v = alert_off-After kernel width b w v iface
  perform-After (quota_off iface) b w v = quota_off-After iface b w v
  perform-After (shared_quota_off iface) b w v = remove_shared-After b w v iface

  -- After a reset and any of the methods, whatever iptables answers: the shared quota has bytes
  -- exactly if some interface shares it, and an alert only then; no interface shares it twice,
  -- none has two quotas of its own or one of 0 bytes; and no app is twice in the naughty or the
  -- nice box.
  pub Bandwidth-IsValid : {b : Bandwidth} → Reaches kernel width b → IsValid b
  Bandwidth-IsValid reset = ((tt, refl, refl), (tt, tt), tt, tt)
  Bandwidth-IsValid (next {b} op w r e) =
      subst IsValid (sym e) (perform-After op b w (Bandwidth-IsValid r)).valid
