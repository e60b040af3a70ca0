-- ===== src/BandwidthController/Operations.antt =====
-- server/BandwidthController.h: the public methods that change the state, and the states that they
-- lead to.
use platform_system_netd.Prelude.{ℕ, ◌≡◌, Bool, List, String}
use platform_system_netd.Kernel.{Kernel, World}
use platform_system_netd.BandwidthController.{Bandwidth, Method}
use platform_system_netd.BandwidthController.Commands.{SpecialAppOp}
use platform_system_netd.BandwidthController.Tables.{
  cleared, setup_iptables_hooks, enable_bandwidth_control, disable_bandwidth_control,
}
use platform_system_netd.BandwidthController.Apps.{
  enable_happy_box, disable_happy_box, manipulate_naughty_apps, manipulate_nice_apps,
}
use platform_system_netd.BandwidthController.Alerts.{
  set_global_alert, remove_global_alert, set_global_alert_in_forward_chain,
  remove_global_alert_in_forward_chain, set_shared_alert, remove_shared_alert, set_interface_alert,
  remove_interface_alert,
}
use platform_system_netd.BandwidthController.Quotas.{
  set_interface_shared_quota, remove_interface_shared_quota, set_interface_quota,
  remove_interface_quota,
}

pub data Operation : Type 0 where
  setup disable box unbox global_off tethered untethered shared_alert_off : Operation
  enable : Bool → Operation
  naughty nice : List String → SpecialAppOp → Operation
  global_on shared_alert_on : ℕ → Operation
  alert_on quota shared_quota : String → ℕ → Operation
  alert_off quota_off shared_quota_off : String → Operation

module _ (kernel : Kernel) (width : ℕ) where
  abbrev pub perform : Operation → Method
  perform setup = setup_iptables_hooks kernel
  perform disable = disable_bandwidth_control kernel
  perform box = enable_happy_box kernel
  perform unbox = disable_happy_box kernel
  perform global_off = remove_global_alert kernel
  perform tethered = set_global_alert_in_forward_chain kernel
  perform untethered = remove_global_alert_in_forward_chain kernel
  perform shared_alert_off = remove_shared_alert kernel
  perform (enable force) = enable_bandwidth_control kernel force
  perform (naughty uids op) = manipulate_naughty_apps kernel width uids op
  perform (nice uids op) = manipulate_nice_apps kernel width uids op
  perform (global_on bytes) = set_global_alert kernel bytes
  perform (shared_alert_on bytes) = set_shared_alert kernel bytes
  perform (alert_on iface bytes) = set_interface_alert kernel iface bytes
  perform (quota iface bytes) = set_interface_quota kernel iface bytes
  perform (shared_quota iface bytes) = set_interface_shared_quota kernel iface bytes
  perform (alert_off iface) = remove_interface_alert kernel iface
  perform (quota_off iface) = remove_interface_quota kernel iface
  perform (shared_quota_off iface) = remove_interface_shared_quota kernel iface

  -- The states after a reset and any methods; the world may change in between.
  pub data Reaches : Bandwidth → Type 0 where
    reset : Reaches cleared
    next :
        {b c : Bandwidth} (op : Operation) (w : World)
        → Reaches b
        → c ≡ (perform op (b, w)).1.0
        → Reaches c
