-- ===== src/BandwidthController/Alarms.antt =====
-- The rules of the global alert in the three chains.
use platform_system_netd.Prelude.{ℕ, ◌≡◌, Bool, ◌||◌, List, [], ◌∷◌, ◌==◌, if◌then◌else◌}
use platform_system_netd.Kernel.{Kernel, World, Word}
use platform_system_netd.Kernel.Words.{signed}
use platform_system_netd.BandwidthController.{Bandwidth}
use platform_system_netd.BandwidthController.Commands.{IptOp, no_add}
use platform_system_netd.BandwidthController.Running.{IptIpVer, run_ipxtables_cmd}
use platform_system_netd.BandwidthController.Alerts.{
  set_global_alert, remove_global_alert, set_global_alert_in_forward_chain,
  remove_global_alert_in_forward_chain,
}
use platform_system_netd.BandwidthController.Rules.{
  Chain, input, output, forward, rules_in, alert_words,
}

-- The quotas of the rules that the alert has: one rule in each chain while it is set, in the forward
-- chain only while something is tethered, each with the alert's bytes.
abbrev pub expected : Chain → Bandwidth → List Word
expected forward b =
    if b.global_alert_bytes == 0 || b.global_alert_tether_count == 0
    then []
    else signed 64 b.global_alert_bytes ∷ []
expected input b = if b.global_alert_bytes == 0 then [] else signed 64 b.global_alert_bytes ∷ []
expected output b = if b.global_alert_bytes == 0 then [] else signed 64 b.global_alert_bytes ∷ []

module _ (kernel : Kernel) where
  abbrev ran : IptOp → Chain → ℕ → World → World
  ran op c bytes w = (run_ipxtables_cmd kernel (alert_words op c bytes) no_add w).1

  module _ (b : Bandwidth) (w : World) (u : IptIpVer) where
    abbrev Keeps : Chain → Bool × (Bandwidth × World) → Type 0
    Keeps d out = rules_in u d out.1.1 ≡ expected d out.1.0

-- The methods of the global alert.
pub data Alarm : Type 0 where
  on : ℕ → Alarm
  off tethered untethered : Alarm

module _ (kernel : Kernel) where
  abbrev pub sound : Alarm → Bandwidth × World → Bandwidth × World
  sound (on bytes) s = (set_global_alert kernel bytes s).1
  sound off s = (remove_global_alert kernel s).1
  sound tethered s = (set_global_alert_in_forward_chain kernel s).1
  sound untethered s = (remove_global_alert_in_forward_chain kernel s).1

  abbrev pub sound_all : List Alarm → Bandwidth × World → Bandwidth × World
  sound_all [] s = s
  sound_all (a ∷ alarms) s = sound_all alarms (sound a s)
