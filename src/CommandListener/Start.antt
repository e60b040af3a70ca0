-- ===== src/CommandListener/Start.antt =====
-- server/CommandListener.cpp: the chains of the modules and the constructor, with
-- server/oem_iptables_hook.cpp.
use platform_system_netd.Prelude.{ℕ, Bool, false, List, [], ◌∷◌, String, if◌then◌else◌}
use platform_system_netd.Kernel.{Kernel, World, Call, Word, text, command, record_call}
use platform_system_netd.Iptables.{IptablesTarget, v4, v4v6, iptables_path, exec_iptables}
use platform_system_netd.Route.Networks.{init}
use platform_system_netd.Controller.State.{initial, local_net_id}
use platform_system_netd.TetherController.{constructed}
use platform_system_netd.NatController.{Nat}
use platform_system_netd.NatController
use platform_system_netd.BandwidthController.{Bandwidth}
use platform_system_netd.BandwidthController.Commands
use platform_system_netd.BandwidthController.Tables
use platform_system_netd.FirewallController
use platform_system_netd.IdletimerController
use platform_system_netd.CommandListener.Daemon.{Daemon, with_nat, with_bandwidth, with_world}

-- What the memory holds where the constructors set nothing.
pub record Memory : Type 0 where
  pub dns_net_id : ℕ
  pub rtr_adv_pid : ℕ
  pub nat_count : ℕ
  pub shared_quota_bytes : ℕ
  pub shared_alert_bytes : ℕ
  pub global_alert_bytes : ℕ
  pub global_alert_tether_count : ℕ

abbrev pub filter_input : List String
filter_input = Commands.local_input ∷ FirewallController.local_input ∷ []

abbrev pub filter_forward : List String
filter_forward =
    "oem_fwd" ∷ FirewallController.local_forward ∷ Commands.local_forward ∷ "natctrl_FORWARD" ∷ []

abbrev pub filter_output : List String
filter_output = "oem_out" ∷ FirewallController.local_output ∷ Commands.local_output ∷ []

abbrev pub raw_prerouting : List String
raw_prerouting = "bw_raw_PREROUTING" ∷ IdletimerController.local_raw_prerouting ∷ []

abbrev pub mangle_postrouting : List String
mangle_postrouting = "bw_mangle_POSTROUTING" ∷ IdletimerController.local_mangle_postrouting ∷ []

abbrev pub mangle_forward : List String
mangle_forward = "natctrl_mangle_FORWARD" ∷ []

abbrev pub nat_prerouting : List String
nat_prerouting = "oem_nat_pre" ∷ []

abbrev pub nat_postrouting : List String
nat_postrouting = "natctrl_nat_POSTROUTING" ∷ []

abbrev in_table : String → List Word → List Word
in_table table words = text "-w" ∷ text "-t" ∷ text table ∷ words

abbrev jump : String → String → String → List Word
jump flag parent child = text flag ∷ text parent ∷ text "-j" ∷ text child ∷ []

abbrev on_child : String → String → List Word
on_child flag child = text flag ∷ text child ∷ []

abbrev constructed_bandwidth : Memory → Bandwidth
constructed_bandwidth m = record {
  shared_quota_ifaces = [];
  shared_quota_bytes = m.shared_quota_bytes;
  shared_alert_bytes = m.shared_alert_bytes;
  global_alert_bytes = m.global_alert_bytes;
  global_alert_tether_count = m.global_alert_tether_count;
  quota_ifaces = [];
  naughty_app_uids = [];
  nice_app_uids = [];
}

-- The controllers as their constructors leave them.
abbrev pub new_controllers : Memory → World → Daemon
new_controllers m w = record {
  networks = initial;
  tether = constructed m.dns_net_id m.rtr_adv_pid;
  nat = record { nat_count = m.nat_count; iface_pair_list = [] };
  bandwidth = constructed_bandwidth m;
  clatd = [];
  iwlan_fwd_enable = false;
  fw_ip_fwd_enable = false;
  world = w;
}

abbrev oem_script : List Word
oem_script = text "/system/bin/oem-iptables-init.sh" ∷ []

module _ (kernel : Kernel) where
  abbrev run_in : IptablesTarget → String → List Word → World → World
  run_in target table words w = (exec_iptables kernel target (in_table table words) w).1

  abbrev create_child : IptablesTarget → String → String → String → World → World
  create_child target table parent child w =
      let w₁ = run_in target table (jump "-D" parent child) w in
      let w₂ = run_in target table (on_child "-F" child) w₁ in
      let w₃ = run_in target table (on_child "-X" child) w₂ in
      let w₄ = run_in target table (on_child "-N" child) w₃ in
      run_in target table (jump "-A" parent child) w₄

  -- What the commands answer is not looked at; `execIptablesSilently` differs in what it logs. The
  -- lists are not empty, so that the loop's body first is the same.
  unfoldable pub create_child_chains :
      IptablesTarget → String → String → List String → World → World
  create_child_chains target table parent [] w = w
  create_child_chains target table parent (child ∷ children) w =
      create_child_chains target table parent children (create_child target table parent child w)

  abbrev run_iptables_cmd : List Word → World → World
  run_iptables_cmd args w = record_call (command (text iptables_path ∷ args)) w

  unfoldable pub oem_cleanup_hooks : World → World
  oem_cleanup_hooks w =
      run_iptables_cmd (text "-t" ∷ text "nat" ∷ on_child "-F" "oem_nat_pre")
        (run_iptables_cmd (on_child "-F" "oem_fwd") (run_iptables_cmd (on_child "-F" "oem_out") w))

  abbrev all_chains : World → World
  all_chains w =
      let w₁ = create_child_chains v4v6 "filter" "INPUT" filter_input w in
      let w₂ = create_child_chains v4v6 "filter" "FORWARD" filter_forward w₁ in
      let w₃ = create_child_chains v4v6 "filter" "OUTPUT" filter_output w₂ in
      let w₄ = create_child_chains v4v6 "raw" "PREROUTING" raw_prerouting w₃ in
      let w₅ = create_child_chains v4v6 "mangle" "POSTROUTING" mangle_postrouting w₄ in
      let w₆ = create_child_chains v4 "mangle" "FORWARD" mangle_forward w₅ in
      let w₇ = create_child_chains v4 "nat" "PREROUTING" nat_prerouting w₆ in
      create_child_chains v4 "nat" "POSTROUTING" nat_postrouting w₇

-- `may_run` is what `access` says of the script of the vendor, `script_works` what `system` does.
module _ (kernel : Kernel) (may_run script_works : List Call → Bool) where
  abbrev oem_init_chains : World → World
  oem_init_chains w =
      let ran = record_call (command oem_script) w in
      if script_works w.calls then ran else oem_cleanup_hooks kernel ran

  unfoldable pub setup_oem_iptables_hook : World → World
  setup_oem_iptables_hook w =
      if may_run w.calls then oem_init_chains (oem_cleanup_hooks kernel w) else w

  -- The world once the modules' chains are there and the vendor's hook is set up.
  abbrev pub with_chains : World → World
  with_chains w = setup_oem_iptables_hook (all_chains kernel w)

  abbrev pub nat_hooks : Daemon → Daemon
  nat_hooks d = with_nat (NatController.setup_iptables_hooks kernel (d.nat, d.world)).1 d

  abbrev pub bandwidth_hooks : Daemon → Daemon
  bandwidth_hooks d = with_bandwidth (Tables.setup_iptables_hooks kernel (d.bandwidth, d.world)).1 d

  abbrev pub bandwidth_on : Daemon → Daemon
  bandwidth_on d =
      with_bandwidth (Tables.enable_bandwidth_control kernel false (d.bandwidth, d.world)).1 d

  abbrev pub routes_on : Daemon → Daemon
  routes_on d = with_world (init kernel local_net_id d.world).1 d

  -- The constructor. No error ends it.
  unfoldable pub construct : Memory → World → Daemon
  construct m w =
      routes_on (bandwidth_on (bandwidth_hooks (nat_hooks (new_controllers m (with_chains w)))))
