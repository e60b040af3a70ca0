-- ===== src/Tests/Commands.antt =====
-- Runs of the network command.
use platform_system_netd.Prelude.{◌≡◌, refl, List, [], ◌∷◌, map, true, false, String}
use platform_system_netd.CStrings.{strtoul, skip_spaces, digits}
use platform_system_netd.CommandListener.Arguments.{string_to_net_id, atoi, atoi_is_set}
use platform_system_netd.CommandListener.Refinement.{IsRead, run_command-IsRead}
use platform_system_netd.CommandListener.Daemon.{Daemon, Reply, reply}
use platform_system_netd.CommandListener.Start.{Memory, construct}
use platform_system_netd.CommandListener.Tethering.{run_tether, run_nat}
use platform_system_netd.CommandListener.Bandwidth.{run_bandwidth}
use platform_system_netd.CStrings.Scan.{fgets_all}
use platform_system_netd.BandwidthController.Parsing.{
  get_tether_stats, parse_forward_chain_stats, parse_forward_chain_stats_v6, parse_lines,
}
use platform_system_netd.CommandListener.Daemons.{
  Command, bandwidth, tether, network, Platform, handler_of, Running, began, commanded,
}
use platform_system_netd.CommandListener.Answers.{is_answer}
use platform_system_netd.CommandListener.Kept.{IsConsistent}
use platform_system_netd.CommandListener.Running.{Running-IsConsistent, command_is_answered}
use platform_system_netd.Kernel.{text}
use platform_system_netd.Tests.Kernels.{willing, fresh}
use platform_system_netd.Tests.Controllers.{with_default}

-- The last of the names for makers of devices is one past the last of their networks.
oem_is_out_of_range : string_to_net_id 64 "oem50" ≡ 51
unfolding string_to_net_id strtoul skip_spaces digits
oem_is_out_of_range = refl

a_number : string_to_net_id 64 "0x65" ≡ 101
unfolding string_to_net_id strtoul skip_spaces digits
a_number = refl

set_and_not_set : (atoi_is_set 64 "1x" ≡ true) × (atoi_is_set 64 "no" ≡ false)
unfolding atoi skip_spaces digits
set_and_not_set = (refl, refl)

run_command-IsRead_example :
    IsRead 64 willing ("interface" ∷ "add" ∷ "100" ∷ "wlan0" ∷ []) with_default
run_command-IsRead_example =
    run_command-IsRead 64 willing with_default ("interface" ∷ "add" ∷ "100" ∷ "wlan0" ∷ [])

abbrev willing_platform : Platform
willing_platform = record {
  width = 64;
  kernel = willing;
  runs = λ w pid. true;
  may_run = λ calls. false;
  script_works = λ calls. false;
}

abbrev memory : Memory
memory = record {
  dns_net_id = 7;
  rtr_adv_pid = 7;
  nat_count = 7;
  shared_quota_bytes = 7;
  shared_alert_bytes = 7;
  global_alert_bytes = 7;
  global_alert_tether_count = 7;
}

abbrev asked : Command → List String → Daemon → Daemon
asked c args d = (handler_of willing_platform c args d).1

abbrev started : Daemon
started = construct willing (λ calls. false) (λ calls. false) memory fresh

abbrev with_quota : Daemon
with_quota = asked bandwidth ("setquota" ∷ "rmnet0" ∷ "1000" ∷ []) started

abbrev with_tethering : Daemon
with_tethering = asked tether ("interface" ∷ "add" ∷ "wlan0" ∷ []) with_quota

abbrev with_network : Daemon
with_network = asked network ("create" ∷ "100" ∷ "SYSTEM" ∷ []) with_tethering

abbrev running : Running willing_platform with_network
running = commanded network ("create" ∷ "100" ∷ "SYSTEM" ∷ []) (
    commanded tether ("interface" ∷ "add" ∷ "wlan0" ∷ [])
      (commanded bandwidth ("setquota" ∷ "rmnet0" ∷ "1000" ∷ []) (began memory fresh)))

Running-IsConsistent_example : IsConsistent with_network
Running-IsConsistent_example =
    Running-IsConsistent willing_platform (λ calls. refl) with_network running

command_is_answered_example :
    is_answer (handler_of willing_platform tether ("interface" ∷ "list" ∷ []) with_network).0 ≡ true
command_is_answered_example =
    command_is_answered willing_platform (λ calls. refl) with_network running tether
      ("interface" ∷ "list" ∷ []) refl

-- Any third word is taken for a success.
unknown_tether_command :
    run_tether 64 willing ("start" ∷ "192.168.1.1" ∷ []) started
    ≡ (reply 200 (text "Tether operation succeeded" ∷ []) ∷ [], started)
unfolding run_tether
unknown_tether_command = refl

-- Without a fifth word the command is refused.
nat_without_addresses :
    (run_nat 64 willing ("enable" ∷ "wlan0" ∷ "rmnet0" ∷ []) started).0
    ≡ reply 500 (text "Missing argument" ∷ []) ∷ []
unfolding run_nat
nat_without_addresses = refl

-- Two messages that end an answer, where neither list has counters.
statistics_are_answered_twice :
    map (λ (r : Reply). r.code) (run_bandwidth 64 willing ("gts" ∷ "wlan0" ∷ []) started).0
    ≡ 200 ∷ 400 ∷ []
unfolding run_bandwidth get_tether_stats parse_forward_chain_stats parse_forward_chain_stats_v6
    parse_lines fgets_all
statistics_are_answered_twice = refl
