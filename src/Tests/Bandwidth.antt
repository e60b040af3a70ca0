-- ===== src/Tests/Bandwidth.antt =====
-- Runs of server/BandwidthController.cpp.
use platform_system_netd.Prelude.{
  ℕ, ◌≡◌, refl, true, false, not, ◌&&◌, ◌||◌, Option, none, some, List, [], ◌∷◌, ◌++◌, String,
  str_eq, if◌then◌else◌,
}
use platform_system_netd.Containers.{number_key, string_key, contains}
use platform_system_netd.Containers.Distinct.{IsDistinct}
use platform_system_netd.CStrings.{skip_spaces, digits, strtoul}
use platform_system_netd.CStrings.Scan.{fgets_all, sscanf, strip_prefix, split_word}
use platform_system_netd.Kernel.{Kernel, Word, text}
use platform_system_netd.Kernel.Words.{count_digits}
use platform_system_netd.Iptables.{iptables_path}
use platform_system_netd.Prefix.{is_iface_name, is_name_rest}
use platform_system_netd.BandwidthController.Commands.{reject, add, make_iptables_special_app_cmd}
use platform_system_netd.BandwidthController.Running.{fits, run_iptables_cmd, run_ipxtables_cmd}
use platform_system_netd.BandwidthController.Tables.{cleared, line_room}
use platform_system_netd.BandwidthController.Apps.{
  parse_uids, change_special_apps, manipulate_special_apps,
}
use platform_system_netd.BandwidthController.Quotas.{set_interface_quota}
use platform_system_netd.BandwidthController.Stats.{
  Message, command_okay, Counter, no_stats, ipv4_format, ipv6_format,
}
use platform_system_netd.BandwidthController.Parsing.{get_tether_stats}
use platform_system_netd.BandwidthController.Operations.{
  shared_quota, shared_alert_on, perform, reset, next,
}
use platform_system_netd.BandwidthController.Invariant.{Bandwidth-IsValid}
use platform_system_netd.BandwidthController.Lists.{IsValid}
use platform_system_netd.BandwidthController.Listing.{
  Table, heading, pair, nothing, pair_stats, listed, get_tether_stats-listed,
}
use platform_system_netd.BandwidthController.Effects.{quota_of, set_interface_quota_effect}
use platform_system_netd.BandwidthController.Boxes.{manipulate_special_apps-members}
use platform_system_netd.Tests.Kernels.{willing, fresh}

Bandwidth-IsValid_example :
    IsValid
      (perform willing 64
        (shared_alert_on 100)
        ((perform willing 64 (shared_quota "wlan0" 5000) (cleared, fresh)).1.0, fresh)).1.0
Bandwidth-IsValid_example =
    Bandwidth-IsValid willing 64
      (next (shared_alert_on 100) fresh (next (shared_quota "wlan0" 5000) fresh reset refl) refl)

abbrev table : String
table =
    "Chain natctrl_tether_counters\n 26 2373 RETURN all -- wlan0 rmnet0 0.0.0.0/0 0.0.0.0/0\n 27 2002 RETURN all -- rmnet0 wlan0 0.0.0.0/0 0.0.0.0/0\n"

abbrev table_v6 : String
table_v6 =
    "Chain natctrl_tether_counters\n 4 50 RETURN all wlan0 rmnet0 ::/0 ::/0\n 6 70 RETURN all rmnet0 wlan0 ::/0 ::/0\n"

abbrev counter : ℕ → ℕ → String → String → Counter
counter p b i j = record { packets = p; bytes = b; iface0 = i; iface1 = j }

read_table :
    Table ipv4_format
      (fgets_all line_room line_room table)
      (pair_stats (counter 26 2373 "wlan0" "rmnet0") (counter 27 2002 "rmnet0" "wlan0") ∷ [])
unfolding fgets_all sscanf strip_prefix split_word skip_spaces digits
read_table = heading refl (
    pair (counter 26 2373 "wlan0" "rmnet0") (counter 27 2002 "rmnet0" "wlan0") refl refl
      (record { named = refl; back = refl; forth = refl; received = refl; sent = refl }) nothing)

read_table_v6 :
    Table ipv6_format
      (fgets_all line_room line_room table_v6)
      (pair_stats (counter 4 50 "wlan0" "rmnet0") (counter 6 70 "rmnet0" "wlan0") ∷ [])
unfolding fgets_all sscanf strip_prefix split_word skip_spaces digits
read_table_v6 = heading refl (
    pair (counter 4 50 "wlan0" "rmnet0") (counter 6 70 "rmnet0" "wlan0") refl refl
      (record { named = refl; back = refl; forth = refl; received = refl; sent = refl }) nothing)

abbrev printed : List Word → Option String
printed (text path ∷ words) = if str_eq path iptables_path then some table else some table_v6
printed words = none

abbrev counting : Kernel
counting = record willing { popen = λ calls words. printed words }

abbrev stats : List Message
stats =
    listed (pair_stats (counter 26 2373 "wlan0" "rmnet0") (counter 27 2002 "rmnet0" "wlan0")) ∷ []

abbrev stats_v6 : List Message
stats_v6 = listed (pair_stats (counter 4 50 "wlan0" "rmnet0") (counter 6 70 "rmnet0" "wlan0")) ∷ []

get_tether_stats-listed_example :
    ((get_tether_stats counting no_stats ([], "") fresh).0.0 ≡ false)
    × ((get_tether_stats counting no_stats ([], "") fresh).0.1.0
        ≡ (([] ++ stats) ++ stats_v6) ++ command_okay "Tethering stats list completed" ∷ [])
get_tether_stats-listed_example =
    get_tether_stats-listed counting [] "" fresh (λ calls. refl) (λ calls. refl) read_table
      read_table_v6

good_name : is_iface_name "wlan0" ≡ true
unfolding is_iface_name is_name_rest
good_name = refl

set_interface_quota_effect_example :
    (quota_of "wlan0" (set_interface_quota willing "wlan0" 5000 (cleared, fresh)).1.0 ≡ (
      if not (set_interface_quota willing "wlan0" 5000 (cleared, fresh)).0 && true
      then some 5000
      else quota_of "wlan0" cleared))
    × (contains "wlan0"
          (set_interface_quota willing "wlan0" 5000 (cleared, fresh)).1.0.shared_quota_ifaces
        ≡ (not ((set_interface_quota willing "wlan0" 5000 (cleared, fresh)).0 && true)
            && contains {K = String} "wlan0" []))
set_interface_quota_effect_example =
    set_interface_quota_effect willing "wlan0" "wlan0" 5000 cleared fresh
      ((tt, refl, refl), (tt, tt), tt, tt) good_name refl refl

one_app : IsDistinct {K = ℕ} (10003 ∷ [])
unfolding contains
one_app = (refl, tt)

added :
    (manipulate_special_apps willing 64
      ("10001" ∷ "10002" ∷ [])
      "bw_penalty_box"
      reject
      add
      (10003 ∷ [], fresh)).0
    ≡ false
unfolding manipulate_special_apps parse_uids change_special_apps contains strtoul skip_spaces digits
    run_ipxtables_cmd run_iptables_cmd fits count_digits make_iptables_special_app_cmd
added = refl

manipulate_special_apps-members_example :
    (uids : List ℕ) × (parse_uids 64 ("10001" ∷ "10002" ∷ []) ≡ some uids)
    × (contains 10002
          (manipulate_special_apps willing 64
            ("10001" ∷ "10002" ∷ [])
            "bw_penalty_box"
            reject
            add
            (10003 ∷ [], fresh)).1.0
        ≡ (contains 10002 uids || contains {K = ℕ} 10002 (10003 ∷ [])))
manipulate_special_apps-members_example =
    manipulate_special_apps-members willing "bw_penalty_box" reject 64 ("10001" ∷ "10002" ∷ []) add
      (10003 ∷ []) fresh 10002 one_app added
