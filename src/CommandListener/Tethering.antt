-- ===== src/CommandListener/Tethering.antt =====
-- server/CommandListener.cpp: IpFwdCmd, TetherCmd and NatCmd.
use platform_system_netd.Prelude.{
  ℕ, Bool, true, false, not, ◌&&◌, Option, none, some, List, [], ◌∷◌, map, String, if◌then◌else◌,
}
use platform_system_netd.Kernel.{Kernel, World, Result, ok, err, text, decimal}
use platform_system_netd.TetherController.{Tether}
use platform_system_netd.TetherController.Advertising.{
  add_upstream_interface, remove_upstream_interface,
}
use platform_system_netd.TetherController.Dns.{
  Address, start_tethering, stop_tethering, is_tethering_started, set_dns_forwarders,
  tether_interface, untether_interface, printed,
}
use platform_system_netd.TetherController.Forwarding.{set_ip_fwd_enabled, get_ip_fwd_enabled}
use platform_system_netd.NatController.{Nat, enable_nat, disable_nat}
use platform_system_netd.BandwidthController.{Bandwidth}
use platform_system_netd.BandwidthController.Alerts.{
  set_global_alert_in_forward_chain, remove_global_alert_in_forward_chain,
}
use platform_system_netd.CommandListener.Arguments.{◌is◌, string_to_net_id}
use platform_system_netd.CommandListener.Daemon.{
  Daemon, Out, Handler, Reply, reply, send_msg, send_syntax_error, send_parameter_error,
  send_result, with_world, with_tether, with_nat, with_bandwidth,
}

abbrev pub first_is : String → List String → Bool
first_is word [] = false
first_is word (arg ∷ args) = arg is word

abbrev pub from_bool : Bool → Result (Unit {0})
from_bool false = ok tt
from_bool true = err 0

abbrev pub with_flag : Bool → Bool → Daemon → Daemon
with_flag true on d = record d { iwlan_fwd_enable = on }
with_flag false on d = record d { fw_ip_fwd_enable = on }

abbrev pub send_ip_fwd : Bool × World → Daemon → Out
send_ip_fwd (res, w) d =
    send_result "ipfwd operation succeeded" "ipfwd operation failed" (from_bool res)
      (with_world w d)

abbrev pub send_tether : Result (Unit {0}) → Daemon → Out
send_tether = send_result "Tether operation succeeded" "Tether operation failed"

abbrev pub tethered : Daemon → Result (Unit {0}) × (Tether × World) → Out
tethered d (res, s) = send_tether res (with_tether s d)

abbrev is_odd : List String → Bool
is_odd [] = false
is_odd (arg ∷ args) = not (is_odd args)

abbrev pub list_reply : String → Reply
list_reply name = reply 111 (text name ∷ [])

abbrev pub after_list : List Reply → Out → Out
after_list [] out = out
after_list (r ∷ replies) out = let (sent, d) = after_list replies out in (r ∷ sent, d)

-- TetherCmd's two lists; any other two words are answered as a success.
abbrev pub tether_list : String → String → Daemon → Out
tether_list what word d =
    let okay : Out = send_tether (ok tt) d in
    if what is "interface" && word is "list"
    then after_list (map list_reply d.tether.interfaces) okay
    else if what is "dns" && word is "list"
    then after_list
        (reply 115 (decimal d.tether.dns_net_id ∷ [])
          ∷ map (λ address. reply 112 (printed address)) d.tether.dns_forwarders)
        okay
    else okay

-- The result of both: `rc |= ...`, or the first that fails.
abbrev pub or_result : Bool → Result (Unit {0}) → Result (Unit {0})
or_result true (ok a) = err 0
or_result res r = r

abbrev pub send_nat : Result (Unit {0}) → Daemon → Out
send_nat = send_result "Nat operation succeeded" "Nat operation failed"

module _ (width : ℕ) (kernel : Kernel) where
  abbrev pub ip_fwd_off : Daemon → Out
  ip_fwd_off d =
      if not d.iwlan_fwd_enable && not d.fw_ip_fwd_enable
      then send_ip_fwd (set_ip_fwd_enabled kernel false d.world) d
      else send_ip_fwd (false, d.world) d

  -- ipfwd status, or ipfwd enable|disable [iwlan]
  unfoldable pub run_ip_fwd : Handler
  run_ip_fwd [] d = send_syntax_error "Missing argument" d
  run_ip_fwd (word ∷ args) d =
      if word is "status"
      then send_msg 211
          (if get_ip_fwd_enabled kernel d.world
            then "Forwarding enabled"
            else "Forwarding disabled")
          d
      else if word is "enable"
      then send_ip_fwd (set_ip_fwd_enabled kernel true d.world)
          (with_flag (first_is "iwlan" args) true d)
      else if word is "disable"
      then ip_fwd_off (with_flag (first_is "iwlan" args) false d)
      else send_syntax_error "Unknown ipfwd cmd" d

  abbrev add_pair :
      Option Address
      → Option Address
      → Option (List (Address × Address))
      → Option (List (Address × Address))
  add_pair (some a) (some b) (some ranges) = some ((a, b) ∷ ranges)
  add_pair a b ranges = none

  -- The addresses of the ranges, unless one of them is none; their number is even.
  unfoldable pub read_ranges : List String → Option (List (Address × Address))
  read_ranges [] = some []
  read_ranges (arg ∷ []) = none
  read_ranges (first ∷ last ∷ args) =
      add_pair (kernel.inet_aton first) (kernel.inet_aton last) (read_ranges args)

  abbrev pub start_ranges : Option (List (Address × Address)) → Daemon → Out
  start_ranges none d = send_parameter_error "Invalid address" d
  start_ranges (some ranges) d = tethered d (start_tethering kernel ranges (d.tether, d.world))

  abbrev pub tether_names : String → String → Daemon → Out
  tether_names word iface d =
      let s : Tether × World = (d.tether, d.world) in
      if word is "add"
      then tethered d (tether_interface kernel iface s)
      else if word is "remove"
      then tethered d (untether_interface kernel iface s)
      else if word is "add_upstream"
      then tethered d (ok tt, add_upstream_interface kernel (some iface) s)
      else if word is "remove_upstream"
      then tethered d (ok tt, remove_upstream_interface kernel (some iface) s)
      else send_parameter_error "Unknown tether interface operation" d

  abbrev pub tether_dns : String → String → List String → Daemon → Out
  tether_dns word net_id [] d =
      if word is "set"
      then send_syntax_error "Missing argument" d
      else send_parameter_error "Unknown tether interface operation" d
  tether_dns word net_id servers d =
      if word is "set"
      then tethered d
          (set_dns_forwarders kernel (string_to_net_id width net_id) servers (d.tether, d.world))
      else send_parameter_error "Unknown tether interface operation" d

  abbrev pub tether_more : String → List String → Daemon → Out
  tether_more what (word ∷ []) d = tether_list what word d
  tether_more what (word ∷ arg ∷ args) d =
      if what is "start"
      then if is_odd (word ∷ arg ∷ args)
        then send_syntax_error "Bad number of arguments" d
        else start_ranges (read_ranges (word ∷ arg ∷ args)) d
      else if what is "interface"
      then tether_names word arg d
      else if what is "dns"
      then tether_dns word arg args d
      else send_syntax_error "Unknown tether cmd" d
  tether_more what [] d = send_syntax_error "Missing argument" d

  unfoldable pub run_tether : Handler
  run_tether [] d = send_syntax_error "Missing argument" d
  run_tether (what ∷ args) d =
      if what is "stop"
      then tethered d (ok tt, stop_tethering (d.tether, d.world))
      else if what is "status"
      then send_msg 210
          (if is_tethering_started d.tether
            then "Tethering services started"
            else "Tethering services stopped")
          d
      else tether_more what args d

  abbrev pub alerted : Bool × (Bandwidth × World) → Daemon → Out
  alerted (res, s) d = send_nat (from_bool res) (with_bandwidth s d)

  -- The alert follows a pair that was enabled.
  abbrev pub nat_enabled : Result (Unit {0}) × (Nat × World) → Daemon → Out
  nat_enabled (ok a, (n, w)) d =
      alerted (set_global_alert_in_forward_chain kernel (d.bandwidth, w)) (with_nat (n, w) d)
  nat_enabled (err e, s) d = send_nat (err e) (with_nat s d)

  abbrev pub nat_disabled : String → String → Bool × (Bandwidth × World) → Daemon → Out
  nat_disabled int_iface ext_iface (res, (b, w)) d =
      let (r, s) = disable_nat kernel int_iface ext_iface (d.nat, w) in
      send_nat (or_result res r) (with_nat s (with_bandwidth (b, w) d))

  -- nat enable|disable <interface> <upstream interface> <number> ...
  unfoldable pub run_nat : Handler
  run_nat (word ∷ int_iface ∷ ext_iface ∷ arg ∷ args) d =
      if word is "enable"
      then nat_enabled (enable_nat kernel int_iface ext_iface (d.nat, d.world)) d
      else if word is "disable"
      then nat_disabled int_iface ext_iface
          (remove_global_alert_in_forward_chain kernel (d.bandwidth, d.world)) d
      else send_syntax_error "Unknown nat cmd" d
  run_nat args d = send_syntax_error "Missing argument" d
