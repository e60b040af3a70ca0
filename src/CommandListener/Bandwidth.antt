-- ===== src/CommandListener/Bandwidth.antt =====
-- server/CommandListener.cpp: BandwidthControlCmd.
use Prim.Native.String.{◌++◌ as ◌+++◌}
use platform_system_netd.Prelude.{
  ℕ, Bool, true, false, ◌||◌, Option, none, some, List, [], ◌∷◌, ◌++◌, map, String, if◌then◌else◌,
}
use platform_system_netd.Kernel.{Kernel, World, text}
use platform_system_netd.Kernel.Words.{signed}
use platform_system_netd.BandwidthController.{Bandwidth}
use platform_system_netd.BandwidthController.Commands.{add, remove}
use platform_system_netd.BandwidthController.Operations.{
  Operation, disable, box, unbox, global_off, tethered, untethered, shared_alert_off, enable,
  naughty, nice, global_on, shared_alert_on, alert_on, quota, shared_quota, alert_off, quota_off,
  shared_quota_off, perform,
}
use platform_system_netd.BandwidthController.Quotas.{
  get_interface_quota, get_interface_shared_quota,
}
use platform_system_netd.BandwidthController.Stats.{
  no_stats, Message, tethering_stats_result, tethering_stats_list_result, command_okay,
}
use platform_system_netd.BandwidthController.Parsing.{get_tether_stats}
use platform_system_netd.CommandListener.Arguments.{◌is◌, atoll}
use platform_system_netd.CommandListener.Daemon.{
  Daemon, Out, Handler, Reply, reply, send_msg, send_syntax_error, send_ok_fail, with_world,
  with_bandwidth,
}

abbrev pub Step : Type 0
Step = Daemon → Out

-- sendGenericSyntaxError
abbrev pub usage_error : String → Step
usage_error usage = send_syntax_error ("Usage: bandwidth " +++ usage)

-- sendGenericOkFail
abbrev pub generic_ok_fail : Bool → Step
generic_ok_fail = send_ok_fail "Bandwidth command succeeeded" "Bandwidth command failed"

abbrev pub finish : Daemon → Bool × (Bandwidth × World) → Out
finish d (res, s) = generic_ok_fail res (with_bandwidth s d)

-- A command with so many arguments; with another number the answer is the usage.
abbrev pub with_none : String → Step → List String → Step
with_none usage f [] = f
with_none usage f args = usage_error usage

abbrev pub with_one : String → (String → Step) → List String → Step
with_one usage f (a ∷ []) = f a
with_one usage f args = usage_error usage

abbrev pub with_two : String → (String → String → Step) → List String → Step
with_two usage f (a ∷ b ∷ []) = f a b
with_two usage f args = usage_error usage

abbrev pub with_some : String → (String → List String → Step) → List String → Step
with_some usage f [] = usage_error usage
with_some usage f (a ∷ args) = f a args

abbrev pub quota_reply : Option ℕ → Step
quota_reply none d = send_msg 400 "Failed to get quota" d
quota_reply (some bytes) d = (reply 220 (signed 64 bytes ∷ []) ∷ [], d)

abbrev pub quota_of : (World → Option ℕ) → Step
quota_of get d = quota_reply (get d.world) d

abbrev stats_reply : Message → Reply
stats_reply (tethering_stats_result words) = reply 221 words
stats_reply (tethering_stats_list_result words) = reply 114 words
stats_reply (command_okay message) = reply 200 (text message ∷ [])

abbrev stats_failed : Bool → String → List Reply
stats_failed true extra = reply 400 (text ("Failed to get tethering stats.\n" +++ extra) ∷ []) ∷ []
stats_failed false extra = []

-- The messages of the call, and after an error the text of what was read.
abbrev pub stats_replies : (Bool × (List Message × String)) × World → Step
stats_replies ((res, (sent, extra)), w) d =
    (map stats_reply sent ++ stats_failed res extra, with_world w d)

abbrev pub either : String → String → String → Bool
either word long short = word is long || word is short

abbrev failed_for : String → List String → Reply
failed_for command args = reply 400 (text command ∷ (map text args ++ text " failed" ∷ []))

module _ (width : ℕ) (kernel : Kernel) where
  abbrev pub operate : Operation → Step
  operate op d = finish d (perform kernel width op (d.bandwidth, d.world))

  -- One interface after the other, up to the first that fails.
  unfoldable pub for_ifaces : (String → Operation) → (String → Reply) → List String → Step
  for_ifaces op failure [] d = generic_ok_fail false d
  for_ifaces op failure (iface ∷ ifaces) d =
      let (res, s) = perform kernel width (op iface) (d.bandwidth, d.world) in
      let more = for_ifaces op failure ifaces (with_bandwidth s d) in
      if res then (failure iface ∷ [], with_bandwidth s d) else more

  abbrev pub set_quotas : String → List String → Step
  set_quotas bytes ifaces =
      for_ifaces (λ iface. shared_quota iface (atoll bytes))
        (λ iface. failed_for "bandwidth setquotas " (bytes ∷ " " ∷ iface ∷ [])) ifaces

  abbrev pub several_quotas : String → List String → Step
  several_quotas bytes [] = usage_error "setquotas <bytes> <interface> ..."
  several_quotas bytes (iface ∷ ifaces) = set_quotas bytes (iface ∷ ifaces)

  abbrev pub happy_box : String → List String → Step
  happy_box word args =
      if word is "enable"
      then operate box
      else if word is "disable"
      then operate unbox
      else usage_error "happybox (enable | disable)"

  abbrev filtered_stats : String → String → Step
  filtered_stats int_iface ext_iface d =
      stats_replies
        (get_tether_stats kernel (record no_stats { int_iface = int_iface; ext_iface = ext_iface })
          ([], "") d.world)
        d

  -- No filter, and no pair that could have counters.
  abbrev pub all_stats : List String → Step
  all_stats [] = send_msg 200 "Tethering stats list completed"
  all_stats (name ∷ names) = filtered_stats "" ""

  abbrev pub tether_stats : List String → Step
  tether_stats [] d = all_stats d.nat.iface_pair_list d
  tether_stats (i ∷ []) d = filtered_stats i "" d
  tether_stats (i ∷ e ∷ []) d = filtered_stats i e d
  tether_stats args d = usage_error "gettetherstats [<intInterface> <extInterface>]" d

  abbrev pub run_stats : String → List String → Step
  run_stats word args =
      if either word "gettetherstats" "gts"
      then tether_stats args
      else send_syntax_error "Unknown bandwidth cmd"

  -- The second half of the commands.
  abbrev pub run_alerts : String → List String → Step
  run_alerts word args =
      if either word "setglobalalert" "sga"
      then with_one "setglobalalert <bytes>" (λ a. operate (global_on (atoll a))) args
      else if either word "debugsettetherglobalalert" "dstga"
      then with_two "debugsettetherglobalalert <interface0> <interface1>" (λ a b. operate tethered)
          args
      else if either word "removeglobalalert" "rga"
      then with_none "removeglobalalert" (operate global_off) args
      else if either word "debugremovetetherglobalalert" "drtga"
      then with_two "debugremovetetherglobalalert <interface0> <interface1>"
          (λ a b. operate untethered) args
      else if either word "setsharedalert" "ssa"
      then with_one "setsharedalert <bytes>" (λ a. operate (shared_alert_on (atoll a))) args
      else if either word "removesharedalert" "rsa"
      then with_none "removesharedalert" (operate shared_alert_off) args
      else if either word "setinterfacealert" "sia"
      then with_two "setinterfacealert <interface> <bytes>" (λ a b. operate (alert_on a (atoll b)))
          args
      else if either word "removeinterfacealert" "ria"
      then with_one "removeinterfacealert <interface>" (λ a. operate (alert_off a)) args
      else run_stats word args

  abbrev pub run_apps : String → List String → Step
  run_apps word args =
      if either word "addnaughtyapps" "ana"
      then with_some "addnaughtyapps <appUid> ..." (λ a l. operate (naughty (a ∷ l) add)) args
      else if either word "removenaughtyapps" "rna"
      then with_some "removenaughtyapps <appUid> ..." (λ a l. operate (naughty (a ∷ l) remove)) args
      else if word is "happybox"
      then with_some "happybox (enable | disable)" happy_box args
      else if either word "addniceapps" "aha"
      then with_some "addniceapps <appUid> ..." (λ a l. operate (nice (a ∷ l) add)) args
      else if either word "removeniceapps" "rha"
      then with_some "removeniceapps <appUid> ..." (λ a l. operate (nice (a ∷ l) remove)) args
      else run_alerts word args

  unfoldable pub run_bandwidth : Handler
  run_bandwidth [] = usage_error "<cmds> <args...>"
  run_bandwidth (word ∷ args) =
      if word is "enable"
      then operate (enable true)
      else if word is "disable"
      then operate disable
      else if either word "removequota" "rq"
      then with_one "removequota <interface>" (λ a. operate (shared_quota_off a)) args
      else if either word "getquota" "gq"
      then with_none "getquota" (quota_of (get_interface_shared_quota kernel)) args
      else if either word "getiquota" "giq"
      then with_one "getiquota <iface>" (λ a. quota_of (get_interface_quota kernel a)) args
      else if either word "setquota" "sq"
      then with_two "setquota <interface> <bytes>" (λ a b. operate (shared_quota a (atoll b))) args
      else if either word "setquotas" "sqs"
      then with_some "setquotas <bytes> <interface> ..." several_quotas args
      else if either word "removequotas" "rqs"
      then with_some "removequotas <interface> ..."
          (λ a l.
            for_ifaces shared_quota_off (λ iface. failed_for "bandwidth removequotas " (iface ∷ []))
              (a ∷ l))
          args
      else if either word "removeiquota" "riq"
      then with_one "removeiquota <interface>" (λ a. operate (quota_off a)) args
      else if either word "setiquota" "siq"
      then with_two "setiquota <interface> <bytes>" (λ a b. operate (quota a (atoll b))) args
      else run_apps word args
