-- ===== src/CommandListener/Rules.antt =====
-- server/CommandListener.cpp: IdletimerControlCmd, FirewallCmd and ClatdCmd.
use platform_system_netd.Prelude.{
  ℕ, Bool, true, false, not, List, [], ◌∷◌, String, bit_or, ◌==◌, if◌then◌else◌,
}
use platform_system_netd.Kernel.{Kernel, World, Result, ok, err}
use platform_system_netd.IdletimerController.{
  TimerOut, enable_idletimer_control, disable_idletimer_control, add_interface_idletimer,
  remove_interface_idletimer,
}
use platform_system_netd.FirewallController.{
  FirewallRule, allow, deny, enable_firewall, disable_firewall, set_interface_rule,
  set_egress_source_rule, set_egress_dest_rule, set_uid_rule,
}
use platform_system_netd.ClatdController.{Pids, start_clatd, stop_clatd, is_clatd_started}
use platform_system_netd.CommandListener.Arguments.{◌is◌, atoi}
use platform_system_netd.CommandListener.Daemon.{
  Daemon, Out, Handler, send_msg, send_syntax_error, send_ok_fail, is_err, with_world, with_clatd,
}

-- A failure to enable or disable is answered as a syntax error.
abbrev pub timers_set : String → TimerOut → Daemon → Out
timers_set okay (ok a, w) d = send_msg 200 okay (with_world w d)
timers_set okay (err e, w) d = send_syntax_error "Missing argument" (with_world w d)

abbrev pub timer_changed : String → String → TimerOut → Daemon → Out
timer_changed okay fail (res, w) d = send_ok_fail okay fail (is_err res) (with_world w d)

abbrev pub firewall_result : ℕ × World → Daemon → Out
firewall_result (res, w) d =
    send_ok_fail "Firewall command succeeded" "Firewall command failed" (not (res == 0))
      (with_world w d)

-- An error as the -1 that it is.
abbrev int_of : Result ℕ × World → ℕ × World
int_of (ok res, w) = (res, w)
int_of (err e, w) = (1, w)

abbrev pub parse_rule : String → FirewallRule
parse_rule arg = if arg is "allow" then allow else deny

abbrev or_then : ℕ × World → (World → ℕ × World) → ℕ × World
or_then (res, w) f = let (more, w') = f w in (bit_or res more, w')

abbrev pub clatd_done : Daemon → Result (Unit {0}) × (Pids × World) → Out
clatd_done d (res, s) =
    send_ok_fail "Clatd operation succeeded" "Clatd operation failed" (is_err res) (with_clatd s d)

abbrev pub clatd_status : Bool × Pids → Daemon → Out
clatd_status (started, pids) d =
    send_msg 223 (if started then "Clatd status: started" else "Clatd status: stopped")
      (with_clatd (pids, d.world) d)

module _ (width : ℕ) (kernel : Kernel) where
  abbrev pub timer_words : Bool → List String → Daemon → Out
  timer_words true (iface ∷ timeout ∷ label ∷ []) d =
      timer_changed "Add success" "Failed to add interface"
        (add_interface_idletimer kernel iface (atoi width timeout) label d.world) d
  timer_words false (iface ∷ timeout ∷ label ∷ []) d =
      timer_changed "Remove success" "Failed to remove interface"
        (remove_interface_idletimer kernel iface (atoi width timeout) label d.world) d
  timer_words on args d = send_syntax_error "Missing argument" d

  unfoldable pub run_idletimer : Handler
  run_idletimer [] d = send_syntax_error "Missing argument" d
  run_idletimer (word ∷ args) d =
      if word is "enable"
      then timers_set "Enable success" (enable_idletimer_control kernel d.world) d
      else if word is "disable"
      then timers_set "Disable success" (disable_idletimer_control kernel d.world) d
      else if word is "add"
      then timer_words true args d
      else if word is "remove"
      then timer_words false args d
      else send_syntax_error "Unknown idletimer cmd" d

  abbrev pub firewall_iface : List String → Daemon → Out
  firewall_iface (iface ∷ rule ∷ []) d =
      firewall_result (int_of (set_interface_rule kernel iface (parse_rule rule) d.world)) d
  firewall_iface args d =
      send_syntax_error "Usage: firewall set_interface_rule <rmnet0> <allow|deny>" d

  abbrev pub firewall_source : List String → Daemon → Out
  firewall_source (addr ∷ rule ∷ []) d =
      firewall_result (set_egress_source_rule kernel addr (parse_rule rule) d.world) d
  firewall_source args d =
      send_syntax_error "Usage: firewall set_egress_source_rule <192.168.0.1> <allow|deny>" d

  -- TCP and UDP
  abbrev pub firewall_dest : List String → Daemon → Out
  firewall_dest (addr ∷ port ∷ rule ∷ []) d =
      let set = λ (protocol : ℕ).
        set_egress_dest_rule kernel addr protocol (atoi width port) (parse_rule rule) in
      firewall_result (or_then (set 6 d.world) (set 17)) d
  firewall_dest args d =
      send_syntax_error "Usage: firewall set_egress_dest_rule <192.168.0.1> <80> <allow|deny>" d

  abbrev pub firewall_uid : List String → Daemon → Out
  firewall_uid (uid ∷ rule ∷ []) d =
      firewall_result (set_uid_rule kernel (atoi width uid) (parse_rule rule) d.world) d
  firewall_uid args d = send_syntax_error "Usage: firewall set_uid_rule <1000> <allow|deny>" d

  -- isFirewallEnabled always gives -1.
  unfoldable pub run_firewall : Handler
  run_firewall [] d = send_syntax_error "Missing command" d
  run_firewall (word ∷ args) d =
      if word is "enable"
      then firewall_result (enable_firewall kernel d.world) d
      else if word is "disable"
      then firewall_result (disable_firewall kernel d.world) d
      else if word is "is_enabled"
      then firewall_result (1, d.world) d
      else if word is "set_interface_rule"
      then firewall_iface args d
      else if word is "set_egress_source_rule"
      then firewall_source args d
      else if word is "set_egress_dest_rule"
      then firewall_dest args d
      else if word is "set_uid_rule"
      then firewall_uid args d
      else send_syntax_error "Unknown command" d

  -- `runs` is what `waitpid` answers of a process at the time of the command.
  unfoldable pub run_clatd : (World → ℕ → Bool) → Handler
  run_clatd runs (word ∷ interface ∷ args) d =
      if word is "stop"
      then clatd_done d (stop_clatd interface (d.clatd, d.world))
      else if word is "status"
      then clatd_status (is_clatd_started (runs d.world) interface d.clatd) d
      else if word is "start"
      then clatd_done d (start_clatd kernel d.networks interface (d.clatd, d.world))
      else send_syntax_error "Unknown clatd cmd" d
  run_clatd runs args d = send_syntax_error "Missing argument" d
