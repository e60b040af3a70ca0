-- ===== src/BandwidthController/Tables.antt =====
-- server/BandwidthController.cpp: the chains that are flushed, removed and set up, and the reset.
use platform_system_netd.Prelude.{
  ℕ, Bool, true, false, not, ◌&&◌, Option, none, some, List, [], ◌∷◌, String, str_eq, if◌then◌else◌,
}
use platform_system_netd.Kernel.{Kernel, World, Word, text, output_of, record_call}
use platform_system_netd.Iptables.{iptables_path}
use platform_system_netd.CStrings.Scan.{
  fgets_all, Directive, space, word, literal, Scanned, name, sscanf,
}
use platform_system_netd.BandwidthController.{Bandwidth, Method}
use platform_system_netd.BandwidthController.Commands.{
  no_add, on_chain, costly_chain, ipt_flush_commands, ipt_cleanup_commands, ipt_setup_commands,
  ipt_basic_accounting_commands,
}
use platform_system_netd.BandwidthController.Running.{
  run_ipxtables_cmd, run_commands, failure_bad, failure_ok,
}

-- `char lineBuffer[MAX_IPT_OUTPUT_LINE_LEN]` holds a terminator too.
abbrev pub line_room : ℕ
line_room = 255

-- "-N bw_costly_%s"
abbrev costly_format : List Directive
costly_format = literal "-N" ∷ space ∷ literal "bw_costly_" ∷ word ∷ []

-- The interface whose chain a line creates.
abbrev costly_name : List Scanned → Option String
costly_name (name iface ∷ []) = if str_eq iface "shared" then none else some iface
costly_name scanned = none

-- What the property holds; it is "1" if it is not set.
abbrev pub is_switched_off : Option String → Bool
is_switched_off none = false
is_switched_off (some value) = str_eq value "0"

-- "Let's pretend we started from scratch".
abbrev pub cleared : Bandwidth
cleared = record {
  shared_quota_ifaces = [];
  shared_quota_bytes = 0;
  shared_alert_bytes = 0;
  global_alert_bytes = 0;
  global_alert_tether_count = 0;
  quota_ifaces = [];
  naughty_app_uids = [];
  nice_app_uids = [];
}

module _ (kernel : Kernel) where
  abbrev run_world : List Word → World → World
  run_world cmd w = (run_ipxtables_cmd kernel cmd no_add w).1

  abbrev flush_costly : Bool → Option String → World → World
  flush_costly do_remove none w = w
  flush_costly do_remove (some iface) w =
      let flushed = run_world (on_chain "-F" (costly_chain iface)) w in
      if do_remove then run_world (on_chain "-X" (costly_chain iface)) flushed else flushed

  unfoldable pub parse_and_flush_costly_tables : List String → Bool → World → World
  parse_and_flush_costly_tables [] do_remove w = w
  parse_and_flush_costly_tables (line ∷ lines) do_remove w =
      parse_and_flush_costly_tables lines do_remove
        (flush_costly do_remove (costly_name (sscanf costly_format line)) w)

  abbrev flush_listed : Bool → Option String → World → World
  flush_listed do_clean none w = w
  flush_listed do_clean (some output) w =
      parse_and_flush_costly_tables (fgets_all line_room line_room output) do_clean w

  unfoldable pub flush_existing_costly_tables : Bool → World → World
  flush_existing_costly_tables do_clean w =
      let full_cmd : List Word = text iptables_path ∷ text "-S" ∷ [] in
      flush_listed do_clean (kernel.popen w.calls full_cmd) (record_call (output_of full_cmd) w)

  unfoldable pub flush_clean_tables : Bool → World → World
  flush_clean_tables do_clean w =
      let w₁ = flush_existing_costly_tables do_clean w in
      let w₂ = (run_commands kernel ipt_flush_commands failure_ok w₁).1 in
      if do_clean then (run_commands kernel ipt_cleanup_commands failure_ok w₂).1 else w₂

  -- The result of the setup commands is not looked at.
  unfoldable pub setup_iptables_hooks : Method
  setup_iptables_hooks (b, w) = (
    false,
    (b, (run_commands kernel ipt_setup_commands failure_bad (flush_clean_tables true w)).1),
  )

  unfoldable pub enable_bandwidth_control : Bool → Method
  enable_bandwidth_control force (b, w) =
      if not force && is_switched_off (kernel.property_get w.calls "persist.bandwidth.enable")
      then (false, (b, w))
      else (let (res, w') =
            run_commands kernel ipt_basic_accounting_commands failure_bad
              (flush_clean_tables false w) in
          (res, (cleared, w')))

  unfoldable pub disable_bandwidth_control : Method
  disable_bandwidth_control (b, w) = (false, (b, flush_clean_tables false w))
