-- ===== src/BandwidthController/Alerts.antt =====
-- server/BandwidthController.cpp: alerts, global, of the shared quota and of an interface.
use Prim.Native.String.{◌++◌}
use platform_system_netd.Prelude.{
  ℕ, ◌+◌, ◌-◌, ◌%◌, ◌^◌, Bool, true, false, not, ◌&&◌, ◌||◌, Option, none, some, [], ◌∷◌, String,
  leb, ltb, ◌==◌, if◌then◌else◌,
}
use platform_system_netd.Kernel.{Kernel, World, text, write_file, record_call}
use platform_system_netd.Prefix.{is_iface_name}
use platform_system_netd.Kernel.Words.{signed}
use platform_system_netd.BandwidthController.{
  Bandwidth, QuotaInfo, Method, find_quota, update_quota_info,
}
use platform_system_netd.BandwidthController.Commands.{
  IptOp, insert, delete, append, no_add, alert_cmd, alert_global_name, costly_chain, local_input,
  local_output, local_forward,
}
use platform_system_netd.BandwidthController.Running.{run_ipxtables_cmd, also}

abbrev pub with_shared_alert : ℕ → Bandwidth → Bandwidth
with_shared_alert bytes b = record b { shared_alert_bytes = bytes }

abbrev pub with_global_alert : ℕ → Bandwidth → Bandwidth
with_global_alert bytes b = record b { global_alert_bytes = bytes }

abbrev pub with_tether_count : ℕ → Bandwidth → Bandwidth
with_tether_count n b = record b { global_alert_tether_count = n }

abbrev pub on_shared_alert : (ℕ × World → Bool × (ℕ × World)) → Method
on_shared_alert f (b, w) =
    let (res, (alert, w')) = f (b.shared_alert_bytes, w) in (res, (with_shared_alert alert b, w'))

-- Through the iterator into the list; with no entry of the name it fails.
abbrev pub on_interface_alert :
    String → Option QuotaInfo → (ℕ × World → Bool × (ℕ × World)) → Method
on_interface_alert iface none f s = (true, s)
on_interface_alert iface (some q) f (b, w) =
    let (res, (alert, w')) = f (q.alert, w) in
    let write : QuotaInfo → QuotaInfo = λ (i : QuotaInfo). record i { alert = alert } in
    (res, (record b { quota_ifaces = update_quota_info iface write b.quota_ifaces }, w'))

module _ (kernel : Kernel) where
  -- Whether the file opens is all that is looked at.
  unfoldable pub update_quota : String → ℕ → World → Bool × World
  update_quota quota_name bytes w =
      let fname : String = "/proc/net/xt_quota/" ++ quota_name in
      if not (is_iface_name quota_name)
      then (true, w)
      else if kernel.writes w.calls fname
      then (false, record_call (write_file fname (signed 64 bytes ∷ text "\n" ∷ [])) w)
      else (true, w)

  unfoldable pub run_iptables_alert_cmd : IptOp → String → ℕ → World → Bool × World
  run_iptables_alert_cmd op alert_name bytes w =
      also kernel (alert_cmd op local_output bytes alert_name) no_add
        (run_ipxtables_cmd kernel (alert_cmd op local_input bytes alert_name) no_add w)

  unfoldable pub run_iptables_alert_fwd_cmd : IptOp → String → ℕ → World → Bool × World
  run_iptables_alert_fwd_cmd op alert_name bytes w =
      run_ipxtables_cmd kernel (alert_cmd op local_forward bytes alert_name) no_add w

  -- `if (globalAlertTetherCount) res |= runIptablesAlertFwdCmd(...)`
  abbrev pub also_fwd : IptOp → ℕ → Bandwidth → Bool × World → Bool × World
  also_fwd op bytes b (res, w) =
      let (more, w') = run_iptables_alert_fwd_cmd op alert_global_name bytes w in
      if b.global_alert_tether_count == 0 then (res, w) else (res || more, w')

  unfoldable pub set_global_alert : ℕ → Method
  set_global_alert bytes (b, w) =
      let (res, w') =
        if b.global_alert_bytes == 0
        then also_fwd insert bytes b (run_iptables_alert_cmd insert alert_global_name bytes w)
        else update_quota alert_global_name bytes w in
      if bytes == 0 then (true, (b, w)) else (res, (with_global_alert bytes b, w'))

  unfoldable pub set_global_alert_in_forward_chain : Method
  set_global_alert_in_forward_chain (b, w) =
      let count : ℕ = (b.global_alert_tether_count + 1) % 2 ^ 32 in
      let (res, w') = run_iptables_alert_fwd_cmd insert alert_global_name b.global_alert_bytes w in
      if b.global_alert_bytes == 0 || not (count == 1)
      then (false, (with_tether_count count b, w))
      else (res, (with_tether_count count b, w'))

  unfoldable pub remove_global_alert : Method
  remove_global_alert (b, w) =
      let (res, w') =
        also_fwd delete b.global_alert_bytes b
          (run_iptables_alert_cmd delete alert_global_name b.global_alert_bytes w) in
      if b.global_alert_bytes == 0 then (true, (b, w)) else (res, (with_global_alert 0 b, w'))

  -- `>= 1` on an int of 32 bits.
  unfoldable pub remove_global_alert_in_forward_chain : Method
  remove_global_alert_in_forward_chain (b, w) =
      let count : ℕ = (b.global_alert_tether_count + (2 ^ 32 - 1)) % 2 ^ 32 in
      let (res, w') = run_iptables_alert_fwd_cmd delete alert_global_name b.global_alert_bytes w in
      if b.global_alert_tether_count == 0
      then (true, (b, w))
      else if b.global_alert_bytes == 0 || leb 1 count && ltb count (2 ^ 31)
      then (false, (with_tether_count count b, w))
      else (res, (with_tether_count count b, w'))

  -- `*alertBytes` is passed in, and what it holds afterwards is passed out. An alert that is there
  -- is updated to the bytes that it has.
  unfoldable pub set_costly_alert : String → ℕ → ℕ × World → Bool × (ℕ × World)
  set_costly_alert cost_name bytes (alert_bytes, w) =
      let alert_name : String = cost_name ++ "Alert" in
      let (res, w') =
        if alert_bytes == 0
        then run_ipxtables_cmd kernel (alert_cmd append (costly_chain cost_name) bytes alert_name)
            no_add w
        else update_quota alert_name alert_bytes w in
      if not (is_iface_name cost_name) || bytes == 0
      then (true, (alert_bytes, w))
      else (res, (bytes, w'))

  unfoldable pub remove_costly_alert : String → ℕ × World → Bool × (ℕ × World)
  remove_costly_alert cost_name (alert_bytes, w) =
      let alert_name : String = cost_name ++ "Alert" in
      let (res, w') =
        run_ipxtables_cmd kernel (alert_cmd delete (costly_chain cost_name) alert_bytes alert_name)
          no_add w in
      if not (is_iface_name cost_name) || alert_bytes == 0
      then (true, (alert_bytes, w))
      else (res, (0, w'))

  unfoldable pub set_shared_alert : ℕ → Method
  set_shared_alert bytes (b, w) =
      if b.shared_quota_bytes == 0 || bytes == 0
      then (true, (b, w))
      else on_shared_alert (set_costly_alert "shared" bytes) (b, w)

  unfoldable pub remove_shared_alert : Method
  remove_shared_alert s = on_shared_alert (remove_costly_alert "shared") s

  unfoldable pub set_interface_alert : String → ℕ → Method
  set_interface_alert iface bytes (b, w) =
      if not (is_iface_name iface) || bytes == 0
      then (true, (b, w))
      else on_interface_alert iface (find_quota iface b.quota_ifaces) (set_costly_alert iface bytes)
          (b, w)

  unfoldable pub remove_interface_alert : String → Method
  remove_interface_alert iface (b, w) =
      if not (is_iface_name iface)
      then (true, (b, w))
      else on_interface_alert iface (find_quota iface b.quota_ifaces) (remove_costly_alert iface)
          (b, w)
