-- ===== src/CommandListener/Consistent.antt =====
-- The commands ipfwd, tether and nat: the state and the messages after them.
use platform_system_netd.Prelude.{
  ℕ, ◌≡◌, refl, leb, ltb, Bool, true, false, not, ◌&&◌, Option, none, some, List, [], ◌∷◌, String,
  if◌then◌else◌, if_cases, arith,
}
use platform_system_netd.Kernel.{Kernel, World, Result, ok, err}
use platform_system_netd.TetherController.{Tether}
use platform_system_netd.TetherController.Dns.{Address, printed}
use platform_system_netd.TetherController.Forwarding.{set_ip_fwd_enabled}
use platform_system_netd.CommandListener.Arguments.{◌is◌}
use platform_system_netd.TetherController.Reachable as Tethers
use platform_system_netd.NatController.{Nat}
use platform_system_netd.BandwidthController.{Bandwidth}
use platform_system_netd.BandwidthController.Kept as Alerts
use platform_system_netd.NatController.{disable_nat}
use platform_system_netd.CommandListener.Daemon.{reply, Daemon, Out, Reply, send_msg, with_nat}
use platform_system_netd.CommandListener.Tethering.{
  send_ip_fwd, with_flag, from_bool, after_list, list_reply, alerted, or_result, ip_fwd_off,
  run_ip_fwd, start_ranges, tether_list, tether_names, tether_dns, tether_more, tethered,
  send_tether, run_tether, nat_enabled, nat_disabled, run_nat,
}
use platform_system_netd.CommandListener.Answers.{announce_more, announce_more-map, is_answer-cons}
use platform_system_netd.CommandListener.Kept.{
  IsConsistent, After, result-After, with_bandwidth-IsConsistent,
}

module _ (single : Bool) where
  pub if-After :
      (b : Bool) (x y : Out) → After single x → After single y → After single (if b then x else y)
  if-After true x y h h' = h
  if-After false x y h h' = h'

  send_ip_fwd-After :
      (out : Bool × World) (d : Daemon) → IsConsistent d → After single (send_ip_fwd out d)
  send_ip_fwd-After (res, w) d v = result-After single _ _ (from_bool res) _ v

  off-After :
      (width : ℕ) (kernel : Kernel) (d : Daemon)
      → IsConsistent d
      → After single (ip_fwd_off width kernel d)
  off-After width kernel d v =
      if_cases (After single) (not d.iwlan_fwd_enable && not d.fw_ip_fwd_enable)
        (λ _. send_ip_fwd-After (set_ip_fwd_enabled kernel false d.world) d v)
        (λ _. send_ip_fwd-After (false, d.world) d v)

  module _ (d : Daemon) (v : IsConsistent d) where
    tethered-After :
        (out : Result (Unit {0}) × (Tether × World))
        → Tethers.After out.1
        → After single (tethered d out)
    tethered-After (res, (t, w)) h = result-After single _ _ res _ (record {
      well_formed = v.well_formed;
      exclusive = v.exclusive;
      tether = h.valid;
      bandwidth = v.bandwidth;
    })

    pub msg-After :
        (code : ℕ) (message : String) → leb 200 code ≡ true → After single (send_msg code message d)
    msg-After code message ends = record { kept = v; once = λ _. ends }

    messages-After :
        (replies : List Reply) (out : Out)
        → announce_more replies ≡ true
        → After single out
        → After single (after_list replies out)
    messages-After [] out more h = h
    messages-After (r ∷ replies) out more h =
        let first : ltb r.code 200 ≡ true = ground arith in
        let others : announce_more replies ≡ true = ground arith in
        let rest = messages-After replies out others h in
        record { kept = rest.kept; once = λ e. is_answer-cons r _ first (rest.once e) }

    list-After : (what word : String) → After single (tether_list what word d)
    list-After what word =
        let okay : After single (send_tether (ok tt) d) = record { kept = v; once = λ _. refl } in
        if_cases (After single) (what is "interface" && word is "list")
          (λ _.
            messages-After _ _ (announce_more-map list_reply (λ name. refl) d.tether.interfaces)
              okay)
          λ _.
            if_cases (After single) (what is "dns" && word is "list")
              (λ _.
                messages-After (_ ∷ _) _
                  (announce_more-map (λ address. reply 112 (printed address)) (λ address. refl)
                    d.tether.dns_forwarders)
                  okay)
              (λ _. okay)

    flag-IsConsistent : (iwlan on : Bool) → IsConsistent (with_flag iwlan on d)
    flag-IsConsistent true on = v
    flag-IsConsistent false on = v

    module _ (width : ℕ) (kernel : Kernel) where
      pub ip_fwd-After : (args : List String) → After single (run_ip_fwd width kernel args d)
      unfolding run_ip_fwd
      ip_fwd-After [] = record { kept = v; once = λ _. refl }
      ip_fwd-After (word ∷ args) =
          search (if-After, msg-After, send_ip_fwd-After, off-After, flag-IsConsistent) depth 20

      names-After : (word iface : String) → After single (tether_names width kernel word iface d)
      names-After word iface =
          search
            (
              if-After,
              tethered-After,
              msg-After,
              Tethers.tether-After kernel,
              Tethers.untether-After kernel,
              Tethers.add_upstream-After kernel,
              Tethers.remove_upstream-After kernel,
              v.tether,
            )
            depth 20

      dns-After :
          (word net_id : String) (args : List String)
          → After single (tether_dns width kernel word net_id args d)
      dns-After word net_id [] = search (if-After, msg-After)
      dns-After word net_id (a ∷ args) =
          search (if-After, tethered-After, msg-After, Tethers.dns-After kernel, v.tether)

      start-After :
          (o : Option (List (Address × Address))) → After single (start_ranges width kernel o d)
      start-After none = record { kept = v; once = λ _. refl }
      start-After (some ranges) = tethered-After _ (Tethers.start-After kernel ranges _ _ v.tether)

      more-After :
          (what : String) (args : List String) → After single (tether_more width kernel what args d)
      more-After what [] = record { kept = v; once = λ _. refl }
      more-After what (word ∷ []) = list-After what word
      more-After what (word ∷ arg ∷ args) =
          search (if-After, msg-After, start-After, names-After, dns-After) depth 20

      pub tether-After : (args : List String) → After single (run_tether width kernel args d)
      unfolding run_tether
      tether-After [] = record { kept = v; once = λ _. refl }
      tether-After (what ∷ args) =
          search
            (if-After, tethered-After, msg-After, Tethers.stop-After kernel, v.tether, more-After)
            depth 20

      alerted-After :
          (n : Nat) (w : World) (out : Bool × (Bandwidth × World))
          → Alerts.After out
          → After single (alerted width kernel out (with_nat (n, w) d))
      alerted-After n w (res, (b, w')) h =
          result-After single _ _ (from_bool res) _ (with_bandwidth-IsConsistent d b w' v h.valid)

      nat_enabled-After :
          (out : Result (Unit {0}) × (Nat × World)) → After single (nat_enabled width kernel out d)
      nat_enabled-After (ok a, (n, w)) =
          alerted-After n w _ (Alerts.tethered-After kernel width d.bandwidth w v.bandwidth)
      nat_enabled-After (err e, (n, w)) = record { kept = v; once = λ _. refl }

      nat_disabled-After :
          (int_iface ext_iface : String) (out : Bool × (Bandwidth × World))
          → Alerts.After out
          → After single (nat_disabled width kernel int_iface ext_iface out d)
      nat_disabled-After int_iface ext_iface (res, (b, w)) h =
          let (r, s) = disable_nat kernel int_iface ext_iface (d.nat, w) in
          result-After single _ _ (or_result res r) _ (with_bandwidth-IsConsistent d b w v h.valid)

      pub nat-After : (args : List String) → After single (run_nat width kernel args d)
      unfolding run_nat
      nat-After [] = record { kept = v; once = λ _. refl }
      nat-After (a ∷ []) = record { kept = v; once = λ _. refl }
      nat-After (a ∷ b ∷ []) = record { kept = v; once = λ _. refl }
      nat-After (a ∷ b ∷ c ∷ []) = record { kept = v; once = λ _. refl }
      nat-After (word ∷ int_iface ∷ ext_iface ∷ arg ∷ args) =
          search
            (
              if-After,
              msg-After,
              nat_enabled-After,
              nat_disabled-After,
              Alerts.untethered-After kernel width,
              v.bandwidth,
            )
            depth 20
