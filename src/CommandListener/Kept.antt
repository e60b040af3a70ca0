-- ===== src/CommandListener/Kept.antt =====
-- Parts of the commands, and the state and the messages after them.
use platform_system_netd.Prelude.{
  ℕ, ◌≡◌, refl, leb, Bool, true, false, Option, none, some, List, [], ◌∷◌, String, if◌then◌else◌,
  if_cases,
}
use platform_system_netd.Kernel.{Kernel, World, Result, ok, err}
use platform_system_netd.Controller.Invariant.{IsWellFormed}
use platform_system_netd.Controller.Holders.{IsExclusive}
use platform_system_netd.Controller.State.{Controller}
use platform_system_netd.TetherController.{Tether}
use platform_system_netd.TetherController.Reachable as Tethers
use platform_system_netd.BandwidthController.{Bandwidth}
use platform_system_netd.BandwidthController.Lists as Lists
use platform_system_netd.BandwidthController.Invariant as Invariant
use platform_system_netd.BandwidthController.Operations.{Operation, perform}
use platform_system_netd.CommandListener.Daemon.{
  Daemon, Out, Reply, send_msg, send_result, send_ok_fail, with_bandwidth,
}
use platform_system_netd.CommandListener.Answers.{is_answer}
use platform_system_netd.CommandListener.Bandwidth.{
  Step, either, run_stats, operate, for_ifaces, quota_of, quota_reply, all_stats, with_none,
  with_one, with_two, with_some, several_quotas, happy_box, tether_stats, run_alerts, run_apps,
  run_bandwidth,
}

-- No interface is in two networks, and what the invariants of the three controllers say.
pub record AreSound (c : Controller) (t : Tether) (b : Bandwidth) : Type 0 where
  pub well_formed : IsWellFormed c
  pub exclusive : IsExclusive c
  pub tether : Tethers.IsValid t
  pub bandwidth : Lists.IsValid b

abbrev pub IsConsistent : Daemon → Type 0
IsConsistent d = AreSound d.networks d.tether d.bandwidth

-- Whether the words of a bandwidth command ask for statistics.
abbrev pub asks_stats : List String → Bool
asks_stats [] = false
asks_stats (word ∷ args) = either word "gettetherstats" "gts"

pub with_bandwidth-IsConsistent :
    (d : Daemon) (b : Bandwidth) (w : World)
    → IsConsistent d
    → Lists.IsValid b
    → IsConsistent (record d { bandwidth = b; world = w })
with_bandwidth-IsConsistent d b w v h = record {
  well_formed = v.well_formed;
  exclusive = v.exclusive;
  tether = v.tether;
  bandwidth = h;
}

module _ (width : ℕ) (kernel : Kernel) where
  performed-IsConsistent :
      (op : Operation) (d : Daemon)
      → IsConsistent d
      → IsConsistent (with_bandwidth (perform kernel width op (d.bandwidth, d.world)).1 d)
  performed-IsConsistent op d v =
      let out : Bandwidth × World = (perform kernel width op (d.bandwidth, d.world)).1 in
      with_bandwidth-IsConsistent d out.0 out.1 v
        (Invariant.perform-After kernel width op d.bandwidth d.world v.bandwidth).valid

module _ (single : Bool) where
  -- What holds after a command: the invariants, and if it is a command that answers once, so it did.
  pub record After (out : Out) : Type 0 where
    pub kept : IsConsistent out.1
    pub once : single ≡ true → is_answer out.0 ≡ true

  pub result-After :
      (okay fail : String) (r : Result (Unit {0})) (d : Daemon)
      → IsConsistent d
      → After (send_result okay fail r d)
  result-After okay fail (ok a) d v = record { kept = v; once = λ _. refl }
  result-After okay fail (err e) d v = record { kept = v; once = λ _. refl }

  pub ok_fail-After :
      (okay fail : String) (r : Bool) (d : Daemon)
      → IsConsistent d
      → After (send_ok_fail okay fail r d)
  ok_fail-After okay fail false d v = record { kept = v; once = λ _. refl }
  ok_fail-After okay fail true d v = record { kept = v; once = λ _. refl }

  -- What a part of a command keeps, from any state.
  pub data Keeps (f : Step) : Type 0 where
    keeps : ((d : Daemon) → IsConsistent d → After (f d)) → Keeps f

  pub kept_by : {f : Step} → Keeps f → (d : Daemon) → IsConsistent d → After (f d)
  kept_by (keeps h) = h

  pub if-Keeps : (b : Bool) (f g : Step) → Keeps f → Keeps g → Keeps (if b then f else g)
  if-Keeps true f g h h' = h
  if-Keeps false f g h h' = h'

  quota-After : (o : Option ℕ) (d : Daemon) → IsConsistent d → After (quota_reply o d)
  quota-After none d v = record { kept = v; once = λ _. refl }
  quota-After (some bytes) d v = record { kept = v; once = λ _. refl }

  pub msg-Keeps :
      (code : ℕ) (message : String) → leb 200 code ≡ true → Keeps (send_msg code message)
  msg-Keeps code message ends = keeps (λ d v. record { kept = v; once = λ _. ends })

  -- The commands with so many arguments.
  none-Keeps :
      (usage : String) (f : Step) (args : List String) → Keeps f → Keeps (with_none usage f args)
  none-Keeps usage f [] h = h
  none-Keeps usage f (a ∷ args) h = msg-Keeps _ _ refl

  one-Keeps :
      (usage : String) (f : String → Step) (args : List String)
      → ((a : String) → Keeps (f a))
      → Keeps (with_one usage f args)
  one-Keeps usage f [] h = msg-Keeps _ _ refl
  one-Keeps usage f (a ∷ []) h = h a
  one-Keeps usage f (a ∷ b ∷ args) h = msg-Keeps _ _ refl

  two-Keeps :
      (usage : String) (f : String → String → Step) (args : List String)
      → ((a b : String) → Keeps (f a b))
      → Keeps (with_two usage f args)
  two-Keeps usage f [] h = msg-Keeps _ _ refl
  two-Keeps usage f (a ∷ []) h = msg-Keeps _ _ refl
  two-Keeps usage f (a ∷ b ∷ []) h = h a b
  two-Keeps usage f (a ∷ b ∷ c ∷ args) h = msg-Keeps _ _ refl

  some-Keeps :
      (usage : String) (f : String → List String → Step) (args : List String)
      → ((a : String) (more : List String) → Keeps (f a more))
      → Keeps (with_some usage f args)
  some-Keeps usage f [] h = msg-Keeps _ _ refl
  some-Keeps usage f (a ∷ args) h = h a args

  pub quota_of-Keeps : (get : World → Option ℕ) → Keeps (quota_of get)
  quota_of-Keeps get = keeps (λ d v. quota-After (get d.world) d v)

  ruleset keeping =
      (if-Keeps, none-Keeps, one-Keeps, two-Keeps, some-Keeps, msg-Keeps, quota_of-Keeps)

  module _ (width : ℕ) (kernel : Kernel) where
    operate-Keeps : (op : Operation) → Keeps (operate width kernel op)
    operate-Keeps op =
        keeps (λ d v. ok_fail-After _ _ _ _ (performed-IsConsistent width kernel op d v))

    for_ifaces-After :
        (op : String → Operation) (failure : String → Reply)
        → ((iface : String) → leb 200 (failure iface).code ≡ true)
        → (ifaces : List String) (d : Daemon) → IsConsistent d
        → After (for_ifaces width kernel op failure ifaces d)
    unfolding for_ifaces
    for_ifaces-After op failure ends [] d v = record { kept = v; once = λ _. refl }
    for_ifaces-After op failure ends (iface ∷ ifaces) d v =
        let after = performed-IsConsistent width kernel (op iface) d v in
        if_cases After (perform kernel width (op iface) (d.bandwidth, d.world)).0
          (λ _. record { kept = after; once = λ _. ends iface })
          (λ _. for_ifaces-After op failure ends ifaces _ after)

    for_ifaces-Keeps :
        (op : String → Operation) (failure : String → Reply)
        → ((iface : String) → leb 200 (failure iface).code ≡ true)
        → (ifaces : List String) → Keeps (for_ifaces width kernel op failure ifaces)
    for_ifaces-Keeps op failure ends ifaces = keeps (for_ifaces-After op failure ends ifaces)

    -- Statistics may be answered more than once, or not at all.
    stats-After :
        (args : List String)
        → single ≡ false
        → (d : Daemon) → IsConsistent d
        → After (tether_stats width kernel args d)
    stats-After [] many d v =
        elim d.nat.iface_pair_list as (λ names. After (all_stats width kernel names d)) [
          | [] ↦ record { kept = v; once = λ _. refl }
          | n ∷ names ↦ record { kept = v; once = cc }
        ]
    stats-After (i ∷ []) many d v = record { kept = v; once = cc }
    stats-After (i ∷ e ∷ []) many d v = record { kept = v; once = cc }
    stats-After (i ∷ e ∷ a ∷ args) many d v = record { kept = v; once = λ _. refl }

    run_stats-Keeps :
        (word : String) (args : List String)
        → (either word "gettetherstats" "gts" ≡ true → single ≡ false)
        → Keeps (run_stats width kernel word args)
    run_stats-Keeps word args many =
        if_cases Keeps (either word "gettetherstats" "gts")
          (λ asked. keeps (stats-After args (many asked))) (λ _. msg-Keeps _ _ refl)

    several-Keeps :
        (bytes : String) (ifaces : List String) → Keeps (several_quotas width kernel bytes ifaces)
    several-Keeps bytes [] = msg-Keeps _ _ refl
    several-Keeps bytes (iface ∷ ifaces) = for_ifaces-Keeps _ _ (λ iface'. refl) _

    alerts-Keeps :
        (word : String) (args : List String)
        → (either word "gettetherstats" "gts" ≡ true → single ≡ false)
        → Keeps (run_alerts width kernel word args)
    alerts-Keeps word args many =
        search (keeping, operate-Keeps, run_stats-Keeps word args many) depth 40

    happy_box-Keeps :
        (word : String) (args : List String) → Keeps (happy_box width kernel word args)
    happy_box-Keeps word args = search (keeping, operate-Keeps)

    apps-Keeps :
        (word : String) (args : List String)
        → (either word "gettetherstats" "gts" ≡ true → single ≡ false)
        → Keeps (run_apps width kernel word args)
    apps-Keeps word args many =
        search (keeping, operate-Keeps, happy_box-Keeps, alerts-Keeps word args many) depth 40

    pub bandwidth-Keeps :
        (args : List String)
        → (asks_stats args ≡ true → single ≡ false)
        → Keeps (run_bandwidth width kernel args)
    unfolding run_bandwidth
    bandwidth-Keeps [] many = msg-Keeps _ _ refl
    bandwidth-Keeps (word ∷ args) many =
        search (keeping, operate-Keeps, for_ifaces-Keeps, several-Keeps, apps-Keeps word args many)
          depth 40
