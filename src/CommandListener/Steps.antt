-- ===== src/CommandListener/Steps.antt =====
-- The registered commands one by one: the state and the messages after them.
use platform_system_netd.Prelude.{ℕ, ◌≡◌, refl, Bool, true, false, not, List, [], ◌∷◌, String, ◌==◌}
use platform_system_netd.Kernel.{Kernel, World, Result, ok, err}
use platform_system_netd.Controller.State.{System}
use platform_system_netd.BandwidthController.Tables.{}
use platform_system_netd.ClatdController.{Pids}
use platform_system_netd.CommandListener.{
  Answer, command_okay, command_syntax_error, operation_failed,
}
use platform_system_netd.CommandListener.Networks.{run_command}
use platform_system_netd.CommandListener.Refinement.{run_command-IsRead}
use platform_system_netd.CommandListener.Reachable.{IsSound, Refines-IsSound}
use platform_system_netd.IdletimerController.{TimerOut}
use platform_system_netd.CommandListener.Daemon.{answer_reply, Daemon, answered, system_of, is_err}
use platform_system_netd.CommandListener.Rules.{
  timers_set, timer_changed, timer_words, run_idletimer, firewall_result, firewall_iface,
  firewall_source, firewall_dest, firewall_uid, run_firewall, clatd_done, clatd_status, run_clatd,
}
use platform_system_netd.CommandListener.Daemons.{
  Command, ip_fwd, tether, nat, bandwidth, idletimer, firewall, clatd, network, Platform,
  handler_of,
}
use platform_system_netd.CommandListener.Answers.{is_answer}
use platform_system_netd.CommandListener.Kept.{
  asks_stats, IsConsistent, After, ok_fail-After, kept_by, bandwidth-Keeps,
}
use platform_system_netd.CommandListener.Consistent.{
  if-After, msg-After, ip_fwd-After, tether-After, nat-After,
}

-- Whether a command asks for statistics.
abbrev pub asks : Command → List String → Bool
asks bandwidth args = asks_stats args
asks c args = false

answer-once : (a : Answer) → is_answer (answer_reply a ∷ []) ≡ true
answer-once (command_okay message) = refl
answer-once (command_syntax_error message) = refl
answer-once (operation_failed message e) = refl

module _ (single : Bool) where
  module _ (d : Daemon) (v : IsConsistent d) where
    timers_set-After : (okay : String) (out : TimerOut) → After single (timers_set okay out d)
    timers_set-After okay (ok a, w) = record { kept = v; once = λ _. refl }
    timers_set-After okay (err e, w) = record { kept = v; once = λ _. refl }

    timer_changed-After :
        (okay fail : String) (out : TimerOut) → After single (timer_changed okay fail out d)
    timer_changed-After okay fail (res, w) = ok_fail-After single _ _ (is_err res) _ v

    firewall-After : (out : ℕ × World) → After single (firewall_result out d)
    firewall-After (res, w) = ok_fail-After single _ _ (not (res == 0)) _ v

    clatd_done-After : (out : Result (Unit {0}) × (Pids × World)) → After single (clatd_done d out)
    clatd_done-After (res, s) = ok_fail-After single _ _ (is_err res) _ v

    clatd_status-After : (out : Bool × Pids) → After single (clatd_status out d)
    clatd_status-After (started, pids) = record { kept = v; once = λ _. refl }

    answered-After : (out : Answer × System) → IsSound out.1 → After single (answered d out)
    answered-After (a, s) h = record {
      kept = record {
        well_formed = h.well_formed;
        exclusive = h.exclusive;
        tether = v.tether;
        bandwidth = v.bandwidth;
      };
      once = λ _. answer-once a;
    }

    module _ (width : ℕ) (kernel : Kernel) where
      words-After :
          (on : Bool) (args : List String) → After single (timer_words width kernel on args d)
      words-After true (a ∷ b ∷ c ∷ []) = timer_changed-After _ _ _
      words-After false (a ∷ b ∷ c ∷ []) = timer_changed-After _ _ _
      words-After true (a ∷ b ∷ c ∷ e ∷ args) = record { kept = v; once = λ _. refl }
      words-After false (a ∷ b ∷ c ∷ e ∷ args) = record { kept = v; once = λ _. refl }
      words-After true (a ∷ b ∷ []) = record { kept = v; once = λ _. refl }
      words-After false (a ∷ b ∷ []) = record { kept = v; once = λ _. refl }
      words-After true (a ∷ []) = record { kept = v; once = λ _. refl }
      words-After false (a ∷ []) = record { kept = v; once = λ _. refl }
      words-After true [] = record { kept = v; once = λ _. refl }
      words-After false [] = record { kept = v; once = λ _. refl }

      idletimer-After : (args : List String) → After single (run_idletimer width kernel args d)
      unfolding run_idletimer
      idletimer-After [] = record { kept = v; once = λ _. refl }
      idletimer-After (word ∷ args) =
          search (if-After single, msg-After single d v, timers_set-After, words-After) depth 20

      iface-After : (args : List String) → After single (firewall_iface width kernel args d)
      iface-After (a ∷ b ∷ []) = firewall-After _
      iface-After [] = record { kept = v; once = λ _. refl }
      iface-After (a ∷ []) = record { kept = v; once = λ _. refl }
      iface-After (a ∷ b ∷ c ∷ args) = record { kept = v; once = λ _. refl }

      source-After : (args : List String) → After single (firewall_source width kernel args d)
      source-After (a ∷ b ∷ []) = firewall-After _
      source-After [] = record { kept = v; once = λ _. refl }
      source-After (a ∷ []) = record { kept = v; once = λ _. refl }
      source-After (a ∷ b ∷ c ∷ args) = record { kept = v; once = λ _. refl }

      dest-After : (args : List String) → After single (firewall_dest width kernel args d)
      dest-After (a ∷ b ∷ c ∷ []) = firewall-After _
      dest-After [] = record { kept = v; once = λ _. refl }
      dest-After (a ∷ []) = record { kept = v; once = λ _. refl }
      dest-After (a ∷ b ∷ []) = record { kept = v; once = λ _. refl }
      dest-After (a ∷ b ∷ c ∷ e ∷ args) = record { kept = v; once = λ _. refl }

      uid-After : (args : List String) → After single (firewall_uid width kernel args d)
      uid-After (a ∷ b ∷ []) = firewall-After _
      uid-After [] = record { kept = v; once = λ _. refl }
      uid-After (a ∷ []) = record { kept = v; once = λ _. refl }
      uid-After (a ∷ b ∷ c ∷ args) = record { kept = v; once = λ _. refl }

      firewall_command-After :
          (args : List String) → After single (run_firewall width kernel args d)
      unfolding run_firewall
      firewall_command-After [] = record { kept = v; once = λ _. refl }
      firewall_command-After (word ∷ args) =
          search
            (if-After, msg-After, firewall-After, iface-After, source-After, dest-After, uid-After)
            depth 20

      clatd-After :
          (runs : World → ℕ → Bool) (args : List String)
          → After single (run_clatd width kernel runs args d)
      unfolding run_clatd
      clatd-After runs [] = record { kept = v; once = λ _. refl }
      clatd-After runs (a ∷ []) = record { kept = v; once = λ _. refl }
      clatd-After runs (word ∷ interface ∷ args) =
          search (if-After single, msg-After single d v, clatd_done-After, clatd_status-After) depth
            20

      network-After :
          (args : List String)
          → After single (answered d (run_command width kernel args (system_of d)))
      network-After args = answered-After (run_command width kernel args (system_of d)) (
          Refines-IsSound width kernel args (system_of d) _
            (record { well_formed = v.well_formed; exclusive = v.exclusive })
            (run_command-IsRead width kernel (system_of d) args).refines)

  pub command-After :
      (p : Platform) (c : Command) (args : List String) (d : Daemon)
      → (asks c args ≡ true → single ≡ false)
      → IsConsistent d
      → After single (handler_of p c args d)
  unfolding handler_of
  command-After p ip_fwd args d many v = ip_fwd-After single d v p.width p.kernel args
  command-After p tether args d many v = tether-After single d v p.width p.kernel args
  command-After p nat args d many v = nat-After single d v p.width p.kernel args
  command-After p bandwidth args d many v =
      kept_by single (bandwidth-Keeps single p.width p.kernel args many) d v
  command-After p idletimer args d many v = idletimer-After d v p.width p.kernel args
  command-After p firewall args d many v = firewall_command-After d v p.width p.kernel args
  command-After p clatd args d many v = clatd-After d v p.width p.kernel p.runs args
  command-After p network args d many v = network-After d v p.width p.kernel args
