-- ===== src/IdletimerController.antt =====
-- server/IdletimerController.cpp: the rules of iptables that report when an interface falls idle.
use platform_system_netd.Prelude.{ℕ, not, ◌&&◌, List, [], ◌∷◌, String, ◌==◌, if◌then◌else◌}
use platform_system_netd.Kernel.{
  Kernel, World, Result, ok, err, Word, text, decimal, command, record_call,
}
use platform_system_netd.Kernel.Errno.{enoent}
use platform_system_netd.Iptables.{iptables_path, ip6tables_path}
use platform_system_netd.Prefix.{is_iface_name}

pub data TimerOp : Type 0 where
  add delete : TimerOp

abbrev pub local_raw_prerouting : String
local_raw_prerouting = "idletimer_raw_PREROUTING"

abbrev pub local_mangle_postrouting : String
local_mangle_postrouting = "idletimer_mangle_POSTROUTING"

abbrev flag : TimerOp → String
flag add = "-A"
flag delete = "-D"

abbrev table : String → List Word → List Word
table name rest = text "-t" ∷ text name ∷ rest

-- The rule of an interface in a chain; the side is -i or -o.
abbrev timer_args : TimerOp → String → String → String → ℕ → String → List Word
timer_args op chain side iface timeout label =
    text (flag op)
    ∷ text chain
    ∷ text side
    ∷ text iface
    ∷ text "-j"
    ∷ text "IDLETIMER"
    ∷ text "--timeout"
    ∷ decimal timeout
    ∷ text "--label"
    ∷ text label
    ∷ text "--send_nl_msg"
    ∷ text "1"
    ∷ []

abbrev flush_args : String → List Word
flush_args chain = text "-F" ∷ text chain ∷ []

-- A result with what it leaves; a failure that sets no errno is the error 0.
abbrev pub TimerOut : Type 0
TimerOut = Result (Unit {0}) × World

module _ (kernel : Kernel) where
  -- Without a status to fill in, only the run itself can fail.
  abbrev fork_execvp : String → List Word → World → ℕ × World
  fork_execvp path args w =
      let c = command (text path ∷ args) in ((kernel.execvp w.calls c).res, record_call c w)

  -- Both families, whatever the first one gives.
  unfoldable pub run_ipxtables_cmd : List Word → World → TimerOut
  run_ipxtables_cmd args w =
      let (res_ipv4, w₁) = fork_execvp iptables_path args w in
      let (res_ipv6, w₂) = fork_execvp ip6tables_path args w₁ in
      (if res_ipv4 == 0 && res_ipv6 == 0 then ok tt else err 0, w₂)

  abbrev then_run : List Word → TimerOut → TimerOut
  then_run args (ok a, w) = run_ipxtables_cmd args w
  then_run args (err e, w) = (err e, w)

  -- The first command that fails is the last.
  unfoldable pub set_defaults : World → TimerOut
  set_defaults w =
      then_run (table "mangle" (flush_args local_mangle_postrouting))
        (run_ipxtables_cmd (table "raw" (flush_args local_raw_prerouting)) w)

  abbrev pub enable_idletimer_control : World → TimerOut
  enable_idletimer_control w = set_defaults w

  abbrev pub disable_idletimer_control : World → TimerOut
  disable_idletimer_control w = set_defaults w

  unfoldable pub modify_interface_idletimer : TimerOp → String → ℕ → String → World → TimerOut
  modify_interface_idletimer op iface timeout label w =
      if not (is_iface_name iface)
      then (err enoent, w)
      else then_run
          (table "mangle" (timer_args op local_mangle_postrouting "-o" iface timeout label))
          (run_ipxtables_cmd
            (table "raw" (timer_args op local_raw_prerouting "-i" iface timeout label)) w)

  abbrev pub add_interface_idletimer : String → ℕ → String → World → TimerOut
  add_interface_idletimer = modify_interface_idletimer add

  abbrev pub remove_interface_idletimer : String → ℕ → String → World → TimerOut
  remove_interface_idletimer = modify_interface_idletimer delete
