-- ===== src/CommandListener/Daemons.antt =====
-- server/CommandListener.cpp: the registered commands as steps of one daemon.
use platform_system_netd.Prelude.{ℕ, Bool, List, String}
use platform_system_netd.Kernel.{Kernel, World, Call}
use platform_system_netd.CommandListener.Networks.{run_command}
use platform_system_netd.CommandListener.Daemon.{Daemon, Handler, answered, system_of}
use platform_system_netd.CommandListener.Start.{Memory, construct}
use platform_system_netd.CommandListener.Tethering.{run_ip_fwd, run_tether, run_nat}
use platform_system_netd.CommandListener.Bandwidth.{run_bandwidth}
use platform_system_netd.CommandListener.Rules.{run_idletimer, run_firewall, run_clatd}

-- The registered commands that are modelled.
pub data Command : Type 0 where
  ip_fwd tether nat bandwidth idletimer firewall clatd network : Command

-- `runs` is what `waitpid` answers of a process, `may_run` and `script_works` what `access` and
-- `system` do of the vendor's script.
pub record Platform : Type 0 where
  pub width : ℕ
  pub kernel : Kernel
  pub runs : World → ℕ → Bool
  pub may_run : List Call → Bool
  pub script_works : List Call → Bool

unfoldable pub handler_of : Platform → Command → Handler
handler_of p ip_fwd = run_ip_fwd p.width p.kernel
handler_of p tether = run_tether p.width p.kernel
handler_of p nat = run_nat p.width p.kernel
handler_of p bandwidth = run_bandwidth p.width p.kernel
handler_of p idletimer = run_idletimer p.width p.kernel
handler_of p firewall = run_firewall p.width p.kernel
handler_of p clatd = run_clatd p.width p.kernel p.runs
handler_of p network = λ args d. answered d (run_command p.width p.kernel args (system_of d))

-- The daemon after any number of commands, each with any arguments, from the constructor.
pub data Running (p : Platform) : Daemon → Type 0 where
  began : (m : Memory) (w : World) → Running p (construct p.kernel p.may_run p.script_works m w)
  commanded :
      {d : Daemon} (c : Command) (args : List String)
      → Running p d
      → Running p (handler_of p c args d).1
