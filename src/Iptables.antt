-- ===== src/Iptables.antt =====
-- server/NetdConstants.cpp: running iptables and ip6tables.
use platform_system_netd.Prelude.{
  ℕ, Bool, true, false, List, ◌∷◌, String, bit_or, ◌==◌, if◌then◌else◌,
}
use platform_system_netd.Kernel.{Kernel, World, Exit, Word, text, command, record_call}
use platform_system_netd.Kernel.Errno.{echild}

pub data IptablesTarget : Type 0 where
  v4 v6 v4v6 : IptablesTarget

abbrev pub iptables_path : String
iptables_path = "/system/bin/iptables"

abbrev pub ip6tables_path : String
ip6tables_path = "/system/bin/ip6tables"

abbrev pub ip_path : String
ip_path = "/system/bin/ip"

-- The result of a run: fork's own error, ECHILD for a child that was killed, or the status.
unfoldable pub exit_code : Exit → ℕ
exit_code e = if e.res == 0 then (if e.exited then e.status else echild) else e.res

abbrev pub runs_v4 : IptablesTarget → Bool
runs_v4 v6 = false
runs_v4 _ = true

abbrev pub runs_v6 : IptablesTarget → Bool
runs_v6 v4 = false
runs_v6 _ = true

module _ (kernel : Kernel) where
  unfoldable pub exec_iptables_command : List Word → World → ℕ × World
  unfolding exit_code
  exec_iptables_command argv w =
      (exit_code (kernel.execvp w.calls (command argv)), record_call (command argv) w)

  -- `if (wanted) res |= execIptablesCommand(path, args)`
  unfoldable pub exec_if : Bool → String → List Word → ℕ × World → ℕ × World
  exec_if false path args (res, w) = (res, w)
  exec_if true path args (res, w) =
      let (r, w') = exec_iptables_command (text path ∷ args) w in (bit_or res r, w')

  unfoldable pub exec_iptables : IptablesTarget → List Word → World → ℕ × World
  exec_iptables target args w =
      exec_if (runs_v6 target) ip6tables_path args
        (exec_if (runs_v4 target) iptables_path args (0, w))
