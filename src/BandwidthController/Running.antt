-- ===== src/BandwidthController/Running.antt =====
-- server/BandwidthController.cpp: running a command for IPv4 and IPv6, within the buffer and the
-- array of arguments.
use platform_system_netd.Prelude.{
  ℕ, ◌+◌, Bool, true, false, not, ◌&&◌, ◌||◌, List, [], ◌∷◌, ◌++◌, length, String, ltb, ◌==◌,
  if◌then◌else◌,
}
use platform_system_netd.Kernel.{Kernel, World, Exit, Word, text, command, record_call}
use platform_system_netd.Kernel.Words.{word_length}
use platform_system_netd.Iptables.{iptables_path, ip6tables_path}
use platform_system_netd.BandwidthController.Commands.{IptJumpOp, no_add, jump_words}

pub data IptIpVer : Type 0 where
  ip_v4 ip_v6 : IptIpVer

pub data RunCmdErrHandling : Type 0 where
  failure_bad failure_ok : RunCmdErrHandling

abbrev pub max_cmd_len : ℕ
max_cmd_len = 1024

abbrev pub max_cmd_args : ℕ
max_cmd_args = 32

-- The words with a space between them.
abbrev pub printed_length : List Word → ℕ
printed_length [] = 0
printed_length (w ∷ []) = word_length w
printed_length (w ∷ v ∷ words) = word_length w + 1 + printed_length (v ∷ words)

abbrev pub ipt_path : IptIpVer → String
ipt_path ip_v4 = iptables_path
ipt_path ip_v6 = ip6tables_path

abbrev pub full_cmd : List Word → IptJumpOp → IptIpVer → List Word
full_cmd cmd jump ver = text (ipt_path ver) ∷ (cmd ++ jump_words jump)

-- `res || !WIFEXITED(status) || WEXITSTATUS(status)`
abbrev pub exit_failed : Exit → Bool
exit_failed e = not (e.res == 0) || not e.exited || not (e.status == 0)

-- The tests of StrncpyAndCheck and of the loop over the words.
unfoldable pub fits : List Word → Bool
fits words = ltb (printed_length words) max_cmd_len && ltb (length words) max_cmd_args

abbrev is_bad : RunCmdErrHandling → Bool
is_bad failure_bad = true
is_bad failure_ok = false

module _ (kernel : Kernel) where
  unfoldable pub run_iptables_cmd : List Word → IptJumpOp → IptIpVer → World → Bool × World
  run_iptables_cmd cmd jump ver w =
      let words = full_cmd cmd jump ver in
      if fits words
      then (exit_failed (kernel.execvp w.calls (command words)), record_call (command words) w)
      else (true, w)

  unfoldable pub run_ipxtables_cmd : List Word → IptJumpOp → World → Bool × World
  run_ipxtables_cmd cmd jump w =
      let (res, w₁) = run_iptables_cmd cmd jump ip_v4 w in
      let (res₂, w₂) = run_iptables_cmd cmd jump ip_v6 w₁ in (res || res₂, w₂)

  -- `res |= runIpxtablesCmd(cmd, jump)`
  abbrev pub also : List Word → IptJumpOp → Bool × World → Bool × World
  also cmd jump (res, w) = let (more, w') = run_ipxtables_cmd cmd jump w in (res || more, w')

  -- A command whose result is not looked at.
  abbrev pub try : List Word → Bool × World → Bool × World
  try cmd (res, w) = (res, (run_ipxtables_cmd cmd no_add w).1)

  unfoldable pub run_commands : List (List Word) → RunCmdErrHandling → World → Bool × World
  run_commands [] handling w = (false, w)
  run_commands (cmd ∷ commands) handling w =
      let (res, w') = run_ipxtables_cmd cmd no_add w in
      let rest = run_commands commands handling w' in
      if res && is_bad handling then (true, w') else rest
