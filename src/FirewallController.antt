-- ===== src/FirewallController.antt =====
-- server/FirewallController.cpp: the firewall's chains, which drop what no rule lets through.
pub mod Chains
pub mod Blocking
use Prim.Native.Char.{code}
use Prim.Native.String.{[] as empty, ◌∷◌ as ◌▸◌}
use platform_system_netd.Prelude.{
  ℕ, Bool, true, false, not, ◌||◌, List, [], ◌∷◌, String, bit_or, ◌==◌, if◌then◌else◌,
}
use platform_system_netd.Kernel.{Kernel, World, Result, ok, err, Word, text}
use platform_system_netd.Kernel.Errno.{enoent}
use platform_system_netd.Kernel.Words.{signed}
use platform_system_netd.Iptables.{IptablesTarget, v4, v6, v4v6, exec_iptables}
use platform_system_netd.Prefix.{is_iface_name}

pub data FirewallRule : Type 0 where
  allow deny : FirewallRule

abbrev pub local_input : String
local_input = "fw_INPUT"

abbrev pub local_output : String
local_output = "fw_OUTPUT"

abbrev pub local_forward : String
local_forward = "fw_FORWARD"

-- `rule == ALLOW ? "-I" : "-D"`
abbrev pub op_of : FirewallRule → String
op_of allow = "-I"
op_of deny = "-D"

-- `strchr(addr, ':')`
unfoldable pub has_colon : String → Bool
has_colon empty = false
has_colon (c ▸ s) = code c == 58 || has_colon s

abbrev pub target_of : String → IptablesTarget
target_of addr = if has_colon addr then v6 else v4

-- The arguments of a rule in a chain.
abbrev pub in_chain : String → String → List Word → List Word
in_chain op chain spec = text "-w" ∷ text op ∷ text chain ∷ spec

abbrev pub jump : String → List Word
jump to = text "-j" ∷ text to ∷ []

abbrev pub from_interface : String → String → List Word
from_interface direction iface = text direction ∷ text iface ∷ jump "RETURN"

-- The protocol and the port are printed with `%d`.
abbrev pub of_port : String → String → ℕ → String → ℕ → List Word
of_port side addr protocol side_port port =
    text side
    ∷ text addr
    ∷ text "-p"
    ∷ signed 32 protocol
    ∷ text side_port
    ∷ signed 32 port
    ∷ jump "RETURN"

abbrev pub owned_by : ℕ → List Word
owned_by uid = text "-m" ∷ text "owner" ∷ text "--uid-owner" ∷ signed 32 uid ∷ jump "RETURN"

module _ (kernel : Kernel) where
  -- `res |= execIptables(target, ...)`
  abbrev pub or_run : IptablesTarget → List Word → ℕ × World → ℕ × World
  or_run target args (res, w) =
      let (r, w') = exec_iptables kernel target args w in (bit_or res r, w')

  unfoldable pub disable_firewall : World → ℕ × World
  disable_firewall w = or_run v4v6 (in_chain "-F" local_forward []) (
      or_run v4v6 (in_chain "-F" local_output [])
        (or_run v4v6 (in_chain "-F" local_input []) (0, w)))

  unfoldable pub enable_firewall : World → ℕ × World
  enable_firewall w =
      let (flushed, w') = disable_firewall w in
      or_run v4v6 (in_chain "-A" local_forward (jump "REJECT")) (
        or_run v4v6 (in_chain "-A" local_output (jump "REJECT"))
          (or_run v4v6 (in_chain "-A" local_input (jump "DROP")) (0, w')))

  -- A rule in the input chain and one in the output chain.
  abbrev pub in_both : IptablesTarget → FirewallRule → List Word → List Word → World → ℕ × World
  in_both target rule in_spec out_spec w =
      or_run target (in_chain (op_of rule) local_output out_spec)
        (or_run target (in_chain (op_of rule) local_input in_spec) (0, w))

  abbrev pub result_of : ℕ × World → Result ℕ × World
  result_of (res, w) = (ok res, w)

  unfoldable pub set_interface_rule : String → FirewallRule → World → Result ℕ × World
  set_interface_rule iface rule w =
      if not (is_iface_name iface)
      then (err enoent, w)
      else result_of (in_both v4v6 rule (from_interface "-i" iface) (from_interface "-o" iface) w)

  unfoldable pub set_egress_source_rule : String → FirewallRule → World → ℕ × World
  set_egress_source_rule addr rule w =
      in_both (target_of addr) rule (from_interface "-d" addr) (from_interface "-s" addr) w

  unfoldable pub set_egress_dest_rule : String → ℕ → ℕ → FirewallRule → World → ℕ × World
  set_egress_dest_rule addr protocol port rule w =
      in_both (target_of addr) rule (of_port "-s" addr protocol "--sport" port)
        (of_port "-d" addr protocol "--dport" port) w

  unfoldable pub set_uid_rule : ℕ → FirewallRule → World → ℕ × World
  set_uid_rule uid rule w = in_both v4v6 rule (owned_by uid) (owned_by uid) w
