-- ===== src/NatController/Commands.antt =====
-- server/NatController.cpp: the iptables commands.
use platform_system_netd.Prelude.{Bool, List, [], ◌∷◌, map, String, if◌then◌else◌}
use platform_system_netd.Kernel.{Call, command, text}
use platform_system_netd.Iptables.{iptables_path}

abbrev iptables : List String → Call
iptables words = command (map text (iptables_path ∷ words))

abbrev pub forward_chain : String
forward_chain = "natctrl_FORWARD"

abbrev pub counters_chain : String
counters_chain = "natctrl_tether_counters"

abbrev pub flush_forward : Call
flush_forward = iptables ("-F" ∷ forward_chain ∷ [])

abbrev pub add_drop : Call
add_drop = iptables ("-A" ∷ forward_chain ∷ "-j" ∷ "DROP" ∷ [])

abbrev pub delete_drop : Call
delete_drop = iptables ("-D" ∷ forward_chain ∷ "-j" ∷ "DROP" ∷ [])

abbrev pub flush_postrouting : Call
flush_postrouting = iptables ("-t" ∷ "nat" ∷ "-F" ∷ "natctrl_nat_POSTROUTING" ∷ [])

abbrev pub masquerade : String → Call
masquerade ext_iface =
    iptables (
      "-t" ∷ "nat" ∷ "-A" ∷ "natctrl_nat_POSTROUTING" ∷ "-o" ∷ ext_iface ∷ "-j" ∷ "MASQUERADE" ∷ [])

abbrev pub flush_counters : Call
flush_counters = iptables ("-F" ∷ counters_chain ∷ [])

abbrev pub delete_counters : Call
delete_counters = iptables ("-X" ∷ counters_chain ∷ [])

abbrev pub new_counters : Call
new_counters = iptables ("-N" ∷ counters_chain ∷ [])

abbrev pub clamp_mss : Call
clamp_mss = iptables (
    "-t" ∷ "mangle" ∷ "-A" ∷ "natctrl_mangle_FORWARD" ∷ "-p" ∷ "tcp" ∷ "--tcp-flags" ∷ "SYN" ∷ "SYN"
    ∷ "-j" ∷ "TCPMSS" ∷ "--clamp-mss-to-pmtu" ∷ [])

-- `add ? "-A" : "-D"`
abbrev flag : Bool → String
flag add = if add then "-A" else "-D"

abbrev from_to : Bool → String → String → List String → Call
from_to add a b rest = iptables (flag add ∷ forward_chain ∷ "-i" ∷ a ∷ "-o" ∷ b ∷ rest)

abbrev pub allow_replies : Bool → String → String → Call
allow_replies add int_iface ext_iface =
    from_to add ext_iface int_iface
      ("-m" ∷ "state" ∷ "--state" ∷ "ESTABLISHED,RELATED" ∷ "-g" ∷ counters_chain ∷ [])

abbrev pub drop_invalid : Bool → String → String → Call
drop_invalid add int_iface ext_iface =
    from_to add int_iface ext_iface ("-m" ∷ "state" ∷ "--state" ∷ "INVALID" ∷ "-j" ∷ "DROP" ∷ [])

abbrev pub count_outgoing : Bool → String → String → Call
count_outgoing add int_iface ext_iface =
    from_to add int_iface ext_iface ("-g" ∷ counters_chain ∷ [])

-- A counter for one direction.
abbrev pub counting : String → String → Call
counting a b = iptables ("-A" ∷ counters_chain ∷ "-i" ∷ a ∷ "-o" ∷ b ∷ "-j" ∷ "RETURN" ∷ [])
