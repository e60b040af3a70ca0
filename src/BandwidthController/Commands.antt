-- ===== src/BandwidthController/Commands.antt =====
-- server/BandwidthController.cpp: the texts of its iptables commands, as the words that `strsep`
-- takes them apart into.
use Prim.Native.String.{◌++◌}
use platform_system_netd.Prelude.{ℕ, List, [], ◌∷◌, String}
use platform_system_netd.Kernel.{Word, text, decimal}
use platform_system_netd.Kernel.Words.{signed}

-- An argument of the operators, without a default case.
pub data IptOp : Type 0 where
  insert replace delete append : IptOp

pub data IptJumpOp : Type 0 where
  reject return no_add : IptJumpOp

pub data SpecialAppOp : Type 0 where
  add remove : SpecialAppOp

pub data QuotaType : Type 0 where
  unique shared : QuotaType

abbrev pub op_flag : IptOp → String
op_flag insert = "-I"
op_flag append = "-A"
op_flag replace = "-R"
op_flag delete = "-D"

abbrev pub local_input : String
local_input = "bw_INPUT"

abbrev pub local_output : String
local_output = "bw_OUTPUT"

abbrev pub local_forward : String
local_forward = "bw_FORWARD"

abbrev pub costly_chain : String → String
costly_chain name = "bw_costly_" ++ name

abbrev pub jump_words : IptJumpOp → List Word
jump_words reject = text "--jump" ∷ text "REJECT" ∷ []
jump_words return = text "--jump" ∷ text "RETURN" ∷ []
jump_words no_add = []

-- An append gives the empty text, whose one word is empty.
unfoldable pub make_iptables_special_app_cmd : IptOp → ℕ → String → List Word
make_iptables_special_app_cmd append uid chain = text "" ∷ []
make_iptables_special_app_cmd op uid chain =
    text (op_flag op)
    ∷ text chain
    ∷ text "-m"
    ∷ text "owner"
    ∷ text "--uid-owner"
    ∷ signed 32 uid
    ∷ []

unfoldable pub make_iptables_quota_cmd : IptOp → String → ℕ → List Word
make_iptables_quota_cmd op cost_name quota =
    text (op_flag op)
    ∷ text (costly_chain cost_name)
    ∷ text "-m"
    ∷ text "quota2"
    ∷ text "!"
    ∷ text "--quota"
    ∷ signed 64 quota
    ∷ text "--name"
    ∷ text cost_name
    ∷ []

-- ALERT_IPT_TEMPLATE
abbrev pub alert_cmd : IptOp → String → ℕ → String → List Word
alert_cmd op chain bytes alert_name =
    text (op_flag op)
    ∷ text chain
    ∷ text "-m"
    ∷ text "quota2"
    ∷ text "!"
    ∷ text "--quota"
    ∷ signed 64 bytes
    ∷ text "--name"
    ∷ text alert_name
    ∷ []

abbrev pub alert_global_name : String
alert_global_name = "globalAlert"

-- Commands on a chain alone.
abbrev pub on_chain : String → String → List Word
on_chain flag chain = text flag ∷ text chain ∷ []

abbrev in_table : String → String → List Word
in_table table chain = text "-t" ∷ text table ∷ on_chain "-F" chain

abbrev pub ipt_flush_commands : List (List Word)
ipt_flush_commands =
    on_chain "-F" local_input
    ∷ on_chain "-F" local_output
    ∷ on_chain "-F" local_forward
    ∷ on_chain "-F" "bw_happy_box"
    ∷ on_chain "-F" "bw_penalty_box"
    ∷ on_chain "-F" "bw_costly_shared"
    ∷ in_table "raw" "bw_raw_PREROUTING"
    ∷ in_table "mangle" "bw_mangle_POSTROUTING"
    ∷ []

abbrev pub ipt_cleanup_commands : List (List Word)
ipt_cleanup_commands =
    on_chain "-X" "bw_happy_box"
    ∷ on_chain "-X" "bw_penalty_box"
    ∷ on_chain "-X" "bw_costly_shared"
    ∷ []

abbrev pub ipt_setup_commands : List (List Word)
ipt_setup_commands =
    (text "-w" ∷ on_chain "-N" "bw_happy_box")
    ∷ (text "-w" ∷ on_chain "-N" "bw_penalty_box")
    ∷ (text "-w" ∷ on_chain "-N" "bw_costly_shared")
    ∷ []

abbrev track : List Word
track = text "-m" ∷ text "owner" ∷ text "--socket-exists" ∷ []

abbrev pub ipt_basic_accounting_commands : List (List Word)
ipt_basic_accounting_commands =
    (text "-w" ∷ text "-A" ∷ text local_input ∷ track)
    ∷ (text "-w" ∷ text "-A" ∷ text local_output ∷ track)
    ∷ (text "-w" ∷ text "-A" ∷ text "bw_costly_shared" ∷ text "--jump" ∷ text "bw_penalty_box" ∷ [])
    ∷ (text "-w" ∷ text "-t" ∷ text "raw" ∷ text "-A" ∷ text "bw_raw_PREROUTING" ∷ track)
    ∷ (text "-w" ∷ text "-t" ∷ text "mangle" ∷ text "-A" ∷ text "bw_mangle_POSTROUTING" ∷ track)
    ∷ []

-- The rules of prepCostlyIface and cleanupCostlyIface that lead into a costly chain.
abbrev pub delete_jump : String → String → String → String → List Word
delete_jump chain direction ifn cost =
    text "-D" ∷ text chain ∷ text direction ∷ text ifn ∷ text "--jump" ∷ text cost ∷ []

abbrev pub insert_jump : String → ℕ → String → String → String → List Word
insert_jump chain position direction ifn cost =
    text "-I"
    ∷ text chain
    ∷ decimal position
    ∷ text direction
    ∷ text ifn
    ∷ text "--jump"
    ∷ text cost
    ∷ []

-- The jumps between the boxes.
abbrev pub jump_from : String → String → String → List Word
jump_from flag chain target = text flag ∷ text chain ∷ text "-j" ∷ text target ∷ []
