-- ===== src/BandwidthController/Rules.antt =====
-- The rules of the global alert in its chains, as the commands so far leave them: the quota of each.
use Prim.Native.String.{len}
use platform_system_netd.Prelude.{
  ℕ, ◌-◌, ◌^◌, ◌≤◌, ◌≡◌, refl, ◌∙◌, ap, Bool, true, false, ◌&&◌, List, [], ◌∷◌, ◌++◌, map, ◌==◌,
  String, arith, str_eq, if◌then◌else◌,
}
use platform_system_netd.Kernel.{
  Kernel, World, Call, Word, text, hex, decimal, minus, command, write_file,
}
use platform_system_netd.Kernel.Words.{signed, word_length, count_digits-le}
use platform_system_netd.BandwidthController.Commands.{
  IptOp, op_flag, insert, replace, delete, append, no_add, alert_cmd, alert_global_name,
  local_input, local_output, local_forward,
}
use platform_system_netd.BandwidthController.Running.{
  IptIpVer, ip_v4, ip_v6, ipt_path, full_cmd, fits, run_iptables_cmd, run_ipxtables_cmd,
}
use platform_system_netd.Prefix.{is_iface_name, is_name_rest}
use platform_system_netd.BandwidthController.Alerts.{update_quota}

-- The chains that the alert has rules in.
pub data Chain : Type 0 where
  input output forward : Chain

abbrev pub chain_name : Chain → String
chain_name input = local_input
chain_name output = local_output
chain_name forward = local_forward

abbrev same_word : Word → Word → Bool
same_word (text s) (text t) = str_eq s t
same_word (hex m) (hex n) = m == n
same_word (decimal m) (decimal n) = m == n
same_word (minus m) (minus n) = m == n
same_word v w = false

-- `-D` takes the first rule out that has the quota.
unfoldable pub erase_quota_rule : Word → List Word → List Word
erase_quota_rule q [] = []
erase_quota_rule q (r ∷ rules) =
    let rest = erase_quota_rule q rules in if same_word q r then rules else r ∷ rest

abbrev edited : String → Word → List Word → List Word
edited op q rules =
    if str_eq op "-I"
    then q ∷ rules
    else if str_eq op "-A"
    then rules ++ q ∷ []
    else if str_eq op "-D"
    then erase_quota_rule q rules
    else rules

abbrev quota_file : String
quota_file = "/proc/net/xt_quota/globalAlert"

-- A call as it changes the quotas of the rules of the alert in a chain: a command of iptables on
-- the chain, about a quota of that name, and a write to the quota's file, which is the quota of
-- all rules of that name.
abbrev step : String → String → Call → List Word → List Word
step path chain
      (command (text p ∷ text op ∷ text c ∷ m ∷ kind ∷ bang ∷ flag ∷ q ∷ n ∷ text name ∷ rest))
      rules =
    if str_eq p path && (str_eq name alert_global_name && str_eq c chain)
    then edited op q rules
    else rules
step path chain (write_file file (q ∷ rest)) rules =
    if str_eq file quota_file then map (λ r. q) rules else rules
step path chain call rules = rules

-- The quotas of the rules that the calls leave in a chain that had these.
unfoldable pub rules_from : String → String → List Word → List Call → List Word
rules_from path chain rules [] = rules
rules_from path chain rules (c ∷ calls) = rules_from path chain (step path chain c rules) calls

abbrev pub rules_in : IptIpVer → Chain → World → List Word
rules_in ver chain w = rules_from (ipt_path ver) (chain_name chain) [] w.calls

rules-snoc :
    (path chain : String) (rules : List Word) (calls : List Call) (c : Call)
    → rules_from path chain rules (calls ++ c ∷ [])
      ≡ step path chain c (rules_from path chain rules calls)
unfolding rules_from
rules-snoc path chain rules [] c = refl
rules-snoc path chain rules (d ∷ calls) c = rules-snoc path chain (step path chain d rules) calls c

signed-le : (n : ℕ) → word_length (signed 64 n) ≤ 22
signed-le n = ground (arith, count_digits-le 10 20 n, count_digits-le 10 20 (2 ^ 64 - n))

len-op_flag : (op : IptOp) → len (op_flag op) ≡ 2
len-op_flag insert = refl
len-op_flag replace = refl
len-op_flag delete = refl
len-op_flag append = refl

len-ipt_path : (ver : IptIpVer) → len (ipt_path ver) ≤ 22
len-ipt_path ip_v4 = omega arith
len-ipt_path ip_v6 = omega arith

len-chain_name : (chain : Chain) → len (chain_name chain) ≤ 10
len-chain_name input = omega arith
len-chain_name output = omega arith
len-chain_name forward = omega arith

abbrev pub alert_words : IptOp → Chain → ℕ → List Word
alert_words op chain bytes = alert_cmd op (chain_name chain) bytes alert_global_name

alert_fits :
    (op : IptOp) (chain : Chain) (bytes : ℕ) (ver : IptIpVer)
    → fits (full_cmd (alert_words op chain bytes) no_add ver) ≡ true
unfolding fits
alert_fits op chain bytes ver =
    ground (arith, len-op_flag op, len-ipt_path ver, len-chain_name chain, signed-le bytes)

-- What an operator does to the rules.
abbrev pub applied : IptOp → Word → List Word → List Word
applied insert q rules = q ∷ rules
applied append q rules = rules ++ q ∷ []
applied replace q rules = rules
applied delete q rules = erase_quota_rule q rules

abbrev pub is_same : Chain → Chain → Bool
is_same input input = true
is_same output output = true
is_same forward forward = true
is_same c d = false

abbrev is_ver : IptIpVer → IptIpVer → Bool
is_ver ip_v4 ip_v4 = true
is_ver ip_v6 ip_v6 = true
is_ver v u = false

same_path : (v u : IptIpVer) → str_eq (ipt_path v) (ipt_path u) ≡ is_ver v u
same_path ip_v4 ip_v4 = refl
same_path ip_v4 ip_v6 = refl
same_path ip_v6 ip_v4 = refl
same_path ip_v6 ip_v6 = refl

same_chain : (c d : Chain) → str_eq (chain_name c) (chain_name d) ≡ is_same c d
same_chain input input = refl
same_chain input output = refl
same_chain input forward = refl
same_chain output input = refl
same_chain output output = refl
same_chain output forward = refl
same_chain forward input = refl
same_chain forward output = refl
same_chain forward forward = refl

edited-op_flag :
    (op : IptOp) (q : Word) (rules : List Word) → edited (op_flag op) q rules ≡ applied op q rules
edited-op_flag insert q rules = refl
edited-op_flag replace q rules = refl
edited-op_flag delete q rules = refl
edited-op_flag append q rules = refl

step_alert :
    (op : IptOp) (c d : Chain) (v u : IptIpVer) (bytes : ℕ) (rules : List Word)
    → step (ipt_path u) (chain_name d) (command (full_cmd (alert_words op c bytes) no_add v)) rules
      ≡ (if is_ver v u && is_same c d then applied op (signed 64 bytes) rules else rules)
step_alert op c d v u bytes rules =
    rw (same_path v u, same_chain c d, edited-op_flag op (signed 64 bytes) rules) refl

-- One of the two runs counts.
both :
    (u : IptIpVer) (same : Bool) (op : IptOp) (q : Word) (rules : List Word)
    → (if is_ver ip_v6 u && same
        then applied op q (if is_ver ip_v4 u && same then applied op q rules else rules)
        else (if is_ver ip_v4 u && same then applied op q rules else rules))
      ≡ (if same then applied op q rules else rules)
both ip_v4 true op q rules = refl
both ip_v4 false op q rules = refl
both ip_v6 true op q rules = refl
both ip_v6 false op q rules = refl

-- The rule that has the quota is the one taken out.
same_word-signed : (bytes : ℕ) → same_word (signed 64 bytes) (signed 64 bytes) ≡ true
same_word-signed bytes = ground arith

pub erase_quota_rule-one :
    (bytes : ℕ) → erase_quota_rule (signed 64 bytes) (signed 64 bytes ∷ []) ≡ []
unfolding erase_quota_rule
erase_quota_rule-one bytes = rw (same_word-signed bytes) refl

module _ (kernel : Kernel) where
  calls-alert :
      (op : IptOp) (chain : Chain) (bytes : ℕ) (w : World)
      → (run_ipxtables_cmd kernel (alert_words op chain bytes) no_add w).1.calls
        ≡ (w.calls ++ command (full_cmd (alert_words op chain bytes) no_add ip_v4) ∷ [])
          ++ command (full_cmd (alert_words op chain bytes) no_add ip_v6) ∷ []
  unfolding run_ipxtables_cmd run_iptables_cmd
  calls-alert op chain bytes w =
      rw (alert_fits op chain bytes ip_v4, alert_fits op chain bytes ip_v6)

  pub rules-alert :
      (op : IptOp) (c d : Chain) (u : IptIpVer) (bytes : ℕ) (w : World)
      → rules_in u d (run_ipxtables_cmd kernel (alert_words op c bytes) no_add w).1
        ≡ (if is_same c d then applied op (signed 64 bytes) (rules_in u d w) else rules_in u d w)
  rules-alert op c d u bytes w =
      let path : String = ipt_path u in
      let chain : String = chain_name d in
      let first : Call = command (full_cmd (alert_words op c bytes) no_add ip_v4) in
      rw (calls-alert op c bytes w) (
        rules-snoc path chain [] (w.calls ++ first ∷ []) _
        ∙ step_alert op c d ip_v6 u bytes _
        ∙ ap
            (λ (m : List Word).
              if is_ver ip_v6 u && is_same c d then applied op (signed 64 bytes) m else m)
            (rules-snoc path chain [] w.calls first
              ∙ step_alert op c d ip_v4 u bytes (rules_in u d w))
        ∙ both u (is_same c d) op (signed 64 bytes) (rules_in u d w))

  -- The file of the quota can be opened at any time.
  abbrev pub Opens : Type 0
  Opens = (calls : List Call) → kernel.writes calls quota_file ≡ true

  pub rules-update_quota :
      (d : Chain) (u : IptIpVer) (bytes : ℕ) (w : World)
      → Opens
      → rules_in u d (update_quota kernel alert_global_name bytes w).1
        ≡ map (λ r. signed 64 bytes) (rules_in u d w)
  unfolding update_quota is_iface_name is_name_rest
  rules-update_quota d u bytes w opens = rw (opens w.calls) (
      rules-snoc (ipt_path u) (chain_name d) [] w.calls
        (write_file quota_file (signed 64 bytes ∷ text "\n" ∷ [])))
