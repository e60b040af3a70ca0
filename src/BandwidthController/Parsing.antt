-- ===== src/BandwidthController/Parsing.antt =====
-- server/BandwidthController.cpp: the loops over the printed counters, and what is sent for them.
use Prim.Native.String.{◌++◌ as ◌+++◌}
use platform_system_netd.Prelude.{
  ℕ, suc, Bool, true, false, not, ◌&&◌, ◌||◌, Option, none, some, List, [], ◌∷◌, ◌++◌, String, ◌==◌,
  if◌then◌else◌,
}
use platform_system_netd.Kernel.{Kernel, World, Word, text, output_of, record_call}
use platform_system_netd.Iptables.{iptables_path, ip6tables_path}
use platform_system_netd.CStrings.Scan.{fgets_all, Directive, sscanf}
use platform_system_netd.NatController.Commands.{counters_chain}
use platform_system_netd.BandwidthController.Tables.{line_room}
use platform_system_netd.BandwidthController.Stats.{
  TetherStats, unknown, get_stats_line, Message, tethering_stats_result,
  tethering_stats_list_result, command_okay, Counter, ipv4_format, ipv6_format, counter_of, is_pair,
  take_counter, is_complete,
}

-- The variables of the loop, with what was sent and the text for the messages on errors.
pub record Parsing : Type 0 where
  pub stats : TetherStats
  pub stats_found : ℕ
  pub messages : List Message
  pub extra : String

abbrev keep_line : String → Parsing → Parsing
keep_line line p = record p { extra = p.extra +++ line }

abbrev send : Message → Parsing → Parsing
send m p = record p { messages = p.messages ++ m ∷ [] }

-- A counter in the loop: whether the method returns, and the variables.
abbrev pub on_counter : TetherStats → Counter → Parsing → Bool × Parsing
on_counter filter c p =
    let t = take_counter filter c p.stats in
    let q : Parsing = record p { stats = t } in
    let next : Parsing = record p { stats = filter; stats_found = suc p.stats_found } in
    if is_complete t
    then if is_pair filter
      then (true, send (tethering_stats_result (get_stats_line t)) q)
      else (false, send (tethering_stats_list_result (get_stats_line t)) next)
    else (false, q)

abbrev pub on_line : TetherStats → Option Counter → Parsing → Bool × Parsing
on_line filter none p = (false, p)
on_line filter (some c) p = on_counter filter c p

unfoldable pub parse_lines : List Directive → TetherStats → List String → Parsing → Bool × Parsing
parse_lines format filter [] p = (false, p)
parse_lines format filter (line ∷ lines) p =
    let (returns, q) = on_line filter (counter_of (sscanf format line)) (keep_line line p) in
    let rest = parse_lines format filter lines q in if returns then (true, q) else rest

abbrev start : TetherStats → List Message → String → Parsing
start filter messages extra = record {
  stats = filter;
  stats_found = 0;
  messages = messages;
  extra = extra;
}

-- Whether one side of a pair is there without the other.
abbrev pub is_partial : TetherStats → Bool
is_partial t = if t.rx_bytes == unknown then not (t.tx_bytes == unknown) else t.tx_bytes == unknown

abbrev pub ended : TetherStats → Bool × Parsing → Bool × (List Message × String)
ended filter (true, p) = (false, (p.messages, p.extra))
ended filter (false, p) =
    (is_partial p.stats || p.stats_found == 0 && not (is_pair filter), (p.messages, p.extra))

abbrev pub ended_v6 : Bool × Parsing → Bool × (List Message × String)
ended_v6 (true, p) = (false, (p.messages, p.extra))
ended_v6 (false, p) =
    if is_partial p.stats
    then (true, (p.messages, p.extra))
    else (false, (p.messages ++ command_okay "Tethering stats list completed" ∷ [], p.extra))

-- An error, with what was sent so far and the text of the lines read.
unfoldable pub parse_forward_chain_stats :
    TetherStats → List String → List Message × String → Bool × (List Message × String)
parse_forward_chain_stats filter lines (sent, extra) =
    ended filter (parse_lines ipv4_format filter lines (start filter sent extra))

unfoldable pub parse_forward_chain_stats_v6 :
    TetherStats → List String → List Message × String → Bool × (List Message × String)
parse_forward_chain_stats_v6 filter lines (sent, extra) =
    ended_v6 (parse_lines ipv6_format filter lines (start filter sent extra))

abbrev pub list_counters : String → List Word
list_counters path = text path ∷ text "-nvx" ∷ text "-L" ∷ text counters_chain ∷ []

-- ip6tables that does not start leaves the first result.
abbrev pub with_output_v6 :
    TetherStats → Option String → Bool × (List Message × String) → Bool × (List Message × String)
with_output_v6 stats none (res, (sent, extra)) = (res, (sent, extra +++ "Failed to run ip6tables."))
with_output_v6 stats (some output) (res, s) =
    let (res₆, s₆) = parse_forward_chain_stats_v6 stats (fgets_all line_room line_room output) s in
    (res || res₆, s₆)

module _ (kernel : Kernel) where
  abbrev pub with_output :
      TetherStats
      → Option String
      → List Message × String
      → World
      → (Bool × (List Message × String)) × World
  with_output stats none (sent, extra) w = ((true, (sent, extra +++ "Failed to run iptables.")), w)
  with_output stats (some output) s w =
      let cmd : List Word = list_counters ip6tables_path in
      (
        with_output_v6 stats (kernel.popen w.calls cmd)
            (parse_forward_chain_stats stats (fgets_all line_room line_room output) s),
        record_call (output_of cmd) w,
      )

  unfoldable pub get_tether_stats :
      TetherStats → List Message × String → World → (Bool × (List Message × String)) × World
  get_tether_stats stats s w =
      let cmd : List Word = list_counters iptables_path in
      with_output stats (kernel.popen w.calls cmd) s (record_call (output_of cmd) w)
