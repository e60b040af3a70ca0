-- ===== src/BandwidthController/Listing.antt =====
-- What is sent for a table of counters: the pairs of the table, as it lists them.
use Prim.Native.String.{◌++◌ as ◌+++◌}
use platform_system_netd.Prelude.{
  ℕ, suc, ◌+◌, ◌≡◌, refl, ◌∙◌, ap, sym, Bool, true, false, none, some, List, [], ◌∷◌, ◌++◌, map,
  append-nil, append_assoc, length, String, arith, str_eq_iff, ◌==◌, ◌||◌,
}
use platform_system_netd.CStrings.Scan.{Directive, sscanf, fgets_all}
use platform_system_netd.Kernel.{Kernel, World, Call, output_of}
use platform_system_netd.Iptables.{iptables_path, ip6tables_path}
use platform_system_netd.BandwidthController.Tables.{line_room}
use platform_system_netd.BandwidthController.Stats.{
  is_complete, TetherStats, no_stats, unknown, get_stats_line, Message, tethering_stats_list_result,
  command_okay, Counter, counter_of, is_set, take_counter, ipv4_format, ipv6_format,
}
use platform_system_netd.BandwidthController.Parsing.{
  list_counters, get_tether_stats, Parsing, parse_lines, ended, ended_v6, parse_forward_chain_stats,
  parse_forward_chain_stats_v6,
}

-- The stats of a pair of counters.
abbrev pub pair_stats : Counter → Counter → TetherStats
pair_stats c d = record {
  int_iface = c.iface0;
  ext_iface = c.iface1;
  rx_bytes = c.bytes;
  rx_packets = c.packets;
  tx_bytes = d.bytes;
  tx_packets = d.packets;
}

-- Two counters of a pair, in both directions, with bytes that are known.
pub record IsPair (c d : Counter) : Type 0 where
  pub named : is_set c.iface0 ≡ true
  pub back : d.iface0 ≡ c.iface1
  pub forth : d.iface1 ≡ c.iface0
  pub received : (c.bytes == unknown) ≡ false
  pub sent : (d.bytes == unknown) ≡ false

-- A printed table: headings, which are not read as counters, and pairs of lines.
pub data Table (format : List Directive) : List String → List TetherStats → Type 0 where
  nothing : Table format [] []
  heading :
      {line : String} {lines : List String} {ts : List TetherStats}
      → counter_of (sscanf format line) ≡ none
      → Table format lines ts
      → Table format (line ∷ lines) ts
  pair :
      {line line' : String} {lines : List String} {ts : List TetherStats} (c d : Counter)
      → counter_of (sscanf format line) ≡ some c
      → counter_of (sscanf format line') ≡ some d
      → IsPair c d
      → Table format lines ts
      → Table format (line ∷ line' ∷ lines) (pair_stats c d ∷ ts)

abbrev pub listed : TetherStats → Message
listed t = tethering_stats_list_result (get_stats_line t)

-- The variables of the loop between pairs.
abbrev between : ℕ → List Message → String → Parsing
between n sent extra = record { stats = no_stats; stats_found = n; messages = sent; extra = extra }

abbrev half : Counter → TetherStats
half c = record no_stats {
  int_iface = c.iface0;
  ext_iface = c.iface1;
  rx_bytes = c.bytes;
  rx_packets = c.packets;
}

take_first : (c : Counter) → take_counter no_stats c no_stats ≡ half c
unfolding take_counter
take_first c = refl

take_second : (c d : Counter) → IsPair c d → take_counter no_stats d (half c) ≡ pair_stats c d
unfolding take_counter
take_second c d h = rw (
  h.named,
  (str_eq_iff c.iface0 d.iface1).1 (sym h.forth),
  (str_eq_iff c.iface1 d.iface0).1 (sym h.back),
)

half_is_open : (c : Counter) → is_complete (half c) ≡ false
half_is_open c = ground arith

pair_is_complete : (c d : Counter) → IsPair c d → is_complete (pair_stats c d) ≡ true
pair_is_complete c d h = rw (h.received, h.sent)

module _ (format : List Directive) where
  run_heading :
      (line : String) (lines : List String) (n : ℕ) (sent : List Message) (extra : String)
      → counter_of (sscanf format line) ≡ none
      → parse_lines format no_stats (line ∷ lines) (between n sent extra)
        ≡ parse_lines format no_stats lines (between n sent (extra +++ line))
  unfolding parse_lines
  run_heading line lines n sent extra e = rw e

  run_pair :
      (line line' : String) (lines : List String) (c d : Counter) (n : ℕ) (sent : List Message)
      (extra : String)
      → counter_of (sscanf format line) ≡ some c
      → counter_of (sscanf format line') ≡ some d
      → IsPair c d
      → parse_lines format no_stats (line ∷ line' ∷ lines) (between n sent extra)
        ≡ parse_lines format no_stats lines
            (between (suc n) (sent ++ listed (pair_stats c d) ∷ []) ((extra +++ line) +++ line'))
  unfolding parse_lines
  run_pair line line' lines c d n sent extra e e' h =
      rw (e, e', take_first c, half_is_open c, take_second c d h, pair_is_complete c d h)

  run-Table :
      {lines : List String} {ts : List TetherStats}
      → Table format lines ts
      → (n : ℕ) (sent : List Message) (extra : String)
      → (extra' : String) × (parse_lines format no_stats lines (between n sent extra)
          ≡ (false, between (n + length ts) (sent ++ map listed ts) extra'))
  run-Table nothing n sent extra =
      let same : n ≡ n + 0 = omega arith in
      (extra, unfold parse_lines in λ i. (false, between (same i) (sym (append-nil sent) i) extra))
  run-Table (heading {line} {lines} e t) n sent extra =
      let (extra', path) = run-Table t n sent (extra +++ line) in
      (extra', run_heading line lines n sent extra e ∙ path)
  run-Table (pair {line} {line'} {lines} {ts} c d e e' h t) n sent extra =
      let msg : Message = listed (pair_stats c d) in
      let (extra', path) = run-Table t (suc n) (sent ++ msg ∷ []) ((extra +++ line) +++ line') in
      let more : suc n + length ts ≡ n + suc (length ts) = omega arith in
      (
        extra',
        run_pair line line' lines c d n sent extra e e' h ∙ path ∙ λ i.
            (false, between (more i) (append_assoc sent (msg ∷ []) (map listed ts) i) extra'),
      )

lists-Table :
    {lines : List String} {ts : List TetherStats} (s : List Message × String)
    → Table ipv4_format lines ts
    → ((parse_forward_chain_stats no_stats lines s).0 ≡ (length ts == 0))
      × ((parse_forward_chain_stats no_stats lines s).1.0 ≡ s.0 ++ map listed ts)
unfolding parse_forward_chain_stats
lists-Table {ts} (sent, extra) t =
    let (extra', path) = run-Table ipv4_format t 0 sent extra in
    (
      ap (λ (out : Bool × Parsing). (ended no_stats out).0) path ∙ ground arith,
      ap (λ (out : Bool × Parsing). (ended no_stats out).1.0) path,
    )

lists-Table_v6 :
    {lines : List String} {ts : List TetherStats} (s : List Message × String)
    → Table ipv6_format lines ts
    → ((parse_forward_chain_stats_v6 no_stats lines s).0 ≡ false)
      × ((parse_forward_chain_stats_v6 no_stats lines s).1.0
          ≡ (s.0 ++ map listed ts) ++ command_okay "Tethering stats list completed" ∷ [])
unfolding parse_forward_chain_stats_v6
lists-Table_v6 (sent, extra) t =
    let (extra', path) = run-Table ipv6_format t 0 sent extra in
    (
      ap (λ (out : Bool × Parsing). (ended_v6 out).0) path,
      ap (λ (out : Bool × Parsing). (ended_v6 out).1.0) path,
    )

or_false : (a b c : Bool) → a ≡ c → b ≡ false → (a || b) ≡ c
or_false a b c p q = ground arith

module _ (kernel : Kernel) {output output₆ : String} where
  -- If iptables and ip6tables print tables of counters, each of lines that are no counters and of
  -- pairs of lines for the two directions of a pair of interfaces with known bytes, then an
  -- unfiltered request is answered with the stats of all pairs, first those of iptables, then
  -- those of ip6tables, in the order of the lines, and the end of the list; it is an error exactly
  -- if iptables lists no pair.
  pub get_tether_stats-listed :
      {ts ts₆ : List TetherStats} (sent : List Message) (extra : String) (w : World)
      → ((calls : List Call) → kernel.popen calls (list_counters iptables_path) ≡ some output)
      → ((calls : List Call) → kernel.popen calls (list_counters ip6tables_path) ≡ some output₆)
      → Table ipv4_format (fgets_all line_room line_room output) ts
      → Table ipv6_format (fgets_all line_room line_room output₆) ts₆
      → ((get_tether_stats kernel no_stats (sent, extra) w).0.0 ≡ (length ts == 0))
        × ((get_tether_stats kernel no_stats (sent, extra) w).0.1.0
            ≡ ((sent ++ map listed ts) ++ map listed ts₆)
              ++ command_okay "Tethering stats list completed" ∷ [])
  unfolding get_tether_stats
  get_tether_stats-listed {ts} {ts₆} sent extra w e e₆ t t₆ =
      let (res, messages) = lists-Table (sent, extra) t in
      let (res₆, messages₆) =
        lists-Table_v6
          (parse_forward_chain_stats no_stats (fgets_all line_room line_room output)
            (sent, extra)).1
          t₆ in
      rw (e w.calls, e₆ (w.calls ++ output_of (list_counters iptables_path) ∷ []))
        (
          or_false _ _ _ res res₆,
          messages₆
              ∙ ap
                  (λ (m : List Message).
                    (m ++ map listed ts₆) ++ command_okay "Tethering stats list completed" ∷ [])
                  messages,
        )
