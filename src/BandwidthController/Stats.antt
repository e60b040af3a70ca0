-- ===== src/BandwidthController/Stats.antt =====
-- server/BandwidthController.cpp: the counters of tethered pairs of interfaces, read from what
-- iptables and ip6tables print.
use Prim.Native.String.{[] as empty, ◌∷◌ as ◌▸◌}
use platform_system_netd.Prelude.{
  ℕ, ◌-◌, ◌^◌, Bool, true, false, not, ◌&&◌, ◌||◌, Option, none, some, List, [], ◌∷◌, String,
  str_eq, ◌==◌, if◌then◌else◌,
}
use platform_system_netd.Kernel.{Word, text}
use platform_system_netd.CStrings.Scan.{
  Directive, space, long, word, literal, Scanned, number, name,
}
use platform_system_netd.Kernel.Words.{signed}

-- The numbers are of type int64_t, held as their 64 bits; -1 stands for one that is not known.
pub record TetherStats : Type 0 where
  pub int_iface : String
  pub ext_iface : String
  pub rx_bytes : ℕ
  pub rx_packets : ℕ
  pub tx_bytes : ℕ
  pub tx_packets : ℕ

abbrev pub unknown : ℕ
unknown = 2 ^ 64 - 1

-- TetherStats()
abbrev pub no_stats : TetherStats
no_stats = record {
  int_iface = "";
  ext_iface = "";
  rx_bytes = unknown;
  rx_packets = unknown;
  tx_bytes = unknown;
  tx_packets = unknown;
}

unfoldable pub get_stats_line : TetherStats → List Word
get_stats_line t =
    text t.int_iface
    ∷ text t.ext_iface
    ∷ signed 64 t.rx_bytes
    ∷ signed 64 t.rx_packets
    ∷ signed 64 t.tx_bytes
    ∷ signed 64 t.tx_packets
    ∷ []

-- A message to the client.
pub data Message : Type 0 where
  tethering_stats_result tethering_stats_list_result : List Word → Message
  command_okay : String → Message

-- The packets and bytes of a rule, with the interfaces that it matches.
pub record Counter : Type 0 where
  pub packets : ℕ
  pub bytes : ℕ
  pub iface0 : String
  pub iface1 : String

-- "%lld %lld RETURN all -- %s %s 0.%s"
abbrev pub ipv4_format : List Directive
ipv4_format =
    long
    ∷ space
    ∷ long
    ∷ space
    ∷ literal "RETURN"
    ∷ space
    ∷ literal "all"
    ∷ space
    ∷ literal "--"
    ∷ space
    ∷ word
    ∷ space
    ∷ word
    ∷ space
    ∷ literal "0."
    ∷ word
    ∷ []

-- "%lld %lld RETURN all  %s %s ::%s"
abbrev pub ipv6_format : List Directive
ipv6_format =
    long
    ∷ space
    ∷ long
    ∷ space
    ∷ literal "RETURN"
    ∷ space
    ∷ literal "all"
    ∷ space
    ∷ word
    ∷ space
    ∷ word
    ∷ space
    ∷ literal "::"
    ∷ word
    ∷ []

-- Only a line that gives all five values counts.
abbrev pub counter_of : List Scanned → Option Counter
counter_of (number p ∷ number b ∷ name i ∷ name j ∷ name rest ∷ []) =
    some (record { packets = p; bytes = b; iface0 = i; iface1 = j })
counter_of scanned = none

abbrev pub is_set : String → Bool
is_set empty = false
is_set (c ▸ s) = true

abbrev pub is_pair : TetherStats → Bool
is_pair filter = is_set filter.int_iface && is_set filter.ext_iface

abbrev set_rx : Counter → TetherStats → TetherStats
set_rx c t = record t { rx_packets = c.packets; rx_bytes = c.bytes }

abbrev set_tx : Counter → TetherStats → TetherStats
set_tx c t = record t { tx_packets = c.packets; tx_bytes = c.bytes }

abbrev set_ifaces : String → String → TetherStats → TetherStats
set_ifaces i e t = record t { int_iface = i; ext_iface = e }

-- The filter names both interfaces, one, or none.
unfoldable pub take_counter : TetherStats → Counter → TetherStats → TetherStats
take_counter filter c t =
    if is_pair filter
    then if str_eq filter.int_iface c.iface0 && str_eq filter.ext_iface c.iface1
      then set_rx c t
      else if str_eq filter.int_iface c.iface1 && str_eq filter.ext_iface c.iface0
      then set_tx c t
      else t
    else if is_set filter.int_iface || is_set filter.ext_iface
    then if str_eq filter.int_iface c.iface0 || str_eq filter.ext_iface c.iface1
      then set_rx c (set_ifaces c.iface0 c.iface1 t)
      else if str_eq filter.int_iface c.iface1 || str_eq filter.ext_iface c.iface0
      then set_tx c (set_ifaces c.iface1 c.iface0 t)
      else t
    else if not (is_set t.int_iface)
    then set_rx c (set_ifaces c.iface0 c.iface1 t)
    else if str_eq t.int_iface c.iface1 && str_eq t.ext_iface c.iface0
    then set_tx c t
    else t

abbrev pub is_complete : TetherStats → Bool
is_complete t = not (t.rx_bytes == unknown) && not (t.tx_bytes == unknown)
