-- ===== src/Tests/Marks.antt =====
-- Runs on marks, rules and ranges of users.
use platform_system_netd.Prelude.{some, All, ◌≤◌, ◌≡◌, refl, true, false, List, [], ◌∷◌, arith}
use platform_system_netd.Fwmark.{Fwmark, IsFwmark}
use platform_system_netd.Containers.{assign}
use platform_system_netd.Route.Tables.{require_table, get_route_table_for_interface}
use platform_system_netd.Route.Selecting.{Selections, rules_select}
use platform_system_netd.UidRanges.{merge, less, Range, has_uid, covers, add, remove, sort}
use platform_system_netd.UidRanges.Order.{IsSorted, sort-IsSorted}
use platform_system_netd.UidRanges.Lookup.{has_uid-covers, has_uid_misses_enclosing}
use platform_system_netd.UidRanges.Multisets.{remove-add}
use platform_system_netd.UidRanges.Parse.{
  parse_from, parse_args, parse_range, IsUidRange, parse_from-IsSorted,
}
use platform_system_netd.CStrings.{strtoul, skip_spaces, digits}
use platform_system_netd.Prefix.{
  parse_prefix, split_at_slash, is_iface_name, is_name_rest, parse_prefix_fits,
}
use platform_system_netd.Route.Requests.{pad_interface_name}
use platform_system_netd.Kernel.{World, new, inet, ok, err, ◌>>=◌}
use platform_system_netd.Kernel.Errno.{enametoolong}
use platform_system_netd.Tests.Kernels.{willing, resolving, fresh}

abbrev chosen : Fwmark
chosen = record {
  net_id = 100;
  explicitly_selected = true;
  protected_from_vpn = false;
  permission = 1;
  padding = 0;
}

chosen-IsFwmark : IsFwmark chosen
chosen-IsFwmark = record { net_id = omega arith; permission = omega arith; padding = omega arith }

abbrev found : World
found = (require_table willing "wlan0" fresh).1

table_is_found : require_table willing "wlan0" fresh ≡ (ok 1007, found)
unfolding require_table get_route_table_for_interface ◌>>=◌ assign
table_is_found = refl

rules_select_example :
    Selections willing chosen 100 1007 1 10000 10010 false true new "wlan0" fresh found
rules_select_example =
    rules_select willing chosen chosen-IsFwmark 100 1007 1 10000 10010 false true new "wlan0" fresh
      found refl table_is_found

-- Two ranges of users that do not overlap.
abbrev two_ranges : List Range
two_ranges = (10000, 10010) ∷ (10020, 10030) ∷ []

has_uid-covers_example : has_uid 10025 two_ranges ≡ covers 10025 two_ranges
has_uid-covers_example = has_uid-covers 10025 two_ranges (omega arith)

has_uid_misses_enclosing_example :
    (covers 10025 (add ((10000, 10030) ∷ []) ((10010, 10020) ∷ [])) ≡ true)
    × (has_uid 10025 (add ((10000, 10030) ∷ []) ((10010, 10020) ∷ [])) ≡ false)
has_uid_misses_enclosing_example =
    has_uid_misses_enclosing 10025 10000 10030 10010 10020 (omega arith) (omega arith) (omega arith)
      (omega arith)

sort-IsSorted_example : IsSorted (sort ((10020, 10030) ∷ (10000, 10010) ∷ []))
sort-IsSorted_example = sort-IsSorted ((10020, 10030) ∷ (10000, 10010) ∷ [])

remove-add_example :
    remove (add two_ranges ((10040, 10050) ∷ [])) ((10040, 10050) ∷ []) ≡ two_ranges
remove-add_example =
    remove-add two_ranges ((10040, 10050) ∷ [])
      (unfold platform_system_netd.UidRanges.less in (refl, tt)) tt

parses : parse_from 32 ("10020-10030" ∷ "10000" ∷ []) ≡ (true, (10000, 10000) ∷ (10020, 10030) ∷ [])
unfolding parse_args parse_range strtoul skip_spaces digits sort merge less
parses = refl

parse_from-IsSorted_example :
    IsSorted ((10000, 10000) ∷ (10020, 10030) ∷ [])
    × All IsUidRange ((10000, 10000) ∷ (10020, 10030) ∷ [])
parse_from-IsSorted_example =
    parse_from-IsSorted 32 ("10020-10030" ∷ "10000" ∷ []) ((10000, 10000) ∷ (10020, 10030) ∷ [])
      parses

-- A sign is taken for a part of a number.
parses_signs : parse_from 64 ("--5" ∷ []) ≡ (true, (0, 4294967291) ∷ [])
unfolding parse_args parse_range strtoul skip_spaces digits sort merge less
parses_signs = refl

parses_a_prefix :
    parse_prefix resolving 32 (some "192.168.42.0/24") 16 ≡ ok (inet, 192 ∷ 168 ∷ 42 ∷ 0 ∷ [], 24)
unfolding parse_prefix split_at_slash strtoul skip_spaces digits
parses_a_prefix = refl

parse_prefix_fits_example : (24 ≤ 32) × (4 ≤ 16)
parse_prefix_fits_example =
    parse_prefix_fits resolving 32 16 (some "192.168.42.0/24") inet (192 ∷ 168 ∷ 42 ∷ 0 ∷ []) 24
      parses_a_prefix

-- A name of 16 characters is accepted, which its requests are refused for.
accepts_a_long_name :
    (is_iface_name "abcdefghijklmnop" ≡ true)
    × (pad_interface_name (some "abcdefghijklmnop") ≡ err enametoolong)
unfolding is_iface_name is_name_rest pad_interface_name
accepts_a_long_name = (refl, refl)
