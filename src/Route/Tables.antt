-- ===== src/Route/Tables.antt =====
-- server/RouteController.cpp: the fixed routing tables, the cache of table numbers that outlives an
-- interface, and the file of table names.
use platform_system_netd.Prelude.{
  ℕ, ◌+◌, ◌%◌, ◌^◌, none, some, List, [], ◌∷◌, ◌++◌, map, String, ◌==◌, if◌then◌else◌,
}
use platform_system_netd.Kernel.{
  Kernel, World, Exec, Result, ok, err, Ret, table_names, record_call,
}
use platform_system_netd.Kernel.Errno.{esrch}
use platform_system_netd.Containers.{string_key, lookup, assign}
use platform_system_netd.Route.Requests.{table_unspec}

abbrev pub table_local_network : ℕ
table_local_network = 97

abbrev pub table_legacy_network : ℕ
table_legacy_network = 98

abbrev pub table_legacy_system : ℕ
table_legacy_system = 99

-- RT_TABLE_MAIN and RT_TABLE_LOCAL
abbrev pub table_main : ℕ
table_main = 254

abbrev pub table_local : ℕ
table_local = 255

abbrev pub route_table_offset_from_index : ℕ
route_table_offset_from_index = 1000

-- The entries that the file always has.
abbrev pub fixed_table_names : List (ℕ × String)
fixed_table_names =
    (table_local, "local")
    ∷ (table_main, "main")
    ∷ (table_local_network, "local_network")
    ∷ (table_legacy_network, "legacy_network")
    ∷ (table_legacy_system, "legacy_system")
    ∷ []

swapped : String × ℕ → ℕ × String
swapped (name, table) = (table, name)

-- The whole file is written anew, and no failure is reported.
unfoldable pub update_table_names_file : Ret
unfolding swapped
update_table_names_file w =
    (ok tt, record_call (table_names (fixed_table_names ++ map swapped w.interface_to_table)) w)

abbrev found_table : World → String → ℕ → ℕ × World
found_table w interface index =
    if index == 0
    then (elim (lookup interface w.interface_to_table) [
      | none ↦ (table_unspec, w)
      | some table ↦ (table, w)
    ])
    else (let table : ℕ = (index + route_table_offset_from_index) % 2 ^ 32 in
        (table, record w { interface_to_table = assign interface table w.interface_to_table }))

abbrev pub found_or_esrch : ℕ × World → Result ℕ × World
found_or_esrch (table, w) = (if table == table_unspec then err esrch else ok table, w)

module _ (kernel : Kernel) where
  unfoldable pub get_route_table_for_interface : String → World → ℕ × World
  get_route_table_for_interface interface w =
      found_table (record w { lookups = w.lookups + 1 }) interface
        (kernel.if_nametoindex w.calls w.lookups interface)

  -- The callers' first lines: a lookup, and ESRCH if there is no table.
  unfoldable pub require_table : String → Exec ℕ
  require_table interface w = found_or_esrch (get_route_table_for_interface interface w)
