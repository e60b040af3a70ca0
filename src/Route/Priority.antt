-- ===== src/Route/Priority.antt =====
-- server/RouteController.cpp: the priorities of its rules. A lower number is looked at first.
use platform_system_netd.Prelude.{ℕ}

abbrev pub vpn_override_system : ℕ
vpn_override_system = 10000

abbrev pub vpn_output_to_local : ℕ
vpn_output_to_local = 11000

abbrev pub secure_vpn : ℕ
secure_vpn = 12000

abbrev pub explicit_network : ℕ
explicit_network = 13000

abbrev pub output_interface : ℕ
output_interface = 14000

abbrev pub legacy_system : ℕ
legacy_system = 15000

abbrev pub legacy_network : ℕ
legacy_network = 16000

abbrev pub local_network : ℕ
local_network = 17000

abbrev pub tethering : ℕ
tethering = 18000

abbrev pub implicit_network : ℕ
implicit_network = 19000

abbrev pub bypassable_vpn : ℕ
bypassable_vpn = 20000

abbrev pub vpn_fallthrough : ℕ
vpn_fallthrough = 21000

abbrev pub default_network : ℕ
default_network = 22000

abbrev pub directly_connected : ℕ
directly_connected = 23000

abbrev pub unreachable : ℕ
unreachable = 32000
