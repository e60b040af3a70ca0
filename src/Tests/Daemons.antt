-- ===== src/Tests/Daemons.antt =====
-- Runs of server/TetherController.cpp.
use platform_system_netd.Prelude.{◌-◌, ◌<◌, ◌≡◌, refl, true, List, [], ◌∷◌, ◌++◌, if◌then◌else◌}
use platform_system_netd.Kernel.{World, start, send}
use platform_system_netd.Kernel.Issues.{IsOk}
use platform_system_netd.Kernel.Words.{joined_length}
use platform_system_netd.TetherController.{Tether, constructed}
use platform_system_netd.TetherController.Dns.{
  Address, max_cmd_size, fitting, is_empty, update_ifaces, dnsmasq, start_tethering, stop_tethering,
  is_tethering_started,
}
use platform_system_netd.TetherController.Reachable.{
  tether, perform, created, next, IsValid, Tether-IsValid,
}
use platform_system_netd.TetherController.Reachable
use platform_system_netd.TetherController.Restart.{start-stop}
use platform_system_netd.Tests.Kernels.{willing, fresh}

abbrev ranges : List (Address × Address)
ranges = (192 ∷ 168 ∷ 43 ∷ 2 ∷ [], 192 ∷ 168 ∷ 43 ∷ 254 ∷ []) ∷ []

Tether-IsValid_example :
    IsValid
      (perform willing
        (Reachable.start ranges)
        ((perform willing (tether "wlan0") (constructed 0 0, fresh)).0, fresh)).0
Tether-IsValid_example =
    Tether-IsValid willing
      (next (Reachable.start ranges) fresh (next (tether "wlan0") fresh (created 0 0) refl) refl)

abbrev tethered : Tether × World
tethered = (record (constructed 0 0) { interfaces = "wlan0" ∷ [] }, fresh)

start-stop_example :
    IsOk (start_tethering willing ranges (stop_tethering tethered)).0
    × (is_tethering_started (start_tethering willing ranges (stop_tethering tethered)).1.0 ≡ true)
    × ((start_tethering willing ranges (stop_tethering tethered)).1.0.interfaces ≡ "wlan0" ∷ [])
    × ((start_tethering willing ranges (stop_tethering tethered)).1.1.calls
        ≡ ((stop_tethering tethered).1.calls ++ start (dnsmasq ranges) ∷ [])
          ++ (if is_empty (fitting 13 ("wlan0" ∷ []))
              then []
              else send 5 (update_ifaces ("wlan0" ∷ [])) ∷ []))
    × (joined_length (update_ifaces ("wlan0" ∷ [])) < max_cmd_size - 1)
start-stop_example = start-stop willing ranges tethered (λ calls. refl) (λ calls. refl)
