-- ===== src/TetherController/Restart.antt =====
-- Tethering that is stopped can be started again, and the new daemon is told the interfaces.
use Prim.Native.String.{len}
use platform_system_netd.Prelude.{
  ℕ, suc, ◌+◌, ◌-◌, ◌≤◌, ◌<◌, ◌≡◌, refl, sym, ap, ◌∙◌, append-nil, true, false, some, List, [], ◌∷◌,
  ◌++◌, String, arith, if◌then◌else◌,
}
use platform_system_netd.Kernel.{Kernel, World, Call, ok, start, send, record_call}
use platform_system_netd.Kernel.Issues.{IsOk}
use platform_system_netd.Kernel.Words.{joined_length}
use platform_system_netd.TetherController.{Tether}
use platform_system_netd.TetherController.Dns.{
  Address, max_cmd_size, fitting, is_empty, written, with_daemon, update_ifaces, dnsmasq,
  apply_dns_interfaces, start_tethering, stop_tethering, is_tethering_started,
}

-- What is added stays below the size, with room for the terminator.
fitting-fits :
    (used : ℕ) (names : List String)
    → used ≤ 1022
    → used + joined_length (fitting used names) ≤ 1022
unfolding fitting
fitting-fits used [] h = omega arith
fitting-fits used (name ∷ names) h = ground (arith, fitting-fits (used + len name + 1) names)

stop-interfaces :
    (s : Tether × World)
    → ((stop_tethering s).0.interfaces ≡ s.0.interfaces) × ((stop_tethering s).0.daemon_pid ≡ 0)
unfolding stop_tethering
stop-interfaces s = (ground arith, ground arith)

abbrev running : ℕ → ℕ → Tether → Tether
running pid fd t = with_daemon (suc pid) (some fd) t

module _ (kernel : Kernel) where
  -- What the new daemon is told.
  abbrev told : ℕ → List String → List Call
  told fd names = if is_empty (fitting 13 names) then [] else send fd (update_ifaces names) ∷ []

  calls-apply :
      (t : Tether) (w : World) (fd : ℕ)
      → t.daemon_fd ≡ some fd
      → (apply_dns_interfaces kernel t w).1.calls ≡ w.calls ++ told fd t.interfaces
  unfolding apply_dns_interfaces
  calls-apply t w fd h =
      elim (is_empty (fitting 13 t.interfaces))
        as (λ b.
          (if b
            then (true, w)
            else written kernel t.daemon_fd (update_ifaces t.interfaces) w).1.calls
          ≡ w.calls ++ (if b then [] else send fd (update_ifaces t.interfaces) ∷ [])) [
            | true ↦ sym (append-nil w.calls)
            | false ↦ rw h refl
          ]

  module _ (ranges : List (Address × Address)) {fd pid : ℕ}
      (piped : (calls : List Call) → kernel.pipe calls ≡ some fd)
      (forked : (calls : List Call) → kernel.fork calls ≡ some pid) where
    start-stopped :
        (t : Tether) (w : World)
        → t.daemon_pid ≡ 0
        → start_tethering kernel ranges (t, w) ≡ (
          ok tt,
          (
            running pid fd t,
            (apply_dns_interfaces kernel
                (running pid fd t)
                (record_call (start (dnsmasq ranges)) w)).1,
          ),
        )
    unfolding start_tethering
    start-stopped t w h = rw (h, piped w.calls, forked w.calls) refl

  -- From any state, if pipes and forks work: after tethering was stopped it can be started, it is
  -- then started with the same interfaces, the daemon is started with the ranges and, if there are
  -- interfaces that fit into a message, is told them at once, in a message that is shorter than
  -- the buffer; nothing else is done.
  pub start-stop :
      (ranges : List (Address × Address)) (s : Tether × World) {fd pid : ℕ}
      → ((calls : List Call) → kernel.pipe calls ≡ some fd)
      → ((calls : List Call) → kernel.fork calls ≡ some pid)
      → IsOk (start_tethering kernel ranges (stop_tethering s)).0
        × (is_tethering_started (start_tethering kernel ranges (stop_tethering s)).1.0 ≡ true)
        × ((start_tethering kernel ranges (stop_tethering s)).1.0.interfaces ≡ s.0.interfaces)
        × ((start_tethering kernel ranges (stop_tethering s)).1.1.calls
            ≡ ((stop_tethering s).1.calls ++ start (dnsmasq ranges) ∷ [])
              ++ (if is_empty (fitting 13 s.0.interfaces)
                  then []
                  else send fd (update_ifaces s.0.interfaces) ∷ []))
        × (joined_length (update_ifaces s.0.interfaces) < max_cmd_size - 1)
  start-stop ranges s {fd} {pid} piped forked =
      let (same, stopped) = stop-interfaces s in
      let (t, w) = stop_tethering s in
      let short = fitting-fits 13 s.0.interfaces (omega arith) in
      rw (start-stopped ranges piped forked t w stopped) (
        tt,
        ground arith,
        same,
        calls-apply (running pid fd t) (record_call (start (dnsmasq ranges)) w) fd refl
            ∙ ap
                (λ (names : List String). (w.calls ++ start (dnsmasq ranges) ∷ []) ++ told fd names)
                same,
        omega arith,
      )
