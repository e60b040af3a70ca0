-- ===== src/Client/Choice.antt =====
-- What the wrappers of the client library promise, with the server behind them.
use platform_system_netd.Prelude.{ℕ, ◌≡◌, ◌≢◌, refl, Bool, true, false, Option, some, ◌==◌}
use platform_system_netd.Kernel.{Result, ok, err}
use platform_system_netd.Kernel.Issues.{IsOk}
use platform_system_netd.Route.Rules.{net_id_unset}
use platform_system_netd.Controller.State.{Controller, local_net_id}
use platform_system_netd.Controller.Queries.{granted, check_user_network_access}
use platform_system_netd.Controller.Invariant.{IsWellFormed}
use platform_system_netd.FwmarkServer.{on_connect, select_network, connect, Sockets}
use platform_system_netd.Client.{
  Process, with_process, Connected, to_libc, to_vendor, should_set_fwmark, send, after_mark,
  netd_client_connect, checked, try_socket, set_network_for_target, set_network_for_process,
}
use platform_system_netd.Client.Serving.{
  server, HasErrors, IsMarked, send-IsMarked, connect-Refuses, select-Refuses, selected-granted,
}

-- A call that is made, of the C library or of the vendor.
abbrev pub IsCalled : Connected → Type 0
IsCalled to_libc = Unit
IsCalled to_vendor = Unit
IsCalled other = ⊥

-- A process gets a network that its user may use, or keeps the one that it has.
abbrev pub Chosen : Controller → ℕ → ℕ → Process → Result (Unit {0}) × Process → Type 0
Chosen c uid net_id p (ok a, q) =
    (check_user_network_access c uid net_id ≡ granted)
    × (q.net_id_for_process ≡ net_id)
    × (q.net_id_for_resolv ≡ p.net_id_for_resolv)
Chosen c uid net_id p (err e, q) =
    (q.net_id_for_process ≡ p.net_id_for_process) × (q.net_id_for_resolv ≡ p.net_id_for_resolv)

module _ (sockets : Sockets) (c : Controller) (uid : ℕ) (errors : HasErrors sockets) where
  after-IsOk :
      (vendor : Bool) (address : Option ℕ) (r : Result (Unit {0}))
      → IsCalled (after_mark false (server sockets c uid) vendor address r)
      → IsOk r
  after-IsOk vendor address (ok a) h = tt
  after-IsOk vendor address (err e) h = h

  -- If the kernel gives no errno of 0, and the wrapper of connect, for an open socket and an
  -- address of a family that is marked, gets as far as a call of connect with the server behind
  -- it, then the socket was given the mark that the server decides for a connection of the user.
  pub connect-IsMarked :
      (vendor : Bool) (fd family : ℕ)
      → should_set_fwmark false family ≡ true
      → IsCalled (netd_client_connect false (server sockets c uid) vendor (some fd) (some family))
      → IsMarked sockets fd (connect c uid)
  unfolding netd_client_connect
  connect-IsMarked vendor fd family ip h =
      send-IsMarked sockets c uid errors fd on_connect (connect-Refuses c uid)
        (after-IsOk vendor (some family) (send (server sockets c uid on_connect fd)) (rw ip at h))

  checked-Chosen :
      (disabled : Bool) (net_id fd : ℕ) (p : Process) (r : Result (Unit {0}))
      → (IsOk r → check_user_network_access c uid net_id ≡ granted)
      → Chosen c uid net_id p (checked disabled (server sockets c uid) net_id with_process fd r p)
  checked-Chosen disabled net_id fd p (ok a) h = (h tt, refl, refl)
  checked-Chosen disabled net_id fd p (err e) h = (refl, refl)

  try-Chosen :
      (disabled : Bool) (net_id : ℕ) (made : Result ℕ) (p : Process)
      → IsWellFormed c
      → net_id ≢ local_net_id
      → (net_id == net_id_unset) ≡ false
      → Chosen c uid net_id p
          (try_socket disabled (server sockets c uid) net_id with_process made p)
  try-Chosen disabled net_id (err e) p v d set = (refl, refl)
  try-Chosen disabled net_id (ok fd) p v d set = checked-Chosen disabled net_id fd p _ λ h.
      let m =
        send-IsMarked sockets c uid errors fd (select_network net_id)
          (λ f. select-Refuses c uid net_id f v d) h in
      selected-granted c uid net_id _ m.new set m.decided

  -- For a well-formed controller, a kernel that gives no errno of 0, and a network that is not the
  -- local one and not unset: if setting the network of the process succeeds, the user may use the
  -- network and the process has it; if it fails, the process keeps the network that it had; the
  -- network of the resolver stays.
  pub set_network_for_process-Chosen :
      (disabled : Bool) (net_id : ℕ) (made : Result ℕ) (p : Process)
      → IsWellFormed c
      → net_id ≢ local_net_id
      → (net_id == net_id_unset) ≡ false
      → Chosen c uid net_id p
          (set_network_for_process disabled (server sockets c uid) net_id made p)
  unfolding set_network_for_target
  set_network_for_process-Chosen disabled net_id made p v d set =
      rw set (try-Chosen disabled net_id made p v d set)
