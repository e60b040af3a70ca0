-- ===== src/Tests/Clients.antt =====
-- Runs of the client library.
use platform_system_netd.Prelude.{refl, true, false, some, [], arith}
use platform_system_netd.Containers.{number_key, lookup}
use platform_system_netd.Kernel.{ok}
use platform_system_netd.Controller.State.{initial}
use platform_system_netd.Controller.Queries.{
  get_permission_for_user, get_network_for_connect, first_vpn,
}
use platform_system_netd.FwmarkServer.{connect, process_client}
use platform_system_netd.Client.{Process, netd_client_connect, set_network_for_process}
use platform_system_netd.Client.Serving.{server, HasErrors, IsMarked}
use platform_system_netd.Client.Choice.{
  IsCalled, Chosen, connect-IsMarked, set_network_for_process-Chosen,
}
use platform_system_netd.Tests.Controllers.{with_default, default-IsWellFormed}
use platform_system_netd.Tests.Servers.{clear_sockets}

clear_sockets-HasErrors : HasErrors clear_sockets
clear_sockets-HasErrors = record { get = λ fd h. cc; set = λ fd n h. cc }

is_called :
    IsCalled (netd_client_connect false (server clear_sockets initial 10000) true (some 5) (some 2))
unfolding netd_client_connect process_client connect get_permission_for_user lookup
    get_network_for_connect first_vpn
is_called = tt

connect-IsMarked_example : IsMarked clear_sockets 5 (connect initial 10000)
connect-IsMarked_example =
    connect-IsMarked clear_sockets initial 10000 clear_sockets-HasErrors true 5 2 refl is_called

abbrev process : Process
process = record { net_id_for_process = 0; net_id_for_resolv = 0; closed_fds = [] }

set_network_for_process-Chosen_example : Chosen with_default.controller 1000 100 process (
    set_network_for_process false
      (server clear_sockets with_default.controller 1000)
      100
      (ok 6)
      process)
set_network_for_process-Chosen_example =
    set_network_for_process-Chosen clear_sockets with_default.controller 1000
      clear_sockets-HasErrors false 100 (ok 6) process default-IsWellFormed (λ h. omega arith) refl
