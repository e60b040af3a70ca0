-- ===== src/Tests/Servers.antt =====
-- Runs of the fwmark server.
use platform_system_netd.Prelude.{ℕ, ◌≡◌, ◌⊎◌, refl, true, false, none, some}
use platform_system_netd.Containers.{number_key, contains, lookup}
use platform_system_netd.Fwmark.{Fwmark, cleared, grants, int_value, of_int}
use platform_system_netd.Kernel.{ok}
use platform_system_netd.Controller.State.{initial}
use platform_system_netd.Controller.Queries.{
  check_user_network_access, get_permission_for_user, first_vpn, can_protect,
}
use platform_system_netd.Controller.Access.{MayUse, IsSystem}
use platform_system_netd.FwmarkServer.{
  Sockets, Receipt, message, marked, crashed, select_network, select, process_client,
  sizeof_command,
}
use platform_system_netd.FwmarkServer.Privileges.{explicit_choice_is_allowed, protection_is_allowed}
use platform_system_netd.FwmarkServer.Protocol.{crashes_for_local_alone}
use platform_system_netd.Tests.Controllers.{start-IsWellFormed}

-- Sockets whose mark is clear, and that take any mark.
abbrev pub clear_sockets : Sockets
clear_sockets = record { get_mark = λ fd. ok 0; set_mark = λ fd n. none }

-- A user of the system selects the local network.
abbrev selected_local : Fwmark
selected_local = record {
  net_id = 99;
  explicitly_selected = true;
  protected_from_vpn = true;
  permission = 3;
  padding = 0;
}

abbrev select_local : Receipt
select_local = message 12 (select_network 99) (some 5)

explicit_choice_is_allowed_example :
    ((false ≡ true) × (selected_local.net_id ≡ cleared.net_id))
    ⊎ (MayUse initial 1000 99 ⊎ IsSystem initial 1000)
explicit_choice_is_allowed_example =
    explicit_choice_is_allowed initial 1000 (select_network 99) cleared selected_local
      start-IsWellFormed
      (unfold select check_user_network_access get_permission_for_user lookup grants can_protect
          contains in
        refl)
      refl

protection_is_allowed_example : (false ≡ true) ⊎ (can_protect initial 1000 ≡ true)
protection_is_allowed_example =
    protection_is_allowed initial 1000 (select_network 99) cleared selected_local
      (unfold select check_user_network_access get_permission_for_user lookup grants can_protect
          contains in
        refl)
      refl

marks_the_socket :
    process_client clear_sockets initial 1000 select_local ≡ marked 5 (int_value selected_local)
unfolding process_client select check_user_network_access get_permission_for_user lookup grants
    can_protect contains int_value of_int
marks_the_socket = refl

-- An app does.
crashes : process_client clear_sockets initial 10000 select_local ≡ crashed
unfolding process_client select check_user_network_access get_permission_for_user lookup grants
    first_vpn of_int
crashes = refl

crashes_for_local_alone_example :
    (fd : ℕ) × (select_local ≡ message sizeof_command (select_network 99) (some fd))
crashes_for_local_alone_example =
    crashes_for_local_alone clear_sockets initial 10000 select_local start-IsWellFormed crashes
