-- ===== src/CommandListener/Networks.antt =====
-- server/CommandListener.cpp: NetworkCommand::runCommand. The arguments are those after the name of
-- the command.
use platform_system_netd.Prelude.{
  ℕ, ◌+◌, Bool, true, false, not, ◌||◌, Option, none, some, List, [], ◌∷◌, String, ltb,
  if◌then◌else◌, ◌==◌,
}
use platform_system_netd.Fwmark.{permission_none}
use platform_system_netd.Kernel.{Kernel}
use platform_system_netd.UidRanges.{Range}
use platform_system_netd.UidRanges.Parse.{parse_from}
use platform_system_netd.Route.Rules.{net_id_unset}
use platform_system_netd.Controller.State.{System, exec}
use platform_system_netd.Controller.Commands.{
  set_default_network, create_physical_network, create_virtual_network, destroy_network,
  add_interface_to_network, remove_interface_from_network, set_permission_for_networks,
  add_users_to_network, remove_users_from_network, set_permission_for_users, allow_protect,
  deny_protect,
}
use platform_system_netd.Controller.Routes.{modify_network_route}
use platform_system_netd.CommandListener.{Answer, success, syntax_error, report}
use platform_system_netd.CommandListener.Arguments.{
  ◌is◌, string_to_permission, string_to_net_id, unsigned_of, atoi_is_set, read_ids, read_users,
}

abbrev Step : Type 0
Step = System → Answer × System

-- How many arguments there are, argv[0] included.
unfoldable pub argc : List String → ℕ
argc [] = 1
argc (arg ∷ args) = argc args + 1

-- network protect allow|deny <uid> ...
unfoldable pub run_protect : ℕ → List String → Step
run_protect width (word ∷ arg ∷ args) s =
    if word is "allow"
    then success
        (record s { controller = allow_protect (read_users width (arg ∷ args)) s.controller })
    else if word is "deny"
    then success
        (record s { controller = deny_protect (read_users width (arg ∷ args)) s.controller })
    else syntax_error "Unknown argument" s
run_protect width args s = syntax_error "Missing argument" s

module _ (kernel : Kernel) where
  abbrev pub permit : String → ℕ → Option (List ℕ) → Step
  permit whom permission none s = syntax_error "Invalid id" s
  permit whom permission (some ids) s =
      if whom is "user"
      then success (record s { controller = set_permission_for_users permission ids s.controller })
      else if whom is "network"
      then report "setPermissionForNetworks() failed"
          (set_permission_for_networks kernel permission ids s)
      else syntax_error "Unknown argument" s

  abbrev pub bind : String → ℕ → Bool × List Range → Step
  bind word net_id (false, ranges) s = syntax_error "Invalid UIDs" s
  bind word net_id (true, ranges) s =
      if word is "add"
      then report "addUsersToNetwork() failed" (add_users_to_network kernel net_id ranges s)
      else if word is "remove"
      then report "removeUsersFromNetwork() failed"
          (remove_users_from_network kernel net_id ranges s)
      else syntax_error "Unknown argument" s

module _ (width : ℕ) (kernel : Kernel) where
  -- network route [legacy <uid>] add|remove <netId> <interface> <destination> [nexthop]
  abbrev pub route_to : Bool → Bool → ℕ → String → String → String → Option String → Step
  route_to add legacy uid net_id interface destination nexthop s =
      report (if add then "addRoute() failed" else "removeRoute() failed") (
        exec
          (modify_network_route kernel width s.controller (string_to_net_id width net_id) interface
            (some destination) nexthop add legacy uid)
          s)

  abbrev pub route_words : Bool → Bool → ℕ → List String → Step
  route_words add legacy uid (net_id ∷ interface ∷ destination ∷ []) =
      route_to add legacy uid net_id interface destination none
  route_words add legacy uid (net_id ∷ interface ∷ destination ∷ nexthop ∷ []) =
      route_to add legacy uid net_id interface destination (some nexthop)
  route_words add legacy uid args = syntax_error "Incorrect number of arguments"

  abbrev pub route_action_word : Bool → ℕ → List String → Step
  route_action_word legacy uid [] s = syntax_error "Incorrect number of arguments" s
  route_action_word legacy uid (word ∷ args) s =
      if word is "add"
      then route_words true legacy uid args s
      else if not (word is "remove")
      then syntax_error "Unknown argument" s
      else route_words false legacy uid args s

  abbrev pub route_legacy : List String → Step
  route_legacy (word ∷ uid ∷ args) s =
      if word is "legacy"
      then route_action_word true (unsigned_of width uid) args s
      else route_action_word false 0 (word ∷ uid ∷ args) s
  route_legacy args s = syntax_error "Incorrect number of arguments" s

  unfoldable pub run_route : List String → Step
  run_route args s =
      if ltb (argc args + 1) 6 || ltb 9 (argc args + 1)
      then syntax_error "Incorrect number of arguments" s
      else route_legacy args s

  -- network interface add|remove <netId> <interface>
  unfoldable pub run_interface : List String → Step
  run_interface (word ∷ net_id ∷ interface ∷ []) s =
      if word is "add"
      then report "addInterfaceToNetwork() failed"
          (add_interface_to_network kernel (string_to_net_id width net_id) interface s)
      else if word is "remove"
      then report "removeInterfaceFromNetwork() failed"
          (remove_interface_from_network kernel (string_to_net_id width net_id) interface s)
      else syntax_error "Unknown argument" s
  run_interface args s = syntax_error "Missing argument" s

  abbrev pub create_physical_as : String → ℕ → Step
  create_physical_as net_id permission s =
      report "createPhysicalNetwork() failed"
        (create_physical_network kernel (string_to_net_id width net_id) permission s)

  -- network create <netId> [permission], or network create <netId> vpn <hasDns> <secure>
  unfoldable pub run_create : List String → Step
  run_create [] s = syntax_error "Missing argument" s
  run_create (net_id ∷ []) s = create_physical_as net_id permission_none s
  run_create (net_id ∷ permission ∷ []) s =
      if string_to_permission permission == permission_none
      then syntax_error "Unknown permission" s
      else create_physical_as net_id (string_to_permission permission) s
  run_create (net_id ∷ vpn ∷ has_dns ∷ secure ∷ []) s =
      if vpn is "vpn"
      then report "createVirtualNetwork() failed" (
          create_virtual_network kernel (string_to_net_id width net_id) (atoi_is_set width has_dns)
            (atoi_is_set width secure) s)
      else syntax_error "Unknown trailing argument(s)" s
  run_create args s = syntax_error "Unknown trailing argument(s)" s

  -- network destroy <netId>
  unfoldable pub run_destroy : List String → Step
  run_destroy (net_id ∷ []) s =
      report "destroyNetwork() failed" (destroy_network kernel (string_to_net_id width net_id) s)
  run_destroy args s = syntax_error "Incorrect number of arguments" s

  abbrev pub set_default_to : ℕ → Step
  set_default_to net_id s =
      report "setDefaultNetwork() failed" (set_default_network kernel net_id s)

  abbrev pub set_default_words : List String → Step
  set_default_words [] s = syntax_error "Missing netId" s
  set_default_words (net_id ∷ args) s = set_default_to (string_to_net_id width net_id) s

  -- network default set <netId>, or network default clear
  unfoldable pub run_default : List String → Step
  run_default [] s = syntax_error "Missing argument" s
  run_default (word ∷ args) s =
      if word is "set"
      then set_default_words args s
      else if not (word is "clear")
      then syntax_error "Unknown argument" s
      else set_default_to net_id_unset s

  abbrev pub permit_all : String → ℕ → List String → Step
  permit_all whom permission [] s = syntax_error "Missing id" s
  permit_all whom permission (arg ∷ args) s =
      permit kernel whom permission (read_ids width (arg ∷ args)) s

  -- network permission user|network set <permission> <id> ..., or ... clear <id> ...
  unfoldable pub run_permission : List String → Step
  run_permission (whom ∷ word ∷ arg ∷ args) s =
      if word is "set"
      then if string_to_permission arg == permission_none
        then syntax_error "Unknown permission" s
        else permit_all whom (string_to_permission arg) args s
      else if not (word is "clear")
      then syntax_error "Unknown argument" s
      else permit_all whom permission_none (arg ∷ args) s
  run_permission args s = syntax_error "Missing argument" s

  -- network users add|remove <netId> [<uid>[-<uid>]] ...
  unfoldable pub run_users : List String → Step
  run_users (word ∷ net_id ∷ args) s =
      bind kernel word (string_to_net_id width net_id) (parse_from width args) s
  run_users args s = syntax_error "Missing argument" s

  unfoldable pub run_command : List String → Step
  run_command [] s = syntax_error "Missing argument" s
  run_command (name ∷ args) s =
      if name is "route"
      then run_route args s
      else if name is "interface"
      then run_interface args s
      else if name is "create"
      then run_create args s
      else if name is "destroy"
      then run_destroy args s
      else if name is "default"
      then run_default args s
      else if name is "permission"
      then run_permission args s
      else if name is "users"
      then run_users args s
      else if name is "protect"
      then run_protect width args s
      else syntax_error "Unknown argument" s
