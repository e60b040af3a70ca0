-- ===== src/FwmarkServer.antt =====
-- server/FwmarkServer.cpp and include/FwmarkCommand.h: the server that marks the sockets that
-- clients pass to it.
pub mod Privileges
pub mod Protocol
use platform_system_netd.Prelude.{
  ℕ, Bool, true, false, not, ◌&&◌, Option, none, some, bit_or, ltb, ◌==◌, if◌then◌else◌,
}
use platform_system_netd.Fwmark.{
  Fwmark, set_net_id, set_explicitly_selected, set_protected_from_vpn, set_permission, int_value,
  of_int, grants, permission_none, permission_system,
}
use platform_system_netd.Kernel.{Result, ok, err}
use platform_system_netd.Kernel.Errno.{eperm, eproto, ebadf, ebadmsg}
use platform_system_netd.Route.Rules.{net_id_unset}
use platform_system_netd.Controller.State.{Controller}
use platform_system_netd.Controller.Queries.{
  Access, granted, refused, undefined, get_permission_for_user, get_network_for_connect,
  is_virtual_network, get_default_network, check_user_network_access, can_protect,
  get_network_for_user,
}

-- The command's id, with the members that it uses; an id out of the enum is unknown.
pub data FwmarkCommand : Type 0 where
  on_accept on_connect : FwmarkCommand
  select_network : ℕ → FwmarkCommand
  protect_from_vpn : FwmarkCommand
  select_for_user : ℕ → FwmarkCommand
  unknown : FwmarkCommand

-- What a command decides: the mark to set, an error, or a read past an object.
pub data Decision : Type 0 where
  mark : Fwmark → Decision
  reject : ℕ → Decision
  fault : Decision

module _ (c : Controller) (uid : ℕ) where
  -- The branches of the switch, each with the assignment of `fwmark.permission` after it.
  unfoldable pub accept : Fwmark → Decision
  accept f = mark (set_permission (bit_or (get_permission_for_user c uid) f.permission) f)

  abbrev pub connect_net_id : Fwmark → Fwmark
  connect_net_id f =
      if f.explicitly_selected
      then f
      else if not f.protected_from_vpn
      then set_net_id (get_network_for_connect c uid) f
      else if not (is_virtual_network c f.net_id)
      then set_net_id (get_default_network c) f
      else f

  unfoldable pub connect : Fwmark → Decision
  connect f = mark (set_permission (get_permission_for_user c uid) (connect_net_id f))

  abbrev pub selected : ℕ → Fwmark → Access → Decision
  selected net_id f granted = mark (
      set_permission (get_permission_for_user c uid) (
        set_protected_from_vpn (can_protect c uid)
          (set_explicitly_selected true (set_net_id net_id f))))
  selected net_id f (refused e) = reject e
  selected net_id f undefined = fault

  unfoldable pub select : ℕ → Fwmark → Decision
  select net_id f =
      if net_id == net_id_unset
      then mark (
          set_permission permission_none
            (set_protected_from_vpn false (set_explicitly_selected false (set_net_id net_id f))))
      else selected net_id f (check_user_network_access c uid net_id)

  abbrev pub protect_net_id : Fwmark → Fwmark
  protect_net_id f =
      if not f.explicitly_selected && is_virtual_network c f.net_id
      then set_net_id (get_default_network c) f
      else f

  unfoldable pub protect : Fwmark → Decision
  protect f =
      if not (can_protect c uid)
      then reject eperm
      else mark (
          set_permission (bit_or (get_permission_for_user c uid) f.permission)
            (set_protected_from_vpn true (protect_net_id f)))

  unfoldable pub select_user : ℕ → Fwmark → Decision
  select_user user f =
      if not (grants (get_permission_for_user c uid) permission_system)
      then reject eperm
      else mark (
          set_permission (get_permission_for_user c uid)
            (set_protected_from_vpn true (set_net_id (get_network_for_user c user) f)))

  abbrev pub decide : FwmarkCommand → Fwmark → Decision
  decide on_accept f = accept f
  decide on_connect f = connect f
  decide (select_network net_id) f = select net_id f
  decide protect_from_vpn f = protect f
  decide (select_for_user user) f = select_user user f
  decide unknown f = reject eproto

-- The size of the struct: an enum, an unsigned and a uid.
abbrev pub sizeof_command : ℕ
sizeof_command = 12

-- What `recvmsg` gives: an error, or for an end of the stream the errno that was there before, or
-- a message with its length and the descriptor of its control data, if that is there and has the
-- expected form.
pub data Receipt : Type 0 where
  nothing : ℕ → Receipt
  message : ℕ → FwmarkCommand → Option ℕ → Receipt

-- The kernel's answers for the marks of sockets: the mark that is read, and the errno of a mark
-- that cannot be set.
pub record Sockets : Type 0 where
  pub get_mark : ℕ → Result ℕ
  pub set_mark : ℕ → ℕ → Option ℕ

-- How a request ends: the code that is sent to the client, with the mark that the socket got, or
-- a read past an object.
pub data Served : Type 0 where
  marked : ℕ → ℕ → Served
  failed : ℕ → Served
  crashed : Served

module _ (sockets : Sockets) where
  abbrev pub apply_mark : ℕ → Decision → Served
  apply_mark fd (mark f) = elim (sockets.set_mark fd (int_value f)) [
    | none ↦ marked fd (int_value f)
    | some e ↦ failed e
  ]
  apply_mark fd (reject e) = failed e
  apply_mark fd fault = crashed

  abbrev pub serve_socket : Controller → ℕ → FwmarkCommand → ℕ → Result ℕ → Served
  serve_socket c uid command fd (ok n) = apply_mark fd (decide c uid command (of_int n))
  serve_socket c uid command fd (err e) = failed e

  abbrev pub serve_message : Controller → ℕ → FwmarkCommand → Option ℕ → Served
  serve_message c uid command none = failed ebadf
  serve_message c uid command (some fd) = serve_socket c uid command fd (sockets.get_mark fd)

  unfoldable pub process_client : Controller → ℕ → Receipt → Served
  process_client c uid (nothing e) = failed e
  process_client c uid (message length command fd) =
      if not (length == sizeof_command) then failed ebadmsg else serve_message c uid command fd
