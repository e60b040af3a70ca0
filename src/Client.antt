-- ===== src/Client.antt =====
-- client/NetdClient.cpp and client/FwmarkClient.cpp: the wrappers around the socket calls of the C
-- library, which ask the server to mark a socket before it is used. A call that returns -1 is `err`
-- of its errno; where none is set, the errno is 0.
pub mod Serving
pub mod Choice
use platform_system_netd.Prelude.{
  ℕ, Bool, true, false, not, ◌&&◌, ◌||◌, Option, none, some, List, [], ◌∷◌, ◌==◌, if◌then◌else◌,
}
use platform_system_netd.Fwmark.{of_int}
use platform_system_netd.Kernel.{Result, ok, err, result}
use platform_system_netd.Kernel.Errno.{ebadf}
use platform_system_netd.Route.Rules.{net_id_unset}
use platform_system_netd.FwmarkServer.{
  FwmarkCommand, on_accept, on_connect, select_network, protect_from_vpn, select_for_user, Sockets,
}

-- The families of IP addresses.
abbrev pub af_inet : ℕ
af_inet = 2

abbrev pub af_inet6 : ℕ
af_inet6 = 10

-- How an exchange with the server goes: no socket for it, no server that listens, a message that is
-- not sent, an answer that is not received, a connection that is closed, or an answer.
pub data Response : Type 0 where
  no_socket not_sent not_received answered : ℕ → Response
  no_server closed : Response

-- The variables of the process, and the descriptors that were closed.
pub record Process : Type 0 where
  pub net_id_for_process : ℕ
  pub net_id_for_resolv : ℕ
  pub closed_fds : List ℕ

-- Which call a wrapper ends with: none of them, that of the C library or that of the vendor, or a
-- read through a null address.
pub data Connected : Type 0 where
  failed : ℕ → Connected
  to_libc to_vendor null_address : Connected

-- `getenv` found ANDROID_NO_USE_FWMARK_CLIENT if `disabled`.
abbrev pub should_set_fwmark : Bool → ℕ → Bool
should_set_fwmark disabled family = (family == af_inet || family == af_inet6) && not disabled

-- A server that is not there, and one that closes the connection, count as success.
abbrev pub send : Response → Result (Unit {0})
send (no_socket e) = err e
send no_server = ok tt
send (not_sent e) = err e
send (not_received e) = err e
send closed = ok tt
send (answered e) = result e

abbrev close : ℕ → Process → Process
close fd p = record p { closed_fds = fd ∷ p.closed_fds }

-- closeFdAndSetErrno
abbrev close_fd_and_set_errno : ℕ → ℕ → Process → Result ℕ × Process
close_fd_and_set_errno fd e p = (err e, close fd p)

-- A socket that stays open if the server had no error.
abbrev keep_if : Result (Unit {0}) → ℕ → Process → Result ℕ × Process
keep_if (ok a) fd p = (ok fd, p)
keep_if (err e) fd p = close_fd_and_set_errno fd e p

abbrev pub with_process : ℕ → Process → Process
with_process net_id p = record p { net_id_for_process = net_id }

abbrev with_resolv : ℕ → Process → Process
with_resolv net_id p = record p { net_id_for_resolv = net_id }

unfoldable pub get_network_for_resolv : ℕ → Process → ℕ
get_network_for_resolv net_id p =
    if not (net_id == net_id_unset)
    then net_id
    else if not (p.net_id_for_process == net_id_unset)
    then p.net_id_for_process
    else p.net_id_for_resolv

-- The network of a mark that is read; -1 and null pointers are `none`.
abbrev mark_network : Result ℕ → Result ℕ
mark_network (ok n) = ok ((of_int n).net_id)
mark_network (err e) = err e

unfoldable pub get_network_for_socket : Sockets → Bool → Option ℕ → Result ℕ
get_network_for_socket sockets has_place none = err ebadf
get_network_for_socket sockets has_place (some fd) =
    if has_place then mark_network (sockets.get_mark fd) else err ebadf

module _ (disabled : Bool) (answers : FwmarkCommand → ℕ → Response) where
  abbrev ask : FwmarkCommand → Option ℕ → Result (Unit {0})
  ask command none = err ebadf
  ask command (some fd) = send (answers command fd)

  abbrev pub set_network_for_socket : ℕ → Option ℕ → Result (Unit {0})
  set_network_for_socket net_id socket_fd = ask (select_network net_id) socket_fd

  abbrev pub protect_socket_from_vpn : Option ℕ → Result (Unit {0})
  protect_socket_from_vpn socket_fd = ask protect_from_vpn socket_fd

  abbrev pub set_network_for_user : ℕ → Option ℕ → Result (Unit {0})
  set_network_for_user uid socket_fd = ask (select_for_user uid) socket_fd

  -- The family comes from the address, or from the socket.
  abbrev accepted : ℕ → Result ℕ → Process → Result ℕ × Process
  accepted fd (err e) p = close_fd_and_set_errno fd e p
  accepted fd (ok family) p =
      if should_set_fwmark disabled family
      then keep_if (send (answers on_accept fd)) fd p
      else (ok fd, p)

  abbrev family_of : Option ℕ → Result ℕ → Result ℕ
  family_of none domain = domain
  family_of (some family) domain = ok family

  -- What the C library accepts, the family of the address if there is one, and the socket's own.
  unfoldable pub netd_client_accept4 :
      Result ℕ → Option ℕ → (ℕ → Result ℕ) → Process → Result ℕ × Process
  netd_client_accept4 (err e) address domain p = (err e, p)
  netd_client_accept4 (ok fd) address domain p = accepted fd (family_of address (domain fd)) p

  abbrev pub called : Bool → Option ℕ → Connected
  called false address = to_libc
  called true none = null_address
  called true (some family) = if should_set_fwmark disabled family then to_vendor else to_libc

  abbrev pub after_mark : Bool → Option ℕ → Result (Unit {0}) → Connected
  after_mark vendor address (ok a) = called vendor address
  after_mark vendor address (err e) = failed e

  -- The descriptor is `none` if it is negative, the address if it is null.
  unfoldable pub netd_client_connect : Bool → Option ℕ → Option ℕ → Connected
  netd_client_connect vendor none address = called vendor address
  netd_client_connect vendor (some fd) none = called vendor none
  netd_client_connect vendor (some fd) (some family) =
      if should_set_fwmark disabled family
      then after_mark vendor (some family) (send (answers on_connect fd))
      else called vendor (some family)

  -- The socket of the vendor's function, if there is one, or of the C library's.
  abbrev socket_of : Option (Result ℕ) → Option (Result ℕ) → Result ℕ
  socket_of (some made) libc = made
  socket_of none (some made) = made
  socket_of none none = err 0

  abbrev created : ℕ → Result ℕ → Process → Result ℕ × Process
  created domain (err e) p = (err e, p)
  created domain (ok fd) p =
      if not (p.net_id_for_process == net_id_unset) && should_set_fwmark disabled domain
      then keep_if (set_network_for_socket p.net_id_for_process (some fd)) fd p
      else (ok fd, p)

  unfoldable pub netd_client_socket :
      ℕ → Option (Result ℕ) → Option (Result ℕ) → Process → Result ℕ × Process
  netd_client_socket domain vendor libc p = created domain (socket_of vendor libc) p

  -- The network is set if the server lets a socket have it; the socket is closed again.
  abbrev pub checked :
      ℕ → (ℕ → Process → Process) → ℕ → Result (Unit {0}) → Process → Result (Unit {0}) × Process
  checked net_id set fd (ok a) p = (ok tt, close fd (set net_id p))
  checked net_id set fd (err e) p = (err e, close fd p)

  abbrev pub try_socket :
      ℕ → (ℕ → Process → Process) → Result ℕ → Process → Result (Unit {0}) × Process
  try_socket net_id set (err e) p = (err e, p)
  try_socket net_id set (ok fd) p =
      checked net_id set fd (set_network_for_socket net_id (some fd)) p

  unfoldable pub set_network_for_target :
      ℕ → (ℕ → Process → Process) → Result ℕ → Process → Result (Unit {0}) × Process
  set_network_for_target net_id set made p =
      if net_id == net_id_unset then (ok tt, set net_id p) else try_socket net_id set made p

  abbrev pub set_network_for_process : ℕ → Result ℕ → Process → Result (Unit {0}) × Process
  set_network_for_process net_id made p = set_network_for_target net_id with_process made p

  abbrev pub set_network_for_resolv : ℕ → Result ℕ → Process → Result (Unit {0}) × Process
  set_network_for_resolv net_id made p = set_network_for_target net_id with_resolv made p
