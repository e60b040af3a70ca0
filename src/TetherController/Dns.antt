-- ===== src/TetherController/Dns.antt =====
-- server/TetherController.cpp: the dnsmasq daemon, what it is told, and the tethered interfaces.
use Prim.Native.String.{len}
use platform_system_netd.Prelude.{
  ℕ, suc, ◌+◌, Bool, true, false, not, Option, none, some, List, [], ◌∷◌, ◌++◌, String, leb, ◌==◌,
  if◌then◌else◌,
}
use platform_system_netd.Containers.{string_key, contains, erase_first}
use platform_system_netd.Fwmark.{
  Fwmark, cleared, int_value, permission_system, set_net_id, set_explicitly_selected,
  set_protected_from_vpn, set_permission,
}
use platform_system_netd.Kernel.{
  Kernel, World, Result, ok, err, Word, text, hex, decimal, start, stop, send, record_call,
}
use platform_system_netd.Kernel.Errno.{ebusy, enoent}
use platform_system_netd.Kernel.Words.{joined_length}
use platform_system_netd.Prefix.{is_iface_name}
use platform_system_netd.TetherController.{Tether, TetherMethod}
use platform_system_netd.TetherController.Advertising.{configure_v6_rtr_adv}

abbrev pub max_cmd_size : ℕ
max_cmd_size = 1024

abbrev pub with_interfaces : List String → Tether → Tether
with_interfaces names t = record t { interfaces = names }

abbrev with_forwarders : List (List ℕ) → Tether → Tether
with_forwarders addresses t = record t { dns_forwarders = addresses }

abbrev pub with_daemon : ℕ → Option ℕ → Tether → Tether
with_daemon pid fd t = record t { daemon_pid = pid; daemon_fd = fd }

abbrev pub is_none : Option ℕ → Bool
is_none none = true
is_none (some fd) = false

-- The names that are added to a command of so many characters, up to the first that does not fit.
unfoldable pub fitting : ℕ → List String → List Word
fitting used [] = []
fitting used (name ∷ names) =
    let rest = fitting (used + len name + 1) names in
    if leb max_cmd_size (used + len name + 1 + 1) then [] else text ":" ∷ text name ∷ rest

abbrev pub update_ifaces : List String → List Word
update_ifaces names = text "update_ifaces" ∷ fitting 13 names

abbrev pub is_empty : List Word → Bool
is_empty [] = true
is_empty (w ∷ words) = false

-- `inet_ntoa`
abbrev printed_from : List Word → List ℕ → List Word
printed_from dot [] = []
printed_from dot (n ∷ bytes) = dot ++ decimal n ∷ printed_from (text "." ∷ []) bytes

abbrev pub printed : List ℕ → List Word
printed = printed_from []

abbrev pub Address : Type 0
Address = List ℕ

unfoldable pub dhcp_ranges : List (Address × Address) → List (List Word)
dhcp_ranges [] = []
dhcp_ranges ((first, last) ∷ ranges) =
    (text "--dhcp-range=" ∷ (printed first ++ text "," ∷ (printed last ++ text ",1h" ∷ [])))
    ∷ dhcp_ranges ranges

abbrev word : String → List Word
word s = text s ∷ []

abbrev pub dnsmasq : List (Address × Address) → List (List Word)
dnsmasq ranges =
    word "/system/bin/dnsmasq"
    ∷ word "--keep-in-foreground"
    ∷ word "--no-resolv"
    ∷ word "--no-poll"
    ∷ word "--dhcp-authoritative"
    ∷ word "--dhcp-option-force=43,ANDROID_METERED"
    ∷ word "--pid-file"
    ∷ word ""
    ∷ dhcp_ranges ranges

-- The mark of lookups that dnsmasq forwards.
abbrev pub dns_fwmark : ℕ → Fwmark
dns_fwmark net_id =
    set_permission permission_system
      (set_protected_from_vpn true (set_explicitly_selected true (set_net_id net_id cleared)))

unfoldable pub stop_tethering : Tether × World → Tether × World
stop_tethering (t, w) =
    if t.daemon_pid == 0 then (t, w) else (with_daemon 0 none t, record_call (stop t.daemon_pid) w)

abbrev pub is_tethering_started : Tether → Bool
is_tethering_started t = not (t.daemon_pid == 0)

module _ (kernel : Kernel) where
  -- A write to the pipe of the daemon: whether it worked, and the call that was made.
  abbrev pub written : Option ℕ → List Word → World → Bool × World
  written none message w = (true, w)
  written (some fd) message w = (kernel.sends w.calls fd, record_call (send fd message) w)

  unfoldable pub apply_dns_interfaces : Tether → World → Bool × World
  apply_dns_interfaces t w =
      if is_empty (fitting 13 t.interfaces)
      then (true, w)
      else written t.daemon_fd (update_ifaces t.interfaces) w

  abbrev pub forked : List (Address × Address) → ℕ → Option ℕ → TetherMethod
  forked ranges fd none s = (err 0, s)
  forked ranges fd (some pid) (t, w) =
      let t' = with_daemon (suc pid) (some fd) t in
      (ok tt, (t', (apply_dns_interfaces t' (record_call (start (dnsmasq ranges)) w)).1))

  abbrev pub piped : List (Address × Address) → Option ℕ → TetherMethod
  piped ranges none s = (err 0, s)
  piped ranges (some fd) (t, w) = forked ranges fd (kernel.fork w.calls) (t, w)

  -- The addresses come in pairs, as the command's arguments are checked to do.
  unfoldable pub start_tethering : List (Address × Address) → TetherMethod
  start_tethering ranges (t, w) =
      if t.daemon_pid == 0 then piped ranges (kernel.pipe w.calls) (t, w) else (err ebusy, (t, w))

  -- The servers that are taken: `none` if one of them is no address.
  abbrev taken :
      String → List ℕ → Option (List Word × List Address) → Option (List Word × List Address)
  taken server address none = none
  taken server address (some (words, addresses)) =
      some (text ":" ∷ text server ∷ words, address ∷ addresses)

  abbrev if_address :
      Option (List ℕ)
      → (List ℕ → Option (List Word × List Address))
      → Option (List Word × List Address)
  if_address none rest = none
  if_address (some address) rest = rest address

  unfoldable pub take_servers : ℕ → List String → Option (List Word × List Address)
  take_servers used [] = some ([], [])
  take_servers used (server ∷ servers) =
      let rest = take_servers (used + len server + 1) servers in
      if_address (kernel.inet_aton server) λ address.
        if leb max_cmd_size (used + len server + 1 + 1)
        then some ([], [])
        else taken server address rest

  abbrev pub update_dns : ℕ → List Word
  update_dns net_id = text "update_dns:" ∷ hex (int_value (dns_fwmark net_id)) ∷ []

  abbrev pub with_servers : ℕ → Option (List Word × List Address) → TetherMethod
  with_servers net_id none (t, w) = (err 0, (with_forwarders [] t, w))
  with_servers net_id (some (words, addresses)) (t, w) =
      let t' : Tether = record t { dns_forwarders = addresses; dns_net_id = net_id } in
      let (worked, w') = written t.daemon_fd (update_dns net_id ++ words) w in
      if worked then (ok tt, (t', w')) else (err 0, (with_forwarders [] t', w'))

  unfoldable pub set_dns_forwarders : ℕ → List String → TetherMethod
  set_dns_forwarders net_id servers (t, w) =
      with_servers net_id (take_servers (joined_length (update_dns net_id)) servers) (t, w)

  -- A failure takes the first entry of the name back, and does not configure the router daemon anew.
  abbrev pub applied : String → Tether × World → Result (Unit {0}) × (Tether × World)
  applied interface (t, w) =
      let (worked, w') = apply_dns_interfaces t w in
      if worked
      then (ok tt, (t, w'))
      else (err 0, (with_interfaces (erase_first interface t.interfaces) t, w'))

  unfoldable pub tether_interface : String → TetherMethod
  tether_interface interface (t, w) =
      if is_iface_name interface
      then applied interface
          (configure_v6_rtr_adv kernel (with_interfaces (t.interfaces ++ interface ∷ []) t, w))
      else (err enoent, (t, w))

  abbrev told : Tether × World → Result (Unit {0}) × (Tether × World)
  told (t, w) =
      let (worked, w') = apply_dns_interfaces t w in (if worked then ok tt else err 0, (t, w'))

  unfoldable pub untether_interface : String → TetherMethod
  untether_interface interface (t, w) =
      if contains interface t.interfaces
      then told
          (configure_v6_rtr_adv kernel (with_interfaces (erase_first interface t.interfaces) t, w))
      else (err enoent, (t, w))
