-- ===== src/Route/Requests.antt =====
-- server/RouteController.cpp: `sendNetlinkRequest`, `padInterfaceName`, `modifyIpRule`.
-- The flags of a request follow from its action; the length field of its header is not modelled.
use Prim.Native.String.{len}
use platform_system_netd.Prelude.{
  ℕ, ◌+◌, ◌-◌, ◌/◌, ◌*◌, ◌^◌, Bool, true, false, not, Option, none, some, String, bit_and, ltb,
  ◌==◌, if◌then◌else◌,
}
use platform_system_netd.Kernel.{
  Action, inet, inet6, Padded, Rule, Call, ip_rule, Reply, failed, received, Kernel, Result, ok,
  err, Ret, result, raise, lift, ◌>>=◌, ◌>>◌, record_call,
}
use platform_system_netd.Kernel.Errno.{ebadmsg, enametoolong, erange, eusers}

abbrev pub invalid_uid : ℕ
invalid_uid = 2 ^ 32 - 1

-- RT_TABLE_UNSPEC
abbrev pub table_unspec : ℕ
table_unspec = 0

-- IFNAMSIZ
abbrev pub ifnamsiz : ℕ
ifnamsiz = 16

-- sizeof(response)
abbrev pub response_size : ℕ
response_size = 36

unfoldable pub reply_result : Reply → Result (Unit {0})
reply_result (failed e) = result e
reply_result (received size error) = if size == response_size then result error else err ebadmsg

-- RTA_LENGTH and RTA_SPACE: a four-byte header, and the sum rounded up to a multiple of four.
abbrev pub rta_length : ℕ → ℕ
rta_length n = 4 + n

abbrev pub rta_space : ℕ → ℕ
rta_space n = (rta_length n + 3) / 4 * 4

abbrev pub no_name : Padded
no_name = record { name = none; length = 0; padding = 0 }

abbrev pub padded : Option String → Padded
padded none = no_name
padded (some s) = record {
  name = some s;
  length = len s + 1;
  padding = rta_space (len s + 1) - rta_length (len s + 1);
}

unfoldable pub pad_interface_name : Option String → Result Padded
pad_interface_name none = ok no_name
pad_interface_name (some s) =
    if ltb ifnamsiz (len s + 1) then err enametoolong else ok (padded (some s))

-- `fwmark & ~mask` on 32 bits: a bit is set that the mask ignores.
unfoldable pub outside_mask : ℕ → ℕ → Bool
outside_mask fwmark mask = not (bit_and fwmark (2 ^ 32 - 1 - mask) == 0)

-- The message that `modifyIpRule` assembles.
unfoldable pub make_rule : ℕ → ℕ → ℕ → ℕ → Padded → Padded → ℕ → ℕ → Rule
make_rule priority table fwmark mask iif oif uid_start uid_end = record {
  priority = priority;
  table = if table == table_unspec then none else some table;
  selector = if mask == 0 then none else some (fwmark, mask);
  uids = if uid_start == invalid_uid then none else some (uid_start, uid_end);
  iif = iif;
  oif = oif;
}

abbrev pub agree : Bool → Bool → Bool
agree true b = b
agree false b = not b

module _ (kernel : Kernel) where
  unfoldable pub send_netlink_request : Call → Ret
  unfolding reply_result
  send_netlink_request c w = (reply_result (kernel.netlink w.calls c), record_call c w)

  -- For IPv4, then for IPv6.
  unfoldable pub send_rule : Action → Rule → Ret
  send_rule action rule = do
    send_netlink_request (ip_rule action inet rule)
    send_netlink_request (ip_rule action inet6 rule)

  unfoldable pub modify_ip_rule :
      Action → ℕ → ℕ → ℕ → ℕ → Option String → Option String → ℕ → ℕ → Ret
  modify_ip_rule action priority table fwmark mask iif oif uid_start uid_end =
      if outside_mask fwmark mask then raise erange else do
        iif_name ← lift (pad_interface_name iif)
        oif_name ← lift (pad_interface_name oif)
        if agree (uid_start == invalid_uid) (uid_end == invalid_uid)
            then send_rule action
                (make_rule priority table fwmark mask iif_name oif_name uid_start uid_end)
            else raise eusers

  -- The shorter overload: any interface, any user.
  unfoldable pub modify_ip_rule_for_all : Action → ℕ → ℕ → ℕ → ℕ → Ret
  modify_ip_rule_for_all action priority table fwmark mask =
      modify_ip_rule action priority table fwmark mask none none invalid_uid invalid_uid
