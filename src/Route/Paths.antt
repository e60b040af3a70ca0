-- ===== src/Route/Paths.antt =====
-- server/RouteController.cpp: `modifyIpRoute`, `modifyRoute`, `addRoute` and `removeRoute`.
use platform_system_netd.Prelude.{
  ℕ, ◌+◌, Option, none, some, List, String, str_eq, ltb, ◌==◌, if◌then◌else◌,
}
use platform_system_netd.Kernel.{
  Kernel, Action, new, del, Family, Route, RouteType, unicast, unreachable, throw, universe, link,
  ip_route, World, Result, ok, err, Exec, Ret, pure, raise, lift, ◌>>=◌,
}
use platform_system_netd.Kernel.Errno.{enodev, einval, enobufs, eexist}
use platform_system_netd.Prefix.{raw_length, Parsed, parse_prefix}
use platform_system_netd.Route.Requests.{send_netlink_request}
use platform_system_netd.Route.Tables.{
  table_local_network, table_legacy_network, table_legacy_system, require_table,
}

pub data TableType : Type 0 where
  interface local_network legacy_network legacy_system : TableType

-- sizeof(in6_addr)
abbrev pub address_size : ℕ
address_size = 16

module _ (kernel : Kernel) (width : ℕ) where
  -- `if_nametoindex`, and ENODEV if there is no interface of the name.
  unfoldable pub require_index : Option String → Exec (Option ℕ)
  require_index none w = (ok none, w)
  require_index (some name) w =
      let index : ℕ = kernel.if_nametoindex w.calls w.lookups name in
      (if index == 0 then err enodev else ok (some index), record w { lookups = w.lookups + 1 })

  abbrev pub parsed_gateway : Option (List ℕ) → Result (Option (List ℕ))
  parsed_gateway none = err einval
  parsed_gateway (some bytes) = ok (some bytes)

  unfoldable pub parse_nexthop : Family → Option String → Result (Option (List ℕ))
  parse_nexthop family none = ok none
  parse_nexthop family (some nexthop) = parsed_gateway (kernel.inet_pton family nexthop)

  -- The type that a next hop stands for; a blocked route has no interface and no next hop.
  abbrev pub route_type : Option String → RouteType
  route_type none = unicast
  route_type (some nexthop) =
      if str_eq nexthop "unreachable"
      then unreachable
      else if str_eq nexthop "throw"
      then throw
      else unicast

  abbrev pub keep : {A : Type 0} → RouteType → Option A → Option A
  keep unicast o = o
  keep unreachable o = none
  keep throw o = none

  abbrev pub make_route : ℕ → RouteType → Parsed → Option ℕ → Option (List ℕ) → Route
  make_route table type (family, bytes, length) index gateway = record {
    table = table;
    type = type;
    scope = elim gateway [ none ↦ link | some g ↦ universe ];
    family = family;
    destination = bytes;
    prefix_length = length;
    ifindex = index;
    gateway = gateway;
  }

  abbrev pub send_parsed : Action → ℕ → Option String → Option String → Parsed → Ret
  send_parsed action table name nexthop (family, bytes, length) =
      if ltb address_size (raw_length family) then raise enobufs else do
        index ← require_index (keep (route_type nexthop) name)
        gateway ← lift (parse_nexthop family (keep (route_type nexthop) nexthop))
        send_netlink_request kernel (
            ip_route action
              (make_route table (route_type nexthop) (family, bytes, length) index gateway))

  unfoldable pub modify_ip_route : Action → ℕ → Option String → Option String → Option String → Ret
  modify_ip_route action table name destination nexthop = do
    parsed ← lift (parse_prefix kernel width destination address_size)
    send_parsed action table name nexthop parsed

  -- The table of a type.
  unfoldable pub require_table_of : String → TableType → Exec ℕ
  require_table_of name interface = require_table kernel name
  require_table_of name local_network = pure table_local_network
  require_table_of name legacy_network = pure table_legacy_network
  require_table_of name legacy_system = pure table_legacy_system

  -- A route that exists already is no error when it is added.
  abbrev pub allow_existing : Action → Result (Unit {0}) × World → Result (Unit {0}) × World
  allow_existing new (err e, w) = if e == eexist then (ok tt, w) else (err e, w)
  allow_existing action out = out

  unfoldable pub modify_route : Action → String → Option String → Option String → TableType → Ret
  modify_route action name destination nexthop type = do
    table ← require_table_of name type
    λ w. allow_existing action (modify_ip_route action table (some name) destination nexthop w)

  unfoldable pub add_route : String → Option String → Option String → TableType → Ret
  add_route = modify_route new

  unfoldable pub remove_route : String → Option String → Option String → TableType → Ret
  remove_route = modify_route del
