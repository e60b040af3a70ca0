-- ===== src/Route/Asked.antt =====
-- What a change of a route asks of the kernel.
use platform_system_netd.Prelude.{
  ℕ, ◌≡◌, ◌≢◌, refl, sym, subst, Bool, true, false, Option, none, some, List, [], ◌∷◌, ◌++◌, String,
  arith, Bool-cases, if_cases, ==_iff, inl, inr, ltb, ◌==◌, if◌then◌else◌,
}
use platform_system_netd.Kernel.{
  Kernel, Action, new, del, Route, Call, Family, ip_route, World, Result, ok, err, Exec, Ret, pure,
  raise, lift, continue, ◌>>=◌,
}
use platform_system_netd.Kernel.Errno.{enodev, enobufs, eexist}
use platform_system_netd.Kernel.Issues.{IsOk}
use platform_system_netd.Prefix.{raw_length, Parsed, IsParsed, prefix-IsParsed}
use platform_system_netd.Route.Requests.{send_netlink_request, table_unspec}
use platform_system_netd.Route.Lookups.{table_of, calls-looked_up}
use platform_system_netd.Route.Tables.{
  table_local_network, table_legacy_network, table_legacy_system, require_table, found_or_esrch,
  get_route_table_for_interface,
}
use platform_system_netd.Route.Paths.{
  TableType, interface, local_network, legacy_network, legacy_system, address_size, require_index,
  parse_nexthop, parsed_gateway, route_type, keep, send_parsed, modify_ip_route, require_table_of,
  allow_existing, modify_route,
}

-- One request, in the table.
pub record OneRoute (action : Action) (table : ℕ) (before after : List Call) : Type 0 where
  pub route : Route
  pub recorded : after ≡ before ++ ip_route action route ∷ []
  pub in_table : route.table ≡ table

-- A result that is no error, or the one for a route that exists.
abbrev Counts : Result (Unit {0}) → Type 0
Counts (ok a) = Unit
Counts (err e) = e ≡ eexist

record Asks (action : Action) (table : ℕ) (m : Ret) : Type 0 where
  at : (w : World) → Counts (m w).0 → OneRoute action table w.calls (m w).1.calls

-- An action that asks nothing, and fails with another error, if at all.
abbrev Fails : {A : Type 0} → Result A → Type 0
Fails (ok a) = Unit
Fails (err e) = e ≢ eexist

record Silent {A : Type 0} (m : Exec A) : Type 0 where
  calls : (w : World) → (m w).1.calls ≡ w.calls
  fails : (w : World) → Fails (m w).0

module _ (action : Action) (table : ℕ) where
  continue-OneRoute :
      {A : Type 0} (calls : List Call) (out : Result A × World) (f : A → Ret)
      → out.1.calls ≡ calls
      → Fails out.0
      → ((a : A) → Asks action table (f a))
      → Counts (continue f out).0
      → OneRoute action table calls (continue f out).1.calls
  continue-OneRoute calls (ok a, w) f same fails h k =
      subst (λ c. OneRoute action table c (f a w).1.calls) same ((h a).at w k)
  continue-OneRoute calls (err e, w) f same fails h k = absurd (fails k)

  bind-Asks :
      {A : Type 0} (m : Exec A) (f : A → Ret)
      → Silent m
      → ((a : A) → Asks action table (f a))
      → Asks action table (m >>= f)
  unfolding ◌>>=◌
  bind-Asks m f s h = record {
    at = λ w k. continue-OneRoute w.calls (m w) f (s.calls w) (s.fails w) h k;
  }

lift-Silent : {A : Type 0} (r : Result A) → Fails r → Silent (lift r)
unfolding lift
lift-Silent r h = record { calls = λ w. refl; fails = λ w. h }

module _ (kernel : Kernel) (width : ℕ) where
  require_index-Silent : (name : Option String) → Silent (require_index kernel width name)
  unfolding require_index
  require_index-Silent none = record { calls = λ w. refl; fails = λ w. tt }
  require_index-Silent (some name) = record { calls = λ w. refl; fails = λ w. index-Fails _ _ }
    where
      index-Fails :
          (index : ℕ) (missing : Bool) → Fails (if missing then err enodev else ok (some index))
      index-Fails index true = omega arith
      index-Fails index false = tt

  gateway-Fails : (o : Option (List ℕ)) → Fails (parsed_gateway kernel width o)
  gateway-Fails none = omega arith
  gateway-Fails (some bytes) = tt

  nexthop-Fails :
      (family : Family) (nexthop : Option String)
      → Fails (parse_nexthop kernel width family nexthop)
  unfolding parse_nexthop
  nexthop-Fails family none = tt
  nexthop-Fails family (some nexthop) = gateway-Fails (kernel.inet_pton family nexthop)

  prefix-Fails : (r : Result Parsed) → IsParsed address_size r → Fails r
  prefix-Fails (ok parsed) h = tt
  prefix-Fails (err e) h = h

  module _ (action : Action) (table : ℕ) (name destination nexthop : Option String) where
    send-Asks :
        (route : Route)
        → route.table ≡ table
        → Asks action table (send_netlink_request kernel (ip_route action route))
    unfolding send_netlink_request
    send-Asks route in_table = record {
      at = λ w _. record { route = route; recorded = refl; in_table = in_table };
    }

    enobufs-Asks : Asks action table (raise enobufs)
    unfolding raise
    enobufs-Asks = record { at = λ w k. absurd (omega (arith, k)) }

    send_parsed-Asks :
        (parsed : Parsed)
        → Asks action table (send_parsed kernel width action table name nexthop parsed)
    send_parsed-Asks (family, bytes, length) =
        if_cases (Asks action table) (ltb address_size (raw_length family)) (λ _. enobufs-Asks)
          λ _.
            bind-Asks action table _ _
              (require_index-Silent (keep kernel width (route_type kernel width nexthop) name))
              λ index.
                bind-Asks action table _ _ (lift-Silent _ (nexthop-Fails family _))
                  λ gateway. send-Asks _ refl

    modify_ip_route-Asks :
        Asks action table (modify_ip_route kernel width action table name destination nexthop)
    unfolding modify_ip_route
    modify_ip_route-Asks =
        bind-Asks action table _ _
          (lift-Silent _ (prefix-Fails _ (prefix-IsParsed kernel width address_size destination)))
          send_parsed-Asks

  -- The table of a type, where the lookup of an interface's may find one.
  abbrev pub table_of_type : String → TableType → World → ℕ
  table_of_type name interface w = table_of kernel name w
  table_of_type name local_network w = table_local_network
  table_of_type name legacy_network w = table_legacy_network
  table_of_type name legacy_system w = table_legacy_system

  allowed-Counts :
      (action : Action) (out : Result (Unit {0}) × World)
      → IsOk (allow_existing kernel width action out).0
      → Counts out.0
  allowed-Counts new (ok a, w) h = tt
  allowed-Counts new (err e, w) h = elim (Bool-cases (e == eexist)) [
    | inl exists ↦ (==_iff e eexist).0 exists
    | inr other ↦ absurd (rw other at h)
  ]
  allowed-Counts del (ok a, w) h = tt
  allowed-Counts del (err e, w) h = absurd h

  allowed_world :
      (action : Action) (out : Result (Unit {0}) × World)
      → (allow_existing kernel width action out).1 ≡ out.1
  allowed_world new (ok a, w) = refl
  allowed_world new (err e, w) = ground arith
  allowed_world del (ok a, w) = refl
  allowed_world del (err e, w) = refl

  module _ (action : Action) (destination nexthop : Option String) (name : String) where
    abbrev send_to : ℕ → Ret
    send_to table w =
        allow_existing kernel width action
          (modify_ip_route kernel width action table (some name) destination nexthop w)

    send_to-OneRoute :
        (table : ℕ) (w : World)
        → IsOk (send_to table w).0
        → OneRoute action table w.calls (send_to table w).1.calls
    send_to-OneRoute table w h =
        let out = modify_ip_route kernel width action table (some name) destination nexthop w in
        subst (λ (v : World). OneRoute action table w.calls v.calls)
          (sym (allowed_world action out))
          ((modify_ip_route-Asks action table (some name) destination nexthop).at w
            (allowed-Counts action out h))

    found-OneRoute :
        (calls : List Call) (found : ℕ × World)
        → found.1.calls ≡ calls
        → IsOk (continue send_to (found_or_esrch found)).0
        → OneRoute action found.0 calls (continue send_to (found_or_esrch found)).1.calls
    found-OneRoute calls (table, w) same h = elim (Bool-cases (table == table_unspec)) [
      | inl missing ↦ absurd (rw missing at h)
      | inr there ↦ rw there (
          subst (λ c. OneRoute action table c (send_to table w).1.calls) same
            (send_to-OneRoute table w (rw there at h)))
    ]

    pub modify_route-OneRoute :
        (type : TableType) (w : World)
        → IsOk (modify_route kernel width action name destination nexthop type w).0
        → OneRoute action
            (table_of_type name type w)
            w.calls
            (modify_route kernel width action name destination nexthop type w).1.calls
    unfolding modify_route ◌>>=◌ require_table_of require_table pure
    modify_route-OneRoute interface w h =
        found-OneRoute w.calls (get_route_table_for_interface kernel name w)
          (calls-looked_up kernel name w) h
    modify_route-OneRoute local_network w h = send_to-OneRoute table_local_network w h
    modify_route-OneRoute legacy_network w h = send_to-OneRoute table_legacy_network w h
    modify_route-OneRoute legacy_system w h = send_to-OneRoute table_legacy_system w h
