-- ===== src/CommandListener/Meaning.antt =====
-- What the words of a network command mean: the request or the route that they ask for.
use platform_system_netd.Prelude.{
  ℕ, ◌+◌, ◌≡◌, ◌≤◌, ◌<◌, ◌⊎◌, refl, Bool, true, false, Option, none, some, List, [], ◌∷◌, String,
  arith, leb, ◌&&◌, if_cases, str_eq_iff, ◌==◌,
}
use platform_system_netd.Fwmark.{permission_none}
use platform_system_netd.UidRanges.{Range}
use platform_system_netd.UidRanges.Parse.{parse_from}
use platform_system_netd.Controller.Requests.{
  Request, choose_default, create_physical, create_virtual, destroy, attach, detach,
  permit_networks, permit_users, bind_users, unbind_users, allow, deny,
}
use platform_system_netd.CommandListener.Arguments.{
  ◌is◌, string_to_permission, string_to_net_id, named_net_id, after_oem, unsigned_of, num_oem_ids,
  atoi_is_set, read_ids, read_users,
}

-- The two permissions that have a name.
pub data Permits (arg : String) : ℕ → Type 0 where
  of_network : arg ≡ "NETWORK" → Permits arg 1
  of_system : arg ≡ "SYSTEM" → Permits arg 3

module _ (width : ℕ) where
  -- The network that a word names: the local one, one of the 50 of the makers of devices, or a
  -- number; a maker's number out of range is no network's.
  pub data Names (arg : String) : ℕ → Type 0 where
    the_local : arg ≡ "local" → Names arg 99
    of_maker :
        (rest : String)
        → (arg is "local") ≡ false
        → after_oem arg ≡ some rest
        → 1 ≤ unsigned_of width rest
        → unsigned_of width rest ≤ 50
        → Names arg (1 + unsigned_of width rest)
    of_no_maker :
        (rest : String)
        → (arg is "local") ≡ false
        → after_oem arg ≡ some rest
        → (unsigned_of width rest ≡ 0) ⊎ (50 < unsigned_of width rest)
        → Names arg 0
    by_number : (arg is "local") ≡ false → after_oem arg ≡ none → Names arg (unsigned_of width arg)

  -- The request that the words after `network` ask for.
  pub data Means : List String → Request → Type 0 where
    to_attach :
        (name word net_id interface : String) (id : ℕ)
        → name ≡ "interface"
        → word ≡ "add"
        → Names net_id id
        → Means (name ∷ word ∷ net_id ∷ interface ∷ []) (attach id interface)
    to_detach :
        (name word net_id interface : String) (id : ℕ)
        → name ≡ "interface"
        → word ≡ "remove"
        → Names net_id id
        → Means (name ∷ word ∷ net_id ∷ interface ∷ []) (detach id interface)
    to_create :
        (name net_id : String) (id : ℕ)
        → name ≡ "create"
        → Names net_id id
        → Means (name ∷ net_id ∷ []) (create_physical id 0)
    to_create_with :
        (name net_id permission : String) (id p : ℕ)
        → name ≡ "create"
        → Names net_id id
        → Permits permission p
        → Means (name ∷ net_id ∷ permission ∷ []) (create_physical id p)
    to_create_vpn :
        (name net_id vpn has_dns secure : String) (id : ℕ)
        → name ≡ "create"
        → vpn ≡ "vpn"
        → Names net_id id
        → Means
            (name ∷ net_id ∷ vpn ∷ has_dns ∷ secure ∷ [])
            (create_virtual id (atoi_is_set width has_dns) (atoi_is_set width secure))
    to_destroy :
        (name net_id : String) (id : ℕ)
        → name ≡ "destroy"
        → Names net_id id
        → Means (name ∷ net_id ∷ []) (destroy id)
    to_set_default :
        (name word net_id : String) (args : List String) (id : ℕ)
        → name ≡ "default"
        → word ≡ "set"
        → Names net_id id
        → Means (name ∷ word ∷ net_id ∷ args) (choose_default id)
    to_clear_default :
        (name word : String) (args : List String)
        → name ≡ "default"
        → word ≡ "clear"
        → Means (name ∷ word ∷ args) (choose_default 0)
    to_permit_users :
        (name whom word permission arg : String) (args : List String) (p : ℕ) (ids : List ℕ)
        → name ≡ "permission"
        → whom ≡ "user"
        → word ≡ "set"
        → Permits permission p
        → read_ids width (arg ∷ args) ≡ some ids
        → Means (name ∷ whom ∷ word ∷ permission ∷ arg ∷ args) (permit_users p ids)
    to_permit_networks :
        (name whom word permission arg : String) (args : List String) (p : ℕ) (ids : List ℕ)
        → name ≡ "permission"
        → whom ≡ "network"
        → word ≡ "set"
        → Permits permission p
        → read_ids width (arg ∷ args) ≡ some ids
        → Means (name ∷ whom ∷ word ∷ permission ∷ arg ∷ args) (permit_networks p ids)
    to_clear_users :
        (name whom word arg : String) (args : List String) (ids : List ℕ)
        → name ≡ "permission"
        → whom ≡ "user"
        → word ≡ "clear"
        → read_ids width (arg ∷ args) ≡ some ids
        → Means (name ∷ whom ∷ word ∷ arg ∷ args) (permit_users 0 ids)
    to_clear_networks :
        (name whom word arg : String) (args : List String) (ids : List ℕ)
        → name ≡ "permission"
        → whom ≡ "network"
        → word ≡ "clear"
        → read_ids width (arg ∷ args) ≡ some ids
        → Means (name ∷ whom ∷ word ∷ arg ∷ args) (permit_networks 0 ids)
    to_bind :
        (name word net_id : String) (args : List String) (id : ℕ) (ranges : List Range)
        → name ≡ "users"
        → word ≡ "add"
        → Names net_id id
        → parse_from width args ≡ (true, ranges)
        → Means (name ∷ word ∷ net_id ∷ args) (bind_users id ranges)
    to_unbind :
        (name word net_id : String) (args : List String) (id : ℕ) (ranges : List Range)
        → name ≡ "users"
        → word ≡ "remove"
        → Names net_id id
        → parse_from width args ≡ (true, ranges)
        → Means (name ∷ word ∷ net_id ∷ args) (unbind_users id ranges)
    to_allow :
        (name word arg : String) (args : List String)
        → name ≡ "protect"
        → word ≡ "allow"
        → Means (name ∷ word ∷ arg ∷ args) (allow (read_users width (arg ∷ args)))
    to_deny :
        (name word arg : String) (args : List String)
        → name ≡ "protect"
        → word ≡ "deny"
        → Means (name ∷ word ∷ arg ∷ args) (deny (read_users width (arg ∷ args)))

  -- Whether a route is added or removed.
  pub data Acts (word : String) : Bool → Type 0 where
    to_add : word ≡ "add" → Acts word true
    to_remove : word ≡ "remove" → Acts word false

  -- The action, the network, the interface, the destination, and perhaps the next hop.
  pub data IsRoute : List String → Bool → ℕ → String → String → Option String → Type 0 where
    direct :
        (word net_id interface destination : String) (add : Bool) (id : ℕ)
        → Acts word add
        → Names net_id id
        → IsRoute (word ∷ net_id ∷ interface ∷ destination ∷ []) add id interface destination none
    over :
        (word net_id interface destination nexthop : String) (add : Bool) (id : ℕ)
        → Acts word add
        → Names net_id id
        → IsRoute
            (word ∷ net_id ∷ interface ∷ destination ∷ nexthop ∷ [])
            add
            id
            interface
            destination
            (some nexthop)

  -- The same, perhaps behind a user.
  pub data MeansRoute
      : List String → Bool → Bool → ℕ → ℕ → String → String → Option String → Type 0 where
    of_no_user :
        (name : String) (args : List String) (add : Bool) (id : ℕ) (interface destination : String)
        (nexthop : Option String)
        → name ≡ "route"
        → IsRoute args add id interface destination nexthop
        → MeansRoute (name ∷ args) add false 0 id interface destination nexthop
    of_user :
        (name word uid : String) (args : List String) (add : Bool) (id : ℕ)
        (interface destination : String) (nexthop : Option String)
        → name ≡ "route"
        → word ≡ "legacy"
        → IsRoute args add id interface destination nexthop
        → MeansRoute
            (name ∷ word ∷ uid ∷ args)
            add
            true
            (unsigned_of width uid)
            id
            interface
            destination
            nexthop

  -- A word that is the same is equal.
  pub named : (arg word : String) → (arg is word) ≡ true → arg ≡ word
  named arg word h = (str_eq_iff arg word).0 h

  named_rest :
      (arg : String) (o : Option String)
      → (arg is "local") ≡ false
      → after_oem arg ≡ o
      → Names arg (named_net_id width arg o)
  named_rest arg none other e = by_number other e
  named_rest arg (some rest) other e =
      let n : ℕ = unsigned_of width rest in
      if_cases (Names arg) (leb 1 n && leb n num_oem_ids)
        (λ good. of_maker rest other e (ground arith) (ground arith))
        (λ bad. of_no_maker rest other e (ground arith))

  pub string_to_net_id-Names : (arg : String) → Names arg (string_to_net_id width arg)
  unfolding string_to_net_id
  string_to_net_id-Names arg =
      if_cases (Names arg) (arg is "local") (λ here. the_local (named arg "local" here))
        (λ other. named_rest arg _ other refl)

  pub net_id_of : (arg : String) (id : ℕ) → Names arg id → id ≡ string_to_net_id width arg
  unfolding string_to_net_id
  net_id_of arg id (the_local e) = rw e refl
  net_id_of arg id (of_maker rest other e low high) = rw (other, e) (ground (arith, low, high))
  net_id_of arg id (of_no_maker rest other e out) = rw (other, e) (ground (arith, out))
  net_id_of arg id (by_number other e) = rw (other, e) refl

  -- A permission that is not none has a name.
  pub string_to_permission-Permits :
      (arg : String)
      → (string_to_permission arg == permission_none) ≡ false
      → Permits arg (string_to_permission arg)
  unfolding string_to_permission
  string_to_permission-Permits arg =
      if_cases Holds (arg is "NETWORK") (λ h _. of_network (named arg "NETWORK" h))
        λ _.
          if_cases Holds (arg is "SYSTEM") (λ h _. of_system (named arg "SYSTEM" h))
            (λ _ bad. absurd (ground (arith, bad)))
    where
      Holds : ℕ → Type 0
      Holds p = (p == permission_none) ≡ false → Permits arg p
