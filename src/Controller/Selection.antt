-- ===== src/Controller/Selection.antt =====
-- The networks that a user's traffic and name lookups are put on: `getNetworkForConnect`,
-- `getNetworkForUser` and `getNetworkForDns`.
use platform_system_netd.Prelude.{
  ℕ, ◌<◌, ◌≡◌, ◌⊎◌, inl, inr, refl, sym, subst, ◌^◌, true, false, Option, none, some, List, [], ◌∷◌,
  arith, if_cases, Bool-cases, ◌==◌, if◌then◌else◌,
}
use platform_system_netd.Containers.{number_key, lookup}
use platform_system_netd.Containers.Ascending.{IsAscending, Above, Above-IsAscending, lookup_below}
use platform_system_netd.Network.{Network, Virtual, local, physical, virtual, applies_to_user}
use platform_system_netd.Controller.State.{Controller}
use platform_system_netd.Fwmark.{Fwmark, IsFwmark, int_value, of_int}
use platform_system_netd.Fwmark.Fields.{of_int-int_value}
use platform_system_netd.Network.Identity.{Class, is_local, is_physical, is_virtual, class}
use platform_system_netd.Controller.Access.{MayUse, access_iff}
use platform_system_netd.Controller.Queries.{
  Access, granted, refused, undefined, check_user_network_access, dns_network, dns_answer,
  get_network_for_dns, get_network, first_vpn, get_virtual_network_for_user,
  get_network_for_connect,
}
use platform_system_netd.Controller.Invariant.{IsId, CanBeDefault, IsWellFormed}

-- A VPN of the map that applies to the user.
pub record Vpn (uid : ℕ) (networks : List (ℕ × Network)) (n : Virtual) : Type 0 where
  pub id : ℕ
  pub found : lookup id networks ≡ some (virtual n)
  pub applies : applies_to_user uid n ≡ true

abbrev IfVpn : ℕ → List (ℕ × Network) → Option Virtual → Type 0
IfVpn uid networks none = Unit
IfVpn uid networks (some n) = Vpn uid networks n

-- What is found behind the head of a map is found in the map.
behind :
    (uid id : ℕ) (k : Network) (networks : List (ℕ × Network)) (o : Option Virtual)
    → Above id networks
    → IfVpn uid networks o
    → IfVpn uid ((id, k) ∷ networks) o
unfolding lookup
behind uid id k networks none h v = tt
behind uid id k networks (some n) h v = record {
  id = v.id;
  found = elim (Bool-cases (id == v.id)) [
    | inl here ↦ ground (arith, here, v.found, lookup_below v.id id networks (ground arith) h)
    | inr there ↦ rw there v.found
  ];
  applies = v.applies;
}

first_vpn-IfVpn :
    (uid : ℕ) (networks : List (ℕ × Network))
    → IsAscending networks
    → IfVpn uid networks (first_vpn uid networks)
unfolding first_vpn lookup
first_vpn-IfVpn uid [] h = tt
first_vpn-IfVpn uid ((id, local n) ∷ networks) h =
    behind uid id (local n) networks _ h
      (first_vpn-IfVpn uid networks (Above-IsAscending id networks h))
first_vpn-IfVpn uid ((id, physical n) ∷ networks) h =
    behind uid id (physical n) networks _ h
      (first_vpn-IfVpn uid networks (Above-IsAscending id networks h))
first_vpn-IfVpn uid ((id, virtual n) ∷ networks) h =
    if_cases (IfVpn uid ((id, virtual n) ∷ networks)) (applies_to_user uid n)
      (λ applies. record { id = id; found = ground arith; applies = applies })
      (λ _.
        behind uid id (virtual n) networks _ h
          (first_vpn-IfVpn uid networks (Above-IsAscending id networks h)))

-- A network of the map that is a VPN which applies to the user.
abbrev pub IsVpnOf : Controller → ℕ → ℕ → Virtual → Type 0
IsVpnOf c uid id n = (get_network c id ≡ some (virtual n)) × (applies_to_user uid n ≡ true)

module _ (c : Controller) (uid : ℕ) where
  abbrev Connected : ℕ → Type 0
  Connected id = (id ≡ c.default_net_id) ⊎ ((n : Virtual) × IsVpnOf c uid id n × (n.secure ≡ false))

  -- Where a name is looked up if the user may not use the network that was asked for.
  abbrev pub FallsBack : ℕ → Type 0
  FallsBack id =
      ((id ≡ c.default_net_id)
        × ((n : Virtual) → get_virtual_network_for_user c uid ≡ some n → n.has_dns ≡ false))
      ⊎ ((n : Virtual) × IsVpnOf c uid id n × (n.has_dns ≡ true))

  -- The mark of a lookup for which `net_id` was asked: of the network, protected from VPNs, with the permission of the system.
  pub record DnsMark (net_id net : ℕ) (m : Fwmark) : Type 0 where
    pub same_network : m.net_id ≡ net
    pub is_protected : m.protected_from_vpn ≡ true
    pub permission : m.permission ≡ 3
    pub reason :
        (MayUse c uid net_id × (net ≡ net_id) × (m.explicitly_selected ≡ true))
        ⊎ ((¬ MayUse c uid net_id) × FallsBack net × (m.explicitly_selected ≡ false))

module _ (c : Controller) (v : IsWellFormed c) (uid : ℕ) where
  vpn_of : (n : Virtual) → Vpn uid c.networks n → IsVpnOf c uid n.net_id n
  vpn_of n p = (
    subst (λ i. get_network c i ≡ some (virtual n)) (sym (v.ids p.id (virtual n) p.found).1)
        p.found,
    p.applies,
  )

  applying : IfVpn uid c.networks (get_virtual_network_for_user c uid)
  applying = first_vpn-IfVpn uid c.networks v.ascending

  connected :
      (o : Option Virtual)
      → IfVpn uid c.networks o
      → Connected c uid (elim o as (λ _. ℕ) [
        | none ↦ c.default_net_id
        | some n ↦ if n.secure then c.default_net_id else n.net_id
      ])
  connected none p = inl refl
  connected (some n) p =
      if_cases (Connected c uid) n.secure (λ _. inl refl)
        (λ bypassable. inr (n, vpn_of n p, bypassable))

  -- In a well-formed controller, a socket that is connected is put on the default network, or on a
  -- VPN of the map that applies to the user and can be bypassed: never on a secure VPN.
  pub connect_avoids_secure_vpns :
      (get_network_for_connect c uid ≡ c.default_net_id)
      ⊎ ((n : Virtual) × IsVpnOf c uid (get_network_for_connect c uid) n × (n.secure ≡ false))
  unfolding get_network_for_connect
  connect_avoids_secure_vpns = connected (get_virtual_network_for_user c uid) applying

  falls_back :
      (o : Option Virtual)
      → get_virtual_network_for_user c uid ≡ o
      → IfVpn uid c.networks o
      → FallsBack c uid (dns_network c o)
  falls_back none e p = inl (refl, λ m h. cc)
  falls_back (some n) e p =
      if_cases (FallsBack c uid) n.has_dns (λ dns. inr (n, vpn_of n p, dns))
        (λ off. inl (refl, λ m h. cc))

  id_fits : (k : Class) (id : ℕ) → IsId k id → id < 2 ^ 16
  id_fits is_local id h = omega arith
  id_fits is_physical id h = omega arith
  id_fits is_virtual id h = omega arith

  network_fits : (id : ℕ) (n : Network) → get_network c id ≡ some n → id < 2 ^ 16
  network_fits id n e = id_fits (class n) id (v.ids id n e).0

  default_fits : (id : ℕ) → CanBeDefault c id → id < 2 ^ 16
  default_fits id (inl z) = omega arith
  default_fits id (inr (n, e)) = network_fits id (physical n) e

  fallback_fits : (id : ℕ) → FallsBack c uid id → id < 2 ^ 16
  fallback_fits id (inl (e, off)) =
      subst (λ (i : ℕ). i < 2 ^ 16) (sym e) (default_fits c.default_net_id v.default_is_physical)
  fallback_fits id (inr (n, (e, a), d)) = network_fits id (virtual n) e

  abbrev IfAnswer : ℕ → Option (ℕ × ℕ) → Type 0
  IfAnswer net_id none = Unit
  IfAnswer net_id (some (net, m)) = DnsMark c uid net_id net (of_int m)

  marked :
      (net_id net : ℕ) (f : Fwmark)
      → IsFwmark f
      → DnsMark c uid net_id net f
      → IfAnswer net_id (some (net, int_value f))
  marked net_id net f valid h = subst (DnsMark c uid net_id net) (sym (of_int-int_value f valid)) h

  answered :
      (net_id : ℕ) (a : Access)
      → check_user_network_access c uid net_id ≡ a
      → IfAnswer net_id (dns_answer c uid net_id a)
  answered net_id granted e =
      let may : MayUse c uid net_id = (access_iff c uid net_id).0 e in
      let fits : net_id < 2 ^ 16 = network_fits net_id may.network may.exists in
      marked net_id net_id _
        (record { net_id = omega arith; permission = omega arith; padding = omega arith })
        (record {
          same_network = omega arith;
          is_protected = refl;
          permission = refl;
          reason = inl (may, refl, refl);
        })
  answered net_id (refused x) e =
      let chosen : ℕ = dns_network c (get_virtual_network_for_user c uid) in
      let back : FallsBack c uid chosen =
        falls_back (get_virtual_network_for_user c uid) refl applying in
      let fits : chosen < 2 ^ 16 = fallback_fits chosen back in
      marked net_id chosen _
        (record { net_id = omega arith; permission = omega arith; padding = omega arith })
        (record {
          same_network = omega arith;
          is_protected = refl;
          permission = refl;
          reason = inr ((λ may. ground (arith, e, (access_iff c uid net_id).1 may)), back, refl);
        })
  answered net_id undefined e = tt

  -- In a well-formed controller, where a name lookup is given a network and a mark, the mark is
  -- read as that network, protected from VPNs, with the permission of the system. If the user may
  -- use the network that was asked for, it is that one, chosen explicitly; if not, it is not
  -- explicit, and it is the VPN that applies to the user if that has DNS servers, and else the
  -- default network.
  pub get_network_for_dns-DnsMark :
      (net_id net m : ℕ)
      → get_network_for_dns c net_id uid ≡ some (net, m)
      → DnsMark c uid net_id net (of_int m)
  unfolding get_network_for_dns
  get_network_for_dns-DnsMark net_id net m e = subst (IfAnswer net_id) e (answered net_id _ refl)
