-- ===== src/Controller/Access.antt =====
-- Which users may use a network explicitly: the check of server/NetworkController.cpp against the
-- rule it stands for.
use platform_system_netd.Prelude.{
  ℕ, ◌≡◌, ◌↔◌, ◌⊎◌, inl, inr, refl, subst, true, false, not, ◌&&◌, some, arith, Bool-cases,
  Option-cases, ◌==◌,
}
use platform_system_netd.Containers.{number_key, contains}
use platform_system_netd.Fwmark.{permission_system, grants}
use platform_system_netd.Network.{Network, Local, local, physical, virtual, applies_to_user}
use platform_system_netd.Network.Identity.{class}
use platform_system_netd.Route.Requests.{invalid_uid}
use platform_system_netd.Controller.State.{Controller, local_net_id}
use platform_system_netd.Controller.Queries.{
  granted, undefined, get_network, get_permission_for_user, get_virtual_network_for_user,
  is_secure_vpn, check_user, check_network, check_user_network_access,
}
use platform_system_netd.Controller.Invariant.{IsId, IsWellFormed}

-- The user holds the permission of the system.
abbrev pub IsSystem : Controller → ℕ → Type 0
IsSystem c uid = grants (get_permission_for_user c uid) permission_system ≡ true

-- A VPN that is secure applies to the user, who may not leave it.
abbrev pub IsConfined : Controller → ℕ → Type 0
IsConfined c uid =
    (is_secure_vpn (get_virtual_network_for_user c uid) ≡ true)
    × (contains uid c.protectable_users ≡ false)

-- What lets a user into a network of each class.
abbrev pub Admits : Controller → ℕ → Network → Type 0
Admits c uid (local n) = ⊥
Admits c uid (physical n) =
    (grants (get_permission_for_user c uid) n.permission ≡ true) × (IsConfined c uid → ⊥)
Admits c uid (virtual n) = applies_to_user uid n ≡ true

pub record MayUse (c : Controller) (uid net_id : ℕ) : Type 0 where
  pub network : Network
  pub exists : get_network c net_id ≡ some network
  pub is_user : (uid == invalid_uid) ≡ false
  pub admitted : IsSystem c uid ⊎ Admits c uid network

-- The check of an object, step by step.
module _ (c : Controller) (uid : ℕ) where
  check_user_sound : (n : Network) → check_user c uid n ≡ granted → Admits c uid n
  check_user_sound (local n) h = ground arith
  check_user_sound (physical n) h = (ground arith, λ confined. ground arith)
  check_user_sound (virtual n) h = ground arith

  check_user_complete : (n : Network) → Admits c uid n → check_user c uid n ≡ granted
  check_user_complete (local n) h = elim h [ ]
  check_user_complete (physical n) (held, free) =
      elim (Bool-cases (
        is_secure_vpn (get_virtual_network_for_user c uid)
        && not (contains uid c.protectable_users))) [
          | inl confined ↦ elim (free (ground arith)) [ ]
          | inr other ↦ rw (other, held)
        ]
  check_user_complete (virtual n) h = rw h

  check_network_sound :
      (n : Network)
      → check_network c uid (some n) ≡ granted
      → ((uid == invalid_uid) ≡ false) × (IsSystem c uid ⊎ Admits c uid n)
  check_network_sound n h = elim (Bool-cases (uid == invalid_uid)) [
    | inl invalid ↦ ground arith
    | inr valid ↦ (
      valid,
      elim (Bool-cases (grants (get_permission_for_user c uid) permission_system)) [
        | inl system ↦ inl system
        | inr other ↦ inr (check_user_sound n (rw (valid, other) at h))
      ],
    )
  ]

  check_network_complete :
      (n : Network)
      → (uid == invalid_uid) ≡ false
      → IsSystem c uid ⊎ Admits c uid n
      → check_network c uid (some n) ≡ granted
  check_network_complete n valid (inl system) = rw (valid, system)
  check_network_complete n valid (inr admitted) =
      elim (Bool-cases (grants (get_permission_for_user c uid) permission_system)) [
        | inl system ↦ rw (valid, system)
        | inr other ↦ rw (valid, other) (check_user_complete n admitted)
      ]

  check_user-undefined :
      (n : Network) → check_user c uid n ≡ undefined → (x : Local) × (n ≡ local x)
  check_user-undefined (local n) h = (n, refl)
  check_user-undefined (physical n) h = ground arith
  check_user-undefined (virtual n) h = ground arith

  check_network-undefined :
      (n : Network) → check_network c uid (some n) ≡ undefined → (x : Local) × (n ≡ local x)
  check_network-undefined n h = check_user-undefined n (ground arith)

module _ (c : Controller) (uid net_id : ℕ) where
  granted-MayUse : check_user_network_access c uid net_id ≡ granted → MayUse c uid net_id
  unfolding check_user_network_access
  granted-MayUse h = elim (Option-cases (get_network c net_id)) [
    | inl absent ↦ ground arith
    | inr (n, e) ↦
        let (valid, admitted) = check_network_sound c uid n (rw e at h) in
        record { network = n; exists = e; is_user = valid; admitted = admitted }
  ]

  MayUse-granted : MayUse c uid net_id → check_user_network_access c uid net_id ≡ granted
  unfolding check_user_network_access
  MayUse-granted m = rw m.exists (check_network_complete c uid m.network m.is_user m.admitted)

  -- The check grants exactly the networks that exist and that the user may use, for a user id that
  -- is valid: any, with the permission of the system; a VPN that applies to the user; a physical
  -- network whose permission the user holds, unless a secure VPN confines the user.
  pub access_iff : (check_user_network_access c uid net_id ≡ granted) ↔ MayUse c uid net_id
  access_iff = (granted-MayUse, MayUse-granted)

  -- In a well-formed controller only the local network's id makes the check read past an object.
  pub undefined_only_for_local :
      IsWellFormed c → check_user_network_access c uid net_id ≡ undefined → net_id ≡ local_net_id
  unfolding check_user_network_access
  undefined_only_for_local v h = elim (Option-cases (get_network c net_id)) [
    | inl absent ↦ ground arith
    | inr (n, e) ↦
        let (x, is_x) = check_network-undefined c uid n (rw e at h) in
        subst (λ k. IsId (class k) net_id) is_x (v.ids net_id n e).0
  ]
