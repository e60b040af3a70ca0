-- ===== src/Network.antt =====
-- server/Network.cpp, LocalNetwork.cpp, PhysicalNetwork.cpp and VirtualNetwork.cpp: networks, the
-- interfaces assigned to them, and what a change asks of the route controller. A method that fails
-- leaves its object as it was.
pub mod Identity
pub mod Members
pub mod Clearing
use platform_system_netd.Prelude.{ℕ, Bool, true, false, List, [], ◌∷◌, String, ◌==◌, if◌then◌else◌}
use platform_system_netd.Containers.{string_key, contains, insert, erase}
use platform_system_netd.Fwmark.{permission_none}
use platform_system_netd.Kernel.{Kernel, World, Result, ok, err, Exec, Ret, pure, ◌>>=◌, ◌>>◌}
use platform_system_netd.UidRanges.{Range, has_uid, add, remove}
use platform_system_netd.Route.Networks.{
  add_interface_to_local_network, remove_interface_from_local_network,
  add_interface_to_physical_network, remove_interface_from_physical_network,
  add_interface_to_virtual_network, remove_interface_from_virtual_network,
  modify_physical_network_permission, add_users_to_virtual_network,
  remove_users_from_virtual_network, add_interface_to_default_network,
  remove_interface_from_default_network,
}

pub record Local : Type 0 where
  pub net_id : ℕ
  pub interfaces : List String

pub record Physical : Type 0 where
  pub net_id : ℕ
  pub interfaces : List String
  pub permission : ℕ
  pub is_default : Bool

pub record Virtual : Type 0 where
  pub net_id : ℕ
  pub interfaces : List String
  pub has_dns : Bool
  pub secure : Bool
  pub uid_ranges : List Range

-- An object of the class Network: its dynamic type and its members.
pub data Network : Type 0 where
  local : Local → Network
  physical : Physical → Network
  virtual : Virtual → Network

abbrev pub get_interfaces : Network → List String
get_interfaces (local n) = n.interfaces
get_interfaces (physical n) = n.interfaces
get_interfaces (virtual n) = n.interfaces

unfoldable pub has_interface : String → Network → Bool
has_interface interface n = contains interface (get_interfaces n)

-- What a physical network needs of its controller.
pub record Delegate : Type 0 where
  pub add_fallthrough : String → ℕ → Ret
  pub remove_fallthrough : String → ℕ → Ret

-- The loops over a network's interfaces: the first error ends them.
unfoldable pub for_each {ℓ} : {A : Type ℓ} → (A → Ret) → List A → Ret
for_each f [] = pure tt
for_each f (x ∷ xs) = f x >> for_each f xs

abbrev pub new_local : ℕ → Local
new_local net_id = record { net_id = net_id; interfaces = [] }

abbrev pub new_physical : ℕ → Physical
new_physical net_id = record {
  net_id = net_id;
  interfaces = [];
  permission = permission_none;
  is_default = false;
}

abbrev pub new_virtual : ℕ → Bool → Bool → Virtual
new_virtual net_id has_dns secure = record {
  net_id = net_id;
  interfaces = [];
  has_dns = has_dns;
  secure = secure;
  uid_ranges = [];
}

unfoldable pub applies_to_user : ℕ → Virtual → Bool
applies_to_user uid n = has_uid uid n.uid_ranges

module _ (kernel : Kernel) where
  unfoldable pub local_add_interface : String → Local → Exec Local
  local_add_interface interface n = if contains interface n.interfaces then pure n else do
    add_interface_to_local_network kernel n.net_id interface
    pure (record n { interfaces = insert interface n.interfaces })

  unfoldable pub local_remove_interface : String → Local → Exec Local
  local_remove_interface interface n =
      if contains interface n.interfaces
      then (do
        remove_interface_from_local_network kernel n.net_id interface
        pure (record n { interfaces = erase interface n.interfaces }))
      else pure n

  unfoldable pub virtual_add_users : List Range → Virtual → Exec Virtual
  virtual_add_users uid_ranges n = do
    for_each
        (λ interface. add_users_to_virtual_network kernel n.net_id interface n.secure uid_ranges)
        n.interfaces
    pure (record n { uid_ranges = add n.uid_ranges uid_ranges })

  unfoldable pub virtual_remove_users : List Range → Virtual → Exec Virtual
  virtual_remove_users uid_ranges n = do
    for_each
        (λ interface.
          remove_users_from_virtual_network kernel n.net_id interface n.secure uid_ranges)
        n.interfaces
    pure (record n { uid_ranges = remove n.uid_ranges uid_ranges })

  unfoldable pub virtual_add_interface : String → Virtual → Exec Virtual
  virtual_add_interface interface n = if contains interface n.interfaces then pure n else do
    add_interface_to_virtual_network kernel n.net_id interface n.secure n.uid_ranges
    pure (record n { interfaces = insert interface n.interfaces })

  unfoldable pub virtual_remove_interface : String → Virtual → Exec Virtual
  virtual_remove_interface interface n =
      if contains interface n.interfaces
      then (do
        remove_interface_from_virtual_network kernel n.net_id interface n.secure n.uid_ranges
        pure (record n { interfaces = erase interface n.interfaces }))
      else pure n

abbrev pub map_ok {ℓ} : {A : Type ℓ} → (A → Network) → Exec A → Exec Network
map_ok f m = m >>= λ n. pure (f n)

module _ (kernel : Kernel) (delegate : Delegate) where
  unfoldable pub add_to_default : String → ℕ → Ret
  add_to_default interface permission = do
    add_interface_to_default_network kernel interface permission
    delegate.add_fallthrough interface permission

  unfoldable pub remove_from_default : String → ℕ → Ret
  remove_from_default interface permission = do
    remove_interface_from_default_network kernel interface permission
    delegate.remove_fallthrough interface permission

  unfoldable pub set_permission : ℕ → Physical → Exec Physical
  set_permission permission n = if permission == n.permission then pure n else do
    for_each
        (λ interface.
          modify_physical_network_permission kernel n.net_id interface n.permission permission)
        n.interfaces
    if n.is_default
        then for_each
            (λ interface. do
              add_to_default interface permission
              remove_from_default interface n.permission)
            n.interfaces
        else pure tt
    pure (record n { permission = permission })

  unfoldable pub add_as_default : Physical → Exec Physical
  add_as_default n = if n.is_default then pure n else do
    for_each (λ interface. add_to_default interface n.permission) n.interfaces
    pure (record n { is_default = true })

  unfoldable pub remove_as_default : Physical → Exec Physical
  remove_as_default n =
      if n.is_default
      then (do
        for_each (λ interface. remove_from_default interface n.permission) n.interfaces
        pure (record n { is_default = false }))
      else pure n

  unfoldable pub physical_add_interface : String → Physical → Exec Physical
  physical_add_interface interface n = if contains interface n.interfaces then pure n else do
    add_interface_to_physical_network kernel n.net_id interface n.permission
    if n.is_default then add_to_default interface n.permission else pure tt
    pure (record n { interfaces = insert interface n.interfaces })

  unfoldable pub physical_remove_interface : String → Physical → Exec Physical
  physical_remove_interface interface n =
      if contains interface n.interfaces
      then (do
        if n.is_default then remove_from_default interface n.permission else pure tt
        remove_interface_from_physical_network kernel n.net_id interface n.permission
        pure (record n { interfaces = erase interface n.interfaces }))
      else pure n

  -- The virtual methods `addInterface` and `removeInterface`.
  unfoldable pub add_interface : String → Network → Exec Network
  add_interface interface (local n) = map_ok local (local_add_interface kernel interface n)
  add_interface interface (physical n) = map_ok physical (physical_add_interface interface n)
  add_interface interface (virtual n) = map_ok virtual (virtual_add_interface kernel interface n)

  unfoldable pub remove_interface : String → Network → Exec Network
  remove_interface interface (local n) = map_ok local (local_remove_interface kernel interface n)
  remove_interface interface (physical n) = map_ok physical (physical_remove_interface interface n)
  remove_interface interface (virtual n) =
      map_ok virtual (virtual_remove_interface kernel interface n)

  -- `while (!mInterfaces.empty())` takes the first interface of the set and removes it, which erases
  -- its name: so it goes through the names that the set has at the start. An error ends it, with
  -- the interfaces before it gone.
  unfoldable pub clear_from : List String → Network → World → (Result (Unit {0}) × Network) × World
  clear_from [] n w = ((ok tt, n), w)
  clear_from (interface ∷ rest) n w =
      let (r, w') = remove_interface interface n w in
      elim r [ ok n' ↦ clear_from rest n' w' | err e ↦ ((err e, n), w') ]

  unfoldable pub clear_interfaces : Network → World → (Result (Unit {0}) × Network) × World
  clear_interfaces n w = clear_from (get_interfaces n) n w
