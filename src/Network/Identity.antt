-- ===== src/Network/Identity.antt =====
-- What a network never changes: its class and its id.
use platform_system_netd.Prelude.{ℕ, ◌≡◌, refl, String, List}
use platform_system_netd.Kernel.{Kernel}
use platform_system_netd.Kernel.Gives.{Gives, Gives-map, gives_rules}
use platform_system_netd.UidRanges.{Range}
use platform_system_netd.Network.{
  Network, Local, Physical, Virtual, Delegate, local, physical, virtual, local_add_interface,
  local_remove_interface, physical_add_interface, physical_remove_interface, virtual_add_interface,
  virtual_remove_interface, virtual_add_users, virtual_remove_users, set_permission, add_as_default,
  remove_as_default, add_interface, remove_interface,
}

-- The classes of networks.
pub data Class : Type 0 where
  is_local is_physical is_virtual : Class

abbrev pub class : Network → Class
class (local n) = is_local
class (physical n) = is_physical
class (virtual n) = is_virtual

abbrev pub get_net_id : Network → ℕ
get_net_id (local n) = n.net_id
get_net_id (physical n) = n.net_id
get_net_id (virtual n) = n.net_id

-- What an object never changes: its class and its id.
abbrev pub identity : Network → Class × ℕ
identity n = (class n, get_net_id n)

pub local_of_class : (n : Network) → class n ≡ is_local → (x : Local) × (n ≡ local x)
local_of_class (local n) h = (n, refl)
local_of_class (physical n) h = cc
local_of_class (virtual n) h = cc

pub physical_of_class : (n : Network) → class n ≡ is_physical → (x : Physical) × (n ≡ physical x)
physical_of_class (local n) h = cc
physical_of_class (physical n) h = (n, refl)
physical_of_class (virtual n) h = cc

-- The object that a method returns is the same network.
abbrev pub Same : {A : Type 0} → (A → Network) → A → A → Type 0
Same f n n' = identity (f n') ≡ identity (f n)

module _ (kernel : Kernel) where
  local_add_interface-Same :
      (interface : String) (n : Local)
      → Gives (Same local n) (local_add_interface kernel interface n)
  unfolding local_add_interface
  local_add_interface-Same interface n = search gives_rules

  local_remove_interface-Same :
      (interface : String) (n : Local)
      → Gives (Same local n) (local_remove_interface kernel interface n)
  unfolding local_remove_interface
  local_remove_interface-Same interface n = search gives_rules

  virtual_add_interface-Same :
      (interface : String) (n : Virtual)
      → Gives (Same virtual n) (virtual_add_interface kernel interface n)
  unfolding virtual_add_interface
  virtual_add_interface-Same interface n = search gives_rules

  virtual_remove_interface-Same :
      (interface : String) (n : Virtual)
      → Gives (Same virtual n) (virtual_remove_interface kernel interface n)
  unfolding virtual_remove_interface
  virtual_remove_interface-Same interface n = search gives_rules

  pub virtual_add_users-Same :
      (uid_ranges : List Range) (n : Virtual)
      → Gives (Same virtual n) (virtual_add_users kernel uid_ranges n)
  unfolding virtual_add_users
  virtual_add_users-Same uid_ranges n = search gives_rules

  pub virtual_remove_users-Same :
      (uid_ranges : List Range) (n : Virtual)
      → Gives (Same virtual n) (virtual_remove_users kernel uid_ranges n)
  unfolding virtual_remove_users
  virtual_remove_users-Same uid_ranges n = search gives_rules

module _ (kernel : Kernel) (delegate : Delegate) where
  pub set_permission-Same :
      (permission : ℕ) (n : Physical)
      → Gives (Same physical n) (set_permission kernel delegate permission n)
  unfolding set_permission
  set_permission-Same permission n = search gives_rules

  pub add_as_default-Same :
      (n : Physical) → Gives (Same physical n) (add_as_default kernel delegate n)
  unfolding add_as_default
  add_as_default-Same n = search gives_rules

  pub remove_as_default-Same :
      (n : Physical) → Gives (Same physical n) (remove_as_default kernel delegate n)
  unfolding remove_as_default
  remove_as_default-Same n = search gives_rules

  physical_add_interface-Same :
      (interface : String) (n : Physical)
      → Gives (Same physical n) (physical_add_interface kernel delegate interface n)
  unfolding physical_add_interface
  physical_add_interface-Same interface n = search gives_rules

  physical_remove_interface-Same :
      (interface : String) (n : Physical)
      → Gives (Same physical n) (physical_remove_interface kernel delegate interface n)
  unfolding physical_remove_interface
  physical_remove_interface-Same interface n = search gives_rules

  pub add_interface-Same :
      (interface : String) (n : Network)
      → Gives (Same (λ k. k) n) (add_interface kernel delegate interface n)
  unfolding add_interface
  add_interface-Same interface (local n) =
      Gives-map _ local _ (local_add_interface-Same kernel interface n)
  add_interface-Same interface (physical n) =
      Gives-map _ physical _ (physical_add_interface-Same interface n)
  add_interface-Same interface (virtual n) =
      Gives-map _ virtual _ (virtual_add_interface-Same kernel interface n)

  pub remove_interface-Same :
      (interface : String) (n : Network)
      → Gives (Same (λ k. k) n) (remove_interface kernel delegate interface n)
  unfolding remove_interface
  remove_interface-Same interface (local n) =
      Gives-map _ local _ (local_remove_interface-Same kernel interface n)
  remove_interface-Same interface (physical n) =
      Gives-map _ physical _ (physical_remove_interface-Same interface n)
  remove_interface-Same interface (virtual n) =
      Gives-map _ virtual _ (virtual_remove_interface-Same kernel interface n)
