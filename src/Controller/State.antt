-- ===== src/Controller/State.antt =====
-- server/NetworkController.h: the members, and the methods that change them as actions that keep
-- what was changed before an error.
use platform_system_netd.Prelude.{ℕ, List, [], ◌∷◌}
use platform_system_netd.Containers.{number_key, assign}
use platform_system_netd.Kernel.{World, Result, ok, err, Exec}
use platform_system_netd.Network.{Network, local, new_local}

abbrev pub min_net_id : ℕ
min_net_id = 100

abbrev pub max_net_id : ℕ
max_net_id = 65535

abbrev pub min_oem_id : ℕ
min_oem_id = 1

abbrev pub max_oem_id : ℕ
max_oem_id = 50

abbrev pub local_net_id : ℕ
local_net_id = 99

-- FIRST_APPLICATION_UID
abbrev pub first_application_uid : ℕ
first_application_uid = 10000

pub record Controller : Type 0 where
  pub default_net_id : ℕ
  pub networks : List (ℕ × Network)
  pub users : List (ℕ × ℕ)
  pub protectable_users : List ℕ

-- The constructor: no default network, and the local network alone.
abbrev pub initial : Controller
initial = record {
  default_net_id = 0;
  networks = (local_net_id, local (new_local local_net_id)) ∷ [];
  users = [];
  protectable_users = [];
}

pub record System : Type 0 where
  pub controller : Controller
  pub world : World

abbrev pub Method {ℓ} : Type ℓ → Type ℓ
Method A = System → Result A × System

abbrev pub Command : Type 0
Command = Method (Unit {0})

module _ {ℓ} {A : Type ℓ} where
  unfoldable pub return : A → Method A
  return a s = (ok a, s)

  unfoldable pub fail : ℕ → Method A
  fail e s = (err e, s)

  -- An action of the world, which leaves the controller alone.
  unfoldable pub exec : Exec A → Method A
  exec m s = let (r, w) = m s.world in (r, record s { world = w })

module _ {ℓ κ} {A : Type ℓ} {B : Type κ} where
  abbrev pub resume : (A → Method B) → Result A × System → Result B × System
  resume f (ok a, s) = f a s
  resume f (err e, s) = (err e, s)

  infixl 10 ◌>>=◌ ◌>>◌
  unfoldable pub ◌>>=◌ : Method A → (A → Method B) → Method B
  ◌>>=◌ m f s = resume f (m s)

  abbrev pub ◌>>◌ : Method A → Method B → Method B
  m >> n = m >>= λ _. n

-- mNetworks[netId] = network, also where the object behind the pointer has changed
abbrev pub put : ℕ → Network → Controller → Controller
put net_id n c = record c { networks = assign net_id n c.networks }

unfoldable pub put_network : ℕ → Network → Command
put_network net_id n s = (ok tt, record s { controller = put net_id n s.controller })

unfoldable pub set_default : ℕ → Command
set_default net_id s =
    (ok tt, record s { controller = record s.controller { default_net_id = net_id } })
