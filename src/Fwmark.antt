-- ===== src/Fwmark.antt =====
-- include/Permission.h and include/Fwmark.h: the permissions of an app or a network, and the
-- 32-bit mark of a socket with its bit fields, the lowest field first.
pub mod Bits
pub mod Fields
pub mod Masks
use platform_system_netd.Prelude.{ℕ, ◌+◌, ◌*◌, ◌/◌, ◌%◌, ◌^◌, ◌<◌, Bool, true, false, bit_and, ◌==◌}

-- The values of `enum Permission`; the fields and masks hold them as numbers.
abbrev pub permission_none : ℕ
permission_none = 0

abbrev pub permission_network : ℕ
permission_network = 1

-- Includes `permission_network`.
abbrev pub permission_system : ℕ
permission_system = 3

-- What the enum's bits say: `held & needed == needed`.
unfoldable pub grants : ℕ → ℕ → Bool
grants held needed = bit_and held needed == needed

abbrev pub fwmark_net_id_mask : ℕ
fwmark_net_id_mask = 0xffff

-- The struct inside the union, and the twelve bits above it.
pub record Fwmark : Type 0 where
  pub net_id : ℕ
  pub explicitly_selected : Bool
  pub protected_from_vpn : Bool
  pub permission : ℕ
  pub padding : ℕ

abbrev pub flag : Bool → ℕ
flag true = 1
flag false = 0

-- `Fwmark()`: every bit is clear.
abbrev pub cleared : Fwmark
cleared = record {
  net_id = 0;
  explicitly_selected = false;
  protected_from_vpn = false;
  permission = 0;
  padding = 0;
}

-- The union read through `intValue`.
unfoldable pub int_value : Fwmark → ℕ
int_value f =
    f.net_id
    + 2 ^ 16
      * (flag f.explicitly_selected
          + 2 * (flag f.protected_from_vpn + 2 * (f.permission + 4 * f.padding)))

-- The union written through `intValue`.
unfoldable pub of_int : ℕ → Fwmark
of_int n = record {
  net_id = n % 2 ^ 16;
  explicitly_selected = n / 2 ^ 16 % 2 == 1;
  protected_from_vpn = n / 2 ^ 17 % 2 == 1;
  permission = n / 2 ^ 18 % 4;
  padding = n / 2 ^ 20;
}

-- An assignment to a bit field keeps the low bits.
abbrev pub set_net_id : ℕ → Fwmark → Fwmark
set_net_id n f = record f { net_id = n % 2 ^ 16 }

abbrev pub set_explicitly_selected : Bool → Fwmark → Fwmark
set_explicitly_selected b f = record f { explicitly_selected = b }

abbrev pub set_protected_from_vpn : Bool → Fwmark → Fwmark
set_protected_from_vpn b f = record f { protected_from_vpn = b }

abbrev pub set_permission : ℕ → Fwmark → Fwmark
set_permission p f = record f { permission = p % 4 }

-- The values that the fields of a 32-bit union can hold.
pub record IsFwmark (f : Fwmark) : Type 0 where
  pub net_id : f.net_id < 2 ^ 16
  pub permission : f.permission < 4
  pub padding : f.padding < 2 ^ 12
