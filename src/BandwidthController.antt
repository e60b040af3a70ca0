-- ===== src/BandwidthController.antt =====
-- server/BandwidthController.cpp and BandwidthController.h: quotas, alerts and the boxes of apps, as
-- iptables commands with the lists that the controller keeps.
pub mod Commands
pub mod Running
pub mod Tables
pub mod Apps
pub mod Alerts
pub mod Quotas
pub mod Stats
pub mod Parsing
pub mod Listing
pub mod Operations
pub mod Lists
pub mod Kept
pub mod Invariant
pub mod Rules
pub mod Alarms
pub mod Effects
pub mod Boxes
use platform_system_netd.Prelude.{
  ℕ, Bool, Option, none, some, List, [], ◌∷◌, String, str_eq, if◌then◌else◌,
}
use platform_system_netd.Kernel.{World}

-- Amounts of bytes are of type int64_t, held as their 64 bits.
pub record QuotaInfo : Type 0 where
  pub iface_name : String
  pub quota : ℕ
  pub alert : ℕ

-- The members. `globalAlertTetherCount` and the users are ints, held as their 32 bits.
pub record Bandwidth : Type 0 where
  pub shared_quota_ifaces : List String
  pub shared_quota_bytes : ℕ
  pub shared_alert_bytes : ℕ
  pub global_alert_bytes : ℕ
  pub global_alert_tether_count : ℕ
  pub quota_ifaces : List QuotaInfo
  pub naughty_app_uids : List ℕ
  pub nice_app_uids : List ℕ

-- A method's result is whether its int differs from 0, which is an error to every caller.
abbrev pub Method : Type 0
Method = Bandwidth × World → Bool × (Bandwidth × World)

-- The loops over `quotaIfaces` that look for a name.
unfoldable pub find_quota : String → List QuotaInfo → Option QuotaInfo
find_quota name [] = none
find_quota name (q ∷ l) = if str_eq q.iface_name name then some q else find_quota name l

-- What is written through the iterator that such a loop has left.
unfoldable pub update_quota_info :
    String → (QuotaInfo → QuotaInfo) → List QuotaInfo → List QuotaInfo
update_quota_info name f [] = []
update_quota_info name f (q ∷ l) =
    if str_eq q.iface_name name then f q ∷ l else q ∷ update_quota_info name f l

-- `quotaIfaces.erase(it)`
unfoldable pub erase_quota : String → List QuotaInfo → List QuotaInfo
erase_quota name [] = []
erase_quota name (q ∷ l) = if str_eq q.iface_name name then l else q ∷ erase_quota name l
