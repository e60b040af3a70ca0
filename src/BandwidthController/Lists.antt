-- ===== src/BandwidthController/Lists.antt =====
-- Predicates on the controller's lists, and what keeps them.
use platform_system_netd.Prelude.{
  ℕ, ◌≡◌, refl, ◌∙◌, true, false, not, ◌||◌, List, [], ◌∷◌, map, All, String, arith, str_eq, ◌==◌,
  Bool-cases, inl, inr,
}
use platform_system_netd.Containers.{number_key, string_key, contains}
use platform_system_netd.Containers.Distinct.{IsDistinct}
use platform_system_netd.BandwidthController.{
  Bandwidth, QuotaInfo, find_quota, update_quota_info, erase_quota,
}
use platform_system_netd.BandwidthController.Quotas

-- The interfaces of the shared quota: its bytes are set exactly if there are some, and only then is
-- there an alert.
abbrev pub IsShared : List String → ℕ → ℕ → Type 0
IsShared names bytes alert =
    IsDistinct names
    × ((bytes == 0) ≡ Quotas.is_empty names)
    × ((alert == 0 || not (bytes == 0)) ≡ true)

abbrev pub names_of : List QuotaInfo → List String
names_of = map (λ q. q.iface_name)

-- The quotas of interfaces, none of 0 bytes.
abbrev pub IsQuotas : List QuotaInfo → Type 0
IsQuotas quotas = IsDistinct (names_of quotas) × All (λ q. (q.quota == 0) ≡ false) quotas

abbrev pub IsValid : Bandwidth → Type 0
IsValid b =
    IsShared b.shared_quota_ifaces b.shared_quota_bytes b.shared_alert_bytes
    × IsQuotas b.quota_ifaces
    × IsDistinct b.naughty_app_uids
    × IsDistinct b.nice_app_uids

contains-update :
    (name iface : String) (f : QuotaInfo → QuotaInfo) (quotas : List QuotaInfo)
    → ((q : QuotaInfo) → (f q).iface_name ≡ q.iface_name)
    → contains iface (names_of (update_quota_info name f quotas)) ≡ contains iface (names_of quotas)
unfolding contains update_quota_info
contains-update name iface f [] same = refl
contains-update name iface f (q ∷ quotas) same =
    ground (arith, same q, contains-update name iface f quotas same)

pub update-IsQuotas :
    (name : String) (f : QuotaInfo → QuotaInfo) (quotas : List QuotaInfo)
    → ((q : QuotaInfo) → (f q).iface_name ≡ q.iface_name)
    → ((q : QuotaInfo) → (q.quota == 0) ≡ false → ((f q).quota == 0) ≡ false)
    → IsQuotas quotas
    → IsQuotas (update_quota_info name f quotas)
unfolding update_quota_info
update-IsQuotas name f [] same set h = h
update-IsQuotas name f (q ∷ quotas) same set h = elim (Bool-cases (str_eq q.iface_name name)) [
  | inl found ↦ rw (found, same q) ((h.0.0, h.0.1), (set q h.1.0, h.1.1))
  | inr other ↦
      let (distinct, set_all) = update-IsQuotas name f quotas same set (h.0.1, h.1.1) in
      rw other
        ((contains-update name q.iface_name f quotas same ∙ h.0.0, distinct), (h.1.0, set_all))
]

contains-erase_quota :
    (name iface : String) (quotas : List QuotaInfo)
    → contains iface (names_of quotas) ≡ false
    → contains iface (names_of (erase_quota name quotas)) ≡ false
unfolding contains erase_quota
contains-erase_quota name iface [] h = h
contains-erase_quota name iface (q ∷ quotas) h =
    ground (arith, contains-erase_quota name iface quotas)

pub erase-IsQuotas :
    (name : String) (quotas : List QuotaInfo) → IsQuotas quotas → IsQuotas (erase_quota name quotas)
unfolding erase_quota
erase-IsQuotas name [] h = h
erase-IsQuotas name (q ∷ quotas) h = elim (Bool-cases (str_eq q.iface_name name)) [
  | inl found ↦ rw found (h.0.1, h.1.1)
  | inr other ↦
      let (distinct, set_all) = erase-IsQuotas name quotas (h.0.1, h.1.1) in
      rw other ((contains-erase_quota name q.iface_name quotas h.0.0, distinct), (h.1.0, set_all))
]

pub missing :
    (name : String) (quotas : List QuotaInfo)
    → Quotas.is_none (find_quota name quotas) ≡ true
    → contains name (names_of quotas) ≡ false
unfolding contains find_quota
missing name [] h = refl
missing name (q ∷ quotas) h = ground (arith, missing name quotas)
