-- ===== src/CommandListener/Bounds.antt =====
-- What server/CommandListener.cpp has checked of the arguments of a request.
use Prim.Native.String.{[] as empty, ◌∷◌ as ◌▸◌}
use platform_system_netd.Prelude.{
  ℕ, ◌<◌, ◌^◌, ◌≡◌, refl, ◌⊎◌, inl, inr, Option, none, some, List, [], ◌∷◌, String, arith, if_cases,
  All,
}
use platform_system_netd.Fwmark.{permission_none, permission_network, permission_system}
use platform_system_netd.UidRanges.{Range}
use platform_system_netd.UidRanges.Order.{IsSorted}
use platform_system_netd.UidRanges.Parse.{IsUidRange}
use platform_system_netd.Controller.Requests.{
  Request, choose_default, create_physical, create_virtual, destroy, attach, detach,
  permit_networks, permit_users, bind_users, unbind_users, allow, deny,
}
use platform_system_netd.CStrings.{strtoul}
use platform_system_netd.CommandListener.Arguments.{
  ◌is◌, string_to_permission, string_to_net_id, named_net_id, oem_net_id, after_oem, unsigned_of,
  read_id, whole, add_id, read_ids, read_users,
}

abbrev pub IsUnsigned : ℕ → Type 0
IsUnsigned n = n < 2 ^ 32

-- A value of the enum.
abbrev pub IsPermission : ℕ → Type 0
IsPermission p = (p ≡ permission_none) ⊎ ((p ≡ permission_network) ⊎ (p ≡ permission_system))

abbrev pub AreUidRanges : List Range → Type 0
AreUidRanges ranges = IsSorted ranges × All IsUidRange ranges

-- Numbers of 32 bits, permissions of the enum, and ranges of users in order.
abbrev pub IsChecked : Request → Type 0
IsChecked (choose_default net_id) = IsUnsigned net_id
IsChecked (create_physical net_id permission) = IsUnsigned net_id × IsPermission permission
IsChecked (create_virtual net_id has_dns secure) = IsUnsigned net_id
IsChecked (destroy net_id) = IsUnsigned net_id
IsChecked (attach net_id interface) = IsUnsigned net_id
IsChecked (detach net_id interface) = IsUnsigned net_id
IsChecked (permit_networks permission ids) = IsPermission permission × All IsUnsigned ids
IsChecked (permit_users permission ids) = IsPermission permission × All IsUnsigned ids
IsChecked (bind_users net_id ranges) = IsUnsigned net_id × AreUidRanges ranges
IsChecked (unbind_users net_id ranges) = IsUnsigned net_id × AreUidRanges ranges
IsChecked (allow uids) = All IsUnsigned uids
IsChecked (deny uids) = All IsUnsigned uids

pub string_to_permission-IsPermission : (arg : String) → IsPermission (string_to_permission arg)
unfolding string_to_permission
string_to_permission-IsPermission arg =
    if_cases IsPermission (arg is "NETWORK") (λ _. inr (inl refl))
      λ _. if_cases IsPermission (arg is "SYSTEM") (λ _. inr (inr refl)) (λ _. inl refl)

pub unsigned_of-IsUnsigned : (width : ℕ) (arg : String) → IsUnsigned (unsigned_of width arg)
unsigned_of-IsUnsigned width arg = omega arith

oem_net_id-IsUnsigned : (n : ℕ) → IsUnsigned (oem_net_id n)
oem_net_id-IsUnsigned n = ground arith

named_net_id-IsUnsigned :
    (width : ℕ) (arg : String) (o : Option String) → IsUnsigned (named_net_id width arg o)
named_net_id-IsUnsigned width arg (some rest) = oem_net_id-IsUnsigned (unsigned_of width rest)
named_net_id-IsUnsigned width arg none = unsigned_of-IsUnsigned width arg

pub string_to_net_id-IsUnsigned :
    (width : ℕ) (arg : String) → IsUnsigned (string_to_net_id width arg)
unfolding string_to_net_id
string_to_net_id-IsUnsigned width arg =
    if_cases IsUnsigned (arg is "local") (λ _. omega arith)
      (λ _. named_net_id-IsUnsigned width arg (after_oem arg))

abbrev Each : Option ℕ → Type 0
Each none = Unit
Each (some id) = IsUnsigned id

abbrev pub EachOf : Option (List ℕ) → Type 0
EachOf none = Unit
EachOf (some ids) = All IsUnsigned ids

whole-Each : (found : ℕ × String) → Each (whole found)
whole-Each (n, empty) = omega arith
whole-Each (n, c ▸ s) = tt

read_id-Each : (width : ℕ) (arg : String) → Each (read_id width arg)
read_id-Each width empty = tt
read_id-Each width (c ▸ s) = whole-Each (strtoul width 0 (c ▸ s))

add_id-EachOf :
    (id : Option ℕ) (ids : Option (List ℕ)) → Each id → EachOf ids → EachOf (add_id id ids)
add_id-EachOf (some id) (some ids) h hs = (h, hs)
add_id-EachOf none (some ids) h hs = tt
add_id-EachOf none none h hs = tt
add_id-EachOf (some id) none h hs = tt

pub read_ids-EachOf : (width : ℕ) (args : List String) → EachOf (read_ids width args)
unfolding read_ids
read_ids-EachOf width [] = tt
read_ids-EachOf width (arg ∷ args) =
    add_id-EachOf (read_id width arg) (read_ids width args) (read_id-Each width arg)
      (read_ids-EachOf width args)

pub read_users-IsUnsigned :
    (width : ℕ) (args : List String) → All IsUnsigned (read_users width args)
unfolding read_users
read_users-IsUnsigned width [] = tt
read_users-IsUnsigned width (arg ∷ args) =
    (unsigned_of-IsUnsigned width arg, read_users-IsUnsigned width args)
