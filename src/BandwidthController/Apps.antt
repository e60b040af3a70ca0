-- ===== src/BandwidthController/Apps.antt =====
-- server/BandwidthController.cpp: the boxes of naughty and nice apps.
use Prim.Native.String.{[] as empty, ◌∷◌ as ◌▸◌}
use platform_system_netd.Prelude.{
  ℕ, ◌%◌, ◌^◌, Bool, true, false, not, Option, none, some, List, [], ◌∷◌, String, if◌then◌else◌,
}
use platform_system_netd.Containers.{number_key, contains, erase_first}
use platform_system_netd.CStrings.{strtoul}
use platform_system_netd.Kernel.{Kernel, World}
use platform_system_netd.BandwidthController.{Bandwidth, Method}
use platform_system_netd.BandwidthController.Commands.{
  IptOp, insert, delete, IptJumpOp, reject, return, no_add, SpecialAppOp, add, remove,
  make_iptables_special_app_cmd, on_chain, jump_from,
}
use platform_system_netd.BandwidthController.Running.{run_ipxtables_cmd, also, try}

abbrev happy_box : String
happy_box = "bw_happy_box"

abbrev penalty_box : String
penalty_box = "bw_penalty_box"

abbrev pub with_nice : List ℕ → Bandwidth → Bandwidth
with_nice uids b = record b { nice_app_uids = uids }

abbrev pub with_naughty : List ℕ → Bandwidth → Bandwidth
with_naughty uids b = record b { naughty_app_uids = uids }

-- A user as `strtoul` reads it into an int: the whole text, which is not empty.
abbrev ended : ℕ × String → Option ℕ
ended (n, empty) = some (n % 2 ^ 32)
ended (n, c ▸ s) = none

abbrev pub parse_uid : ℕ → String → Option ℕ
parse_uid width empty = none
parse_uid width (c ▸ s) = ended (strtoul width 0 (c ▸ s))

-- The first loop: all users, unless one of them is refused.
abbrev with_first : Option ℕ → Option (List ℕ) → Option (List ℕ)
with_first (some uid) (some uids) = some (uid ∷ uids)
with_first uid uids = none

unfoldable pub parse_uids : ℕ → List String → Option (List ℕ)
parse_uids width [] = some []
parse_uids width (s ∷ app_str_uids) = with_first (parse_uid width s) (parse_uids width app_str_uids)

abbrev pub ipt_op : SpecialAppOp → IptOp
ipt_op add = insert
ipt_op remove = delete

-- Whether the user must be in the list.
abbrev pub wants : SpecialAppOp → Bool
wants add = false
wants remove = true

abbrev pub changed : SpecialAppOp → ℕ → List ℕ → List ℕ
changed add uid uids = uid ∷ uids
changed remove uid uids = erase_first uid uids

module _ (kernel : Kernel) where
  unfoldable pub enable_happy_box : Method
  enable_happy_box (b, w) =
      let start : Bool × World = (false, w) in
      let (res, w') = also kernel (jump_from "-A" happy_box "REJECT") no_add (
        try kernel (jump_from "-D" happy_box "REJECT") (
          also kernel (jump_from "-A" penalty_box happy_box) no_add (
            try kernel (jump_from "-D" penalty_box happy_box) (
              also kernel (on_chain "-F" happy_box) no_add
                (try kernel (on_chain "-N" happy_box) start))))) in
      (res, (with_nice [] b, w'))

  unfoldable pub disable_happy_box : Method
  disable_happy_box (b, w) =
      let start : Bool × World = (false, w) in
      let out = try kernel (on_chain "-X" happy_box) (
        try kernel (on_chain "-F" happy_box)
          (try kernel (jump_from "-D" penalty_box happy_box) start)) in
      (false, (with_nice [] b, out.1))

  -- The second loop. The list is changed before the command runs, and stays so if that fails.
  unfoldable pub change_special_apps :
      SpecialAppOp → String → IptJumpOp → List ℕ → List ℕ × World → Bool × (List ℕ × World)
  change_special_apps op chain jump [] s = (false, s)
  change_special_apps op chain jump (uid ∷ uids) (special, w) =
      let (res, w₁) =
        run_ipxtables_cmd kernel (make_iptables_special_app_cmd (ipt_op op) uid chain) jump w in
      let w₂ =
        (run_ipxtables_cmd kernel (make_iptables_special_app_cmd delete uid chain) jump w₁).1 in
      let rest = change_special_apps op chain jump uids (changed op uid special, w₁) in
      if (if wants op then contains uid special else not (contains uid special))
      then if res then (true, (changed op uid special, w₂)) else rest
      else (true, (special, w))

  abbrev pub on_uids :
      SpecialAppOp → String → IptJumpOp → Option (List ℕ) → List ℕ × World → Bool × (List ℕ × World)
  on_uids op chain jump none s = (true, s)
  on_uids op chain jump (some uids) s = change_special_apps op chain jump uids s

  unfoldable pub manipulate_special_apps :
      ℕ → List String → String → IptJumpOp → SpecialAppOp → List ℕ × World → Bool × (List ℕ × World)
  manipulate_special_apps width app_str_uids chain jump op s =
      on_uids op chain jump (parse_uids width app_str_uids) s

  unfoldable pub manipulate_naughty_apps : ℕ → List String → SpecialAppOp → Method
  manipulate_naughty_apps width uids op (b, w) =
      let (res, (naughty, w')) =
        manipulate_special_apps width uids penalty_box reject op (b.naughty_app_uids, w) in
      (res, (with_naughty naughty b, w'))

  unfoldable pub manipulate_nice_apps : ℕ → List String → SpecialAppOp → Method
  manipulate_nice_apps width uids op (b, w) =
      let (res, (nice, w')) =
        manipulate_special_apps width uids happy_box return op (b.nice_app_uids, w) in
      (res, (with_nice nice b, w'))

  abbrev pub add_naughty_apps : ℕ → List String → Method
  add_naughty_apps width uids = manipulate_naughty_apps width uids add

  abbrev pub remove_naughty_apps : ℕ → List String → Method
  remove_naughty_apps width uids = manipulate_naughty_apps width uids remove

  abbrev pub add_nice_apps : ℕ → List String → Method
  add_nice_apps width uids = manipulate_nice_apps width uids add

  abbrev pub remove_nice_apps : ℕ → List String → Method
  remove_nice_apps width uids = manipulate_nice_apps width uids remove
