-- ===== src/BandwidthController/Boxes.antt =====
-- What changing the boxes of naughty and nice apps leaves in the lists.
use platform_system_netd.Prelude.{
  ℕ, ◌≡◌, refl, Bool, false, not, ◌&&◌, ◌||◌, Option, none, some, List, [], ◌∷◌, String, arith,
  if◌then◌else◌,
}
use platform_system_netd.Containers.{number_key, contains, erase_first}
use platform_system_netd.Containers.Distinct.{
  IsDistinct, contains-erase_first, erase_first-IsDistinct,
}
use platform_system_netd.Kernel.{Kernel, World}
use platform_system_netd.BandwidthController.Commands.{
  IptJumpOp, SpecialAppOp, add, remove, make_iptables_special_app_cmd,
}
use platform_system_netd.BandwidthController.Running.{run_ipxtables_cmd}
use platform_system_netd.BandwidthController.Apps.{
  ipt_op, wants, parse_uids, change_special_apps, manipulate_special_apps, on_uids,
}

module _ (kernel : Kernel) (chain : String) (jump : IptJumpOp) where
  abbrev ran : SpecialAppOp → ℕ → World → World
  ran op uid w =
      (run_ipxtables_cmd kernel (make_iptables_special_app_cmd (ipt_op op) uid chain) jump w).1

  add-members :
      (uids : List ℕ) (special : List ℕ) (w : World) (j : ℕ)
      → (change_special_apps kernel add chain jump uids (special, w)).0 ≡ false
      → contains j (change_special_apps kernel add chain jump uids (special, w)).1.0
        ≡ (contains j uids || contains j special)
  unfolding change_special_apps contains
  add-members [] special w j h = refl
  add-members (uid ∷ uids) special w j h =
      ground (arith, add-members uids (uid ∷ special) (ran add uid w) j)

  remove-members :
      (uids : List ℕ) (special : List ℕ) (w : World) (j : ℕ)
      → IsDistinct special
      → (change_special_apps kernel remove chain jump uids (special, w)).0 ≡ false
      → contains j (change_special_apps kernel remove chain jump uids (special, w)).1.0
        ≡ (not (contains j uids) && contains j special)
  unfolding change_special_apps contains
  remove-members [] special w j distinct h = refl
  remove-members (uid ∷ uids) special w j distinct h = ground (
    arith,
    contains-erase_first uid j special distinct,
    remove-members uids (erase_first uid special) (ran remove uid w) j
        (erase_first-IsDistinct uid special distinct),
  )

  -- What is in a list after the users were put in or taken out.
  abbrev IsChanged : SpecialAppOp → ℕ → List ℕ → List ℕ → Bool → Type 0
  IsChanged op j special uids there = there ≡ (
      if wants op
      then not (contains j uids) && contains j special
      else contains j uids || contains j special)

  uids-members :
      (op : SpecialAppOp) (o : Option (List ℕ)) (special : List ℕ) (w : World) (j : ℕ)
      → IsDistinct special
      → (on_uids kernel op chain jump o (special, w)).0 ≡ false
      → (uids : List ℕ) × (o ≡ some uids)
        × IsChanged op j special uids (contains j (on_uids kernel op chain jump o (special, w)).1.0)
  uids-members op none special w j distinct h = absurd (cc)
  uids-members add (some uids) special w j distinct h = (uids, refl, add-members uids special w j h)
  uids-members remove (some uids) special w j distinct h =
      (uids, refl, remove-members uids special w j distinct h)

  -- If apps were put into a box, or taken out of one that holds none twice, without an error, then
  -- all arguments were read as users, and the box holds those it held together with these, or
  -- without them.
  pub manipulate_special_apps-members :
      (width : ℕ) (app_str_uids : List String) (op : SpecialAppOp) (special : List ℕ) (w : World)
      (j : ℕ)
      → IsDistinct special
      → (manipulate_special_apps kernel width app_str_uids chain jump op (special, w)).0 ≡ false
      → (uids : List ℕ) × (parse_uids width app_str_uids ≡ some uids)
        × (contains j
              (manipulate_special_apps kernel width app_str_uids chain jump op (special, w)).1.0
            ≡ (if wants op
                then not (contains j uids) && contains j special
                else contains j uids || contains j special))
  unfolding manipulate_special_apps
  manipulate_special_apps-members width app_str_uids op special w j distinct h =
      uids-members op (parse_uids width app_str_uids) special w j distinct h
