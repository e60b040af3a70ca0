-- ===== src/NatController.antt =====
-- server/NatController.cpp: address translation for tethering, as iptables commands with a count of
-- the pairs that are enabled. A failure that sets no errno is the error 0.
pub mod Commands
pub mod Order
use Prim.Native.String.{◌++◌}
use platform_system_netd.Prelude.{
  ℕ, ◌+◌, ◌-◌, ◌%◌, ◌^◌, Bool, true, false, not, ◌&&◌, ◌||◌, List, [], ◌∷◌, String, leb, str_eq,
  ◌==◌, if◌then◌else◌,
}
use platform_system_netd.Containers.{string_key, contains}
use platform_system_netd.Kernel.{Kernel, World, Call, Word, command, Result, ok, err}
use platform_system_netd.Kernel.Errno.{enodev, einval}
use platform_system_netd.Prefix.{is_iface_name}
use platform_system_netd.Route.Networks.{run, enable_tethering, disable_tethering}
use platform_system_netd.NatController.Commands.{
  flush_forward, add_drop, delete_drop, flush_postrouting, masquerade, flush_counters,
  delete_counters, new_counters, clamp_mss, allow_replies, drop_invalid, count_outgoing, counting,
}

-- The members. `natCount` is an int, held as its 32 bits; `push_front` puts a name in front.
pub record Nat : Type 0 where
  pub nat_count : ℕ
  pub iface_pair_list : List String

-- A method's result, with what it leaves.
abbrev pub NatMethod : Type 0
NatMethod = Nat × World → Result (Unit {0}) × (Nat × World)

module _ (kernel : Kernel) where
  -- Commands in a row; a failure of one that is checked ends them.
  unfoldable pub run_all : List (Call × Bool) → World → Bool × World
  run_all [] w = (true, w)
  run_all ((c, check) ∷ rest) w =
      let (res, w') = run kernel c w in
      let more = run_all rest w' in if not (res == 0) && check then (false, w') else more

  abbrev pub defaults : List (Call × Bool)
  defaults = (flush_forward, true) ∷ (add_drop, true) ∷ (flush_postrouting, true) ∷ []

  unfoldable pub set_defaults : NatMethod
  set_defaults (n, w) =
      let (done, w') = run_all defaults w in
      if done then (ok tt, (record n { nat_count = 0 }, w')) else (err 0, (n, w'))

  -- The reset after an error, whose own result is not looked at, if no pair is enabled.
  abbrev pub reset_if_first : Nat × World → Nat × World
  reset_if_first (n, w) = if n.nat_count == 0 then (set_defaults (n, w)).1 else (n, w)

  abbrev hooks : List (Call × Bool)
  hooks =
      (flush_counters, false)
      ∷ (delete_counters, false)
      ∷ (new_counters, true)
      ∷ (clamp_mss, false)
      ∷ []

  abbrev after_defaults : Result (Unit {0}) × (Nat × World) → Result (Unit {0}) × (Nat × World)
  after_defaults (err e, s) = (err e, s)
  after_defaults (ok a, (n, w)) =
      let (done, w') = run_all hooks w in
      if done then (ok tt, (record n { iface_pair_list = [] }, w')) else (err 0, (n, w'))

  unfoldable pub setup_iptables_hooks : NatMethod
  setup_iptables_hooks s = after_defaults (set_defaults s)

  abbrev pair_name : String → String → String
  pair_name a b = a ++ ("_" ++ b)

  -- One direction of a pair: a counter that is there is the end.
  unfoldable pub count_pair : String → String → Nat × World → (Bool × Bool) × (Nat × World)
  count_pair a b (n, w) =
      if contains (pair_name a b) n.iface_pair_list
      then ((true, true), (n, w))
      else (let (res, w') = run kernel (counting a b) w in
          if res == 0
          then (
            (true, false),
            (record n { iface_pair_list = pair_name a b ∷ n.iface_pair_list }, w'),
          )
          else ((false, true), (n, w')))

  -- Counters are only added, and stay. The first component says whether it worked.
  unfoldable pub set_tether_counting_rules : String → String → Nat × World → Bool × (Nat × World)
  set_tether_counting_rules int_iface ext_iface s =
      let ((worked, ended), s₁) = count_pair int_iface ext_iface s in
      let ((worked₂, ended₂), s₂) = count_pair ext_iface int_iface s₁ in
      if ended then (worked, s₁) else (worked₂, s₂)

  abbrev run_world : Call → World → World
  run_world c w = (run kernel c w).1

  -- Adding the three rules: an error takes the first of them back.
  unfoldable pub add_forward_rules : String → String → Nat × World → Bool × (Nat × World)
  add_forward_rules int_iface ext_iface (n, w) =
      let (res₁, w₁) = run kernel (allow_replies true int_iface ext_iface) w in
      let (res₂, w₂) = run kernel (drop_invalid true int_iface ext_iface) w₁ in
      let (res₃, w₃) = run kernel (count_outgoing true int_iface ext_iface) w₂ in
      let (counted, (n₄, w₄)) = set_tether_counting_rules int_iface ext_iface (n, w₃) in
      let undo : Nat × World → Bool × (Nat × World) = λ (s : Nat × World). (
        false,
        (
          s.0,
          run_world (allow_replies false int_iface ext_iface)
              (run_world (drop_invalid false int_iface ext_iface) s.1),
        ),
      ) in
      if not (res₁ == 0)
      then (false, (n, w₁))
      else if not (res₂ == 0)
      then (false, (n, run_world (allow_replies false int_iface ext_iface) w₂))
      else if not (res₃ == 0)
      then undo (n, w₃)
      else if counted
      then (true, (n₄, w₄))
      else undo (n₄, w₄)

  -- Deleting them: errors are not looked at.
  unfoldable pub delete_forward_rules : String → String → World → World
  delete_forward_rules int_iface ext_iface w =
      run_world (count_outgoing false int_iface ext_iface) (
        run_world (drop_invalid false int_iface ext_iface)
          (run_world (allow_replies false int_iface ext_iface) w))

  -- After the tethering rule: the pair counts.
  abbrev pub counted_in : Nat → Result (Unit {0}) × World → Result (Unit {0}) × (Nat × World)
  counted_in n (ok a, w) = (ok tt, (record n { nat_count = (n.nat_count + 1) % 2 ^ 32 }, w))
  counted_in n (err e, w) = (err e, reset_if_first (n, w))

  -- The drop rule is put at the end again, then the tethering rule is added.
  abbrev pub finish : String → String → Nat × World → Result (Unit {0}) × (Nat × World)
  finish int_iface ext_iface (n, w) =
      counted_in n
        (enable_tethering kernel int_iface ext_iface (run_world add_drop (run_world delete_drop w)))

  abbrev pub forwarded : String → String → Bool × (Nat × World) → Result (Unit {0}) × (Nat × World)
  forwarded int_iface ext_iface (true, s) = finish int_iface ext_iface s
  forwarded int_iface ext_iface (false, s) = (err enodev, reset_if_first s)

  -- The first pair needs the masquerading rule.
  abbrev pub masqueraded : String → Nat × World → Bool × (Nat × World)
  masqueraded ext_iface (n, w) =
      let (res, w') = run kernel (masquerade ext_iface) w in
      if n.nat_count == 0 then (res == 0, (n, w')) else (true, (n, w))

  abbrev pub enabled : String → String → Bool × (Nat × World) → Result (Unit {0}) × (Nat × World)
  enabled int_iface ext_iface (true, s) =
      forwarded int_iface ext_iface (add_forward_rules int_iface ext_iface s)
  enabled int_iface ext_iface (false, s) = (err 0, (set_defaults s).1)

  unfoldable pub enable_nat : String → String → NatMethod
  enable_nat int_iface ext_iface s =
      if not (is_iface_name int_iface) || not (is_iface_name ext_iface)
      then (err enodev, s)
      else if str_eq int_iface ext_iface
      then (err einval, s)
      else enabled int_iface ext_iface (masqueraded ext_iface s)

  -- `--natCount <= 0` on 32 bits resets.
  abbrev pub counted_out : Nat × World → Result (Unit {0}) × (Nat × World)
  counted_out (n, w) =
      let less : ℕ = (n.nat_count + (2 ^ 32 - 1)) % 2 ^ 32 in
      let s : Nat × World = (record n { nat_count = less }, w) in
      (ok tt, if less == 0 || leb (2 ^ 31) less then (set_defaults s).1 else s)

  abbrev pub untethered :
      String → String → Nat → Result (Unit {0}) × World → Result (Unit {0}) × (Nat × World)
  untethered int_iface ext_iface n (ok a, w) =
      counted_out (n, delete_forward_rules int_iface ext_iface w)
  untethered int_iface ext_iface n (err e, w) = (err e, (n, w))

  unfoldable pub disable_nat : String → String → NatMethod
  disable_nat int_iface ext_iface (n, w) =
      if not (is_iface_name int_iface) || not (is_iface_name ext_iface)
      then (err enodev, (n, w))
      else untethered int_iface ext_iface n (disable_tethering kernel int_iface ext_iface w)
