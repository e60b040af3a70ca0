-- ===== src/NatController/Order.antt =====
-- The order of the commands of `enableNat`: what stands at the end of the chain.
use platform_system_netd.Prelude.{
  ℕ, ◌≡◌, ap, ◌∙◌, Bool, true, false, not, ◌||◌, some, List, [], ◌∷◌, ◌++◌, append_assoc, String,
  str_eq, if_cases,
}
use platform_system_netd.Kernel.{Kernel, new, Rule, Call, record_call, World, Result, ok, err}
use platform_system_netd.Kernel.Issues.{IsOk, Trace, Trace-complete}
use platform_system_netd.Prefix.{is_iface_name}
use platform_system_netd.Route.Requests.{invalid_uid, padded, no_name, make_rule}
use platform_system_netd.Route.Priority
use platform_system_netd.Route.Lookups.{table_of, looked_up, calls-looked_up, require_table-Trace}
use platform_system_netd.Route.Plans.{rule_calls, modify_ip_rule-Issues}
use platform_system_netd.Route.Networks.{modify_tethered_network, enable_tethering, run}
use platform_system_netd.NatController.{
  Nat, counted_in, finish, forwarded, masqueraded, enabled, enable_nat, add_forward_rules,
}
use platform_system_netd.NatController.Commands.{add_drop, delete_drop}

-- The rule that routes what comes from an interface.
abbrev pub tethering_rule : String → ℕ → Rule
tethering_rule int_iface table =
    make_rule Priority.tethering table 0 0 (padded (some int_iface)) no_name invalid_uid invalid_uid

module _ (kernel : Kernel) (int_iface ext_iface : String) where
  tethering-Trace :
      (w : World)
      → Trace
          (rule_calls new (tethering_rule int_iface (table_of kernel ext_iface w)))
          (looked_up kernel ext_iface w)
          (enable_tethering kernel int_iface ext_iface w)
  unfolding enable_tethering modify_tethered_network
  tethering-Trace w =
      require_table-Trace kernel ext_iface w
        (λ table. rule_calls new (tethering_rule int_iface table)) _
        λ table. modify_ip_rule-Issues kernel new _ table _ _ _ _ _ _

  -- What the chain got last: the drop rule anew, and then only routing rules were asked for.
  pub record EndsWithDrop (w : World) : Type 0 where
    pub before : List Call
    pub table : ℕ
    pub recorded :
        w.calls
        ≡ before ++ (delete_drop ∷ add_drop ∷ rule_calls new (tethering_rule int_iface table))

  abbrev IfWorked : Result (Unit {0}) × (Nat × World) → Type 0
  IfWorked (ok a, (n, w)) = EndsWithDrop w
  IfWorked (err e, s) = Unit

  counted_in-IfWorked :
      (n : Nat) (out : Result (Unit {0}) × World)
      → (IsOk out.0 → EndsWithDrop out.1)
      → IfWorked (counted_in kernel n out)
  counted_in-IfWorked n (ok a, w) h = h tt
  counted_in-IfWorked n (err e, w) h = tt

  finish-IfWorked : (n : Nat) (w : World) → IfWorked (finish kernel int_iface ext_iface (n, w))
  unfolding run
  finish-IfWorked n w = counted_in-IfWorked n _ λ h.
      let dropped : World = record_call add_drop (record_call delete_drop w) in
      let table : ℕ = table_of kernel ext_iface dropped in
      let rules : List Call = rule_calls new (tethering_rule int_iface table) in
      record {
        before = w.calls;
        table = table;
        recorded =
            Trace-complete _ _ (tethering-Trace dropped) h
            ∙ ap (λ c. c ++ rules) (calls-looked_up kernel ext_iface dropped)
            ∙ append_assoc (w.calls ++ delete_drop ∷ []) (add_drop ∷ []) rules
            ∙ append_assoc w.calls (delete_drop ∷ []) (add_drop ∷ rules);
      }

  forwarded-IfWorked :
      (out : Bool × (Nat × World)) → IfWorked (forwarded kernel int_iface ext_iface out)
  forwarded-IfWorked (true, (n, w)) = finish-IfWorked n w
  forwarded-IfWorked (false, s) = tt

  enabled-IfWorked :
      (out : Bool × (Nat × World)) → IfWorked (enabled kernel int_iface ext_iface out)
  enabled-IfWorked (true, s) = forwarded-IfWorked (add_forward_rules kernel int_iface ext_iface s)
  enabled-IfWorked (false, s) = tt

  worked :
      (out : Result (Unit {0}) × (Nat × World)) → IfWorked out → IsOk out.0 → EndsWithDrop out.1.1
  worked (ok a, s) h k = h
  worked (err e, s) h k = absurd k

  enable_nat-IfWorked : (s : Nat × World) → IfWorked (enable_nat kernel int_iface ext_iface s)
  unfolding enable_nat
  enable_nat-IfWorked s =
      if_cases IfWorked (not (is_iface_name int_iface) || not (is_iface_name ext_iface)) (λ _. tt)
        λ _.
          if_cases IfWorked (str_eq int_iface ext_iface) (λ _. tt)
            λ _. enabled-IfWorked (masqueraded kernel ext_iface s)

  -- If address translation was enabled for a pair, the last commands are the removal of the
  -- chain's drop rule and its addition anew, at the end of the chain; after them only the
  -- tethering rule was asked for, for both families.
  pub enable_nat-EndsWithDrop :
      (s : Nat × World)
      → IsOk (enable_nat kernel int_iface ext_iface s).0
      → EndsWithDrop (enable_nat kernel int_iface ext_iface s).1.1
  enable_nat-EndsWithDrop s h =
      worked (enable_nat kernel int_iface ext_iface s) (enable_nat-IfWorked s) h
