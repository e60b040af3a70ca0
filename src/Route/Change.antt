-- ===== src/Route/Change.antt =====
-- A change of a network's permission: at every moment of it, all old rules of an interface are in
-- force or all new ones are.
use mathlib.Core.List.{head-eq_of_cons-eq, tail-eq_of_cons-eq}
use mathlib.Core.Path.{ap₂}
use platform_system_netd.Prelude.{
  ℕ, ◌%◌, ◌≡◌, ◌≢◌, ◌⊎◌, inl, inr, refl, sym, subst, ap, ◌∙◌, true, false, List, [], ◌∷◌, ◌++◌,
  append_assoc, All, String, arith,
}
use platform_system_netd.Fwmark.{int_value}
use platform_system_netd.Kernel.{Kernel, new, del, Family, Rule, Call, ip_rule, Result, World}
use platform_system_netd.Kernel.Issues.{IsOk, then-IsOk}
use platform_system_netd.Route.Requests.{invalid_uid, make_rule}
use platform_system_netd.Route.Networks.{
  modify_physical_network, modify_physical_network_permission,
}
use platform_system_netd.Route.Plans.{
  explicit_network_rule, output_interface_rule, implicit_network_rule,
}
use platform_system_netd.Route.Installed.{
  AllLast, Last-append, Spares, AllLast-Spares, AllLast-request_calls, request_calls,
  request_calls-Spares,
}
use platform_system_netd.Route.Lookups.{table_of}
use platform_system_netd.Route.Physical.{
  physical_rules, physical_calls, mark_calls, physical_network-calls,
}

abbrev Differs : Rule → List Rule → Type 0
Differs rule rules = All (λ other. other ≢ rule) rules

-- Rules of one interface for two permissions are different requests.
physical_rules-Differs :
    (net_id : ℕ) (interface : String) (p q table : ℕ)
    → p % 4 ≢ q % 4
    → All
        (λ rule. Differs rule (physical_rules net_id interface p table))
        (physical_rules net_id interface q table)
unfolding make_rule int_value
physical_rules-Differs net_id interface p q table h = (
  (explicit_differs, (other_kind (omega arith), (other_kind (omega arith), tt))),
  (
    (other_kind (omega arith), (output_differs, (other_kind (omega arith), tt))),
    ((other_kind (omega arith), (other_kind (omega arith), (implicit_differs, tt))), tt),
  ),
)
  where
    other_kind : {r s : Rule} → r.priority ≢ s.priority → r ≢ s
    other_kind apart e = apart (ap (λ (r : Rule). r.priority) e)

    explicit_differs :
        explicit_network_rule net_id table p invalid_uid invalid_uid
        ≢ explicit_network_rule net_id table q invalid_uid invalid_uid
    explicit_differs e = ground (arith, ap (λ (r : Rule). r.selector) e)

    output_differs :
        output_interface_rule interface table p invalid_uid invalid_uid
        ≢ output_interface_rule interface table q invalid_uid invalid_uid
    output_differs e = ground (arith, ap (λ (r : Rule). r.selector) e)

    implicit_differs : implicit_network_rule net_id table p ≢ implicit_network_rule net_id table q
    implicit_differs e = ground (arith, ap (λ (r : Rule). r.selector) e)

module _ {A : Type 0} where
  -- Where a list that is one of two parts in a row ends.
  cut :
      (done rest xs ys : List A)
      → done ++ rest ≡ xs ++ ys
      → ((m : List A) × (xs ≡ done ++ m)) ⊎ ((m : List A) × (done ≡ xs ++ m) × (m ++ rest ≡ ys))
  cut [] rest xs ys e = inl (xs, refl)
  cut (d ∷ done) rest [] ys e = inr (d ∷ done, refl, e)
  cut (d ∷ done) rest (x ∷ xs) ys e = elim (cut done rest xs ys (tail-eq_of_cons-eq e)) [
    | inl (m, p) ↦ inl (m, ap₂ ◌∷◌ (sym (head-eq_of_cons-eq e)) p)
    | inr (m, p, q) ↦ inr (m, ap₂ ◌∷◌ (head-eq_of_cons-eq e) p, q)
  ]

  append_cancel : (xs ys zs : List A) → xs ++ ys ≡ xs ++ zs → ys ≡ zs
  append_cancel [] ys zs e = e
  append_cancel (x ∷ xs) ys zs e = append_cancel xs ys zs (tail-eq_of_cons-eq e)

  All-prefix : (P : A → Type 0) (xs ys : List A) → All P (xs ++ ys) → All P xs
  All-prefix P [] ys h = tt
  All-prefix P (x ∷ xs) ys h = (h.0, All-prefix P xs ys h.1)

abbrev rule_in : Rule → Call → Rule
rule_in other (ip_rule action family rule) = rule
rule_in other c = other

abbrev Undeleted : Family → Rule → Call → Type 0
Undeleted family rule c = c ≢ ip_rule del family rule

deletions-Undeleted :
    (family : Family) (rule : Rule) (rules : List Rule)
    → Differs rule rules
    → All (Undeleted family rule) (request_calls del rules)
deletions-Undeleted family rule [] h = tt
deletions-Undeleted family rule (other ∷ rules) h = (
  (λ e. h.0 (ap (rule_in rule) e)),
  ((λ e. h.0 (ap (rule_in rule) e)), deletions-Undeleted family rule rules h.1),
)

undeleted-AllLast :
    (rules : List Rule) (calls more : List Call)
    → AllLast new rules calls
    → All (λ rule. (family : Family) → All (Undeleted family rule) more) rules
    → AllLast new rules (calls ++ more)
undeleted-AllLast [] calls more h k = tt
undeleted-AllLast (rule ∷ rules) calls more h k = (
  (λ family. Last-append new family rule calls more (h.0 family) (k.0 family)),
  undeleted-AllLast rules calls more h.1 k.1,
)

-- The start of a run of deletions, after the mark of the packets was changed.
started-Undeleted :
    (old rules : List Rule) (net_id : ℕ) (interface : String) (permission : ℕ) (m rest : List Call)
    → m ++ rest ≡ mark_calls net_id interface permission false ++ request_calls del old
    → All (λ rule. Differs rule old) rules
    → All (λ rule. (family : Family) → All (Undeleted family rule) m) rules
started-Undeleted old [] net_id interface permission m rest e h = tt
started-Undeleted old (rule ∷ rules) net_id interface permission m rest e h = (
  (λ family. All-prefix (Undeleted family rule) m rest (
      subst (All (Undeleted family rule)) (sym e)
        ((λ p. cc), ((λ p. cc), deletions-Undeleted family rule old h.0)))),
  started-Undeleted old rules net_id interface permission m rest e h.1,
)

module _ (kernel : Kernel) (net_id : ℕ) (interface : String) (old_permission new_permission : ℕ)
    (w : World) where
  abbrev table : ℕ
  table = table_of kernel interface w

  abbrev old_rules : List Rule
  old_rules = physical_rules net_id interface old_permission table

  abbrev new_rules : List Rule
  new_rules = physical_rules net_id interface new_permission table

  abbrev InForceAt : List Rule → List Call → Type 0
  InForceAt rules calls = AllLast new rules calls

  abbrev added : List Call
  added = physical_calls net_id interface new_permission true table

  abbrev deleted : List Call
  deleted = physical_calls net_id interface old_permission false table

  added-Spares : All (Spares new) added
  added-Spares =
      ((λ family rule e. cc), ((λ family rule e. cc), request_calls-Spares new new_rules))

  all_added : InForceAt new_rules (w.calls ++ added)
  all_added =
      subst (InForceAt new_rules)
        (append_assoc w.calls (mark_calls net_id interface new_permission true) _)
        (AllLast-request_calls new new_rules _)

  moment :
      (done rest : List Call)
      → new_permission % 4 ≢ old_permission % 4
      → InForceAt old_rules w.calls
      → done ++ rest ≡ added ++ deleted
      → InForceAt old_rules (w.calls ++ done) ⊎ InForceAt new_rules (w.calls ++ done)
  moment done rest differ before e = elim (cut done rest added deleted e) [
    | inl (m, p) ↦ inl (
        AllLast-Spares new old_rules w.calls done before
          (All-prefix (Spares new) done m (subst (All (Spares new)) p added-Spares)))
    | inr (m, p, q) ↦ inr (
        subst (λ c. InForceAt new_rules (w.calls ++ c)) (sym p)
          (subst (InForceAt new_rules) (append_assoc w.calls added m) (
            undeleted-AllLast new_rules (w.calls ++ added) m all_added (
              started-Undeleted old_rules new_rules net_id interface old_permission m rest q (
                physical_rules-Differs net_id interface old_permission new_permission table
                  (λ e. differ (sym e)))))))
  ]

  abbrev first : Result (Unit {0}) × World
  first = modify_physical_network kernel net_id interface new_permission true w

  changed_calls :
      table_of kernel interface first.1 ≡ table
      → IsOk
          (modify_physical_network_permission kernel net_id interface old_permission new_permission
            w).0
      → (modify_physical_network_permission kernel net_id interface old_permission new_permission
          w).1.calls
        ≡ w.calls ++ (added ++ deleted)
  unfolding modify_physical_network_permission
  changed_calls same h =
      let second = modify_physical_network kernel net_id interface old_permission false in
      let (done, runs) =
        then-IsOk second (modify_physical_network kernel net_id interface new_permission true) w
          h in
      ap (λ (out : Result (Unit {0}) × World). out.1.calls) runs
      ∙ physical_network-calls kernel net_id interface old_permission false first.1
          (subst (λ (out : Result (Unit {0}) × World). IsOk out.0) runs h)
      ∙ ap₂ ◌++◌ (physical_network-calls kernel net_id interface new_permission true w done)
          (ap (physical_calls net_id interface old_permission false) same)
      ∙ append_assoc w.calls added deleted

  -- While the permission of a network is changed and the change succeeds, whatever part of its
  -- requests has been made, the interface's three rules are all in force with the old permission
  -- or all in force with the new one. The permissions must differ, the old rules must be in force
  -- before, and the interface must keep its table number between the two steps.
  pub permission_change_has_no_gap :
      (done rest : List Call)
      → new_permission % 4 ≢ old_permission % 4
      → table_of kernel interface first.1 ≡ table
      → InForceAt old_rules w.calls
      → IsOk
          (modify_physical_network_permission kernel net_id interface old_permission new_permission
            w).0
      → (modify_physical_network_permission kernel net_id interface old_permission new_permission
          w).1.calls
        ≡ w.calls ++ (done ++ rest)
      → InForceAt old_rules (w.calls ++ done) ⊎ InForceAt new_rules (w.calls ++ done)
  permission_change_has_no_gap done rest differ same before h e =
      moment done rest differ before
        (append_cancel w.calls (done ++ rest) (added ++ deleted) (sym e ∙ changed_calls same h))
