-- ===== src/Route/Membership.antt =====
-- An interface joins a physical network and leaves it: the rules that are then in force.
use platform_system_netd.Prelude.{ℕ, refl, sym, subst, true, false, List, All, String}
use platform_system_netd.Kernel.{
  Kernel, Action, new, del, Family, Rule, World, Result, ok, err, Ret, continue, ◌>>=◌, ◌>>◌,
}
use platform_system_netd.Kernel.Issues.{IsOk, then-IsOk}
use platform_system_netd.Route.Tables.{update_table_names_file}
use platform_system_netd.Route.Networks.{
  modify_physical_network, flush_routes, add_interface_to_physical_network,
  remove_interface_from_physical_network,
}
use platform_system_netd.Route.Installed.{InForce, Withdrawn, AllLast, AllLast-Spares}
use platform_system_netd.Route.Lookups.{table_of}
use platform_system_netd.Route.Physical.{physical_rules, physical_network-AllLast}
use platform_system_netd.Route.Flush.{IsQuiet, IsQuiet-trans, flush_routes-IsQuiet}

update_table_names_file-IsQuiet : (w : World) → IsQuiet w (update_table_names_file w).1
unfolding update_table_names_file
update_table_names_file-IsQuiet w = record {
  more = _;
  recorded = refl;
  spares = λ action. ((λ family rule e. cc), tt);
}

continue-IsQuiet :
    (n : Ret)
    → ((v : World) → IsQuiet v (n v).1)
    → (u : World) (out : Result (Unit {0}) × World) → IsQuiet u out.1
    → IsQuiet u (continue (λ _. n) out).1
continue-IsQuiet n h u (ok a, w) q = IsQuiet-trans u w (n w).1 q (h w)
continue-IsQuiet n h u (err e, w) q = q

flush_and_name-IsQuiet :
    (kernel : Kernel) (interface : String) (w : World)
    → IsQuiet w ((flush_routes kernel interface >> update_table_names_file) w).1
unfolding ◌>>=◌
flush_and_name-IsQuiet kernel interface w =
    continue-IsQuiet update_table_names_file update_table_names_file-IsQuiet w _
      (flush_routes-IsQuiet kernel interface w)

module _ (kernel : Kernel) (net_id : ℕ) (interface : String) (permission : ℕ) (w : World) where
  abbrev rules : List Rule
  rules = physical_rules net_id interface permission (table_of kernel interface w)

  AllLast-quiet :
      (action : Action) (u v : World)
      → AllLast action rules u.calls
      → IsQuiet u v
      → AllLast action rules v.calls
  AllLast-quiet action u v h q =
      subst (AllLast action rules) (sym q.recorded)
        (AllLast-Spares action rules u.calls q.more h (q.spares action))

  -- If the interface was added without an error, the three rules of the network for it are in
  -- force, for both families, as the last that was asked about them.
  pub add_interface_to_physical_network-InForce :
      let out = add_interface_to_physical_network kernel net_id interface permission w in
      IsOk out.0 → All (λ rule. (family : Family) → InForce family rule out.1.calls) rules
  unfolding add_interface_to_physical_network
  add_interface_to_physical_network-InForce h =
      let (done, runs) =
        then-IsOk update_table_names_file
          (modify_physical_network kernel net_id interface permission true) w h in
      rw runs (
        AllLast-quiet new _ _
          (physical_network-AllLast kernel net_id interface permission true w done)
          (update_table_names_file-IsQuiet _))

  -- If the interface was removed without an error, the same three rules are withdrawn.
  pub remove_interface_from_physical_network-Withdrawn :
      let out = remove_interface_from_physical_network kernel net_id interface permission w in
      IsOk out.0 → All (λ rule. (family : Family) → Withdrawn family rule out.1.calls) rules
  unfolding remove_interface_from_physical_network
  remove_interface_from_physical_network-Withdrawn h =
      let (done, runs) =
        then-IsOk (flush_routes kernel interface >> update_table_names_file)
          (modify_physical_network kernel net_id interface permission false) w h in
      rw runs (
        AllLast-quiet del _ _
          (physical_network-AllLast kernel net_id interface permission false w done)
          (flush_and_name-IsQuiet kernel interface _))
