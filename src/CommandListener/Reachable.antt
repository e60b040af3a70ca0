-- ===== src/CommandListener/Reachable.antt =====
-- The states that the texts of the network command lead to.
use platform_system_netd.Prelude.{ℕ, ◌≡◌, sym, ap, subst, ◌∙◌, refl, List, String}
use platform_system_netd.Kernel.{Kernel, World, Result, ok, err, Exec}
use platform_system_netd.Controller.State.{System, exec, initial}
use platform_system_netd.Controller.Invariant.{IsWellFormed}
use platform_system_netd.Controller.Requests.{
  handle, handle-KeepsIt, after-IsWellFormed, initial-IsWellFormed,
}
use platform_system_netd.Controller.Holders.{IsExclusive}
use platform_system_netd.Controller.Exclusive.{handle-IsExclusive, initial-IsExclusive}
use platform_system_netd.CommandListener.{Answer, report}
use platform_system_netd.CommandListener.Networks.{run_command}
use platform_system_netd.CommandListener.Outcome.{Refines, refused, requested, routed}
use platform_system_netd.CommandListener.Refinement.{run_command-IsRead}

-- The answer does not touch the state.
report_keeps :
    (message : String) (out : Result (Unit {0}) × System) → (report message out).1 ≡ out.1
report_keeps message (ok a, s) = refl
report_keeps message (err e, s) = refl

exec_keeps : (m : Exec (Unit {0})) (s : System) → (exec m s).1.controller ≡ s.controller
unfolding exec
exec_keeps m s = refl

-- What holds of the controller between two commands.
pub record IsSound (s : System) : Type 0 where
  pub well_formed : IsWellFormed s.controller
  pub exclusive : IsExclusive s.controller

IsSound-as : (s : System) (t : System) → t.controller ≡ s.controller → IsSound s → IsSound t
IsSound-as s t e v = record {
  well_formed = subst IsWellFormed (sym e) v.well_formed;
  exclusive = subst IsExclusive (sym e) v.exclusive;
}

module _ (width : ℕ) (kernel : Kernel) where
  -- Any number of commands, each with any arguments, from the start of the daemon.
  pub data Commanded : System → Type 0 where
    begun : (w : World) → Commanded (record { controller = initial; world = w })
    commanded :
        {s : System} (args : List String)
        → Commanded s
        → Commanded (run_command width kernel args s).1

  pub Refines-IsSound :
      (args : List String) (s : System) (out : Answer × System)
      → IsSound s
      → Refines width kernel args s out
      → IsSound out.1
  Refines-IsSound args s out v (refused message e) =
      IsSound-as s out.1 (ap (λ (o : Answer × System). o.1.controller) e) v
  Refines-IsSound args s out v (requested message r means checked e) =
      IsSound-as (handle kernel r s).1 out.1
        (ap (λ (o : Answer × System). o.1.controller) e
          ∙ ap (λ (t : System). t.controller) (report_keeps message (handle kernel r s)))
        (record {
          well_formed =
              after-IsWellFormed kernel (handle kernel r s)
                (handle-KeepsIt kernel r s v.well_formed);
          exclusive = handle-IsExclusive kernel r s v.well_formed v.exclusive;
        })
  Refines-IsSound args s out v (routed message add legacy uid net_id i d nexthop means bounds e) =
      IsSound-as s out.1
        (ap (λ (o : Answer × System). o.1.controller) e
          ∙ ap (λ (t : System). t.controller) (report_keeps message _)
          ∙ exec_keeps _ s)
        v

  -- Whatever texts of commands arrive one after another from the start of the daemon, and whatever
  -- the kernel answers: no interface is in two networks; the local network stays, the default
  -- network is none or a physical network, each network has the id it is found under, in the range
  -- of its class, and the ids ascend.
  pub Commanded-IsSound : (s : System) → Commanded s → IsSound s
  Commanded-IsSound s (begun w) = record {
    well_formed = initial-IsWellFormed kernel;
    exclusive = initial-IsExclusive;
  }
  Commanded-IsSound s (commanded {s = s₀} args h) =
      Refines-IsSound args s₀ _ (Commanded-IsSound s₀ h)
        (run_command-IsRead width kernel s₀ args).refines
