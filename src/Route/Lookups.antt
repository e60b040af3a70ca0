-- ===== src/Route/Lookups.antt =====
-- The table lookup that stands before the requests of a change.
use platform_system_netd.Prelude.{ℕ, ◌≡◌, List, String, arith, ◌==◌, Bool-cases, inl, inr}
use platform_system_netd.Containers.{string_key}
use platform_system_netd.Kernel.{Kernel, World, Exec, Call, continue, raise, ◌>>=◌}
use platform_system_netd.Kernel.Issues.{Issues, Trace, Issues-raise}
use platform_system_netd.Kernel.Errno.{esrch}
use platform_system_netd.Route.Requests.{table_unspec}
use platform_system_netd.Route.Tables.{get_route_table_for_interface, found_or_esrch, require_table}

found_or_esrch-Trace {ℓ} :
    {A : Type ℓ} (plan : ℕ → List Call) (f : ℕ → Exec A)
    → ((table : ℕ) → Issues (plan table) (f table))
    → (found : ℕ × World) → Trace (plan found.0) found.1 (continue f (found_or_esrch found))
unfolding raise
found_or_esrch-Trace plan f h (table, w) = elim (Bool-cases (table == table_unspec)) [
  | inl missing ↦ rw missing ((Issues-raise (plan table) esrch).at w)
  | inr there ↦ rw there ((h table).at w)
]

module _ (kernel : Kernel) (interface : String) (w : World) where
  -- What the lookup finds, and the state that it leaves.
  abbrev pub table_of : ℕ
  table_of = (get_route_table_for_interface kernel interface w).0

  abbrev pub looked_up : World
  looked_up = (get_route_table_for_interface kernel interface w).1

  pub calls-looked_up : looked_up.calls ≡ w.calls
  unfolding get_route_table_for_interface
  calls-looked_up = ground arith

  pub require_table-Trace {ℓ} :
      {A : Type ℓ} (plan : ℕ → List Call) (f : ℕ → Exec A)
      → ((table : ℕ) → Issues (plan table) (f table))
      → Trace (plan table_of) looked_up ((require_table kernel interface >>= f) w)
  unfolding ◌>>=◌ require_table
  require_table-Trace plan f h =
      found_or_esrch-Trace plan f h (get_route_table_for_interface kernel interface w)
