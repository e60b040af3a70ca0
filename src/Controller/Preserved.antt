-- ===== src/Controller/Preserved.antt =====
-- Every command keeps the controller well formed, on every branch, whatever the kernel answers.
use platform_system_netd.Prelude.{
  ℕ, ◌≡◌, inl, inr, refl, Option, none, some, ==_iff, if_cases, ◌==◌,
}
use platform_system_netd.Containers.{number_key}
use platform_system_netd.Kernel.{Kernel, Result, Exec}
use platform_system_netd.Kernel.Gives.{Gives, Gives-mono}
use platform_system_netd.Network.{Network, local, physical, virtual}
use platform_system_netd.Network.Identity.{Same, add_as_default-Same, remove_as_default-Same}
use platform_system_netd.Controller.State.{Controller, System, return, fail, ◌>>=◌, set_default}
use platform_system_netd.Controller.Queries.{get_network}
use platform_system_netd.Controller.Commands.{
  update_with, delegate, make_default, unmake_default, add_default_step, remove_default_step,
  set_default_network,
}
use platform_system_netd.Controller.Invariant.{
  CanBeDefault, IsWellFormed, Outcome, resume-Outcome, put-IsWellFormed, put-CanBeDefault,
  put-physical, update_with-Outcome,
}

-- After a command, well formed, whether it returned or failed.
abbrev pub KeepsIt : {A : Type 0} → Result A × System → Type 0
KeepsIt = Outcome IsWellFormed IsWellFormed

abbrev AndDefault : ℕ → Controller → Type 0
AndDefault id c = IsWellFormed c × CanBeDefault c id

pub update-KeepsIt :
    {A : Type 0} (id : ℕ) (f : A → Network) (n : A) (m : Exec A) (s : System)
    → IsWellFormed s.controller
    → get_network s.controller id ≡ some (f n)
    → Gives (Same f n) m
    → KeepsIt (update_with id f m s)
update-KeepsIt id f n m s v e g =
    update_with-Outcome IsWellFormed IsWellFormed id f m s v
      (Gives-mono m (λ a same. put-IsWellFormed s.controller id (f n) (f a) e same v) g)

module _ (kernel : Kernel) where
  make_default-Outcome :
      (id : ℕ) (o : Option Network) (s : System)
      → IsWellFormed s.controller
      → get_network s.controller id ≡ o
      → Outcome (AndDefault id) IsWellFormed (make_default kernel id o s)
  unfolding fail
  make_default-Outcome id none s v e = v
  make_default-Outcome id (some (physical n)) s v e =
      update_with-Outcome (AndDefault id) IsWellFormed id physical _ s v (
        Gives-mono _
          (λ a same. (
            put-IsWellFormed s.controller id (physical n) (physical a) e same v,
            inr (put-physical s.controller id (physical n) (physical a) e same id n e),
          ))
          (add_as_default-Same kernel (delegate kernel s.controller) n))
  make_default-Outcome id (some (local n)) s v e = v
  make_default-Outcome id (some (virtual n)) s v e = v

  unmake_default-Outcome :
      (id old : ℕ) (o : Option Network) (s : System)
      → AndDefault id s.controller
      → get_network s.controller old ≡ o
      → Outcome (AndDefault id) IsWellFormed (unmake_default kernel old o s)
  unfolding fail
  unmake_default-Outcome id old none s v e = v.0
  unmake_default-Outcome id old (some (physical n)) s v e =
      update_with-Outcome (AndDefault id) IsWellFormed old physical _ s v.0 (
        Gives-mono _
          (λ a same. (
            put-IsWellFormed s.controller old (physical n) (physical a) e same v.0,
            put-CanBeDefault s.controller old (physical n) (physical a) e same id v.1,
          ))
          (remove_as_default-Same kernel (delegate kernel s.controller) n))
  unmake_default-Outcome id old (some (local n)) s v e = v.0
  unmake_default-Outcome id old (some (virtual n)) s v e = v.0

  add_default_step-Outcome :
      (id : ℕ) (s : System)
      → IsWellFormed s.controller
      → Outcome (AndDefault id) IsWellFormed (add_default_step kernel id s)
  unfolding return
  add_default_step-Outcome id s v =
      if_cases (Outcome (AndDefault id) IsWellFormed) (id == 0)
        (λ unset. (v, inl ((==_iff id 0).0 unset))) (λ _. make_default-Outcome id _ s v refl)

  remove_default_step-Outcome :
      (id : ℕ) (s : System)
      → AndDefault id s.controller
      → Outcome (AndDefault id) IsWellFormed (remove_default_step kernel s)
  unfolding return
  remove_default_step-Outcome id s v =
      if_cases (Outcome (AndDefault id) IsWellFormed) (s.controller.default_net_id == 0) (λ _. v)
        (λ _. unmake_default-Outcome id s.controller.default_net_id _ s v refl)

  set_default-Outcome :
      (id : ℕ) (s : System) → AndDefault id s.controller → KeepsIt (set_default id s)
  unfolding set_default
  set_default-Outcome id s (v, d) = record {
    local_stays = v.local_stays;
    default_is_physical = d;
    ids = v.ids;
    ascending = v.ascending;
  }

  -- Choosing a default network, also where the kernel refuses a rule half way.
  pub set_default_network-KeepsIt :
      (id : ℕ) (s : System) → IsWellFormed s.controller → KeepsIt (set_default_network kernel id s)
  unfolding set_default_network return ◌>>=◌
  set_default_network-KeepsIt id s v =
      if_cases KeepsIt (id == s.controller.default_net_id) (λ _. v)
        λ _.
          resume-Outcome (AndDefault id) IsWellFormed IsWellFormed _ _
            (add_default_step-Outcome id s v)
            λ _ s₁ v₁.
              resume-Outcome (AndDefault id) IsWellFormed IsWellFormed _ _
                (remove_default_step-Outcome id s₁ v₁) λ _ s₂ v₂. set_default-Outcome id s₂ v₂
