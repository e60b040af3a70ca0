-- ===== src/Controller/Sharing.antt =====
-- server/NetworkController.cpp: choosing, creating and destroying networks gives no network an
-- interface.
use platform_system_netd.Prelude.{
  ℕ, ◌≡◌, refl, Bool, true, not, ◌&&◌, ◌||◌, leb, Option, none, some, if_cases, ◌==◌,
}
use platform_system_netd.Containers.{number_key, string_key, contains}
use platform_system_netd.Kernel.{Kernel, Result, Exec}
use platform_system_netd.Kernel.Gives.{Gives, Gives-mono}
use platform_system_netd.Network.{
  Network, local, physical, virtual, new_physical, new_virtual, has_interface, clear_interfaces,
}
use platform_system_netd.Network.Members.{
  Within, set_permission-Within, add_as_default-Within, remove_as_default-Within,
}
use platform_system_netd.Controller.State.{
  Controller, System, return, fail, exec, ◌>>=◌, put, put_network, set_default,
}
use platform_system_netd.Controller.Queries.{get_network, is_valid_network}
use platform_system_netd.Controller.Commands.{
  update_with, delegate, make_default, unmake_default, add_default_step, remove_default_step,
  set_default_network, create_physical_network, create_virtual_network, destroy_found,
  destroy_if_found, destroy_network, modify_fallthrough_locked,
}
use platform_system_netd.Controller.Invariant.{
  Outcome, resume-Outcome, exec-Outcome, either-Outcome, update_with-Outcome,
}
use platform_system_netd.Controller.Holders.{
  Fewer, Fewer-trans, put-Fewer, replace-Fewer, erase-Fewer, not_both,
}

-- After a command, no network has more interfaces than in an earlier state.
abbrev pub FewerAfter : Controller → {A : Type 0} → Result A × System → Type 0
FewerAfter c = Outcome (Fewer c) (Fewer c)

module _ (c : Controller) where
  pub update-Fewer :
      {A : Type 0} (id : ℕ) (f : A → Network) (n : A) (m : Exec A) (s : System)
      → Fewer c s.controller
      → get_network s.controller id ≡ some (f n)
      → Gives (Within f n) m
      → FewerAfter c (update_with id f m s)
  update-Fewer id f n m s h e g = update_with-Outcome (Fewer c) (Fewer c) id f m s h (
      Gives-mono m
        (λ a w.
          Fewer-trans c s.controller (put id (f a) s.controller) h
            (replace-Fewer s.controller id (f a) (f n) e w))
        g)

  module _ (kernel : Kernel) where
    make_default-Fewer :
        (id : ℕ) (o : Option Network) (s : System)
        → Fewer c s.controller
        → get_network s.controller id ≡ o
        → FewerAfter c (make_default kernel id o s)
    unfolding fail
    make_default-Fewer id none s h e = h
    make_default-Fewer id (some (physical n)) s h e =
        update-Fewer id physical n _ s h e
          (add_as_default-Within kernel (delegate kernel s.controller) n)
    make_default-Fewer id (some (local n)) s h e = h
    make_default-Fewer id (some (virtual n)) s h e = h

    unmake_default-Fewer :
        (id : ℕ) (o : Option Network) (s : System)
        → Fewer c s.controller
        → get_network s.controller id ≡ o
        → FewerAfter c (unmake_default kernel id o s)
    unfolding fail
    unmake_default-Fewer id none s h e = h
    unmake_default-Fewer id (some (physical n)) s h e =
        update-Fewer id physical n _ s h e
          (remove_as_default-Within kernel (delegate kernel s.controller) n)
    unmake_default-Fewer id (some (local n)) s h e = h
    unmake_default-Fewer id (some (virtual n)) s h e = h

    add_step-Fewer :
        (id : ℕ) (s : System) → Fewer c s.controller → FewerAfter c (add_default_step kernel id s)
    unfolding return
    add_step-Fewer id s h =
        if_cases (FewerAfter c) (id == 0) (λ _. h) (λ _. make_default-Fewer id _ s h refl)

    remove_step-Fewer :
        (s : System) → Fewer c s.controller → FewerAfter c (remove_default_step kernel s)
    unfolding return
    remove_step-Fewer s h =
        if_cases (FewerAfter c) (s.controller.default_net_id == 0) (λ _. h)
          (λ _. unmake_default-Fewer s.controller.default_net_id _ s h refl)

    pub set_default_network-Fewer :
        (id : ℕ) (s : System)
        → Fewer c s.controller
        → FewerAfter c (set_default_network kernel id s)
    unfolding set_default_network return ◌>>=◌ set_default
    set_default_network-Fewer id s h =
        if_cases (FewerAfter c) (id == s.controller.default_net_id) (λ _. h)
          λ _. resume-Outcome (Fewer c) (Fewer c) (Fewer c) _ _ (add_step-Fewer id s h) λ _ s₁ h₁.
            resume-Outcome (Fewer c) (Fewer c) (Fewer c) _ _ (remove_step-Fewer s₁ h₁)
              λ _ s₂ h₂. record { before = h₂.before }

    pub create_physical_network-Fewer :
        (id permission : ℕ) (s : System)
        → Fewer c s.controller
        → FewerAfter c (create_physical_network kernel id permission s)
    unfolding create_physical_network fail has_interface contains
    create_physical_network-Fewer id permission s h =
        if_cases (FewerAfter c) (not (leb 100 id && leb id 65535 || leb 1 id && leb id 50)) (λ _. h)
          λ _.
            if_cases (FewerAfter c) (is_valid_network s.controller id) (λ _. h)
              λ _. update_with-Outcome (Fewer c) (Fewer c) id physical _ s h (
                Gives-mono _
                  (λ a w.
                    Fewer-trans c s.controller (put id (physical a) s.controller) h
                      (put-Fewer s.controller id (physical a) (λ x e. not_both (w x e))))
                  (set_permission-Within kernel (delegate kernel s.controller) permission
                    (new_physical id)))

    pub create_virtual_network-Fewer :
        (id : ℕ) (has_dns secure : Bool) (s : System)
        → Fewer c s.controller
        → FewerAfter c (create_virtual_network kernel id has_dns secure s)
    unfolding create_virtual_network fail ◌>>=◌ exec put_network has_interface contains
    create_virtual_network-Fewer id has_dns secure s h =
        if_cases (FewerAfter c) (not (leb 100 id && leb id 65535)) (λ _. h)
          λ _.
            if_cases (FewerAfter c) (is_valid_network s.controller id) (λ _. h)
              λ _.
                resume-Outcome (Fewer c) (Fewer c) (Fewer c) _
                  (exec (modify_fallthrough_locked kernel s.controller id true) s)
                  (exec-Outcome (Fewer c) (Fewer c)
                    (modify_fallthrough_locked kernel s.controller id true) s h h)
                  λ _ s₁ h₁.
                    Fewer-trans c s₁.controller
                      (put id (virtual (new_virtual id has_dns secure)) s₁.controller) h₁
                      (put-Fewer s₁.controller id (virtual (new_virtual id has_dns secure))
                        (λ x e. not_both e))

    destroy_found-Fewer :
        (id : ℕ) (n : Network) (s : System)
        → Fewer c s.controller
        → FewerAfter c (destroy_found kernel id n s)
    destroy_found-Fewer id n s h =
        let (out, w) = clear_interfaces kernel (delegate kernel s.controller) n s.world in
        either-Outcome (Fewer c) _ _
          (Fewer-trans c s.controller _ h (erase-Fewer s.controller id out.1 _ refl))

    destroy_if_found-Fewer :
        (id : ℕ) (o : Option Network) (s : System)
        → Fewer c s.controller
        → FewerAfter c (destroy_if_found kernel id o s)
    unfolding fail
    destroy_if_found-Fewer id none s h = h
    destroy_if_found-Fewer id (some n) s h = destroy_found-Fewer id n s h

    pub destroy_network-Fewer :
        (id : ℕ) (s : System) → Fewer c s.controller → FewerAfter c (destroy_network kernel id s)
    unfolding destroy_network fail
    destroy_network-Fewer id s h =
        if_cases (FewerAfter c) (id == 99) (λ _. h) (λ _. destroy_if_found-Fewer id _ s h)
