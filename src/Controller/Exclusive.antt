-- ===== src/Controller/Exclusive.antt =====
-- server/NetworkController.cpp: an interface is in one network at most.
use platform_system_netd.Prelude.{
  ℕ, ◌≡◌, refl, sym, ap, subst, ◌∙◌, ◌⊎◌, inl, inr, true, false, not, ◌&&◌, Option, none, some,
  String, arith, ==_iff, Bool-cases, if_cases, ◌==◌, str_eq, str_eq_iff,
}
use platform_system_netd.Containers.{number_key, string_key, lookup, lookup-assign}
use platform_system_netd.Kernel.{Kernel, Result, ok, err}
use platform_system_netd.Kernel.Gives.{Gives-mono}
use platform_system_netd.Network.{Network, local, physical, virtual, has_interface}
use platform_system_netd.Network.Members.{
  WithinPlus, virtual_add_users-Within, virtual_remove_users-Within, add_interface-WithinPlus,
}
use platform_system_netd.Controller.State.{Controller, System, fail, put}
use platform_system_netd.Controller.Queries.{
  get_network, is_valid_network, get_network_for_interface,
}
use platform_system_netd.Controller.Commands.{
  delegate, add_to_found, add_interface_to_network, add_users_to_network, remove_users_from_network,
}
use platform_system_netd.Controller.Invariant.{IsWellFormed, Outcome, update_with-Outcome}
use platform_system_netd.Controller.Holders.{
  holds, Holds, IsExclusive, Fewer-refl, Fewer-IsExclusive, first-holds, not_both,
}
use platform_system_netd.Controller.Requests.{
  Request, choose_default, create_physical, create_virtual, destroy, attach, detach,
  permit_networks, permit_users, bind_users, unbind_users, allow, deny, handle,
}
use platform_system_netd.Controller.State.{initial}
use platform_system_netd.Controller.Sharing.{
  FewerAfter, set_default_network-Fewer, create_physical_network-Fewer,
  create_virtual_network-Fewer, destroy_network-Fewer,
}
use platform_system_netd.Controller.Assignment.{
  remove_interface_from_network-Fewer, set_permission_for_networks-Fewer, change_users-Fewer,
  users-Fewer, allow-Fewer, deny-Fewer,
}

abbrev ExclusiveAfter : {A : Type 0} → Result A × System → Type 0
ExclusiveAfter = Outcome IsExclusive IsExclusive

-- An id that has an interface is not 0.
module _ (c : Controller) (v : IsWellFormed c) where
  not_zero : (o : Option Network) (x : String) → get_network c 0 ≡ o → holds x o ≡ true → ⊥
  not_zero none x e h = not_both h
  not_zero (some (local n)) x e h = absurd (omega (arith, (v.ids 0 (local n) e).0))
  not_zero (some (physical n)) x e h = absurd (ground (arith, (v.ids 0 (physical n) e).0))
  not_zero (some (virtual n)) x e h = absurd (omega (arith, (v.ids 0 (virtual n) e).0.0))

  module _ (u : IsExclusive c) (id : ℕ) (interface : String)
      (guard : (not (get_network_for_interface c interface == 0)
          && not (get_network_for_interface c interface == id))
        ≡ false) where
    -- The guard of the code: no other network has the interface.
    no_other : (j : ℕ) → Holds c interface j → j ≡ id
    no_other j h =
        let first = first-holds interface c.networks j v.ascending h in
        let existing = get_network_for_interface c interface in
        elim (Bool-cases (existing == 0)) [
          | inl zero ↦ absurd (
              not_zero _ interface refl
                (subst (λ (i : ℕ). Holds c interface i) ((==_iff existing 0).0 zero) first))
          | inr other ↦
              let same : (existing == id) ≡ true = ground (arith, guard, other) in
              u.once interface j existing h first ∙ (==_iff existing id).0 same
        ]

    module _ (n k : Network) (e : get_network c id ≡ some n)
        (w : WithinPlus interface (λ (m : Network). m) n k) where
      abbrev Origin : String → ℕ → Type 0
      Origin x i = Holds c x i ⊎ ((x ≡ interface) × (i ≡ id))

      Origin-at : (x : String) → has_interface x k ≡ true → Origin x id
      Origin-at x h = elim (Bool-cases (str_eq interface x)) [
        | inl same ↦ inr (sym ((str_eq_iff interface x).0 same), refl)
        | inr other ↦ inl (ap (holds x) e ∙ ground (arith, w x h, other))
      ]

      origin : (x : String) (i : ℕ) → Holds (put id k c) x i → Origin x i
      origin x i h = elim (Bool-cases (id == i)) [
        | inl here ↦
            subst (Origin x) ((==_iff id i).0 here) (Origin-at x (rw (lookup-assign, here) at h))
        | inr there ↦ inl (rw (lookup-assign, there) at h)
      ]

      one : (x : String) (i j : ℕ) → Origin x i → Origin x j → i ≡ j
      one x i j (inl a) (inl b) = u.once x i j a b
      one x i j (inl a) (inr (p, q)) = no_other i (subst (λ (y : String). Holds c y i) p a) ∙ sym q
      one x i j (inr (p, q)) (inl b) =
          q ∙ sym (no_other j (subst (λ (y : String). Holds c y j) p b))
      one x i j (inr (p, q)) (inr (p', q')) = q ∙ sym q'

      added-IsExclusive : IsExclusive (put id k c)
      added-IsExclusive = record { once = λ x i j a b. one x i j (origin x i a) (origin x j b) }

module _ (kernel : Kernel) where
  add_to_found-Exclusive :
      (id : ℕ) (interface : String) (o : Option Network) (s : System)
      → IsWellFormed s.controller
      → IsExclusive s.controller
      → (not (get_network_for_interface s.controller interface == 0)
          && not (get_network_for_interface s.controller interface == id))
        ≡ false
      → get_network s.controller id ≡ o
      → ExclusiveAfter (add_to_found kernel id interface o s)
  unfolding fail
  add_to_found-Exclusive id interface none s v u guard e = u
  add_to_found-Exclusive id interface (some n) s v u guard e =
      update_with-Outcome IsExclusive IsExclusive id (λ k. k) _ s u
        (Gives-mono _ (λ k w. added-IsExclusive s.controller v u id interface guard n k e w)
          (add_interface-WithinPlus kernel (delegate kernel s.controller) interface n))

  add_interface_to_network-Exclusive :
      (id : ℕ) (interface : String) (s : System)
      → IsWellFormed s.controller
      → IsExclusive s.controller
      → ExclusiveAfter (add_interface_to_network kernel id interface s)
  unfolding add_interface_to_network fail
  add_interface_to_network-Exclusive id interface s v u =
      if_cases ExclusiveAfter (not (is_valid_network s.controller id)) (λ _. u)
        λ _.
          let existing : ℕ = get_network_for_interface s.controller interface in
          if_cases ExclusiveAfter (not (existing == 0) && not (existing == id)) (λ _. u)
            (λ guard. add_to_found-Exclusive id interface _ s v u guard refl)

  kept-IsExclusive :
      (s : System) (out : Result (Unit {0}) × System)
      → IsExclusive s.controller
      → FewerAfter s.controller out
      → IsExclusive out.1.controller
  kept-IsExclusive s (ok a, t) u f = Fewer-IsExclusive s.controller t.controller f u
  kept-IsExclusive s (err e, t) u f = Fewer-IsExclusive s.controller t.controller f u

  either : (out : Result (Unit {0}) × System) → ExclusiveAfter out → IsExclusive out.1.controller
  either (ok a, s) h = h
  either (err e, s) h = h

  -- Every request leaves each interface in one network at most.
  pub handle-IsExclusive :
      (r : Request) (s : System)
      → IsWellFormed s.controller
      → IsExclusive s.controller
      → IsExclusive (handle kernel r s).1.controller
  unfolding add_users_to_network remove_users_from_network
  handle-IsExclusive (choose_default id) s v u =
      kept-IsExclusive s _ u (set_default_network-Fewer _ kernel id s (Fewer-refl s.controller))
  handle-IsExclusive (create_physical id permission) s v u =
      kept-IsExclusive s _ u
        (create_physical_network-Fewer _ kernel id permission s (Fewer-refl s.controller))
  handle-IsExclusive (create_virtual id has_dns secure) s v u =
      kept-IsExclusive s _ u
        (create_virtual_network-Fewer _ kernel id has_dns secure s (Fewer-refl s.controller))
  handle-IsExclusive (destroy id) s v u =
      kept-IsExclusive s _ u (destroy_network-Fewer _ kernel id s (Fewer-refl s.controller))
  handle-IsExclusive (attach id interface) s v u =
      either _ (add_interface_to_network-Exclusive id interface s v u)
  handle-IsExclusive (detach id interface) s v u =
      kept-IsExclusive s _ u
        (remove_interface_from_network-Fewer _ kernel id interface s (Fewer-refl s.controller))
  handle-IsExclusive (permit_networks permission ids) s v u =
      kept-IsExclusive s _ u
        (set_permission_for_networks-Fewer _ kernel permission ids s (Fewer-refl s.controller))
  handle-IsExclusive (bind_users id ranges) s v u = kept-IsExclusive s _ u (
      change_users-Fewer _ kernel _ id _ s (virtual_add_users-Within kernel ranges)
        (Fewer-refl s.controller) refl)
  handle-IsExclusive (unbind_users id ranges) s v u = kept-IsExclusive s _ u (
      change_users-Fewer _ kernel _ id _ s (virtual_remove_users-Within kernel ranges)
        (Fewer-refl s.controller) refl)
  handle-IsExclusive (permit_users permission uids) s v u =
      Fewer-IsExclusive s.controller _
        (users-Fewer _ permission uids s.controller (Fewer-refl s.controller)) u
  handle-IsExclusive (allow uids) s v u =
      Fewer-IsExclusive s.controller _ (allow-Fewer _ uids s.controller (Fewer-refl s.controller)) u
  handle-IsExclusive (deny uids) s v u =
      Fewer-IsExclusive s.controller _ (deny-Fewer _ uids s.controller (Fewer-refl s.controller)) u

-- At the start only the local network is there.
only_local : (x : String) (i : ℕ) → Holds initial x i → i ≡ 99
unfolding lookup
only_local x i h = elim (Bool-cases (99 == i)) [
  | inl here ↦ sym ((==_iff 99 i).0 here)
  | inr there ↦ not_both (rw there at h)
]

pub initial-IsExclusive : IsExclusive initial
initial-IsExclusive = record { once = λ x i j h k. only_local x i h ∙ sym (only_local x j k) }
