-- ===== src/FwmarkServer/Privileges.antt =====
-- What a client of the fwmark server cannot get for a socket.
use platform_system_netd.Prelude.{
  ℕ, ◌≡◌, ◌⊎◌, inl, inr, refl, sym, subst, ◌∙◌, true, not, ◌%◌, ◌^◌, arith, Bool-cases, if_cases,
  ◌==◌,
}
use platform_system_netd.Containers.{number_key}
use platform_system_netd.Fwmark.{Fwmark, grants, permission_system}
use platform_system_netd.Network.Identity.{Class, is_local, is_physical, is_virtual}
use platform_system_netd.Controller.State.{Controller}
use platform_system_netd.Controller.Queries.{
  Access, granted, refused, undefined, get_permission_for_user, can_protect,
}
use platform_system_netd.Controller.Invariant.{IsId, IsWellFormed}
use platform_system_netd.Controller.Access.{IsSystem, MayUse, access_iff}
use platform_system_netd.FwmarkServer.{
  FwmarkCommand, on_accept, on_connect, select_network, protect_from_vpn, select_for_user, unknown,
  Decision, mark, reject, fault, accept, connect, connect_net_id, selected, select, protect,
  protect_net_id, select_user, decide,
}

abbrev pub IfMarked : (Fwmark → Type 0) → Decision → Type 0
IfMarked P (mark f) = P f
IfMarked P (reject e) = Unit
IfMarked P fault = Unit

pub IfMarked-at :
    (P : Fwmark → Type 0) (d : Decision) (f : Fwmark) → d ≡ mark f → IfMarked P d → P f
IfMarked-at P d f e h = subst (IfMarked P) e h

id_bound : (k : Class) (id : ℕ) → IsId k id → id % 2 ^ 16 ≡ id
id_bound is_local id h = omega arith
id_bound is_physical id h = omega arith
id_bound is_virtual id h = omega arith

module _ (c : Controller) (uid : ℕ) (f : Fwmark) where
  connect_flags :
      ((connect_net_id c uid f).explicitly_selected ≡ f.explicitly_selected)
      × ((connect_net_id c uid f).protected_from_vpn ≡ f.protected_from_vpn)
  connect_flags = ground arith

  protect_flags : (protect_net_id c uid f).explicitly_selected ≡ f.explicitly_selected
  protect_flags = ground arith

  -- Where the protection from VPNs can come from.
  abbrev pub Protected : Fwmark → Type 0
  Protected f' =
      f'.protected_from_vpn ≡ true → (f.protected_from_vpn ≡ true) ⊎ (can_protect c uid ≡ true)

  selected-Protected : (id : ℕ) (a : Access) → IfMarked Protected (selected c uid id f a)
  selected-Protected id granted = λ h. inr h
  selected-Protected id (refused e) = tt
  selected-Protected id undefined = tt

  decide-Protected : (command : FwmarkCommand) → IfMarked Protected (decide c uid command f)
  unfolding accept connect select protect select_user can_protect
  decide-Protected on_accept = λ h. inl h
  decide-Protected on_connect = λ h. inl (sym connect_flags.1 ∙ h)
  decide-Protected (select_network id) =
      if_cases (IfMarked Protected) (id == 0) (λ _ h. ground arith) (λ _. selected-Protected id _)
  decide-Protected protect_from_vpn =
      if_cases (IfMarked Protected) (not (can_protect c uid)) (λ _. tt) (λ h _. inr (ground arith))
  decide-Protected (select_for_user user) =
      if_cases (IfMarked Protected) (not (grants (get_permission_for_user c uid) permission_system))
        (λ _. tt) (λ h _. inr (ground arith))
  decide-Protected unknown = tt

  -- Where the explicit choice of a network can come from.
  abbrev pub Chosen : Fwmark → Type 0
  Chosen f' =
      f'.explicitly_selected ≡ true
      → ((f.explicitly_selected ≡ true) × (f'.net_id ≡ f.net_id))
        ⊎ (MayUse c uid f'.net_id ⊎ IsSystem c uid)

module _ (c : Controller) (v : IsWellFormed c) (uid : ℕ) (f : Fwmark) where
  connect-Chosen : IfMarked (Chosen c uid f) (connect c uid f)
  unfolding connect
  connect-Chosen explicit = elim (Bool-cases f.explicitly_selected) [
    | inl chosen ↦ inl (chosen, rw chosen refl)
    | inr free ↦ cc (explicit, (connect_flags c uid f).0, free)
  ]

  selected-Chosen :
      (id : ℕ) (a : Access)
      → (a ≡ granted → MayUse c uid id)
      → IfMarked (Chosen c uid f) (selected c uid id f a)
  selected-Chosen id granted h = λ _.
      let m : MayUse c uid id = h refl in
      inr (inl (subst (MayUse c uid) (sym (id_bound _ id (v.ids id m.network m.exists).0)) m))
  selected-Chosen id (refused e) h = tt
  selected-Chosen id undefined h = tt

  select-Chosen : (id : ℕ) → IfMarked (Chosen c uid f) (select c uid id f)
  unfolding select
  select-Chosen id =
      if_cases (IfMarked (Chosen c uid f)) (id == 0) (λ _ explicit. ground arith)
        λ _. selected-Chosen id _ (λ h. (access_iff c uid id).0 h)

  protect-Chosen : IfMarked (Chosen c uid f) (protect c uid f)
  unfolding protect
  protect-Chosen =
      if_cases (IfMarked (Chosen c uid f)) (not (can_protect c uid)) (λ _. tt)
        λ _ explicit.
          let chosen : f.explicitly_selected ≡ true = sym (protect_flags c uid f) ∙ explicit in
          inl (chosen, rw chosen refl)

  select_user-Chosen : (user : ℕ) → IfMarked (Chosen c uid f) (select_user c uid user f)
  unfolding select_user
  select_user-Chosen user =
      if_cases (IfMarked (Chosen c uid f))
        (not (grants (get_permission_for_user c uid) permission_system)) (λ _. tt)
        λ system _. inr (inr (ground arith))

  decide-Chosen : (command : FwmarkCommand) → IfMarked (Chosen c uid f) (decide c uid command f)
  unfolding accept
  decide-Chosen on_accept = λ explicit. inl (explicit, refl)
  decide-Chosen on_connect = connect-Chosen
  decide-Chosen (select_network id) = select-Chosen id
  decide-Chosen protect_from_vpn = protect-Chosen
  decide-Chosen (select_for_user user) = select_user-Chosen user
  decide-Chosen unknown = tt

module _ (c : Controller) (uid : ℕ) (command : FwmarkCommand) (f f' : Fwmark) where
  -- If a command of the server gives a mark with an explicitly selected network, in a well-formed
  -- controller, then the socket had that network explicitly selected before, or the user may use
  -- it, or the user holds the permission of the system.
  pub explicit_choice_is_allowed :
      IsWellFormed c
      → decide c uid command f ≡ mark f'
      → f'.explicitly_selected ≡ true
      → ((f.explicitly_selected ≡ true) × (f'.net_id ≡ f.net_id))
        ⊎ (MayUse c uid f'.net_id ⊎ IsSystem c uid)
  explicit_choice_is_allowed v e =
      IfMarked-at (Chosen c uid f) _ f' e (decide-Chosen c v uid f command)

  -- If a command gives a mark that is protected from VPNs, then the socket's mark was so before,
  -- or the user can protect sockets.
  pub protection_is_allowed :
      decide c uid command f ≡ mark f'
      → f'.protected_from_vpn ≡ true
      → (f.protected_from_vpn ≡ true) ⊎ (can_protect c uid ≡ true)
  protection_is_allowed e =
      IfMarked-at (Protected c uid f) _ f' e (decide-Protected c uid f command)
