-- ===== src/Controller/Creation.antt =====
-- Creating and destroying networks keeps the controller well formed.
use platform_system_netd.Prelude.{
  ℕ, ◌≡◌, inl, inr, refl, sym, ap, subst, ◌∙◌, Bool, true, false, not, ◌&&◌, ◌||◌, leb, Option,
  none, some, arith, ==_iff, Bool-cases, if_cases, ◌==◌, if◌then◌else◌,
}
use mathlib.Core.Option.{some-injective}
use platform_system_netd.Containers.{number_key, unassign, lookup-assign, lookup-unassign}
use platform_system_netd.Containers.Ascending.{assign-IsAscending, unassign-IsAscending}
use platform_system_netd.Kernel.{Kernel}
use platform_system_netd.Kernel.Gives.{Gives-mono}
use platform_system_netd.Network.{
  Network, physical, virtual, new_physical, new_virtual, clear_interfaces,
}
use platform_system_netd.Network.Identity.{
  Class, is_physical, is_virtual, class, get_net_id, set_permission-Same,
}
use platform_system_netd.Controller.State.{
  Controller, System, fail, exec, ◌>>=◌, put, put_network, local_net_id, min_net_id, max_net_id,
  min_oem_id, max_oem_id,
}
use platform_system_netd.Controller.Queries.{get_network, is_valid_network}
use platform_system_netd.Controller.Commands.{
  delegate, create_physical_network, create_virtual_network, destroy_found, destroy_if_found,
  destroy_network, modify_fallthrough_locked,
}
use platform_system_netd.Controller.Invariant.{
  IsId, CanBeDefault, IsWellFormed, resume-Outcome, exec-Outcome, either-Outcome, put-IsWellFormed,
  update_with-Outcome,
}
use platform_system_netd.Network.Clearing.{clear_interfaces-Same}
use platform_system_netd.Controller.Preserved.{KeepsIt}

invalid-none : (c : Controller) (id : ℕ) → is_valid_network c id ≡ false → get_network c id ≡ none
unfolding is_valid_network
invalid-none c id h = ground arith

-- A network under an id that was free.
module _ (c : Controller) (id : ℕ) (n : Network) (free : get_network c id ≡ none) where
  kept : (j : ℕ) (k : Network) → get_network c j ≡ some k → get_network (put id n c) j ≡ some k
  kept j k f = elim (Bool-cases (id == j)) [
    | inl here ↦ cc ((==_iff id j).0 here, free, f)
    | inr there ↦ rw (lookup-assign, there) f
  ]

  new_ids :
      IsWellFormed c
      → IsId (class n) id
      → get_net_id n ≡ id
      → (j : ℕ) (k : Network) → get_network (put id n c) j ≡ some k
      → IsId (class k) j × (get_net_id k ≡ j)
  new_ids v i same j k f = elim (Bool-cases (id == j)) [
    | inl here ↦
        let at_id : id ≡ j = (==_iff id j).0 here in
        let n_is_k : n ≡ k = some-injective n k (sym (rw (lookup-assign, here) refl) ∙ f) in
        subst (λ x. IsId (class x) j × (get_net_id x ≡ j)) n_is_k
          (subst (λ (m : ℕ). IsId (class n) m × (get_net_id n ≡ m)) at_id (i, same))
    | inr there ↦ v.ids j k (sym (rw (lookup-assign, there) refl) ∙ f)
  ]

  new-CanBeDefault : (j : ℕ) → CanBeDefault c j → CanBeDefault (put id n c) j
  new-CanBeDefault j (inl z) = inl z
  new-CanBeDefault j (inr (x, f)) = inr (x, kept j (physical x) f)

  put_new-IsWellFormed :
      IsWellFormed c → IsId (class n) id → get_net_id n ≡ id → IsWellFormed (put id n c)
  put_new-IsWellFormed v i same = record {
    local_stays = (v.local_stays.0, kept local_net_id _ v.local_stays.1);
    default_is_physical = new-CanBeDefault c.default_net_id v.default_is_physical;
    ids = new_ids v i same;
    ascending = assign-IsAscending id n c.networks v.ascending;
  }

-- The network under an id other than the local one's is gone.
module _ (c : Controller) (id : ℕ) (id_not_local : (id == local_net_id) ≡ false) where
  abbrev without : Controller
  without = record c {
    default_net_id = if c.default_net_id == id then 0 else c.default_net_id;
    networks = unassign id c.networks;
  }

  left : (j : ℕ) → (id == j) ≡ false → get_network without j ≡ get_network c j
  left j h = rw (lookup-unassign, h)

  gone : (j : ℕ) → (id == j) ≡ true → get_network without j ≡ none
  gone j h = rw (lookup-unassign, h)

  left-CanBeDefault : (j : ℕ) → (id == j) ≡ false → CanBeDefault c j → CanBeDefault without j
  left-CanBeDefault j h (inl z) = inl z
  left-CanBeDefault j h (inr (x, f)) = inr (x, left j h ∙ f)

  without-default : IsWellFormed c → CanBeDefault without without.default_net_id
  without-default v =
      if_cases (CanBeDefault without) (c.default_net_id == id) (λ _. inl refl)
        (λ other. left-CanBeDefault c.default_net_id (ground arith) v.default_is_physical)

  without_ids :
      IsWellFormed c
      → (j : ℕ) (k : Network) → get_network without j ≡ some k
      → IsId (class k) j × (get_net_id k ≡ j)
  without_ids v j k f = elim (Bool-cases (id == j)) [
    | inl here ↦ cc (gone j here, f)
    | inr there ↦ v.ids j k (sym (left j there) ∙ f)
  ]

  without-IsWellFormed : IsWellFormed c → IsWellFormed without
  without-IsWellFormed v = record {
    local_stays = (v.local_stays.0, left local_net_id id_not_local ∙ v.local_stays.1);
    default_is_physical = without-default v;
    ids = without_ids v;
    ascending = unassign-IsAscending id c.networks v.ascending;
  }

-- The range tests of the two methods that create networks.
physical_range :
    (id : ℕ)
    → not (leb min_net_id id && leb id max_net_id || leb min_oem_id id && leb id max_oem_id) ≡ false
    → IsId is_physical id
physical_range id h = ground arith

virtual_range : (id : ℕ) → not (leb min_net_id id && leb id max_net_id) ≡ false → IsId is_virtual id
virtual_range id h = ground arith

module _ (kernel : Kernel) where
  pub create_physical_network-KeepsIt :
      (id permission : ℕ) (s : System)
      → IsWellFormed s.controller
      → KeepsIt (create_physical_network kernel id permission s)
  unfolding create_physical_network fail
  create_physical_network-KeepsIt id permission s v =
      if_cases KeepsIt _ (λ _. v)
        λ in_range.
          if_cases KeepsIt _ (λ _. v)
            λ free. update_with-Outcome IsWellFormed IsWellFormed id physical _ s v (
              Gives-mono _
                (λ n same.
                  put_new-IsWellFormed s.controller id (physical n)
                    (invalid-none s.controller id free) v (physical_range id in_range)
                    (ap (λ (t : Class × ℕ). t.1) same))
                (set_permission-Same kernel (delegate kernel s.controller) permission
                  (new_physical id)))

  pub create_virtual_network-KeepsIt :
      (id : ℕ) (has_dns secure : Bool) (s : System)
      → IsWellFormed s.controller
      → KeepsIt (create_virtual_network kernel id has_dns secure s)
  unfolding create_virtual_network fail ◌>>=◌ exec put_network
  create_virtual_network-KeepsIt id has_dns secure s v =
      if_cases KeepsIt _ (λ _. v)
        λ in_range.
          if_cases KeepsIt _ (λ _. v)
            λ free.
              resume-Outcome
                (λ c. IsWellFormed (put id (virtual (new_virtual id has_dns secure)) c))
                IsWellFormed IsWellFormed _
                (exec (modify_fallthrough_locked kernel s.controller id true) s)
                (exec-Outcome
                  (λ c. IsWellFormed (put id (virtual (new_virtual id has_dns secure)) c))
                  IsWellFormed (modify_fallthrough_locked kernel s.controller id true) s
                  (put_new-IsWellFormed s.controller id (virtual (new_virtual id has_dns secure))
                    (invalid-none s.controller id free) v (virtual_range id in_range) refl)
                  v)
                λ _ s₁ v₁. v₁

  destroy_found-KeepsIt :
      (id : ℕ) (n : Network) (s : System)
      → (id == local_net_id) ≡ false
      → get_network s.controller id ≡ some n
      → IsWellFormed s.controller
      → KeepsIt (destroy_found kernel id n s)
  destroy_found-KeepsIt id n s not_local e v =
      let (out, w) = clear_interfaces kernel (delegate kernel s.controller) n s.world in
      either-Outcome IsWellFormed _ _ (
        without-IsWellFormed (put id out.1 s.controller) id not_local (
          put-IsWellFormed s.controller id n out.1 e
            (clear_interfaces-Same kernel (delegate kernel s.controller) n s.world) v))

  destroy_if_found-KeepsIt :
      (id : ℕ) (o : Option Network) (s : System)
      → (id == local_net_id) ≡ false
      → get_network s.controller id ≡ o
      → IsWellFormed s.controller
      → KeepsIt (destroy_if_found kernel id o s)
  unfolding fail
  destroy_if_found-KeepsIt id none s not_local e v = v
  destroy_if_found-KeepsIt id (some n) s not_local e v = destroy_found-KeepsIt id n s not_local e v

  pub destroy_network-KeepsIt :
      (id : ℕ) (s : System) → IsWellFormed s.controller → KeepsIt (destroy_network kernel id s)
  unfolding destroy_network fail
  destroy_network-KeepsIt id s v =
      if_cases KeepsIt (id == local_net_id) (λ _. v)
        (λ not_local. destroy_if_found-KeepsIt id _ s not_local refl v)
