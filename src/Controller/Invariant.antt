-- ===== src/Controller/Invariant.antt =====
-- What holds of a controller at all times: its local network, its default network and the ids.
use mathlib.Core.Option.{some-injective}
use platform_system_netd.Prelude.{
  ℕ, ◌≤◌, ◌≡◌, ◌⊎◌, inl, inr, sym, ap, subst, ◌∙◌, true, false, some, arith, ==_iff, Bool-cases,
  ◌==◌,
}
use platform_system_netd.Containers.{number_key, lookup-assign}
use platform_system_netd.Containers.Ascending.{IsAscending, assign-IsAscending}
use platform_system_netd.Kernel.{World, Result, ok, err, Exec}
use platform_system_netd.Network.{Network, Local, Physical, local, physical}
use platform_system_netd.Kernel.Gives.{IfOk, Gives}
use platform_system_netd.Network.Identity.{
  Class, is_local, is_physical, is_virtual, class, get_net_id, identity, local_of_class,
  physical_of_class,
}
use platform_system_netd.Controller.State.{
  Controller, System, Method, exec, resume, ◌>>=◌, put, put_network, local_net_id,
}
use platform_system_netd.Controller.Queries.{get_network}
use platform_system_netd.Controller.Commands.{update_with}

-- The ids that each class of networks may have.
abbrev pub IsId : Class → ℕ → Type 0
IsId is_local id = id ≡ 99
IsId is_physical id = ((100 ≤ id) × (id ≤ 65535)) ⊎ ((1 ≤ id) × (id ≤ 50))
IsId is_virtual id = (100 ≤ id) × (id ≤ 65535)

-- An id that may be the default network: none, or that of a physical network.
abbrev pub CanBeDefault : Controller → ℕ → Type 0
CanBeDefault c id = (id ≡ 0) ⊎ ((n : Physical) × (get_network c id ≡ some (physical n)))

pub record IsWellFormed (c : Controller) : Type 0 where
  pub local_stays : (n : Local) × (get_network c local_net_id ≡ some (local n))
  pub default_is_physical : CanBeDefault c c.default_net_id
  pub ascending : IsAscending c.networks
  pub ids :
      (id : ℕ) (n : Network) → get_network c id ≡ some n → IsId (class n) id × (get_net_id n ≡ id)

-- What holds after a method that returns, and after one that fails.
abbrev pub Outcome {ℓ} :
    {A : Type ℓ} → (Controller → Type 0) → (Controller → Type 0) → Result A × System → Type 0
Outcome Q R (ok a, s) = Q s.controller
Outcome Q R (err e, s) = R s.controller

module _ {ℓ κ} {A : Type ℓ} {B : Type κ} (P Q R : Controller → Type 0) where
  pub resume-Outcome :
      (f : A → Method B) (out : Result A × System)
      → Outcome P R out
      → ((a : A) (s : System) → P s.controller → Outcome Q R (f a s))
      → Outcome Q R (resume f out)
  resume-Outcome f (ok a, s) h k = k a s h
  resume-Outcome f (err e, s) h k = h

module _ {ℓ} {A : Type ℓ} where
  pub either-Outcome :
      (R : Controller → Type 0) (r : Result A) (s : System) → R s.controller → Outcome R R (r, s)
  either-Outcome R (ok a) s h = h
  either-Outcome R (err e) s h = h

  exec_result-Outcome :
      (P R : Controller → Type 0) (out : Result A × World) (s : System)
      → P s.controller
      → R s.controller
      → Outcome P R (out.0, record s { world = out.1 })
  exec_result-Outcome P R (ok a, w) s p r = p
  exec_result-Outcome P R (err e, w) s p r = r

  pub exec-Outcome :
      (P R : Controller → Type 0) (m : Exec A) (s : System)
      → P s.controller
      → R s.controller
      → Outcome P R (exec m s)
  unfolding exec
  exec-Outcome P R m s = exec_result-Outcome P R (m s.world) s

-- A network that is put in place of one of its class and id.
module _ (c : Controller) (id : ℕ) (n n' : Network) (e : get_network c id ≡ some n)
    (same : identity n' ≡ identity n) where
  get_network-put_same : get_network (put id n' c) id ≡ some n'
  get_network-put_same = rw lookup-assign (ground arith)

  get_network-put_other :
      (j : ℕ) → (id == j) ≡ false → get_network (put id n' c) j ≡ get_network c j
  get_network-put_other j h = rw (lookup-assign, h)

  replaced_class :
      (j : ℕ) (k : Network) → (id == j) ≡ true → get_network c j ≡ some k → class n' ≡ class k
  replaced_class j k h f = cc ((==_iff id j).0 h, e, f, ap (λ (t : Class × ℕ). t.0) same)

  pub put-local :
      (j : ℕ) (x : Local)
      → get_network c j ≡ some (local x)
      → (y : Local) × (get_network (put id n' c) j ≡ some (local y))
  put-local j x f = elim (Bool-cases (id == j)) [
    | inl here ↦
        (let (y, q) = local_of_class n' (replaced_class j (local x) here f) in
          (y, rw (lookup-assign, here, q)))
    | inr there ↦ (x, get_network-put_other j there ∙ f)
  ]

  pub put-physical :
      (j : ℕ) (x : Physical)
      → get_network c j ≡ some (physical x)
      → (y : Physical) × (get_network (put id n' c) j ≡ some (physical y))
  put-physical j x f = elim (Bool-cases (id == j)) [
    | inl here ↦
        (let (y, q) = physical_of_class n' (replaced_class j (physical x) here f) in
          (y, rw (lookup-assign, here, q)))
    | inr there ↦ (x, get_network-put_other j there ∙ f)
  ]

  pub put-CanBeDefault : (j : ℕ) → CanBeDefault c j → CanBeDefault (put id n' c) j
  put-CanBeDefault j (inl z) = inl z
  put-CanBeDefault j (inr (x, f)) = inr (put-physical j x f)

  put_ids :
      IsWellFormed c
      → (j : ℕ) (k : Network) → get_network (put id n' c) j ≡ some k
      → IsId (class k) j × (get_net_id k ≡ j)
  put_ids v j k f = elim (Bool-cases (id == j)) [
    | inl here ↦
        let at_id : id ≡ j = (==_iff id j).0 here in
        subst (λ i. IsId (class k) i × (get_net_id k ≡ i)) at_id
          (subst (λ x. IsId (class x) id × (get_net_id x ≡ id))
            (some-injective n' k (
              sym get_network-put_same
              ∙ subst (λ i. get_network (put id n' c) i ≡ some k) (sym at_id) f))
            (subst (λ (t : Class × ℕ). IsId t.0 id × (t.1 ≡ id)) (sym same) (v.ids id n e)))
    | inr there ↦ v.ids j k (sym (get_network-put_other j there) ∙ f)
  ]

  pub put-IsWellFormed : IsWellFormed c → IsWellFormed (put id n' c)
  put-IsWellFormed v = record {
    local_stays = put-local local_net_id v.local_stays.0 v.local_stays.1;
    default_is_physical = put-CanBeDefault c.default_net_id v.default_is_physical;
    ids = put_ids v;
    ascending = assign-IsAscending id n' c.networks v.ascending;
  }

-- A change of an object, also one that fails, ends in a controller with a property that both
-- outcomes have.
module _ {A : Type 0} (Q R : Controller → Type 0) (id : ℕ) (f : A → Network) where
  put_result-Outcome :
      (s : System) (out : Result A × World)
      → R s.controller
      → IfOk (λ a. Q (put id (f a) s.controller)) out.0
      → Outcome Q R (resume (λ a. put_network id (f a)) (out.0, record s { world = out.1 }))
  unfolding put_network
  put_result-Outcome s (ok a, w) r g = g
  put_result-Outcome s (err e, w) r g = r

  pub update_with-Outcome :
      (m : Exec A) (s : System)
      → R s.controller
      → Gives (λ a. Q (put id (f a) s.controller)) m
      → Outcome Q R (update_with id f m s)
  unfolding update_with ◌>>=◌ exec
  update_with-Outcome m s r g = put_result-Outcome s (m s.world) r (g.at s.world)
