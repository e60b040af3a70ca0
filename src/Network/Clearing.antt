-- ===== src/Network/Clearing.antt =====
-- `Network::clearInterfaces`: what the loop over the interfaces leaves.
use platform_system_netd.Prelude.{
  ◌≡◌, refl, ap, ◌∙◌, inl, inr, false, not, ◌&&◌, List, [], ◌∷◌, String, arith, str_eq_iff,
  Bool-cases, if_cases,
}
use platform_system_netd.Containers.{string_key, ◌==◌, contains, erase, contains-erase}
use platform_system_netd.Kernel.{Kernel, World, Result, ok, err}
use platform_system_netd.Kernel.Gives.{IfOk, Gives, Gives-bind, Gives-pure, Gives-map}
use platform_system_netd.Kernel.Issues.{IsOk}
use platform_system_netd.Network.{
  Network, Local, Physical, Virtual, local, physical, virtual, Delegate, get_interfaces,
  local_remove_interface, physical_remove_interface, virtual_remove_interface, has_interface,
  remove_interface, clear_from, clear_interfaces,
}
use platform_system_netd.Network.Identity.{Same, identity, remove_interface-Same}

module _ (kernel : Kernel) (delegate : Delegate) where
  -- The network that is left, after a step that gives a result with a property of the network
  -- before it.
  module _ (rest : List String) (n : Network) where
    after-Same :
        (out : Result Network × World)
        → IfOk (Same (λ k. k) n) out.0
        → ((n' : Network) (w : World)
            → identity (clear_from kernel delegate rest n' w).0.1 ≡ identity n')
        → identity
            (elim out.0 as (λ _. (Result (Unit {0}) × Network) × World) [
              | ok n' ↦ clear_from kernel delegate rest n' out.1
              | err e ↦ ((err e, n), out.1)
            ]).0.1
          ≡ identity n
    after-Same (ok n', w) same h = h n' w ∙ same
    after-Same (err e, w) same h = refl

  clear_from-Same :
      (interfaces : List String) (n : Network) (w : World)
      → identity (clear_from kernel delegate interfaces n w).0.1 ≡ identity n
  unfolding clear_from
  clear_from-Same [] n w = refl
  clear_from-Same (interface ∷ rest) n w =
      after-Same rest n (remove_interface kernel delegate interface n w)
        ((remove_interface-Same kernel delegate interface n).at w) (clear_from-Same rest)

  pub clear_interfaces-Same :
      (n : Network) (w : World) → identity (clear_interfaces kernel delegate n w).0.1 ≡ identity n
  unfolding clear_interfaces
  clear_interfaces-Same n w = clear_from-Same (get_interfaces n) n w

-- A step that works takes its interface out, and no other.
abbrev pub Removes : String → List String → List String → Type 0
Removes interface xs ys = (j : String) → contains j ys ≡ (not (interface == j) && contains j xs)

erase-Removes : (interface : String) (xs : List String) → Removes interface xs (erase interface xs)
erase-Removes interface xs j = contains-erase interface j xs

absent-Removes :
    (interface : String) (xs : List String)
    → contains interface xs ≡ false
    → Removes interface xs xs
absent-Removes interface xs h j = elim (Bool-cases (interface == j)) [
  | inl here ↦
      ground (arith, h, ap (λ (k : String). contains k xs) ((str_eq_iff interface j).0 here))
  | inr there ↦ ground arith
]

module _ (kernel : Kernel) where
  local-Removes :
      (interface : String) (n : Local)
      → Gives
          (λ (k : Local). Removes interface n.interfaces k.interfaces)
          (local_remove_interface kernel interface n)
  unfolding local_remove_interface
  local-Removes interface n =
      if_cases (Gives _) (contains interface n.interfaces)
        (λ _. Gives-bind _ _ _ (λ _. Gives-pure _ _ (erase-Removes interface n.interfaces)))
        (λ h. Gives-pure _ n (absent-Removes interface n.interfaces h))

  virtual-Removes :
      (interface : String) (n : Virtual)
      → Gives
          (λ (k : Virtual). Removes interface n.interfaces k.interfaces)
          (virtual_remove_interface kernel interface n)
  unfolding virtual_remove_interface
  virtual-Removes interface n =
      if_cases (Gives _) (contains interface n.interfaces)
        (λ _. Gives-bind _ _ _ (λ _. Gives-pure _ _ (erase-Removes interface n.interfaces)))
        (λ h. Gives-pure _ n (absent-Removes interface n.interfaces h))

module _ (kernel : Kernel) (delegate : Delegate) where
  physical-Removes :
      (interface : String) (n : Physical)
      → Gives
          (λ (k : Physical). Removes interface n.interfaces k.interfaces)
          (physical_remove_interface kernel delegate interface n)
  unfolding physical_remove_interface
  physical-Removes interface n =
      if_cases (Gives _) (contains interface n.interfaces)
        (λ _.
          Gives-bind _ _ _
            λ _. Gives-bind _ _ _ (λ _. Gives-pure _ _ (erase-Removes interface n.interfaces)))
        (λ h. Gives-pure _ n (absent-Removes interface n.interfaces h))

  abbrev pub RemovesFrom : String → Network → Network → Type 0
  RemovesFrom interface n k = Removes interface (get_interfaces n) (get_interfaces k)

  pub remove_interface-Removes :
      (interface : String) (n : Network)
      → Gives (RemovesFrom interface n) (remove_interface kernel delegate interface n)
  unfolding remove_interface
  remove_interface-Removes interface (local n) =
      Gives-map (RemovesFrom interface (local n)) local _ (local-Removes kernel interface n)
  remove_interface-Removes interface (physical n) =
      Gives-map (RemovesFrom interface (physical n)) physical _ (physical-Removes interface n)
  remove_interface-Removes interface (virtual n) =
      Gives-map (RemovesFrom interface (virtual n)) virtual _ (virtual-Removes kernel interface n)

  -- What the loop leaves, if it ends without an error.
  abbrev LeavesOut : List String → Network → (Result (Unit {0}) × Network) × World → Type 0
  LeavesOut gone n ((ok a, k), w) =
      (j : String)
      → contains j (get_interfaces k) ≡ (not (contains j gone) && contains j (get_interfaces n))
  LeavesOut gone n ((err e, k), w) = Unit

  more-LeavesOut :
      (interface : String) (rest : List String) (n k : Network)
      (out : (Result (Unit {0}) × Network) × World)
      → RemovesFrom interface n k
      → LeavesOut rest k out
      → LeavesOut (interface ∷ rest) n out
  unfolding contains
  more-LeavesOut interface rest n k ((ok a, m), w) h l = λ j. ground (arith, h j, l j)
  more-LeavesOut interface rest n k ((err e, m), w) h l = tt

  after-LeavesOut :
      (interface : String) (rest : List String) (n : Network) (out : Result Network × World)
      → IfOk (RemovesFrom interface n) out.0
      → ((k : Network) (w : World) → LeavesOut rest k (clear_from kernel delegate rest k w))
      → LeavesOut (interface ∷ rest) n (elim out.0 as (λ _. (Result (Unit {0}) × Network) × World) [
        | ok k ↦ clear_from kernel delegate rest k out.1
        | err e ↦ ((err e, n), out.1)
      ])
  after-LeavesOut interface rest n (ok k, w) h l =
      more-LeavesOut interface rest n k (clear_from kernel delegate rest k w) h (l k w)
  after-LeavesOut interface rest n (err e, w) h l = tt

  clear_from-LeavesOut :
      (interfaces : List String) (n : Network) (w : World)
      → LeavesOut interfaces n (clear_from kernel delegate interfaces n w)
  unfolding clear_from contains
  clear_from-LeavesOut [] n w = λ j. refl
  clear_from-LeavesOut (interface ∷ rest) n w =
      after-LeavesOut interface rest n (remove_interface kernel delegate interface n w)
        ((remove_interface-Removes interface n).at w) (clear_from-LeavesOut rest)

  empty_at :
      (n : Network) (out : (Result (Unit {0}) × Network) × World)
      → LeavesOut (get_interfaces n) n out
      → IsOk out.0.0
      → (j : String) → has_interface j out.0.1 ≡ false
  unfolding has_interface
  empty_at n ((ok a, k), w) l h j = ground (arith, l j)
  empty_at n ((err e, k), w) l h j = absurd h

  -- If all interfaces of a network were cleared without an error, none is left: one pass over the
  -- interfaces is the whole loop.
  pub clear_interfaces-IsEmpty :
      (n : Network) (w : World)
      → IsOk (clear_interfaces kernel delegate n w).0.0
      → (j : String) → has_interface j (clear_interfaces kernel delegate n w).0.1 ≡ false
  unfolding clear_interfaces
  clear_interfaces-IsEmpty n w h =
      empty_at n (clear_interfaces kernel delegate n w)
        (clear_from-LeavesOut (get_interfaces n) n w) h
