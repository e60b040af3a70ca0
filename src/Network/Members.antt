-- ===== src/Network/Members.antt =====
-- server/Network.cpp: which methods change the interfaces of a network, and how.
use platform_system_netd.Prelude.{
  ℕ, ◌≡◌, refl, ◌||◌, true, List, String, arith, if_cases, str_eq, ◌∙◌, sym, ◌==◌,
}
use platform_system_netd.Containers.{string_key, contains, insert, contains-insert}
use platform_system_netd.Kernel.{Kernel}
use platform_system_netd.Kernel.Gives.{Gives, Gives-bind, Gives-pure, Gives-map, Gives-mono}
use platform_system_netd.UidRanges.{Range}
use platform_system_netd.Network.{
  Network, Local, Physical, Virtual, Delegate, local, physical, virtual, get_interfaces,
  has_interface, local_add_interface, physical_add_interface, virtual_add_interface,
  virtual_add_users, virtual_remove_users, set_permission, add_as_default, remove_as_default,
  add_interface, remove_interface,
}
use platform_system_netd.Network.Clearing.{RemovesFrom, remove_interface-Removes}

-- The interfaces after a method were there before it.
abbrev pub Within : {A : Type 0} → (A → Network) → A → A → Type 0
Within f n n' = (x : String) → has_interface x (f n') ≡ true → has_interface x (f n) ≡ true

-- So they are but for one that is added.
abbrev pub WithinPlus : {A : Type 0} → String → (A → Network) → A → A → Type 0
WithinPlus interface f n n' =
    (x : String)
    → has_interface x (f n') ≡ true
    → (str_eq interface x || has_interface x (f n)) ≡ true

unchanged :
    (n n' : Network) → get_interfaces n' ≡ get_interfaces n → Within (λ (k : Network). k) n n'
unfolding has_interface
unchanged n n' e x h = rw e at h

module _ (kernel : Kernel) where
  pub virtual_add_users-Within :
      (uid_ranges : List Range) (n : Virtual)
      → Gives (Within virtual n) (virtual_add_users kernel uid_ranges n)
  unfolding virtual_add_users
  virtual_add_users-Within uid_ranges n =
      Gives-bind _ _ _ (λ _. Gives-pure _ _ (unchanged _ _ refl))

  pub virtual_remove_users-Within :
      (uid_ranges : List Range) (n : Virtual)
      → Gives (Within virtual n) (virtual_remove_users kernel uid_ranges n)
  unfolding virtual_remove_users
  virtual_remove_users-Within uid_ranges n =
      Gives-bind _ _ _ (λ _. Gives-pure _ _ (unchanged _ _ refl))

added :
    (interface x : String) (xs : List String)
    → contains x (insert interface xs) ≡ true
    → (str_eq interface x || contains x xs) ≡ true
added interface x xs h = sym (contains-insert interface x xs) ∙ h

kept :
    (interface x : String) (xs : List String)
    → contains x xs ≡ true
    → (str_eq interface x || contains x xs) ≡ true
kept interface x xs h = ground (arith, h)

module _ (kernel : Kernel) where
  local_add-WithinPlus :
      (interface : String) (n : Local)
      → Gives (WithinPlus interface local n) (local_add_interface kernel interface n)
  unfolding local_add_interface has_interface
  local_add-WithinPlus interface n =
      if_cases (Gives _) (contains interface n.interfaces)
        (λ _. Gives-pure _ n (λ x h. kept interface x n.interfaces h))
        (λ _. Gives-bind _ _ _ λ _. Gives-pure _ _ (λ x h. added interface x n.interfaces h))

  virtual_add-WithinPlus :
      (interface : String) (n : Virtual)
      → Gives (WithinPlus interface virtual n) (virtual_add_interface kernel interface n)
  unfolding virtual_add_interface has_interface
  virtual_add-WithinPlus interface n =
      if_cases (Gives _) (contains interface n.interfaces)
        (λ _. Gives-pure _ n (λ x h. kept interface x n.interfaces h))
        (λ _. Gives-bind _ _ _ λ _. Gives-pure _ _ (λ x h. added interface x n.interfaces h))

module _ (kernel : Kernel) (delegate : Delegate) where
  pub set_permission-Within :
      (permission : ℕ) (n : Physical)
      → Gives (Within physical n) (set_permission kernel delegate permission n)
  unfolding set_permission
  set_permission-Within permission n =
      if_cases (Gives _) (permission == n.permission) (λ _. Gives-pure _ n (unchanged _ _ refl))
        λ _. Gives-bind _ _ _ λ _. Gives-bind _ _ _ (λ _. Gives-pure _ _ (unchanged _ _ refl))

  pub add_as_default-Within :
      (n : Physical) → Gives (Within physical n) (add_as_default kernel delegate n)
  unfolding add_as_default
  add_as_default-Within n =
      if_cases (Gives _) n.is_default (λ _. Gives-pure _ n (unchanged _ _ refl))
        (λ _. Gives-bind _ _ _ (λ _. Gives-pure _ _ (unchanged _ _ refl)))

  pub remove_as_default-Within :
      (n : Physical) → Gives (Within physical n) (remove_as_default kernel delegate n)
  unfolding remove_as_default
  remove_as_default-Within n =
      if_cases (Gives _) n.is_default
        (λ _. Gives-bind _ _ _ (λ _. Gives-pure _ _ (unchanged _ _ refl)))
        (λ _. Gives-pure _ n (unchanged _ _ refl))

  physical_add-WithinPlus :
      (interface : String) (n : Physical)
      → Gives (WithinPlus interface physical n) (physical_add_interface kernel delegate interface n)
  unfolding physical_add_interface has_interface
  physical_add-WithinPlus interface n =
      if_cases (Gives _) (contains interface n.interfaces)
        (λ _. Gives-pure _ n (λ x h. kept interface x n.interfaces h))
        λ _.
          Gives-bind _ _ _
            λ _. Gives-bind _ _ _ λ _. Gives-pure _ _ (λ x h. added interface x n.interfaces h)

  pub add_interface-WithinPlus :
      (interface : String) (n : Network)
      → Gives
          (WithinPlus interface (λ (k : Network). k) n)
          (add_interface kernel delegate interface n)
  unfolding add_interface
  add_interface-WithinPlus interface (local n) =
      Gives-map _ local _ (local_add-WithinPlus kernel interface n)
  add_interface-WithinPlus interface (physical n) =
      Gives-map _ physical _ (physical_add-WithinPlus interface n)
  add_interface-WithinPlus interface (virtual n) =
      Gives-map _ virtual _ (virtual_add-WithinPlus kernel interface n)

  removed :
      (interface : String) (n k : Network)
      → RemovesFrom kernel delegate interface n k
      → Within (λ (m : Network). m) n k
  unfolding has_interface
  removed interface n k h x e = ground (arith, h x, e)

  pub remove_interface-Within :
      (interface : String) (n : Network)
      → Gives (Within (λ (k : Network). k) n) (remove_interface kernel delegate interface n)
  remove_interface-Within interface n =
      Gives-mono _ (removed interface n) (remove_interface-Removes kernel delegate interface n)
