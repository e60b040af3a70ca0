-- ===== src/Controller/Holders.antt =====
-- Which networks of server/NetworkController.cpp have an interface.
use platform_system_netd.Prelude.{
  ℕ, ◌≡◌, refl, sym, ap, subst, ◌∙◌, ◌⊎◌, inl, inr, Bool, true, false, Option, none, some, List, [],
  ◌∷◌, String, arith, ==_iff, Bool-cases, ◌==◌,
}
use platform_system_netd.Containers.{number_key, lookup, unassign, lookup-assign, lookup-unassign}
use platform_system_netd.Containers.Ascending.{IsAscending, Above, Above-IsAscending, lookup_below}
use platform_system_netd.Network.{Network, has_interface}
use platform_system_netd.Network.Members.{Within}
use platform_system_netd.Controller.State.{Controller, put}
use platform_system_netd.Controller.Queries.{get_network, first_with_interface}

abbrev pub holds : String → Option Network → Bool
holds x none = false
holds x (some n) = has_interface x n

abbrev pub Holds : Controller → String → ℕ → Type 0
Holds c x id = holds x (get_network c id) ≡ true

-- Each interface is in one network at most.
pub record IsExclusive (c : Controller) : Type 0 where
  pub once : (x : String) (i j : ℕ) → Holds c x i → Holds c x j → i ≡ j

-- No network has got an interface.
pub record Fewer (c c' : Controller) : Type 0 where
  pub before : (x : String) (id : ℕ) → Holds c' x id → Holds c x id

pub Fewer-refl : (c : Controller) → Fewer c c
Fewer-refl c = record { before = λ x id h. h }

pub Fewer-trans : (a b c : Controller) → Fewer a b → Fewer b c → Fewer a c
Fewer-trans a b c f g = record { before = λ x id h. f.before x id (g.before x id h) }

pub Fewer-same : (c c' : Controller) → c'.networks ≡ c.networks → Fewer c c'
Fewer-same c c' e = record {
  before = λ x id h. subst (λ (m : List (ℕ × Network)). holds x (lookup id m) ≡ true) e h;
}

pub not_both : {A : Type 0} → false ≡ true → A
not_both h = absurd (cc)

module _ (c : Controller) (id : ℕ) (n' : Network) where
  -- What is put was there, under the same id or in no network.
  pub put-Fewer : ((x : String) → has_interface x n' ≡ true → Holds c x id) → Fewer c (put id n' c)
  put-Fewer w = record { before = λ x j h. by_id x j h (Bool-cases (id == j)) }
    where
      by_id :
          (x : String) (j : ℕ)
          → Holds (put id n' c) x j
          → ((id == j) ≡ true) ⊎ ((id == j) ≡ false)
          → Holds c x j
      by_id x j h (inl here) =
          subst (λ (i : ℕ). Holds c x i) ((==_iff id j).0 here)
            (w x (rw (lookup-assign, here) at h))
      by_id x j h (inr there) = rw (lookup-assign, there) at h

  pub replace-Fewer :
      (n : Network)
      → get_network c id ≡ some n
      → Within (λ (k : Network). k) n n'
      → Fewer c (put id n' c)
  replace-Fewer n e w = put-Fewer λ x h. ap (holds x) e ∙ w x h

  -- The network under an id is gone, whatever it had become.
  pub erase-Fewer :
      (c' : Controller) → c'.networks ≡ unassign id (put id n' c).networks → Fewer c c'
  erase-Fewer c' e = record {
    before = λ x j h.
        by_id x j (subst (λ (m : List (ℕ × Network)). holds x (lookup j m) ≡ true) e h)
          (Bool-cases (id == j));
  }
    where
      by_id :
          (x : String) (j : ℕ)
          → holds x (lookup j (unassign id (put id n' c).networks)) ≡ true
          → ((id == j) ≡ true) ⊎ ((id == j) ≡ false)
          → Holds c x j
      by_id x j h (inl here) = not_both (rw (lookup-unassign, here) at h)
      by_id x j h (inr there) = rw (lookup-unassign, there, lookup-assign, there) at h

pub Fewer-IsExclusive : (c c' : Controller) → Fewer c c' → IsExclusive c → IsExclusive c'
Fewer-IsExclusive c c' f u = record {
  once = λ x i j h k. u.once x i j (f.before x i h) (f.before x j k);
}

-- The id that the search gives has the interface, if any has it.
abbrev Found : String → List (ℕ × Network) → ℕ → Type 0
Found x m j = holds x (lookup j m) ≡ true → holds x (lookup (first_with_interface x m) m) ≡ true

in_rest :
    (x : String) (id j : ℕ) (n : Network) (m : List (ℕ × Network))
    → has_interface x n ≡ false
    → holds x (lookup j ((id, n) ∷ m)) ≡ true
    → holds x (lookup j m) ≡ true
unfolding lookup
in_rest x id j n m lacks h = elim (Bool-cases (id == j)) [
  | inl here ↦ not_both (sym lacks ∙ rw here at h)
  | inr there ↦ rw there at h
]

-- An id past those of the list has no interface there.
pub past_first :
    (x : String) (id i : ℕ) (m : List (ℕ × Network))
    → Above id m
    → holds x (lookup i m) ≡ true
    → (id == i) ≡ false
past_first x id i m a h = elim (Bool-cases (id == i)) [
  | inl here ↦ not_both (rw (lookup_below i id m (ground arith) a) at h)
  | inr there ↦ there
]

pub first-holds : (x : String) (m : List (ℕ × Network)) (j : ℕ) → IsAscending m → Found x m j
unfolding first_with_interface lookup
first-holds x [] j a h = h
first-holds x ((id, n) ∷ m) j a h = elim (Bool-cases (has_interface x n)) [
  | inl has ↦ rw (has, (==_iff id id).1 refl) has
  | inr lacks ↦
      let rest = first-holds x m j (Above-IsAscending id m a) (in_rest x id j n m lacks h) in
      let same : first_with_interface x ((id, n) ∷ m) ≡ first_with_interface x m = rw lacks refl in
      subst (λ (i : ℕ). holds x (lookup i ((id, n) ∷ m)) ≡ true) (sym same)
        (rw (past_first x id (first_with_interface x m) m a rest) rest)
]
