-- ===== src/Containers/Ascending.antt =====
-- A map whose keys are numbers has them in order, each once.
use platform_system_netd.Prelude.{
  ℕ, ◌≤◌, ◌<◌, ◌≡◌, refl, none, List, [], ◌∷◌, arith, ltb, if_cases, ◌==◌,
}
use platform_system_netd.Containers.{number_key, lookup, assign, unassign}

module _ {ℓ} {V : Type ℓ} where
  -- The keys ascend, and are above a bound.
  abbrev pub Above : ℕ → List (ℕ × V) → Type 0
  Above k [] = Unit
  Above k ((j, v) ∷ m) = (k < j) × Above j m

  abbrev pub IsAscending : List (ℕ × V) → Type 0
  IsAscending [] = Unit
  IsAscending ((j, v) ∷ m) = Above j m

  Above-mono : (i k : ℕ) (m : List (ℕ × V)) → i ≤ k → Above k m → Above i m
  Above-mono i k [] le h = tt
  Above-mono i k ((j, v) ∷ m) le h = (omega (arith, h.0), h.1)

  pub Above-IsAscending : (k : ℕ) (m : List (ℕ × V)) → Above k m → IsAscending m
  Above-IsAscending k [] h = tt
  Above-IsAscending k ((j, v) ∷ m) h = h.1

  pub lookup_below : (i k : ℕ) (m : List (ℕ × V)) → i ≤ k → Above k m → lookup i m ≡ none
  unfolding lookup
  lookup_below i k [] le h = refl
  lookup_below i k ((j, v) ∷ m) le h =
      ground (arith, h.0, lookup_below i j m (omega (arith, h.0)) h.1)

  assign-Above : (i k : ℕ) (v : V) (m : List (ℕ × V)) → i < k → Above i m → Above i (assign k v m)
  unfolding assign
  assign-Above i k v [] lt h = (lt, tt)
  assign-Above i k v ((j, w) ∷ m) lt h =
      if_cases (Above i) (k == j) (λ same. (lt, Above-mono k j m (ground arith) h.1))
        λ other.
          if_cases (Above i) (ltb k j) (λ below. (lt, (ground arith, h.1)))
            λ not_below. (h.0, assign-Above j k v m (ground arith) h.1)

  pub assign-IsAscending :
      (k : ℕ) (v : V) (m : List (ℕ × V)) → IsAscending m → IsAscending (assign k v m)
  unfolding assign
  assign-IsAscending k v [] h = tt
  assign-IsAscending k v ((j, w) ∷ m) h =
      if_cases IsAscending (k == j) (λ same. Above-mono k j m (ground arith) h)
        λ other.
          if_cases IsAscending (ltb k j) (λ below. (ground arith, h))
            λ not_below. assign-Above j k v m (ground arith) h

  unassign-Above : (i k : ℕ) (m : List (ℕ × V)) → Above i m → Above i (unassign k m)
  unfolding unassign
  unassign-Above i k [] h = tt
  unassign-Above i k ((j, w) ∷ m) h =
      if_cases (Above i) (j == k)
        (λ _. Above-mono i j (unassign k m) (omega (arith, h.0)) (unassign-Above j k m h.1))
        (λ _. (h.0, unassign-Above j k m h.1))

  pub unassign-IsAscending : (k : ℕ) (m : List (ℕ × V)) → IsAscending m → IsAscending (unassign k m)
  unfolding unassign
  unassign-IsAscending k [] h = tt
  unassign-IsAscending k ((j, w) ∷ m) h =
      if_cases IsAscending (j == k)
        (λ _. Above-IsAscending j (unassign k m) (unassign-Above j k m h))
        (λ _. unassign-Above j k m h)
