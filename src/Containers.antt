-- ===== src/Containers.antt =====
-- std::map and std::set as lists in the order of their keys. An erase removes every entry of its
-- key, of which a map holds one at most.
pub mod Ascending
pub mod Distinct
use platform_system_netd.Prelude.{
  ℕ, String, ◌≡◌, refl, ◌↔◌, ◌≢◌, Bool, true, false, not, ◌&&◌, ◌||◌, Option, none, some, List, [],
  ◌∷◌, arith, ltb, if◌then◌else◌, str_eq, str_eq_iff, ==_iff, Bool-cases, inl, inr,
}
use Prim.Native.String.{compare}
use text.Mathlib.Text.{is_lt}
use platform_system_netd.Prelude

-- An ordered type of keys.
pub record Key {ℓ} (K : Type ℓ) : Type ℓ where
  pub beq : K → K → Bool
  pub beq_iff : (a b : K) → (beq a b ≡ true) ↔ (a ≡ b)
  pub less : K → K → Bool

instance abbrev pub number_key : Key ℕ
number_key = record { beq = Prelude.◌==◌; beq_iff = ==_iff; less = ltb }

instance abbrev pub string_key : Key String
string_key = record { beq = str_eq; beq_iff = str_eq_iff; less = λ s t. is_lt (compare s t) }

infix 50 ◌==◌
abbrev pub ◌==◌ {ℓ} : {K : Type ℓ} ⦃e : Key K⦄ → K → K → Bool
◌==◌ ⦃e⦄ = e.beq

module _ {ℓ κ} {K : Type ℓ} {V : Type κ} ⦃e : Key K⦄ where
  unfoldable pub lookup : K → List (K × V) → Option V
  lookup k [] = none
  lookup k ((j, v) ∷ m) = if j == k then some v else lookup k m

  -- m[k] = v
  unfoldable pub assign : K → V → List (K × V) → List (K × V)
  assign k v [] = (k, v) ∷ []
  assign k v ((j, w) ∷ m) =
      let rest = assign k v m in
      if k == j then (k, v) ∷ m else if e.less k j then (k, v) ∷ (j, w) ∷ m else (j, w) ∷ rest

  -- m.erase(k)
  unfoldable pub unassign : K → List (K × V) → List (K × V)
  unassign k [] = []
  unassign k ((j, v) ∷ m) = let rest = unassign k m in if j == k then rest else (j, v) ∷ rest

  pub lookup-assign :
      (k j : K) (v : V) (m : List (K × V))
      → lookup j (assign k v m) ≡ (if k == j then some v else lookup j m)
  unfolding lookup assign
  lookup-assign k j v [] = refl
  lookup-assign k j v ((i, w) ∷ m) =
      ground (arith, e.beq_iff k j, e.beq_iff i j, e.beq_iff k i, lookup-assign k j v m)

  pub lookup-unassign :
      (k j : K) (m : List (K × V)) → lookup j (unassign k m) ≡ (if k == j then none else lookup j m)
  unfolding lookup unassign
  lookup-unassign k j [] = ground arith
  lookup-unassign k j ((i, w) ∷ m) =
      ground (arith, e.beq_iff k j, e.beq_iff i j, e.beq_iff i k, lookup-unassign k j m)

module _ {ℓ} {K : Type ℓ} ⦃e : Key K⦄ where
  unfoldable pub contains : K → List K → Bool
  contains k [] = false
  contains k (j ∷ s) = j == k || contains k s

  unfoldable pub insert : K → List K → List K
  insert k [] = k ∷ []
  insert k (j ∷ s) =
      let rest = insert k s in if k == j then j ∷ s else if e.less k j then k ∷ j ∷ s else j ∷ rest

  unfoldable pub erase : K → List K → List K
  erase k [] = []
  erase k (j ∷ s) = let rest = erase k s in if j == k then rest else j ∷ rest

  pub contains-insert : (k j : K) (s : List K) → contains j (insert k s) ≡ (k == j || contains j s)
  unfolding contains insert
  contains-insert k j [] = refl
  contains-insert k j (i ∷ s) =
      ground (arith, e.beq_iff k j, e.beq_iff i j, e.beq_iff k i, contains-insert k j s)

  pub contains-erase :
      (k j : K) (s : List K) → contains j (erase k s) ≡ (not (k == j) && contains j s)
  unfolding contains erase
  contains-erase k j [] = ground arith
  contains-erase k j (i ∷ s) =
      ground (arith, e.beq_iff k j, e.beq_iff i j, e.beq_iff i k, contains-erase k j s)

  -- Of a std::list: `erase` at the first place that holds the item.
  unfoldable pub erase_first : K → List K → List K
  erase_first k [] = []
  erase_first k (j ∷ s) = if j == k then s else j ∷ erase_first k s
