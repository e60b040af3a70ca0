-- ===== src/Containers/Distinct.antt =====
-- Lists without an item twice, as the code keeps them in a std::list.
use platform_system_netd.Prelude.{
  ◌≡◌, refl, false, not, ◌&&◌, ◌||◌, List, [], ◌∷◌, ◌++◌, All, arith, Bool-cases, inl, inr,
}
use platform_system_netd.Containers.{Key, ◌==◌, contains, erase_first}

module _ {ℓ} {K : Type ℓ} ⦃e : Key K⦄ where
  abbrev pub IsDistinct : List K → Type 0
  IsDistinct [] = Unit
  IsDistinct (k ∷ s) = (contains k s ≡ false) × IsDistinct s

  pub contains-erase_first :
      (k j : K) (s : List K)
      → IsDistinct s
      → contains j (erase_first k s) ≡ (not (k == j) && contains j s)
  unfolding contains erase_first
  contains-erase_first k j [] h = ground arith
  contains-erase_first k j (i ∷ s) h =
      ground (arith, e.beq_iff k j, e.beq_iff i j, e.beq_iff i k, contains-erase_first k j s h.1)

  pub contains-erase_first_other :
      (k j : K) (s : List K) → contains j s ≡ false → contains j (erase_first k s) ≡ false
  unfolding contains erase_first
  contains-erase_first_other k j [] h = h
  contains-erase_first_other k j (i ∷ s) h = ground (arith, contains-erase_first_other k j s)

  pub erase_first-IsDistinct : (k : K) (s : List K) → IsDistinct s → IsDistinct (erase_first k s)
  unfolding erase_first
  erase_first-IsDistinct k [] h = tt
  erase_first-IsDistinct k (i ∷ s) h = elim (Bool-cases (i == k)) [
    | inl same ↦ rw same h.1
    | inr other ↦ rw other (contains-erase_first_other k i s h.0, erase_first-IsDistinct k s h.1)
  ]

  contains-snoc : (j k : K) (s : List K) → contains j (s ++ k ∷ []) ≡ (contains j s || k == j)
  unfolding contains
  contains-snoc j k [] = ground arith
  contains-snoc j k (i ∷ s) = ground (arith, contains-snoc j k s)

  -- An item that is new may be put at the end.
  pub snoc-IsDistinct :
      (k : K) (s : List K) → contains k s ≡ false → IsDistinct s → IsDistinct (s ++ k ∷ [])
  unfolding contains
  snoc-IsDistinct k [] h d = (refl, tt)
  snoc-IsDistinct k (i ∷ s) h d =
      let at_end : contains i (s ++ k ∷ []) ≡ false =
        ground (arith, contains-snoc i k s, e.beq_iff i k, e.beq_iff k i, d.0) in
      (at_end, snoc-IsDistinct k s (ground arith) d.1)

module _ {ℓ κ} {K : Type ℓ} ⦃e : Key K⦄ (P : K → Type κ) where
  pub erase_first-All : (k : K) (s : List K) → All P s → All P (erase_first k s)
  unfolding erase_first
  erase_first-All k [] h = h
  erase_first-All k (i ∷ s) h = elim (Bool-cases (i == k)) [
    | inl same ↦ rw same h.1
    | inr other ↦ rw other (h.0, erase_first-All k s h.1)
  ]

  pub snoc-All : (k : K) (s : List K) → P k → All P s → All P (s ++ k ∷ [])
  snoc-All k [] p h = (p, tt)
  snoc-All k (i ∷ s) p h = (h.0, snoc-All k s p h.1)
