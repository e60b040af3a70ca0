-- ===== src/UidRanges/Order.antt =====
-- The order of ranges is total, and the operations keep vectors sorted.
use platform_system_netd.Prelude.{
  ◌≡◌, true, false, List, [], ◌∷◌, arith, Bool-cases, if_cases, inl, inr,
}
use platform_system_netd.UidRanges.{Range, less, merge, set_difference, sort}

pub less_total : (r s : Range) → less r s ≡ false → less s r ≡ false → r ≡ s
unfolding less
less_total r s h k = ground arith

pub less_trans : (r s t : Range) → less s r ≡ false → less t s ≡ false → less t r ≡ false
unfolding less
less_trans r s t h k = ground arith

pub less-less : (r s : Range) → less r s ≡ true → less s r ≡ false
unfolding less
less-less r s h = ground arith

pub less_of_less : (r s t : Range) → less r s ≡ true → less t s ≡ false → less r t ≡ true
unfolding less
less_of_less r s t h k = ground arith

pub less_irrefl : (r : Range) → less r r ≡ false
unfolding less
less_irrefl r = ground arith

-- No range of the vector is less than the bound, and the vector is sorted.
abbrev pub SortedFrom : Range → List Range → Type 0
SortedFrom r [] = Unit
SortedFrom r (s ∷ ranges) = (less s r ≡ false) × SortedFrom s ranges

abbrev pub IsSorted : List Range → Type 0
IsSorted [] = Unit
IsSorted (r ∷ ranges) = SortedFrom r ranges

pub SortedFrom-IsSorted : (r : Range) (ranges : List Range) → SortedFrom r ranges → IsSorted ranges
SortedFrom-IsSorted r [] h = tt
SortedFrom-IsSorted r (s ∷ ranges) h = h.1

pub SortedFrom-mono :
    (r s : Range) (ranges : List Range)
    → less s r ≡ false
    → SortedFrom s ranges
    → SortedFrom r ranges
SortedFrom-mono r s [] h k = tt
SortedFrom-mono r s (t ∷ ranges) h k = (less_trans r s t h k.0, k.1)

merge-SortedFrom :
    (r : Range) (xs ys : List Range)
    → SortedFrom r xs
    → SortedFrom r ys
    → SortedFrom r (merge xs ys)
unfolding merge
merge-SortedFrom r [] ys hx hy = hy
merge-SortedFrom r (x ∷ xs) [] hx hy = hx
merge-SortedFrom r (x ∷ xs) (y ∷ ys) hx hy = elim (Bool-cases (less y x)) [
  | inl e ↦ rw e (hy.0, merge-SortedFrom y (x ∷ xs) ys (less-less y x e, hx.1) hy.1)
  | inr e ↦ rw e (hx.0, merge-SortedFrom x xs (y ∷ ys) hx.1 (e, hy.1))
]

pub merge-IsSorted : (xs ys : List Range) → IsSorted xs → IsSorted ys → IsSorted (merge xs ys)
unfolding merge
merge-IsSorted [] ys hx hy = hy
merge-IsSorted (x ∷ xs) [] hx hy = hx
merge-IsSorted (x ∷ xs) (y ∷ ys) hx hy = elim (Bool-cases (less y x)) [
  | inl e ↦ rw e (merge-SortedFrom y (x ∷ xs) ys (less-less y x e, hx) hy)
  | inr e ↦ rw e (merge-SortedFrom x xs (y ∷ ys) hx (e, hy))
]

pub sort-IsSorted : (ranges : List Range) → IsSorted (sort ranges)
unfolding sort
sort-IsSorted [] = tt
sort-IsSorted (r ∷ ranges) = merge-IsSorted (r ∷ []) (sort ranges) tt (sort-IsSorted ranges)

set_difference-SortedFrom :
    (r : Range) (xs ys : List Range) → SortedFrom r xs → SortedFrom r (set_difference xs ys)
unfolding set_difference
set_difference-SortedFrom r [] ys h = tt
set_difference-SortedFrom r (x ∷ xs) [] h = h
set_difference-SortedFrom r (x ∷ xs) (y ∷ ys) h =
    if_cases (SortedFrom r) (less x y) (λ _. (h.0, set_difference-SortedFrom x xs (y ∷ ys) h.1))
      λ _.
        if_cases (SortedFrom r) (less y x) (λ _. set_difference-SortedFrom r (x ∷ xs) ys h)
          λ _. set_difference-SortedFrom r xs ys (SortedFrom-mono r x xs h.0 h.1)

pub set_difference-IsSorted : (xs ys : List Range) → IsSorted xs → IsSorted (set_difference xs ys)
unfolding set_difference
set_difference-IsSorted [] ys h = tt
set_difference-IsSorted (x ∷ xs) [] h = h
set_difference-IsSorted (x ∷ xs) (y ∷ ys) h =
    if_cases IsSorted (less x y) (λ _. set_difference-SortedFrom x xs (y ∷ ys) h)
      λ _.
        if_cases IsSorted (less y x) (λ _. set_difference-IsSorted (x ∷ xs) ys h)
          λ _. set_difference-IsSorted xs ys (SortedFrom-IsSorted x xs h)
