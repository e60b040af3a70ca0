-- ===== src/UidRanges/Multisets.antt =====
-- Adding and removing ranges, seen as multisets: how often each range occurs.
use platform_system_netd.Prelude.{
  ℕ, suc, ◌+◌, ◌-◌, ◌≡◌, refl, ap, ap₂, subst, Bool, true, ◌&&◌, List, [], ◌∷◌, arith, ◌==◌,
  Bool-cases, if_cases, inl, inr, if◌then◌else◌,
}
use platform_system_netd.UidRanges.{Range, less, merge, add, remove, set_difference}
use platform_system_netd.UidRanges.Order.{
  SortedFrom, IsSorted, SortedFrom-IsSorted, less_total, less_of_less, merge-IsSorted,
  set_difference-IsSorted,
}

abbrev pub same : Range → Range → Bool
same (a, b) (c, d) = a == c && b == d

abbrev pub count : Range → List Range → ℕ
count r [] = 0
count r (s ∷ ranges) = (if same s r then 1 else 0) + count r ranges

same_eq : (r s : Range) → same r s ≡ true → r ≡ s
same_eq r s h = ground arith

pub count-merge : (r : Range) (xs ys : List Range) → count r (merge xs ys) ≡ count r xs + count r ys
unfolding merge
count-merge r [] ys = omega arith
count-merge r (x ∷ xs) [] = omega arith
count-merge r (x ∷ xs) (y ∷ ys) =
    if_cases (λ zs. count r zs ≡ count r (x ∷ xs) + count r (y ∷ ys)) (less y x)
      (λ _. omega (arith, count-merge r (x ∷ xs) ys))
      (λ _. omega (arith, count-merge r xs (y ∷ ys)))

-- A range below a sorted vector does not occur in it.
count_below :
    (r s : Range) (ranges : List Range)
    → less r s ≡ true
    → SortedFrom s ranges
    → count r (s ∷ ranges) ≡ 0
unfolding less
count_below r s [] h k = ground arith
count_below r s (t ∷ ranges) h k =
    ground (arith, count_below r t ranges (less_of_less r s t h k.0) k.1)

absent :
    (r s t : Range) (ranges : List Range)
    → less s t ≡ true
    → SortedFrom t ranges
    → same s r ≡ true
    → count r (t ∷ ranges) ≡ 0
absent r s t ranges h k e =
    count_below r t ranges (subst (λ q. less q t ≡ true) (same_eq s r e) h) k

count_self : (r : Range) (ranges : List Range) → count r (r ∷ ranges) ≡ suc (count r ranges)
count_self r ranges = ground arith

-- What `set_difference` keeps of each range: the surplus of its occurrences.
pub count-set_difference :
    (r : Range) (xs ys : List Range)
    → IsSorted xs
    → IsSorted ys
    → count r (set_difference xs ys) ≡ count r xs - count r ys
unfolding set_difference
count-set_difference r [] ys hx hy = omega arith
count-set_difference r (x ∷ xs) [] hx hy = omega arith
count-set_difference r (x ∷ xs) (y ∷ ys) hx hy =
    if_cases Surplus (less x y)
      (λ below. ground (
        arith,
        absent r x y ys below hy,
        count-set_difference r xs (y ∷ ys) (SortedFrom-IsSorted x xs hx) hy,
      ))
      λ not_below.
        if_cases Surplus (less y x)
          (λ above. ground (
            arith,
            absent r y x xs above hx,
            count-set_difference r (x ∷ xs) ys hx (SortedFrom-IsSorted y ys hy),
          ))
          λ not_above. subst Cancelled (less_total x y not_below not_above) (
            omega (
              arith,
              count-set_difference r xs ys (SortedFrom-IsSorted x xs hx)
                  (SortedFrom-IsSorted y ys hy),
            ))
  where
    Surplus : List Range → Type 0
    Surplus zs = count r zs ≡ count r (x ∷ xs) - count r (y ∷ ys)

    Cancelled : Range → Type 0
    Cancelled z = count r (set_difference xs ys) ≡ count r (x ∷ xs) - count r (z ∷ ys)

-- A sorted vector is determined by its multiset.
sorted_unique :
    (xs ys : List Range)
    → IsSorted xs
    → IsSorted ys
    → ((r : Range) → count r xs ≡ count r ys)
    → xs ≡ ys
sorted_unique [] [] hx hy h = refl
sorted_unique [] (y ∷ ys) hx hy h = absurd (omega (arith, h y, count_self y ys))
sorted_unique (x ∷ xs) [] hx hy h = absurd (omega (arith, h x, count_self x xs))
sorted_unique (x ∷ xs) (y ∷ ys) hx hy h =
    ap₂ ◌∷◌ heads
      (sorted_unique xs ys (SortedFrom-IsSorted x xs hx) (SortedFrom-IsSorted y ys hy) tails)
  where
    heads : x ≡ y
    heads =
        less_total x y
          (elim (Bool-cases (less x y)) [
            | inl e ↦ absurd (omega (arith, h x, count_self x xs, count_below x y ys e hy))
            | inr e ↦ e
          ])
          (elim (Bool-cases (less y x)) [
            | inl e ↦ absurd (omega (arith, h y, count_self y ys, count_below y x xs e hx))
            | inr e ↦ e
          ])

    tails : (r : Range) → count r xs ≡ count r ys
    tails r = omega (arith, h r, ap (λ s. count r (s ∷ [])) heads)

-- Ranges that are added to a sorted vector and then removed leave it as it was, if they were
-- sorted themselves.
pub remove-add :
    (ranges other : List Range)
    → IsSorted ranges
    → IsSorted other
    → remove (add ranges other) other ≡ ranges
unfolding remove add
remove-add ranges other hr ho =
    sorted_unique _ ranges (set_difference-IsSorted _ other merged) hr λ r. omega (
      arith,
      count-set_difference r (merge ranges other) other merged ho,
      count-merge r ranges other,
    )
  where
    merged : IsSorted (merge ranges other)
    merged = merge-IsSorted ranges other hr ho
