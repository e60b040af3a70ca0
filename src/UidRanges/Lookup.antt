-- ===== src/UidRanges/Lookup.antt =====
-- `hasUid` looks at two ranges only: the first one at or after the user, and the one before it.
use platform_system_netd.Prelude.{
  ℕ, ◌≤◌, ◌<◌, ◌≡◌, refl, Bool, true, false, ◌||◌, List, [], ◌∷◌, arith, leb, if_cases,
}
use platform_system_netd.UidRanges.{
  Range, less, lower_bound, starts_at, last_reaches, has_uid, merge, add, covers,
}

-- The ranges are not empty, are in order and do not overlap.
abbrev pub DisjointAbove : ℕ → List Range → Type 0
DisjointAbove n [] = Unit
DisjointAbove n ((a, b) ∷ ranges) = (n < a) × (a ≤ b) × DisjointAbove b ranges

abbrev pub IsDisjoint : List Range → Type 0
IsDisjoint [] = Unit
IsDisjoint ((a, b) ∷ ranges) = (a ≤ b) × DisjointAbove b ranges

covers_above :
    (uid n : ℕ) (ranges : List Range) → DisjointAbove n ranges → uid ≤ n → covers uid ranges ≡ false
covers_above uid n [] h le = refl
covers_above uid n ((a, b) ∷ ranges) h le = ground (arith, covers_above uid b ranges h.2)

-- The answer, given the range that was passed last.
abbrev answer : ℕ → ℕ → List Range × List Range → Bool
answer uid passed (before, rest) = starts_at uid rest || last_reaches uid ((0, passed) ∷ before)

last_start :
    (uid a b : ℕ) (before : List Range)
    → last_reaches uid ((a, b) ∷ before) ≡ last_reaches uid ((0, b) ∷ before)
last_start uid a b [] = refl
last_start uid a b (r ∷ before) = refl

lower_bound-answer :
    (uid passed : ℕ) (ranges : List Range)
    → DisjointAbove passed ranges
    → answer uid passed (lower_bound (uid, uid) ranges) ≡ (leb uid passed || covers uid ranges)
unfolding lower_bound less
lower_bound-answer uid passed [] h = ground arith
lower_bound-answer uid passed ((a, b) ∷ ranges) h =
    if_cases (λ found. answer uid passed found ≡ (leb uid passed || covers uid ((a, b) ∷ ranges)))
      (less (a, b) (uid, uid))
      (λ before. ground (
        arith,
        last_start uid a b (lower_bound (uid, uid) ranges).0,
        lower_bound-answer uid b ranges h.2,
      ))
      (λ after. ground (arith, covers_above uid b ranges h.2))

lower_bound-disjoint :
    (uid a b : ℕ) (ranges : List Range)
    → a ≤ b
    → DisjointAbove b ranges
    → has_uid uid ((a, b) ∷ ranges) ≡ covers uid ((a, b) ∷ ranges)
unfolding has_uid lower_bound less
lower_bound-disjoint uid a b ranges le h =
    if_cases
      (λ (found : List Range × List Range).
        (starts_at uid found.1 || last_reaches uid found.0) ≡ covers uid ((a, b) ∷ ranges))
      (less (a, b) (uid, uid))
      (λ before. ground (
        arith,
        last_start uid a b (lower_bound (uid, uid) ranges).0,
        lower_bound-answer uid b ranges h,
      ))
      (λ after. ground (arith, covers_above uid b ranges h))

-- On ranges in order that do not overlap, the binary search answers whether some range holds the
-- user.
pub has_uid-covers :
    (uid : ℕ) (ranges : List Range) → IsDisjoint ranges → has_uid uid ranges ≡ covers uid ranges
has_uid-covers uid [] h = unfold has_uid lower_bound in refl
has_uid-covers uid ((a, b) ∷ ranges) h = lower_bound-disjoint uid a b ranges h.0 h.1

-- Where one range lies inside another, a user behind the inner one is missed: adding does not
-- merge ranges that overlap.
pub has_uid_misses_enclosing :
    (uid a b c d : ℕ)
    → a < c
    → c ≤ d
    → d < uid
    → uid ≤ b
    → (covers uid (add ((a, b) ∷ []) ((c, d) ∷ [])) ≡ true)
      × (has_uid uid (add ((a, b) ∷ []) ((c, d) ∷ [])) ≡ false)
unfolding add merge has_uid lower_bound less
has_uid_misses_enclosing uid a b c d h₁ h₂ h₃ h₄ = (ground arith, ground arith)

-- The union of two vectors names the users of both.
covers-merge :
    (uid : ℕ) (xs ys : List Range) → covers uid (merge xs ys) ≡ (covers uid xs || covers uid ys)
unfolding merge
covers-merge uid [] ys = refl
covers-merge uid (x ∷ xs) [] = ground arith
covers-merge uid (x ∷ xs) (y ∷ ys) =
    if_cases (λ zs. covers uid zs ≡ (covers uid (x ∷ xs) || covers uid (y ∷ ys))) (less y x)
      (λ _. ground (arith, covers-merge uid (x ∷ xs) ys))
      (λ _. ground (arith, covers-merge uid xs (y ∷ ys)))

-- The union of two vectors of ranges names the users of both, and no others.
pub covers-add :
    (uid : ℕ) (ranges other : List Range)
    → covers uid (add ranges other) ≡ (covers uid ranges || covers uid other)
unfolding add
covers-add uid ranges other = covers-merge uid ranges other
