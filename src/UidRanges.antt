-- ===== src/UidRanges.antt =====
-- server/UidRanges.cpp: sets of users as sorted vectors of ranges. std::sort, inplace_merge,
-- lower_bound and set_difference are written out on lists.
pub mod Order
pub mod Lookup
pub mod Multisets
pub mod Parse
use platform_system_netd.Prelude.{
  ℕ, Bool, true, false, not, ◌&&◌, ◌||◌, List, [], ◌∷◌, ltb, leb, ◌==◌, if◌then◌else◌,
}

abbrev pub Range : Type 0
Range = ℕ × ℕ

-- `<` of std::pair
unfoldable pub less : Range → Range → Bool
less (a, b) (c, d) = ltb a c || not (ltb c a) && ltb b d

-- What stands before the first range that is not less than the key, and the rest.
unfoldable pub lower_bound : Range → List Range → List Range × List Range
lower_bound key [] = ([], [])
lower_bound key (r ∷ ranges) =
    let rest = lower_bound key ranges in
    if less r key then (r ∷ rest.0, rest.1) else ([], r ∷ ranges)

abbrev pub starts_at : ℕ → List Range → Bool
starts_at uid [] = false
starts_at uid ((a, b) ∷ ranges) = a == uid

-- `(--iter)->second >= uid`, if there is a range before `iter`.
abbrev pub last_reaches : ℕ → List Range → Bool
last_reaches uid [] = false
last_reaches uid ((a, b) ∷ []) = leb uid b
last_reaches uid (r ∷ s ∷ ranges) = last_reaches uid (s ∷ ranges)

unfoldable pub has_uid : ℕ → List Range → Bool
has_uid uid ranges =
    let (before, rest) = lower_bound (uid, uid) ranges in
    starts_at uid rest || last_reaches uid before

-- Two sorted runs become one; on a tie the first run's range comes first.
unfoldable pub merge : List Range → List Range → List Range
merge [] ys = ys
merge (x ∷ xs) [] = x ∷ xs
merge (x ∷ xs) (y ∷ ys) =
    let right = merge (x ∷ xs) ys in
    let left = merge xs (y ∷ ys) in if less y x then y ∷ right else x ∷ left

unfoldable pub add : List Range → List Range → List Range
add ranges other = merge ranges other

unfoldable pub set_difference : List Range → List Range → List Range
set_difference [] ys = []
set_difference (x ∷ xs) [] = x ∷ xs
set_difference (x ∷ xs) (y ∷ ys) =
    let kept = set_difference xs (y ∷ ys) in
    let skipped = set_difference (x ∷ xs) ys in
    let matched = set_difference xs ys in
    if less x y then x ∷ kept else if less y x then skipped else matched

unfoldable pub remove : List Range → List Range → List Range
remove ranges other = set_difference ranges other

unfoldable pub sort : List Range → List Range
sort [] = []
sort (r ∷ ranges) = merge (r ∷ []) (sort ranges)

-- The users that the ranges name.
abbrev pub covers : ℕ → List Range → Bool
covers uid [] = false
covers uid ((a, b) ∷ ranges) = leb a uid && leb uid b || covers uid ranges
