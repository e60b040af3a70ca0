-- ===== src/UidRanges/Parse.antt =====
-- `UidRanges::parseFrom`: users and ranges of users as the arguments of a command.
use Prim.Native.Char.{code}
use Prim.Native.String.{[] as empty, ◌∷◌ as ◌▸◌}
use platform_system_netd.Prelude.{
  ℕ, ◌≤◌, ◌<◌, ◌≡◌, subst, ◌%◌, ◌^◌, Bool, true, false, ◌||◌, Option, none, some, List, [], ◌∷◌,
  ◌++◌, All, String, arith, ltb, ◌==◌, if◌then◌else◌, if_cases,
}
use platform_system_netd.CStrings.{strtoul}
use platform_system_netd.Route.Requests.{invalid_uid}
use platform_system_netd.UidRanges.{Range, less, merge, sort}
use platform_system_netd.UidRanges.Order.{IsSorted, sort-IsSorted}

-- The last test of the loop's body.
abbrev checked : ℕ → ℕ → Option Range
checked uid_start uid_end =
    if uid_start == invalid_uid || uid_end == invalid_uid then none else some (uid_start, uid_end)

-- After the dash, a number to the end that is not below the first.
abbrev ended : ℕ → ℕ × String → Option Range
ended uid_start (n, empty) =
    if ltb (n % 2 ^ 32) uid_start then none else checked uid_start (n % 2 ^ 32)
ended uid_start (n, c ▸ s) = none

abbrev dashed : ℕ → ℕ → String → Option Range
dashed width uid_start empty = none
dashed width uid_start (c ▸ s) = ended uid_start (strtoul width 0 (c ▸ s))

-- A uid_t keeps the low 32 bits of the unsigned long.
abbrev started : ℕ → ℕ × String → Option Range
started width (n, empty) = checked (n % 2 ^ 32) (n % 2 ^ 32)
started width (n, c ▸ s) =
    let rest = dashed width (n % 2 ^ 32) s in if code c == 45 then rest else none

unfoldable pub parse_range : ℕ → String → Option Range
parse_range width empty = none
parse_range width (c ▸ s) = started width (strtoul width 0 (c ▸ s))

-- The ranges that were found stay where an argument is refused; only a success sorts them.
abbrev pub parsed : Option Range → (Range → Bool × List Range) → List Range → Bool × List Range
parsed none rest ranges = (false, ranges)
parsed (some r) rest ranges = rest r

unfoldable pub parse_args : ℕ → List String → List Range → Bool × List Range
parse_args width [] ranges = (true, sort ranges)
parse_args width (arg ∷ args) ranges =
    parsed (parse_range width arg) (λ r. parse_args width args (ranges ++ (r ∷ []))) ranges

abbrev pub parse_from : ℕ → List String → Bool × List Range
parse_from width args = parse_args width args []

-- A range of users that a command may name.
abbrev pub IsUidRange : Range → Type 0
IsUidRange (a, b) = (a ≤ b) × (b < invalid_uid)

abbrev Each : Option Range → Type 0
Each none = Unit
Each (some r) = IsUidRange r

checked-Each : (a b : ℕ) → a ≤ b → b < 2 ^ 32 → Each (checked a b)
checked-Each a b h k =
    if_cases Each (a == invalid_uid || b == invalid_uid) (λ _. tt) (λ valid. (h, ground arith))

ended-Each : (a : ℕ) (found : ℕ × String) → Each (ended a found)
ended-Each a (n, empty) =
    if_cases Each (ltb (n % 2 ^ 32) a) (λ _. tt)
      (λ in_order. checked-Each a (n % 2 ^ 32) (ground arith) (omega arith))
ended-Each a (n, c ▸ s) = tt

dashed-Each : (width a : ℕ) (s : String) → Each (dashed width a s)
dashed-Each width a empty = tt
dashed-Each width a (c ▸ s) = ended-Each a (strtoul width 0 (c ▸ s))

started-Each : (width : ℕ) (found : ℕ × String) → Each (started width found)
started-Each width (n, empty) = checked-Each (n % 2 ^ 32) (n % 2 ^ 32) (omega arith) (omega arith)
started-Each width (n, c ▸ s) =
    if_cases Each (code c == 45) (λ _. dashed-Each width (n % 2 ^ 32) s) (λ _. tt)

parse_range-Each : (width : ℕ) (s : String) → Each (parse_range width s)
unfolding parse_range
parse_range-Each width empty = tt
parse_range-Each width (c ▸ s) = started-Each width (strtoul width 0 (c ▸ s))

module _ (P : Range → Type 0) where
  merge-All : (xs ys : List Range) → All P xs → All P ys → All P (merge xs ys)
  unfolding merge
  merge-All [] ys hx hy = hy
  merge-All (x ∷ xs) [] hx hy = hx
  merge-All (x ∷ xs) (y ∷ ys) hx hy =
      if_cases (All P) (less y x) (λ _. (hy.0, merge-All (x ∷ xs) ys hx hy.1))
        (λ _. (hx.0, merge-All xs (y ∷ ys) hx.1 hy))

  sort-All : (ranges : List Range) → All P ranges → All P (sort ranges)
  unfolding sort
  sort-All [] h = tt
  sort-All (r ∷ ranges) h = merge-All (r ∷ []) (sort ranges) (h.0, tt) (sort-All ranges h.1)

  All-snoc : (ranges : List Range) (r : Range) → All P ranges → P r → All P (ranges ++ (r ∷ []))
  All-snoc [] r h p = (p, tt)
  All-snoc (s ∷ ranges) r h p = (h.0, All-snoc ranges r h.1 p)

-- What a success gives.
abbrev Good : Bool × List Range → Type 0
Good (true, ranges) = IsSorted ranges × All IsUidRange ranges
Good (false, ranges) = Unit

parsed-Good :
    (o : Option Range) (rest : Range → Bool × List Range) (ranges : List Range)
    → Each o
    → ((r : Range) → IsUidRange r → Good (rest r))
    → Good (parsed o rest ranges)
parsed-Good none rest ranges h k = tt
parsed-Good (some r) rest ranges h k = k r h

parse_args-Good :
    (width : ℕ) (args : List String) (ranges : List Range)
    → All IsUidRange ranges
    → Good (parse_args width args ranges)
unfolding parse_args
parse_args-Good width [] ranges h = (sort-IsSorted ranges, sort-All IsUidRange ranges h)
parse_args-Good width (arg ∷ args) ranges h =
    parsed-Good (parse_range width arg) _ ranges (parse_range-Each width arg)
      (λ r v. parse_args-Good width args (ranges ++ (r ∷ [])) (All-snoc IsUidRange ranges r h v))

-- Ranges that were parsed without an error are sorted, none ends before it starts, and none
-- reaches the invalid user.
pub parse_from-IsSorted :
    (width : ℕ) (args : List String) (ranges : List Range)
    → parse_from width args ≡ (true, ranges)
    → IsSorted ranges × All IsUidRange ranges
parse_from-IsSorted width args ranges e = subst Good e (parse_args-Good width args [] tt)
