-- ===== src/CStrings/Scan.antt =====
-- `fgets` and `sscanf` of the C library as server/BandwidthController.cpp uses them.
use Prim.Native.Char.{Char, code}
use Prim.Native.String.{[] as empty, ◌∷◌ as ◌▸◌}
use platform_system_netd.Prelude.{
  ℕ, ◌-◌, ◌^◌, Bool, ◌||◌, Option, none, some, List, [], ◌∷◌, String, ltb, ◌==◌, if◌then◌else◌,
}
use platform_system_netd.CStrings.{is_space, take_sign, starts_with_digit, digits, skip_spaces}

abbrev prepend : Char → List String → List String
prepend c [] = (c ▸ empty) ∷ []
prepend c (piece ∷ pieces) = (c ▸ piece) ∷ pieces

-- The pieces that repeated calls of `fgets` read: up to the end of a line, or `most` characters.
-- There is room for so many more in the first.
unfoldable pub fgets_all : ℕ → ℕ → String → List String
fgets_all most room empty = []
fgets_all most room (c ▸ s) =
    let last = code c == 10 || room == 1 in
    let rest = fgets_all most (if last then most else room - 1) s in
    if last then (c ▸ empty) ∷ rest else prepend c rest

-- A space, text that must stand there, `%lld`, and `%s`.
pub data Directive : Type 0 where
  space long word : Directive
  literal : String → Directive

-- A number is of 64 bits, in two's complement.
pub data Scanned : Type 0 where
  number : ℕ → Scanned
  name : String → Scanned

unfoldable pub strip_prefix : String → String → Option String
strip_prefix empty s = some s
strip_prefix (c ▸ t) empty = none
strip_prefix (c ▸ t) (d ▸ s) =
    let rest = strip_prefix t s in if code c == code d then rest else none

-- What stands before the first space, and the rest.
unfoldable pub split_word : String → String × String
split_word empty = (empty, empty)
split_word (c ▸ s) =
    let (w, rest) = split_word s in if is_space (code c) then (empty, c ▸ s) else (c ▸ w, rest)

abbrev in_range : Bool → ℕ → ℕ
in_range negative n =
    if negative
    then if ltb (2 ^ 63) n then 2 ^ 63 else if n == 0 then 0 else 2 ^ 64 - n
    else if ltb n (2 ^ 63)
    then n
    else 2 ^ 63 - 1

abbrev on_number : Bool → (String → List Scanned) → ℕ × String → List Scanned
on_number negative rest (n, s) = number (in_range negative n) ∷ rest s

abbrev on_sign : (String → List Scanned) → Bool × String → List Scanned
on_sign rest (negative, s) =
    if starts_with_digit 10 s then on_number negative rest (digits 10 0 s) else []

abbrev on_literal : (String → List Scanned) → Option String → List Scanned
on_literal rest none = []
on_literal rest (some s) = rest s

abbrev on_word : (String → List Scanned) → String × String → List Scanned
on_word rest (empty, s) = []
on_word rest (c ▸ w, s) = name (c ▸ w) ∷ rest s

-- The conversions that were made before the text did not fit.
unfoldable pub sscanf : List Directive → String → List Scanned
sscanf [] s = []
sscanf (space ∷ format) s = sscanf format (skip_spaces s)
sscanf (literal t ∷ format) s = on_literal (λ rest. sscanf format rest) (strip_prefix t s)
sscanf (long ∷ format) s = on_sign (λ rest. sscanf format rest) (take_sign (skip_spaces s))
sscanf (word ∷ format) s = on_word (λ rest. sscanf format rest) (split_word (skip_spaces s))
