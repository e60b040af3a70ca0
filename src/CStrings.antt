-- ===== src/CStrings.antt =====
-- `strtoul` of the C library as server/UidRanges.cpp and server/NetdConstants.cpp use it, on texts
-- as lists of characters. The width of an unsigned long is a parameter.
pub mod Scan
use Prim.Native.Char.{code}
use Prim.Native.String.{[], ◌∷◌}
use platform_system_netd.Prelude.{
  ℕ, ◌+◌, ◌-◌, ◌*◌, ◌%◌, ◌^◌, Bool, true, false, ◌&&◌, ◌||◌, String, leb, ltb, ◌==◌, if◌then◌else◌,
}

abbrev pub is_space : ℕ → Bool
is_space c = c == 32 || leb 9 c && leb c 13

-- The value of a digit or a letter, and more than any base for another character.
abbrev pub digit_value : ℕ → ℕ
digit_value c =
    if leb 48 c && leb c 57
    then c - 48
    else if leb 97 c && leb c 122
    then c - 87
    else if leb 65 c && leb c 90
    then c - 55
    else 36

unfoldable pub skip_spaces : String → String
skip_spaces [] = []
skip_spaces (c ∷ s) = let rest = skip_spaces s in if is_space (code c) then rest else c ∷ s

-- Whether a minus sign stands in front, and what follows the sign.
abbrev pub take_sign : String → Bool × String
take_sign [] = (false, [])
take_sign (c ∷ s) =
    if code c == 45 then (true, s) else if code c == 43 then (false, s) else (false, c ∷ s)

abbrev pub starts_with_digit : ℕ → String → Bool
starts_with_digit base [] = false
starts_with_digit base (c ∷ s) = ltb (digit_value (code c)) base

-- The base that base 0 stands for, and the text after its prefix.
abbrev find_base : String → ℕ × String
find_base [] = (10, [])
find_base (c ∷ []) = (if code c == 48 then 8 else 10, c ∷ [])
find_base (c ∷ d ∷ s) =
    if code c == 48
    then if (code d == 120 || code d == 88) && starts_with_digit 16 s
      then (16, s)
      else (8, c ∷ d ∷ s)
    else (10, c ∷ d ∷ s)

abbrev based : ℕ → String → ℕ × String
based base s = if base == 0 then find_base s else (base, s)

-- The number that the digits in front make, after those that made `n`, and the rest.
unfoldable pub digits : ℕ → ℕ → String → ℕ × String
digits base n [] = (n, [])
digits base n (c ∷ s) =
    let more = digits base (n * base + digit_value (code c)) s in
    if ltb (digit_value (code c)) base then more else (n, c ∷ s)

-- Out of range the answer is ULONG_MAX; a minus sign negates the number in the type.
abbrev in_type : ℕ → Bool → ℕ → ℕ
in_type width negative n =
    if ltb n (2 ^ width) then if negative then (2 ^ width - n) % 2 ^ width else n else 2 ^ width - 1

abbrev read_digits : ℕ → Bool → String → ℕ × String → ℕ × String
read_digits width negative whole (base, s) =
    if starts_with_digit base s
    then (in_type width negative (digits base 0 s).0, (digits base 0 s).1)
    else (0, whole)

-- The number and what `*endptr` points to: the whole text if there is no number.
unfoldable pub strtoul : ℕ → ℕ → String → ℕ × String
strtoul width base s =
    let (negative, rest) = take_sign (skip_spaces s) in
    read_digits width negative s (based base rest)
