-- ===== src/Prefix.antt =====
-- server/NetdConstants.cpp: `parsePrefix` and `isIfaceName`.
use Prim.Native.Char.{code}
use Prim.Native.String.{[] as empty, ◌∷◌ as ◌▸◌, len}
use platform_system_netd.Prelude.{
  ℕ, ◌≤◌, ◌*◌, ◌%◌, ◌^◌, ◌≡◌, ◌≢◌, subst, Bool, true, false, ◌&&◌, ◌||◌, Option, none, some, List,
  String, arith, leb, ltb, ◌==◌, if◌then◌else◌, if_cases,
}
use platform_system_netd.Kernel.{Kernel, Family, inet, inet6, Result, ok, err}
use platform_system_netd.Kernel.Errno.{efault, einval, eafnosupport, enospc, eexist}
use platform_system_netd.CStrings.{strtoul}
use platform_system_netd.Route.Requests.{ifnamsiz}

-- `isalnum` in the C locale
abbrev is_alnum : ℕ → Bool
is_alnum c = leb 48 c && leb c 57 || leb 65 c && leb c 90 || leb 97 c && leb c 122

unfoldable pub is_name_rest : String → Bool
is_name_rest empty = true
is_name_rest (c ▸ s) =
    (is_alnum (code c) || code c == 95 || code c == 45 || code c == 58) && is_name_rest s

abbrev starts_well : String → Bool
starts_well empty = false
starts_well (c ▸ s) = is_alnum (code c) && is_name_rest s

unfoldable pub is_iface_name : String → Bool
is_iface_name name = if len name == 0 || ltb ifnamsiz (len name) then false else starts_well name

-- The bytes of an address, and the longest prefix of it.
abbrev pub raw_length : Family → ℕ
raw_length inet = 4
raw_length inet6 = 16

abbrev longest_prefix : Family → ℕ
longest_prefix inet = 32
longest_prefix inet6 = 128

-- What stands before the first slash and after it.
abbrev prepend : Option (String × String) → (String → String) → Option (String × String)
prepend none f = none
prepend (some (a, b)) f = some (f a, b)

unfoldable pub split_at_slash : String → Option (String × String)
split_at_slash empty = none
split_at_slash (c ▸ s) =
    let rest = split_at_slash s in
    if code c == 47 then some (empty, s) else prepend rest (λ a. c ▸ a)

-- The length, as an unsigned int that must fit a byte.
abbrev prefix_length : ℕ × String → Result ℕ
prefix_length (n, empty) = if ltb 255 (n % 2 ^ 32) then err einval else ok (n % 2 ^ 32)
prefix_length (n, c ▸ s) = err einval

abbrev pub Parsed : Type 0
Parsed = Family × List ℕ × ℕ

abbrev with_family : ℕ → ℕ → List ℕ → Option Family → Result Parsed
with_family size length bytes none = err eafnosupport
with_family size length bytes (some family) =
    if ltb (longest_prefix family) length
    then err einval
    else if ltb size (raw_length family)
    then err enospc
    else ok (family, bytes, length)

abbrev with_address : ℕ → ℕ → Option (Option Family × List ℕ) → Result Parsed
with_address size length none = err einval
with_address size length (some (family, bytes)) = with_family size length bytes family

module _ (kernel : Kernel) (width : ℕ) where
  abbrev with_length : ℕ → String → Result ℕ → Result Parsed
  with_length size address (err e) = err e
  with_length size address (ok length) = with_address size length (kernel.getaddrinfo address)

  abbrev with_slash : ℕ → Option (String × String) → Result Parsed
  with_slash size none = err einval
  with_slash size (some (address, empty)) = err einval
  with_slash size (some (address, c ▸ s)) =
      with_length size address (prefix_length (strtoul width 10 (c ▸ s)))

  unfoldable pub parse_prefix : Option String → ℕ → Result Parsed
  parse_prefix none size = err efault
  parse_prefix (some prefix) size = with_slash size (split_at_slash prefix)

-- What a success gives, and an errno that no failure is.
abbrev pub IsParsed : ℕ → Result Parsed → Type 0
IsParsed size (ok (family, bytes, length)) =
    (length ≤ 8 * raw_length family) × (raw_length family ≤ size)
IsParsed size (err e) = e ≢ eexist

abbrev IsLength : Result ℕ → Type 0
IsLength (ok n) = Unit
IsLength (err e) = e ≢ eexist

prefix_length-IsLength : (found : ℕ × String) → IsLength (prefix_length found)
prefix_length-IsLength (n, empty) =
    if_cases IsLength (ltb 255 (n % 2 ^ 32)) (λ _. omega arith) (λ _. tt)
prefix_length-IsLength (n, c ▸ s) = omega arith

longest-IsParsed :
    (size length : ℕ) (bytes : List ℕ) (family : Option Family)
    → IsParsed size (with_family size length bytes family)
longest-IsParsed size length bytes none = omega arith
longest-IsParsed size length bytes (some inet) =
    if_cases (IsParsed size) (ltb 32 length) (λ _. omega arith)
      λ short.
        if_cases (IsParsed size) (ltb size 4) (λ _. omega arith)
          (λ fits. (ground arith, ground arith))
longest-IsParsed size length bytes (some inet6) =
    if_cases (IsParsed size) (ltb 128 length) (λ _. omega arith)
      λ short.
        if_cases (IsParsed size) (ltb size 16) (λ _. omega arith)
          (λ fits. (ground arith, ground arith))

module _ (kernel : Kernel) (width size : ℕ) where
  address-IsParsed :
      (length : ℕ) (found : Option (Option Family × List ℕ))
      → IsParsed size (with_address size length found)
  address-IsParsed length none = omega arith
  address-IsParsed length (some (family, bytes)) = longest-IsParsed size length bytes family

  length-IsParsed :
      (address : String) (r : Result ℕ)
      → IsLength r
      → IsParsed size (with_length kernel width size address r)
  length-IsParsed address (err e) h = h
  length-IsParsed address (ok length) h = address-IsParsed length (kernel.getaddrinfo address)

  slash-IsParsed :
      (split : Option (String × String)) → IsParsed size (with_slash kernel width size split)
  slash-IsParsed none = omega arith
  slash-IsParsed (some (address, empty)) = omega arith
  slash-IsParsed (some (address, c ▸ s)) =
      length-IsParsed address (prefix_length (strtoul width 10 (c ▸ s)))
        (prefix_length-IsLength (strtoul width 10 (c ▸ s)))

  pub prefix-IsParsed :
      (prefix : Option String) → IsParsed size (parse_prefix kernel width prefix size)
  unfolding parse_prefix
  prefix-IsParsed none = omega arith
  prefix-IsParsed (some prefix) = slash-IsParsed (split_at_slash prefix)

  -- A prefix that was parsed is no longer than its address, and the address fits the buffer.
  pub parse_prefix_fits :
      (prefix : Option String) (family : Family) (bytes : List ℕ) (length : ℕ)
      → parse_prefix kernel width prefix size ≡ ok (family, bytes, length)
      → (length ≤ 8 * raw_length family) × (raw_length family ≤ size)
  parse_prefix_fits prefix family bytes length e = subst (IsParsed size) e (prefix-IsParsed prefix)
