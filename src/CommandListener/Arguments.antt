-- ===== src/CommandListener/Arguments.antt =====
-- server/CommandListener.cpp: how the words of a command are read.
use Prim.Native.Char.{code}
use Prim.Native.String.{[] as empty, ◌∷◌ as ◌▸◌}
use platform_system_netd.Prelude.{
  ℕ, ◌+◌, ◌-◌, ◌%◌, ◌^◌, Bool, true, false, not, ◌&&◌, Option, none, some, List, [], ◌∷◌, String,
  leb, ltb, if◌then◌else◌, ◌==◌, str_eq,
}
use platform_system_netd.Fwmark.{permission_none, permission_network, permission_system}
use platform_system_netd.CStrings.{strtoul, skip_spaces, take_sign, digits}
use platform_system_netd.Route.Rules.{net_id_unset}
use platform_system_netd.Controller.State.{local_net_id, min_oem_id, max_oem_id}

-- `!strcmp(a, b)`
infix 50 ◌is◌
abbrev pub ◌is◌ : String → String → Bool
a is b = str_eq a b

abbrev pub num_oem_ids : ℕ
num_oem_ids = max_oem_id - min_oem_id + 1

unfoldable pub string_to_permission : String → ℕ
string_to_permission arg =
    if arg is "NETWORK"
    then permission_network
    else if arg is "SYSTEM"
    then permission_system
    else permission_none

-- What follows the letters "oem", if they come first.
abbrev pub after_oem : String → Option String
after_oem (o ▸ (e ▸ (m ▸ rest))) =
    if code o == 111 && code e == 101 && code m == 109 then some rest else none
after_oem arg = none

-- The full width of a long is assigned to 32 bits.
abbrev pub unsigned_of : ℕ → String → ℕ
unsigned_of width arg = (strtoul width 0 arg).0 % 2 ^ 32

abbrev pub oem_net_id : ℕ → ℕ
oem_net_id n = if leb 1 n && leb n num_oem_ids then min_oem_id + n else net_id_unset

abbrev pub named_net_id : ℕ → String → Option String → ℕ
named_net_id width arg (some rest) = oem_net_id (unsigned_of width rest)
named_net_id width arg none = unsigned_of width arg

unfoldable pub string_to_net_id : ℕ → String → ℕ
string_to_net_id width arg =
    if arg is "local" then local_net_id else named_net_id width arg (after_oem arg)

-- The bits of the long that strtol makes of a sign and a number.
abbrev to_long : ℕ → Bool → ℕ → ℕ
to_long width true n = 2 ^ width - (if ltb (2 ^ (width - 1)) n then 2 ^ (width - 1) else n)
to_long width false n = if ltb n (2 ^ (width - 1)) then n else 2 ^ (width - 1) - 1

abbrev strtol : ℕ → String → ℕ
strtol width arg =
    let (negative, rest) = take_sign (skip_spaces arg) in
    to_long width negative (digits 10 0 rest).0

-- An int, as its 32 bits, and a long long, as its 64 bits.
unfoldable pub atoi : ℕ → String → ℕ
atoi width arg = strtol width arg % 2 ^ 32

unfoldable pub atoll : String → ℕ
atoll arg = strtol 64 arg % 2 ^ 64

-- An int as a bool.
abbrev pub atoi_is_set : ℕ → String → Bool
atoi_is_set width arg = not (atoi width arg == 0)

-- A number to the end of the text, in base 8, 10 or 16.
abbrev pub whole : ℕ × String → Option ℕ
whole (n, empty) = some (n % 2 ^ 32)
whole (n, c ▸ s) = none

abbrev pub read_id : ℕ → String → Option ℕ
read_id width empty = none
read_id width (c ▸ s) = whole (strtoul width 0 (c ▸ s))

abbrev pub add_id : Option ℕ → Option (List ℕ) → Option (List ℕ)
add_id (some id) (some ids) = some (id ∷ ids)
add_id id ids = none

-- All ids of a command, unless one of them is not a number.
unfoldable pub read_ids : ℕ → List String → Option (List ℕ)
read_ids width [] = some []
read_ids width (arg ∷ args) = add_id (read_id width arg) (read_ids width args)

-- Users whose numbers are not checked.
unfoldable pub read_users : ℕ → List String → List ℕ
read_users width [] = []
read_users width (arg ∷ args) = unsigned_of width arg ∷ read_users width args
