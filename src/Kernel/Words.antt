-- ===== src/Kernel/Words.antt =====
-- Words of commands and messages as they are printed.
use Prim.Native.String.{len}
use platform_system_netd.Prelude.{
  ℕ, zero, suc, ◌+◌, ◌-◌, ◌/◌, ◌^◌, ◌≤◌, List, [], ◌∷◌, ltb, arith, if◌then◌else◌,
}
use platform_system_netd.Kernel.{Word, text, hex, decimal, minus}

-- A number of a signed type with so many bits, as `%d` and PRId64 print it.
abbrev pub signed : ℕ → ℕ → Word
signed bits n = if ltb n (2 ^ (bits - 1)) then decimal n else minus (2 ^ bits - n)

-- The digits of a number, which 20 rounds suffice for in 64 bits.
unfoldable pub count_digits : ℕ → ℕ → ℕ → ℕ
count_digits base zero n = 1
count_digits base (suc fuel) n =
    let more = count_digits base fuel (n / base) in if ltb n base then 1 else suc more

abbrev pub word_length : Word → ℕ
word_length (text s) = len s
word_length (hex n) = 2 + count_digits 16 20 n
word_length (decimal n) = count_digits 10 20 n
word_length (minus n) = 1 + count_digits 10 20 n

-- The words with nothing between them.
abbrev pub joined_length : List Word → ℕ
joined_length [] = 0
joined_length (w ∷ words) = word_length w + joined_length words

pub count_digits-le : (base fuel n : ℕ) → count_digits base fuel n ≤ suc fuel
unfolding count_digits
count_digits-le base zero n = omega arith
count_digits-le base (suc fuel) n = ground (arith, count_digits-le base fuel (n / base))
