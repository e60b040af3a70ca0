-- ===== src/Fwmark/Bits.antt =====
-- `&` of numbers that are made of fields, at every width. Nothing here is about the marks alone.
use Prim.Native.Nat.{min, digits, bit_and-bitwise}
use native.Mathlib.Nat.{pow-suc, one-le-pow, zero-add, suc-add}
use platform_system_netd.Prelude.{
  ℕ, zero, suc, ◌+◌, ◌-◌, ◌*◌, ◌/◌, ◌%◌, ◌^◌, ◌≤◌, ◌<◌, ◌≡◌, refl, sym, ap, ◌∙◌, bit_and, arith,
}

-- The recursion on binary digits that `&` stands for, its fuel first.
abbrev low_to_high : ℕ → ℕ → ℕ → ℕ
low_to_high = digits (λ _. zero) min

-- One more unit of fuel than the number needs changes nothing, hence any surplus.
spare_unit : (n a b : ℕ) → a ≤ n → low_to_high (suc n) a b ≡ low_to_high n a b
spare_unit zero zero b h = refl
spare_unit (suc n) zero b h = refl
spare_unit zero (suc a) b h = absurd (omega arith)
spare_unit (suc n) (suc a) b h =
    ap (λ (t : ℕ). t * 2 + min (suc a % 2) (b % 2)) (spare_unit n (suc a / 2) (b / 2) (omega arith))

spare_fuel : (d n a b : ℕ) → a ≤ n → low_to_high (d + n) a b ≡ low_to_high n a b
spare_fuel zero n a b h = rw zero-add
spare_fuel (suc d) n a b h =
    rw suc-add (spare_unit (d + n) a b (omega arith) ∙ spare_fuel d n a b h)

pub zero-bit_and : (b : ℕ) → bit_and 0 b ≡ 0
zero-bit_and b = bit_and-bitwise 0 b

-- The lowest digit of `&`, and the rest.
pub bit_and_halves : (a b : ℕ) → bit_and a b ≡ bit_and (a / 2) (b / 2) * 2 + min (a % 2) (b % 2)
bit_and_halves zero b = omega (arith, zero-bit_and b, zero-bit_and (b / 2))
bit_and_halves (suc a) b =
    let half : ℕ = suc a / 2 in
    let spare : a ≡ (a - half) + half = omega arith in
    bit_and-bitwise (suc a) b
    ∙ ap (λ (t : ℕ). t * 2 + min (suc a % 2) (b % 2))
        (ap (λ (n : ℕ). low_to_high n half (b / 2)) spare
          ∙ spare_fuel (a - half) half half (b / 2) (omega arith)
          ∙ sym (bit_and-bitwise half (b / 2)))

scale-suc : (q k : ℕ) → q * 2 ^ suc k ≡ 2 * (q * 2 ^ k)
scale-suc q k = omega (arith, ap (λ (t : ℕ). q * t) (pow-suc 2 k))

-- `&` goes field by field: two numbers cut at bit `k`.
pub bit_and_cut :
    (k q r s t : ℕ)
    → r < 2 ^ k
    → t < 2 ^ k
    → bit_and (q * 2 ^ k + r) (s * 2 ^ k + t) ≡ bit_and q s * 2 ^ k + bit_and r t
bit_and_cut zero q r s t hr ht = ground (arith, zero-bit_and 0)
bit_and_cut (suc k) q r s t hr ht = ground (
  arith,
  bit_and_halves (q * 2 ^ suc k + r) (s * 2 ^ suc k + t),
  bit_and_halves r t,
  scale-suc q k,
  scale-suc s k,
  scale-suc (bit_and q s) k,
  pow-suc 2 k,
  bit_and_cut k q (r / 2) s (t / 2) (omega (arith, pow-suc 2 k)) (omega (arith, pow-suc 2 k)),
)

-- A mask of ones keeps a number that fits it.
pub bit_and_ones : (k r : ℕ) → r < 2 ^ k → bit_and r (2 ^ k - 1) ≡ r
bit_and_ones zero r h = ground (arith, zero-bit_and 0)
bit_and_ones (suc k) r h = ground (
  arith,
  bit_and_halves r (2 ^ suc k - 1),
  pow-suc 2 k,
  one-le-pow k 2,
  bit_and_ones k (r / 2) (omega (arith, pow-suc 2 k)),
)

-- A mask of zeros keeps nothing.
pub bit_and-zero : (k r : ℕ) → r < 2 ^ k → bit_and r 0 ≡ 0
bit_and-zero zero r h = ground (arith, zero-bit_and 0)
bit_and-zero (suc k) r h =
    ground (arith, bit_and_halves r 0, bit_and-zero k (r / 2) (omega (arith, pow-suc 2 k)))

pub bit_and-lt : (k r s : ℕ) → r < 2 ^ k → bit_and r s < 2 ^ k
bit_and-lt zero r s h = ground (arith, zero-bit_and s)
bit_and-lt (suc k) r s h = ground (
  arith,
  bit_and_halves r s,
  pow-suc 2 k,
  bit_and-lt k (r / 2) (s / 2) (omega (arith, pow-suc 2 k)),
)
