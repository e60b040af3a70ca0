-- ===== src/Fwmark/Masks.antt =====
-- `mark & mask` read field by field: what the kernel's rules and the guard of `modifyIpRule` see.
use platform_system_netd.Prelude.{
  ℕ, ◌+◌, ◌-◌, ◌*◌, ◌^◌, ◌<◌, ◌≡◌, refl, ◌∙◌, sym, ap, Bool, true, false, not, ◌&&◌, bit_and, arith,
}
use mathlib.Core.Path.{ap₂}
use native.Mathlib.Nat.{add_comm, mul_comm}
use platform_system_netd.Fwmark.{Fwmark, flag, int_value, of_int, IsFwmark}
use platform_system_netd.Fwmark.Bits.{bit_and_cut, bit_and-lt}
use platform_system_netd.Fwmark.Fields.{of_int-int_value}

abbrev pub and_fields : Fwmark → Fwmark → Fwmark
and_fields f m = record {
  net_id = bit_and f.net_id m.net_id;
  explicitly_selected = f.explicitly_selected && m.explicitly_selected;
  protected_from_vpn = f.protected_from_vpn && m.protected_from_vpn;
  permission = bit_and f.permission m.permission;
  padding = bit_and f.padding m.padding;
}

abbrev pub complement : Fwmark → Fwmark
complement m = record {
  net_id = 2 ^ 16 - 1 - m.net_id;
  explicitly_selected = not m.explicitly_selected;
  protected_from_vpn = not m.protected_from_vpn;
  permission = 3 - m.permission;
  padding = 2 ^ 12 - 1 - m.padding;
}

flag-and : (a b : Bool) → bit_and (flag a) (flag b) ≡ flag (a && b)
flag-and true true = refl
flag-and true false = refl
flag-and false true = refl
flag-and false false = refl

flag-lt : (a : Bool) → flag a < 2
flag-lt true = omega arith
flag-lt false = omega arith

-- One field at the low end: `x + 2 ^ k * rest`.
bit_and_low :
    (k x p y q : ℕ)
    → x < 2 ^ k
    → y < 2 ^ k
    → bit_and (x + 2 ^ k * p) (y + 2 ^ k * q) ≡ bit_and x y + 2 ^ k * bit_and p q
bit_and_low k x p y q hx hy =
    rw (add_comm x (2 ^ k * p), add_comm y (2 ^ k * q), mul_comm (2 ^ k) p, mul_comm (2 ^ k) q)
      (bit_and_cut k p x q y hx hy
        ∙ add_comm (bit_and p q * 2 ^ k) (bit_and x y)
        ∙ ap (λ (t : ℕ). bit_and x y + t) (mul_comm (bit_and p q) (2 ^ k)))

-- The struct without its net id, and without its first flag too.
abbrev from_protect : Fwmark → ℕ
from_protect f = flag f.protected_from_vpn + 2 * (f.permission + 4 * f.padding)

abbrev upper : Fwmark → ℕ
upper f = flag f.explicitly_selected + 2 * from_protect f

bit_and-from_protect :
    (f m : Fwmark)
    → IsFwmark f
    → IsFwmark m
    → bit_and (from_protect f) (from_protect m) ≡ from_protect (and_fields f m)
bit_and-from_protect f m hf hm =
    bit_and_low 1 (flag f.protected_from_vpn) (f.permission + 4 * f.padding)
      (flag m.protected_from_vpn) (m.permission + 4 * m.padding) (flag-lt f.protected_from_vpn)
      (flag-lt m.protected_from_vpn)
    ∙ ap₂ (λ (s t : ℕ). s + 2 * t) (flag-and f.protected_from_vpn m.protected_from_vpn)
        (bit_and_low 2 f.permission f.padding m.permission m.padding hf.permission hm.permission)

bit_and-upper :
    (f m : Fwmark) → IsFwmark f → IsFwmark m → bit_and (upper f) (upper m) ≡ upper (and_fields f m)
bit_and-upper f m hf hm =
    bit_and_low 1 (flag f.explicitly_selected) (from_protect f) (flag m.explicitly_selected)
      (from_protect m) (flag-lt f.explicitly_selected) (flag-lt m.explicitly_selected)
    ∙ ap₂ (λ (s t : ℕ). s + 2 * t) (flag-and f.explicitly_selected m.explicitly_selected)
        (bit_and-from_protect f m hf hm)

-- The conjunction of the values of two marks, with fields in their ranges, is the value of the
-- conjunction of their fields.
pub bit_and-int_value :
    (f m : Fwmark)
    → IsFwmark f
    → IsFwmark m
    → bit_and (int_value f) (int_value m) ≡ int_value (and_fields f m)
unfolding int_value
bit_and-int_value f m hf hm =
    bit_and_low 16 f.net_id (upper f) m.net_id (upper m) hf.net_id hm.net_id
    ∙ ap (λ (t : ℕ). bit_and f.net_id m.net_id + 2 ^ 16 * t) (bit_and-upper f m hf hm)

pub complement-int_value :
    (m : Fwmark) → IsFwmark m → 2 ^ 32 - 1 - int_value m ≡ int_value (complement m)
unfolding int_value
complement-int_value m h = ground arith

pub and_fields-IsFwmark : (f m : Fwmark) → IsFwmark f → IsFwmark (and_fields f m)
and_fields-IsFwmark f m h = record {
  net_id = bit_and-lt 16 f.net_id m.net_id h.net_id;
  permission = bit_and-lt 2 f.permission m.permission h.permission;
  padding = bit_and-lt 12 f.padding m.padding h.padding;
}

pub int_value_inj : (f g : Fwmark) → IsFwmark f → IsFwmark g → int_value f ≡ int_value g → f ≡ g
int_value_inj f g hf hg e = sym (of_int-int_value f hf) ∙ ap of_int e ∙ of_int-int_value g hg
