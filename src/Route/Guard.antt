-- ===== src/Route/Guard.antt =====
-- The guard of `modifyIpRule`, on the marks and masks that the rules are made with.
use platform_system_netd.Prelude.{
  ℕ, zero, suc, ◌-◌, ◌%◌, ◌^◌, ◌<◌, ◌≡◌, refl, Bool, false, not, ◌&&◌, bit_and, arith,
}
use platform_system_netd.Fwmark.{Fwmark, int_value, IsFwmark}
use platform_system_netd.Fwmark.Bits.{bit_and-zero}
use platform_system_netd.Fwmark.Masks.{complement, bit_and-int_value, complement-int_value}
use platform_system_netd.Route.Requests.{outside_mask}

-- Field by field, no bit of a mark is outside its mask.
pub record IsWithin (f m : Fwmark) : Type 0 where
  pub mark : IsFwmark f
  pub mask : IsFwmark m
  pub net_id : bit_and f.net_id (2 ^ 16 - 1 - m.net_id) ≡ 0
  pub explicitly_selected : (f.explicitly_selected && not m.explicitly_selected) ≡ false
  pub protected_from_vpn : (f.protected_from_vpn && not m.protected_from_vpn) ≡ false
  pub permission : bit_and f.permission (3 - m.permission) ≡ 0
  pub padding : bit_and f.padding (2 ^ 12 - 1 - m.padding) ≡ 0

complement-IsFwmark : (m : Fwmark) → IsFwmark (complement m)
complement-IsFwmark m = omega arith

pub within-outside_mask :
    (f m : Fwmark) → IsWithin f m → outside_mask (int_value f) (int_value m) ≡ false
unfolding outside_mask int_value
within-outside_mask f m h =
    rw
      (
        complement-int_value m h.mask,
        bit_and-int_value f (complement m) h.mark (complement-IsFwmark m),
      )
      (ground arith)

bit_and-complement : (p : ℕ) → p < 4 → bit_and p (3 - p) ≡ 0
bit_and-complement zero h = refl
bit_and-complement (suc zero) h = refl
bit_and-complement (suc (suc zero)) h = refl
bit_and-complement (suc (suc (suc zero))) h = refl
bit_and-complement (suc (suc (suc (suc p)))) h = absurd (omega arith)

-- A mark with no padding and the permission of its mask: only the other fields need a proof.
abbrev pub fields : ℕ → Bool → Bool → ℕ → Fwmark
fields n e s p = record {
  net_id = n;
  explicitly_selected = e;
  protected_from_vpn = s;
  permission = p % 4;
  padding = 0;
}

module _ (p : ℕ) (e e' s s' : Bool) (he : (e && not e') ≡ false) (hs : (s && not s') ≡ false) where
  -- A rule for one network: the mask covers the whole net id.
  pub net-IsWithin : (n : ℕ) → IsWithin (fields (n % 2 ^ 16) e s p) (fields 65535 e' s' p)
  net-IsWithin n = record {
    mark = omega arith;
    mask = omega arith;
    net_id = bit_and-zero 16 (n % 2 ^ 16) (omega arith);
    explicitly_selected = he;
    protected_from_vpn = hs;
    permission = bit_and-complement (p % 4) (omega arith);
    padding = refl;
  }

  -- A rule for any network.
  pub any_net-IsWithin : IsWithin (fields 0 e s p) (fields 0 e' s' p)
  any_net-IsWithin = record {
    mark = omega arith;
    mask = omega arith;
    net_id = refl;
    explicitly_selected = he;
    protected_from_vpn = hs;
    permission = bit_and-complement (p % 4) (omega arith);
    padding = refl;
  }
