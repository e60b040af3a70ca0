-- ===== src/Fwmark/Fields.antt =====
-- The two readings of the union agree.
use platform_system_netd.Prelude.{◌≡◌, arith}
use platform_system_netd.Fwmark.{Fwmark, int_value, of_int, IsFwmark}

-- A mark with fields in their ranges is read back from its value.
pub of_int-int_value : (f : Fwmark) → IsFwmark f → of_int (int_value f) ≡ f
unfolding int_value of_int
of_int-int_value f v = ground arith
