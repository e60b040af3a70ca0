-- ===== src/TetherController/Forwarding.antt =====
-- server/TetherController.cpp: the switches of the kernel for forwarding.
use Prim.Native.Char.{code}
use Prim.Native.String.{[] as empty, ◌∷◌ as ◌▸◌}
use platform_system_netd.Prelude.{
  Bool, true, false, not, ◌&&◌, Option, none, some, [], ◌∷◌, String, str_eq, ◌==◌, if◌then◌else◌,
}
use platform_system_netd.Kernel.{Kernel, World, text, write_file, record_call}

abbrev ip4_cfg_ip_forward : String
ip4_cfg_ip_forward = "/proc/sys/net/ipv4/ip_forward"

abbrev ip6_cfg_all_proxy_ndp : String
ip6_cfg_all_proxy_ndp = "/proc/sys/net/ipv6/conf/all/proxy_ndp"

abbrev ip6_cfg_all_forwarding : String
ip6_cfg_all_forwarding = "/proc/sys/net/ipv6/conf/all/forwarding"

abbrev is_bp_tools : Option String → Bool
is_bp_tools none = false
is_bp_tools (some mode) = str_eq "bp-tools" mode

-- A file that does not open reads as off, one that is empty as on.
abbrev is_enabled : Option String → Bool
is_enabled none = false
is_enabled (some empty) = true
is_enabled (some (c ▸ s)) = code c == 49

module _ (kernel : Kernel) where
  -- An error, if the file does not open or does not take the value.
  unfoldable pub config_write_setting : String → String → World → Bool × World
  config_write_setting path value w =
      if kernel.writes w.calls path && kernel.takes w.calls path
      then (false, record_call (write_file path (text value ∷ [])) w)
      else (true, w)

  unfoldable pub set_ip_fwd_enabled : Bool → World → Bool × World
  set_ip_fwd_enabled enable w =
      let (res₁, w₁) = config_write_setting ip4_cfg_ip_forward (if enable then "1" else "0") w in
      let (res₂, w₂) =
        config_write_setting ip6_cfg_all_proxy_ndp (if enable then "2" else "0") w₁ in
      let (res₃, w₃) =
        config_write_setting ip6_cfg_all_forwarding (if enable then "2" else "0") w₂ in
      if not enable && is_bp_tools (kernel.property_get w.calls "ro.bootmode")
      then (false, w)
      else if res₁
      then (true, w₁)
      else if res₂
      then (true, w₂)
      else (res₃, w₃)

  unfoldable pub get_ip_fwd_enabled : World → Bool
  get_ip_fwd_enabled w = is_enabled (kernel.reads w.calls ip4_cfg_ip_forward)
