-- ===== src/TetherController/Advertising.antt =====
-- server/TetherController.cpp: the daemon that advertises routers.
use Prim.Native.String.{len, ◌++◌ as ◌+++◌}
use platform_system_netd.Prelude.{
  ℕ, suc, ◌+◌, ◌-◌, ◌%◌, ◌^◌, Bool, ◌&&◌, Option, none, some, List, [], ◌∷◌, ◌++◌, length, String,
  leb, ltb, ◌==◌, if◌then◌else◌,
}
use platform_system_netd.CStrings.{skip_spaces, take_sign, digits}
use platform_system_netd.CStrings.Scan.{fgets_all}
use platform_system_netd.Containers.{string_key, contains, erase_first}
use platform_system_netd.Kernel.{Kernel, World, ok, err, Word, text, start, stop, record_call}
use platform_system_netd.Kernel.Words.{signed, word_length}
use platform_system_netd.TetherController.{Tether, TetherMethod}

abbrev with_rtr_adv : ℕ → Tether → Tether
with_rtr_adv pid t = record t { rtr_adv_pid = pid }

abbrev pub with_upstream : List String → Tether → Tether
with_upstream names t = record t { upstream_interfaces = names }

-- The value -1 of an int.
abbrev minus_one : ℕ
minus_one = 2 ^ 32 - 1

-- `atoi` on a text of at most 9 characters.
abbrev as_int : Bool × String → ℕ
as_int (negative, s) = let n = (digits 10 0 s).0 in if negative then (2 ^ 32 - n) % 2 ^ 32 else n

abbrev atoi : String → ℕ
atoi s = as_int (take_sign (skip_spaces s))

-- The last piece that `fgets` reads into 10 bytes.
unfoldable pub last_number : ℕ → List String → ℕ
last_number n [] = n
last_number n (line ∷ lines) = last_number (atoi line) lines

abbrev number_in : Option String → ℕ
number_in none = minus_one
number_in (some content) = last_number minus_one (fgets_all 9 9 content)

-- "-i" iface "-x" for each interface.
unfoldable pub iface_args : List String → List (List Word)
iface_args [] = []
iface_args (iface ∷ ifaces) =
    (text "-i" ∷ []) ∷ (text iface ∷ []) ∷ (text "-x" ∷ []) ∷ iface_args ifaces

-- A table number above 0 is an interface's index; its text must fit 11 bytes.
abbrev table_args : ℕ → List (List Word)
table_args table_number =
    let table : ℕ = (table_number + 1000) % 2 ^ 32 in
    if leb 1 table_number && ltb table_number (2 ^ 31)
    then if leb 11 (word_length (signed 32 table))
      then []
      else (text "-t" ∷ []) ∷ (signed 32 table ∷ []) ∷ []
    else []

abbrev pub advertiser : List String → ℕ → List (List Word)
advertiser ifaces table_number =
    (text "/system/bin/radish" ∷ []) ∷ (iface_args ifaces ++ table_args table_number)

unfoldable pub stop_v6_rtr_adv : Tether × World → Tether × World
stop_v6_rtr_adv (t, w) =
    if t.rtr_adv_pid == 0 then (t, w) else (with_rtr_adv 0 t, record_call (stop t.rtr_adv_pid) w)

module _ (kernel : Kernel) where
  -- The parent's side of the fork.
  abbrev started : List (List Word) → Option ℕ → TetherMethod
  started args none (t, w) = (err 0, (t, w))
  started args (some pid) (t, w) = (ok tt, (with_rtr_adv (suc pid) t, record_call (start args) w))

  unfoldable pub start_v6_rtr_adv : List String → ℕ → TetherMethod
  start_v6_rtr_adv ifaces table_number (t, w) =
      if ltb (length ifaces) 2
      then (ok tt, (t, w))
      else started (advertiser ifaces table_number) (kernel.fork w.calls) (t, w)

  unfoldable pub get_iface_index_for_iface : String → World → ℕ
  get_iface_index_for_iface iface w =
      let path : String = "/sys/class/net/" +++ (iface +++ "/ifindex") in
      if leb 255 (len path) then minus_one else number_in (kernel.reads w.calls path)

  -- The index of the last upstream interface.
  unfoldable pub upstream_index : ℕ → List String → World → ℕ
  upstream_index index [] w = index
  upstream_index index (iface ∷ ifaces) w =
      upstream_index (get_iface_index_for_iface iface w) ifaces w

  -- The results of both steps are not looked at.
  unfoldable pub configure_v6_rtr_adv : Tether × World → Tether × World
  configure_v6_rtr_adv (t, w) =
      (start_v6_rtr_adv (t.interfaces ++ t.upstream_interfaces)
        (upstream_index minus_one t.upstream_interfaces w) (stop_v6_rtr_adv (t, w))).1

  -- A null pointer is `none`; a name that is there, or one that is not, changes nothing.
  unfoldable pub add_upstream_interface : Option String → Tether × World → Tether × World
  add_upstream_interface none s = s
  add_upstream_interface (some iface) (t, w) =
      if contains iface t.upstream_interfaces
      then (t, w)
      else configure_v6_rtr_adv (with_upstream (t.upstream_interfaces ++ iface ∷ []) t, w)

  unfoldable pub remove_upstream_interface : Option String → Tether × World → Tether × World
  remove_upstream_interface none s = s
  remove_upstream_interface (some iface) (t, w) =
      if contains iface t.upstream_interfaces
      then configure_v6_rtr_adv (with_upstream (erase_first iface t.upstream_interfaces) t, w)
      else (t, w)
