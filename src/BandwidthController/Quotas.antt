-- ===== src/BandwidthController/Quotas.antt =====
-- server/BandwidthController.cpp: the shared quota and the quotas of interfaces.
use Prim.Native.String.{len, ◌++◌}
use platform_system_netd.Prelude.{
  ℕ, ◌-◌, ◌^◌, Bool, true, false, not, ◌&&◌, ◌||◌, Option, none, some, List, [], ◌∷◌, String, ltb,
  ◌==◌, if◌then◌else◌,
}
use platform_system_netd.Containers.{string_key, contains, erase_first}
use platform_system_netd.CStrings.Scan.{Scanned, number, long, sscanf}
use platform_system_netd.Kernel.{Kernel, World}
use platform_system_netd.Prefix.{is_iface_name}
use platform_system_netd.BandwidthController.{
  Bandwidth, QuotaInfo, Method, find_quota, update_quota_info, erase_quota,
}
use platform_system_netd.BandwidthController.Commands.{
  insert, delete, append, reject, no_add, QuotaType, unique, shared, make_iptables_quota_cmd,
  on_chain, costly_chain, jump_from, delete_jump, insert_jump, local_input, local_output,
}
use platform_system_netd.BandwidthController.Running.{run_ipxtables_cmd, also, try}
use platform_system_netd.BandwidthController.Alerts.{
  update_quota, remove_shared_alert, with_shared_alert,
}

abbrev pub max_ifacename_len : ℕ
max_ifacename_len = 64

-- What StrncpyAndCheck answers: the last byte of the buffer is part of the name.
abbrev pub is_too_long : String → Bool
is_too_long s = ltb (max_ifacename_len - 1) (len s)

-- -1
abbrev pub minus_one : ℕ
minus_one = 2 ^ 64 - 1

abbrev cost_string : QuotaType → String → String
cost_string unique ifn = costly_chain ifn
cost_string shared ifn = "bw_costly_shared"

abbrev pub is_empty : List String → Bool
is_empty [] = true
is_empty (name ∷ names) = false

abbrev pub with_shared_bytes : ℕ → Bandwidth → Bandwidth
with_shared_bytes bytes b = record b { shared_quota_bytes = bytes }

abbrev pub with_shared_ifaces : List String → Bandwidth → Bandwidth
with_shared_ifaces names b = record b { shared_quota_ifaces = names }

abbrev pub with_quotas : List QuotaInfo → Bandwidth → Bandwidth
with_quotas quotas b = record b { quota_ifaces = quotas }

abbrev pub is_none : Option QuotaInfo → Bool
is_none none = true
is_none (some q) = false

abbrev scanned : List Scanned → Option ℕ
scanned (number n ∷ []) = some n
scanned other = none

abbrev read_from : Option String → Option ℕ
read_from none = none
read_from (some content) = scanned (sscanf (long ∷ []) content)

module _ (kernel : Kernel) where
  -- Both that fail and both that work are errors: one of the two is meant to fail.
  abbrev prep_unique : String → World → Bool × World
  prep_unique cost w =
      let (res₁, w₁) = run_ipxtables_cmd kernel (on_chain "-F" cost) no_add w in
      let (res₂, w₂) = run_ipxtables_cmd kernel (on_chain "-N" cost) no_add w₁ in
      also kernel (jump_from "-A" cost "bw_penalty_box") no_add
        (res₁ && res₂ || not res₁ && not res₂, w₂)

  abbrev prep_chain : QuotaType → String → World → Bool × World
  prep_chain unique ifn w = prep_unique (costly_chain ifn) w
  prep_chain shared ifn w = (false, w)

  unfoldable pub prep_costly_iface : Bandwidth → String → QuotaType → World → Bool × World
  prep_costly_iface b ifn type w =
      let cost : String = cost_string type ifn in
      let position : ℕ = if b.global_alert_bytes == 0 then 1 else 2 in
      also kernel (insert_jump local_output position "-o" ifn cost) no_add (
        try kernel (delete_jump local_output "-o" ifn cost) (
          also kernel (insert_jump local_input position "-i" ifn cost) no_add
            (try kernel (delete_jump local_input "-i" ifn cost) (prep_chain type ifn w))))

  abbrev cleanup_chain : QuotaType → String → Bool × World → Bool × World
  cleanup_chain unique cost out =
      also kernel (on_chain "-X" cost) no_add (also kernel (on_chain "-F" cost) no_add out)
  cleanup_chain shared cost out = out

  unfoldable pub cleanup_costly_iface : String → QuotaType → World → Bool × World
  cleanup_costly_iface ifn type w =
      let cost : String = cost_string type ifn in
      cleanup_chain type cost (
        also kernel (delete_jump local_output "-o" ifn cost) no_add
          (run_ipxtables_cmd kernel (delete_jump local_input "-i" ifn cost) no_add w))

  -- The last interface takes the quota and the alert away.
  abbrev pub end_shared_alert : Bandwidth × World → Bandwidth × World
  end_shared_alert (b, w) =
      let (b', w') = (remove_shared_alert kernel (b, w)).1 in
      if b.shared_alert_bytes == 0 then (b, w) else (with_shared_alert 0 b', w')

  abbrev pub end_shared_quota : Bool → Method
  end_shared_quota res (b, w) =
      let (res', w') =
        also kernel (make_iptables_quota_cmd delete "shared" b.shared_quota_bytes) reject
          (res, w) in
      if is_empty b.shared_quota_ifaces
      then (res', end_shared_alert (with_shared_bytes 0 b, w'))
      else (res, (b, w))

  unfoldable pub remove_interface_shared_quota : String → Method
  remove_interface_shared_quota iface (b, w) =
      let (res, w') = cleanup_costly_iface iface shared w in
      let erased : List String = erase_first iface b.shared_quota_ifaces in
      if not (is_iface_name iface)
        || is_too_long iface
        || not (contains iface b.shared_quota_ifaces)
      then (true, (b, w))
      else end_shared_quota res (with_shared_ifaces erased b, w')

  -- `goto fail`
  abbrev pub fail : String → Method
  fail ifn s = (true, (remove_interface_shared_quota ifn s).1)

  -- A new interface: the first one sets the rule. The first component says whether it goes on.
  abbrev pub join_shared : String → ℕ → Bandwidth × World → Bool × (Bool × (Bandwidth × World))
  join_shared ifn max_bytes (b, w) =
      let (res, w₁) = prep_costly_iface b ifn shared w in
      let (res₂, w₂) =
        also kernel (make_iptables_quota_cmd insert "shared" max_bytes) reject (res, w₁) in
      let joined : Bandwidth = with_shared_ifaces (ifn ∷ b.shared_quota_ifaces) b in
      if contains ifn b.shared_quota_ifaces
      then (true, (false, (b, w)))
      else if is_empty b.shared_quota_ifaces
      then if res₂
        then (false, (res₂, (b, w₂)))
        else (true, (res₂, (with_shared_bytes max_bytes joined, w₂)))
      else (true, (res, (joined, w₁)))

  -- The bytes are updated if they changed; only then does an earlier error count.
  abbrev pub update_shared :
      String → ℕ → Bool × (Bool × (Bandwidth × World)) → Bool × (Bandwidth × World)
  update_shared ifn max_bytes (false, (res, s)) = fail ifn s
  update_shared ifn max_bytes (true, (res, (b, w))) =
      let (res₂, w₂) = update_quota kernel "shared" max_bytes w in
      if max_bytes == b.shared_quota_bytes
      then (false, (b, w))
      else if res || res₂
      then fail ifn (b, w₂)
      else (false, (with_shared_bytes max_bytes b, w₂))

  unfoldable pub set_interface_shared_quota : String → ℕ → Method
  set_interface_shared_quota iface max_bytes s =
      if max_bytes == 0 || not (is_iface_name iface) || is_too_long iface
      then (true, s)
      else if max_bytes == minus_one
      then remove_interface_shared_quota iface s
      else update_shared iface max_bytes (join_shared iface max_bytes s)

  unfoldable pub remove_interface_quota : String → Method
  remove_interface_quota iface (b, w) =
      let (res, w') = cleanup_costly_iface iface unique w in
      if not (is_iface_name iface) || is_too_long iface || is_none (find_quota iface b.quota_ifaces)
      then (true, (b, w))
      else (res, (with_quotas (erase_quota iface b.quota_ifaces) b, w'))

  -- A new interface gets its chain and its rule; an old one is updated. A failure ends the
  -- interface's shared quota.
  abbrev pub add_quota : String → ℕ → Method
  add_quota ifn max_bytes (b, w) =
      let (res, w') =
        also kernel (make_iptables_quota_cmd append ifn max_bytes) reject
          (prep_costly_iface b ifn unique w) in
      let q : QuotaInfo = record { iface_name = ifn; quota = max_bytes; alert = 0 } in
      if res then fail ifn (b, w') else (false, (with_quotas (q ∷ b.quota_ifaces) b, w'))

  abbrev pub change_quota : String → ℕ → Method
  change_quota ifn max_bytes (b, w) =
      let (res, w') = update_quota kernel ifn max_bytes w in
      let write : QuotaInfo → QuotaInfo = λ (i : QuotaInfo). record i { quota = max_bytes } in
      if res
      then fail ifn (b, w')
      else (false, (with_quotas (update_quota_info ifn write b.quota_ifaces) b, w'))

  unfoldable pub set_interface_quota : String → ℕ → Method
  set_interface_quota iface max_bytes (b, w) =
      if not (is_iface_name iface) || max_bytes == 0
      then (true, (b, w))
      else if max_bytes == minus_one
      then remove_interface_quota iface (b, w)
      else if is_too_long iface
      then (true, (b, w))
      else if is_none (find_quota iface b.quota_ifaces)
      then add_quota iface max_bytes (b, w)
      else change_quota iface max_bytes (b, w)

  unfoldable pub get_interface_quota : String → World → Option ℕ
  get_interface_quota cost_name w =
      if is_iface_name cost_name
      then read_from (kernel.reads w.calls ("/proc/net/xt_quota/" ++ cost_name))
      else none

  abbrev pub get_interface_shared_quota : World → Option ℕ
  get_interface_shared_quota w = get_interface_quota "shared" w
