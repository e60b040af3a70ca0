-- ===== src/TetherController/Reachable.antt =====
-- What holds of the tethering state after any of its methods.
use platform_system_netd.Prelude.{
  ℕ, ◌≡◌, refl, sym, subst, Bool, true, Option, none, some, List, [], ◌∷◌, ◌++◌, All, String, arith,
  ◌==◌, if_cases, Bool-cases, inl, inr,
}
use platform_system_netd.Containers.{string_key, contains, erase_first}
use platform_system_netd.Containers.Distinct.{
  IsDistinct, erase_first-IsDistinct, snoc-IsDistinct, erase_first-All, snoc-All,
}
use platform_system_netd.Kernel.{Kernel, World}
use platform_system_netd.Prefix.{is_iface_name}
use platform_system_netd.TetherController.{Tether, constructed}
use platform_system_netd.TetherController.Advertising.{
  start_v6_rtr_adv, stop_v6_rtr_adv, configure_v6_rtr_adv, add_upstream_interface,
  remove_upstream_interface, with_upstream,
}
use platform_system_netd.TetherController.Dns.{
  Address, is_none, with_interfaces, apply_dns_interfaces, start_tethering, stop_tethering,
  set_dns_forwarders, tether_interface, untether_interface, applied,
}

pub data TetherOperation : Type 0 where
  start : List (Address × Address) → TetherOperation
  stop : TetherOperation
  dns : ℕ → List String → TetherOperation
  add_upstream remove_upstream : Option String → TetherOperation
  tether untether : String → TetherOperation

abbrev pub IsName : String → Type 0
IsName name = is_iface_name name ≡ true

-- There is a pipe to the daemon exactly while it runs; the tethered names are names of interfaces;
-- no upstream interface is there twice.
abbrev pub IsValid : Tether → Type 0
IsValid t =
    ((t.daemon_pid == 0) ≡ is_none t.daemon_fd)
    × All IsName t.interfaces
    × IsDistinct t.upstream_interfaces

pub record After (s : Tether × World) : Type 0 where
  pub valid : IsValid s.0

module _ (kernel : Kernel) where
  abbrev pub perform : TetherOperation → Tether × World → Tether × World
  perform (start ranges) s = (start_tethering kernel ranges s).1
  perform stop s = stop_tethering s
  perform (dns net_id servers) s = (set_dns_forwarders kernel net_id servers s).1
  perform (add_upstream iface) s = add_upstream_interface kernel iface s
  perform (remove_upstream iface) s = remove_upstream_interface kernel iface s
  perform (tether interface) s = (tether_interface kernel interface s).1
  perform (untether interface) s = (untether_interface kernel interface s).1

  -- The states after the constructor and any methods; the world may change in between.
  pub data Reaches : Tether → Type 0 where
    created : (net_id pid : ℕ) → Reaches (constructed net_id pid)
    next :
        {t u : Tether} (op : TetherOperation) (w : World)
        → Reaches t
        → u ≡ (perform op (t, w)).0
        → Reaches u

  module _ (t : Tether) (w : World) (v : IsValid t) where
    start_adv-After :
        (ifaces : List String) (table : ℕ) → After (start_v6_rtr_adv kernel ifaces table (t, w)).1
    unfolding start_v6_rtr_adv
    start_adv-After ifaces table = ground arith

    stop_adv-After : After (stop_v6_rtr_adv (t, w))
    unfolding stop_v6_rtr_adv
    stop_adv-After = ground arith

  configure-After :
      (t : Tether) (w : World) → IsValid t → After (configure_v6_rtr_adv kernel (t, w))
  unfolding configure_v6_rtr_adv
  configure-After t w v =
      start_adv-After (stop_v6_rtr_adv (t, w)).0 (stop_v6_rtr_adv (t, w)).1
        (stop_adv-After t w v).valid _ _

  pub start-After :
      (ranges : List (Address × Address)) (t : Tether) (w : World)
      → IsValid t
      → After (start_tethering kernel ranges (t, w)).1
  unfolding start_tethering
  start-After ranges t w v = ground arith

  pub stop-After : (t : Tether) (w : World) → IsValid t → After (stop_tethering (t, w))
  unfolding stop_tethering
  stop-After t w v = ground arith

  pub dns-After :
      (net_id : ℕ) (servers : List String) (t : Tether) (w : World)
      → IsValid t
      → After (set_dns_forwarders kernel net_id servers (t, w)).1
  unfolding set_dns_forwarders
  dns-After net_id servers t w v = ground arith

  pub add_upstream-After :
      (iface : Option String) (t : Tether) (w : World)
      → IsValid t
      → After (add_upstream_interface kernel iface (t, w))
  unfolding add_upstream_interface
  add_upstream-After none t w v = record { valid = v }
  add_upstream-After (some iface) t w v =
      if_cases After (contains iface t.upstream_interfaces) (λ _. record { valid = v })
        λ absent.
          configure-After (with_upstream (t.upstream_interfaces ++ iface ∷ []) t) w
            (v.0, v.1, snoc-IsDistinct iface t.upstream_interfaces absent v.2)

  pub remove_upstream-After :
      (iface : Option String) (t : Tether) (w : World)
      → IsValid t
      → After (remove_upstream_interface kernel iface (t, w))
  unfolding remove_upstream_interface
  remove_upstream-After none t w v = record { valid = v }
  remove_upstream-After (some iface) t w v =
      if_cases After (contains iface t.upstream_interfaces)
        (λ _.
          configure-After (with_upstream (erase_first iface t.upstream_interfaces) t) w
            (v.0, v.1, erase_first-IsDistinct iface t.upstream_interfaces v.2))
        (λ _. record { valid = v })

  applied-After :
      (interface : String) (t : Tether) (w : World)
      → IsValid t
      → After (applied kernel interface (t, w)).1
  applied-After interface t w v =
      let out : Bool × World = apply_dns_interfaces kernel t w in
      let erased : All IsName (erase_first interface t.interfaces) =
        erase_first-All IsName interface t.interfaces v.1 in
      ground arith

  pub tether-After :
      (interface : String) (t : Tether) (w : World)
      → IsValid t
      → After (tether_interface kernel interface (t, w)).1
  unfolding tether_interface
  tether-After interface t w v = elim (Bool-cases (is_iface_name interface)) [
    | inl good ↦
        let t' : Tether = with_interfaces (t.interfaces ++ interface ∷ []) t in
        let out : Tether × World = configure_v6_rtr_adv kernel (t', w) in
        let named : All IsName (t.interfaces ++ interface ∷ []) =
          snoc-All IsName interface t.interfaces good v.1 in
        rw good (applied-After interface out.0 out.1 (configure-After t' w (v.0, named, v.2)).valid)
    | inr bad ↦ rw bad (record { valid = v })
  ]

  pub untether-After :
      (interface : String) (t : Tether) (w : World)
      → IsValid t
      → After (untether_interface kernel interface (t, w)).1
  unfolding untether_interface
  untether-After interface t w v =
      let fewer : Tether = with_interfaces (erase_first interface t.interfaces) t in
      let named : All IsName (erase_first interface t.interfaces) =
        erase_first-All IsName interface t.interfaces v.1 in
      let kept = (configure-After fewer w (v.0, named, v.2)).valid in ground arith

  pub perform-After :
      (op : TetherOperation) (t : Tether) (w : World) → IsValid t → After (perform op (t, w))
  perform-After (start ranges) t w v = start-After ranges t w v
  perform-After stop t w v = stop-After t w v
  perform-After (dns net_id servers) t w v = dns-After net_id servers t w v
  perform-After (add_upstream iface) t w v = add_upstream-After iface t w v
  perform-After (remove_upstream iface) t w v = remove_upstream-After iface t w v
  perform-After (tether interface) t w v = tether-After interface t w v
  perform-After (untether interface) t w v = untether-After interface t w v

  -- After the constructor and any of the methods, whatever the world answers: there is a pipe to
  -- the DNS daemon exactly while the daemon runs, all tethered interfaces have names of
  -- interfaces, and no upstream interface is there twice.
  pub Tether-IsValid : {t : Tether} → Reaches t → IsValid t
  Tether-IsValid (created net_id pid) = (refl, tt, tt)
  Tether-IsValid (next {t} op w r e) =
      subst IsValid (sym e) (perform-After op t w (Tether-IsValid r)).valid
