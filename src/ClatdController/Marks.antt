-- ===== src/ClatdController/Marks.antt =====
-- The network that the daemon of server/ClatdController.cpp is started for.
use platform_system_netd.Prelude.{
  ℕ, suc, ◌≤◌, ◌%◌, ◌^◌, ◌≡◌, refl, sym, ap, subst, ◌∙◌, inl, inr, true, false, not, Option, none,
  some, List, [], ◌∷◌, ◌++◌, String, arith, ==_iff, Bool-cases, if_cases, ◌==◌, str_eq_iff,
}
use platform_system_netd.Containers.{
  number_key, string_key, lookup, assign, unassign, lookup-assign, lookup-unassign,
}
use platform_system_netd.Containers.Ascending.{IsAscending, Above-IsAscending}
use platform_system_netd.Fwmark.{Fwmark, IsFwmark, int_value, of_int, permission_system}
use platform_system_netd.Fwmark.Fields.{of_int-int_value}
use platform_system_netd.Kernel.{Kernel, World, err, start}
use platform_system_netd.Kernel.Errno.{ebusy}
use platform_system_netd.Kernel.Issues.{IsOk}
use platform_system_netd.Network.{Network, local, physical, virtual, has_interface}
use platform_system_netd.Network.Identity.{class}
use platform_system_netd.Controller.State.{Controller}
use platform_system_netd.Controller.Queries.{
  get_network, get_network_for_interface, first_with_interface,
}
use platform_system_netd.Controller.Invariant.{IsId, IsWellFormed}
use platform_system_netd.Controller.Holders.{holds, Holds, not_both, past_first}
use platform_system_netd.ClatdController.{
  Pids, Out, get_clatd_pid, clatd_mark, clatd_args, forked, start_clatd, stop_clatd,
}

-- An id that the search gives, other than 0, has the interface.
first_found :
    (x : String) (m : List (ℕ × Network))
    → IsAscending m
    → (first_with_interface x m == 0) ≡ false
    → holds x (lookup (first_with_interface x m) m) ≡ true
unfolding first_with_interface lookup
first_found x [] a h = not_both (sym h)
first_found x ((id, n) ∷ m) a h = elim (Bool-cases (has_interface x n)) [
  | inl has ↦ rw (has, (==_iff id id).1 refl) has
  | inr lacks ↦
      let same : first_with_interface x ((id, n) ∷ m) ≡ first_with_interface x m = rw lacks refl in
      let rest =
        first_found x m (Above-IsAscending id m a) (subst (λ (i : ℕ). (i == 0) ≡ false) same h) in
      subst (λ (i : ℕ). holds x (lookup i ((id, n) ∷ m)) ≡ true) (sym same)
        (rw (past_first x id (first_with_interface x m) m a rest) rest)
]

-- An id that is taken has 16 bits.
id_fits : (id : ℕ) (n : Network) → IsId (class n) id → id ≤ 65535
id_fits id (local n) h = omega (arith, h)
id_fits id (physical n) h = ground (arith, h)
id_fits id (virtual n) h = omega (arith, h.1)

held_fits :
    (c : Controller) (x : String) (id : ℕ) (o : Option Network)
    → IsWellFormed c
    → get_network c id ≡ o
    → holds x o ≡ true
    → id ≤ 65535
held_fits c x id none v e h = not_both h
held_fits c x id (some n) v e h = id_fits id n (v.ids id n e).0

-- The mark of a network that was chosen explicitly, past every VPN, with the permission of the
-- system.
abbrev pub explicit_mark : ℕ → Fwmark
explicit_mark net_id = record {
  net_id = net_id;
  explicitly_selected = true;
  protected_from_vpn = true;
  permission = permission_system;
  padding = 0;
}

-- The daemon was started for the network that has the interface, and its packets stay on it: they
-- are marked for the network, explicitly, past every VPN, and with the permission of the system. A
-- second start is refused, and after a stop the process is forgotten.
pub record Translates (kernel : Kernel) (c : Controller) (interface : String) (pids : Pids)
    (w : World) (out : Out) : Type 0 where
  pub net_id : ℕ
  pub has : Holds c interface net_id
  pub marked : of_int (int_value (clatd_mark net_id)) ≡ explicit_mark net_id
  pub calls : out.1.1.calls ≡ w.calls ++ start (clatd_args interface net_id) ∷ []
  pub again : start_clatd kernel c interface out.1 ≡ (err ebusy, out.1)
  pub stopped : get_clatd_pid interface (stop_clatd interface out.1).1.0 ≡ 0

mark-IsFwmark : (net_id : ℕ) → net_id ≤ 65535 → IsFwmark (clatd_mark net_id)
mark-IsFwmark net_id h = record {
  net_id = omega (arith, h);
  permission = omega arith;
  padding = omega arith;
}

marked_as :
    (net_id : ℕ) → net_id ≤ 65535 → of_int (int_value (clatd_mark net_id)) ≡ explicit_mark net_id
marked_as net_id h =
    let low : net_id % 2 ^ 16 ≡ net_id = omega (arith, h) in
    of_int-int_value (clatd_mark net_id) (mark-IsFwmark net_id h) ∙ ap explicit_mark low

assigned_pid :
    (interface : String) (pid : ℕ) (pids : Pids)
    → get_clatd_pid interface (assign interface pid pids) ≡ pid
unfolding get_clatd_pid
assigned_pid interface pid pids = rw (lookup-assign, (str_eq_iff interface interface).1 refl) refl

erased_pid :
    (interface : String) (pids : Pids) → get_clatd_pid interface (unassign interface pids) ≡ 0
unfolding get_clatd_pid
erased_pid interface pids = rw (lookup-unassign, (str_eq_iff interface interface).1 refl) refl

not_zero : (pid : ℕ) → (suc pid == 0) ≡ false
not_zero pid = ground arith

module _ (kernel : Kernel) (c : Controller) (interface : String) (v : IsWellFormed c) where
  refused_again :
      (pid : ℕ) (pids : Pids) (w : World)
      → start_clatd kernel c interface (assign interface (suc pid) pids, w)
        ≡ (err ebusy, (assign interface (suc pid) pids, w))
  unfolding start_clatd
  refused_again pid pids w = rw (assigned_pid, not_zero) refl

  forgotten :
      (pid : ℕ) (pids : Pids) (w : World)
      → get_clatd_pid interface (stop_clatd interface (assign interface (suc pid) pids, w)).1.0 ≡ 0
  unfolding stop_clatd
  forgotten pid pids w =
      rw (assigned_pid, not_zero) (erased_pid interface (assign interface (suc pid) pids))

  forked-Translates :
      (o : Option ℕ) (pids : Pids) (w : World)
      → (get_network_for_interface c interface == 0) ≡ false
      → IsOk (forked interface (get_network_for_interface c interface) o (pids, w)).0
      → Translates kernel c interface pids w
          (forked interface (get_network_for_interface c interface) o (pids, w))
  forked-Translates none pids w set h = absurd h
  forked-Translates (some pid) pids w set h =
      let id : ℕ = get_network_for_interface c interface in
      let held : Holds c interface id = first_found interface c.networks v.ascending set in
      record {
        net_id = id;
        has = held;
        marked = marked_as id (held_fits c interface id _ v refl held);
        calls = refl;
        again = refused_again pid pids _;
        stopped = forgotten pid pids _;
      }

  -- If clatd was started on an interface, in a well-formed controller, then this is all that was
  -- done: a process with the interface, the id of a network that has it, and a 32-bit mark that is
  -- read as that network's, chosen explicitly, protected from VPNs, with the permission of the
  -- system; a second start is refused and changes nothing, and after a stop no process is known
  -- for the interface.
  pub start_clatd-Translates :
      (pids : Pids) (w : World)
      → IsOk (start_clatd kernel c interface (pids, w)).0
      → Translates kernel c interface pids w (start_clatd kernel c interface (pids, w))
  unfolding start_clatd
  start_clatd-Translates pids w =
      if_cases (λ (out : Out). IsOk out.0 → Translates kernel c interface pids w out)
        (not (get_clatd_pid interface pids == 0)) (λ _ h. absurd h)
        λ _.
          if_cases (λ (out : Out). IsOk out.0 → Translates kernel c interface pids w out)
            (get_network_for_interface c interface == 0) (λ _ h. absurd h)
            (λ set. forked-Translates (kernel.fork w.calls) pids w set)
