-- ===== src/ClatdController.antt =====
-- server/ClatdController.cpp: the daemon that translates IPv4 on an interface that has IPv6 alone,
-- one process for each interface.
pub mod Marks
use platform_system_netd.Prelude.{
  ℕ, suc, Bool, true, false, not, Option, none, some, List, [], ◌∷◌, String, if◌then◌else◌, ◌==◌,
}
use platform_system_netd.Containers.{string_key, lookup, assign, unassign}
use platform_system_netd.Fwmark.{
  Fwmark, cleared, int_value, permission_system, set_net_id, set_explicitly_selected,
  set_protected_from_vpn, set_permission,
}
use platform_system_netd.Kernel.{
  Kernel, World, Result, ok, err, Word, text, hex, decimal, start, stop, record_call,
}
use platform_system_netd.Kernel.Errno.{ebusy, enodev}
use platform_system_netd.Route.Rules.{net_id_unset}
use platform_system_netd.Controller.State.{Controller}
use platform_system_netd.Controller.Queries.{get_network_for_interface}

-- mClatdPids
abbrev pub Pids : Type 0
Pids = List (String × ℕ)

-- What a method returns, with the errno that it sets, and what it leaves. Where a call of the kernel
-- fails, the errno is its own, here 0; so is that of a method that sets none.
abbrev pub Out : Type 0
Out = Result (Unit {0}) × (Pids × World)

-- 0 if no process is there.
abbrev pub pid_or_zero : Option ℕ → ℕ
pid_or_zero none = 0
pid_or_zero (some pid) = pid

unfoldable pub get_clatd_pid : String → Pids → ℕ
get_clatd_pid interface pids = pid_or_zero (lookup interface pids)

-- The mark of the packets that the daemon sends.
abbrev pub clatd_mark : ℕ → Fwmark
clatd_mark net_id =
    set_permission permission_system
      (set_protected_from_vpn true (set_explicitly_selected true (set_net_id net_id cleared)))

abbrev word : Word → List Word
word w = w ∷ []

abbrev pub clatd_args : String → ℕ → List (List Word)
clatd_args interface net_id =
    word (text "/system/bin/clatd")
    ∷ (text "clatd-" ∷ text interface ∷ [])
    ∷ word (text "-i")
    ∷ word (text interface)
    ∷ word (text "-n")
    ∷ word (decimal net_id)
    ∷ word (text "-m")
    ∷ word (hex (int_value (clatd_mark net_id)))
    ∷ []

-- The parent's side of the fork.
abbrev pub forked : String → ℕ → Option ℕ → Pids × World → Out
forked interface net_id none (pids, w) = (err 0, (pids, w))
forked interface net_id (some pid) (pids, w) =
    (ok tt, (assign interface (suc pid) pids, record_call (start (clatd_args interface net_id)) w))

unfoldable pub start_clatd : Kernel → Controller → String → Pids × World → Out
start_clatd kernel c interface (pids, w) =
    let net_id : ℕ = get_network_for_interface c interface in
    if not (get_clatd_pid interface pids == 0)
    then (err ebusy, (pids, w))
    else if net_id == net_id_unset
    then (err enodev, (pids, w))
    else forked interface net_id (kernel.fork w.calls) (pids, w)

unfoldable pub stop_clatd : String → Pids × World → Out
stop_clatd interface (pids, w) =
    if get_clatd_pid interface pids == 0
    then (err 0, (pids, w))
    else (ok tt, (unassign interface pids, record_call (stop (get_clatd_pid interface pids)) w))

-- `waitpid` says whether the process still runs; one that does not is forgotten.
unfoldable pub is_clatd_started : (ℕ → Bool) → String → Pids → Bool × Pids
is_clatd_started runs interface pids =
    if get_clatd_pid interface pids == 0
    then (false, pids)
    else if runs (get_clatd_pid interface pids)
    then (true, pids)
    else (false, unassign interface pids)
