-- ===== src/TetherController.antt =====
-- server/TetherController.cpp: tethered interfaces, and the two daemons that serve them.
pub mod Advertising
pub mod Dns
pub mod Forwarding
pub mod Reachable
pub mod Restart
use platform_system_netd.Prelude.{ℕ, Bool, true, false, Option, none, some, List, [], String}
use platform_system_netd.Kernel.{World, Result, ok, err}

-- The members. A process number of 0 stands for no process, a descriptor of -1 is `none`.
pub record Tether : Type 0 where
  pub interfaces : List String
  pub dns_net_id : ℕ
  pub dns_forwarders : List (List ℕ)
  pub daemon_pid : ℕ
  pub daemon_fd : Option ℕ
  pub rtr_adv_pid : ℕ
  pub upstream_interfaces : List String

-- The constructor leaves two members as they are in memory.
abbrev pub constructed : ℕ → ℕ → Tether
constructed net_id pid = record {
  interfaces = [];
  dns_net_id = net_id;
  dns_forwarders = [];
  daemon_pid = 0;
  daemon_fd = none;
  rtr_adv_pid = pid;
  upstream_interfaces = [];
}

-- A method's result, with what it leaves. A failure that names no errno is the error 0.
abbrev pub TetherMethod : Type 0
TetherMethod = Tether × World → Result (Unit {0}) × (Tether × World)
