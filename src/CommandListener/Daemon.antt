-- ===== src/CommandListener/Daemon.antt =====
-- server/CommandListener.cpp: the controllers behind the listener, and what a client is sent.
use platform_system_netd.Prelude.{ℕ, Bool, true, false, Option, none, some, List, [], ◌∷◌, String}
use platform_system_netd.Kernel.{World, Result, ok, err, Word, text}
use platform_system_netd.Controller.State.{Controller, System}
use platform_system_netd.TetherController.{Tether}
use platform_system_netd.NatController.{Nat}
use platform_system_netd.BandwidthController.{Bandwidth}
use platform_system_netd.ClatdController.{Pids}
use platform_system_netd.CommandListener.{
  Answer, command_okay, command_syntax_error, operation_failed,
}

-- The static members: the controllers that keep a state, and the two flags of forwarding.
pub record Daemon : Type 0 where
  pub networks : Controller
  pub tether : Tether
  pub nat : Nat
  pub bandwidth : Bandwidth
  pub clatd : Pids
  pub iwlan_fwd_enable : Bool
  pub fw_ip_fwd_enable : Bool
  pub world : World

-- A message to the client: a code of server/ResponseCode.h, the text, and the errno whose text is
-- added, if any; 0 stands for an errno that the models of the controllers do not keep.
pub record Reply : Type 0 where
  pub code : ℕ
  pub message : List Word
  pub errno : Option ℕ

abbrev pub Out : Type 0
Out = List Reply × Daemon

-- A command's arguments after its name, and the daemon before it.
abbrev pub Handler : Type 0
Handler = List String → Daemon → Out

abbrev pub reply : ℕ → List Word → Reply
reply code message = record { code = code; message = message; errno = none }

abbrev pub send_msg : ℕ → String → Daemon → Out
send_msg code message d = (reply code (text message ∷ []) ∷ [], d)

abbrev pub send_syntax_error : String → Daemon → Out
send_syntax_error = send_msg 500

abbrev pub send_parameter_error : String → Daemon → Out
send_parameter_error = send_msg 501

abbrev failed : String → ℕ → Reply
failed message e = record { code = 400; message = text message ∷ []; errno = some e }

-- `if (!rc) ... else ...`, the errno added.
abbrev pub send_result : String → String → Result (Unit {0}) → Daemon → Out
send_result okay fail (ok a) d = send_msg 200 okay d
send_result okay fail (err e) d = (failed fail e ∷ [], d)

-- The same without the errno; `true` is an error.
abbrev pub send_ok_fail : String → String → Bool → Daemon → Out
send_ok_fail okay fail false d = send_msg 200 okay d
send_ok_fail okay fail true d = send_msg 400 fail d

abbrev pub is_err : Result (Unit {0}) → Bool
is_err (ok a) = false
is_err (err e) = true

-- The part of the daemon that the network command works on.
abbrev pub system_of : Daemon → System
system_of d = record { controller = d.networks; world = d.world }

abbrev pub with_system : System → Daemon → Daemon
with_system s d = record d { networks = s.controller; world = s.world }

abbrev pub answer_reply : Answer → Reply
answer_reply (command_okay message) = reply 200 (text message ∷ [])
answer_reply (command_syntax_error message) = reply 500 (text message ∷ [])
answer_reply (operation_failed message e) = failed message e

abbrev pub answered : Daemon → Answer × System → Out
answered d (a, s) = (answer_reply a ∷ [], with_system s d)

abbrev pub with_world : World → Daemon → Daemon
with_world w d = record d { world = w }

abbrev pub with_tether : Tether × World → Daemon → Daemon
with_tether (t, w) d = record d { tether = t; world = w }

abbrev pub with_nat : Nat × World → Daemon → Daemon
with_nat (n, w) d = record d { nat = n; world = w }

abbrev pub with_bandwidth : Bandwidth × World → Daemon → Daemon
with_bandwidth (b, w) d = record d { bandwidth = b; world = w }

abbrev pub with_clatd : Pids × World → Daemon → Daemon
with_clatd (p, w) d = record d { clatd = p; world = w }
