-- ===== src/CommandListener.antt =====
-- server/CommandListener.cpp: the commands of the framework, as texts, and their answers.
pub mod Arguments
pub mod Networks
pub mod Bounds
pub mod Meaning
pub mod Obeyed
pub mod Outcome
pub mod Refinement
pub mod Reachable
pub mod Daemon
pub mod Start
pub mod Daemons
pub mod Answers
pub mod Kept
pub mod Consistent
pub mod Steps
pub mod Running
pub mod Tethering
pub mod Bandwidth
pub mod Rules
use platform_system_netd.Prelude.{ℕ, String}
use platform_system_netd.Kernel.{Result, ok, err}
use platform_system_netd.Controller.State.{System}

-- What the client is sent: CommandOkay, OperationFailed with the text of an errno after the message,
-- or CommandSyntaxError.
pub data Answer : Type 0 where
  command_okay command_syntax_error : String → Answer
  operation_failed : String → ℕ → Answer

-- NetworkCommand's success, syntaxError and operationError.
abbrev pub success : System → Answer × System
success s = (command_okay "success", s)

abbrev pub syntax_error : String → System → Answer × System
syntax_error message s = (command_syntax_error message, s)

abbrev pub operation_error : String → ℕ → System → Answer × System
operation_error message e s = (operation_failed message e, s)

-- The answer to an operation's result.
abbrev pub report : String → Result (Unit {0}) × System → Answer × System
report message (ok a, s) = success s
report message (err e, s) = operation_error message e s
