-- ===== src/CommandListener/Running.antt =====
-- The daemon from its constructor on, under any registered commands.
use platform_system_netd.Prelude.{◌≡◌, refl, true, false, List, String}
use platform_system_netd.Kernel.{Kernel, World, Call}
use platform_system_netd.Controller.Requests.{initial-IsWellFormed}
use platform_system_netd.Controller.Exclusive.{initial-IsExclusive}
use platform_system_netd.BandwidthController.{Bandwidth}
use platform_system_netd.BandwidthController.Lists as Lists
use platform_system_netd.BandwidthController.Tables.{is_switched_off, enable_bandwidth_control}
use platform_system_netd.CommandListener.Daemon.{Daemon}
use platform_system_netd.CommandListener.Start.{Memory, construct}
use platform_system_netd.CommandListener.Daemons.{
  Command, Platform, handler_of, Running, began, commanded,
}
use platform_system_netd.CommandListener.Kept.{IsConsistent}
use platform_system_netd.CommandListener.Answers.{is_answer}
use platform_system_netd.CommandListener.Steps.{asks, command-After}

-- The property `persist.bandwidth.enable` is never "0".
abbrev pub IsSwitchedOn : Kernel → Type 0
IsSwitchedOn kernel =
    (calls : List Call)
    → is_switched_off (kernel.property_get calls "persist.bandwidth.enable") ≡ false

module _ (p : Platform) (on : IsSwitchedOn p.kernel) where
  enabled-IsValid :
      (b : Bandwidth) (w : World)
      → Lists.IsValid (enable_bandwidth_control p.kernel false (b, w)).1.0
  unfolding enable_bandwidth_control
  enabled-IsValid b w = rw (on w.calls) ((tt, refl, refl), (tt, tt), tt, tt)

  construct-IsConsistent :
      (m : Memory) (w : World) → IsConsistent (construct p.kernel p.may_run p.script_works m w)
  unfolding construct
  construct-IsConsistent m w = record {
    well_formed = initial-IsWellFormed p.kernel;
    exclusive = initial-IsExclusive;
    tether = (refl, tt, tt);
    bandwidth = enabled-IsValid _ _;
  }

  -- If the property persist.bandwidth.enable is never 0: whatever commands of forwarding,
  -- tethering, translation, bandwidth, idle timers, the firewall, clatd and networks arrive one
  -- after another from the constructor on, with any arguments, and whatever the kernel answers: no
  -- interface is in two networks; the local network stays, the default network is none or a
  -- physical network, each network has the id it is found under, in the range of its class, and
  -- the ids ascend; there is a pipe to the DNS daemon exactly while it runs, all tethered
  -- interfaces have names of interfaces, and no upstream interface is there twice; the shared
  -- quota has bytes exactly if some interface shares it, and an alert only then, no interface
  -- shares it twice, none has two quotas of its own or one of 0 bytes, and no app is twice in a
  -- box.
  pub Running-IsConsistent : (d : Daemon) → Running p d → IsConsistent d
  Running-IsConsistent d (began m w) = construct-IsConsistent m w
  Running-IsConsistent d (commanded {d = d₀} c args h) =
      (command-After false p c args d₀ (λ _. refl) (Running-IsConsistent d₀ h)).kept

  -- If the property persist.bandwidth.enable is never 0: in every state that commands lead to,
  -- each command of forwarding, tethering, translation, bandwidth, idle timers, the firewall,
  -- clatd and networks, with any arguments, but one that asks for the statistics of tethering, is
  -- answered: by any number of messages that announce more, with codes below 200, and then exactly
  -- one that ends the answer.
  pub command_is_answered :
      (d : Daemon)
      → Running p d
      → (c : Command) (args : List String) → asks c args ≡ false
      → is_answer (handler_of p c args d).0 ≡ true
  command_is_answered d h c args other =
      (command-After true p c args d (λ asked. cc) (Running-IsConsistent d h)).once refl
