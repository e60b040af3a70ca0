-- ===== src/FwmarkServer/Protocol.antt =====
-- The requests of the fwmark server from the message to the mark of the socket.
use platform_system_netd.Prelude.{
  ℕ, ◌≡◌, refl, ap, subst, ◌∙◌, inl, inr, not, Option, none, some, arith, Bool-cases, if_cases,
  ==_iff, ◌==◌,
}
use platform_system_netd.Fwmark.{Fwmark, of_int, int_value}
use platform_system_netd.Kernel.{Result, ok, err}
use platform_system_netd.Controller.State.{Controller, local_net_id}
use platform_system_netd.Controller.Queries.{Access, granted, refused, undefined}
use platform_system_netd.Controller.Invariant.{IsWellFormed}
use platform_system_netd.Controller.Access.{undefined_only_for_local}
use platform_system_netd.FwmarkServer.{
  FwmarkCommand, on_accept, on_connect, select_network, protect_from_vpn, select_for_user, unknown,
  Decision, mark, reject, fault, accept, connect, selected, select, protect, select_user, decide,
  sizeof_command, Receipt, nothing, message, Sockets, Served, marked, failed, crashed, apply_mark,
  serve_socket, process_client,
}

-- What a request went through that made the server read past an object.
pub record CrashedBy (sockets : Sockets) (c : Controller) (uid : ℕ) (r : Receipt) : Type 0 where
  pub command : FwmarkCommand
  pub fd : ℕ
  pub old : ℕ
  pub received : r ≡ message sizeof_command command (some fd)
  pub read : sockets.get_mark fd ≡ ok old
  pub decided : decide c uid command (of_int old) ≡ fault

module _ (sockets : Sockets) (c : Controller) (uid : ℕ) where
  abbrev IfServed : Receipt → Served → Type 0
  IfServed r (marked fd n) = Unit
  IfServed r (failed e) = Unit
  IfServed r crashed = CrashedBy sockets c uid r

  module _ (r : Receipt) (command : FwmarkCommand) (fd : ℕ)
      (received : r ≡ message sizeof_command command (some fd)) where
    set-IfServed :
        (f : Fwmark) (o : Option ℕ)
        → IfServed r
            (elim o as (λ _. Served) [ none ↦ marked fd (int_value f) | some e ↦ failed e ])
    set-IfServed f none = tt
    set-IfServed f (some e) = tt

    apply_mark-IfServed :
        (old : ℕ) (d : Decision)
        → sockets.get_mark fd ≡ ok old
        → decide c uid command (of_int old) ≡ d
        → IfServed r (apply_mark sockets fd d)
    apply_mark-IfServed old (mark f) read decided = set-IfServed f _
    apply_mark-IfServed old (reject e) read decided = tt
    apply_mark-IfServed old fault read decided = record {
      command = command;
      fd = fd;
      old = old;
      received = received;
      read = read;
      decided = decided;
    }

    serve_socket-IfServed :
        (m : Result ℕ)
        → sockets.get_mark fd ≡ m
        → IfServed r (serve_socket sockets c uid command fd m)
    serve_socket-IfServed (ok old) read = apply_mark-IfServed old _ read refl
    serve_socket-IfServed (err e) read = tt

  process_client-IfServed : (r : Receipt) → IfServed r (process_client sockets c uid r)
  unfolding process_client
  process_client-IfServed (nothing e) = tt
  process_client-IfServed (message length command none) =
      if_cases (IfServed (message length command none)) (not (length == sizeof_command)) (λ _. tt)
        (λ _. tt)
  process_client-IfServed (message length command (some fd)) =
      if_cases (IfServed (message length command (some fd))) (not (length == sizeof_command))
        (λ _. tt)
        λ whole.
          serve_socket-IfServed _ command fd
            (ap (λ (l : ℕ). message l command (some fd))
              ((==_iff length sizeof_command).0 (ground arith)))
            _ refl

  selected-fault :
      (id : ℕ) (f : Fwmark) (a : Access) → selected c uid id f a ≡ fault → a ≡ undefined
  selected-fault id f granted h = ground arith
  selected-fault id f (refused e) h = ground arith
  selected-fault id f undefined h = refl

  decide-fault :
      (command : FwmarkCommand) (f : Fwmark)
      → IsWellFormed c
      → decide c uid command f ≡ fault
      → command ≡ select_network local_net_id
  unfolding accept connect select protect select_user
  decide-fault on_accept f v h = ground arith
  decide-fault on_connect f v h = ground arith
  decide-fault (select_network id) f v h = elim (Bool-cases (id == 0)) [
    | inl unset ↦ ground arith
    | inr set ↦
        ap select_network
          (undefined_only_for_local c uid id v (selected-fault id f _ (rw set at h)))
  ]
  decide-fault protect_from_vpn f v h = ground arith
  decide-fault (select_for_user user) f v h = ground arith
  decide-fault unknown f v h = ground arith

  -- In a well-formed controller, only a command that selects the local network makes the server
  -- read past an object.
  pub crashes_for_local_alone :
      (r : Receipt)
      → IsWellFormed c
      → process_client sockets c uid r ≡ crashed
      → (fd : ℕ) × (r ≡ message sizeof_command (select_network local_net_id) (some fd))
  crashes_for_local_alone r v e =
      let x : CrashedBy sockets c uid r = subst (IfServed r) e (process_client-IfServed r) in
      (
        x.fd,
        x.received
            ∙ ap (λ (m : FwmarkCommand). message sizeof_command m (some x.fd))
                (decide-fault x.command (of_int x.old) v x.decided),
      )
