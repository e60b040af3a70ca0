-- ===== src/Client/Serving.antt =====
-- The client's exchange with the server of server/FwmarkServer.cpp, and what a success of it means.
use platform_system_netd.Prelude.{
  ℕ, ◌≡◌, ◌≢◌, refl, ap, subst, ◌∙◌, false, Option, none, some, arith, Bool-cases, if_cases, inl,
  inr, ◌==◌, if◌then◌else◌,
}
use platform_system_netd.Fwmark.{Fwmark, of_int, int_value, grants, permission_system}
use platform_system_netd.Kernel.{Result, ok, err}
use platform_system_netd.Kernel.Issues.{IsOk}
use platform_system_netd.Network.{Network, local, physical, virtual}
use platform_system_netd.Route.Requests.{invalid_uid}
use platform_system_netd.Controller.State.{Controller, local_net_id}
use platform_system_netd.Controller.Queries.{
  Access, granted, refused, undefined, check_user_network_access, check_network, check_user,
  get_permission_for_user,
}
use platform_system_netd.Controller.Invariant.{IsWellFormed}
use platform_system_netd.Controller.Access.{undefined_only_for_local}
use platform_system_netd.Route.Rules.{net_id_unset}
use platform_system_netd.FwmarkServer.{
  FwmarkCommand, on_connect, select_network, Decision, mark, reject, fault, decide, connect, select,
  selected, sizeof_command, message, Sockets, Served, marked, failed, crashed, apply_mark,
  serve_socket, process_client,
}
use platform_system_netd.Client.{Response, answered, closed, send}

-- What the client gets: the code of the server, or the end of the connection where it crashed.
abbrev pub response : Served → Response
response (marked fd n) = answered 0
response (failed e) = answered e
response crashed = closed

-- The server behind the connection. The descriptor that it receives is of the client's socket.
abbrev pub server : Sockets → Controller → ℕ → FwmarkCommand → ℕ → Response
server sockets c uid command fd =
    response (process_client sockets c uid (message sizeof_command command (some fd)))

-- The kernel gives no errno of 0.
pub record HasErrors (sockets : Sockets) : Type 0 where
  pub get : (fd : ℕ) → sockets.get_mark fd ≢ err 0
  pub set : (fd n : ℕ) → sockets.set_mark fd n ≢ some 0

-- A socket that has got its mark.
pub record IsMarked (sockets : Sockets) (fd : ℕ) (decision : Fwmark → Decision) : Type 0 where
  pub old : ℕ
  pub new : Fwmark
  pub read : sockets.get_mark fd ≡ ok old
  pub decided : decision (of_int old) ≡ mark new
  pub set : sockets.set_mark fd (int_value new) ≡ none

-- A decision that reports a refusal by an errno.
abbrev Refuses : Decision → Type 0
Refuses (mark f) = Unit
Refuses (reject e) = (e == 0) ≡ false
Refuses fault = ⊥

module _ (sockets : Sockets) (c : Controller) (uid : ℕ) (errors : HasErrors sockets) (fd : ℕ) where
  set-IsMarked :
      (decision : Fwmark → Decision) (old : ℕ) (f : Fwmark) (o : Option ℕ)
      → sockets.get_mark fd ≡ ok old
      → decision (of_int old) ≡ mark f
      → sockets.set_mark fd (int_value f) ≡ o
      → IsOk (
          send (
            response
              (elim o as (λ _. Served) [ none ↦ marked fd (int_value f) | some e ↦ failed e ])))
      → IsMarked sockets fd decision
  set-IsMarked decision old f none read decided set h = record {
    old = old;
    new = f;
    read = read;
    decided = decided;
    set = set;
  }
  set-IsMarked decision old f (some e) read decided set h = elim (Bool-cases (e == 0)) [
    | inl zero ↦ absurd (errors.set fd (int_value f) (set ∙ ap some (ground arith)))
    | inr other ↦ absurd (subst (λ b. IsOk (if b then ok tt else err e)) other h)
  ]

  apply-IsMarked :
      (decision : Fwmark → Decision) (old : ℕ) (d : Decision)
      → Refuses d
      → sockets.get_mark fd ≡ ok old
      → decision (of_int old) ≡ d
      → IsOk (send (response (apply_mark sockets fd d)))
      → IsMarked sockets fd decision
  apply-IsMarked decision old (mark f) r read decided h =
      set-IsMarked decision old f _ read decided refl h
  apply-IsMarked decision old (reject e) r read decided h =
      absurd (subst (λ b. IsOk (if b then ok tt else err e)) r h)
  apply-IsMarked decision old fault r read decided h = absurd r

  serve-IsMarked :
      (command : FwmarkCommand) (m : Result ℕ)
      → ((f : Fwmark) → Refuses (decide c uid command f))
      → sockets.get_mark fd ≡ m
      → IsOk (send (response (serve_socket sockets c uid command fd m)))
      → IsMarked sockets fd (decide c uid command)
  serve-IsMarked command (ok old) r read h =
      apply-IsMarked (decide c uid command) old _ (r (of_int old)) read refl h
  serve-IsMarked command (err e) r read h = elim (Bool-cases (e == 0)) [
    | inl zero ↦ absurd (errors.get fd (read ∙ ap err (ground arith)))
    | inr other ↦ absurd (subst (λ b. IsOk (if b then ok tt else err e)) other h)
  ]

  -- A success of the exchange is a mark on the socket, if the command does not make the server
  -- crash.
  pub send-IsMarked :
      (command : FwmarkCommand)
      → ((f : Fwmark) → Refuses (decide c uid command f))
      → IsOk (send (server sockets c uid command fd))
      → IsMarked sockets fd (decide c uid command)
  unfolding process_client
  send-IsMarked command r h = serve-IsMarked command (sockets.get_mark fd) r refl h

abbrev IsErrno : Access → Type 0
IsErrno granted = Unit
IsErrno (refused e) = (e == 0) ≡ false
IsErrno undefined = Unit

module _ (c : Controller) (uid : ℕ) where
  check_user-IsErrno : (n : Network) → IsErrno (check_user c uid n)
  check_user-IsErrno (local n) = ground arith
  check_user-IsErrno (physical n) = ground arith
  check_user-IsErrno (virtual n) = ground arith

  check_network-IsErrno : (o : Option Network) → IsErrno (check_network c uid o)
  check_network-IsErrno none = refl
  check_network-IsErrno (some n) =
      if_cases IsErrno (uid == invalid_uid) (λ _. refl)
        λ _.
          if_cases IsErrno (grants (get_permission_for_user c uid) permission_system) (λ _. tt)
            (λ _. check_user-IsErrno n)

  access-IsErrno : (net_id : ℕ) → IsErrno (check_user_network_access c uid net_id)
  unfolding check_user_network_access
  access-IsErrno net_id = check_network-IsErrno _

  selected-Refuses :
      (net_id : ℕ) (f : Fwmark) (a : Access)
      → IsErrno a
      → a ≢ undefined
      → Refuses (selected c uid net_id f a)
  selected-Refuses net_id f granted e d = tt
  selected-Refuses net_id f (refused n) e d = e
  selected-Refuses net_id f undefined e d = d refl

  pub connect-Refuses : (f : Fwmark) → Refuses (decide c uid on_connect f)
  unfolding connect
  connect-Refuses f = tt

  -- Only the local network makes the server crash.
  pub select-Refuses :
      (net_id : ℕ) (f : Fwmark)
      → IsWellFormed c
      → net_id ≢ local_net_id
      → Refuses (decide c uid (select_network net_id) f)
  unfolding select
  select-Refuses net_id f v d =
      if_cases Refuses (net_id == net_id_unset) (λ _. tt)
        λ _.
          selected-Refuses net_id f _ (access-IsErrno net_id)
            (λ e. d (undefined_only_for_local c uid net_id v e))

  -- A selection that gives a mark was granted.
  pub selected-granted :
      (net_id : ℕ) (f new : Fwmark)
      → (net_id == net_id_unset) ≡ false
      → decide c uid (select_network net_id) f ≡ mark new
      → check_user_network_access c uid net_id ≡ granted
  unfolding select
  selected-granted net_id f new h e = by_access (check_user_network_access c uid net_id) (rw h at e)
    where
      by_access : (a : Access) → selected c uid net_id f a ≡ mark new → a ≡ granted
      by_access granted e = refl
      by_access (refused n) e = absurd (cc)
      by_access undefined e = absurd (cc)
