-- ===== src/Server/StartStop.antt =====
-- `Start` of a TCP server, and `Stop` behind it. socket_manager/tcp_server.cpp.
use light_server.Base.{
  ◌∷◌, suc, ℕ, ◌*◌, ◌%◌, ◌≡◌, refl, sym, ap, ◌∙◌, subst, inl, inr, Bool, true, false, if◌then◌else◌,
}
use light_server.Common.{int_mod, is_negative}
use light_server.Machine.{
  Call, Kernel, Manager, Result, ok, fault, State, M, ◌>>=◌, ◌>>◌, pure, get_mgr, get_app, put_app,
  sys,
}
use light_server.SocketManager.Descriptors.{reset, has_start, ctl_fd, set_non_blocking}
use light_server.SocketManager.Lifecycle
use light_server.SocketManager.StartStop.{IsEmptyStart, Started, start-Started}
use light_server.SocketManager.WellFormed.{is_plain, WellFormed, After}
use light_server.SocketManager.WellFormed.Rules.{Safe-sys, Safe-put_app}
use light_server.SocketManager.Reachable.{make_manager, constructed, constructed-WellFormed}
use light_server.SocketManager.Reachable.Starting.{start-Keeps}
use light_server.SocketManager.Reachable.Stopping.{Wakes, Ends}
use light_server.Server.TcpServer.{
  TcpServer, Listener, handler, create_listen_socket, setup_listen, start_accept,
  close_listen_socket,
}
use light_server.Server.TcpServer
use light_server.SocketManager.Events.{do_work}
use light_server.SocketManager.WellFormed.Looping.{do_work-Keeps}
use light_server.Server.WellFormed.{ListenerKeeps, tcp_server-HandlerKeeps}
use light_server.Server.Stopping.{stop_server-Ends}

-- From a well-formed state `m` returns, in a well-formed state with the same manager.
record Quiet {S A : Type 0} (m : M S A) : Type 0 where
  at :
      (s : State S)
      → WellFormed s
      → (a : A) × (t : State S) × (m s ≡ ok (a, t)) × WellFormed t × (t.mgr ≡ s.mgr)

module _ {S : Type 0} where
  Quiet-bind :
      {A B : Type 0} (m : M S A) (f : A → M S B)
      → Quiet m
      → ((a : A) → Quiet (f a))
      → Quiet (m >>= f)
  Quiet-bind m f km kf = record {
    at = λ s w.
        let (a, t, runs, wt, same) = km.at s w in
        let (b, u, later, wu, same') = (kf a).at t wt in
        (
          b,
          u,
          ap (λ r. elim r [ ok (a, t) ↦ f a t | fault e ↦ fault e ]) runs ∙ later,
          wu,
          same' ∙ same,
        );
  }

  Quiet-pure : {A : Type 0} (a : A) → Quiet {S = S} (pure a)
  Quiet-pure a = record { at = λ s w. (a, s, refl, w, refl) }

  Quiet-get_mgr : Quiet {S = S} get_mgr
  Quiet-get_mgr = record { at = λ s w. (s.mgr, s, refl, w, refl) }

  Quiet-get_app : Quiet {S = S} get_app
  Quiet-get_app = record { at = λ s w. (s.app, s, refl, w, refl) }

  Quiet-put_app : (f : S → S) → Quiet {S = S} (put_app f)
  Quiet-put_app f = record { at = λ s w. (tt, _, refl, ((Safe-put_app f).at s w).formed, refl) }

  Quiet-sys : (k : Kernel) (c : Call) → is_plain c ≡ true → Quiet {S = S} (sys k c)
  unfolding sys
  Quiet-sys k c plain = record {
    at = λ s w. (_, _, refl, ((Safe-sys k c plain).at s w).formed, refl);
  }

  Quiet-if : {A : Type 0} (b : Bool) (m n : M S A) → Quiet m → Quiet n → Quiet (if b then m else n)
  Quiet-if true m n km kn = km
  Quiet-if false m n km kn = kn

ruleset quiet_rules =
    (Quiet-bind, Quiet-pure, Quiet-get_mgr, Quiet-get_app, Quiet-put_app, Quiet-sys, Quiet-if, refl)

module _ (k : Kernel) {U : Type 0} (l : Listener (TcpServer U)) where
  set_non_blocking-Quiet : (fd : ℕ) → Quiet {S = TcpServer U} (set_non_blocking k fd)
  unfolding set_non_blocking
  set_non_blocking-Quiet fd = search quiet_rules depth 20

  setup_listen-Quiet :
      (sock ipv4 port backlog : ℕ) → Quiet (setup_listen k l sock ipv4 port backlog)
  setup_listen-Quiet sock ipv4 port backlog = search (quiet_rules, set_non_blocking-Quiet) depth 20

  create_listen_socket-Quiet : (ipv4 port : ℕ) → Quiet (create_listen_socket k l ipv4 port)
  unfolding create_listen_socket
  create_listen_socket-Quiet ipv4 port = search (quiet_rules, setup_listen-Quiet) depth 20

  start_accept-Quiet : Quiet (start_accept k l)
  unfolding start_accept ctl_fd
  start_accept-Quiet = search quiet_rules depth 20

  close_listen_socket-Quiet : Quiet (close_listen_socket k l)
  unfolding close_listen_socket
  close_listen_socket-Quiet = search quiet_rules depth 20

  -- What `Start` comes to: a started manager that holds nothing, or one that is not started.
  abbrev pub Outcome : Result (Bool × State (TcpServer U)) → Type 0
  Outcome (ok (true, s)) = WellFormed s × IsEmptyStart s.mgr
  Outcome (ok (false, s)) = WellFormed s × (has_start s.mgr ≡ false)
  Outcome (fault e) = ⊥

  module _ (kl : ListenerKeeps l) (rounds : ℕ) where
    abbrev worker : M (TcpServer U) (Unit {0})
    worker = do_work k (handler k l) rounds

    accepted :
        (s : State (TcpServer U))
        → WellFormed s
        → IsEmptyStart s.mgr
        → Outcome ((do start_accept k l; pure true) s)
    accepted s w empty =
        let (a, t, runs, wt, same) = start_accept-Quiet.at s w in
        subst (λ r. Outcome (elim r [ ok (b, u) ↦ ok (true, u) | fault e ↦ fault e ])) (sym runs)
          (wt, subst IsEmptyStart (sym same) empty)

    refused :
        (s : State (TcpServer U))
        → WellFormed s
        → has_start s.mgr ≡ false
        → Outcome ((do close_listen_socket k l; pure false) s)
    refused s w off =
        let (a, t, runs, wt, same) = close_listen_socket-Quiet.at s w in
        subst (λ r. Outcome (elim r [ ok (b, u) ↦ ok (false, u) | fault e ↦ fault e ])) (sym runs)
          (wt, rw same off)

    -- Behind the call of the manager's `Start`.
    managed :
        (r : Result (ℕ × State (TcpServer U)))
        → Started r
        → After WellFormed r
        → Outcome (elim r [
          | ok (status, s) ↦
              (if is_negative status
                  then (do close_listen_socket k l; pure false)
                  else (do start_accept k l; pure true))
                s
          | fault e ↦ fault e
        ])
    unfolding has_start reset
    managed (ok (status, s)) (inl (done, empty)) w = rw done (accepted s w empty)
    managed (ok (status, s)) (inr (failed, fresh)) w =
        rw failed (refused s w (subst (λ m. has_start m ≡ false) fresh refl))
    managed (fault e) h w = h

    -- The part of `Start` behind `CreateListenSocket`.
    abbrev manager_starts : M (TcpServer U) Bool
    manager_starts = do
      app ← get_app
      status ← Lifecycle.start k worker (app.base.heartbeat_interval_in_seconds * 1000 % int_mod)
      if is_negative status
          then (do close_listen_socket k l; pure false)
          else (do start_accept k l; pure true)

    listening :
        (made : Bool) (memory : Manager) (t : State (TcpServer U))
        → WellFormed t
        → t.mgr ≡ make_manager memory
        → Outcome ((if made then manager_starts else pure false) t)
    unfolding make_manager reset has_start
    listening false memory t w same = (w, rw same refl)
    listening true memory t w same =
        let interval = t.app.base.heartbeat_interval_in_seconds * 1000 % int_mod in
        managed (Lifecycle.start k worker interval t)
          (start-Started k worker interval t (rw same refl) (rw same refl) (rw same refl))
          ((start-Keeps k worker
              (do_work-Keeps k (handler k l) (tcp_server-HandlerKeeps k l kl) rounds) interval).at
            t w)

    -- `Start` of a TCP server that was just constructed, with a listener that keeps the manager well
    -- formed, returns, whichever system call fails, in a well-formed state. Where it returns true the
    -- manager is started and holds no object and no command, and where it returns false the manager is
    -- not started.
    pub start-Outcome :
        (ipv4 port : ℕ) (memory : Manager) (app : TcpServer U)
        → Outcome (TcpServer.start k l worker ipv4 port (constructed memory app))
    unfolding TcpServer.start make_manager
    start-Outcome ipv4 port memory app =
        let s = constructed memory app in
        let (made, t, runs, w, same) =
          (create_listen_socket-Quiet ipv4 port).at s (constructed-WellFormed memory app) in
        subst
          (λ r. Outcome (elim r [
            | ok (b, u) ↦ (if b then manager_starts else pure false) u
            | fault e ↦ fault e
          ]))
          (sym runs) (listening made memory t w same)

    -- Behind a `Start` of a TCP server that was just constructed that returned true, with a listener
    -- that keeps the manager well formed: `Stop`, which waits for at least one round of `DoWork`,
    -- returns true, if the `epoll_pwait` of that round, behind the write to the eventfd that ends the
    -- loop, reports the exit event and no other. The manager is not started then, has no object in
    -- its map and no command in its queue, and no object is registered with epoll.
    pub start-stop_server :
        (ipv4 port more : ℕ) (memory : Manager) (app : TcpServer U) (s : State (TcpServer U))
        → TcpServer.start k l worker ipv4 port (constructed memory app) ≡ ok (true, s)
        → Wakes k s.mgr.exit_evt_fd (Call.close s.app.listen_socket ∷ s.trace)
        → Ends true (TcpServer.stop_server k l (do_work k (handler k l) (suc more)) s)
    start-stop_server ipv4 port more memory app s started wakes =
        let (w, empty) = subst Outcome started (start-Outcome ipv4 port memory app) in
        stop_server-Ends k l kl more s w empty wakes
