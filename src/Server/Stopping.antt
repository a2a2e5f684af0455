-- ===== src/Server/Stopping.antt =====
-- `Stop` of a TCP server that was started. socket_manager/tcp_server.cpp.
use light_server.Base.{ℕ, suc, ◌≡◌, refl, true, [], ◌∷◌, ◌==◌, sym, subst}
use light_server.Machine.{Call, Kernel, ok, State, M, ◌>>=◌, pure, sys}
use light_server.SocketManager.Descriptors.{has_start}
use light_server.SocketManager.Events.{do_work}
use light_server.SocketManager.Traffic.{close_all_socket, disconnect_where}
use light_server.SocketManager.Lifecycle.{stop}
use light_server.SocketManager.StartStop.{IsEmptyStart}
use light_server.SocketManager.WellFormed.{WellFormed, Keeps}
use light_server.SocketManager.WellFormed.Rules.{Safe-sys}
use light_server.SocketManager.WellFormed.Looping.{do_work-Keeps}
use light_server.SocketManager.Reachable.Stopping.{Wakes, Ends, Ends-then, exit-Waits, stop-Ends}
use light_server.Server.TcpServer.{TcpServer, Listener, handler}
use light_server.Server.TcpServer
use light_server.Server.WellFormed.{ListenerKeeps, tcp_server-HandlerKeeps}

-- The end of `Stop`: the result of the manager is compared with 0.
compared :
    (k : Kernel) {S : Type 0} (worker : M S (Unit {0})) (s : State S)
    → Ends 0 (stop k worker s)
    → Ends true ((do status ← stop k worker; pure (status == 0)) s)
compared k worker s e = Ends-then (stop k worker) _ s e.runs (record {
  after = e.after;
  runs = refl;
  stopped = e.stopped;
  no_objects = e.no_objects;
  no_commands = e.no_commands;
  none_registered = e.none_registered;
})

module _ (k : Kernel) {U : Type 0} (l : Listener (TcpServer U)) (kl : ListenerKeeps l) where
  close_all_socket_runs :
      (s : State (TcpServer U)) → s.mgr.sock_object_map ≡ [] → close_all_socket k s ≡ ok (true, s)
  unfolding close_all_socket disconnect_where
  close_all_socket_runs s none_held = rw none_held refl

  -- `Stop` of a server that holds nothing, while the thread runs `DoWork`.
  pub stop_server-Ends :
      (rounds : ℕ) (s : State (TcpServer U))
      → WellFormed s
      → IsEmptyStart s.mgr
      → Wakes k s.mgr.exit_evt_fd (Call.close s.app.listen_socket ∷ s.trace)
      → Ends true (TcpServer.stop_server k l (do_work k (handler k l) (suc rounds)) s)
  unfolding TcpServer.stop_server TcpServer.close_listen_socket sys
  stop_server-Ends rounds s w (on, no_objects, no_commands) wakes =
      let closed : State (TcpServer U) = record s {
        trace = Call.close s.app.listen_socket ∷ s.trace;
      } in
      let worker = do_work k (handler k l) (suc rounds) in
      let (u, waits, same) = exit-Waits k (handler k l) rounds closed no_commands wakes in
      let keeps : Keeps worker =
        do_work-Keeps k (handler k l) (tcp_server-HandlerKeeps k l kl) (suc rounds) in
      let formed = ((Safe-sys k (Call.close s.app.listen_socket) refl).at s w).formed in
      Ends-then (close_all_socket k) _ closed (close_all_socket_runs closed no_objects) (
        compared k worker closed (
          stop-Ends k worker closed u keeps formed waits
            (subst (λ m. has_start m ≡ true) (sym same) on)))
