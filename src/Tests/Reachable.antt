-- ===== src/Tests/Reachable.antt =====
-- The theorems on the states that a manager comes to, for a server that sends back what it reads.
use light_server.Base.{length, Bool, List, true, false, ℕ, ◌≡◌, refl, inr, some, [], ◌∷◌}
use light_server.SocketObject.{construct, set_remote_addr, set_connected, set_socket_id, set_valid}
use light_server.Machine.{
  Pvoid, listen_sock, cmd_evt, exit_evt, Kernel, Call, M, alloc, load, store, sys, State, Result,
  ok, fault,
}
use light_server.SocketManager.FdMap
use light_server.SocketManager.Descriptors.{
  set_non_blocking, add_timer, create_timer, arm_timer, reset, has_start, ctl_fd, get_time,
}
use light_server.SocketManager.Objects.{new_socket_object, add_socket_object, find_socket_object}
use light_server.SocketManager.Connect.{add_tcp_socket}
use light_server.SocketManager.Lifecycle.{start, all_steps, start_opened, start_work_thread}
use light_server.SocketManager.WellFormed.{Owned, WellFormed}
use light_server.SocketManager.WellFormed.Rules.{Safe-Keeps, Safe-pure}
use light_server.SocketManager.WellFormed.Looping.{HandlerKeeps}
use light_server.SocketManager.Reachable.{
  Operation, start_with, drop, add_descriptor, owner, calls, add_tcp, Reach, begin, step, perform,
  make_manager, constructed, Reach-lookup, Reach-WellFormed, limit_packets, constructed-WellFormed,
}
use light_server.SocketManager.Reachable.Stopping.{Ends, wait_commands, wait_thread}
use light_server.SocketManager.Events.{do_work}
use light_server.Common.{epollin}
use light_server.SocketManager.View.{apply, perform-table}
use light_server.SocketManager.View.Rules.{table}
use light_server.Server.TcpServer.{Listener, handler}
use light_server.Server.TcpServer
use light_server.Server.StartStop.{Outcome, start-Outcome, start-stop_server}
use light_server.Server.WellFormed.{
  tcp_server-HandlerKeeps, tcp_client-HandlerKeeps, udp_server-HandlerKeeps,
}
use light_server.Server.TcpClient.{TcpClient}
use light_server.Server.TcpClient
use light_server.Server.UdpServer
use light_server.Examples.UdpEcho.{udp_echo, udp_echo-UdpListenerKeeps}
use light_server.Examples.TcpEcho.{echo, echo-ListenerKeeps}
use light_server.Tests.{kernel, reply, answer_to, fresh, fresh_manager, Tcp, addr}

-- A kernel that reports the event of commands and the exit event together, and one that reports the
-- exit event alone.
abbrev waiting : List (Pvoid × ℕ) → Kernel
waiting events = record kernel {
  answer = λ t. elim t [
    | [] ↦ reply 0 0
    | c ∷ _ ↦ (elim c [
      | Call.epoll_wait ↦ record (reply (length events) 0) { events = events }
      | other ↦ answer_to other
    ])
  ];
}

abbrev busy_kernel : Kernel
busy_kernel = waiting ((cmd_evt, 1) ∷ (exit_evt, 1) ∷ [])

abbrev ending_kernel : Kernel
ending_kernel = waiting ((exit_evt, epollin) ∷ [])

abbrev behind : Result (Unit {0} × State Tcp) → State Tcp
behind (ok (a, s)) = s
behind (fault e) = fresh

abbrev do_next : Operation → State Tcp → State Tcp
do_next op s = behind (perform busy_kernel (handler busy_kernel (echo busy_kernel)) op s)

abbrev begun : State Tcp
begun = constructed fresh_manager fresh.app

abbrev started : State Tcp
started = do_next (start_with 0 0) begun

-- The listening socket 6 is made and registered, as `CreateListenSocket` and `StartAccept` do.
abbrev listening : State Tcp
listening = do_next (add_descriptor 6 1 listen_sock) (record started {
  app = record (started.app) { listen_socket = 6 };
  trace = Call.listen 6 20 ∷ started.trace;
})

abbrev connected : State Tcp
connected = do_next (add_tcp 8 addr) listening

connected-Reach : Reach busy_kernel (handler busy_kernel (echo busy_kernel)) begun connected
unfolding perform make_manager reset start has_start sys ctl_fd all_steps start_opened
    start_work_thread add_tcp_socket new_socket_object alloc load store get_time add_socket_object
    find_socket_object FdMap.lookup FdMap.insert construct set_remote_addr set_connected
    set_socket_id set_valid
connected-Reach =
    step {t = listening} (add_tcp 8 addr)
      (step (add_descriptor 6 1 listen_sock)
        (calls (Call.listen 6 20)
          (owner (record (started.app) { listen_socket = 6 }) (step (start_with 0 0) begin tt refl))
          refl)
        refl refl)
      tt refl

Reach-lookup_example :
    (FdMap.lookup 8 connected.mgr.sock_object_map ≡ some 0) × Owned connected.heap 0 8
unfolding perform make_manager reset start has_start sys ctl_fd all_steps start_opened
    start_work_thread add_tcp_socket new_socket_object alloc load store get_time add_socket_object
    find_socket_object FdMap.lookup FdMap.insert construct set_remote_addr set_connected
    set_socket_id set_valid
Reach-lookup_example =
    Reach-lookup busy_kernel (handler busy_kernel (echo busy_kernel))
      (tcp_server-HandlerKeeps busy_kernel (echo busy_kernel) (echo-ListenerKeeps busy_kernel))
      (λ sock. Safe-pure tt) fresh_manager fresh.app connected connected-Reach 8 0 (inr refl)

-- A disconnect of the member is queued.
abbrev leaving : State Tcp
leaving = do_next (drop 8) connected

abbrev loop : M Tcp (Unit {0})
loop = do_work busy_kernel (handler busy_kernel (echo busy_kernel)) 1

abbrev after_commands : State Tcp
after_commands = behind (wait_commands busy_kernel loop false leaving)

abbrev last_state : Result (ℕ × State Tcp) → State Tcp
last_state (ok (a, s)) = s
last_state (fault e) = fresh

abbrev joined : State Tcp
joined = last_state (wait_thread busy_kernel loop true after_commands)

connected-WellFormed : WellFormed connected
connected-WellFormed =
    Reach-WellFormed busy_kernel (handler busy_kernel (echo busy_kernel))
      (tcp_server-HandlerKeeps busy_kernel (echo busy_kernel) (echo-ListenerKeeps busy_kernel))
      (λ sock. Safe-pure tt) begun connected connected-Reach
      (constructed-WellFormed fresh_manager fresh.app)

perform-table_example :
    (t : State Tcp) × (perform kernel (handler kernel (echo kernel)) (limit_packets 8 2) connected
      ≡ ok (tt, t))
    × WellFormed t
    × ((j : ℕ) → table t j ≡ apply (limit_packets 8 2) (table connected) j)
perform-table_example =
    perform-table kernel (handler kernel (echo kernel)) connected connected-WellFormed
      (limit_packets 8 2) tt

tcp_server-HandlerKeeps_example : HandlerKeeps (handler kernel {U = Unit {0}} (echo kernel))
tcp_server-HandlerKeeps_example =
    tcp_server-HandlerKeeps kernel (echo kernel) (echo-ListenerKeeps kernel)

abbrev idle : Listener (TcpClient (Unit {0}))
idle = record {
  on_connect = λ sock s. ok (tt, s);
  on_disconnect = λ sock s. ok (tt, s);
  do_read = λ sock bytes n s. ok (tt, s);
}

tcp_client-HandlerKeeps_example : HandlerKeeps (TcpClient.handler kernel idle)
tcp_client-HandlerKeeps_example = tcp_client-HandlerKeeps kernel idle (record {
  on_connect = λ sock. Safe-pure tt;
  on_disconnect = λ sock. Safe-pure tt;
  do_read = λ sock bytes n. Safe-Keeps (Safe-pure tt);
})

udp_server-HandlerKeeps_example : HandlerKeeps (UdpServer.handler kernel (udp_echo kernel))
udp_server-HandlerKeeps_example =
    udp_server-HandlerKeeps kernel (udp_echo kernel) (udp_echo-UdpListenerKeeps kernel)

start-Outcome_example : Outcome ending_kernel (echo ending_kernel) (
    TcpServer.start ending_kernel
      (echo ending_kernel)
      (do_work ending_kernel (handler ending_kernel (echo ending_kernel)) 3)
      0
      31098
      begun)
start-Outcome_example =
    start-Outcome ending_kernel (echo ending_kernel) (echo-ListenerKeeps ending_kernel) 3 0 31098
      fresh_manager fresh.app

abbrev behind_start : Result (Bool × State Tcp) → State Tcp
behind_start (ok (a, s)) = s
behind_start (fault e) = fresh

abbrev server_started : State Tcp
server_started = behind_start (
    TcpServer.start ending_kernel (echo ending_kernel)
      (do_work ending_kernel (handler ending_kernel (echo ending_kernel)) 3) 0 31098 begun)

start-stop_server_example : Ends true (
    TcpServer.stop_server ending_kernel
      (echo ending_kernel)
      (do_work ending_kernel (handler ending_kernel (echo ending_kernel)) 1)
      server_started)
unfolding perform make_manager reset start has_start sys ctl_fd all_steps start_opened
    start_work_thread add_tcp_socket new_socket_object alloc load store get_time add_socket_object
    find_socket_object FdMap.lookup FdMap.insert construct set_remote_addr set_connected
    set_socket_id set_valid TcpServer.start TcpServer.create_listen_socket TcpServer.start_accept
    set_non_blocking add_timer create_timer arm_timer
start-stop_server_example =
    start-stop_server ending_kernel (echo ending_kernel) (echo-ListenerKeeps ending_kernel) 3 0
      31098 0 fresh_manager fresh.app server_started refl (refl, refl)
