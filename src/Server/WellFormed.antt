-- ===== src/Server/WellFormed.antt =====
-- The handlers that the servers and the client give to their `SocketManager` keep it well formed, if
-- their listeners do. socket_manager/tcp_server.cpp, udp_server.cpp, tcp_client.cpp.
pub mod Transfer
use light_server.Base.{
  ℕ, zero, suc, ◌≡◌, refl, Bool, true, false, not, ◌||◌, Option, none, some, List, [], ◌∷◌, take,
  ◌==◌, ltb, if◌then◌else◌, arith,
}
use light_server.Common.{
  Sockaddr, invalid_socket, epollin, epollet, epollerr, epollhup, has_flag, is_negative, minus_one,
}
use light_server.SocketObject.{
  SocketObject, set_connected, count_received_packet, count_received_bytes, is_receive_overflow,
}
use light_server.Machine.{
  Pvoid, null, object, cmd_evt, exit_evt, timer_evt, listen_sock, Call, Answer, Kernel, M, ◌>>=◌,
  ◌>>◌, pure, load, store, sys, put_app, get_app,
}
use light_server.SocketManager.Objects.{IoHandler}
use light_server.SocketManager.Descriptors.{get_time, get_time_in_millisecond, set_non_blocking}
use light_server.SocketManager.Connect.{add_tcp_socket}
use light_server.Server.TcpServer.{TcpServer, Listener, handle_accept}
use light_server.Server.TcpServer
use light_server.Server.TcpClient
use light_server.Server.UdpServer
use light_server.SocketManager.WellFormed.{Keeps, Safe, SafeAt, Safe-bind, SafeAt-bind, Keeps-bind}
use light_server.SocketManager.WellFormed.Rules.{
  Safe-Keeps, Safe-SafeAt, Safe-pure, Safe-put_app, Safe-get_app, Safe-sys, Safe-if, SafeAt-if,
  SafeAt-store-then, Safe-load, Safe-with_valid, Keeps-if,
}
use light_server.SocketManager.WellFormed.Calls.{
  safe_rules, keeps_rules, get_time-Safe, get_time_in_millisecond-Safe, set_non_blocking-Safe,
  close_socket-Safe, disconnect_silence_connections-Safe,
}
use light_server.SocketManager.WellFormed.Adding.{add_tcp_socket-Safe}
use light_server.SocketManager.WellFormed.Looping.{HandlerKeeps}
use light_server.Server.WellFormed.Transfer.{receive_with-Keeps, send_all-Safe}

-- A listener that deletes no object when a connection comes or goes, and keeps the manager well formed
-- when it reads.
pub record ListenerKeeps {S : Type 0} (l : Listener S) : Type 0 where
  pub on_connect : (sock : ℕ) → Safe (l.on_connect sock)
  pub on_disconnect : (sock : ℕ) → Safe (l.on_disconnect sock)
  pub do_read : (sock : ℕ) (buf : List ℕ) (n : ℕ) → Keeps (l.do_read sock buf n)

pub record UdpListenerKeeps {S : Type 0} (l : UdpServer.Listener S) : Type 0 where
  pub on_connect : (sock : ℕ) → Safe (l.on_connect sock)
  pub on_disconnect : (sock : ℕ) → Safe (l.on_disconnect sock)
  pub do_read :
      (sock : ℕ) (buf : List ℕ) (n : ℕ) (from : Sockaddr) → Keeps (l.do_read sock buf n from)

count_received_bytes-socket_id :
    (o : SocketObject) (n now : ℕ) → (count_received_bytes o n now).socket_id ≡ o.socket_id
unfolding count_received_bytes
count_received_bytes-socket_id o n now = ground arith

count_received_packet-socket_id :
    (o : SocketObject) (n now : ℕ) → (count_received_packet o n now).socket_id ≡ o.socket_id
unfolding count_received_packet
count_received_packet-socket_id o n now = ground arith

module _ (k : Kernel) {U : Type 0} (l : Listener (TcpServer U)) (kl : ListenerKeeps l) where
  open kl use {on_connect, on_disconnect, do_read}

  accepted-Safe :
      (sock : ℕ) (added : ℕ)
      → Safe {S = TcpServer U} (
          if is_negative added
          then (do sys k (Call.close sock); pure false)
          else (do l.on_connect sock; pure true))
  accepted-Safe sock added = search (safe_rules, on_connect)

  add_tcp : (sock : ℕ) (addr : Sockaddr) → Safe {S = TcpServer U} (add_tcp_socket k sock addr)
  add_tcp sock addr = add_tcp_socket-Safe k sock addr

  handle_accept-Safe : (events : ℕ) → Safe (handle_accept k l events)
  unfolding handle_accept
  handle_accept-Safe events =
      search (safe_rules, accepted-Safe, add_tcp, set_non_blocking-Safe) depth 20

  tcp_before-Keeps :
      (pv : Pvoid) (events : ℕ) → Keeps (TcpServer.on_before_process_io k l pv events)
  unfolding TcpServer.on_before_process_io
  tcp_before-Keeps listen_sock events = search (keeps_rules, handle_accept-Safe)
  tcp_before-Keeps null events = Safe-Keeps (Safe-pure true)
  tcp_before-Keeps cmd_evt events = Safe-Keeps (Safe-pure true)
  tcp_before-Keeps exit_evt events = Safe-Keeps (Safe-pure true)
  tcp_before-Keeps timer_evt events = Safe-Keeps (Safe-pure true)
  tcp_before-Keeps (object p) events = Safe-Keeps (Safe-pure true)

  tcp_receive-Keeps : (pv : Pvoid) (flag : ℕ) → Keeps (TcpServer.handle_receive k l pv flag)
  unfolding TcpServer.handle_receive
  tcp_receive-Keeps pv flag = receive_with-Keeps k pv flag _ _ λ p o size. record {
    plain = refl;
    within_limit = λ r. Safe-pure true;
    deliver = λ r. do_read o.socket_id (take r.ret r.bytes) r.ret;
  }

  tcp_send-Keeps : (pv : Pvoid) (flag : ℕ) → Keeps (TcpServer.handle_send k l pv flag)
  unfolding TcpServer.handle_send
  tcp_send-Keeps pv flag = Safe-Keeps (send_all-Safe k _ pv)

  -- The handler that `TcpServer` gives to its manager keeps it well formed, whatever events it is called
  -- with, if its listener deletes no object when a connection comes or goes and keeps the manager well
  -- formed when it reads.
  pub tcp_server-HandlerKeeps : HandlerKeeps (TcpServer.handler k l)
  tcp_server-HandlerKeeps = record {
    on_timer = λ n. Safe-Keeps (Safe-pure tt);
    on_before_process_io = tcp_before-Keeps;
    on_after_process_io = λ pv events rs. Safe-Keeps (Safe-pure tt);
    on_ready_read = tcp_receive-Keeps;
    on_ready_write = tcp_send-Keeps;
    on_disconnect = on_disconnect;
  }

module _ (k : Kernel) {U : Type 0} (l : Listener (TcpClient.TcpClient U))
    (kl : ListenerKeeps l) where
  open kl use {on_connect, on_disconnect, do_read}

  client_timer-Safe : (n : ℕ) → Safe (TcpClient.on_timer k l n)
  unfolding TcpClient.on_timer
  client_timer-Safe n = search (safe_rules, disconnect_silence_connections-Safe) depth 20

  finish_connect-SafeAt :
      (p : ℕ) (o : SocketObject) → SafeAt p o.socket_id (TcpClient.finish_connect k l p o)
  unfolding set_connected
  finish_connect-SafeAt p o =
      let refuse : Safe {S = TcpClient.TcpClient U} (TcpClient.close_and_refuse k l o.socket_id) =
        search (safe_rules, close_socket-Safe) in
      SafeAt-bind _ _ p o.socket_id (Safe-sys k (Call.getsockopt o.socket_id) refl) λ r.
        SafeAt-if p o.socket_id (is_negative r.ret) _ _ (Safe-SafeAt p o.socket_id refuse) (
          SafeAt-if p o.socket_id (r.value == 0) _ _
            (SafeAt-bind (get_time k) _ p o.socket_id (get_time-Safe k) λ now.
              SafeAt-store-then p o.socket_id (set_connected o now)
                (do l.on_connect o.socket_id; pure true) refl (search (safe_rules, on_connect)))
            (Safe-SafeAt p o.socket_id refuse))

  client_before-Keeps :
      (pv : Pvoid) (events : ℕ) → Keeps (TcpClient.on_before_process_io k l pv events)
  unfolding TcpClient.on_before_process_io
  client_before-Keeps pv events = Safe-Keeps (
      Safe-with_valid pv false _ λ p o.
        SafeAt-if p o.socket_id o.connect_state _ _ (Safe-SafeAt p o.socket_id (Safe-pure true))
          (finish_connect-SafeAt p o))

  bytes_within_limit-Safe : (p : ℕ) (r : Answer) → Safe (TcpClient.bytes_within_limit k l p r)
  bytes_within_limit-Safe p r = Safe-load p _ λ o.
      SafeAt-if p o.socket_id o.f_receive_limit _ _
        (SafeAt-bind (get_time_in_millisecond k) _ p o.socket_id (get_time_in_millisecond-Safe k)
          λ now.
            let o' = count_received_bytes o r.ret now in
            SafeAt-store-then p o.socket_id o' (pure (not (is_receive_overflow o')))
              (count_received_bytes-socket_id o r.ret now) (Safe-pure _))
        (Safe-SafeAt p o.socket_id (Safe-pure true))

  client_receive-Keeps : (pv : Pvoid) (flag : ℕ) → Keeps (TcpClient.handle_receive k l pv flag)
  unfolding TcpClient.handle_receive
  client_receive-Keeps pv flag = receive_with-Keeps k pv flag _ _ λ p o size. record {
    plain = refl;
    within_limit = bytes_within_limit-Safe p;
    deliver = λ r. do_read o.socket_id (take r.ret r.bytes) r.ret;
  }

  client_send-Keeps : (pv : Pvoid) (flag : ℕ) → Keeps (TcpClient.handle_send k l pv flag)
  unfolding TcpClient.handle_send
  client_send-Keeps pv flag = Safe-Keeps (send_all-Safe k _ pv)

  -- The handler that `TcpClient` gives to its manager keeps it well formed, whatever events it is called
  -- with, the end of a delayed connect and the timer among them, if its listener deletes no object when
  -- a connection comes or goes and keeps the manager well formed when it reads.
  pub tcp_client-HandlerKeeps : HandlerKeeps (TcpClient.handler k l)
  tcp_client-HandlerKeeps = record {
    on_timer = λ n. Safe-Keeps (client_timer-Safe n);
    on_before_process_io = client_before-Keeps;
    on_after_process_io = λ pv events rs. Safe-Keeps (Safe-pure tt);
    on_ready_read = client_receive-Keeps;
    on_ready_write = client_send-Keeps;
    on_disconnect = on_disconnect;
  }

module _ (k : Kernel) {U : Type 0} (l : UdpServer.Listener (UdpServer.UdpServer U))
    (kl : UdpListenerKeeps l) where
  open kl use {on_disconnect, do_read}

  packet_within_limit-Safe : (p : ℕ) (r : Answer) → Safe (UdpServer.packet_within_limit k l p r)
  packet_within_limit-Safe p r = Safe-load p _ λ o.
      SafeAt-if p o.socket_id o.f_receive_limit _ _
        (SafeAt-bind (get_time_in_millisecond k) _ p o.socket_id (get_time_in_millisecond-Safe k)
          λ now.
            let o' = count_received_packet o 1 now in
            SafeAt-store-then p o.socket_id o' (pure (not (is_receive_overflow o')))
              (count_received_packet-socket_id o 1 now) (Safe-pure _))
        (Safe-SafeAt p o.socket_id (Safe-pure true))

  udp_receive-Keeps : (pv : Pvoid) (flag : ℕ) → Keeps (UdpServer.handle_receive k l pv flag)
  unfolding UdpServer.handle_receive
  udp_receive-Keeps pv flag = receive_with-Keeps k pv flag _ _ λ p o size. record {
    plain = refl;
    within_limit = packet_within_limit-Safe p;
    deliver = λ r. do_read o.socket_id (take r.ret r.bytes) r.ret r.addr;
  }

  udp_send-Keeps : (pv : Pvoid) (flag : ℕ) → Keeps (UdpServer.handle_send k l pv flag)
  unfolding UdpServer.handle_send
  udp_send-Keeps pv flag = Safe-Keeps (send_all-Safe k _ pv)

  -- The handler that `UdpServer` gives to its manager keeps it well formed, whatever events it is called
  -- with, the count of datagrams included, if its listener deletes no object when a socket comes or
  -- goes and keeps the manager well formed when it reads.
  pub udp_server-HandlerKeeps : HandlerKeeps (UdpServer.handler k l)
  udp_server-HandlerKeeps = record {
    on_timer = λ n. Safe-Keeps (Safe-pure tt);
    on_before_process_io = λ pv events. Safe-Keeps (Safe-pure true);
    on_after_process_io = λ pv events rs. Safe-Keeps (Safe-pure tt);
    on_ready_read = udp_receive-Keeps;
    on_ready_write = udp_send-Keeps;
    on_disconnect = on_disconnect;
  }
