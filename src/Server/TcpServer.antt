-- ===== src/Server/TcpServer.antt =====
-- `TcpServer` of socket_manager/tcp_server.h and tcp_server.cpp.
use light_server.Base.{
  ℕ, ◌+◌, ◌*◌, ◌%◌, Bool, true, false, not, ◌||◌, List, take, ◌==◌, if◌then◌else◌,
}
use light_server.Common.{
  int_mod, is_negative, invalid_socket, epollin, epollerr, epollhup, epollet, has_flag,
}
use light_server.SocketObject.{SocketObject}
use light_server.Machine.{
  Pvoid, listen_sock, Call, Kernel, M, ◌>>=◌, ◌>>◌, pure, defined, get_app, put_app, load, store,
  sys,
}
use light_server.SocketManager.Descriptors.{add_fd, get_time, set_non_blocking}
use light_server.SocketManager.Objects.{IoHandler, with_valid}
use light_server.SocketManager.Connect.{add_tcp_socket, sock_stream}
use light_server.SocketManager.Traffic
use light_server.SocketManager.Lifecycle
use light_server.Server.Base.{ServerBase, make_base, rx_size}
use light_server.Server.Input.{Input, receive_all}
use light_server.Server.Output.{by_write, send_all}

-- `user` is the state of the listener.
pub record TcpServer (U : Type 0) : Type 0 where
  pub base : ServerBase
  pub listen_socket : ℕ
  pub max_connections_of_listen_socket : ℕ
  pub user : U

-- The constructor
unfoldable pub make_server : {U : Type 0} → U → TcpServer U
make_server u = record {
  base = make_base 2048;
  listen_socket = invalid_socket;
  max_connections_of_listen_socket = 100;
  user = u;
}

-- `TcpServerListener`: the program that uses the server. What it returns is ignored.
pub record Listener (S : Type 0) : Type 0 where
  pub on_connect : ℕ → M S (Unit {0})
  pub on_disconnect : ℕ → M S (Unit {0})
  pub do_read : ℕ → List ℕ → ℕ → M S (Unit {0})

-- `active_time_ = now`
abbrev pub touch : {S : Type 0} → ℕ → ℕ → M S SocketObject
touch p now = do o ← load p; store p (record o { active_time = now }); pure o

module _ (k : Kernel) {U : Type 0} (listener : Listener (TcpServer U)) where
  abbrev Tcp : Type 0 → Type 0
  Tcp A = M (TcpServer U) A

  abbrev pub tcp_input : ℕ → ℕ → Input (TcpServer U)
  tcp_input sock size = record {
    receive = Call.read sock size;
    within_limit = λ r. pure true;
    deliver = λ r. listener.do_read sock (take r.ret r.bytes) r.ret;
  }

  unfoldable pub handle_receive : Pvoid → ℕ → Tcp Bool
  handle_receive pv flag = with_valid pv false λ p o. do
    app ← get_app
    size ← defined (rx_size app.base)
    now ← get_time k
    touch p now
    receive_all k (tcp_input o.socket_id size) o.socket_id flag

  unfoldable pub handle_send : Pvoid → ℕ → Tcp Bool
  handle_send pv flag = send_all k by_write pv

  -- One connection is accepted for an event.
  unfoldable pub handle_accept : ℕ → Tcp Bool
  handle_accept events =
      if has_flag events epollerr || has_flag events epollhup then pure false else (do
        app ← get_app
        new_sock ← sys k (Call.accept app.listen_socket)
        if new_sock.ret == invalid_socket then pure false else (do
          status ← set_non_blocking k new_sock.ret
          if is_negative status then pure false else (do
            added ← add_tcp_socket k new_sock.ret new_sock.addr
            if is_negative added
                then (do sys k (Call.close new_sock.ret); pure false)
                else (do listener.on_connect new_sock.ret; pure true))))

  unfoldable pub on_before_process_io : Pvoid → ℕ → Tcp Bool
  on_before_process_io listen_sock events = do handle_accept events; pure false
  on_before_process_io _ events = pure true

  -- What the server gives to its `SocketManager`.
  abbrev pub handler : IoHandler (TcpServer U)
  handler = record {
    on_timer = λ expirations. pure tt;
    on_before_process_io = on_before_process_io;
    on_after_process_io = λ pv events rs. pure tt;
    on_ready_read = handle_receive;
    on_ready_write = handle_send;
    on_connect = listener.on_connect;
    on_disconnect = listener.on_disconnect;
  }

  -- The calls of `CreateListenSocket` behind `socket`: whether none failed.
  abbrev pub setup_listen : ℕ → ℕ → ℕ → ℕ → Tcp Bool
  setup_listen sock ipv4 port backlog = do
    reuse_addr ← sys k (Call.setsockopt sock 2)
    if is_negative reuse_addr.ret then pure false else (do
      reuse_port ← sys k (Call.setsockopt sock 15)
      if is_negative reuse_port.ret then pure false else (do
        status ← set_non_blocking k sock
        if is_negative status then pure false else (do
          bound ← sys k (Call.bind sock (record { family = 2; port = port; ip = ipv4 }))
          if is_negative bound.ret
              then pure false
              else (do l ← sys k (Call.listen sock backlog); pure (not (is_negative l.ret))))))

  unfoldable pub create_listen_socket : ℕ → ℕ → Tcp Bool
  create_listen_socket ipv4 port = do
    sock ← sys k (Call.socket sock_stream)
    put_app (λ a. record a { listen_socket = sock.ret })
    app ← get_app
    made ←
        (if sock.ret == invalid_socket
          then pure false
          else setup_listen sock.ret ipv4 port app.max_connections_of_listen_socket)
    if made then pure true else (do sys k (Call.close sock.ret); pure false)

  unfoldable pub close_listen_socket : Tcp (Unit {0})
  close_listen_socket = do app ← get_app; sys k (Call.close app.listen_socket); pure tt

  unfoldable pub start_accept : Tcp Bool
  start_accept = do
    app ← get_app
    if app.listen_socket == invalid_socket
        then pure false
        else add_fd k app.listen_socket (epollin + epollet) Pvoid.listen_sock

  -- `Start`, of a listener that is not null
  unfoldable pub start : Tcp (Unit {0}) → ℕ → ℕ → Tcp Bool
  start worker ipv4 port = do
    made ← create_listen_socket ipv4 port
    if made
        then (do
          app ← get_app
          status ←
              Lifecycle.start k worker (app.base.heartbeat_interval_in_seconds * 1000 % int_mod)
          if is_negative status
              then (do close_listen_socket; pure false)
              else (do start_accept; pure true))
        else pure false

  unfoldable pub stop_server : Tcp (Unit {0}) → Tcp Bool
  stop_server worker = do
    close_listen_socket
    Traffic.close_all_socket k
    status ← Lifecycle.stop k worker
    pure (status == 0)
