-- ===== src/SocketManager/Connect.antt =====
-- How sockets come to a `SocketManager`: connecting, binding, accepted ones.
-- socket_manager/socket_manager.cpp.
use light_server.Base.{ℕ, ◌==◌, if◌then◌else◌}
use light_server.Common.{Sockaddr, minus_one, is_negative, invalid_socket, einprogress}
use light_server.SocketObject.{set_remote_addr, set_connected}
use light_server.Machine.{Call, Kernel, M, ◌>>=◌, ◌>>◌, pure, load, store, sys}
use light_server.SocketManager.Descriptors.{get_time, set_non_blocking}
use light_server.SocketManager.Objects.{
  IoHandler, call_handler, new_socket_object, add_socket_object,
}

-- SOCK_STREAM and SOCK_DGRAM
abbrev pub sock_stream : ℕ
sock_stream = 1

abbrev pub sock_dgram : ℕ
sock_dgram = 2

module _ (k : Kernel) {S : Type 0} where
  -- A new object with its remote address, not connected yet.
  abbrev pub new_remote : Sockaddr → M S ℕ
  new_remote addr = do p ← new_socket_object k; o ← load p; store p (set_remote_addr o addr); pure p

  -- `SetConnected` at the time of now.
  abbrev pub mark_connected : ℕ → M S (Unit {0})
  mark_connected p = do now ← get_time k; o ← load p; store p (set_connected o now)

  -- `AddTcpSocket`
  unfoldable pub add_tcp_socket : ℕ → Sockaddr → M S ℕ
  add_tcp_socket sock from_addr = if sock == invalid_socket then pure minus_one else (do
    p ← new_remote from_addr
    mark_connected p
    added ← add_socket_object k sock p
    pure (if added then 0 else minus_one))

  module _ (h : IoHandler S) where
    abbrev pub adopt_connected : ℕ → Sockaddr → M S ℕ
    adopt_connected sock addr = do
      p ← new_remote addr
      mark_connected p
      add_socket_object k sock p
      call_handler (h.on_connect sock)
      pure sock

    -- `ConnectToRemote`
    unfoldable pub connect_to_remote : Sockaddr → M S ℕ
    connect_to_remote addr = do
      sock ← sys k (Call.socket sock_stream)
      if is_negative sock.ret then pure minus_one else (do
        sys k (Call.setsockopt sock.ret 0)
        c ← sys k (Call.connect sock.ret addr)
        if is_negative c.ret
            then (do sys k (Call.close sock.ret); pure minus_one)
            else (do set_non_blocking k sock.ret; adopt_connected sock.ret addr))

    -- `AsynchConnectTo`: it returns the socket also where `connect` failed for good.
    unfoldable pub asynch_connect_to : Sockaddr → M S ℕ
    asynch_connect_to addr = do
      sock ← sys k (Call.socket sock_stream)
      if is_negative sock.ret then pure invalid_socket else (do
        set_non_blocking k sock.ret
        c ← sys k (Call.connect sock.ret addr)
        if is_negative c.ret
            then if c.errno == einprogress
              then (do p ← new_remote addr; add_socket_object k sock.ret p; pure sock.ret)
              else pure sock.ret
            else adopt_connected sock.ret addr)

    abbrev pub adopt_udp : ℕ → M S ℕ
    adopt_udp sock = do
      p ← new_socket_object k
      mark_connected p
      add_socket_object k sock p
      call_handler (h.on_connect sock)
      pure sock

    abbrev pub close_failed : ℕ → M S ℕ
    close_failed sock = do sys k (Call.close sock); pure minus_one

    -- `AddUdpSocket`
    unfoldable pub add_udp_socket : Sockaddr → M S ℕ
    add_udp_socket addr = do
      sock ← sys k (Call.socket sock_dgram)
      if is_negative sock.ret then pure minus_one else (do
        set_non_blocking k sock.ret
        opt ← sys k (Call.setsockopt sock.ret 1)
        if is_negative opt.ret then close_failed sock.ret else (do
          b ← sys k (Call.bind sock.ret addr)
          if is_negative b.ret then close_failed sock.ret else adopt_udp sock.ret))
