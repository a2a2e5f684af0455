-- ===== src/Server/TcpClient.antt =====
-- `TcpClient` of socket_manager/tcp_client.h and tcp_client.cpp.
use light_server.Base.{
  ℕ, ◌+◌, ◌*◌, ◌/◌, ◌%◌, ◌^◌, Bool, true, false, not, ◌&&◌, take, ltb, leb, ◌==◌, if◌then◌else◌,
}
use light_server.Common.{int_mod, is_negative}
use light_server.SocketObject.{
  SocketObject, set_connected, count_received_bytes, is_receive_overflow,
}
use light_server.Machine.{
  Pvoid, Call, Answer, Kernel, M, ◌>>=◌, ◌>>◌, pure, defined, get_app, put_app, load, store, sys,
}
use light_server.SocketManager.Descriptors.{get_time, get_time_in_millisecond}
use light_server.SocketManager.Objects.{IoHandler, with_valid, close_socket}
use light_server.SocketManager.Traffic
use light_server.SocketManager.Lifecycle
use light_server.Server.Base.{ServerBase, make_base, rx_size}
use light_server.Server.Input.{Input, receive_all}
use light_server.Server.Output.{by_write, send_all}
use light_server.Server.TcpServer.{Listener, touch}

-- The client has the fields of `ServerBase`, with a smaller buffer.
pub record TcpClient (U : Type 0) : Type 0 where
  pub base : ServerBase
  pub user : U

unfoldable pub make_client : {U : Type 0} → U → TcpClient U
make_client u = record { base = make_base 1024; user = u }

-- Whether `OnTimer` looks for silent connections after `expirations` more ticks.
abbrev pub is_check_due : ServerBase → ℕ → Bool
is_check_due b count =
    ltb 0 b.heartbeat_interval_in_seconds
    && (ltb b.heartbeat_interval_in_seconds b.keep_alive_time_in_seconds
        && leb (b.keep_alive_time_in_seconds / b.heartbeat_interval_in_seconds) count)

module _ (k : Kernel) {U : Type 0} (listener : Listener (TcpClient U)) where
  abbrev Client : Type 0 → Type 0
  Client A = M (TcpClient U) A

  abbrev set_timer_count : ℕ → Client (Unit {0})
  set_timer_count n = put_app (λ a. record a { base = record (a.base) { timer_event_count = n } })

  unfoldable pub on_timer : ℕ → Client (Unit {0})
  on_timer expirations = do
    app ← get_app
    let count = (app.base.timer_event_count + expirations) % 2 ^ 64
    set_timer_count count
    if is_check_due app.base count
        then (do
          set_timer_count 0
          Traffic.disconnect_silence_connections k app.base.keep_alive_time_in_seconds
          pure tt)
        else pure tt

  abbrev pub close_and_refuse : ℕ → Client Bool
  close_and_refuse sock = do close_socket k sock; pure false

  -- The end of a delayed `connect`: SO_ERROR tells whether it succeeded.
  abbrev pub finish_connect : ℕ → SocketObject → Client Bool
  finish_connect p o = do
    r ← sys k (Call.getsockopt o.socket_id)
    if is_negative r.ret
        then close_and_refuse o.socket_id
        else if r.value == 0
        then (do
          now ← get_time k
          store p (set_connected o now)
          listener.on_connect o.socket_id
          pure true)
        else close_and_refuse o.socket_id

  unfoldable pub on_before_process_io : Pvoid → ℕ → Client Bool
  on_before_process_io pv events =
      with_valid pv false λ p o. if o.connect_state then pure true else finish_connect p o

  -- Counts the bytes received, if the object has a receive limit.
  abbrev pub bytes_within_limit : ℕ → Answer → Client Bool
  bytes_within_limit p r = do
    o ← load p
    if o.f_receive_limit
        then (do
          now ← get_time_in_millisecond k
          let o' = count_received_bytes o r.ret now
          store p o'
          pure (not (is_receive_overflow o')))
        else pure true

  abbrev client_input : ℕ → ℕ → ℕ → Input (TcpClient U)
  client_input p sock size = record {
    receive = Call.read sock size;
    within_limit = bytes_within_limit p;
    deliver = λ r. listener.do_read sock (take r.ret r.bytes) r.ret;
  }

  unfoldable pub handle_receive : Pvoid → ℕ → Client Bool
  handle_receive pv flag = with_valid pv false λ p o. do
    app ← get_app
    size ← defined (rx_size app.base)
    now ← get_time k
    touch p now
    receive_all k (client_input p o.socket_id size) o.socket_id flag

  unfoldable pub handle_send : Pvoid → ℕ → Client Bool
  handle_send pv flag = send_all k by_write pv

  abbrev pub handler : IoHandler (TcpClient U)
  handler = record {
    on_timer = on_timer;
    on_before_process_io = on_before_process_io;
    on_after_process_io = λ pv events rs. pure tt;
    on_ready_read = handle_receive;
    on_ready_write = handle_send;
    on_connect = listener.on_connect;
    on_disconnect = listener.on_disconnect;
  }

  -- `Start`, of a listener that is not null: the result of the manager's `Start` is ignored.
  unfoldable pub start : Client (Unit {0}) → Client Bool
  start worker = do
    app ← get_app
    Lifecycle.start k worker (app.base.heartbeat_interval_in_seconds * 1000 % int_mod)
    pure true

  unfoldable pub stop_client : Client (Unit {0}) → Client Bool
  stop_client worker = do status ← Lifecycle.stop k worker; pure (status == 0)
