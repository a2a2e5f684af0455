-- ===== src/Server/UdpServer.antt =====
-- `UdpServer` of socket_manager/udp_server.h and udp_server.cpp.
use light_server.Base.{ℕ, ◌*◌, ◌%◌, Bool, true, false, not, List, take, ◌==◌, if◌then◌else◌}
use light_server.Common.{Sockaddr, int_mod}
use light_server.SocketObject.{count_received_packet, is_receive_overflow}
use light_server.Machine.{
  Pvoid, Call, Answer, Kernel, M, ◌>>=◌, ◌>>◌, pure, defined, get_app, load, store,
}
use light_server.SocketManager.Descriptors.{get_time, get_time_in_millisecond}
use light_server.SocketManager.Objects.{IoHandler, with_valid}
use light_server.SocketManager.Connect.{add_udp_socket}
use light_server.SocketManager.Traffic
use light_server.SocketManager.Lifecycle
use light_server.Server.Base.{ServerBase, make_base, rx_size}
use light_server.Server.Input.{Input, receive_all}
use light_server.Server.Output.{by_sendto, send_all}
use light_server.Server.TcpServer.{touch}

pub record UdpServer (U : Type 0) : Type 0 where
  pub base : ServerBase
  pub user : U

unfoldable pub make_server : {U : Type 0} → U → UdpServer U
make_server u = record { base = make_base 2048; user = u }

-- `UdpServerListener`, with the `DoRead` that takes the sender's address.
pub record Listener (S : Type 0) : Type 0 where
  pub on_connect : ℕ → M S (Unit {0})
  pub on_disconnect : ℕ → M S (Unit {0})
  pub do_read : ℕ → List ℕ → ℕ → Sockaddr → M S (Unit {0})

module _ (k : Kernel) {U : Type 0} (listener : Listener (UdpServer U)) where
  abbrev Udp : Type 0 → Type 0
  Udp A = M (UdpServer U) A

  -- Counts one packet, if the object has a receive limit.
  abbrev pub packet_within_limit : ℕ → Answer → Udp Bool
  packet_within_limit p r = do
    o ← load p
    if o.f_receive_limit
        then (do
          now ← get_time_in_millisecond k
          let o' = count_received_packet o 1 now
          store p o'
          pure (not (is_receive_overflow o')))
        else pure true

  abbrev udp_input : ℕ → ℕ → ℕ → Input (UdpServer U)
  udp_input p sock size = record {
    receive = Call.recvfrom sock size;
    within_limit = packet_within_limit p;
    deliver = λ r. listener.do_read sock (take r.ret r.bytes) r.ret r.addr;
  }

  unfoldable pub handle_receive : Pvoid → ℕ → Udp Bool
  handle_receive pv flag = with_valid pv false λ p o. do
    app ← get_app
    size ← defined (rx_size app.base)
    now ← get_time k
    touch p now
    receive_all k (udp_input p o.socket_id size) o.socket_id flag

  unfoldable pub handle_send : Pvoid → ℕ → Udp Bool
  handle_send pv flag = send_all k by_sendto pv

  abbrev pub handler : IoHandler (UdpServer U)
  handler = record {
    on_timer = λ expirations. pure tt;
    on_before_process_io = λ pv events. pure true;
    on_after_process_io = λ pv events rs. pure tt;
    on_ready_read = handle_receive;
    on_ready_write = handle_send;
    on_connect = listener.on_connect;
    on_disconnect = listener.on_disconnect;
  }

  -- `Start`, of a listener that is not null: the result of the manager's `Start` is ignored.
  unfoldable pub start : Udp (Unit {0}) → Udp Bool
  start worker = do
    app ← get_app
    Lifecycle.start k worker (app.base.heartbeat_interval_in_seconds * 1000 % int_mod)
    pure true

  unfoldable pub stop_server : Udp (Unit {0}) → Udp Bool
  stop_server worker = do
    Traffic.close_all_socket k
    status ← Lifecycle.stop k worker
    pure (status == 0)

  unfoldable pub add_listen_socket : ℕ → ℕ → Udp ℕ
  add_listen_socket ipv4 port =
      add_udp_socket k handler (record { family = 2; port = port; ip = ipv4 })
