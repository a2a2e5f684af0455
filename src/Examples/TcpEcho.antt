-- ===== src/Examples/TcpEcho.antt =====
-- The example servers over TCP: `TcpServerTester2`, which sends back what it reads, on `TcpServerBase`,
-- and `TcpServerTester`. examples/tcp_server_base.cpp, tcp_server_tester2.cpp, tcp_server_tester.cpp.
-- Of what they print, only the buffer that is read as a C string is here.
use light_server.Base.{ℕ, Bool, List}
use light_server.DmPacket.{DmPacket, empty_packet}
use light_server.Machine.{Kernel, M, ◌>>◌, pure, put_app}
use light_server.SocketManager.WellFormed.{Safe-bind}
use light_server.SocketManager.WellFormed.Rules.{Safe-Keeps, Safe-pure}
use light_server.SocketManager.WellFormed.Calls.{send-Safe}
use light_server.Examples.Text.{print_string, print_string-Safe}
use light_server.Server.Base.{set_heartbeat_interval, set_keep_alive_time}
use light_server.Server.TcpServer.{TcpServer, Listener, make_server, handler}
use light_server.Server.TcpServer
use light_server.Server.Calls.{tcp_server_send}
use light_server.Server.WellFormed.{ListenerKeeps}

-- TCP_SERVER_TESTER_LISTEN_PORT
abbrev pub tcp_port : ℕ
tcp_port = 31098

-- A listener that only prints: what it reads, as a C string.
abbrev pub printing : {S : Type 0} → Listener S
printing = record {
  on_connect = λ sock. pure tt;
  on_disconnect = λ sock. pure tt;
  do_read = λ sock buf nbytes. print_string buf;
}

module _ (k : Kernel) {U : Type 0} where
  -- Both servers start with a heartbeat of 20 seconds and a keep-alive time of 60, on every address.
  unfoldable pub start_tester :
      Listener (TcpServer U) → M (TcpServer U) (Unit {0}) → M (TcpServer U) Bool
  start_tester listener worker = do
    put_app (λ a. record a { base = (set_heartbeat_interval a.base 20).0 })
    put_app (λ a. record a { base = (set_keep_alive_time a.base 60).0 })
    TcpServer.start k listener worker 0 tcp_port

  unfoldable pub stop_tester :
      Listener (TcpServer U) → M (TcpServer U) (Unit {0}) → M (TcpServer U) Bool
  stop_tester listener worker = TcpServer.stop_server k listener worker

  -- `SendMsg` of `TcpServerBase`
  unfoldable pub send_msg : ℕ → List ℕ → ℕ → M (TcpServer U) ℕ
  send_msg sock buf nbytes = tcp_server_send k sock buf nbytes

  -- `SendDmMsg` of `TcpServerTester`
  unfoldable pub send_dm_msg : ℕ → List ℕ → ℕ → M (TcpServer U) ℕ
  send_dm_msg sock buf nbytes = tcp_server_send k sock buf nbytes

  -- The listener of `TcpServerTester2`
  abbrev pub echo : Listener (TcpServer U)
  echo = record (printing {S = TcpServer U}) {
    do_read = λ sock buf nbytes. (do print_string buf; send_msg sock buf nbytes; pure tt);
  }

  pub echo-ListenerKeeps : ListenerKeeps echo
  unfolding send_msg tcp_server_send
  echo-ListenerKeeps = record {
    on_connect = λ sock. Safe-pure tt;
    on_disconnect = λ sock. Safe-pure tt;
    do_read = λ sock buf n. Safe-Keeps (
        Safe-bind (print_string buf) _ (print_string-Safe buf)
          λ done. Safe-bind _ _ (send-Safe k sock buf n) λ _. Safe-pure tt);
  }

-- The constructors: `TcpServerBase` makes a server, and `TcpServerTester` a packet besides, over the
-- memory of its header.
unfoldable pub make_tester2 : TcpServer (Unit {0})
unfolding make_server
make_tester2 = make_server tt

unfoldable pub make_tester : List ℕ → TcpServer DmPacket
unfolding make_server empty_packet
make_tester memory = make_server (empty_packet memory)
