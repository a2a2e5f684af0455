-- ===== src/Server/Calls.antt =====
-- The methods of the servers and the client that hand a call on to their `SocketManager`:
-- socket_manager/tcp_server.cpp, udp_server.cpp and tcp_client.cpp.
use light_server.Base.{ℕ, Bool, List}
use light_server.Common.{Sockaddr}
use light_server.Machine.{Kernel, M}
use light_server.SocketManager.Objects
use light_server.SocketManager.Traffic
use light_server.SocketManager.Connect
use light_server.Server.TcpServer.{TcpServer, Listener}
use light_server.Server.TcpClient
use light_server.Server.UdpServer

-- `TcpServer`
module _ (k : Kernel) {U : Type 0} where
  unfoldable pub tcp_server_disconnect : ℕ → M (TcpServer U) ℕ
  tcp_server_disconnect sock = Objects.disconnect k sock

  unfoldable pub tcp_server_send : ℕ → List ℕ → ℕ → M (TcpServer U) ℕ
  tcp_server_send sock buf nbytes = Traffic.send k sock buf nbytes

-- `UdpServer`
module _ (k : Kernel) {U : Type 0} where
  unfoldable pub udp_server_send : ℕ → Sockaddr → List ℕ → ℕ → M (UdpServer.UdpServer U) ℕ
  udp_server_send sock to buf nbytes = Traffic.udp_send k sock to buf nbytes

  unfoldable pub remove_socket : ℕ → M (UdpServer.UdpServer U) ℕ
  remove_socket sock = Objects.close_socket k sock

  unfoldable pub udp_server_set_receive_packets_limit : ℕ → ℕ → M (UdpServer.UdpServer U) (Unit {0})
  udp_server_set_receive_packets_limit sock num_of_packets =
      Traffic.set_receive_packets_limit k sock num_of_packets

-- `TcpClient`
module _ (k : Kernel) {U : Type 0} (listener : Listener (TcpClient.TcpClient U)) where
  unfoldable pub client_connect_to_remote : Sockaddr → M (TcpClient.TcpClient U) ℕ
  client_connect_to_remote addr = Connect.connect_to_remote k (TcpClient.handler k listener) addr

  unfoldable pub client_asynch_connect_to : Sockaddr → M (TcpClient.TcpClient U) ℕ
  client_asynch_connect_to addr = Connect.asynch_connect_to k (TcpClient.handler k listener) addr

module _ (k : Kernel) {U : Type 0} where
  unfoldable pub client_disconnect : ℕ → M (TcpClient.TcpClient U) ℕ
  client_disconnect sock = Objects.disconnect k sock

  unfoldable pub client_send : ℕ → List ℕ → ℕ → M (TcpClient.TcpClient U) ℕ
  client_send sock buf nbytes = Traffic.send k sock buf nbytes

  unfoldable pub client_disconnect_silence_connections : ℕ → M (TcpClient.TcpClient U) Bool
  client_disconnect_silence_connections period = Traffic.disconnect_silence_connections k period

  unfoldable pub client_set_receive_bytes_limit : ℕ → ℕ → M (TcpClient.TcpClient U) (Unit {0})
  client_set_receive_bytes_limit sock nbytes = Traffic.set_receive_bytes_limit_of k sock nbytes
