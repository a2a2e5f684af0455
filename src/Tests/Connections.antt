-- ===== src/Tests/Connections.antt =====
-- The theorems on accepting, connecting and disconnecting, at concrete states.
use light_server.Base.{ℕ, ◌≡◌, refl, Bool, true, some, List, [], ◌∷◌, ◌==◌, if◌then◌else◌, arith}
use light_server.Common.{minus_one}
use light_server.Machine.{Call, Answer, Kernel, State, ok}
use light_server.SocketManager.FdMap
use light_server.SocketManager.Descriptors.{has_start}
use light_server.SocketManager.Membership.{Member}
use light_server.SocketManager.Traffic.{disconnect_silence_connections}
use light_server.SocketManager.Silence.{
  inactive, Commanded, disconnects, disconnect_silence_connections-Commanded,
}
use light_server.Server.TcpServer.{handle_accept, create_listen_socket}
use light_server.SocketManager.Releasing.{closes}
use light_server.Server.Listening.{create_listen_socket-closes}
use light_server.Server.Accept.{handle_accept-Member}
use light_server.Tests.{reply, answer_to, blank, kernel, running, connection, quiet, Tcp}

-- Setting flags and connecting fail.
abbrev unlucky_answer : Call → Answer
unlucky_answer (Call.fcntl_setfl sock flags) = reply minus_one 0
unlucky_answer (Call.connect sock to) = reply minus_one 0
unlucky_answer c = answer_to c

abbrev unlucky : Kernel
unlucky = record {
  answer = λ t. elim t [ [] ↦ reply 0 0 | c ∷ _ ↦ unlucky_answer c ];
  memory = λ a. blank;
  rounds = 100;
}

handle_accept-Member_example :
    (t : State Tcp) × (handle_accept kernel quiet 1 running ≡ ok (true, t))
    × Member t 8 2
    × ((j : ℕ)
        → FdMap.lookup j t.mgr.sock_object_map
          ≡ (if 8 == j then some 2 else FdMap.lookup j running.mgr.sock_object_map))
unfolding FdMap.lookup
handle_accept-Member_example =
    handle_accept-Member kernel running quiet 1 refl refl (λ e. absurd (omega arith)) refl refl refl

disconnect_silence_connections-Commanded_example :
    (s' : State Tcp) × (disconnect_silence_connections kernel 60 running ≡ ok (true, s'))
    × Commanded running s' (disconnects (inactive 50 60) (connection ∷ []))
unfolding has_start
disconnect_silence_connections-Commanded_example =
    disconnect_silence_connections-Commanded kernel 60 (connection ∷ []) running refl (refl, tt)
      (omega arith, tt) (omega arith) (omega arith)

create_listen_socket-closes_example :
    (b : Bool) × (log : List Call) × (create_listen_socket unlucky quiet 0 31098 running
      ≡ ok (b, record running { app = record (running.app) { listen_socket = 0 }; trace = log }))
    × (closes log ≡ (if b then closes [] else 0 ∷ closes []))
create_listen_socket-closes_example = create_listen_socket-closes unlucky quiet 0 31098 running
