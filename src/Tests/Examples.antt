-- ===== src/Tests/Examples.antt =====
-- The theorems on the example programs and on the helpers, at concrete inputs.
use light_server.Base.{ℕ, ◌≡◌, refl, true, some, [], ◌∷◌, arith}
use light_server.Machine.{State, ok}
use light_server.SocketManager.WellFormed.{WellFormed}
use light_server.SocketManager.Reachable.{send_datagram}
use light_server.SocketManager.View.{apply}
use light_server.SocketManager.View.Rules.{table}
use light_server.Server.UdpServer.{UdpServer}
use light_server.Examples.UdpEcho.{UdpServerTester, do_read, do_read-table}
use light_server.Examples.Console.{get_line, too_long, newline, Console, console_thread}
use light_server.Examples.Console.Lines.{get_line-Plain, console_thread-ends}
use light_server.SocketManager.FdMap
use light_server.Tests.{connection, kernel, running, running_manager, addr}

abbrev udp_tester : UdpServer UdpServerTester
udp_tester = record {
  base = running.app.base;
  user = record { listen_sock_a = 7; listen_sock_b = 9 };
}

-- The socket 7 is a member, at address 1.
abbrev udp_running : State (UdpServer UdpServerTester)
udp_running = record {
  heap = running.heap;
  next = 2;
  mgr = running_manager;
  app = udp_tester;
  trace = [];
}

udp_running-WellFormed : WellFormed udp_running
unfolding FdMap.lookup
udp_running-WellFormed = record {
  backed = ((connection, refl, refl), refl, tt);
  unused = λ p above. ground arith;
  enrolled = λ fd p e. ground arith;
}

do_read-table_example :
    (t : State (UdpServer UdpServerTester)) × (do_read kernel 7 (1 ∷ 0 ∷ []) 2 addr udp_running
      ≡ ok (tt, t))
    × WellFormed t
    × ((j : ℕ) → table t j ≡ apply (send_datagram 7 addr (1 ∷ 0 ∷ []) 2) (table udp_running) j)
do_read-table_example =
    do_read-table kernel udp_running udp_running-WellFormed 7 (1 ∷ 0 ∷ []) 2 addr (omega arith) refl

get_line-Plain_example :
    get_line 4 (b'a' ∷ b'b' ∷ b'c' ∷ b'd' ∷ newline ∷ b'e' ∷ [])
    ≡ some ((too_long, b'a' ∷ b'b' ∷ b'c' ∷ []), b'e' ∷ [])
get_line-Plain_example =
    get_line-Plain 4 (b'a' ∷ b'b' ∷ b'c' ∷ b'd' ∷ []) (b'e' ∷ []) (omega arith)
      (refl, refl, (refl, refl, (refl, refl, (refl, refl, tt))))

abbrev console : Console
console = record {
  exit_flag = 0;
  thread_run = 1;
  input = b'h' ∷ b'i' ∷ newline ∷ b':' ∷ b'q' ∷ newline ∷ b'x' ∷ [];
}

console_thread-ends_example :
    console_thread 2 console ≡ some (true, record console { exit_flag = 1; input = b'x' ∷ [] })
console_thread-ends_example =
    console_thread-ends ((b'h' ∷ b'i' ∷ []) ∷ []) console (b'x' ∷ []) refl
      ((refl, refl, (refl, refl, tt)), refl, tt) refl
