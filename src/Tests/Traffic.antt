-- ===== src/Tests/Traffic.antt =====
-- The theorems on sending and on the client's timer, at concrete states.
use light_server.Base.{◌≤◌, ◌<◌, ◌≡◌, refl, true, some, [], ◌∷◌, arith}
use light_server.SocketObject.{SocketObject}
use light_server.Machine.{State, ok, cmd_evt}
use light_server.Common.{epollin}
use light_server.SocketManager.Events.{process_event}
use light_server.Server.Output.Wire.{wire}
use light_server.Server.Calls.{tcp_server_send}
use light_server.Server.Delivery.{send-Delivered}
use light_server.SocketManager.Descriptors.{has_start}
use light_server.SocketManager.Silence.{inactive, Commanded, disconnects}
use light_server.SocketManager.FdMap
use light_server.SocketManager.Membership.{Member}
use light_server.Server.TcpServer.{Listener, handler}
use light_server.Server.TcpClient.{TcpClient, on_timer}
use light_server.Server.Heartbeat.{with_count, next_count, on_timer-Commanded}
use light_server.Tests.{
  kernel, quiet, Tcp, running, running_manager, connection, connection-QueueHolds, message_bytes,
}

abbrev Client : Type 0
Client = TcpClient (Unit {0})

-- Two of the three heartbeats of the keep-alive time have passed.
abbrev waiting_client : State Client
waiting_client = record {
  heap = running.heap;
  next = 2;
  mgr = running_manager;
  app = record {
    base = record {
      rx_buffer = some (record { size_in_bytes = 1024; assigned = true });
      heartbeat_interval_in_seconds = 20;
      keep_alive_time_in_seconds = 60;
      timer_event_count = 2;
    };
    user = tt;
  };
  trace = [];
}

abbrev silent_listener : Listener Client
silent_listener = record {
  on_connect = λ sock s. ok (tt, s);
  on_disconnect = λ sock s. ok (tt, s);
  do_read = λ sock bytes n s. ok (tt, s);
}

on_timer-Commanded_example :
    (next_count 1 waiting_client < 3
      → on_timer kernel silent_listener 1 waiting_client ≡ ok (tt, with_count 3 waiting_client))
    × (3 ≤ next_count 1 waiting_client
        → (s' : State Client) × (on_timer kernel silent_listener 1 waiting_client ≡ ok (tt, s'))
          × Commanded
              (with_count 0 waiting_client)
              s'
              (disconnects (inactive 50 60) (connection ∷ [])))
unfolding has_start
on_timer-Commanded_example =
    on_timer-Commanded kernel silent_listener 1 waiting_client (connection ∷ []) refl (refl, tt)
      (omega arith) (omega arith) (omega arith) (omega arith, tt) (omega arith)

running-lookup : FdMap.lookup 7 running.mgr.sock_object_map ≡ some 1
unfolding FdMap.lookup
running-lookup = refl

abbrev member : Member running 7 1
member = record {
  mapped = running-lookup;
  item = connection;
  live = refl;
  own = refl;
  valid = refl;
}

send-Delivered_example :
    (t : State Tcp) × (u : State Tcp) × (o : SocketObject) × (tcp_server_send kernel 7
        (9 ∷ 10 ∷ [])
        2
        running
      ≡ ok (0, t))
    × (process_event kernel (handler kernel quiet) true cmd_evt epollin t ≡ ok (true, u))
    × (wire kernel 7 u.trace ≡ 1 ∷ 2 ∷ 3 ∷ 9 ∷ 10 ∷ [])
    × (u.mgr.cmd_queue ≡ [])
    × (u.heap 1 ≡ some o)
    × (o.out_packets_queue ≡ [])
unfolding wire has_start
send-Delivered_example =
    send-Delivered kernel quiet (λ sock bytes log. refl) running 7 1 member (9 ∷ 10 ∷ [])
      message_bytes 2 refl refl refl (omega arith) connection-QueueHolds (omega arith) (omega arith)
      (omega arith)
