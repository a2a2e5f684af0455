-- ===== src/Tests.antt =====
-- A small kernel, a few states, and the theorems at concrete inputs.
mod Packets
mod Printing
mod Connections
mod Traffic
mod Reachable
mod Receiving
mod Examples
use light_server.Base.{
  take, zero, suc, not, ◌&&◌, ℕ, ◌≡◌, ◌≤◌, refl, Bool, true, false, none, some, List, [], ◌∷◌, ◌==◌,
  if◌then◌else◌, arith,
}
use light_server.Common.{Sockaddr, invalid_fd, ewouldblock}
use light_server.MsgPacket.{MsgPacket, filled}
use light_server.MsgPacket.Laws.{Holds, QueueHolds}
use light_server.SocketObject.{SocketObject, set_receive_bytes_limit, push_msg}
use light_server.SocketObject.Queue.{Queued, push_msg-Queued}
use light_server.SocketObject.Limit.{packets_passed, packets_passed-min}
use light_server.SocketObject.ByteLimit.{
  ByteLimit, bytes_passed, first_bytes, bytes_passed-first_bytes, set_receive_bytes_limit-ByteLimit,
}
use light_server.Machine.{
  CtlOp, Pvoid, exit_evt, timer_evt, object, Call, Answer, Kernel, Manager, Command, Fault, ok,
  fault, State, update,
}
use light_server.SocketManager.FdMap
use light_server.SocketManager.Descriptors.{
  has_start, reset, timespec_to_millisecond, millisecond_to_timespec, timespec_roundtrip,
}
use light_server.SocketManager.Objects.{remove_socket_object, find_socket_object}
use light_server.SocketManager.Connect.{add_tcp_socket}
use light_server.SocketManager.Events.{
  execute, process_batch, process_event, process_command, process_timer,
}
use light_server.SocketManager.Lifecycle.{start, stop}
use light_server.SocketManager.Membership.{
  Member, Calm, add_tcp_socket-Member, remove_socket_object-Member,
}
use light_server.SocketManager.Batch.{popped, Worked, has_exit, process_command_limit}
use light_server.SocketManager.Releasing.{ClosedDown}
use light_server.SocketManager.StartStop.{Started, start-Started, stop-Stopped}
use light_server.Server.Output.{by_write, send_all}
use light_server.Server.Output.Flush.{Flushed, send_all-Flushed}
use light_server.Server.TcpServer.{TcpServer, Listener, handler}
use light_server.SocketManager.Traffic.{send_by}
use light_server.Server.Hazards.{stale_event, hollow_message}

abbrev pub addr : Sockaddr
addr = record { family = 2; port = 31098; ip = 0 }

abbrev pub reply : ℕ → ℕ → Answer
reply ret value = record {
  ret = ret;
  errno = ewouldblock;
  value = value;
  time = record { tv_sec = 50; tv_nsec = 0 };
  bytes = 104 ∷ 105 ∷ [];
  addr = addr;
  events = [];
}

-- Every write takes two bytes, every descriptor that is made is 5.
abbrev pub answer_to : Call → Answer
answer_to (Call.write sock bytes) = reply 2 0
answer_to Call.eventfd = reply 5 0
answer_to Call.epoll_create = reply 5 0
answer_to Call.pthread_create = reply 0 1
answer_to (Call.accept listener) = reply 8 0
answer_to _ = reply 0 0

abbrev pub blank : SocketObject
blank = record {
  socket_id = 0;
  remote_addr = addr;
  connect_state = false;
  f_valid = true;
  out_packets_queue = [];
  out_packet = none;
  f_receive_limit = false;
  max_rx_packets_per_second = 0;
  max_rx_bytes_per_second = 0;
  rx_packets_count = 0;
  rx_bytes_count = 0;
  last_rx_time_ms = 0;
  f_send_limit = false;
  max_tx_packets_per_second = 0;
  max_tx_bytes_per_second = 0;
  connect_time = 0;
  active_time = 0;
}

abbrev pub kernel : Kernel
kernel = record {
  answer = λ t. elim t [ [] ↦ reply 0 0 | c ∷ _ ↦ answer_to c ];
  memory = λ a. blank;
  rounds = 100;
}

abbrev pub fresh_manager : Manager
fresh_manager = record {
  sock_object_map = [];
  epoll_fd = invalid_fd;
  exit_evt_fd = invalid_fd;
  cmd_evt_fd = invalid_fd;
  timer_evt_fd = invalid_fd;
  max_events = 6;
  work_thread_id = 0;
  cmd_queue = [];
  io_handler = false;
}

-- Socket 7 is a member, at address 1, with three bytes to send; a command waits.
abbrev message : MsgPacket
message = filled 3 none (1 ∷ 2 ∷ 3 ∷ [])

abbrev pub connection : SocketObject
connection = record blank { socket_id = 7; out_packets_queue = message ∷ [] }

abbrev pub running_manager : Manager
running_manager = record fresh_manager {
  sock_object_map = (7, 1) ∷ [];
  epoll_fd = 3;
  exit_evt_fd = 4;
  cmd_evt_fd = 5;
  io_handler = true;
}

abbrev pub Tcp : Type 0
Tcp = TcpServer (Unit {0})

abbrev server : Tcp
server = record {
  base = record {
    rx_buffer = some (record { size_in_bytes = 2048; assigned = true });
    heartbeat_interval_in_seconds = 20;
    keep_alive_time_in_seconds = 60;
    timer_event_count = 0;
  };
  listen_socket = 6;
  max_connections_of_listen_socket = 100;
  user = tt;
}

abbrev pub fresh : State Tcp
fresh = record { heap = λ a. none; next = 1; mgr = fresh_manager; app = server; trace = [] }

abbrev pub running : State Tcp
running = record {
  heap = update (λ a. none) 1 (some connection);
  next = 2;
  mgr = running_manager;
  app = server;
  trace = [];
}

abbrev pub quiet : Listener Tcp
quiet = record {
  on_connect = λ sock s. ok (tt, s);
  on_disconnect = λ sock s. ok (tt, s);
  do_read = λ sock bytes n s. ok (tt, s);
}

quiet-Calm : (sock : ℕ) → Calm (quiet.on_disconnect sock)
quiet-Calm sock s = (s, refl, refl, refl, refl)

abbrev pub message_bytes : List ℕ
message_bytes = 1 ∷ 2 ∷ 3 ∷ []

message-Holds : Holds message message_bytes
message-Holds = record {
  bytes = message_bytes;
  start = 0;
  at_payload = refl;
  at_begin = refl;
  at_finish = refl;
  within = omega arith;
  small = omega arith;
  rest = refl;
}

pub connection-QueueHolds : QueueHolds connection.out_packets_queue message_bytes
connection-QueueHolds = (message_bytes, [], message-Holds, refl, refl)

connection-Member : Member running 7 1
unfolding FdMap.lookup
connection-Member = record {
  mapped = refl;
  item = connection;
  live = refl;
  own = refl;
  valid = refl;
}

send_all-Flushed_example : Flushed kernel by_write running 1 connection message_bytes
send_all-Flushed_example =
    send_all-Flushed kernel by_write running 1 connection message_bytes refl refl
      connection-QueueHolds

start-Started_example : Started (start kernel (λ s. ok (tt, s)) 1000 fresh)
unfolding reset
start-Started_example = start-Started kernel (λ s. ok (tt, s)) 1000 fresh refl refl refl

stop-Stopped_example : ClosedDown kernel running (stop kernel (λ s. ok (tt, s)) running)
unfolding has_start
stop-Stopped_example =
    stop-Stopped kernel (λ s. ok (tt, s)) running refl refl refl (connection, refl, tt)

add_tcp_socket-Member_example :
    (s' : State Tcp) × (add_tcp_socket kernel 8 addr running ≡ ok (0, s'))
    × Member s' 8 2
    × ((j : ℕ)
        → FdMap.lookup j s'.mgr.sock_object_map
          ≡ (if 8 == j then some 2 else FdMap.lookup j running.mgr.sock_object_map))
unfolding FdMap.lookup
add_tcp_socket-Member_example =
    add_tcp_socket-Member kernel running 8 addr (λ e. absurd (omega arith)) refl

remove_socket_object-Member_example :
    (s' : State Tcp) × (remove_socket_object kernel (handler kernel quiet) (some 1) running
      ≡ ok (true, s'))
    × (s'.heap 1 ≡ none)
    × (s'.mgr.io_handler ≡ true)
    × ((j : ℕ)
        → FdMap.lookup j s'.mgr.sock_object_map
          ≡ (if 7 == j then none else FdMap.lookup j running.mgr.sock_object_map))
    × ((log : List Call) × (s'.trace
          ≡ Call.close 7 ∷ Call.epoll_ctl CtlOp.del 7 0 Pvoid.null ∷ log))
remove_socket_object-Member_example =
    remove_socket_object-Member kernel (handler kernel quiet) running 7 1 connection-Member refl
      (quiet-Calm 7)

push_msg-Queued_example :
    (o' : SocketObject) × (push_msg connection (4 ∷ 5 ∷ []) 2 ≡ some (0, o'))
    × Queued connection o' message_bytes (4 ∷ 5 ∷ []) 2
push_msg-Queued_example =
    push_msg-Queued connection (4 ∷ 5 ∷ []) message_bytes 2 (omega arith) connection-QueueHolds
      (omega arith) (omega arith) (omega arith)

abbrev limited : SocketObject
limited = record blank { f_receive_limit = true; max_rx_packets_per_second = 2 }

packets_passed-min_example : packets_passed limited (5000 ∷ 5100 ∷ 5200 ∷ []) ≡ 2
packets_passed-min_example =
    packets_passed-min 2 limited 5000 (5100 ∷ 5200 ∷ [])
      (record { positive = omega arith; packets = refl; bytes = refl }) (omega arith) (omega arith)
      (omega arith, omega arith, omega arith, (omega arith, omega arith, omega arith, tt))
      (omega arith)

-- Three reads of 4 bytes in a second, of which a limit of 10 bytes lets two through.
abbrev reads : List (ℕ × ℕ)
reads = (5000, 4) ∷ (5100, 4) ∷ (5200, 4) ∷ []

bytes_passed-first_bytes_example :
    (bytes_passed (set_receive_bytes_limit blank 10) reads ≡ first_bytes 10 reads)
    × (bytes_passed (set_receive_bytes_limit blank 10) reads ≤ 10)
unfolding set_receive_bytes_limit
bytes_passed-first_bytes_example =
    bytes_passed-first_bytes 10 (set_receive_bytes_limit blank 10) 5000 4
      ((5100, 4) ∷ (5200, 4) ∷ []) (set_receive_bytes_limit-ByteLimit blank 10 (omega arith))
      (omega arith) (omega arith)
      (omega arith, omega arith, omega arith, (omega arith, omega arith, omega arith, tt))
      (omega arith)

timespec_roundtrip_example : timespec_to_millisecond (millisecond_to_timespec 20500) ≡ 20500
timespec_roundtrip_example = timespec_roundtrip 20500 (omega arith)

stale_event_example :
    (s' : State Tcp) × (remove_socket_object kernel (handler kernel quiet) (some 1) running
      ≡ ok (true, s'))
    × (process_event kernel (handler kernel quiet) true (object 1) 1 s'
        ≡ fault Fault.undefined_behaviour)
    × (send_by kernel 7 (λ o. push_msg o (65 ∷ []) 1) (some 1) s' ≡ fault Fault.undefined_behaviour)
stale_event_example =
    stale_event kernel quiet true 7 1 1 1 (65 ∷ []) running connection-Member refl (quiet-Calm 7)
      refl

hollow_message_example :
    (o' : SocketObject) × (push_msg blank [] 0 ≡ some (0, o'))
    × (send_all kernel by_write
          (object 1)
          (record running { heap = update running.heap 1 (some o') })
        ≡ fault Fault.undefined_behaviour)
hollow_message_example = hollow_message kernel by_write running 1 blank [] 0 refl refl refl

-- Twenty-one commands that no socket is known for.
abbrev many : ℕ → List Command
many zero = []
many (suc n) = Command.disconnect n ∷ many n

abbrev busy : State Tcp
busy = record fresh { mgr = record fresh_manager { cmd_queue = many 21 } }

execute_unknown :
    (c : Command) (s : State Tcp)
    → s.mgr.sock_object_map ≡ []
    → (r : Bool × State Tcp) × (execute kernel (handler kernel quiet) c s ≡ ok r)
      × (r.1.mgr.cmd_queue ≡ s.mgr.cmd_queue)
      × ((popped kernel (handler kernel quiet) r.1).mgr.sock_object_map ≡ [])
unfolding execute find_socket_object remove_socket_object FdMap.lookup
execute_unknown (Command.send n) s e = ((false, s), ground arith, refl, ground arith)
execute_unknown (Command.disconnect n) s e = ((false, s), ground arith, refl, ground arith)
execute_unknown (Command.shutdown_cmd n) s e = ((false, s), ground arith, refl, ground arith)
execute_unknown (Command.other n) s e = ((false, s), ground arith, refl, ground arith)

process_command_limit_example :
    (s' : State Tcp) × (process_command kernel (handler kernel quiet) 1 busy ≡ ok (true, s'))
    × Worked kernel (handler kernel quiet) (take 20 busy.mgr.cmd_queue) busy s'
    × (s'.mgr.cmd_queue ≡ Command.disconnect 0 ∷ [])
process_command_limit_example =
    process_command_limit kernel (handler kernel quiet) (λ s. s.mgr.sock_object_map ≡ [])
      execute_unknown 1 busy refl refl
