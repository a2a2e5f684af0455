-- ===== src/Tests/Receiving.antt =====
-- The theorem on receiving, with a kernel that has two bytes to read.
use light_server.Base.{◌≡◌, refl, inl, inr, Bool, true, false, List, [], ◌∷◌, if◌then◌else◌, arith}
use light_server.Common.{minus_one}
use light_server.Machine.{object, Call, Answer, Kernel, State, ok}
use light_server.Server.TcpServer.{handle_receive}
use light_server.Server.Receiving.{Collector, collecting, Collected, handle_receive-Collected}
use light_server.Tests.{reply, blank, running, running_manager, connection}

abbrev has_read : List Call → Bool
has_read [] = false
has_read (Call.read sock size ∷ t) = true
has_read (c ∷ t) = has_read t

-- The first read gives two bytes, and the others would block.
abbrev reading_answer : List Call → Answer
reading_answer [] = reply 0 0
reading_answer (Call.read sock size ∷ t) = if has_read t then reply minus_one 0 else reply 2 0
reading_answer (c ∷ t) = reply 0 0

abbrev reading : Kernel
reading = record { answer = reading_answer; memory = λ a. blank; rounds = 5 }

abbrev collector : State Collector
collector = record {
  heap = running.heap;
  next = 2;
  mgr = running_manager;
  app = record {
    base = running.app.base;
    listen_socket = 6;
    max_connections_of_listen_socket = 100;
    user = [];
  };
  trace = [];
}

handle_receive-Collected_example :
    (b : Bool) × (t : State Collector) × (handle_receive reading collecting (object 1) 1 collector
      ≡ ok (b, t))
    × Collected reading 7 collector t
handle_receive-Collected_example =
    handle_receive-Collected reading collector 1 connection 2048 1 2 refl refl refl refl
      (omega arith) (inr (inr (refl, inr (inl refl))))
