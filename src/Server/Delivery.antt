-- ===== src/Server/Delivery.antt =====
-- What becomes of a message that a program gives to `Send` of socket_manager/tcp_server.cpp: the next
-- command event of the loop writes it.
pub mod Draining
use light_server.Base.{
  ℕ, zero, suc, ◌≤◌, ◌<◌, ◌≡◌, refl, sym, subst, ap, ◌∙◌, Bool, true, false, Option, none, some,
  List, [], ◌∷◌, ◌++◌, ◌==◌, length, take, arith, Option-cases, Bool-cases, inl, inr, append-nil,
  ==_iff, if◌then◌else◌,
}
use light_server.Common.{epollin, epollout, has_flag, is_positive, ewouldblock, minus_one}
use light_server.MsgPacket.{MsgPacket, size, unsent, reduce, max_size_of_packet}
use light_server.MsgPacket.Laws.{QueueHolds}
use light_server.SocketObject.{SocketObject, max_num_of_packets}
use light_server.SocketObject.Queue.{Queued}
use light_server.Machine.{
  Answer, pure, Pvoid, object, cmd_evt, Call, Command, Kernel, Result, ok, fault, State, update, M,
  ◌>>=◌, defined, sys, load, store,
}
use light_server.SocketManager.FdMap
use light_server.SocketManager.Descriptors.{has_start}
use light_server.SocketManager.Objects.{find_socket_object}
use light_server.SocketManager.Membership.{Member}
use light_server.SocketManager.Sending.{with_message, send-Queued}
use light_server.SocketManager.Events.{
  execute, run_commands, process_command, process_event, process_io, do_process_io,
}
use light_server.Server.Output.{SendEnd, drained, send_packet, send_queue, send_all, by_write}
use light_server.Server.Output.Wire.{wire}
use light_server.Server.Output.Flush.{QueueSent, send_queue-QueueSent}
use light_server.Server.TcpServer.{TcpServer, Listener, handler, handle_send, on_before_process_io}
use light_server.Server.Calls.{tcp_server_send}
use light_server.Server.Delivery.Draining.{Takes, Written, all_written}

module _ (k : Kernel) {U : Type 0} (l : Listener (TcpServer U)) (takes : Takes k)
    (s : State (TcpServer U)) (sock p : ℕ) (o : SocketObject) (bs : List ℕ)
    (mapped : FdMap.lookup sock s.mgr.sock_object_map ≡ some p) (live : s.heap p ≡ some o)
    (own : o.socket_id ≡ sock) (valid : o.f_valid ≡ true) (handled : s.mgr.io_handler ≡ true)
    (waiting : s.mgr.cmd_queue ≡ Command.send sock ∷ [])
    (holds : QueueHolds o.out_packets_queue bs) where
  abbrev written : Written k takes o.socket_id s p o bs
  written = all_written k takes s p o bs live valid holds

  -- The state behind the command event.
  abbrev flushed : State (TcpServer U)
  flushed = record s {
    heap = update s.heap p (some (record o { out_packets_queue = [] }));
    mgr = record (s.mgr) { cmd_queue = [] };
    trace = written.log;
  }

  command_runs :
      execute k (handler k l) (Command.send sock) s ≡ ok (false, record flushed { mgr = s.mgr })
  unfolding execute find_socket_object process_io do_process_io handle_send on_before_process_io
  command_runs = ground (arith, written.returns)

  event_runs : process_event k (handler k l) true cmd_evt epollin s ≡ ok (true, flushed)
  unfolding process_event process_command run_commands
  event_runs = ground (arith, command_runs)

  -- What the event leaves.
  command_event-Sent :
      (u : State (TcpServer U)) × (process_event k (handler k l) true cmd_evt epollin s
        ≡ ok (true, u))
      × (wire k sock u.trace ≡ wire k sock s.trace ++ bs)
      × (u.mgr.cmd_queue ≡ [])
      × (u.heap p ≡ some (record o { out_packets_queue = [] }))
  command_event-Sent = (
    flushed,
    event_runs,
    subst (λ j. wire k j written.log ≡ wire k j s.trace ++ bs) own written.all_gone,
    refl,
    ground (arith, ==_iff p p),
  )

-- Waking the loop writes nothing to a socket.
wire-wake :
    (k : Kernel) (sock fd : ℕ) (closed : Bool) (log : List Call)
    → wire k sock (if closed then log else Call.eventfd_write fd ∷ log) ≡ wire k sock log
unfolding wire
wire-wake k sock fd true log = refl
wire-wake k sock fd false log = append-nil (wire k sock log)

module _ (k : Kernel) {U : Type 0} (l : Listener (TcpServer U)) (takes : Takes k)
    (s : State (TcpServer U)) (sock p : ℕ) (m : Member s sock p) (buf bs : List ℕ) (n : ℕ) where
  -- With a kernel that takes at least a byte at each write, a message is delivered: `Send` of a started
  -- server, to a member, with no command waiting and less than 1000 packets in the queue of the
  -- member, of 1 to 2 ^ 24 - 1 bytes, returns 0, and the command event behind it writes the bytes that
  -- waited before and then those of the message, all of them and nothing else. No command and no
  -- packet is left.
  pub send-Delivered :
      has_start s.mgr ≡ true
      → s.mgr.io_handler ≡ true
      → s.mgr.cmd_queue ≡ []
      → length m.item.out_packets_queue < max_num_of_packets
      → QueueHolds m.item.out_packets_queue bs
      → 0 < n
      → n < max_size_of_packet
      → n ≤ length buf
      → (t : State (TcpServer U)) × (u : State (TcpServer U)) × (o : SocketObject)
        × (tcp_server_send k sock buf n s ≡ ok (0, t))
        × (process_event k (handler k l) true cmd_evt epollin t ≡ ok (true, u))
        × (wire k sock u.trace ≡ wire k sock s.trace ++ (bs ++ take n buf))
        × (u.mgr.cmd_queue ≡ [])
        × (u.heap p ≡ some o)
        × (o.out_packets_queue ≡ [])
  unfolding tcp_server_send
  send-Delivered on handled idle room holds some_bytes small inside =
      let (o, runs, queued) =
        send-Queued k s sock p m buf n bs on room holds some_bytes small inside in
      let (u, event, sent, no_command, emptied) =
        command_event-Sent k l takes (with_message s sock p o) sock p o (bs ++ take n buf) m.mapped
          (ground (arith, ==_iff p p))
          (ap (λ (x : SocketObject). x.socket_id) queued.appended ∙ m.own)
          (ap (λ (x : SocketObject). x.f_valid) queued.appended ∙ m.valid) handled
          (ap (λ q. q ++ (Command.send sock ∷ [])) idle) queued.holds in
      (
        with_message s sock p o,
        u,
        record o { out_packets_queue = [] },
        runs,
        event,
        sent
            ∙ ap (λ w. w ++ (bs ++ take n buf))
                (wire-wake k sock s.mgr.cmd_evt_fd (s.mgr.cmd_evt_fd == minus_one) s.trace),
        no_command,
        emptied,
        refl,
      )
