-- ===== src/SocketManager/Sending.antt =====
-- What `Send` of socket_manager/socket_manager.cpp does with a message.
use light_server.Base.{
  ℕ, ◌≤◌, ◌<◌, ◌≡◌, true, some, List, [], ◌∷◌, ◌++◌, ◌==◌, if◌then◌else◌, length, arith,
}
use light_server.Common.{minus_one}
use light_server.MsgPacket.{max_size_of_packet}
use light_server.MsgPacket.Laws.{QueueHolds}
use light_server.SocketObject.{SocketObject, max_num_of_packets, push_msg}
use light_server.SocketObject.Queue.{Queued, push_msg-Queued}
use light_server.Machine.{Call, Command, Kernel, ok, State, update, load, store, sys}
use light_server.SocketManager.Descriptors.{has_start}
use light_server.SocketManager.Objects.{find_socket_object, trigger_cmd_event}
use light_server.SocketManager.Traffic.{send}
use light_server.SocketManager.Membership.{Member}

module _ {S : Type 0} (s : State S) (sock p : ℕ) where
  -- The state with another object at `p`, a command to send, and the thread woken.
  abbrev pub with_message : SocketObject → State S
  with_message o = record s {
    heap = update s.heap p (some o);
    mgr = record (s.mgr) { cmd_queue = s.mgr.cmd_queue ++ (Command.send sock ∷ []) };
    trace =
        if s.mgr.cmd_evt_fd == minus_one
        then s.trace
        else Call.eventfd_write s.mgr.cmd_evt_fd ∷ s.trace;
  }

module _ (k : Kernel) {S : Type 0} (s : State S) (sock p : ℕ) (m : Member s sock p) (buf : List ℕ)
    (n : ℕ) where
  send_runs :
      (o : SocketObject)
      → push_msg m.item buf n ≡ some (0, o)
      → has_start s.mgr ≡ true
      → send k sock buf n s ≡ ok (0, with_message s sock p o)
  unfolding send find_socket_object load store trigger_cmd_event sys has_start
  send_runs o pushed on = ground (arith, m.mapped, m.live, m.valid, pushed)

  -- `Send` to a member of a started manager, of 1 to 2 ^ 24 - 1 bytes and with less than 1000 packets
  -- waiting, returns 0. The object has one packet more, which holds the bytes, and is otherwise as it
  -- was; a command to send stands at the end of the queue, and the thread is woken if its descriptor
  -- is open.
  pub send-Queued :
      (bs : List ℕ)
      → has_start s.mgr ≡ true
      → length m.item.out_packets_queue < max_num_of_packets
      → QueueHolds m.item.out_packets_queue bs
      → 0 < n
      → n < max_size_of_packet
      → n ≤ length buf
      → (o : SocketObject) × (send k sock buf n s ≡ ok (0, with_message s sock p o))
        × Queued m.item o bs buf n
  send-Queued bs on room holds some_bytes small inside =
      let (o, pushed, queued) =
        push_msg-Queued m.item buf bs n room holds some_bytes small inside in
      (o, send_runs o pushed on, queued)
