-- ===== src/Server/Hazards.antt =====
-- Where the servers meet undefined behaviour, and what a caller is told of an event.
use light_server.Base.{ℕ, ◌%◌, ◌≡◌, Bool, true, false, some, none, List, [], ◌∷◌, arith}
use light_server.Common.{int_mod, epollin, has_flag}
use light_server.MsgPacket.{fits, hollow, size}
use light_server.SocketObject.{SocketObject, push_msg, enqueue}
use light_server.SocketObject.Queue.{push_msg-hollow}
use light_server.Machine.{object, Kernel, Fault, ok, fault, State, update, load}
use light_server.SocketManager.Objects.{remove_socket_object}
use light_server.SocketManager.Traffic.{send_by}
use light_server.SocketManager.Membership.{Member, Calm, remove_socket_object-Member}
use light_server.SocketManager.Events.{do_process_io, process_io, process_event}
use light_server.Server.Output.{Offer, send_queue, send_all}
use light_server.Server.TcpServer.{
  TcpServer, Listener, handler, handle_receive, on_before_process_io,
}

module _ (k : Kernel) {U : Type 0} (listener : Listener (TcpServer U)) where
  -- A readable event for an object that was deleted: the server reads through the dangling pointer.
  deleted_event :
      (run : Bool) (p events : ℕ) (s : State (TcpServer U))
      → s.heap p ≡ none
      → s.mgr.io_handler ≡ true
      → has_flag events epollin ≡ true
      → process_event k (handler k listener) run (object p) events s
        ≡ fault Fault.undefined_behaviour
  unfolding process_event process_io do_process_io on_before_process_io handle_receive load
  deleted_event run p events s gone on readable = ground arith

  -- What is left of `Send` where the object is gone since it was found.
  deleted_send :
      (sock p n : ℕ) (buf : List ℕ) (s : State (TcpServer U))
      → s.heap p ≡ none
      → send_by k sock (λ o. push_msg o buf n) (some p) s ≡ fault Fault.undefined_behaviour
  unfolding load
  deleted_send sock p n buf s gone = ground arith

  -- A member is removed, as a disconnect command does. A readable event of its object that stands later
  -- in the same batch is then undefined behaviour, and so is what is left of a `Send` of another thread
  -- that has found the object before.
  pub stale_event :
      (run : Bool) (sock p events n : ℕ) (buf : List ℕ) (s : State (TcpServer U))
      → Member s sock p
      → s.mgr.io_handler ≡ true
      → Calm (listener.on_disconnect sock)
      → has_flag events epollin ≡ true
      → (s' : State (TcpServer U)) × (remove_socket_object k (handler k listener) (some p) s
          ≡ ok (true, s'))
        × (process_event k (handler k listener) run (object p) events s'
            ≡ fault Fault.undefined_behaviour)
        × (send_by k sock (λ o. push_msg o buf n) (some p) s' ≡ fault Fault.undefined_behaviour)
  stale_event run sock p events n buf s m on calm readable =
      let (s', runs, gone, still_on, _, _) =
        remove_socket_object-Member k (handler k listener) s sock p m on calm in
      (
        s',
        runs,
        deleted_event run p events s' gone still_on readable,
        deleted_send sock p n buf s' gone,
      )

module _ (k : Kernel) (offer : Offer) {S : Type 0} where
  hollow_front :
      (s : State S) (p : ℕ) (o : SocketObject)
      → s.heap p ≡ some o
      → o.f_valid ≡ true
      → o.out_packets_queue ≡ hollow ∷ []
      → send_all k offer (object p) s ≡ fault Fault.undefined_behaviour
  unfolding send_all send_queue load size
  hollow_front s p o live valid q = ground arith

  -- A message whose size is no size of a packet, 0 for example, is accepted into an empty queue, and
  -- the next `HandleSend` computes with pointers that were never assigned.
  pub hollow_message :
      (s : State S) (p : ℕ) (o : SocketObject) (buf : List ℕ) (n : ℕ)
      → o.f_valid ≡ true
      → o.out_packets_queue ≡ []
      → fits (n % int_mod) ≡ false
      → (o' : SocketObject) × (push_msg o buf n ≡ some (0, o'))
        × (send_all k offer (object p) (record s { heap = update s.heap p (some o') })
            ≡ fault Fault.undefined_behaviour)
  hollow_message s p o buf n valid empty bad = (
    (enqueue o hollow).1,
    push_msg-hollow o buf n (ground arith) bad,
    hollow_front (record s { heap = update s.heap p (some (enqueue o hollow).1) }) p
        (enqueue o hollow).1 (ground arith) valid (ground arith),
  )
