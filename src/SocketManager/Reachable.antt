-- ===== src/SocketManager/Reachable.antt =====
-- The states that a `SocketManager` of socket_manager/socket_manager.cpp comes to when the threads of a
-- program call it, in any order, while its loop handles events. An operation, and the work for one
-- event, is one step.
pub mod Returning
pub mod Calls
pub mod Starting
pub mod Stopping
use light_server.Base.{
  ℕ, ◌≤◌, ◌%◌, length, ◌≡◌, refl, ◌⊎◌, inl, inr, Bool, true, false, Option, none, some, List, [],
  ◌∷◌, ltb, if◌then◌else◌, arith, subst,
}
use light_server.Common.{Sockaddr, int_mod, minus_one, is_valid_fd, is_invalid_fd, epollin, epollet}
use light_server.Machine.{
  Pvoid, object, Call, CtlOp, Kernel, Manager, State, ok, M, ◌>>=◌, ◌>>◌, pure, get_mgr, put_mgr,
  sys,
}
use light_server.SocketManager.FdMap
use light_server.SocketManager.Descriptors.{
  reset, ctl_fd, add_fd, delete_fd, add_timer, create_timer, arm_timer,
}
use light_server.SocketManager.Objects.{IoHandler, disconnect, close_socket}
use light_server.SocketManager.Connect.{
  add_tcp_socket, connect_to_remote, asynch_connect_to, add_udp_socket,
}
use light_server.SocketManager.Traffic.{
  send, udp_send, set_receive_packets_limit, set_receive_bytes_limit_of,
  disconnect_silence_connections, close_all_socket,
}
use light_server.SocketManager.Events.{process_event, do_work}
use light_server.SocketManager.Lifecycle.{
  ◌and_then◌, open_cmd_evt, open_exit_evt, start_timer, start_work_thread, start_thread, all_steps,
  start_opened, start, stop,
}
use light_server.SocketManager.WellFormed.{
  is_object, is_plain, registered, Owned, Backed, WellFormed, Evolves, After, Keeps, Safe,
  Safe-bind, Keeps-bind,
}
use light_server.SocketManager.WellFormed.Rules.{
  Safe-Keeps, Safe-pure, Safe-get_mgr, Safe-put_mgr, Safe-put_app, Safe-sys, Safe-if, Keeps-if,
}
use light_server.SocketManager.WellFormed.Calls.{
  safe_rules, keeps_rules, send-Safe, udp_send-Safe, disconnect-Safe, close_socket-Safe,
  set_receive_packets_limit-Safe, set_receive_bytes_limit_of-Safe,
  disconnect_silence_connections-Safe, close_all_socket-Safe,
}
use light_server.SocketManager.WellFormed.Removing.{stop-Keeps}
use light_server.SocketManager.WellFormed.Adding.{
  add_tcp_socket-Safe, connect_to_remote-Safe, asynch_connect_to-Safe, add_udp_socket-Safe,
}
use light_server.SocketManager.Reachable.Returning.{Total, Total-bind, Total-pure, Backed-lookup}
use light_server.SocketManager.Reachable.Calls.{
  send-Total, udp_send-Total, disconnect-Total, close_socket-Total, packets_limit-Total,
  bytes_limit-Total, silence-Total, close_all_socket-Total,
}
use light_server.SocketManager.Reachable.Starting.{start-Keeps}
use light_server.SocketManager.WellFormed.Looping.{HandlerKeeps, process_event-Keeps, do_work-Keeps}

-- The constructor: the maps and queues start empty, and `memory` is what the other members hold.
unfoldable pub make_manager : Manager → Manager
make_manager memory =
    reset (record memory { sock_object_map = []; cmd_queue = []; io_handler = false })

-- A process in which a manager was just constructed.
abbrev pub constructed : {S : Type 0} → Manager → S → State S
constructed memory app = record {
  heap = λ p. none;
  next = 0;
  mgr = make_manager memory;
  app = app;
  trace = [];
}

-- What happens to a manager: a call of one of its methods, or an event. Where `Stop` or a failed
-- `Start` waits for the work thread, that does up to so many rounds of its loop.
pub data Operation : Type 0 where
  start_with : ℕ → ℕ → Operation
  stop_after : ℕ → Operation
  event : Pvoid → ℕ → Operation
  add_tcp : ℕ → Sockaddr → Operation
  add_udp connect_to asynch_connect : Sockaddr → Operation
  send_bytes : ℕ → List ℕ → ℕ → Operation
  send_datagram : ℕ → Sockaddr → List ℕ → ℕ → Operation
  drop close : ℕ → Operation
  limit_packets limit_bytes : ℕ → ℕ → Operation
  drop_silent : ℕ → Operation
  drop_all : Operation
  add_descriptor modify_descriptor : ℕ → ℕ → Pvoid → Operation
  delete_descriptor : ℕ → Operation

-- `AddFD` and `ModifyFD` are not told the address of an object: those of its objects the manager
-- registers itself.
abbrev pub IsProper : Operation → Type 0
IsProper (add_descriptor fd mask pv) = is_object pv ≡ false
IsProper (modify_descriptor fd mask pv) = is_object pv ≡ false
IsProper _ = Unit {0}

-- `m`, without its result.
abbrev pub ignore : {S A : Type 0} → M S A → M S (Unit {0})
ignore m = do m; pure tt

module _ (k : Kernel) {S : Type 0} (h : IoHandler S) where
  unfoldable pub perform : Operation → M S (Unit {0})
  perform (start_with rounds interval) = ignore (start k (do_work k h rounds) interval)
  perform (stop_after rounds) = ignore (stop k (do_work k h rounds))
  perform (event pv events) = ignore (process_event k h true pv events)
  perform (add_tcp sock addr) = ignore (add_tcp_socket k sock addr)
  perform (add_udp addr) = ignore (add_udp_socket k h addr)
  perform (connect_to addr) = ignore (connect_to_remote k h addr)
  perform (asynch_connect addr) = ignore (asynch_connect_to k h addr)
  perform (send_bytes sock buf n) = ignore (send k sock buf n)
  perform (send_datagram sock to buf n) = ignore (udp_send k sock to buf n)
  perform (drop sock) = ignore (disconnect k sock)
  perform (close sock) = ignore (close_socket k sock)
  perform (limit_packets sock n) = set_receive_packets_limit k sock n
  perform (limit_bytes sock n) = set_receive_bytes_limit_of k sock n
  perform (drop_silent period) = ignore (disconnect_silence_connections k period)
  perform drop_all = ignore (close_all_socket k)
  perform (add_descriptor fd mask pv) = ignore (add_fd k fd mask pv)
  perform (modify_descriptor fd mask pv) = ignore (ctl_fd k fd CtlOp.mod_fd mask pv)
  perform (delete_descriptor fd) = ignore (delete_fd k fd)

  -- The states behind a sequence of operations that return, between which the owner of the manager may
  -- change its own members, and make system calls that register no object with epoll.
  pub data Reach (s : State S) : State S → Type 0 where
    begin : Reach s s
    step :
        {t u : State S} (op : Operation)
        → Reach s t
        → IsProper op
        → perform op t ≡ ok (tt, u)
        → Reach s u
    owner : {t : State S} (app : S) → Reach s t → Reach s (record t { app = app })
    calls :
        {t : State S} (c : Call)
        → Reach s t
        → is_plain c ≡ true
        → Reach s (record t { trace = c ∷ t.trace })

ctl_fd-Safe :
    {S : Type 0} (k : Kernel) (fd : ℕ) (op : CtlOp) (mask : ℕ) (pv : Pvoid)
    → is_plain (Call.epoll_ctl op fd mask pv) ≡ true
    → Safe {S = S} (ctl_fd k fd op mask pv)
unfolding ctl_fd
ctl_fd-Safe k fd op mask pv plain =
    Safe-bind get_mgr _ Safe-get_mgr
      λ m. Safe-bind (sys k (Call.epoll_ctl op fd mask pv)) _ (Safe-sys k _ plain) λ r. Safe-pure _

Keeps-ignore : {S A : Type 0} (m : M S A) → Keeps m → Keeps (ignore m)
Keeps-ignore m km = Keeps-bind m _ km λ _. Safe-Keeps (Safe-pure tt)

module _ (k : Kernel) {S : Type 0} (h : IoHandler S) (kh : HandlerKeeps h)
    (told : (sock : ℕ) → Safe (h.on_connect sock)) where
  perform-Keeps : (op : Operation) → IsProper op → Keeps (perform k h op)
  unfolding perform
  perform-Keeps (start_with rounds interval) proper =
      Keeps-ignore _ (start-Keeps k _ (do_work-Keeps k h kh rounds) interval)
  perform-Keeps (stop_after rounds) proper =
      Keeps-ignore _ (stop-Keeps k _ (do_work-Keeps k h kh rounds))
  perform-Keeps (event pv events) proper =
      Keeps-ignore _ (process_event-Keeps k h kh true pv events)
  perform-Keeps (add_tcp sock addr) proper =
      Keeps-ignore _ (Safe-Keeps (add_tcp_socket-Safe k sock addr))
  perform-Keeps (add_udp addr) proper =
      Keeps-ignore _ (Safe-Keeps (add_udp_socket-Safe k h told addr))
  perform-Keeps (connect_to addr) proper =
      Keeps-ignore _ (Safe-Keeps (connect_to_remote-Safe k h told addr))
  perform-Keeps (asynch_connect addr) proper =
      Keeps-ignore _ (Safe-Keeps (asynch_connect_to-Safe k h told addr))
  perform-Keeps (send_bytes sock buf n) proper =
      Keeps-ignore _ (Safe-Keeps (send-Safe k sock buf n))
  perform-Keeps (send_datagram sock to buf n) proper =
      Keeps-ignore _ (Safe-Keeps (udp_send-Safe k sock to buf n))
  perform-Keeps (drop sock) proper = Keeps-ignore _ (Safe-Keeps (disconnect-Safe k sock))
  perform-Keeps (close sock) proper = Keeps-ignore _ (Safe-Keeps (close_socket-Safe k sock))
  perform-Keeps (limit_packets sock n) proper = Safe-Keeps (set_receive_packets_limit-Safe k sock n)
  perform-Keeps (limit_bytes sock n) proper = Safe-Keeps (set_receive_bytes_limit_of-Safe k sock n)
  perform-Keeps (drop_silent period) proper =
      Keeps-ignore _ (Safe-Keeps (disconnect_silence_connections-Safe k period))
  perform-Keeps drop_all proper = Keeps-ignore _ (Safe-Keeps (close_all_socket-Safe k))
  perform-Keeps (add_descriptor fd mask pv) proper =
      Keeps-ignore _ (Safe-Keeps (ctl_fd-Safe k fd CtlOp.add mask pv (rw proper refl)))
  perform-Keeps (modify_descriptor fd mask pv) proper =
      Keeps-ignore _ (Safe-Keeps (ctl_fd-Safe k fd CtlOp.mod_fd mask pv (rw proper refl)))
  perform-Keeps (delete_descriptor fd) proper =
      Keeps-ignore _ (Safe-Keeps (ctl_fd-Safe k fd CtlOp.del 0 Pvoid.null refl))

  pub Reach-WellFormed : (s t : State S) → Reach k h s t → WellFormed s → WellFormed t
  unfolding sys
  Reach-WellFormed s t begin w = w
  Reach-WellFormed s t (step {t = mid} op before proper runs) w =
      subst (After WellFormed) runs
        ((perform-Keeps op proper).at mid (Reach-WellFormed s mid before w))
  Reach-WellFormed s t (owner {t = mid} app before) w =
      ((Safe-put_app (λ a. app)).at mid (Reach-WellFormed s mid before w)).formed
  Reach-WellFormed s t (calls {t = mid} c before plain) w =
      ((Safe-sys k c plain).at mid (Reach-WellFormed s mid before w)).formed

-- The calls that send, disconnect and limit, with a buffer of the length that they are told.
abbrev pub IsCall : Operation → Type 0
IsCall (send_bytes sock buf n) = n % int_mod ≤ length buf
IsCall (send_datagram sock to buf n) = n % int_mod ≤ length buf
IsCall (drop sock) = Unit {0}
IsCall (close sock) = Unit {0}
IsCall (limit_packets sock n) = Unit {0}
IsCall (limit_bytes sock n) = Unit {0}
IsCall (drop_silent period) = Unit {0}
IsCall drop_all = Unit {0}
IsCall _ = ⊥

module _ (k : Kernel) {S : Type 0} (h : IoHandler S) where
  Total-ignore : {A : Type 0} (m : M S A) → Total [] m → Total [] (ignore m)
  Total-ignore m km = Total-bind [] m _ km λ _. Total-pure [] tt

  pub perform-Total : (op : Operation) → IsCall op → Total [] (perform k h op)
  unfolding perform
  perform-Total (send_bytes sock buf n) inside = Total-ignore _ (send-Total k sock buf n inside)
  perform-Total (send_datagram sock to buf n) inside =
      Total-ignore _ (udp_send-Total k sock to buf n inside)
  perform-Total (drop sock) c = Total-ignore _ (disconnect-Total k [] sock)
  perform-Total (close sock) c = Total-ignore _ (close_socket-Total k [] sock)
  perform-Total (limit_packets sock n) c = packets_limit-Total k sock n
  perform-Total (limit_bytes sock n) c = bytes_limit-Total k sock n
  perform-Total (drop_silent period) c = Total-ignore _ (silence-Total k period)
  perform-Total drop_all c = Total-ignore _ (close_all_socket-Total k)
  perform-Total (start_with rounds interval) c = elim c [ ]
  perform-Total (stop_after rounds) c = elim c [ ]
  perform-Total (event pv events) c = elim c [ ]
  perform-Total (add_tcp sock addr) c = elim c [ ]
  perform-Total (add_udp addr) c = elim c [ ]
  perform-Total (connect_to addr) c = elim c [ ]
  perform-Total (asynch_connect addr) c = elim c [ ]
  perform-Total (add_descriptor fd mask pv) c = elim c [ ]
  perform-Total (modify_descriptor fd mask pv) c = elim c [ ]
  perform-Total (delete_descriptor fd) c = elim c [ ]

pub constructed-WellFormed :
    {S : Type 0} (memory : Manager) (app : S) → WellFormed (constructed memory app)
unfolding make_manager reset
constructed-WellFormed memory app = record {
  backed = tt;
  unused = λ p above. refl;
  enrolled = λ fd p e. ground arith;
}

module _ (k : Kernel) {S : Type 0} (h : IoHandler S) (kh : HandlerKeeps h)
    (told : (sock : ℕ) → Safe (h.on_connect sock)) (memory : Manager) (app : S) (t : State S)
    (reached : Reach k h (constructed memory app) t) where
  reached-WellFormed : WellFormed t
  reached-WellFormed = Reach-WellFormed k h kh told _ t reached (constructed-WellFormed memory app)

  -- In every state that a constructed manager comes to by calls of its methods and by events, in any
  -- order, with changes of the other members of its owner and other system calls between them, and
  -- where `AddFD` and `ModifyFD` are not told the address of an object, an address that its map gives
  -- for a socket, or that `epoll_ctl` registered for it last, is the one that the map gives for that
  -- socket, and is that of a live object of that socket. The handler of its loop has to keep a state
  -- well formed, and to delete no object when it hears that a connection comes or goes.
  pub Reach-lookup :
      (sock p : ℕ)
      → (FdMap.lookup sock t.mgr.sock_object_map ≡ some p) ⊎ (registered t.trace sock ≡ object p)
      → (FdMap.lookup sock t.mgr.sock_object_map ≡ some p) × Owned t.heap p sock
  Reach-lookup sock p (inl found) =
      (found, Backed-lookup t.heap t.mgr.sock_object_map sock p reached-WellFormed.backed found)
  Reach-lookup sock p (inr given) =
      let found = reached-WellFormed.enrolled sock p given in
      (found, Backed-lookup t.heap t.mgr.sock_object_map sock p reached-WellFormed.backed found)
