-- ===== src/SocketManager/View.antt =====
-- A `SocketManager` without its addresses: the table from sockets to what their objects hold, and what
-- the calls that send, disconnect and limit do to it. socket_manager/socket_manager.cpp.
pub mod Rules
use light_server.Base.{
  ℕ, ◌%◌, ◌≤◌, length, ◌≡◌, refl, sym, subst, Bool, true, false, Option, none, some, List, [], ◌∷◌,
  ◌==◌, ◌&&◌, if◌then◌else◌, arith, Bool-cases, inl, inr,
}
use light_server.Common.{Sockaddr, int_mod, socket_error}
use light_server.SocketObject.{
  SocketObject, push_msg, push_udp_msg, set_receive_packet_limit, set_receive_bytes_limit,
}
use light_server.Machine.{
  Kernel, Command, State, ok, Result, M, ◌>>=◌, ◌>>◌, pure, defined, load, store, put_mgr,
}
use light_server.SocketManager.Descriptors.{get_time}
use light_server.SocketManager.Objects.{
  IoHandler, is_valid, push_command, find_socket_object, trigger_cmd_event, disconnect,
  close_socket,
}
use light_server.SocketManager.Traffic.{
  queue_message, send_by, change_valid, send, udp_send, set_receive_packets_limit,
  set_receive_bytes_limit_of, disconnect_where, disconnect_silence_connections, close_all_socket,
}
use light_server.SocketManager.WellFormed.{WellFormed, After, Evolves}
use light_server.SocketManager.WellFormed.Rules.{load_runs}
use light_server.SocketManager.WellFormed.Calls.{push_msg-socket_id, push_udp_msg-socket_id}
use light_server.SocketManager.Reachable.{
  Operation, send_bytes, send_datagram, drop, close, limit_packets, limit_bytes, drop_silent,
  drop_all, start_with, stop_after, event, add_tcp, add_udp, connect_to, asynch_connect,
  add_descriptor, modify_descriptor, delete_descriptor, IsCall, perform, ignore, perform-Total,
}
use light_server.SocketManager.View.Rules.{
  Table, table, Still, Still-bind, Still-pure, Still-get_mgr, Still-put_mgr, Still-sys, Still-if,
  Still-load, Changes, Changes-load, Changes-if, Changes-defined, Changes-store, Changes-store-then,
  Changes-Still, Becomes, Becomes-Still, Becomes-find, on_member, After-bind,
}

ruleset still_rules = (Still-bind, Still-pure, Still-get_mgr, Still-sys, Still-if, Still-load)

-- The object behind `PushMsg`, whatever its result.
abbrev pub pushed : Option (ℕ × SocketObject) → SocketObject → SocketObject
pushed none o = o
pushed (some r) o = r.1

-- What an operation means: a message or a limit changes the object of one socket, if it is a valid
-- member, and the calls that disconnect change no object.
unfoldable pub apply : Operation → Table → Table
apply (send_bytes sock buf n) v = on_member sock (λ o. pushed (push_msg o buf n) o) v
apply (send_datagram sock to buf n) v = on_member sock (λ o. pushed (push_udp_msg o buf n to) o) v
apply (limit_packets sock n) v = on_member sock (λ o. set_receive_packet_limit o n) v
apply (limit_bytes sock n) v = on_member sock (λ o. set_receive_bytes_limit o n) v
apply _ v = v

module _ (k : Kernel) {S : Type 0} where
  queue-Still : (c : Command) → Still {S = S} (put_mgr (push_command c))
  queue-Still c = Still-put_mgr (push_command c) (λ m. refl)

  trigger_cmd_event-Still :
      (cmd : ℕ → Command) (fd : ℕ) → Still {S = S} (trigger_cmd_event k cmd fd)
  unfolding trigger_cmd_event
  trigger_cmd_event-Still cmd fd = search (still_rules, queue-Still) depth 12

  disconnect-Still : (sock : ℕ) → Still {S = S} (disconnect k sock)
  unfolding disconnect
  disconnect-Still sock = search (still_rules, trigger_cmd_event-Still)

  close_socket-Still : (sock : ℕ) → Still {S = S} (close_socket k sock)
  unfolding close_socket
  close_socket-Still sock = search (still_rules, trigger_cmd_event-Still)

  disconnect_where-Still :
      (test : SocketObject → Bool) (es : List (ℕ × ℕ)) → Still {S = S} (disconnect_where k test es)
  unfolding disconnect_where
  disconnect_where-Still test [] = Still-pure tt
  disconnect_where-Still test ((sock, p) ∷ es) =
      let rest = disconnect_where-Still test es in
      Still-bind (load p) _ (Still-load p) λ o.
        Still-bind (if o.f_valid && test o then disconnect k o.socket_id else pure 0) _
          (Still-if (o.f_valid && test o) _ _ (disconnect-Still o.socket_id) (Still-pure 0))
          λ _. rest

  silence-Still : (period : ℕ) → Still {S = S} (disconnect_silence_connections k period)
  unfolding disconnect_silence_connections get_time
  silence-Still period = search (still_rules, disconnect_where-Still) depth 12

  close_all_socket-Still : Still {S = S} (close_all_socket k)
  unfolding close_all_socket
  close_all_socket-Still = search (still_rules, disconnect_where-Still)

  -- A command is triggered where the push reports success.
  answer_push-Still :
      (sock status : ℕ)
      → Still {S = S} (
          if status == socket_error
          then pure socket_error
          else (do trigger_cmd_event k Command.send sock; pure 0))
  answer_push-Still sock status = Still-if (status == socket_error) _ _ (Still-pure socket_error) (
      Still-bind (trigger_cmd_event k Command.send sock) _
        (trigger_cmd_event-Still Command.send sock) λ _. Still-pure 0)

  after_push-Changes :
      (sock p : ℕ) (o : SocketObject) (x : Option (ℕ × SocketObject))
      → Changes {S = S} p o (pushed x o) (do
        (status, o') ← defined x
        store p o'
        if status == socket_error
            then pure socket_error
            else (do trigger_cmd_event k Command.send sock; pure 0))
  after_push-Changes sock p o none = record { at = λ s live. tt }
  after_push-Changes sock p o (some (status, o')) =
      let put : Changes {S = S} p o o' _ =
        Changes-store-then p o o' _ (answer_push-Still sock status) in
      record { at = put.at }

  queue_message-Changes :
      (sock p : ℕ) (push : SocketObject → Option (ℕ × SocketObject)) (o : SocketObject)
      → Changes {S = S} p o (pushed (push o) o) (queue_message k sock p push)
  queue_message-Changes sock p push o = Changes-load p o _ _ (after_push-Changes sock p o (push o))

  send_by-Changes :
      (sock p : ℕ) (push : SocketObject → Option (ℕ × SocketObject)) (o : SocketObject)
      → Changes {S = S} p o
          (if o.f_valid then pushed (push o) o else o)
          (send_by k sock push (some p))
  send_by-Changes sock p push o =
      let branches : Changes {S = S} p o (if o.f_valid then pushed (push o) o else o)
          (if o.f_valid then queue_message k sock p push else pure socket_error) =
        Changes-if p o _ o o.f_valid _ _ (queue_message-Changes sock p push o)
          (Changes-Still p o _ (Still-pure socket_error)) in
      record { at = λ s live. rw (load_runs p o s live, After) (branches.at s live) }

  change_valid-Changes :
      (p : ℕ) (g : SocketObject → SocketObject) (o : SocketObject)
      → Changes {S = S} p o (if o.f_valid then g o else o) (change_valid k (some p) g)
  change_valid-Changes p g o = Changes-load p o _ _ (
      Changes-if p o (g o) o o.f_valid _ _ (Changes-store p o (g o))
        (Changes-Still p o _ (Still-pure tt)))

  send-Becomes :
      (sock : ℕ) (buf : List ℕ) (n : ℕ)
      → Becomes {S = S} (on_member sock (λ o. pushed (push_msg o buf n) o)) (send k sock buf n)
  unfolding send
  send-Becomes sock buf n =
      Becomes-find sock _ _ (Still-pure socket_error) λ p o. send_by-Changes sock p _ o

  udp_send-Becomes :
      (sock : ℕ) (to : Sockaddr) (buf : List ℕ) (n : ℕ)
      → Becomes {S = S}
          (on_member sock (λ o. pushed (push_udp_msg o buf n to) o))
          (udp_send k sock to buf n)
  unfolding udp_send
  udp_send-Becomes sock to buf n =
      Becomes-find sock _ _ (Still-pure socket_error) λ p o. send_by-Changes sock p _ o

  packets_limit-Becomes :
      (sock n : ℕ)
      → Becomes {S = S}
          (on_member sock (λ o. set_receive_packet_limit o n))
          (set_receive_packets_limit k sock n)
  unfolding set_receive_packets_limit
  packets_limit-Becomes sock n =
      Becomes-find sock _ _ (Still-pure tt) λ p o. change_valid-Changes p _ o

  bytes_limit-Becomes :
      (sock n : ℕ)
      → Becomes {S = S}
          (on_member sock (λ o. set_receive_bytes_limit o n))
          (set_receive_bytes_limit_of k sock n)
  unfolding set_receive_bytes_limit_of
  bytes_limit-Becomes sock n =
      Becomes-find sock _ _ (Still-pure tt) λ p o. change_valid-Changes p _ o

module _ (k : Kernel) {S : Type 0} (h : IoHandler S) where
  Becomes-ignore : {A : Type 0} (f : Table → Table) (m : M S A) → Becomes f m → Becomes f (ignore m)
  Becomes-ignore f m km = record { at = λ s w. After-bind _ _ _ (m s) (km.at s w) λ a t e. e }

  perform-Becomes : (op : Operation) → IsCall op → Becomes (apply op) (perform k h op)
  unfolding perform apply
  perform-Becomes (send_bytes sock buf n) c = Becomes-ignore _ _ (send-Becomes k sock buf n)
  perform-Becomes (send_datagram sock to buf n) c =
      Becomes-ignore _ _ (udp_send-Becomes k sock to buf n)
  perform-Becomes (limit_packets sock n) c = packets_limit-Becomes k sock n
  perform-Becomes (limit_bytes sock n) c = bytes_limit-Becomes k sock n
  perform-Becomes (drop sock) c = Becomes-ignore _ _ (Becomes-Still _ (disconnect-Still k sock))
  perform-Becomes (close sock) c = Becomes-ignore _ _ (Becomes-Still _ (close_socket-Still k sock))
  perform-Becomes (drop_silent period) c =
      Becomes-ignore _ _ (Becomes-Still _ (silence-Still k period))
  perform-Becomes drop_all c = Becomes-ignore _ _ (Becomes-Still _ (close_all_socket-Still k))
  perform-Becomes (start_with rounds interval) c = elim c [ ]
  perform-Becomes (stop_after rounds) c = elim c [ ]
  perform-Becomes (event pv events) c = elim c [ ]
  perform-Becomes (add_tcp sock addr) c = elim c [ ]
  perform-Becomes (add_udp addr) c = elim c [ ]
  perform-Becomes (connect_to addr) c = elim c [ ]
  perform-Becomes (asynch_connect addr) c = elim c [ ]
  perform-Becomes (add_descriptor fd mask pv) c = elim c [ ]
  perform-Becomes (modify_descriptor fd mask pv) c = elim c [ ]
  perform-Becomes (delete_descriptor fd) c = elim c [ ]

  -- In every well-formed state, `Send`, `UdpSend`, `Disconnect`, `CloseSocket`, the two limits,
  -- `DisconnectSilenceConnections` and `CloseAllSocket`, with a buffer of the length they are told,
  -- return in a well-formed state, and do to the table of sockets what they mean: a message or a limit
  -- changes the object of its socket if that is a valid member, and no other, and the calls that
  -- disconnect change no object before their commands are executed.
  pub perform-table :
      (s : State S)
      → WellFormed s
      → (op : Operation) → IsCall op
      → (t : State S) × (perform k h op s ≡ ok (tt, t))
        × WellFormed t
        × ((j : ℕ) → table t j ≡ apply op (table s) j)
  perform-table s w op c =
      let (tt, t, runs, e) = (perform-Total k h op c).at s w tt in
      (t, runs, e.formed, subst (After _) runs ((perform-Becomes op c).at s w))
