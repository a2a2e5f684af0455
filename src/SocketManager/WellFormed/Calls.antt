-- ===== src/SocketManager/WellFormed/Calls.antt =====
-- The operations of a `SocketManager` that leave its objects alone, or change them in place.
use light_server.Base.{
  ℕ, ◌≡◌, refl, Bool, false, Option, none, some, List, [], ◌∷◌, arith, ◌==◌, ◌&&◌, if◌then◌else◌,
}
use light_server.Common.{Sockaddr, socket_error}
use light_server.SocketObject.{
  SocketObject, push_msg, push_udp_msg, set_receive_packet_limit, set_receive_bytes_limit,
}
use light_server.Machine.{Kernel, Command, put_mgr, store, pure, ◌>>◌}
use light_server.SocketManager.Descriptors.{set_non_blocking, get_time, get_time_in_millisecond}
use light_server.SocketManager.Objects.{
  push_command, is_valid, find_socket_object, trigger_cmd_event, disconnect, close_socket,
}
use light_server.SocketManager.Traffic.{
  queue_message, send_by, change_valid, send, udp_send, set_receive_packets_limit,
  set_receive_bytes_limit_of, disconnect_where, disconnect_silence_connections, close_all_socket,
}
use light_server.SocketManager.WellFormed.{Safe, SafeAt, Safe-bind, SafeAt-bind, Keeps-bind}
use light_server.SocketManager.WellFormed.Rules.{
  Keeps-if, Keeps-call_handler, Safe-Keeps, Safe-SafeAt, Safe-pure, Safe-stop, Safe-get_mgr,
  Safe-get_app, Safe-put_app, Safe-put_mgr, Safe-sys, Safe-defined, Safe-if, SafeAt-if,
  SafeAt-store, SafeAt-store-then, SafeAt-defined, Safe-load, Safe-with_valid, Safe-call_handler,
}

pub ruleset safe_rules = (
  Safe-bind, Safe-pure, Safe-stop, Safe-get_mgr, Safe-get_app, Safe-put_app, Safe-sys, Safe-defined,
  Safe-if, refl,
)

pub ruleset keeps_rules = (
  Keeps-bind, Keeps-if, Keeps-call_handler, Safe-Keeps, Safe-pure, Safe-stop, Safe-get_mgr,
  Safe-get_app, Safe-put_app, Safe-sys, Safe-defined, refl,
)

queue_only : {S : Type 0} (c : Command) → Safe {S = S} (put_mgr (push_command c))
queue_only c = Safe-put_mgr (push_command c) (λ m. refl)

-- A pushed message changes the queue of the object only.
pub push_msg-socket_id :
    (o : SocketObject) (buf : List ℕ) (n : ℕ) (r : ℕ × SocketObject)
    → push_msg o buf n ≡ some r
    → r.1.socket_id ≡ o.socket_id
unfolding push_msg
push_msg-socket_id o buf n r e = ground arith

pub push_udp_msg-socket_id :
    (o : SocketObject) (buf : List ℕ) (n : ℕ) (to : Sockaddr) (r : ℕ × SocketObject)
    → push_udp_msg o buf n to ≡ some r
    → r.1.socket_id ≡ o.socket_id
unfolding push_udp_msg
push_udp_msg-socket_id o buf n to r e = ground arith

module _ (k : Kernel) {S : Type 0} where
  pub get_time-Safe : Safe {S = S} (get_time k)
  unfolding get_time
  get_time-Safe = search safe_rules

  pub get_time_in_millisecond-Safe : Safe {S = S} (get_time_in_millisecond k)
  unfolding get_time_in_millisecond
  get_time_in_millisecond-Safe = search safe_rules

  pub set_non_blocking-Safe : (sock : ℕ) → Safe {S = S} (set_non_blocking k sock)
  unfolding set_non_blocking
  set_non_blocking-Safe sock = search safe_rules

  pub trigger_cmd_event-Safe :
      (cmd : ℕ → Command) (fd : ℕ) → Safe {S = S} (trigger_cmd_event k cmd fd)
  unfolding trigger_cmd_event
  trigger_cmd_event-Safe cmd fd = search (safe_rules, queue_only) depth 12

  pub disconnect-Safe : (sock : ℕ) → Safe {S = S} (disconnect k sock)
  unfolding disconnect
  disconnect-Safe sock = search (safe_rules, trigger_cmd_event-Safe)

  pub close_socket-Safe : (sock : ℕ) → Safe {S = S} (close_socket k sock)
  unfolding close_socket
  close_socket-Safe sock = search (safe_rules, trigger_cmd_event-Safe)

  pub find_socket_object-Safe : (sock : ℕ) → Safe {S = S} (find_socket_object sock)
  unfolding find_socket_object
  find_socket_object-Safe sock = search safe_rules

  pub disconnect_where-Safe :
      (test : SocketObject → Bool) (es : List (ℕ × ℕ)) → Safe {S = S} (disconnect_where k test es)
  unfolding disconnect_where
  disconnect_where-Safe test [] = search safe_rules
  disconnect_where-Safe test ((sock, p) ∷ es) = Safe-load p _ λ o. Safe-SafeAt p o.socket_id (
      Safe-bind (if o.f_valid && test o then disconnect k o.socket_id else pure 0) _
        (search (safe_rules, disconnect-Safe)) (λ _. disconnect_where-Safe test es))

  pub disconnect_silence_connections-Safe :
      (period : ℕ) → Safe {S = S} (disconnect_silence_connections k period)
  unfolding disconnect_silence_connections
  disconnect_silence_connections-Safe period =
      search (safe_rules, get_time-Safe, disconnect_where-Safe)

  pub close_all_socket-Safe : Safe {S = S} (close_all_socket k)
  unfolding close_all_socket
  close_all_socket-Safe = search (safe_rules, disconnect_where-Safe)

  pub is_valid-Safe : (p : Option ℕ) → Safe {S = S} (is_valid p)
  is_valid-Safe none = Safe-pure false
  is_valid-Safe (some p) =
      Safe-load p (λ o. pure o.f_valid) (λ o. Safe-SafeAt p o.socket_id (Safe-pure o.f_valid))

  queue_message-Safe :
      (sock p : ℕ) (push : SocketObject → Option (ℕ × SocketObject))
      → ((o : SocketObject) (r : ℕ × SocketObject) → push o ≡ some r → r.1.socket_id ≡ o.socket_id)
      → Safe {S = S} (queue_message k sock p push)
  queue_message-Safe sock p push same = Safe-load p _ λ o.
      SafeAt-defined p o.socket_id (push o) _ λ r e.
        SafeAt-store-then p o.socket_id r.1
          (if r.0 == socket_error
            then pure socket_error
            else (do trigger_cmd_event k Command.send sock; pure 0))
          (same o r e) (search (safe_rules, trigger_cmd_event-Safe))

  send_by-Safe :
      (sock : ℕ) (push : SocketObject → Option (ℕ × SocketObject))
      → ((o : SocketObject) (r : ℕ × SocketObject) → push o ≡ some r → r.1.socket_id ≡ o.socket_id)
      → (p : Option ℕ) → Safe {S = S} (send_by k sock push p)
  send_by-Safe sock push same none = Safe-pure _
  send_by-Safe sock push same (some p) =
      Safe-bind (is_valid (some p)) _ (is_valid-Safe (some p))
        λ v. Safe-if v _ _ (queue_message-Safe sock p push same) (Safe-pure socket_error)

  pub send-Safe : (sock : ℕ) (buf : List ℕ) (n : ℕ) → Safe {S = S} (send k sock buf n)
  unfolding send
  send-Safe sock buf n =
      Safe-bind (find_socket_object sock) _ (find_socket_object-Safe sock)
        λ p. send_by-Safe sock (λ o. push_msg o buf n) (λ o. push_msg-socket_id o buf n) p

  pub udp_send-Safe :
      (sock : ℕ) (to : Sockaddr) (buf : List ℕ) (n : ℕ) → Safe {S = S} (udp_send k sock to buf n)
  unfolding udp_send
  udp_send-Safe sock to buf n =
      Safe-bind (find_socket_object sock) _ (find_socket_object-Safe sock) λ p.
        send_by-Safe sock (λ o. push_udp_msg o buf n to) (λ o. push_udp_msg-socket_id o buf n to) p

  change_valid-Safe :
      (p : Option ℕ) (g : SocketObject → SocketObject)
      → ((o : SocketObject) → (g o).socket_id ≡ o.socket_id)
      → Safe {S = S} (change_valid k p g)
  change_valid-Safe none g same = Safe-pure tt
  change_valid-Safe (some p) g same =
      Safe-load p (λ o. if o.f_valid then store p (g o) else pure tt)
        λ o.
          SafeAt-if p o.socket_id o.f_valid _ _ (SafeAt-store p o.socket_id (g o) (same o))
            (Safe-SafeAt p o.socket_id (Safe-pure tt))

  pub set_receive_packets_limit-Safe :
      (sock n : ℕ) → Safe {S = S} (set_receive_packets_limit k sock n)
  unfolding set_receive_packets_limit set_receive_packet_limit
  set_receive_packets_limit-Safe sock n =
      Safe-bind (find_socket_object sock) _ (find_socket_object-Safe sock)
        λ p. change_valid-Safe p (λ o. set_receive_packet_limit o n) (λ o. refl)

  pub set_receive_bytes_limit_of-Safe :
      (sock n : ℕ) → Safe {S = S} (set_receive_bytes_limit_of k sock n)
  unfolding set_receive_bytes_limit_of set_receive_bytes_limit
  set_receive_bytes_limit_of-Safe sock n =
      Safe-bind (find_socket_object sock) _ (find_socket_object-Safe sock)
        λ p. change_valid-Safe p (λ o. set_receive_bytes_limit o n) (λ o. refl)
