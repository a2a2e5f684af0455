-- ===== src/SocketManager/Reachable/Calls.antt =====
-- The calls of a `SocketManager` that send, disconnect and limit return, whatever state the manager has
-- come to: they touch live objects only.
use light_server.Base.{
  ℕ, ◌≤◌, ◌%◌, ◌≡◌, refl, ◌∙◌, Bool, true, Option, none, some, List, [], ◌∷◌, ◌==◌, ◌&&◌, length,
  take, leb, if◌then◌else◌, arith, Bool-cases, inl, inr,
}
use light_server.Common.{Sockaddr, socket_error, minus_one, int_mod}
use light_server.MsgPacket.{MsgPacket, make, make_udp, fits, filled, hollow}
use light_server.SocketObject.{
  SocketObject, push_msg, push_udp_msg, enqueue, max_num_of_packets, set_receive_packet_limit,
  set_receive_bytes_limit,
}
use light_server.Machine.{Kernel, Command, ◌>>=◌, ◌>>◌, pure, get_mgr, put_mgr, store}
use light_server.SocketManager.Descriptors.{get_time}
use light_server.SocketManager.Objects.{
  push_command, is_valid, trigger_cmd_event, disconnect, close_socket,
}
use light_server.SocketManager.Traffic.{
  queue_message, send_by, change_valid, is_silent, send, udp_send, set_receive_packets_limit,
  set_receive_bytes_limit_of, disconnect_where, disconnect_silence_connections, close_all_socket,
}
use light_server.SocketManager.WellFormed.Calls.{push_msg-socket_id, push_udp_msg-socket_id}
use light_server.SocketManager.Reachable.Returning.{
  Total, Backed-AllOwned, Total-bind, Total-pure, Total-get_mgr, Total-put_mgr, Total-sys, Total-if,
  Total-rest, Total-load, Total-find, Total-store, Total-defined,
}

ruleset total_rules = (Total-bind, Total-pure, Total-get_mgr, Total-sys, Total-if, refl)

-- The packet of a message that the buffer holds can be made.
module _ (o : SocketObject) (buf : List ℕ) (n : ℕ) (inside : n % int_mod ≤ length buf) where
  make-defined : (p : MsgPacket) × (make (n % int_mod) buf ≡ some p)
  unfolding make
  make-defined = elim (Bool-cases (fits (n % int_mod))) [
    | inl good ↦ (filled (n % int_mod) none (take (n % int_mod) buf), ground arith)
    | inr bad ↦ (hollow, ground arith)
  ]

  make_udp-defined : (to : Sockaddr) → (p : MsgPacket) × (make_udp (n % int_mod) buf to ≡ some p)
  unfolding make_udp
  make_udp-defined to = elim (Bool-cases (fits (n % int_mod))) [
    | inl good ↦ (filled (n % int_mod) (some to) (take (n % int_mod) buf), ground arith)
    | inr bad ↦ (hollow, ground arith)
  ]

  push_msg-defined : (r : ℕ × SocketObject) × (push_msg o buf n ≡ some r)
  unfolding push_msg
  push_msg-defined =
      let (p, made) = make-defined in
      elim (Bool-cases (leb max_num_of_packets (length o.out_packets_queue))) [
        | inl full ↦ ((minus_one, o), ground arith)
        | inr room ↦ (enqueue o p, ground (arith, made))
      ]

  push_udp_msg-defined :
      (to : Sockaddr) → (r : ℕ × SocketObject) × (push_udp_msg o buf n to ≡ some r)
  unfolding push_udp_msg
  push_udp_msg-defined to =
      let (p, made) = make_udp-defined to in
      elim (Bool-cases (leb max_num_of_packets (length o.out_packets_queue))) [
        | inl full ↦ ((minus_one, o), ground arith)
        | inr room ↦ (enqueue o p, ground (arith, made))
      ]

module _ (k : Kernel) {S : Type 0} where
  module _ (es : List (ℕ × ℕ)) where
    queue-Total : (c : Command) → Total {S = S} es (put_mgr (push_command c))
    queue-Total c = Total-put_mgr es (push_command c) (λ m. refl)

    trigger_cmd_event-Total :
        (cmd : ℕ → Command) (fd : ℕ) → Total {S = S} es (trigger_cmd_event k cmd fd)
    unfolding trigger_cmd_event
    trigger_cmd_event-Total cmd fd = search (total_rules, queue-Total) depth 12

    pub disconnect-Total : (sock : ℕ) → Total {S = S} es (disconnect k sock)
    unfolding disconnect
    disconnect-Total sock = search (total_rules, trigger_cmd_event-Total)

    pub close_socket-Total : (sock : ℕ) → Total {S = S} es (close_socket k sock)
    unfolding close_socket
    close_socket-Total sock = search (total_rules, trigger_cmd_event-Total)

    get_time-Total : Total {S = S} es (get_time k)
    unfolding get_time
    get_time-Total = search total_rules

  disconnect_where-Total :
      (test : SocketObject → Bool) (es : List (ℕ × ℕ))
      → Total {S = S} es (disconnect_where k test es)
  unfolding disconnect_where
  disconnect_where-Total test [] = Total-pure [] tt
  disconnect_where-Total test ((sock, p) ∷ es) =
      let rest = Total-rest (sock, p) es _ (disconnect_where-Total test es) in
      Total-load sock p es _ λ o own.
        Total-bind _ (if o.f_valid && test o then disconnect k o.socket_id else pure 0) _
          (Total-if _ _ _ _ (disconnect-Total _ o.socket_id) (Total-pure _ 0)) λ _. rest

  is_valid-Total : (sock p : ℕ) → Total {S = S} ((sock, p) ∷ []) (is_valid (some p))
  is_valid-Total sock p = Total-load sock p [] _ λ o own. Total-pure _ o.f_valid

  module _ (sock p : ℕ) where
    queue_message-Total :
        (push : SocketObject → Option (ℕ × SocketObject))
        → ((o : SocketObject) → (r : ℕ × SocketObject) × (push o ≡ some r))
        → ((o : SocketObject) (r : ℕ × SocketObject)
            → push o ≡ some r
            → r.1.socket_id ≡ o.socket_id)
        → Total {S = S} ((sock, p) ∷ []) (queue_message k sock p push)
    queue_message-Total push made same = Total-load sock p [] _ λ o own.
        Total-defined _ (push o) _ (made o) λ r e.
          Total-bind _ (store p r.1) _ (Total-store sock p [] r.1 (same o r e ∙ own)) λ _.
            Total-if _ (r.0 == socket_error) _ _ (Total-pure _ socket_error) (
              Total-bind _ (trigger_cmd_event k Command.send sock) _
                (trigger_cmd_event-Total _ Command.send sock) λ _. Total-pure _ 0)

    change_valid-Total :
        (g : SocketObject → SocketObject)
        → ((o : SocketObject) → (g o).socket_id ≡ o.socket_id)
        → Total {S = S} ((sock, p) ∷ []) (change_valid k (some p) g)
    change_valid-Total g same = Total-load sock p [] _ λ o own.
        Total-if _ o.f_valid _ _ (Total-store sock p [] (g o) (same o ∙ own)) (Total-pure _ tt)

  send_by-Total :
      (sock p : ℕ) (push : SocketObject → Option (ℕ × SocketObject))
      → ((o : SocketObject) → (r : ℕ × SocketObject) × (push o ≡ some r))
      → ((o : SocketObject) (r : ℕ × SocketObject) → push o ≡ some r → r.1.socket_id ≡ o.socket_id)
      → Total {S = S} ((sock, p) ∷ []) (send_by k sock push (some p))
  send_by-Total sock p push made same =
      Total-bind _ (is_valid (some p)) _ (is_valid-Total sock p) λ v.
        Total-if _ v _ _ (queue_message-Total sock p push made same) (Total-pure _ socket_error)

  pub send-Total :
      (sock : ℕ) (buf : List ℕ) (n : ℕ)
      → n % int_mod ≤ length buf
      → Total {S = S} [] (send k sock buf n)
  unfolding send
  send-Total sock buf n inside = Total-find sock _ (Total-pure [] socket_error) λ p.
      send_by-Total sock p _ (λ o. push_msg-defined o buf n inside)
        (λ o. push_msg-socket_id o buf n)

  pub udp_send-Total :
      (sock : ℕ) (to : Sockaddr) (buf : List ℕ) (n : ℕ)
      → n % int_mod ≤ length buf
      → Total {S = S} [] (udp_send k sock to buf n)
  unfolding udp_send
  udp_send-Total sock to buf n inside = Total-find sock _ (Total-pure [] socket_error) λ p.
      send_by-Total sock p _ (λ o. push_udp_msg-defined o buf n inside to)
        (λ o. push_udp_msg-socket_id o buf n to)

  pub packets_limit-Total : (sock n : ℕ) → Total {S = S} [] (set_receive_packets_limit k sock n)
  unfolding set_receive_packets_limit set_receive_packet_limit
  packets_limit-Total sock n =
      Total-find sock _ (Total-pure [] tt) λ p. change_valid-Total sock p _ (λ o. refl)

  pub bytes_limit-Total : (sock n : ℕ) → Total {S = S} [] (set_receive_bytes_limit_of k sock n)
  unfolding set_receive_bytes_limit_of set_receive_bytes_limit
  bytes_limit-Total sock n =
      Total-find sock _ (Total-pure [] tt) λ p. change_valid-Total sock p _ (λ o. refl)

  -- A loop over the map of the state.
  over_map-Total :
      (test : SocketObject → Bool)
      → Total {S = S} [] (do m ← get_mgr; disconnect_where k test m.sock_object_map; pure true)
  over_map-Total test = record {
    at = λ s w none_given.
        (over_entries test s.mgr.sock_object_map).at s w
          (Backed-AllOwned s.heap s.mgr.sock_object_map w.backed);
  }
    where
      over_entries :
          (test : SocketObject → Bool) (es : List (ℕ × ℕ))
          → Total {S = S} es (do disconnect_where k test es; pure true)
      over_entries test es =
          Total-bind es (disconnect_where k test es) _ (disconnect_where-Total test es)
            λ _. Total-pure es true

  pub silence-Total : (period : ℕ) → Total {S = S} [] (disconnect_silence_connections k period)
  unfolding disconnect_silence_connections
  silence-Total period =
      Total-bind [] (get_time k) _ (get_time-Total []) λ now. over_map-Total (is_silent now period)

  pub close_all_socket-Total : Total {S = S} [] (close_all_socket k)
  unfolding close_all_socket
  close_all_socket-Total = over_map-Total (λ o. true)
