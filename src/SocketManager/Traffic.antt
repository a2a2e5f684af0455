-- ===== src/SocketManager/Traffic.antt =====
-- What the owner of a `SocketManager` asks of its sockets: sending, limits, disconnecting.
-- socket_manager/socket_manager.cpp.
use light_server.Base.{
  ℕ, ◌+◌, ◌-◌, ◌%◌, ◌^◌, Bool, true, not, Option, none, some, List, [], ◌∷◌, ◌==◌, ◌&&◌,
  if◌then◌else◌,
}
use light_server.Common.{Sockaddr, int_mod, socket_error, int_lt}
use light_server.SocketObject.{
  SocketObject, push_msg, push_udp_msg, set_receive_packet_limit, set_receive_bytes_limit,
}
use light_server.Machine.{Kernel, Command, M, ◌>>=◌, ◌>>◌, pure, defined, get_mgr, load, store}
use light_server.SocketManager.Descriptors.{get_time}
use light_server.SocketManager.Objects.{is_valid, find_socket_object, trigger_cmd_event, disconnect}

-- `(int)(now - active_time_) >= (int)period`: `time_t` has 64 bits, an `int` the low 32 of them.
abbrev pub is_silent : ℕ → ℕ → SocketObject → Bool
is_silent now period o =
    not (int_lt ((now + 2 ^ 64 - o.active_time) % 2 ^ 64 % int_mod) (period % int_mod))

module _ (k : Kernel) {S : Type 0} where
  -- The object is stored after `PushMsg`, and a refused message triggers nothing.
  abbrev pub queue_message : ℕ → ℕ → (SocketObject → Option (ℕ × SocketObject)) → M S ℕ
  queue_message sock p push = do
    o ← load p
    (status, o') ← defined (push o)
    store p o'
    if status == socket_error
        then pure socket_error
        else (do trigger_cmd_event k Command.send sock; pure 0)

  abbrev pub send_by : ℕ → (SocketObject → Option (ℕ × SocketObject)) → Option ℕ → M S ℕ
  send_by sock push none = pure socket_error
  send_by sock push (some p) = do
    valid ← is_valid (some p)
    if valid then queue_message sock p push else pure socket_error

  -- `Send`
  unfoldable pub send : ℕ → List ℕ → ℕ → M S ℕ
  send sock buf nbytes = do p ← find_socket_object sock; send_by sock (λ o. push_msg o buf nbytes) p

  -- `UdpSend`
  unfoldable pub udp_send : ℕ → Sockaddr → List ℕ → ℕ → M S ℕ
  udp_send sock to buf nbytes = do
    p ← find_socket_object sock
    send_by sock (λ o. push_udp_msg o buf nbytes to) p

  abbrev pub change_valid : Option ℕ → (SocketObject → SocketObject) → M S (Unit {0})
  change_valid none f = pure tt
  change_valid (some p) f = do o ← load p; if o.f_valid then store p (f o) else pure tt

  unfoldable pub set_receive_packets_limit : ℕ → ℕ → M S (Unit {0})
  set_receive_packets_limit sock num_of_packets = do
    p ← find_socket_object sock
    change_valid p (λ o. set_receive_packet_limit o num_of_packets)

  unfoldable pub set_receive_bytes_limit_of : ℕ → ℕ → M S (Unit {0})
  set_receive_bytes_limit_of sock nbytes = do
    p ← find_socket_object sock
    change_valid p (λ o. set_receive_bytes_limit o nbytes)

  -- A loop over the map that disconnects the valid objects that pass a test.
  unfoldable pub disconnect_where : (SocketObject → Bool) → List (ℕ × ℕ) → M S (Unit {0})
  disconnect_where test [] = pure tt
  disconnect_where test ((sock, p) ∷ rest) = do
    o ← load p
    if o.f_valid && test o then disconnect k o.socket_id else pure 0
    disconnect_where test rest

  unfoldable pub disconnect_silence_connections : ℕ → M S Bool
  disconnect_silence_connections period = do
    now ← get_time k
    m ← get_mgr
    disconnect_where (is_silent now period) m.sock_object_map
    pure true

  unfoldable pub close_all_socket : M S Bool
  close_all_socket = do m ← get_mgr; disconnect_where (λ o. true) m.sock_object_map; pure true
