-- ===== src/SocketObject.antt =====
-- `SocketObject` of socket_manager/socket_object.h: a connection, its queue of outgoing messages and
-- its receive limit. A `uint32_t` is a number below 2 ^ 32, a `uint64_t` one below 2 ^ 64.
pub mod Queue
pub mod Limit
pub mod ByteLimit
use mathlib.Core.Option
use light_server.Base.{
  ℕ, ◌+◌, ◌-◌, ◌%◌, ◌^◌, Bool, true, false, ◌&&◌, ◌||◌, Option, none, some, List, [], ◌∷◌, ◌++◌,
  ltb, leb, ◌==◌, if◌then◌else◌, length,
}
use light_server.Common.{Sockaddr, int_mod, invalid_socket, minus_one}
use light_server.MsgPacket.{MsgPacket, make, make_udp}

pub record SocketObject : Type 0 where
  pub socket_id : ℕ
  pub remote_addr : Sockaddr
  pub connect_state : Bool
  pub f_valid : Bool
  pub out_packets_queue : List MsgPacket
  pub out_packet : Option MsgPacket
  pub f_receive_limit : Bool
  pub max_rx_packets_per_second : ℕ
  pub max_rx_bytes_per_second : ℕ
  pub rx_packets_count : ℕ
  pub rx_bytes_count : ℕ
  pub last_rx_time_ms : ℕ
  pub f_send_limit : Bool
  pub max_tx_packets_per_second : ℕ
  pub max_tx_bytes_per_second : ℕ
  pub connect_time : ℕ
  pub active_time : ℕ

abbrev pub max_num_of_packets : ℕ
max_num_of_packets = 1000

-- The constructor, over the raw memory that `new` returns: it assigns only these fields.
unfoldable pub construct : SocketObject → SocketObject
construct memory = record memory {
  socket_id = invalid_socket;
  remote_addr = record { family = 0; port = 0; ip = 0 };
  connect_state = false;
  active_time = 0;
  out_packets_queue = [];
  out_packet = none;
  f_receive_limit = false;
  f_send_limit = false;
}

unfoldable pub set_remote_addr : SocketObject → Sockaddr → SocketObject
set_remote_addr o a = record o { remote_addr = a }

abbrev pub enqueue : SocketObject → MsgPacket → ℕ × SocketObject
enqueue o p = (0, record o { out_packets_queue = o.out_packets_queue ++ (p ∷ []) })

-- `PushMsg`: the `size_t` of the caller becomes the `int32_t` of the packet's constructor.
unfoldable pub push_msg : SocketObject → List ℕ → ℕ → Option (ℕ × SocketObject)
push_msg o buf nbytes =
    if leb max_num_of_packets (length o.out_packets_queue)
    then some (minus_one, o)
    else Option.map (enqueue o) (make (nbytes % int_mod) buf)

unfoldable pub push_udp_msg : SocketObject → List ℕ → ℕ → Sockaddr → Option (ℕ × SocketObject)
push_udp_msg o buf nbytes to =
    if leb max_num_of_packets (length o.out_packets_queue)
    then some (minus_one, o)
    else Option.map (enqueue o) (make_udp (nbytes % int_mod) buf to)

-- `front()` of an empty queue is undefined.
abbrev pub front : List MsgPacket → Option MsgPacket
front [] = none
front (p ∷ ps) = some p

unfoldable pub front_out_packet : SocketObject → Option MsgPacket
front_out_packet o = front o.out_packets_queue

abbrev pub pop : SocketObject → List MsgPacket → Option SocketObject
pop o [] = none
pop o (p ∷ ps) = some (record o { out_packets_queue = ps })

unfoldable pub pop_out_packet : SocketObject → Option SocketObject
pop_out_packet o = pop o o.out_packets_queue

unfoldable pub out_packet_empty : SocketObject → Bool
out_packet_empty o = length o.out_packets_queue == 0

unfoldable pub set_socket_id : SocketObject → ℕ → SocketObject
set_socket_id o sock = record o { socket_id = sock }

unfoldable pub set_invalid : SocketObject → SocketObject
set_invalid o = record o { f_valid = false }

unfoldable pub set_valid : SocketObject → SocketObject
set_valid o = record o { f_valid = true }

unfoldable pub set_connected : SocketObject → ℕ → SocketObject
set_connected o time = record o { connect_state = true; connect_time = time }

unfoldable pub set_receive_packet_limit : SocketObject → ℕ → SocketObject
set_receive_packet_limit o num_of_packets = record o {
  f_receive_limit = ltb 0 num_of_packets;
  max_rx_bytes_per_second = 0;
  max_rx_packets_per_second = if ltb 0 num_of_packets then num_of_packets else 0;
  last_rx_time_ms = 0;
}

unfoldable pub set_receive_bytes_limit : SocketObject → ℕ → SocketObject
set_receive_bytes_limit o num_of_bytes = record o {
  f_receive_limit = ltb 0 num_of_bytes;
  max_rx_bytes_per_second = if ltb 0 num_of_bytes then num_of_bytes else 0;
  max_rx_packets_per_second = 0;
  last_rx_time_ms = 0;
}

-- `now_in_ms - last_rx_time_ms_ >= 1000` on `uint64_t`
abbrev pub second_over : SocketObject → ℕ → Bool
second_over o now = leb 1000 ((now + 2 ^ 64 - o.last_rx_time_ms) % 2 ^ 64)

unfoldable pub count_received_packet : SocketObject → ℕ → ℕ → SocketObject
count_received_packet o num_of_packets now =
    if second_over o now
    then record o { rx_packets_count = num_of_packets % int_mod; last_rx_time_ms = now }
    else record o { rx_packets_count = (o.rx_packets_count + num_of_packets) % int_mod }

unfoldable pub count_received_bytes : SocketObject → ℕ → ℕ → SocketObject
count_received_bytes o num_of_bytes now =
    if second_over o now
    then record o { rx_bytes_count = num_of_bytes % int_mod; last_rx_time_ms = now }
    else record o { rx_bytes_count = (o.rx_bytes_count + num_of_bytes) % int_mod }

unfoldable pub is_receive_overflow : SocketObject → Bool
is_receive_overflow o =
    (ltb 0 o.max_rx_packets_per_second && ltb o.max_rx_packets_per_second o.rx_packets_count)
    || (ltb 0 o.max_rx_bytes_per_second && ltb o.max_rx_bytes_per_second o.rx_bytes_count)

unfoldable pub set_send_packet_limit : SocketObject → ℕ → SocketObject
set_send_packet_limit o num_of_packets = record o {
  f_send_limit = ltb 0 num_of_packets;
  max_tx_bytes_per_second = 0;
  max_tx_packets_per_second = if ltb 0 num_of_packets then num_of_packets else 0;
}
