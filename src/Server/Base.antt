-- ===== src/Server/Base.antt =====
-- socket_manager/byte_buffer.h and the state of socket_manager/server_base.h.
use light_server.Base.{ℕ, Bool, true, false, Option, none, some, ltb, if◌then◌else◌}
use light_server.Machine.{Fault, Result, ok, fault}

-- `TByteBuffer`; `assigned` tells whether the constructor gave `p_buf_` a value.
pub record ByteBuffer : Type 0 where
  pub size_in_bytes : ℕ
  pub assigned : Bool

unfoldable pub make_buffer : ℕ → ByteBuffer
make_buffer num_of_bytes = record { size_in_bytes = num_of_bytes; assigned = ltb 0 num_of_bytes }

-- `Dispose`, which the destructor calls: freeing a pointer that was never assigned is undefined.
unfoldable pub dispose_buffer : ByteBuffer → Result ByteBuffer
dispose_buffer b =
    if b.assigned then ok (record b { size_in_bytes = 0 }) else fault Fault.undefined_behaviour

pub record ServerBase : Type 0 where
  pub rx_buffer : Option ByteBuffer
  pub heartbeat_interval_in_seconds : ℕ
  pub keep_alive_time_in_seconds : ℕ
  pub timer_event_count : ℕ

-- The constructor, with the `MakeRxBuffer` of the derived class.
unfoldable pub make_base : ℕ → ServerBase
unfolding make_buffer
make_base rx_buffer_size = record {
  rx_buffer = some (make_buffer rx_buffer_size);
  heartbeat_interval_in_seconds = 0;
  keep_alive_time_in_seconds = 0;
  timer_event_count = 0;
}

unfoldable pub set_heartbeat_interval : ServerBase → ℕ → ServerBase × Bool
set_heartbeat_interval b num_of_seconds =
    if ltb 3600 num_of_seconds
    then (b, false)
    else (record b { heartbeat_interval_in_seconds = num_of_seconds }, true)

unfoldable pub set_keep_alive_time : ServerBase → ℕ → ServerBase × Bool
set_keep_alive_time b num_of_seconds =
    if ltb 3600 num_of_seconds
    then (b, false)
    else (record b { keep_alive_time_in_seconds = num_of_seconds }, true)

-- `RxBuffer()->Size()`
abbrev pub rx_size : ServerBase → Option ℕ
rx_size b = elim b.rx_buffer [ none ↦ none | some r ↦ some r.size_in_bytes ]
