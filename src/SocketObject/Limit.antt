-- ===== src/SocketObject/Limit.antt =====
-- The receive limits: what `CountReceivedPacket`, `CountReceivedBytes` and `IsReceiveOverflow` let
-- through, one second after another.
use light_server.Base.{
  ℕ, ◌+◌, ◌-◌, ◌%◌, ◌^◌, ◌≤◌, ◌<◌, ◌≡◌, true, false, List, [], ◌∷◌, length, min, if◌then◌else◌,
  arith,
}
use light_server.Common.{int_mod}
use light_server.SocketObject.{
  SocketObject, count_received_packet, is_receive_overflow, set_receive_packet_limit,
}

-- How many packets that arrive at these times are handed on, one count and one test for each.
pub packets_passed : SocketObject → List ℕ → ℕ
packets_passed o [] = 0
packets_passed o (t ∷ ts) =
    let o' = count_received_packet o 1 t in
    let rest = packets_passed o' ts in if is_receive_overflow o' then rest else rest + 1

-- Times in the second that begins at `start`.
abbrev pub Within : ℕ → List ℕ → Type 0
Within start [] = Unit {0}
Within start (t ∷ ts) = (start ≤ t) × (t < start + 1000) × (t < 2 ^ 64) × Within start ts

-- The object has a limit of `m` packets.
pub record PacketLimit (o : SocketObject) (m : ℕ) : Type 0 where
  pub positive : 0 < m
  pub packets : o.max_rx_packets_per_second ≡ m
  pub bytes : o.max_rx_bytes_per_second ≡ 0

module _ (m : ℕ) where
  passed_in_second :
      (o : SocketObject) (ts : List ℕ)
      → PacketLimit o m
      → Within o.last_rx_time_ms ts
      → o.rx_packets_count + length ts < int_mod
      → packets_passed o ts ≡ min (length ts) (m - o.rx_packets_count)
  unfolding packets_passed count_received_packet is_receive_overflow
  passed_in_second o [] l w c = omega arith
  passed_in_second o (t ∷ ts) l w c = ground (
    arith,
    passed_in_second (record o { rx_packets_count = (o.rx_packets_count + 1) % int_mod }) ts
        (record { positive = l.positive; packets = l.packets; bytes = l.bytes }) w.3 (omega arith),
  )

  -- From a packet on that arrives a second or more after the last count began, a limit of `m` packets
  -- lets through the first `m` packets of the second, and no more.
  pub packets_passed-min :
      (o : SocketObject) (t : ℕ) (ts : List ℕ)
      → PacketLimit o m
      → o.last_rx_time_ms + 1000 ≤ t
      → t < 2 ^ 64
      → Within t ts
      → length ts + 1 < int_mod
      → packets_passed o (t ∷ ts) ≡ min (length ts + 1) m
  unfolding packets_passed count_received_packet is_receive_overflow
  packets_passed-min o t ts l late small w c = ground (
    arith,
    passed_in_second (record o { rx_packets_count = 1; last_rx_time_ms = t }) ts
        (record { positive = l.positive; packets = l.packets; bytes = l.bytes }) w (omega arith),
  )

-- `SetReceivePacketLimit` of a positive number sets that limit, and 0 takes it off.
pub set_receive_packet_limit_lem :
    (o : SocketObject) (m : ℕ)
    → let o' = set_receive_packet_limit o m in
      (o'.f_receive_limit ≡ true → PacketLimit o' m)
      × (o'.f_receive_limit ≡ false → is_receive_overflow o' ≡ false)
unfolding set_receive_packet_limit is_receive_overflow
set_receive_packet_limit_lem o m = (λ e. ground arith, λ e. ground arith)
