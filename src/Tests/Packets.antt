-- ===== src/Tests/Packets.antt =====
-- The theorems on DmPacket at a message of sixteen bytes, "[DM-" 16 crc "-NR]".
use mathlib.Core.List.{flatten}
use light_server.Base.{
  take, drop, ℕ, get_or, ◌*◌, ◌^◌, ◌≡◌, refl, inl, true, some, List, [], ◌∷◌, ◌++◌, arith,
}
use light_server.Machine.{ok}
use light_server.Crc.{crc32_table, crc_byte, crc_loop, get_stm32_crc, calculate_stm32_crc}
use light_server.Crc.Table.{divide_bits, crc32_table-divide_bits}
use light_server.Crc.Message.{divide_message, calculate_stm32_crc-divide_message}
use light_server.DmPacket.{
  DmPacket, empty_packet, is_tail_valid, is_dm_packet_valid, dm_packet_read,
}
use light_server.DmPacket.Shape.{WellFormed}
use light_server.DmPacket.Reading.{Ends, dm_packet_read-Ends}
use light_server.DmPacket.Stream.{receive, receive_piece}
use light_server.DmPacket.Framing.{receive-flatten, receive-messages}
use light_server.DmPacket.Message.{dm_packet_read-Message}

abbrev shortest : List ℕ
shortest =
    b'[' ∷ b'D' ∷ b'M' ∷ b'-' ∷ 16 ∷ 0 ∷ 0 ∷ 0 ∷ 31 ∷ 142 ∷ 183 ∷ 173 ∷ b'-' ∷ b'N' ∷ b'R' ∷ b']'
    ∷ []

abbrev fresh_packet : DmPacket
fresh_packet = empty_packet (0 ∷ 0 ∷ 0 ∷ 0 ∷ 0 ∷ 0 ∷ 0 ∷ 0 ∷ [])

shortest_valid : is_dm_packet_valid shortest 16 ≡ some true
unfolding is_dm_packet_valid is_tail_valid calculate_stm32_crc get_stm32_crc crc_loop crc_byte
shortest_valid = refl

fresh_packet-WellFormed : WellFormed fresh_packet
unfolding empty_packet
fresh_packet-WellFormed = record {
  header_room = refl;
  stage = inl (record { before = omega arith; no_buf = refl; no_rest = refl });
}

dm_packet_read-Ends_example : Ends (7 ∷ 8 ∷ []) 0 (dm_packet_read fresh_packet (7 ∷ 8 ∷ []))
unfolding empty_packet
dm_packet_read-Ends_example =
    dm_packet_read-Ends fresh_packet (7 ∷ 8 ∷ []) fresh_packet-WellFormed (inl (inl (omega arith)))

dm_packet_read-Message_example :
    (q : DmPacket) × (dm_packet_read fresh_packet (shortest ++ (1 ∷ [])) ≡ ok (true, q, 16))
    × (q.p_buf ≡ some shortest)
    × (q.len ≡ 16)
    × (q.remain_len ≡ 0)
unfolding empty_packet
dm_packet_read-Message_example =
    dm_packet_read-Message fresh_packet shortest (1 ∷ []) refl refl (omega arith) (omega arith)
      shortest_valid

crc32_table-divide_bits_example : get_or crc32_table 3 0 ≡ divide_bits 8 (3 * 2 ^ 24)
crc32_table-divide_bits_example = crc32_table-divide_bits 3 (omega arith)

calculate_stm32_crc-divide_message_example :
    calculate_stm32_crc (1 ∷ 2 ∷ 3 ∷ 4 ∷ 5 ∷ 6 ∷ []) 6
    ≡ some (divide_message 0xffffffff (4 ∷ 3 ∷ 2 ∷ 1 ∷ 0 ∷ 0 ∷ 6 ∷ 5 ∷ []))
calculate_stm32_crc-divide_message_example =
    calculate_stm32_crc-divide_message (1 ∷ 2 ∷ 3 ∷ 4 ∷ 5 ∷ 6 ∷ []) 6 (omega arith)
      (omega arith, (omega arith, (omega arith, (omega arith, (omega arith, (omega arith, tt))))))

-- The message twice, in three pieces.
abbrev cut_stream : List (List ℕ)
cut_stream = take 6 shortest ∷ (drop 6 shortest ++ take 3 shortest) ∷ drop 3 shortest ∷ []

receive-messages_example :
    (q : DmPacket) × (receive fresh_packet cut_stream ≡ ok (shortest ∷ shortest ∷ [], q))
unfolding flatten empty_packet
receive-messages_example =
    receive-messages fresh_packet (shortest ∷ shortest ∷ []) cut_stream fresh_packet-WellFormed
      (inl refl)
      ((omega arith, omega arith, shortest_valid), ((omega arith, omega arith, shortest_valid), tt))
      refl

receive-flatten_example :
    receive fresh_packet ((7 ∷ 8 ∷ []) ∷ cut_stream)
    ≡ receive_piece fresh_packet (flatten ((7 ∷ 8 ∷ []) ∷ cut_stream))
receive-flatten_example =
    receive-flatten fresh_packet ((7 ∷ 8 ∷ []) ∷ cut_stream) fresh_packet-WellFormed
