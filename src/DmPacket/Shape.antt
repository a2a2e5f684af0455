-- ===== src/DmPacket/Shape.antt =====
-- What holds of a `DmPacket` of examples/dm_packet.h between two calls, and which accesses of
-- dm_packet.cpp stay inside their buffers.
use light_server.Base.{
  ℕ, zero, suc, ◌+◌, ◌-◌, ◌≤◌, ◌<◌, ◌≡◌, refl, ◌⊎◌, Bool, true, false, not, none, some, List, ◌==◌,
  if◌then◌else◌, length, take, drop, arith,
}
pub use light_server.Common.Memory.{slice-some, write_at-some}
use light_server.Crc.Laws.{calculate_stm32_crc-some}
use light_server.DmPacket.{
  DmPacket, data_pos, max_of_msg_size, msg_header, msg_tail, same_bytes, new_bytes, is_tail_valid,
  is_dm_packet_valid, le32,
}

-- The buffer of a message whose length is known: it has room for it, and what is missing is the rest.
pub record Open (p : DmPacket) : Type 0 where
  pub buf : List ℕ
  pub at_buf : p.p_buf ≡ some buf
  pub room : length buf ≡ p.len
  pub rest : p.pos + p.remain_len ≡ p.len
  pub started : data_pos ≤ p.pos
  pub least : 16 ≤ p.len
  pub most : p.len < max_of_msg_size

-- The first eight bytes are still missing, and no buffer is held.
pub record Waiting (p : DmPacket) : Type 0 where
  pub before : p.pos < data_pos
  pub no_buf : p.p_buf ≡ none
  pub no_rest : p.remain_len ≡ 0

pub record WellFormed (p : DmPacket) : Type 0 where
  pub header_room : length p.header_buf ≡ 8
  pub stage : Waiting p ⊎ Open p

-- A packet that can take a byte: its message is not whole.
abbrev pub Ready : DmPacket → Type 0
Ready p = (p.pos < data_pos) ⊎ (0 < p.remain_len)

-- All of the message is there, and it passes the test of `IsDmPacketValid`.
pub record Whole (p : DmPacket) : Type 0 where
  pub message : List ℕ
  pub held : p.p_buf ≡ some message
  pub exact : length message ≡ p.len
  pub valid : is_dm_packet_valid message p.len ≡ some true

pub length-new_bytes : (n : ℕ) → length (new_bytes n) ≡ n
length-new_bytes zero = refl
length-new_bytes (suc n) = omega (arith, length-new_bytes n)

is_tail_valid-some :
    (buf : List ℕ) (n : ℕ) → 16 ≤ n → n ≤ length buf → (b : Bool) × (is_tail_valid buf n ≡ some b)
unfolding is_tail_valid
is_tail_valid-some buf n h room =
    let (crc, runs) = calculate_stm32_crc-some buf (n - 8) (omega arith) in
    (
      if not (same_bytes (take 4 (drop (n - 4) buf)) msg_tail)
          then false
          else (le32 (take 4 (drop (n - 8) buf)) == crc),
      ground (arith, runs),
    )

pub is_dm_packet_valid-some :
    (buf : List ℕ) (n : ℕ)
    → 16 ≤ n
    → n ≤ length buf
    → (b : Bool) × (is_dm_packet_valid buf n ≡ some b)
unfolding is_dm_packet_valid
is_dm_packet_valid-some buf n h room =
    let (tail, runs) = is_tail_valid-some buf n h room in
    (
      if not (same_bytes (take 4 buf) msg_header)
          then false
          else (if not (le32 (take 4 (drop 4 buf)) == n) then false else tail),
      ground (arith, runs),
    )
