-- ===== src/DmPacket.antt =====
-- examples/dm_packet.h and dm_packet.cpp: messages "[DM-" length data crc "-NR]", put together from
-- the pieces in which they come.
pub mod Shape
pub mod Rounds
pub mod Reading
pub mod Message
pub mod Splitting
pub mod Looping
pub mod Pieces
pub mod Stream
pub mod Framing
use light_server.Base.{
  ℕ, zero, suc, ◌+◌, ◌-◌, ◌*◌, Bool, true, false, not, ◌&&◌, Option, none, some, List, [], ◌∷◌,
  ◌++◌, min, ltb, leb, ◌==◌, if◌then◌else◌, length, take, drop,
}
pub use light_server.Common.Memory.{slice, write_at, le32}
use light_server.Machine.{Fault, Result, ok, fault}
use light_server.Crc.{calculate_stm32_crc}

-- PKG_HEADER_SIZE, PKG_DATA_POS, kMaxOfMsgSize
abbrev pub header_size : ℕ
header_size = 4

abbrev pub data_pos : ℕ
data_pos = 8

abbrev pub max_of_msg_size : ℕ
max_of_msg_size = 8 * 1024 * 1024

-- kMsgHeader, kMsgTail
abbrev pub msg_header : List ℕ
msg_header = b'[' ∷ b'D' ∷ b'M' ∷ b'-' ∷ []

abbrev pub msg_tail : List ℕ
msg_tail = b'-' ∷ b'N' ∷ b'R' ∷ b']' ∷ []

pub record DmPacket : Type 0 where
  pub header_buf : List ℕ
  pub p_buf : Option (List ℕ)
  pub pos : ℕ
  pub len : ℕ
  pub remain_len : ℕ

-- The constructor, over what `header_buf_` holds.
unfoldable pub empty_packet : List ℕ → DmPacket
empty_packet memory = record { header_buf = memory; p_buf = none; pos = 0; len = 0; remain_len = 0 }

-- `Reset`
unfoldable pub reset_packet : DmPacket → DmPacket
reset_packet p = record p { pos = 0; len = 0; remain_len = 0; p_buf = none }

abbrev pub same_bytes : List ℕ → List ℕ → Bool
same_bytes [] [] = true
same_bytes (a ∷ as') (b ∷ bs) = a == b && same_bytes as' bs
same_bytes _ _ = false

-- `p + (n - k)`: before the start of `p` it is undefined.
abbrev pub back : ℕ → ℕ → Option ℕ
back n k = if leb k n then some (n - k) else none

infixl 5 ◌>>=◌
abbrev ◌>>=◌ {ℓ κ} : {A : Type ℓ} {B : Type κ} → Option A → (A → Option B) → Option B
none >>= f = none
some a >>= f = f a

-- The tests of `IsDmPacketValid` behind that of the length.
unfoldable pub is_tail_valid : List ℕ → ℕ → Option Bool
is_tail_valid buf msg_len = do
  tail_at ← back msg_len 4
  tail ← slice buf tail_at 4
  if not (same_bytes tail msg_tail) then some false else (do
    crc_at ← back msg_len 8
    crc ← slice buf crc_at 4
    actual ← calculate_stm32_crc buf crc_at
    some (le32 crc == actual))

unfoldable pub is_dm_packet_valid : List ℕ → ℕ → Option Bool
is_dm_packet_valid buf msg_len = do
  header ← slice buf 0 4
  if not (same_bytes header msg_header) then some false else (do
    actual_len ← slice buf 4 4
    if not (le32 actual_len == msg_len) then some false else is_tail_valid buf msg_len)

-- What one round of `DmPacketRead` comes to: a whole valid packet, or more to read; with `len`.
pub data Round : Type 0 where
  complete : DmPacket → ℕ → Round
  more : DmPacket → ℕ → Round
  undefined : Round

abbrev pub or_undefined {ℓ} : {A : Type ℓ} → Option A → (A → Round) → Round
or_undefined none f = undefined
or_undefined (some a) f = f a

-- `new char[n]`: what it holds is written before it is read.
abbrev pub new_bytes : ℕ → List ℕ
new_bytes zero = []
new_bytes (suc n) = 0 ∷ new_bytes n

-- The branch for the four bytes of the header.
unfoldable pub read_header : DmPacket → List ℕ → Round
unfolding reset_packet
read_header p rx =
    let n = min (header_size - p.pos) (length rx) in
    or_undefined (write_at p.header_buf p.pos (take n rx)) λ h.
      let q : DmPacket = record p { header_buf = h; pos = p.pos + n } in
      if leb header_size q.pos && not (same_bytes (take 4 h) msg_header)
      then more (reset_packet q) n
      else more q n

-- The length is there: room for the message, or back to the start.
abbrev pub accept_length : DmPacket → ℕ → ℕ → Round
accept_length q msg_len n =
    if leb 16 msg_len && ltb msg_len max_of_msg_size
    then or_undefined (slice q.header_buf 0 data_pos) (λ h.
      or_undefined (write_at (new_bytes msg_len) 0 h)
        (λ b. more (record q { p_buf = some b; len = msg_len; remain_len = msg_len - data_pos }) n))
    else more (reset_packet q) n

-- The branch for the four bytes of the length.
unfoldable pub read_length : DmPacket → List ℕ → Round
unfolding reset_packet
read_length p rx =
    let n = min (data_pos - p.pos) (length rx) in
    or_undefined (write_at p.header_buf p.pos (take n rx)) λ h.
      let q : DmPacket = record p { header_buf = h; pos = p.pos + n } in
      if q.pos == data_pos
      then or_undefined (slice h 4 4) (λ l. accept_length q (le32 l) n)
      else more q n

-- The message is whole: kept if it is valid, dropped if not.
abbrev pub check_message : DmPacket → List ℕ → ℕ → Round
check_message q b n =
    or_undefined (is_dm_packet_valid b q.len)
      λ valid. if valid then complete q n else more (reset_packet q) n

-- The branch for the rest of the message.
unfoldable pub read_body : DmPacket → List ℕ → Round
unfolding reset_packet
read_body p rx =
    let n = min p.remain_len (length rx) in
    or_undefined p.p_buf λ buf. or_undefined (write_at buf p.pos (take n rx)) λ b.
      let q : DmPacket = record p {
        p_buf = some b;
        pos = p.pos + n;
        remain_len = p.remain_len - n;
      } in
      if q.remain_len == 0 then check_message q b n else more q n

unfoldable pub read_round : DmPacket → List ℕ → ℕ → Round
unfolding reset_packet
read_round p rx len =
    if ltb p.pos header_size
    then read_header p rx
    else if ltb p.pos data_pos
    then read_length p rx
    else if not (p.remain_len == 0)
    then read_body p rx
    else more (reset_packet p) len

-- `while (rx_len > 0)`; `len` is that of the round before, and `done` is `*b_r_len`.
unfoldable pub read_loop : ℕ → DmPacket → List ℕ → ℕ → ℕ → Result (Bool × DmPacket × ℕ)
read_loop rounds p [] len done = ok (false, p, done)
read_loop zero p (x ∷ rx) len done = fault Fault.out_of_rounds
read_loop (suc rounds) p (x ∷ rx) len done = elim (read_round p (x ∷ rx) len) [
  | undefined ↦ fault Fault.undefined_behaviour
  | complete q n ↦ ok (true, q, done + n)
  | more q n ↦ read_loop rounds q (drop n (x ∷ rx)) n (done + n)
]

-- `DmPacketRead`: a round takes a byte or is followed by one that does.
unfoldable pub dm_packet_read : DmPacket → List ℕ → Result (Bool × DmPacket × ℕ)
dm_packet_read p buf = read_loop (suc (2 * length buf)) p buf 0 0
