-- ===== src/SocketObject/ByteLimit.antt =====
-- The receive limit in bytes: what `CountReceivedBytes` and `IsReceiveOverflow` of
-- socket_manager/socket_object.h let through in a second.
use light_server.Base.{
  ℕ, ◌+◌, ◌-◌, ◌%◌, ◌^◌, ◌≤◌, ◌<◌, ◌≡◌, List, [], ◌∷◌, leb, if◌then◌else◌, arith, Bool-cases, inl,
  inr, refl,
}
use light_server.Common.{int_mod}
use light_server.SocketObject.{
  SocketObject, count_received_bytes, is_receive_overflow, set_receive_bytes_limit,
}

-- How many bytes are handed on, of reads that end at these times with so many bytes: one count and
-- one test for each read.
pub bytes_passed : SocketObject → List (ℕ × ℕ) → ℕ
bytes_passed o [] = 0
bytes_passed o ((t, n) ∷ reads) =
    let o' = count_received_bytes o n t in
    let rest = bytes_passed o' reads in if is_receive_overflow o' then rest else n + rest

-- The bytes of the reads up to the first one that is more than what is left of `room`.
abbrev pub first_bytes : ℕ → List (ℕ × ℕ) → ℕ
first_bytes room [] = 0
first_bytes room ((t, n) ∷ reads) =
    let rest = first_bytes (room - n) reads in if leb n room then n + rest else 0

abbrev pub all_bytes : List (ℕ × ℕ) → ℕ
all_bytes [] = 0
all_bytes ((t, n) ∷ reads) = n + all_bytes reads

-- Reads in the second that begins at `start`.
abbrev pub Within : ℕ → List (ℕ × ℕ) → Type 0
Within start [] = Unit {0}
Within start ((t, n) ∷ reads) = (start ≤ t) × (t < start + 1000) × (t < 2 ^ 64) × Within start reads

-- The object has a limit of `m` bytes.
pub record ByteLimit (o : SocketObject) (m : ℕ) : Type 0 where
  pub positive : 0 < m
  pub packets : o.max_rx_packets_per_second ≡ 0
  pub bytes : o.max_rx_bytes_per_second ≡ m

first_bytes_at_most : (room : ℕ) (reads : List (ℕ × ℕ)) → first_bytes room reads ≤ room
first_bytes_at_most room [] = omega arith
first_bytes_at_most room ((t, n) ∷ reads) = ground (arith, first_bytes_at_most (room - n) reads)

module _ (m : ℕ) where
  -- Once the limit is passed, nothing is handed on for the rest of the second.
  none_passed :
      (o : SocketObject) (reads : List (ℕ × ℕ))
      → ByteLimit o m
      → Within o.last_rx_time_ms reads
      → m < o.rx_bytes_count
      → o.rx_bytes_count + all_bytes reads < int_mod
      → bytes_passed o reads ≡ 0
  unfolding bytes_passed count_received_bytes is_receive_overflow
  none_passed o [] l w over small = refl
  none_passed o ((t, n) ∷ reads) l w over small = ground (
    arith,
    none_passed (record o { rx_bytes_count = (o.rx_bytes_count + n) % int_mod }) reads
        (record { positive = l.positive; packets = l.packets; bytes = l.bytes }) w.3 (omega arith)
        (omega arith),
  )

  passed_in_second :
      (o : SocketObject) (reads : List (ℕ × ℕ))
      → ByteLimit o m
      → Within o.last_rx_time_ms reads
      → o.rx_bytes_count ≤ m
      → o.rx_bytes_count + all_bytes reads < int_mod
      → bytes_passed o reads ≡ first_bytes (m - o.rx_bytes_count) reads
  unfolding bytes_passed count_received_bytes is_receive_overflow
  passed_in_second o [] l w below small = refl
  passed_in_second o ((t, n) ∷ reads) l w below small =
      let next = record o { rx_bytes_count = (o.rx_bytes_count + n) % int_mod } in
      let limit : ByteLimit next m = record {
        positive = l.positive;
        packets = l.packets;
        bytes = l.bytes;
      } in
      elim (Bool-cases (leb n (m - o.rx_bytes_count))) [
        | inl fits ↦
            ground (arith, passed_in_second next reads limit w.3 (ground arith) (omega arith))
        | inr over ↦ ground (arith, none_passed next reads limit w.3 (ground arith) (omega arith))
      ]

  -- From a read on that comes a second or more after the last count began, a limit of `m` bytes lets
  -- through the reads of the second up to the first one with which there are more than `m` bytes, and
  -- none behind it: never more than `m` bytes.
  pub bytes_passed-first_bytes :
      (o : SocketObject) (t n : ℕ) (reads : List (ℕ × ℕ))
      → ByteLimit o m
      → o.last_rx_time_ms + 1000 ≤ t
      → t < 2 ^ 64
      → Within t reads
      → n + all_bytes reads < int_mod
      → (bytes_passed o ((t, n) ∷ reads) ≡ first_bytes m ((t, n) ∷ reads))
        × (bytes_passed o ((t, n) ∷ reads) ≤ m)
  unfolding bytes_passed count_received_bytes is_receive_overflow
  bytes_passed-first_bytes o t n reads l late big w small =
      let next = record o { rx_bytes_count = n; last_rx_time_ms = t } in
      let limit : ByteLimit next m = record {
        positive = l.positive;
        packets = l.packets;
        bytes = l.bytes;
      } in
      let exact : bytes_passed o ((t, n) ∷ reads) ≡ first_bytes m ((t, n) ∷ reads) =
        elim (Bool-cases (leb n m)) [
          | inl fits ↦ ground (arith, passed_in_second next reads limit w (ground arith) small)
          | inr over ↦ ground (arith, none_passed next reads limit w (ground arith) small)
        ] in
      (exact, omega (arith, exact, first_bytes_at_most m ((t, n) ∷ reads)))

-- `SetReceiveBytesLimit` of a positive number sets that limit.
pub set_receive_bytes_limit-ByteLimit :
    (o : SocketObject) (m : ℕ) → 0 < m → ByteLimit (set_receive_bytes_limit o m) m
unfolding set_receive_bytes_limit
set_receive_bytes_limit-ByteLimit o m positive = record {
  positive = positive;
  packets = refl;
  bytes = ground arith;
}
