-- ===== src/DmPacket/Framing.antt =====
-- What a receiver of the messages of examples/dm_packet.cpp gets from a stream, however it is cut.
use mathlib.Core.List.{flatten}
use light_server.Base.{
  ℕ, zero, suc, ◌*◌, ◌≤◌, ◌<◌, ◌≡◌, refl, ◌⊎◌, inl, inr, true, false, Option, none, some, List, [],
  ◌∷◌, ◌++◌, length, drop, arith, length-append, drop-length_append, sym, ap, subst, ◌∙◌,
}
use light_server.Machine.{ok, fault}
use light_server.DmPacket.{
  DmPacket, data_pos, max_of_msg_size, reset_packet, is_dm_packet_valid, dm_packet_read,
}
use light_server.DmPacket.Shape.{WellFormed}
use light_server.DmPacket.Rounds.{reset_packet-WellFormed, reset_packet-Ready, read_round-stale}
use light_server.DmPacket.Reading.{Ends, dm_packet_read-Ends, read_loop-again}
use light_server.DmPacket.Message.{dm_packet_read-Message}
use light_server.DmPacket.Looping.{Outcome, read_loop-same}
use light_server.DmPacket.Stream.{
  Received, with_message, found, collect, receive_piece, prepend, go_on_with, receive,
  collect-append, collect-nil,
}

-- The packet that is left is well formed.
abbrev Leaves : Received → Type 0
Leaves (ok (ms, q)) = WellFormed q
Leaves (fault e) = Unit {0}

with_message-Leaves : (o : Option (List ℕ)) (r : Received) → Leaves r → Leaves (with_message o r)
with_message-Leaves none r h = tt
with_message-Leaves (some m) (ok (ms, q)) h = h
with_message-Leaves (some m) (fault e) h = h

found-Leaves :
    (rx : List ℕ) (r : Outcome) (rest : DmPacket → ℕ → Received)
    → Ends rx 0 r
    → ((q : DmPacket) (n : ℕ) → WellFormed q → Leaves (rest q n))
    → Leaves (found r rest)
found-Leaves rx (ok (true, q, n)) rest (w, _, _, _) h =
    with_message-Leaves q.p_buf (rest q n) (h q n w)
found-Leaves rx (ok (false, q, n)) rest (w, _, _) h = w
found-Leaves rx (fault e) rest ends h = tt

collect-Leaves :
    (rounds : ℕ) (p : DmPacket) (rx : List ℕ) → WellFormed p → Leaves (collect rounds p rx)
unfolding collect
collect-Leaves zero p [] w = w
collect-Leaves (suc rounds) p [] w = w
collect-Leaves zero p (x ∷ rx) w = tt
collect-Leaves (suc rounds) p (x ∷ rx) w =
    found-Leaves (x ∷ rx) (dm_packet_read p (x ∷ rx)) _
      (dm_packet_read-Ends p (x ∷ rx) w (inr (omega arith)))
      (λ q n wq. collect-Leaves rounds q (drop n (x ∷ rx)) wq)

go_on_with-same :
    (r : Received) (f g : DmPacket → Received)
    → Leaves r
    → ((q : DmPacket) → WellFormed q → f q ≡ g q)
    → go_on_with r f ≡ go_on_with r g
go_on_with-same (ok (ms, q)) f g w same = ap (prepend ms) (same q w)
go_on_with-same (fault e) f g w same = refl

-- However a stream is cut, the receiver gets the same messages from its pieces as from all of it at
-- once, and the packet behind them is the same.
pub receive-flatten :
    (p : DmPacket) (pieces : List (List ℕ))
    → WellFormed p
    → receive p pieces ≡ receive_piece p (flatten pieces)
unfolding receive receive_piece flatten
receive-flatten p [] w = sym (collect-nil 0 p)
receive-flatten p (a ∷ pieces) w =
    go_on_with-same (receive_piece p a) (λ q. receive q pieces)
      (λ q. collect (length (flatten pieces)) q (flatten pieces)) (collect-Leaves (length a) p a w)
      (λ q wq. receive-flatten q pieces wq)
    ∙ sym (
        collect-append (length (a ++ flatten pieces)) (length a) (length (flatten pieces)) p a
          (flatten pieces) w (omega arith) (omega arith) (omega arith))

-- Between two messages: at the start, or behind a whole message that is still held.
abbrev pub AtStart : DmPacket → Type 0
AtStart p = (p.pos ≡ 0) ⊎ ((data_pos ≤ p.pos) × (p.remain_len ≡ 0))

abbrev pub IsMessage : List ℕ → Type 0
IsMessage m =
    (16 ≤ length m) × (length m < max_of_msg_size) × (is_dm_packet_valid m (length m) ≡ some true)

abbrev pub AllMessages : List (List ℕ) → Type 0
AllMessages [] = Unit {0}
AllMessages (m ∷ ms) = IsMessage m × AllMessages ms

read_stale :
    (p : DmPacket) (x : ℕ) (rx : List ℕ)
    → WellFormed p
    → data_pos ≤ p.pos
    → p.remain_len ≡ 0
    → dm_packet_read p (x ∷ rx) ≡ dm_packet_read (reset_packet p) (x ∷ rx)
unfolding dm_packet_read
read_stale p x rx w passed none_left =
    read_loop-again (2 * length (x ∷ rx)) p (reset_packet p) x rx
      (read_round-stale p (x ∷ rx) passed none_left)
    ∙ read_loop-same (2 * length (x ∷ rx)) (suc (2 * length (x ∷ rx))) (reset_packet p) (x ∷ rx) 0 0
        0 (reset_packet-WellFormed p w.header_room) (reset_packet-Ready p) (omega arith)
        (omega arith)

read_message :
    (p : DmPacket) (m rest : List ℕ)
    → WellFormed p
    → AtStart p
    → IsMessage m
    → (q : DmPacket) × (dm_packet_read p (m ++ rest) ≡ ok (true, q, length m))
      × (q.p_buf ≡ some m)
      × (q.remain_len ≡ 0)
unfolding reset_packet
read_message p m rest w (inl start) (least, most, valid) =
    let (q, runs, held, _, left) =
      dm_packet_read-Message p m rest w.header_room start least most valid in
    (q, runs, held, left)
read_message p (x ∷ m) rest w (inr (passed, none_left)) (least, most, valid) =
    let (q, runs, held, _, left) =
      dm_packet_read-Message (reset_packet p) (x ∷ m) rest w.header_room refl least most valid in
    (q, read_stale p x (m ++ rest) w passed none_left ∙ runs, held, left)
read_message p [] rest w (inr start) (least, most, valid) = absurd (omega arith)

-- A packet that holds a whole message is behind it.
AtStart-behind :
    (q : DmPacket) (m : List ℕ) → WellFormed q → q.p_buf ≡ some m → q.remain_len ≡ 0 → AtStart q
AtStart-behind q m w held none_left = elim w.stage [
  | inl v ↦ absurd (ground (arith, v.no_buf))
  | inr o ↦ inr (o.started, none_left)
]

Ends-WellFormed : (rx : List ℕ) (q : DmPacket) (n : ℕ) → Ends rx 0 (ok (true, q, n)) → WellFormed q
Ends-WellFormed rx q n (w, _, _, _) = w

found-message :
    (r : Outcome) (q : DmPacket) (m : List ℕ) (n : ℕ) (rest : DmPacket → ℕ → Received)
    (ms : List (List ℕ)) (q' : DmPacket)
    → r ≡ ok (true, q, n)
    → q.p_buf ≡ some m
    → rest q n ≡ ok (ms, q')
    → found r rest ≡ ok (m ∷ ms, q')
found-message r q m n rest ms q' runs held next =
    ap (λ o. found o rest) runs
    ∙ ap (λ b. with_message b (rest q n)) held
    ∙ ap (with_message (some m)) next

messages_collected :
    (ms : List (List ℕ)) (rounds : ℕ) (p : DmPacket)
    → WellFormed p
    → AtStart p
    → AllMessages ms
    → length (flatten ms) ≤ rounds
    → (q : DmPacket) × (collect rounds p (flatten ms) ≡ ok (ms, q))
unfolding flatten collect
messages_collected [] rounds p w start all enough = (p, collect-nil rounds p)
messages_collected ([] ∷ ms) rounds p w start (m_valid, all) enough = absurd (omega arith)
messages_collected ((x ∷ m) ∷ ms) zero p w start all enough = absurd (omega arith)
messages_collected ((x ∷ m) ∷ ms) (suc rounds) p w start (m_valid, all) enough =
    let stream = flatten ms in
    let (q, runs, held, left) = read_message p (x ∷ m) stream w start m_valid in
    let wq = Ends-WellFormed (x ∷ (m ++ stream)) q (length (x ∷ m)) (
      subst (Ends (x ∷ (m ++ stream)) 0) runs
        (dm_packet_read-Ends p (x ∷ (m ++ stream)) w (inr (omega arith)))) in
    let (q', rest) =
      messages_collected ms rounds q wq (AtStart-behind q (x ∷ m) wq held left) all
        (omega (arith, length-append m stream)) in
    (
      q',
      found-message (dm_packet_read p (x ∷ (m ++ stream))) q (x ∷ m) (length (x ∷ m)) _ ms q' runs
          held (ap (collect rounds q) (drop-length_append (x ∷ m) stream) ∙ rest),
    )

-- A stream of messages that `IsDmPacketValid` accepts, of lengths in the bounds, is received whole,
-- however it is cut into pieces: a receiver that calls `DmPacketRead` for each piece, and again for what
-- stands behind a message, with a well-formed packet that is at its start or behind a message, gets
-- exactly these messages, in order.
pub receive-messages :
    (p : DmPacket) (ms pieces : List (List ℕ))
    → WellFormed p
    → AtStart p
    → AllMessages ms
    → flatten pieces ≡ flatten ms
    → (q : DmPacket) × (receive p pieces ≡ ok (ms, q))
unfolding receive_piece
receive-messages p ms pieces w start all same =
    let (q, runs) = messages_collected ms (length (flatten ms)) p w start all (omega arith) in
    (q, receive-flatten p pieces w ∙ ap (receive_piece p) same ∙ runs)
