-- ===== src/DmPacket/Reading.antt =====
-- `DmPacketRead` of examples/dm_packet.cpp stays inside its buffers and takes what it is given.
use light_server.DmPacket.Shape.{WellFormed, Ready, Whole}
use light_server.DmPacket.Rounds.{
  Advances, reset_packet-WellFormed, reset_packet-Ready, Ready-cases, read_round-stale,
  read_round-Advances,
}
use light_server.Base.{
  ℕ, zero, suc, ◌+◌, ◌*◌, ◌≤◌, ◌<◌, ◌≡◌, ◌⊎◌, inl, inr, Bool, true, false, List, [], ◌∷◌, length,
  drop, arith, length-drop, sym, ap, subst,
}
use light_server.Machine.{Fault, Result, ok, fault}
use light_server.DmPacket.{
  DmPacket, data_pos, reset_packet, Round, more, complete, undefined, read_round, read_loop,
  dm_packet_read,
}

-- Where a call of `DmPacketRead` may end: all of `rx` is taken, or a whole message was met in it.
abbrev pub Ends : List ℕ → ℕ → Result (Bool × DmPacket × ℕ) → Type 0
Ends rx before (ok (true, q, n)) = WellFormed q × Whole q × (before < n) × (n ≤ before + length rx)
Ends rx before (ok (false, q, n)) = WellFormed q × Ready q × (n ≡ before + length rx)
Ends rx before (fault e) = ⊥

Ends-drop :
    (rx : List ℕ) (before n : ℕ) (r : Result (Bool × DmPacket × ℕ))
    → n ≤ length rx
    → Ends (drop n rx) (before + n) r
    → Ends rx before r
Ends-drop rx before n (ok (true, q, m)) h (w, whole, lt, le) =
    (w, whole, omega arith, omega (arith, length-drop n rx))
Ends-drop rx before n (ok (false, q, m)) h (w, ready, e) =
    (w, ready, omega (arith, length-drop n rx))
Ends-drop rx before n (fault _) h e = elim e [ ]

-- The end of a loop whose first round came to `r`.
next-Ends :
    (rounds before : ℕ) (rx : List ℕ)
    → length rx ≤ suc rounds
    → (rest : (q : DmPacket) (rx' : List ℕ) (len before' : ℕ)
        → WellFormed q
        → Ready q
        → length rx' ≤ rounds
        → Ends rx' before' (read_loop rounds q rx' len before'))
    → (r : Round) → Advances rx r
    → Ends rx before (elim r [
      | undefined ↦ fault Fault.undefined_behaviour
      | complete q n ↦ ok (true, q, before + n)
      | more q n ↦ read_loop rounds q (drop n rx) n (before + n)
    ])
next-Ends rounds before rx enough rest (complete q n) (w, whole, pos, le) =
    (w, whole, omega arith, omega arith)
next-Ends rounds before rx enough rest (more q n) (w, ready, pos, le) =
    Ends-drop rx before n _ le
      (rest q (drop n rx) n (before + n) w ready (omega (arith, length-drop n rx)))
next-Ends rounds before rx enough rest undefined e = elim e [ ]

read_loop-Ends :
    (rounds : ℕ) (p : DmPacket) (rx : List ℕ) (len before : ℕ)
    → WellFormed p
    → Ready p
    → length rx ≤ rounds
    → Ends rx before (read_loop rounds p rx len before)
unfolding read_loop
read_loop-Ends rounds p [] len before w ready enough = (w, ready, omega arith)
read_loop-Ends zero p (x ∷ rx) len before w ready enough = absurd (omega arith)
read_loop-Ends (suc rounds) p (x ∷ rx) len before w ready enough =
    next-Ends rounds before (x ∷ rx) enough (read_loop-Ends rounds) (read_round p (x ∷ rx) len)
      (read_round-Advances p (x ∷ rx) len w ready (omega arith))

-- A round that takes nothing.
pub read_loop-again :
    (rounds : ℕ) (p q : DmPacket) (x : ℕ) (rx : List ℕ)
    → read_round p (x ∷ rx) 0 ≡ more q 0
    → read_loop (suc rounds) p (x ∷ rx) 0 0 ≡ read_loop rounds q (x ∷ rx) 0 0
unfolding read_loop
read_loop-again rounds p q x rx e =
    ap
      (λ r. elim r [
        | undefined ↦ fault Fault.undefined_behaviour
        | complete q n ↦ ok (true, q, 0 + n)
        | more q n ↦ read_loop rounds q (drop n (x ∷ rx)) n (0 + n)
      ])
      e

-- A message that is whole is given up in a round of its own.
stale-Ends :
    (p : DmPacket) (x : ℕ) (rx : List ℕ)
    → WellFormed p
    → data_pos ≤ p.pos
    → p.remain_len ≡ 0
    → Ends (x ∷ rx) 0 (dm_packet_read p (x ∷ rx))
unfolding dm_packet_read
stale-Ends p x rx w passed none_left =
    let given_up : read_loop (suc (2 * length (x ∷ rx))) p (x ∷ rx) 0 0
        ≡ read_loop (2 * length (x ∷ rx)) (reset_packet p) (x ∷ rx) 0 0 =
      read_loop-again (2 * length (x ∷ rx)) p (reset_packet p) x rx
        (read_round-stale p (x ∷ rx) passed none_left) in
    subst (λ r. Ends (x ∷ rx) 0 r) (sym given_up)
      (read_loop-Ends (2 * length (x ∷ rx)) (reset_packet p) (x ∷ rx) 0 0
        (reset_packet-WellFormed p w.header_room) (reset_packet-Ready p) (omega arith))

-- `DmPacketRead` on a well-formed packet and any bytes returns within its rounds, and neither reads
-- nor writes outside a buffer; for no bytes, the packet's message must not be whole yet. It says
-- false only after it took every byte, and leaves a packet that can go on; it says true only with a
-- message in the packet that is whole, of the length that it announced, and that `IsDmPacketValid`
-- accepts, and counts at least one byte and no more than were given. In both cases the packet is well
-- formed.
pub dm_packet_read-Ends :
    (p : DmPacket) (rx : List ℕ)
    → WellFormed p
    → Ready p ⊎ (0 < length rx)
    → Ends rx 0 (dm_packet_read p rx)
unfolding dm_packet_read
dm_packet_read-Ends p rx w (inl ready) =
    read_loop-Ends (suc (2 * length rx)) p rx 0 0 w ready (omega arith)
dm_packet_read-Ends p [] w (inr given) = absurd (omega arith)
dm_packet_read-Ends p (x ∷ rx) w (inr given) = elim (Ready-cases p) [
  | inl ready ↦ read_loop-Ends (suc (2 * length (x ∷ rx))) p (x ∷ rx) 0 0 w ready (omega arith)
  | inr (passed, none_left) ↦ stale-Ends p x rx w passed none_left
]
