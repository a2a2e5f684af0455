-- ===== src/DmPacket/Pieces.antt =====
-- `DmPacketRead` of examples/dm_packet.cpp does not see how a stream is cut into pieces.

use light_server.Base.{
  ℕ, suc, ◌*◌, ◌<◌, ◌≡◌, refl, ◌⊎◌, inl, inr, true, false, List, [], ◌∷◌, ◌++◌, length, arith, sym,
  ap, ◌∙◌,
}
use light_server.Machine.{ok, fault}
use light_server.DmPacket.{DmPacket, reset_packet, read_loop, dm_packet_read}
use light_server.DmPacket.Shape.{WellFormed, Ready}
use light_server.DmPacket.Rounds.{
  reset_packet-WellFormed, reset_packet-Ready, Ready-cases, read_round-stale,
}
use light_server.DmPacket.Reading.{Ends, dm_packet_read-Ends, read_loop-again}
use light_server.DmPacket.Looping.{
  Outcome, go_on, behind, read_loop-append, read_loop-behind, read_loop-same,
}

-- One call behind the other.
abbrev pub then_read : List ℕ → DmPacket → ℕ → Outcome
then_read b q n = behind n (dm_packet_read q b)

go_on-same :
    (rx : List ℕ) (r : Outcome) (f g : DmPacket → ℕ → Outcome)
    → Ends rx 0 r
    → ((q : DmPacket) (n : ℕ) → WellFormed q → Ready q → f q n ≡ g q n)
    → go_on r f ≡ go_on r g
go_on-same rx (ok (true, q, n)) f g ends same = refl
go_on-same rx (ok (false, q, n)) f g (w, ready, _) same = same q n w ready
go_on-same rx (fault e) f g ends same = refl

restart :
    (b : List ℕ) (q : DmPacket) (n : ℕ)
    → WellFormed q
    → Ready q
    → read_loop (length b) q b 0 n ≡ then_read b q n
unfolding dm_packet_read
restart b q n w ready =
    ap (λ m. read_loop (length b) q b 0 m) (omega arith)
    ∙ read_loop-behind n (length b) q b 0 0
    ∙ ap (behind n) (
        read_loop-same (length b) (suc (2 * length b)) q b 0 0 0 w ready (omega arith)
          (omega arith))

append-Ready :
    (p : DmPacket) (a b : List ℕ)
    → WellFormed p
    → Ready p
    → dm_packet_read p (a ++ b) ≡ go_on (dm_packet_read p a) (then_read b)
unfolding dm_packet_read
append-Ready p a b w ready =
    read_loop-append (suc (2 * length (a ++ b))) (suc (2 * length a)) p a b 0 0 w ready
      (omega arith) (omega arith)
    ∙ go_on-same a (dm_packet_read p a) _ _ (dm_packet_read-Ends p a w (inl ready)) (restart b)

-- The second call goes on where the first one stopped.
pub dm_packet_read-append :
    (p : DmPacket) (a b : List ℕ)
    → WellFormed p
    → Ready p ⊎ (0 < length a)
    → dm_packet_read p (a ++ b) ≡ go_on (dm_packet_read p a) (then_read b)
unfolding dm_packet_read
dm_packet_read-append p a b w (inl ready) = append-Ready p a b w ready
dm_packet_read-append p [] b w (inr given) = absurd (omega arith)
dm_packet_read-append p (x ∷ a) b w (inr given) = elim (Ready-cases p) [
  | inl ready ↦ append-Ready p (x ∷ a) b w ready
  | inr (passed, none_left) ↦
      let q = reset_packet p in
      let wq = reset_packet-WellFormed p w.header_room in
      let rq = reset_packet-Ready p in
      read_loop-again (2 * length (x ∷ (a ++ b))) p q x (a ++ b)
        (read_round-stale p (x ∷ (a ++ b)) passed none_left)
      ∙ read_loop-append (2 * length (x ∷ (a ++ b))) (2 * length (x ∷ a)) q (x ∷ a) b 0 0 wq rq
          (omega arith) (omega arith)
      ∙ ap (λ r. go_on r (λ q n. read_loop (length b) q b 0 n))
          (sym (
            read_loop-again (2 * length (x ∷ a)) p q x a
              (read_round-stale p (x ∷ a) passed none_left)))
      ∙ go_on-same (x ∷ a) (dm_packet_read p (x ∷ a)) _ _
          (dm_packet_read-Ends p (x ∷ a) w (inr given)) (restart b)
]
