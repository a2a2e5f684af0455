-- ===== src/Server/Output/Wire.antt =====
-- What the sending loops put on the wire, and that they end.
use light_server.Base.{
  ℕ, zero, suc, ◌<◌, ◌≡◌, refl, ◌∙◌, inl, inr, true, false, ◌&&◌, Option, some, List, [], ◌∷◌, ◌++◌,
  length, take, drop, ◌==◌, if◌then◌else◌, arith, Bool-cases, append-nil, append_assoc,
  take-append-drop, length-drop, ==_refl,
}
use light_server.Common.{Sockaddr, is_positive, ewouldblock}
use light_server.MsgPacket.{MsgPacket, reduce}
use light_server.MsgPacket.Laws.{Holds, size-Holds, unsent-Holds, reduce-Holds}
use light_server.Machine.{Call, Answer, Kernel, ok, State, sys}
use light_server.Server.Output.{
  SendEnd, drained, blocked, failed, Offer, by_write, by_sendto, offered, send_packet,
}

-- The bytes that the kernel took for a socket in one call.
abbrev pub accepted : ℕ → Call → Answer → List ℕ
accepted sock (Call.write s bytes) a =
    if s == sock && is_positive a.ret then take a.ret bytes else []
accepted sock (Call.sendto s bytes to) a =
    if s == sock && is_positive a.ret then take a.ret bytes else []
accepted sock _ a = []

-- All that it took for the socket since the program began.
unfoldable pub wire : Kernel → ℕ → List Call → List ℕ
wire k sock [] = []
wire k sock (c ∷ t) = wire k sock t ++ accepted sock c (k.answer (c ∷ t))

module _ (k : Kernel) (sock : ℕ) where
  offered-wire :
      (offer : Offer) (bytes : List ℕ) (to : Option Sockaddr) (t : List Call)
      → let r = k.answer (offered offer sock bytes to ∷ t) in
        wire k sock (offered offer sock bytes to ∷ t)
        ≡ wire k sock t ++ (if is_positive r.ret then take r.ret bytes else [])
  unfolding wire
  offered-wire by_write bytes to t = rw (==_refl sock)
  offered-wire by_sendto bytes to t = rw (==_refl sock)

module _ (k : Kernel) (offer : Offer) (sock : ℕ) where
  module _ {S : Type 0} where
    -- The loop over one packet ends; the bytes gone and the bytes left are the bytes that were held.
    pub record PacketSent (p : MsgPacket) (s : State S) (bs : List ℕ) (n : ℕ) : Type 0 where
      pub done : SendEnd
      pub packet : MsgPacket
      pub left : List ℕ
      pub log : List Call
      pub runs : send_packet k offer sock n p s ≡ ok ((done, packet), record s { trace = log })
      pub holds : Holds packet left
      pub conserved : wire k sock log ++ left ≡ wire k sock s.trace ++ bs
      pub emptied : done ≡ drained → left ≡ []

    module _ (p : MsgPacket) (s : State S) (b : ℕ) (bs : List ℕ) (n : ℕ)
        (h : Holds p (b ∷ bs)) where
      abbrev next_log : List Call
      next_log = offered offer sock (b ∷ bs) p.saddr ∷ s.trace

      abbrev reply : Answer
      reply = k.answer next_log

      -- The kernel took nothing.
      packet_stopped : is_positive reply.ret ≡ false → PacketSent p s (b ∷ bs) (suc n)
      unfolding send_packet sys
      packet_stopped neg = record {
        done = if reply.errno == ewouldblock then blocked else failed;
        packet = p;
        left = b ∷ bs;
        log = next_log;
        runs = ground (arith, size-Holds p h, unsent-Holds p h);
        holds = h;
        conserved = rw (offered-wire k sock offer (b ∷ bs) p.saddr s.trace, neg) (rw append-nil);
        emptied = λ e. ground arith;
      }

      one_round :
          (q : MsgPacket)
          → is_positive reply.ret ≡ true
          → reduce p reply.ret ≡ some q
          → send_packet k offer sock (suc n) p s
            ≡ send_packet k offer sock n q (record s { trace = next_log })
      unfolding send_packet sys
      one_round q pos e = ground (arith, size-Holds p h, unsent-Holds p h)

      -- The kernel took some bytes, and the loop goes on.
      packet_continues :
          (q : MsgPacket)
          → is_positive reply.ret ≡ true
          → reduce p reply.ret ≡ some q
          → PacketSent q (record s { trace = next_log }) (drop reply.ret (b ∷ bs)) n
          → PacketSent p s (b ∷ bs) (suc n)
      packet_continues q pos e rest = record {
        done = rest.done;
        packet = rest.packet;
        left = rest.left;
        log = rest.log;
        runs = one_round q pos e ∙ rest.runs;
        holds = rest.holds;
        conserved = rest.conserved ∙ moved;
        emptied = rest.emptied;
      }
        where
          moved : wire k sock next_log ++ drop reply.ret (b ∷ bs) ≡ wire k sock s.trace ++ b ∷ bs
          moved =
              rw (offered-wire k sock offer (b ∷ bs) p.saddr s.trace, pos)
                (rw (append_assoc, take-append-drop))

    pub send_packet-PacketSent :
        (n : ℕ) (p : MsgPacket) (s : State S) (bs : List ℕ)
        → Holds p bs
        → length bs < n
        → PacketSent p s bs n
    unfolding send_packet
    send_packet-PacketSent zero p s bs h l = elim l [ ]
    send_packet-PacketSent (suc n) p s [] h l = record {
      done = drained;
      packet = p;
      left = [];
      log = s.trace;
      runs = rw (size-Holds p h);
      holds = h;
      conserved = refl;
      emptied = λ e. refl;
    }
    send_packet-PacketSent (suc n) p s (b ∷ bs) h l =
        let r = reply p s b bs n h in
        elim (Bool-cases (is_positive r.ret)) [
          | inl pos ↦
              let (q, e, hq) = reduce-Holds p h r.ret pos in
              packet_continues p s b bs n h q pos e
                (send_packet-PacketSent n q _ _ hq (ground (arith, length-drop r.ret (b ∷ bs))))
          | inr neg ↦ packet_stopped p s b bs n h neg
        ]
