-- ===== src/Server/Output/Flush.antt =====
-- What `HandleSend` does with the queue of an object.
use light_server.Base.{
  ℕ, suc, ◌≡◌, refl, ◌∙◌, ◌↔◌, ◌≢◌, true, some, List, [], ◌∷◌, ◌++◌, length, arith, append_assoc,
}
use light_server.Common.{int_to_bool}
use light_server.MsgPacket.{MsgPacket}
use light_server.MsgPacket.Laws.{Holds, QueueHolds, size-Holds}
use light_server.SocketObject.{SocketObject}
use light_server.Machine.{object, Call, Kernel, ok, State, update, load, store}
use light_server.Server.Output.{
  SendEnd, drained, blocked, failed, Offer, send_queue, send_all, send_status,
}
use light_server.Server.Output.Wire.{wire, PacketSent, send_packet-PacketSent}

module _ (k : Kernel) (offer : Offer) (sock : ℕ) {S : Type 0} where
  pub record QueueSent (q : List MsgPacket) (s : State S) (bs : List ℕ) : Type 0 where
    pub done : SendEnd
    pub queue : List MsgPacket
    pub left : List ℕ
    pub log : List Call
    pub runs : send_queue k offer sock q s ≡ ok ((done, queue), record s { trace = log })
    pub holds : QueueHolds queue left
    pub conserved : wire k sock log ++ left ≡ wire k sock s.trace ++ bs
    pub emptied : (done ≡ drained) ↔ (queue ≡ [])

  module _ (p : MsgPacket) (rest : List MsgPacket) (s : State S) (b r bs : List ℕ) (hp : Holds p b)
      (hr : QueueHolds rest r) (e : bs ≡ b ++ r)
      (first : PacketSent k offer sock p s b (suc (length b))) where
    -- The bytes of the first packet, gone or left, in front of those of the others.
    regrouped : wire k sock first.log ++ (first.left ++ r) ≡ wire k sock s.trace ++ bs
    regrouped = rw (← append_assoc, first.conserved, append_assoc, e)

    -- The first packet went out whole, and the loop goes on with the others.
    queue_continues :
        first.done ≡ drained
        → QueueSent rest (record s { trace = first.log }) r
        → QueueSent (p ∷ rest) s bs
    unfolding send_queue
    queue_continues d next = record {
      done = next.done;
      queue = next.queue;
      left = next.left;
      log = next.log;
      runs = ground (arith, size-Holds p hp, first.runs, next.runs);
      holds = next.holds;
      conserved = next.conserved ∙ rw (first.emptied d) at regrouped;
      emptied = next.emptied;
    }

    queue_stops :
        (stopped : SendEnd) → first.done ≡ stopped → stopped ≢ drained → QueueSent (p ∷ rest) s bs
    unfolding send_queue
    queue_stops drained d other = absurd (other refl)
    queue_stops blocked d other = record {
      done = blocked;
      queue = first.packet ∷ rest;
      left = first.left ++ r;
      log = first.log;
      runs = ground (arith, size-Holds p hp, first.runs);
      holds = (first.left, r, first.holds, hr, refl);
      conserved = regrouped;
      emptied = (λ x. absurd (other x), λ x. cc);
    }
    queue_stops failed d other = record {
      done = failed;
      queue = first.packet ∷ rest;
      left = first.left ++ r;
      log = first.log;
      runs = ground (arith, size-Holds p hp, first.runs);
      holds = (first.left, r, first.holds, hr, refl);
      conserved = regrouped;
      emptied = (λ x. absurd (other x), λ x. cc);
    }

  pub send_queue-QueueSent :
      (q : List MsgPacket) (s : State S) (bs : List ℕ) → QueueHolds q bs → QueueSent q s bs
  unfolding send_queue
  send_queue-QueueSent [] s bs e = record {
    done = drained;
    queue = [];
    left = bs;
    log = s.trace;
    runs = refl;
    holds = e;
    conserved = refl;
    emptied = (λ x. refl, λ x. refl);
  }
  send_queue-QueueSent (p ∷ rest) s bs (b, r, hp, hr, e) =
      by_end first.done refl (send_queue-QueueSent rest (record s { trace = first.log }) r hr)
    where
      first : PacketSent k offer sock p s b (suc (length b))
      first = send_packet-PacketSent k offer sock (suc (length b)) p s b hp (omega arith)

      by_end :
          (done : SendEnd)
          → first.done ≡ done
          → QueueSent rest (record s { trace = first.log }) r
          → QueueSent (p ∷ rest) s bs
      by_end drained d next = queue_continues p rest s b r bs hp hr e first d next
      by_end blocked d next = queue_stops p rest s b r bs hp hr e first blocked d (λ x. cc)
      by_end failed d next = queue_stops p rest s b r bs hp hr e first failed d (λ x. cc)

-- What a run of `HandleSend` on the object `o` at `p` leaves.
pub record Flushed {S : Type 0} (k : Kernel) (offer : Offer) (s : State S) (p : ℕ)
    (o : SocketObject) (bs : List ℕ) : Type 0 where
  pub done : SendEnd
  pub queue : List MsgPacket
  pub left : List ℕ
  pub log : List Call
  pub returns :
      send_all k offer (object p) s
      ≡ ok (
        int_to_bool (send_status done),
        record s {
          heap = update s.heap p (some (record o { out_packets_queue = queue }));
          trace = log;
        },
      )
  pub holds : QueueHolds queue left
  pub conserved : wire k o.socket_id log ++ left ≡ wire k o.socket_id s.trace ++ bs
  pub emptied : (done ≡ drained) ↔ (queue ≡ [])

-- `HandleSend` on a live, valid object each of whose queued packets has a payload of less than 2 ^ 24
-- bytes and cursors that were assigned and lie in it, which excludes those made of 0 bytes, returns.
-- The bytes that the kernel has taken for the socket, followed by those still queued, are the same
-- before and after it, so no byte is lost, doubled or overtaken. Nothing but the queue changes in the
-- object, and it is empty exactly when the loop ran to its end.
pub send_all-Flushed :
    {S : Type 0} (k : Kernel) (offer : Offer) (s : State S) (p : ℕ) (o : SocketObject) (bs : List ℕ)
    → s.heap p ≡ some o
    → o.f_valid ≡ true
    → QueueHolds o.out_packets_queue bs
    → Flushed k offer s p o bs
unfolding send_all load store
send_all-Flushed k offer s p o bs live valid holds = record {
  done = sent.done;
  queue = sent.queue;
  left = sent.left;
  log = sent.log;
  returns = ground (arith, sent.runs);
  holds = sent.holds;
  conserved = sent.conserved;
  emptied = sent.emptied;
}
  where
    sent : QueueSent k offer o.socket_id o.out_packets_queue s bs
    sent = send_queue-QueueSent k offer o.socket_id o.out_packets_queue s bs holds
