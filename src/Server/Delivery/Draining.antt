-- ===== src/Server/Delivery/Draining.antt =====
-- With a kernel that takes at least a byte at each write, the loop of `HandleSend` in
-- socket_manager/tcp_server.cpp writes a queue out whole.
use light_server.Base.{
  ℕ, zero, suc, ◌≡◌, refl, sym, subst, ap, ◌∙◌, Bool, true, false, Option, none, some, List, [],
  ◌∷◌, ◌++◌, ◌==◌, arith, append-nil, if◌then◌else◌,
}
use light_server.Common.{is_positive, ewouldblock}
use light_server.MsgPacket.{MsgPacket, size, unsent, reduce}
use light_server.MsgPacket.Laws.{QueueHolds}
use light_server.SocketObject.{SocketObject}
use light_server.Machine.{
  Answer, pure, object, Call, Kernel, Result, ok, fault, State, update, M, ◌>>=◌, defined, sys,
  load, store,
}
use light_server.Server.Output.{SendEnd, drained, send_packet, send_queue, send_all, by_write}
use light_server.Server.Output.Wire.{wire}
use light_server.Server.Output.Flush.{QueueSent, send_queue-QueueSent}

-- A kernel that takes at least a byte at each write.
abbrev pub Takes : Kernel → Type 0
Takes k =
    (sock : ℕ) (bytes : List ℕ) (log : List Call)
    → is_positive (k.answer (Call.write sock bytes ∷ log)).ret ≡ true

-- A run that returns has written everything.
abbrev Drains : {S A : Type 0} → Result ((SendEnd × A) × State S) → Type 0
Drains (ok ((done, a), s)) = done ≡ drained
Drains (fault e) = Unit {0}

module _ {S : Type 0} where
  defined-Drains :
      {A B : Type 0} (x : Option A) (f : A → M S (SendEnd × B)) (s : State S)
      → ((a : A) → Drains (f a s))
      → Drains ((defined x >>= f) s)
  defined-Drains none f s h = tt
  defined-Drains (some a) f s h = h a

  if-Drains :
      {B : Type 0} (b : Bool) (m n : M S (SendEnd × B)) (s : State S)
      → Drains (m s)
      → Drains (n s)
      → Drains ((if b then m else n) s)
  if-Drains true m n s hm hn = hm
  if-Drains false m n s hm hn = hn

module _ (k : Kernel) {S : Type 0} (takes : Takes k) (sock : ℕ) where
  after_write-Drains :
      (rounds : ℕ) (p : MsgPacket) (r : Answer) (s : State S)
      → ((p : MsgPacket) (s : State S) → Drains (send_packet k by_write sock rounds p s))
      → (took : Bool) → took ≡ true
      → Drains {S = S} {A = MsgPacket} (
          (elim took as (λ x. M S (SendEnd × MsgPacket)) [
            | true ↦ (do p' ← defined (reduce p r.ret); send_packet k by_write sock rounds p')
            | false ↦ pure (if r.errno == ewouldblock then SendEnd.blocked else SendEnd.failed, p)
          ])
            s)
  after_write-Drains rounds p r s more true e = defined-Drains (reduce p r.ret) _ s λ p'. more p' s
  after_write-Drains rounds p r s more false e = ground arith

  send_packet-Drains :
      (rounds : ℕ) (p : MsgPacket) (s : State S) → Drains (send_packet k by_write sock rounds p s)
  unfolding send_packet sys
  send_packet-Drains zero p s = tt
  send_packet-Drains (suc rounds) p s =
      let more = send_packet-Drains rounds in
      defined-Drains (size p) _ s λ n. if-Drains (n == 0) _ _ s refl (
        defined-Drains (unsent p) _ s λ bytes.
          after_write-Drains rounds p (k.answer (Call.write sock bytes ∷ s.trace))
            (record s { trace = Call.write sock bytes ∷ s.trace }) more _
            (takes sock bytes s.trace))

  next_packet-Drains :
      (rest : List MsgPacket)
      → ((s : State S) → Drains (send_queue k by_write sock rest s))
      → (r : Result ((SendEnd × MsgPacket) × State S)) → Drains r
      → Drains {S = S} {A = List MsgPacket} (elim r [
        | ok ((done, p), t) ↦
            (elim done as (λ x. M S (SendEnd × List MsgPacket)) [
              | SendEnd.drained ↦ send_queue k by_write sock rest
              | stopped ↦ pure (stopped, p ∷ rest)
            ])
              t
        | fault e ↦ fault e
      ])
  next_packet-Drains rest more (ok ((SendEnd.drained, p), t)) d = more t
  next_packet-Drains rest more (ok ((SendEnd.blocked, p), t)) d = d
  next_packet-Drains rest more (ok ((SendEnd.failed, p), t)) d = d
  next_packet-Drains rest more (fault e) d = tt

  send_queue-Drains : (q : List MsgPacket) (s : State S) → Drains (send_queue k by_write sock q s)
  unfolding send_queue
  send_queue-Drains [] s = refl
  send_queue-Drains (p ∷ rest) s =
      let more = send_queue-Drains rest in
      defined-Drains (size p) _ s λ n.
        next_packet-Drains rest more (send_packet k by_write sock (suc n) p s)
          (send_packet-Drains (suc n) p s)

  -- The object at `p` is written out whole.
  pub record Written (s : State S) (p : ℕ) (o : SocketObject) (bs : List ℕ) : Type 0 where
    pub log : List Call
    pub returns :
        send_all k by_write (object p) s
        ≡ ok (
          false,
          record s {
            heap = update s.heap p (some (record o { out_packets_queue = [] }));
            trace = log;
          },
        )
    pub all_gone : wire k o.socket_id log ≡ wire k o.socket_id s.trace ++ bs

pub all_written :
    (k : Kernel) {S : Type 0} (takes : Takes k) (s : State S) (p : ℕ) (o : SocketObject)
    (bs : List ℕ)
    → s.heap p ≡ some o
    → o.f_valid ≡ true
    → QueueHolds o.out_packets_queue bs
    → Written k takes o.socket_id s p o bs
unfolding send_all load store
all_written k {S} takes s p o bs live valid holds = record {
  log = sent.log;
  returns = ground (arith, sent.runs, drains, no_queue);
  all_gone =
      sym (append-nil _)
      ∙ ap (λ r. wire k o.socket_id sent.log ++ r) (sym no_left)
      ∙ sent.conserved;
}
  where
    sent : QueueSent k by_write o.socket_id o.out_packets_queue s bs
    sent = send_queue-QueueSent k by_write o.socket_id o.out_packets_queue s bs holds

    drains : sent.done ≡ drained
    drains = subst Drains sent.runs (send_queue-Drains k takes o.socket_id o.out_packets_queue s)

    no_queue : sent.queue ≡ []
    no_queue = sent.emptied.0 drains

    no_left : sent.left ≡ []
    no_left = subst (λ q. QueueHolds q sent.left) no_queue sent.holds
