-- ===== src/Server/Output.antt =====
-- The loop that the three `HandleSend` functions share: write the queue of an object until it is
-- empty or the socket takes no more. socket_manager/tcp_server.cpp, udp_server.cpp, tcp_client.cpp.
pub mod Wire
pub mod Flush
use light_server.Base.{
  ℕ, zero, suc, Bool, true, false, Option, none, some, List, [], ◌∷◌, ◌==◌, if◌then◌else◌,
}
use light_server.Common.{Sockaddr, minus_one, ewouldblock, is_positive, int_to_bool}
use light_server.MsgPacket.{MsgPacket, size, unsent, reduce}
use light_server.SocketObject.{SocketObject}
use light_server.SocketManager.Objects.{with_valid}
use light_server.Machine.{
  Pvoid, Call, Fault, Kernel, State, M, ◌>>=◌, ◌>>◌, pure, stop, defined, load, store, sys,
}

-- Why a loop ended: the queue is empty, `write` would block, or it failed.
pub data SendEnd : Type 0 where
  drained blocked failed : SendEnd

-- How bytes of a packet are offered to the kernel: by `write` or by `sendto`.
pub data Offer : Type 0 where
  by_write by_sendto : Offer

abbrev pub offered : Offer → ℕ → List ℕ → Option Sockaddr → Call
offered by_write sock bytes to = Call.write sock bytes
offered by_sendto sock bytes to = Call.sendto sock bytes to

module _ (k : Kernel) {S : Type 0} (offer : Offer) (sock : ℕ) where
  -- `while (p_packet->Size())`: a round takes at least one byte, so `Size()` rounds are enough.
  unfoldable pub send_packet : ℕ → MsgPacket → M S (SendEnd × MsgPacket)
  send_packet zero p = stop Fault.out_of_rounds
  send_packet (suc rounds) p = do
    n ← defined (size p)
    if n == 0 then pure (SendEnd.drained, p) else (do
      bytes ← defined (unsent p)
      r ← sys k (offered offer sock bytes p.saddr)
      elim (is_positive r.ret) [
        | true ↦ (do p' ← defined (reduce p r.ret); send_packet rounds p')
        | false ↦ pure (if r.errno == ewouldblock then SendEnd.blocked else SendEnd.failed, p)
      ])

  -- `while (!OutPacketEmpty())`
  unfoldable pub send_queue : List MsgPacket → M S (SendEnd × List MsgPacket)
  send_queue [] = pure (SendEnd.drained, [])
  send_queue (p ∷ rest) = do
    n ← defined (size p)
    (done, p') ← send_packet (suc n) p
    elim done [ SendEnd.drained ↦ send_queue rest | stopped ↦ pure (stopped, p' ∷ rest) ]

-- The `int` that stands behind each `return`.
abbrev pub send_status : SendEnd → ℕ
send_status SendEnd.drained = 0
send_status SendEnd.blocked = 0
send_status SendEnd.failed = minus_one

-- `HandleSend` is a `bool` function that returns those numbers, and -1 for an invalid object.
module _ (k : Kernel) {S : Type 0} (offer : Offer) where
  unfoldable pub send_all : Pvoid → M S Bool
  send_all pv = with_valid pv (int_to_bool minus_one) λ p o. do
    (done, queue) ← send_queue k offer o.socket_id o.out_packets_queue
    store p (record o { out_packets_queue = queue })
    pure (int_to_bool (send_status done))
