-- ===== src/SocketObject/Queue.antt =====
-- The queue of outgoing messages: `PushMsg` and `PushUdpMsg`.
use light_server.Base.{
  ℕ, ◌%◌, ◌≤◌, ◌<◌, ◌≡◌, refl, true, false, some, List, [], ◌∷◌, ◌++◌, length, take, arith,
  length-append,
}
use light_server.Common.{Sockaddr, int_mod, minus_one}
use light_server.MsgPacket.{MsgPacket, make, make_udp, fits, hollow, max_size_of_packet}
use light_server.MsgPacket.Laws.{Holds, QueueHolds, QueueHolds-append, make-Holds, make_udp-Holds}
use light_server.SocketObject.{SocketObject, push_msg, push_udp_msg, max_num_of_packets, enqueue}

-- What an accepted message of `n` bytes leaves: one packet more, its bytes last, all else as before.
pub record Queued (o o' : SocketObject) (bs : List ℕ) (buf : List ℕ) (n : ℕ) : Type 0 where
  pub packet : MsgPacket
  pub appended : o' ≡ record o { out_packets_queue = o.out_packets_queue ++ (packet ∷ []) }
  pub holds : QueueHolds o'.out_packets_queue (bs ++ take n buf)
  pub bounded : length o'.out_packets_queue ≤ max_num_of_packets

module _ (o : SocketObject) (buf bs : List ℕ) (n : ℕ) where
  -- A queue of 1000 packets refuses a message and stays as it is.
  pub push_msg_full :
      max_num_of_packets ≤ length o.out_packets_queue → push_msg o buf n ≡ some (minus_one, o)
  unfolding push_msg
  push_msg_full full = ground arith

  module _ (room : length o.out_packets_queue < max_num_of_packets)
      (holds : QueueHolds o.out_packets_queue bs) (some_bytes : 0 < n)
      (small : n < max_size_of_packet) (inside : n ≤ length buf) where
    queued : (p : MsgPacket) → Holds p (take n buf) → Queued o (enqueue o p).1 bs buf n
    queued p h = record {
      packet = p;
      appended = refl;
      holds = QueueHolds-append o.out_packets_queue p bs (take n buf) holds h;
      bounded = omega (arith, length-append o.out_packets_queue (p ∷ []));
    }

    fits_small : fits (n % int_mod) ≡ true
    fits_small = ground arith

    same_size : n % int_mod ≡ n
    same_size = omega arith

    module _ (p : MsgPacket) (h : Holds p (take n buf)) where
      push_made :
          make n buf ≡ some p
          → (o' : SocketObject) × (push_msg o buf n ≡ some (0, o')) × Queued o o' bs buf n
      unfolding push_msg
      push_made e = ((enqueue o p).1, rw same_size (ground (arith, e)), queued p h)

      push_udp_made :
          (to : Sockaddr)
          → make_udp n buf to ≡ some p
          → (o' : SocketObject) × (push_udp_msg o buf n to ≡ some (0, o')) × Queued o o' bs buf n
      unfolding push_udp_msg
      push_udp_made to e = ((enqueue o p).1, rw same_size (ground (arith, e)), queued p h)

    -- `PushMsg` of 1 to 2 ^ 24 - 1 bytes, with room in the queue, succeeds: one packet more at the
    -- end, which holds the bytes, and nothing else changed.
    pub push_msg-Queued :
        (o' : SocketObject) × (push_msg o buf n ≡ some (0, o')) × Queued o o' bs buf n
    push_msg-Queued =
        let (p, e, h) = make-Holds n buf (rw same_size at fits_small) inside in push_made p h e

    -- The same of `PushUdpMsg`.
    pub push_udp_msg-Queued :
        (to : Sockaddr)
        → (o' : SocketObject) × (push_udp_msg o buf n to ≡ some (0, o')) × Queued o o' bs buf n
    push_udp_msg-Queued to =
        let (p, e, h) = make_udp-Holds n buf (rw same_size at fits_small) inside to in
        push_udp_made p h to e

-- `PushMsg` reports success also for a size whose 32 bits are no size of a packet (0, or 2 ^ 24 and
-- more): it then queues a packet whose pointers are not assigned.
pub push_msg-hollow :
    (o : SocketObject) (buf : List ℕ) (n : ℕ)
    → length o.out_packets_queue < max_num_of_packets
    → fits (n % int_mod) ≡ false
    → push_msg o buf n ≡ some (enqueue o hollow)
unfolding push_msg make
push_msg-hollow o buf n room bad = ground arith
