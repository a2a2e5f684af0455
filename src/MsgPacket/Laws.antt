-- ===== src/MsgPacket/Laws.antt =====
-- Packets as the byte strings that they still hold.
use light_server.Base.{
  ◌++◌, append-nil, append_assoc, min, ℕ, ◌+◌, ◌-◌, ◌≤◌, ◌<◌, ◌≡◌, refl, sym, ap, ◌∙◌, true, Option,
  none, some, List, [], ◌∷◌, length, take, drop, arith, length-drop, take_all, drop-drop, drop-min,
  le→leb, length-take,
}
use light_server.Common.{Sockaddr, is_positive}
use light_server.MsgPacket.{
  MsgPacket, offset, make, make_udp, fits, size, reduce, unsent, max_size_of_packet, filled, memcpy,
}

-- `p` is a packet in the middle of its payload, and `bs` are the bytes behind `begin`.
pub record Holds (p : MsgPacket) (bs : List ℕ) : Type 0 where
  pub bytes : List ℕ
  pub start : ℕ
  pub at_payload : p.payload ≡ some bytes
  pub at_begin : p.begin ≡ offset start
  pub at_finish : p.finish ≡ offset (length bytes)
  pub within : start ≤ length bytes
  pub small : length bytes < max_size_of_packet
  pub rest : drop start bytes ≡ bs

memcpy_exact : (xs : List ℕ) (n : ℕ) → n ≡ length xs → memcpy xs n ≡ some xs
memcpy_exact xs n e =
    rw (le→leb n (length xs) (omega arith)) (ap some (take_all n xs (omega arith)))

module _ (p : MsgPacket) {bs : List ℕ} (h : Holds p bs) where
  length-rest : length bs ≡ length h.bytes - h.start
  length-rest = omega (arith, ap length h.rest, length-drop h.start h.bytes)

  -- `Size()` is the number of bytes still held.
  pub size-Holds : size p ≡ some (length bs)
  unfolding size
  size-Holds =
      rw (h.at_begin, h.at_finish) (ap some (omega (arith, length-rest, h.within, h.small)))

  -- What is offered to the kernel are these bytes.
  pub unsent-Holds : unsent p ≡ some bs
  unfolding unsent
  unsent-Holds =
      rw (h.at_begin, h.at_finish, unsent)
        (rw (h.at_payload, h.at_begin, h.rest)
          (memcpy_exact bs _ (omega (arith, length-rest, h.within, h.small))))

  -- `Reduce` by what the kernel took leaves the bytes behind it.
  pub reduce-Holds :
      (n : ℕ) → is_positive n ≡ true → (q : MsgPacket) × (reduce p n ≡ some q) × Holds q (drop n bs)
  unfolding reduce
  reduce-Holds n pos = (
    record p { begin = offset (h.start + min n (length bs)) },
    ground (arith, length-rest),
    record {
      bytes = h.bytes;
      start = h.start + min n (length bs);
      at_payload = h.at_payload;
      at_begin = refl;
      at_finish = h.at_finish;
      within = omega (arith, length-rest, h.within);
      small = h.small;
      rest = sym (drop-drop (min n (length bs)) h.start h.bytes) ∙ rw h.rest (drop-min n bs);
    },
  )

  pub length-Holds : length bs < max_size_of_packet
  length-Holds = omega (arith, length-rest, h.small)

module _ (nbytes : ℕ) (buf : List ℕ) (valid : fits nbytes ≡ true)
    (inside : nbytes ≤ length buf) where
  length_copied : length (take nbytes buf) ≡ nbytes
  length_copied = omega (arith, length-take nbytes buf)

  filled-Holds :
      (to : Option Sockaddr) → Holds (filled nbytes to (take nbytes buf)) (take nbytes buf)
  filled-Holds to = record {
    bytes = take nbytes buf;
    start = 0;
    at_payload = refl;
    at_begin = refl;
    at_finish = ap offset (sym length_copied);
    within = omega arith;
    small = ground (arith, length_copied);
    rest = refl;
  }

  -- A packet of an accepted size holds the first `nbytes` bytes of the buffer.
  pub make-Holds : (p : MsgPacket) × (make nbytes buf ≡ some p) × Holds p (take nbytes buf)
  unfolding make
  make-Holds = (
    filled nbytes none (take nbytes buf),
    rw (valid, le→leb nbytes (length buf) inside),
    filled-Holds none,
  )

  pub make_udp-Holds :
      (to : Sockaddr)
      → (p : MsgPacket) × (make_udp nbytes buf to ≡ some p) × Holds p (take nbytes buf)
  unfolding make_udp
  make_udp-Holds to = (
    filled nbytes (some to) (take nbytes buf),
    rw (valid, le→leb nbytes (length buf) inside),
    filled-Holds (some to),
  )

-- The queue holds these bytes, oldest first.
abbrev pub QueueHolds : List MsgPacket → List ℕ → Type 0
QueueHolds [] bs = bs ≡ []
QueueHolds (p ∷ ps) bs = (b : List ℕ) × (r : List ℕ) × Holds p b × QueueHolds ps r × (bs ≡ b ++ r)

-- A packet at the end of a queue adds its bytes at the end.
pub QueueHolds-append :
    (q : List MsgPacket) (p : MsgPacket) (bs b : List ℕ)
    → QueueHolds q bs
    → Holds p b
    → QueueHolds (q ++ (p ∷ [])) (bs ++ b)
QueueHolds-append [] p bs b e h = (b, [], h, refl, rw e (sym (append-nil b)))
QueueHolds-append (x ∷ q) p bs b (b₁, r, hx, hq, e) h =
    (b₁, r ++ b, hx, QueueHolds-append q p r b hq h, rw (e, append_assoc))
