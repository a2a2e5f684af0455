-- ===== src/DmPacket/Rounds.antt =====
-- A round of the loop of `DmPacketRead`, in examples/dm_packet.cpp.
use light_server.DmPacket.Shape.{
  Open, Waiting, WellFormed, Ready, Whole, slice-some, write_at-some, is_dm_packet_valid-some,
  length-new_bytes,
}
use light_server.Base.{
  ℕ, ◌+◌, ◌-◌, ◌≤◌, ◌<◌, ◌≡◌, refl, ◌⊎◌, inl, inr, Bool, true, false, not, ◌&&◌, Option, some, List,
  min, ltb, leb, ◌==◌, if◌then◌else◌, length, take, arith, length-take, Bool-cases, sym,
}
use light_server.DmPacket.{
  DmPacket, header_size, data_pos, max_of_msg_size, msg_header, reset_packet, same_bytes, slice,
  new_bytes, Round, more, complete, undefined, read_header, read_length, read_body, read_round,
  le32, accept_length, check_message, or_undefined,
}

-- What a round on `rx` may come to: it takes a byte, stays within `rx`, and leaves a packet that can
-- go on or that is whole.
abbrev pub Advances : List ℕ → Round → Type 0
Advances rx (more q n) = WellFormed q × Ready q × (0 < n) × (n ≤ length rx)
Advances rx (complete q n) = WellFormed q × Whole q × (0 < n) × (n ≤ length rx)
Advances rx undefined = ⊥

defined-Advances {ℓ} :
    {A : Type ℓ} (rx : List ℕ) (o : Option A) (a : A) (f : A → Round)
    → o ≡ some a
    → Advances rx (f a)
    → Advances rx (or_undefined o f)
defined-Advances rx o a f e h = rw e h

if-Advances :
    (rx : List ℕ) (c : Bool) (x y : Round)
    → (c ≡ true → Advances rx x)
    → (c ≡ false → Advances rx y)
    → Advances rx (if c then x else y)
if-Advances rx true x y h g = h refl
if-Advances rx false x y h g = g refl

pub reset_packet-WellFormed : (p : DmPacket) → length p.header_buf ≡ 8 → WellFormed (reset_packet p)
unfolding reset_packet
reset_packet-WellFormed p h = record {
  header_room = h;
  stage = inl (record { before = omega arith; no_buf = refl; no_rest = refl });
}

pub reset_packet-Ready : (p : DmPacket) → Ready (reset_packet p)
unfolding reset_packet
reset_packet-Ready p = inl (omega arith)

-- A round that starts over advances.
reset-Advances :
    (rx : List ℕ) (p : DmPacket) (n : ℕ)
    → length p.header_buf ≡ 8
    → 0 < n
    → n ≤ length rx
    → Advances rx (more (reset_packet p) n)
reset-Advances rx p n h pos le = (reset_packet-WellFormed p h, reset_packet-Ready p, pos, le)

module _ (p : DmPacket) (rx : List ℕ) (room : length p.header_buf ≡ 8) (given : 0 < length rx) where
  read_header-Advances : Waiting p → p.pos < header_size → Advances rx (read_header p rx)
  unfolding read_header reset_packet
  read_header-Advances w h =
      let n = min (header_size - p.pos) (length rx) in
      let (hd, runs, len) =
        write_at-some p.header_buf p.pos (take n rx) (omega (arith, length-take n rx)) in
      let q : DmPacket = record p { header_buf = hd; pos = p.pos + n } in
      defined-Advances rx _ hd _ runs (
        if-Advances rx (leb header_size q.pos && not (same_bytes (take 4 hd) msg_header))
          (more (reset_packet q) n) (more q n)
          (λ bad. reset-Advances rx q n (omega arith) (omega arith) (omega arith))
          (λ good. (
            record {
              header_room = omega arith;
              stage = inl (record { before = omega arith; no_buf = w.no_buf; no_rest = w.no_rest });
            },
            inl (omega arith),
            omega arith,
            omega arith,
          )))

  accept_length-Advances :
      (q : DmPacket) (msg_len n : ℕ)
      → length q.header_buf ≡ 8
      → q.pos ≡ data_pos
      → 0 < n
      → n ≤ length rx
      → Advances rx (accept_length q msg_len n)
  unfolding reset_packet
  accept_length-Advances q msg_len n qroom at pos le =
      if-Advances rx (leb 16 msg_len && ltb msg_len max_of_msg_size) _ _
        (λ fits.
          let least : 16 ≤ msg_len = ground arith in
          let most : msg_len < max_of_msg_size = ground arith in
          let (hd, cut, n8) = slice-some q.header_buf 0 data_pos (omega arith) in
          let (b, runs, len) =
            write_at-some (new_bytes msg_len) 0 hd (omega (arith, length-new_bytes msg_len)) in
          defined-Advances rx _ hd _ cut (
            defined-Advances rx _ b _ runs (
              record {
                header_room = qroom;
                stage = inr (record {
                  buf = b;
                  at_buf = refl;
                  room = omega (arith, len, length-new_bytes msg_len);
                  rest = omega arith;
                  started = omega arith;
                  least = least;
                  most = most;
                });
              },
              inr (omega arith),
              pos,
              le,
            )))
        (λ bad. reset-Advances rx q n qroom pos le)

  read_length-Advances : Waiting p → header_size ≤ p.pos → Advances rx (read_length p rx)
  unfolding read_length
  read_length-Advances w h =
      let n = min (data_pos - p.pos) (length rx) in
      let (hd, runs, len) =
        write_at-some p.header_buf p.pos (take n rx) (omega (arith, length-take n rx, w.before)) in
      let (l, cut, _) = slice-some hd 4 4 (omega arith) in
      let q : DmPacket = record p { header_buf = hd; pos = p.pos + n } in
      defined-Advances rx _ hd _ runs (
        if-Advances rx (q.pos == data_pos)
          (or_undefined (slice hd 4 4) (λ l'. accept_length q (le32 l') n)) (more q n)
          (λ there. defined-Advances rx _ l _ cut (
            accept_length-Advances q (le32 l) n (omega arith) (ground arith)
              (omega (arith, w.before)) (omega arith)))
          (λ missing. (
            record {
              header_room = omega arith;
              stage = inl (record {
                before = ground (arith, w.before);
                no_buf = w.no_buf;
                no_rest = w.no_rest;
              });
            },
            inl (ground (arith, w.before)),
            omega (arith, w.before),
            omega arith,
          )))

  check_message-Advances :
      (q : DmPacket) (b : List ℕ) (n : ℕ)
      → q.p_buf ≡ some b
      → Open q
      → length b ≡ q.len
      → length q.header_buf ≡ 8
      → 0 < n
      → n ≤ length rx
      → Advances rx (check_message q b n)
  check_message-Advances q b n held o exact qroom pos le =
      let (v, runs) = is_dm_packet_valid-some b q.len o.least (omega arith) in
      defined-Advances rx _ v _ runs (
        if-Advances rx v _ _
          (λ yes_valid. (
            record { header_room = qroom; stage = inr o },
            record { message = b; held = held; exact = exact; valid = rw (sym yes_valid) runs },
            pos,
            le,
          ))
          (λ bad. reset-Advances rx q n qroom pos le))

  read_body-Advances : Open p → 0 < p.remain_len → Advances rx (read_body p rx)
  unfolding read_body reset_packet
  read_body-Advances o some_left =
      let n = min p.remain_len (length rx) in
      let (b, runs, len) =
        write_at-some o.buf p.pos (take n rx) (omega (arith, length-take n rx, o.room, o.rest)) in
      let q : DmPacket = record p {
        p_buf = some b;
        pos = p.pos + n;
        remain_len = p.remain_len - n;
      } in
      let open' : Open q = record {
        buf = b;
        at_buf = refl;
        room = omega (arith, o.room);
        rest = omega (arith, o.rest);
        started = omega (arith, o.started);
        least = o.least;
        most = o.most;
      } in
      defined-Advances rx _ o.buf _ o.at_buf (
        defined-Advances rx _ b _ runs (
          if-Advances rx (q.remain_len == 0) (check_message q b n) (more q n)
            (λ last.
              check_message-Advances q b n refl open' (omega (arith, o.room)) room (omega arith)
                (omega arith))
            (λ left. (
              record { header_room = room; stage = inr open' },
              inr (ground arith),
              omega arith,
              omega arith,
            ))))

WellFormed-Waiting : (p : DmPacket) → WellFormed p → p.pos < data_pos → Waiting p
WellFormed-Waiting p w h = elim w.stage [ inl v ↦ v | inr o ↦ absurd (omega (arith, o.started)) ]

pub WellFormed-Open : (p : DmPacket) → WellFormed p → data_pos ≤ p.pos → Open p
WellFormed-Open p w h = elim w.stage [ inl v ↦ absurd (omega (arith, v.before)) | inr o ↦ o ]

Ready-rest : (p : DmPacket) → Ready p → data_pos ≤ p.pos → 0 < p.remain_len
Ready-rest p (inl h) g = absurd (omega arith)
Ready-rest p (inr h) g = h

pub Ready-cases : (p : DmPacket) → Ready p ⊎ ((data_pos ≤ p.pos) × (p.remain_len ≡ 0))
Ready-cases p = elim (Bool-cases (ltb p.pos data_pos)) [
  | inl a ↦ inl (inl (ground arith))
  | inr a ↦ elim (Bool-cases (ltb 0 p.remain_len)) [
    | inl b ↦ inl (inr (ground arith))
    | inr b ↦ inr (ground arith, ground arith)
  ]
]

pub read_round-stale :
    (p : DmPacket) (rx : List ℕ)
    → data_pos ≤ p.pos
    → p.remain_len ≡ 0
    → read_round p rx 0 ≡ more (reset_packet p) 0
unfolding read_round reset_packet
read_round-stale p rx passed none_left = ground arith

pub read_round-Advances :
    (p : DmPacket) (rx : List ℕ) (len : ℕ)
    → WellFormed p
    → Ready p
    → 0 < length rx
    → Advances rx (read_round p rx len)
unfolding read_round
read_round-Advances p rx len w ready given =
    if-Advances rx (ltb p.pos header_size) _ _
      (λ a.
        read_header-Advances p rx w.header_room given (WellFormed-Waiting p w (ground arith))
          (ground arith))
      (λ a.
        if-Advances rx (ltb p.pos data_pos) _ _
          (λ b.
            read_length-Advances p rx w.header_room given (WellFormed-Waiting p w (ground arith))
              (ground arith))
          (λ b.
            let rest : 0 < p.remain_len = Ready-rest p ready (ground arith) in
            if-Advances rx (not (p.remain_len == 0)) _ _
              (λ c.
                read_body-Advances p rx w.header_room given (WellFormed-Open p w (ground arith))
                  rest)
              (λ c. absurd (ground arith))))
