-- ===== src/DmPacket/Splitting/Branches.antt =====
-- The branches of a round of `DmPacketRead`, in examples/dm_packet.cpp, on a piece and on what stands
-- behind it.
use light_server.Base.{
  ℕ, ◌+◌, ◌-◌, ◌≤◌, ◌<◌, ◌≡◌, refl, inl, inr, true, false, not, some, List, ◌++◌, min, ltb, leb,
  ◌==◌, if◌then◌else◌, length, take, arith, length-append, ap, ◌∙◌, take-append_le, Bool-cases,
}
use light_server.DmPacket.{
  DmPacket, header_size, data_pos, reset_packet, write_at, more, read_header, read_length,
  read_body, read_round,
}
use light_server.DmPacket.Shape.{WellFormed, Ready}
use light_server.DmPacket.Rounds.{WellFormed-Open}
use light_server.DmPacket.Splitting.{
  splice, shift, first_write, one_round, after_header, after_length, after_body, shift-after_header,
  shift-after_length, shift-after_body,
}

-- The bytes that a round waits for.
abbrev pub need : DmPacket → ℕ
need p =
    if ltb p.pos header_size
    then header_size - p.pos
    else if ltb p.pos data_pos
    then data_pos - p.pos
    else p.remain_len

onward : (at k n : ℕ) → at + (k + n) ≡ at + k + n
onward at k n = omega arith

still_missing : (w k n : ℕ) → w - (k + n) ≡ w - k - n
still_missing w k n = omega arith

-- A piece that ends inside what the round waits for.
module _ (p : DmPacket) (a b : List ℕ) where
  abbrev pub header_part : DmPacket
  header_part = record p { header_buf = splice p.header_buf p.pos a; pos = p.pos + length a }

  module _ (room : length p.header_buf ≡ 8) where
    pub read_header-split :
        p.pos + length a < header_size
        → (read_header p a ≡ more header_part (length a))
          × (read_header p (a ++ b) ≡ shift (length a) (read_header header_part b))
    unfolding read_header reset_packet
    read_header-split short =
        let w = header_size - (p.pos + length a) in
        let e : header_size - p.pos ≡ length a + w = omega arith in
        let first = first_write p.header_buf p.pos w a b (omega arith) in
        let size : min (length a + w) (length a) ≡ length a = omega arith in
        let early : leb header_size (p.pos + length a) ≡ false = ground arith in
        (
          rw (e, first, size, early) refl,
          rw e (
              one_round p.header_buf p.pos w a b (omega arith)
                (λ h n. after_header (record p { header_buf = h; pos = p.pos + n }) n)
                (λ h n. after_header (record p { header_buf = h; pos = p.pos + length a + n }) n)
                (λ h n.
                  ap (λ at. after_header (record p { header_buf = h; pos = at }) (length a + n))
                    (onward p.pos (length a) n)
                  ∙ shift-after_header (length a)
                      (record p { header_buf = h; pos = p.pos + length a + n }) n)),
        )

    pub read_length-split :
        p.pos + length a < data_pos
        → (read_length p a ≡ more header_part (length a))
          × (read_length p (a ++ b) ≡ shift (length a) (read_length header_part b))
    unfolding read_length reset_packet
    read_length-split short =
        let w = data_pos - (p.pos + length a) in
        let e : data_pos - p.pos ≡ length a + w = omega arith in
        let first = first_write p.header_buf p.pos w a b (omega arith) in
        let size : min (length a + w) (length a) ≡ length a = omega arith in
        let early : (p.pos + length a == data_pos) ≡ false = ground arith in
        (
          rw (e, first, size, early) refl,
          rw e (
              one_round p.header_buf p.pos w a b (omega arith)
                (λ h n. after_length (record p { header_buf = h; pos = p.pos + n }) n)
                (λ h n. after_length (record p { header_buf = h; pos = p.pos + length a + n }) n)
                (λ h n.
                  ap (λ at. after_length (record p { header_buf = h; pos = at }) (length a + n))
                    (onward p.pos (length a) n)
                  ∙ shift-after_length (length a)
                      (record p { header_buf = h; pos = p.pos + length a + n }) n)),
        )

  module _ (buf : List ℕ) (held : p.p_buf ≡ some buf) where
    abbrev pub body_part : DmPacket
    body_part = record p {
      p_buf = some (splice buf p.pos a);
      pos = p.pos + length a;
      remain_len = p.remain_len - length a;
    }

    pub read_body-split :
        p.pos + p.remain_len ≤ length buf
        → length a < p.remain_len
        → (read_body p a ≡ more body_part (length a))
          × (read_body p (a ++ b) ≡ shift (length a) (read_body body_part b))
    unfolding read_body reset_packet
    read_body-split room short =
        let w = p.remain_len - length a in
        let e : p.remain_len ≡ length a + w = omega arith in
        let first = first_write buf p.pos w a b (omega arith) in
        let count : min p.remain_len (length a) ≡ length a = omega arith in
        let size : min p.remain_len (length (a ++ b)) ≡ min (length a + w) (length (a ++ b)) =
          omega arith in
        let write : write_at buf p.pos (take (length a) a) ≡ some (splice buf p.pos a) =
          ap (λ n. write_at buf p.pos (take n a)) (omega arith) ∙ first in
        let early : (p.remain_len - length a == 0) ≡ false = ground arith in
        (
          rw (held, count, write, early) refl,
          rw (held, size)
              (one_round buf p.pos w a b (omega arith)
                (λ h n.
                  after_body h
                    (record p { p_buf = some h; pos = p.pos + n; remain_len = p.remain_len - n }) n)
                (λ h n.
                  after_body h
                    (record p {
                      p_buf = some h;
                      pos = p.pos + length a + n;
                      remain_len = p.remain_len - length a - n;
                    })
                    n)
                (λ h n.
                  ap
                    (λ at.
                      after_body h
                        (record p {
                          p_buf = some h;
                          pos = at;
                          remain_len = p.remain_len - (length a + n);
                        })
                        (length a + n))
                    (onward p.pos (length a) n)
                  ∙ ap
                      (λ left.
                        after_body h
                          (record p {
                            p_buf = some h;
                            pos = p.pos + length a + n;
                            remain_len = left;
                          })
                          (length a + n))
                      (still_missing p.remain_len (length a) n)
                  ∙ shift-after_body (length a) h
                      (record p {
                        p_buf = some h;
                        pos = p.pos + length a + n;
                        remain_len = p.remain_len - length a - n;
                      })
                      n)),
        )

-- Behind all that a round waits for, nothing is read.
module _ (w : ℕ) (a b : List ℕ) (enough : w ≤ length a) where
  same_count : min w (length (a ++ b)) ≡ min w (length a)
  same_count = omega (arith, length-append a b)

  same_bytes_taken : take (min w (length a)) (a ++ b) ≡ take (min w (length a)) a
  same_bytes_taken = take-append_le (min w (length a)) a b (omega arith)

module _ (p : DmPacket) (a b : List ℕ) where
  read_header-enough : header_size - p.pos ≤ length a → read_header p (a ++ b) ≡ read_header p a
  unfolding read_header reset_packet
  read_header-enough h =
      let w = header_size - p.pos in rw (same_count w a b h, same_bytes_taken w a b h) refl

  read_length-enough : data_pos - p.pos ≤ length a → read_length p (a ++ b) ≡ read_length p a
  unfolding read_length reset_packet
  read_length-enough h =
      let w = data_pos - p.pos in rw (same_count w a b h, same_bytes_taken w a b h) refl

  read_body-enough : p.remain_len ≤ length a → read_body p (a ++ b) ≡ read_body p a
  unfolding read_body reset_packet
  read_body-enough h =
      let w = p.remain_len in rw (same_count w a b h, same_bytes_taken w a b h) refl

  pub read_round-enough :
      (len : ℕ) → need p ≤ length a → read_round p (a ++ b) len ≡ read_round p a len
  unfolding read_round
  read_round-enough len enough =
      ground (arith, read_header-enough, read_length-enough, read_body-enough)

  -- The packet that the first piece leaves.
  pub read_round-split :
      (len : ℕ)
      → WellFormed p
      → Ready p
      → length a < need p
      → (q : DmPacket) × (read_round p a len ≡ more q (length a))
        × ((len' : ℕ) → read_round p (a ++ b) len ≡ shift (length a) (read_round q b len'))
  unfolding read_round
  read_round-split len w ready short = elim (Bool-cases (ltb p.pos header_size)) [
    | inl early ↦
        let (first, both) = read_header-split p a b w.header_room (ground arith) in
        let still : ltb (p.pos + length a) header_size ≡ true = ground arith in
        (header_part p a b, rw early first, λ len'. rw (early, still) both)
    | inr late ↦ elim (Bool-cases (ltb p.pos data_pos)) [
      | inl early ↦
          let (first, both) = read_length-split p a b w.header_room (ground arith) in
          let behind : ltb (p.pos + length a) header_size ≡ false = ground arith in
          let still : ltb (p.pos + length a) data_pos ≡ true = ground arith in
          (header_part p a b, rw (late, early) first, λ len'. rw (late, early, behind, still) both)
      | inr last ↦
          let o = WellFormed-Open p w (ground arith) in
          let (first, both) =
            read_body-split p a b o.buf o.at_buf (omega (arith, o.rest, o.room)) (ground arith) in
          let some_left : not (p.remain_len == 0) ≡ true = ground arith in
          let behind : ltb (p.pos + length a) header_size ≡ false = ground arith in
          let open_still : ltb (p.pos + length a) data_pos ≡ false = ground arith in
          let still : not (p.remain_len - length a == 0) ≡ true = ground arith in
          (
            body_part p a b o.buf o.at_buf,
            rw (late, last, some_left) first,
            λ len'. rw (late, last, some_left, behind, open_still, still) both,
          )
    ]
  ]
