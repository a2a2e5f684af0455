-- ===== src/DmPacket/Message.antt =====
-- A valid message of examples/dm_packet.cpp is put together by `DmPacketRead`.
use light_server.Base.{
  ℕ, suc, ◌+◌, ◌-◌, ◌*◌, ◌≤◌, ◌<◌, ◌≡◌, refl, sym, ap, ◌∙◌, true, false, some, List, [], ◌∷◌, ◌++◌,
  min, ltb, leb, ◌==◌, length, drop, arith, length-drop, length-append, take-length_append,
  drop_all, subst, le→leb, append-nil,
}
use light_server.Machine.{Fault, ok, fault}
use light_server.DmPacket.Shape.{length-new_bytes}
use light_server.DmPacket.{
  DmPacket, max_of_msg_size, msg_header, same_bytes, new_bytes, is_dm_packet_valid, more, complete,
  undefined, read_header, read_length, read_body, read_round, read_loop, dm_packet_read, le32,
}

read_loop-more :
    (rounds : ℕ) (p q : DmPacket) (x : ℕ) (rx : List ℕ) (len done n : ℕ)
    → read_round p (x ∷ rx) len ≡ more q n
    → read_loop (suc rounds) p (x ∷ rx) len done ≡ read_loop rounds q (drop n (x ∷ rx)) n (done + n)
unfolding read_loop
read_loop-more rounds p q x rx len done n e =
    ap
      (λ r. elim r [
        | undefined ↦ fault Fault.undefined_behaviour
        | complete q n ↦ ok (true, q, done + n)
        | more q n ↦ read_loop rounds q (drop n (x ∷ rx)) n (done + n)
      ])
      e

read_loop-complete :
    (rounds : ℕ) (p q : DmPacket) (x : ℕ) (rx : List ℕ) (len done n : ℕ)
    → read_round p (x ∷ rx) len ≡ complete q n
    → read_loop (suc rounds) p (x ∷ rx) len done ≡ ok (true, q, done + n)
unfolding read_loop
read_loop-complete rounds p q x rx len done n e =
    ap
      (λ r. elim r [
        | undefined ↦ fault Fault.undefined_behaviour
        | complete q n ↦ ok (true, q, done + n)
        | more q n ↦ read_loop rounds q (drop n (x ∷ rx)) n (done + n)
      ])
      e

-- The eight bytes in front of a message, and its length `n`.
module _ (a b c d e f g h n : ℕ) (body : List ℕ) where
  abbrev message : List ℕ
  message = a ∷ b ∷ c ∷ d ∷ e ∷ f ∷ g ∷ h ∷ body

  valid-header :
      is_dm_packet_valid message n ≡ some true
      → (same_bytes (a ∷ b ∷ c ∷ d ∷ []) msg_header ≡ true) × (le32 (e ∷ f ∷ g ∷ h ∷ []) ≡ n)
  unfolding is_dm_packet_valid
  valid-header v = (ground arith, ground arith)

  module _ (p : DmPacket) (tail : List ℕ) (p0 p1 p2 p3 p4 p5 p6 p7 : ℕ)
      (held : p.header_buf ≡ p0 ∷ p1 ∷ p2 ∷ p3 ∷ p4 ∷ p5 ∷ p6 ∷ p7 ∷ []) where
    abbrev with_header : DmPacket
    with_header = record p { header_buf = a ∷ b ∷ c ∷ d ∷ p4 ∷ p5 ∷ p6 ∷ p7 ∷ []; pos = 4 }

    header_round :
        p.pos ≡ 0
        → same_bytes (a ∷ b ∷ c ∷ d ∷ []) msg_header ≡ true
        → (len : ℕ) → read_round p (message ++ tail) len ≡ more with_header 4
    unfolding read_round read_header
    header_round start same len =
        let four : min (4 - p.pos) (length (message ++ tail)) ≡ 4 = omega arith in
        let at : leb (0 + 4) (length (p.header_buf)) ≡ true = rw held refl in
        rw (four, start, held, same) refl

    abbrev with_length : DmPacket
    with_length = record p {
      header_buf = a ∷ b ∷ c ∷ d ∷ e ∷ f ∷ g ∷ h ∷ [];
      p_buf = some (a ∷ b ∷ c ∷ d ∷ e ∷ f ∷ g ∷ h ∷ drop 8 (new_bytes n));
      pos = 8;
      len = n;
      remain_len = n - 8;
    }

    length_round :
        le32 (e ∷ f ∷ g ∷ h ∷ []) ≡ n
        → 16 ≤ n
        → n < max_of_msg_size
        → (len : ℕ) → read_round with_header (e ∷ f ∷ g ∷ h ∷ body ++ tail) len ≡ more with_length 4
    unfolding read_round read_length
    length_round announced least most len =
        let four : min 4 (length (e ∷ f ∷ g ∷ h ∷ body ++ tail)) ≡ 4 = omega arith in
        let enough : leb 16 n ≡ true = ground arith in
        let fits : ltb n max_of_msg_size ≡ true = ground arith in
        let room : leb 8 n ≡ true = ground arith in
        rw (four, announced, enough, fits, length-new_bytes n, room) refl

    abbrev with_message : DmPacket
    with_message = record with_length { p_buf = some message; pos = n; remain_len = 0 }

    body_round :
        16 ≤ n
        → n ≡ length message
        → is_dm_packet_valid message n ≡ some true
        → (len : ℕ) → read_round with_length (body ++ tail) len ≡ complete with_message (n - 8)
    unfolding read_round read_body
    body_round least size valid len =
        let size' : min (n - 8) (length (body ++ tail)) ≡ length body =
          omega (arith, length-append body tail) in
        let rest : n - 8 ≡ length body = omega arith in
        let nonzero : (length body == 0) ≡ false = ground arith in
        let within : leb (8 + length body)
              (length (a ∷ b ∷ c ∷ d ∷ e ∷ f ∷ g ∷ h ∷ drop 8 (new_bytes n)))
            ≡ true =
          le→leb _ _ (omega (arith, length-drop 8 (new_bytes n), length-new_bytes n)) in
        let nothing : drop (8 + length body) (a ∷ b ∷ c ∷ d ∷ e ∷ f ∷ g ∷ h ∷ drop 8 (new_bytes n))
            ≡ [] =
          drop_all (8 + length body) _
            (omega (arith, length-drop 8 (new_bytes n), length-new_bytes n)) in
        let none_left : (length body - length body == 0) ≡ true = ground arith in
        let total : 8 + length body ≡ n = omega arith in
        let zero_left : length body - length body ≡ 0 = omega arith in
        rw
          (
            size',
            rest,
            nonzero,
            take-length_append body tail,
            within,
            nothing,
            append-nil body,
            none_left,
            valid,
            total,
            zero_left,
          )
          refl

    -- The three rounds, one behind the other.
    rounds_run :
        (x : ℕ) (body' : List ℕ)
        → body ≡ x ∷ body'
        → p.pos ≡ 0
        → 16 ≤ n
        → n < max_of_msg_size
        → n ≡ length message
        → is_dm_packet_valid message n ≡ some true
        → (rounds : ℕ)
        → read_loop (suc (suc (suc rounds))) p (message ++ tail) 0 0 ≡ ok (true, with_message, n)
    rounds_run x body' split start least most size valid rounds =
        let (same, announced) = valid-header valid in
        let count : 0 + 4 + 4 + (n - 8) ≡ n = omega arith in
        let last : read_loop (suc rounds) with_length (body ++ tail) 4 (0 + 4 + 4)
            ≡ ok (true, with_message, 0 + 4 + 4 + (n - 8)) =
          let e : body ++ tail ≡ x ∷ (body' ++ tail) = ap (λ l. l ++ tail) split in
          subst
            (λ l. read_loop (suc rounds) with_length l 4 8 ≡ ok (true, with_message, 8 + (n - 8)))
            (sym e)
            (read_loop-complete rounds with_length with_message x (body' ++ tail) 4 8 (n - 8) (
              subst (λ l. read_round with_length l 4 ≡ complete with_message (n - 8)) e
                (body_round least size valid 4))) in
        read_loop-more (suc (suc rounds)) p with_header a _ 0 0 4 (header_round start same 0)
        ∙ read_loop-more (suc rounds) with_header with_length e _ 4 (0 + 4) 4
            (length_round announced least most 4)
        ∙ last
        ∙ ap (λ i. ok (true, with_message, i)) count

eight_bytes :
    (l : List ℕ) → length l ≡ 8 → (a b c d e f g h : ℕ) × (l ≡ a ∷ b ∷ c ∷ d ∷ e ∷ f ∷ g ∷ h ∷ [])
eight_bytes (a ∷ b ∷ c ∷ d ∷ e ∷ f ∷ g ∷ h ∷ []) size = (a, b, c, d, e, f, g, h, refl)
eight_bytes _ size = absurd (omega arith)

-- From a packet at its start, `DmPacketRead` puts a message together that `IsDmPacketValid` accepts,
-- of a length in the bounds, whatever stands behind it: it says true, counts the bytes of the
-- message and no more, and holds the message.
pub dm_packet_read-Message :
    (p : DmPacket) (m tail : List ℕ)
    → length p.header_buf ≡ 8
    → p.pos ≡ 0
    → 16 ≤ length m
    → length m < max_of_msg_size
    → is_dm_packet_valid m (length m) ≡ some true
    → (q : DmPacket) × (dm_packet_read p (m ++ tail) ≡ ok (true, q, length m))
      × (q.p_buf ≡ some m)
      × (q.len ≡ length m)
      × (q.remain_len ≡ 0)
unfolding dm_packet_read
dm_packet_read-Message p (a ∷ b ∷ c ∷ d ∷ e ∷ f ∷ g ∷ h ∷ x ∷ body) tail room start least most
      valid =
    let (p0, p1, p2, p3, p4, p5, p6, p7, held) = eight_bytes p.header_buf room in
    let n = length (a ∷ b ∷ c ∷ d ∷ e ∷ f ∷ g ∷ h ∷ x ∷ body) in
    let rounds = 2 * length (a ∷ b ∷ c ∷ d ∷ e ∷ f ∷ g ∷ h ∷ x ∷ body ++ tail) in
    let three : suc rounds ≡ suc (suc (suc (rounds - 2))) = omega arith in
    (
      with_message a b c d e f g h n (x ∷ body) p tail p0 p1 p2 p3 p4 p5 p6 p7 held,
      subst
          (λ r.
            read_loop r p (a ∷ b ∷ c ∷ d ∷ e ∷ f ∷ g ∷ h ∷ x ∷ body ++ tail) 0 0
            ≡ ok (
              true,
              with_message a b c d e f g h n (x ∷ body) p tail p0 p1 p2 p3 p4 p5 p6 p7 held,
              n,
            ))
          (sym three)
          (rounds_run a b c d e f g h n (x ∷ body) p tail p0 p1 p2 p3 p4 p5 p6 p7 held x body refl
            start least most refl valid (rounds - 2)),
      refl,
      refl,
      refl,
    )
dm_packet_read-Message p _ tail room start least most valid = absurd (omega arith)
