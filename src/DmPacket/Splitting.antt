-- ===== src/DmPacket/Splitting.antt =====
-- A round of `DmPacketRead`, in examples/dm_packet.cpp, on a piece and on what stands behind it.
pub mod Branches
use light_server.Base.{
  ℕ, zero, suc, ◌+◌, ◌-◌, ◌*◌, ◌≤◌, ◌<◌, ◌≡◌, refl, ◌⊎◌, inl, inr, Bool, true, false, not, ◌&&◌,
  Option, none, some, List, [], ◌∷◌, ◌++◌, min, ltb, leb, ◌==◌, if◌then◌else◌, length, take, drop,
  arith, length-take, length-drop, length-append, sym, ap, subst, ◌∙◌, append-nil, append_assoc,
  drop-drop, take-append_ge, take-append_le, take-length_append, drop-length_append, take_all,
  Bool-cases,
}
use light_server.Common.Memory.{
  splice, splice-splice, write_at-splice, length-write_at, take_front, drop_front,
}
use light_server.DmPacket.{
  DmPacket, header_size, data_pos, max_of_msg_size, msg_header, new_bytes, is_dm_packet_valid,
  reset_packet, same_bytes, slice, write_at, Round, more, complete, undefined, or_undefined,
  read_header, read_length, read_body, read_round, le32, accept_length, check_message,
}
use light_server.DmPacket.Shape.{WellFormed, Ready, Open, Waiting}

-- `n` bytes more were taken.
abbrev pub shift : ℕ → Round → Round
shift n undefined = undefined
shift n (complete q m) = complete q (n + m)
shift n (more q m) = more q (n + m)

shift-if :
    (n : ℕ) (c : Bool) (x y : Round)
    → shift n (if c then x else y) ≡ (if c then shift n x else shift n y)
shift-if n true x y = refl
shift-if n false x y = refl

shift-or_undefined :
    {A : Type 0} (n : ℕ) (o : Option A) (f g : A → Round)
    → ((x : A) → f x ≡ shift n (g x))
    → or_undefined o f ≡ shift n (or_undefined o g)
shift-or_undefined n none f g e = refl
shift-or_undefined n (some x) f g e = e x

-- At `pos` of `buf` a round waits for `length a + w` bytes: first come `a`, then `b`.
module _ (buf : List ℕ) (pos w : ℕ) (a b : List ℕ) (room : pos + (length a + w) ≤ length buf) where
  total : min (length a + w) (length (a ++ b)) ≡ length a + min w (length b)
  total = omega (arith, length-append a b)

  pub first_write :
      write_at buf pos (take (min (length a + w) (length a)) a) ≡ some (splice buf pos a)
  first_write =
      ap (λ l. write_at buf pos l) (take_all (min (length a + w) (length a)) a (omega arith))
      ∙ write_at-splice buf pos a (omega arith)

  all_bytes : take (length a + min w (length b)) (a ++ b) ≡ a ++ take (min w (length b)) b
  all_bytes =
      take-append_ge (length a + min w (length b)) a b (omega arith)
      ∙ ap (λ n. a ++ take n b) (omega arith)

  second_write :
      write_at buf pos (take (length a + min w (length b)) (a ++ b))
      ≡ write_at (splice buf pos a) (pos + length a) (take (min w (length b)) b)
  second_write =
      let c = take (min w (length b)) b in
      let size : length c ≤ w = omega (arith, length-take (min w (length b)) b) in
      ap (λ l. write_at buf pos l) all_bytes
      ∙ write_at-splice buf pos (a ++ c) (omega (arith, length-append a c))
      ∙ ap some (sym (splice-splice buf pos a c (omega arith)))
      ∙ sym (
          write_at-splice (splice buf pos a) (pos + length a) c
            (omega (arith, length-write_at buf pos a (omega arith))))

  -- What the round does with the buffer that was written and the count, for all and for `b` alone.
  pub one_round :
      (whole part : List ℕ → ℕ → Round)
      → ((h : List ℕ) (n : ℕ) → whole h (length a + n) ≡ shift (length a) (part h n))
      → or_undefined
          (write_at buf pos (take (min (length a + w) (length (a ++ b))) (a ++ b)))
          (λ h. whole h (min (length a + w) (length (a ++ b))))
        ≡ shift (length a) (
            or_undefined
              (write_at (splice buf pos a) (pos + length a) (take (min w (length b)) b))
              (λ h. part h (min w (length b))))
  one_round whole part counts =
      ap (λ n. or_undefined (write_at buf pos (take n (a ++ b))) (λ h. whole h n)) total
      ∙ ap (λ o. or_undefined o (λ h. whole h (length a + min w (length b)))) second_write
      ∙ shift-or_undefined (length a) _ _ _ (λ h. counts h (min w (length b)))

-- What follows a round counts what it was given, and looks at nothing else of it.
shift-accept_length :
    (k : ℕ) (q : DmPacket) (msg_len n : ℕ)
    → shift k (accept_length q msg_len n) ≡ accept_length q msg_len (k + n)
shift-accept_length k q msg_len n =
    shift-if k (leb 16 msg_len && ltb msg_len max_of_msg_size) _ _
    ∙ ap
        (λ r.
          if leb 16 msg_len && ltb msg_len max_of_msg_size
          then r
          else more (reset_packet q) (k + n))
        (sym (
          shift-or_undefined k (slice q.header_buf 0 data_pos) _ _
            (λ h. shift-or_undefined k (write_at (new_bytes msg_len) 0 h) _ _ (λ b. refl))))

shift-check_message :
    (k : ℕ) (q : DmPacket) (b : List ℕ) (n : ℕ)
    → shift k (check_message q b n) ≡ check_message q b (k + n)
shift-check_message k q b n = sym (
    shift-or_undefined k (is_dm_packet_valid b q.len) _ _
      (λ valid. sym (shift-if k valid (complete q n) (more (reset_packet q) n))))

-- What the three branches do behind `memcpy`, with the packet as it is then.
abbrev pub after_header : DmPacket → ℕ → Round
after_header q n =
    if leb header_size q.pos && not (same_bytes (take 4 q.header_buf) msg_header)
    then more (reset_packet q) n
    else more q n

abbrev pub after_length : DmPacket → ℕ → Round
after_length q n =
    if q.pos == data_pos
    then or_undefined (slice q.header_buf 4 4) (λ l. accept_length q (le32 l) n)
    else more q n

abbrev pub after_body : List ℕ → DmPacket → ℕ → Round
after_body b q n = if q.remain_len == 0 then check_message q b n else more q n

pub shift-after_header :
    (k : ℕ) (q : DmPacket) (n : ℕ) → after_header q (k + n) ≡ shift k (after_header q n)
shift-after_header k q n = sym (
    shift-if k (leb header_size q.pos && not (same_bytes (take 4 q.header_buf) msg_header))
      (more (reset_packet q) n) (more q n))

pub shift-after_length :
    (k : ℕ) (q : DmPacket) (n : ℕ) → after_length q (k + n) ≡ shift k (after_length q n)
shift-after_length k q n =
    let o : Round = or_undefined (slice q.header_buf 4 4) (λ l. accept_length q (le32 l) n) in
    ap (λ r. if q.pos == data_pos then r else more q (k + n))
      (shift-or_undefined k (slice q.header_buf 4 4) _ (λ l. accept_length q (le32 l) n)
        (λ l. sym (shift-accept_length k q (le32 l) n)))
    ∙ sym (shift-if k (q.pos == data_pos) o (more q n))

pub shift-after_body :
    (k : ℕ) (b : List ℕ) (q : DmPacket) (n : ℕ)
    → after_body b q (k + n) ≡ shift k (after_body b q n)
shift-after_body k b q n =
    ap (λ r. if q.remain_len == 0 then r else more q (k + n)) (sym (shift-check_message k q b n))
    ∙ sym (shift-if k (q.remain_len == 0) (check_message q b n) (more q n))
