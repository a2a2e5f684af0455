-- ===== src/DmPacket/Stream.antt =====
-- A receiver that gives the bytes of a stream to `DmPacketRead` of examples/dm_packet.cpp as they come,
-- and calls it again for what stands behind a message.

use light_server.Base.{
  ℕ, zero, suc, ◌+◌, ◌≤◌, ◌<◌, ◌≡◌, refl, inr, true, false, Option, none, some, List, [], ◌∷◌, ◌++◌,
  length, drop, arith, length-append, length-drop, drop-append_le, drop-append_ge, sym, ap, ◌∙◌,
}
use light_server.Machine.{Fault, Result, ok, fault}
use light_server.DmPacket.{DmPacket, read_loop, dm_packet_read}
use light_server.DmPacket.Shape.{WellFormed}
use light_server.DmPacket.Reading.{Ends, dm_packet_read-Ends}
use light_server.DmPacket.Looping.{Outcome, go_on, behind}
use light_server.DmPacket.Pieces.{then_read, dm_packet_read-append}

-- The messages that were received, and the packet behind them.
abbrev pub Received : Type 0
Received = Result (List (List ℕ) × DmPacket)

abbrev pub with_message : Option (List ℕ) → Received → Received
with_message none r = fault Fault.undefined_behaviour
with_message (some m) (ok (ms, q)) = ok (m ∷ ms, q)
with_message (some m) (fault e) = fault e

-- Where a call says true, the packet holds a message.
abbrev pub found : Outcome → (DmPacket → ℕ → Received) → Received
found (ok (true, q, n)) rest = with_message q.p_buf (rest q n)
found (ok (false, q, n)) rest = ok ([], q)
found (fault e) rest = fault e

unfoldable pub collect : ℕ → DmPacket → List ℕ → Received
collect rounds p [] = ok ([], p)
collect zero p (x ∷ rx) = fault Fault.out_of_rounds
collect (suc rounds) p (x ∷ rx) =
    found (dm_packet_read p (x ∷ rx)) (λ q n. collect rounds q (drop n (x ∷ rx)))

-- One piece: each message takes a byte at least.
unfoldable pub receive_piece : DmPacket → List ℕ → Received
receive_piece p rx = collect (length rx) p rx

abbrev pub prepend : List (List ℕ) → Received → Received
prepend ms (ok (ms', q)) = ok (ms ++ ms', q)
prepend ms (fault e) = fault e

abbrev pub go_on_with : Received → (DmPacket → Received) → Received
go_on_with (ok (ms, q)) rest = prepend ms (rest q)
go_on_with (fault e) rest = fault e

unfoldable pub receive : DmPacket → List (List ℕ) → Received
receive p [] = ok ([], p)
receive p (a ∷ pieces) = go_on_with (receive_piece p a) (λ q. receive q pieces)

prepend-nil : (r : Received) → prepend [] r ≡ r
prepend-nil (ok (ms, q)) = refl
prepend-nil (fault e) = refl

with_message-go_on :
    (o : Option (List ℕ)) (r : Received) (rest : DmPacket → Received)
    → with_message o (go_on_with r rest) ≡ go_on_with (with_message o r) rest
with_message-go_on none r rest = refl
with_message-go_on (some m) (fault e) rest = refl
with_message-go_on (some m) (ok (ms, q)) rest = with_front (rest q)
  where
    with_front : (r : Received) → with_message (some m) (prepend ms r) ≡ prepend (m ∷ ms) r
    with_front (ok (ms', q')) = refl
    with_front (fault e) = refl

pub collect-nil : (rounds : ℕ) (p : DmPacket) → collect rounds p [] ≡ ok ([], p)
unfolding collect
collect-nil zero p = refl
collect-nil (suc rounds) p = refl

found-same :
    (rx : List ℕ) (r : Outcome) (f g : DmPacket → ℕ → Received)
    → Ends rx 0 r
    → ((q : DmPacket) (n : ℕ) → WellFormed q → 0 < n → n ≤ length rx → f q n ≡ g q n)
    → found r f ≡ found r g
found-same rx (ok (true, q, n)) f g (w, _, some_read, inside) same =
    ap (with_message q.p_buf) (same q n w some_read (omega arith))
found-same rx (ok (false, q, n)) f g ends same = refl
found-same rx (fault e) f g ends same = refl

-- Rounds for each byte are enough.
pub collect-same :
    (rounds rounds' : ℕ) (p : DmPacket) (rx : List ℕ)
    → WellFormed p
    → length rx ≤ rounds
    → length rx ≤ rounds'
    → collect rounds p rx ≡ collect rounds' p rx
unfolding collect
collect-same rounds rounds' p [] w e e' = collect-nil rounds p ∙ sym (collect-nil rounds' p)
collect-same zero rounds' p (x ∷ rx) w e e' = absurd (omega arith)
collect-same (suc rounds) zero p (x ∷ rx) w e e' = absurd (omega arith)
collect-same (suc rounds) (suc rounds') p (x ∷ rx) w e e' =
    found-same (x ∷ rx) (dm_packet_read p (x ∷ rx)) _ _
      (dm_packet_read-Ends p (x ∷ rx) w (inr (omega arith)))
      (λ q n wq some_read inside.
        collect-same rounds rounds' q (drop n (x ∷ rx)) wq (omega (arith, length-drop n (x ∷ rx)))
          (omega (arith, length-drop n (x ∷ rx))))

dm_packet_read-nil : (p : DmPacket) → dm_packet_read p [] ≡ ok (false, p, 0)
unfolding dm_packet_read read_loop
dm_packet_read-nil p = refl

module _ (rounds : ℕ) (a b : List ℕ) (enough : length (a ++ b) ≤ suc rounds)
    (given : 0 < length a) where
  counted_behind :
      (rounds' n : ℕ) (r : Outcome)
      → Ends b 0 r
      → n ≡ length a
      → length b ≤ suc rounds'
      → found (behind n r) (λ q m. collect rounds q (drop m (a ++ b)))
        ≡ found r (λ q m. collect rounds' q (drop m b))
  counted_behind rounds' n (ok (true, q, m)) (w, _, some_read, inside) taken enough' =
      let past : drop (n + m) (a ++ b) ≡ drop m b = rw taken (drop-append_ge m a b) in
      ap (λ l. with_message q.p_buf (collect rounds q l)) past
      ∙ ap (with_message q.p_buf) (
          collect-same rounds rounds' q (drop m b) w
            (omega (arith, length-drop m b, length-append a b)) (omega (arith, length-drop m b)))
  counted_behind rounds' n (ok (false, q, m)) ends taken enough' = refl
  counted_behind rounds' n (fault e) ends taken enough' = refl

-- The first piece is taken, and no message is whole: the second one goes on.
found-behind :
    (rounds rounds' : ℕ) (a b : List ℕ) (q : DmPacket) (n : ℕ)
    → length (a ++ b) ≤ suc rounds
    → 0 < length a
    → WellFormed q
    → n ≡ length a
    → length b ≤ rounds'
    → found (behind n (dm_packet_read q b)) (λ q' m. collect rounds q' (drop m (a ++ b)))
      ≡ collect rounds' q b
unfolding collect
found-behind rounds rounds' a [] q n enough given w taken enough' =
    ap (λ r. found (behind n r) (λ q' m. collect rounds q' (drop m (a ++ []))))
      (dm_packet_read-nil q)
    ∙ sym (collect-nil rounds' q)
found-behind rounds zero a (y ∷ b) q n enough given w taken enough' = absurd (omega arith)
found-behind rounds (suc rounds') a (y ∷ b) q n enough given w taken enough' =
    counted_behind rounds a (y ∷ b) enough given rounds' n (dm_packet_read q (y ∷ b))
      (dm_packet_read-Ends q (y ∷ b) w (inr (omega arith))) taken enough'

module _ (rounds first second : ℕ) (a b : List ℕ) (enough : length (a ++ b) ≤ suc rounds)
    (given : 0 < length a) (enough' : length b ≤ second) where
  found-go_on :
      (r : Outcome)
      → Ends a 0 r
      → ((q : DmPacket) (n : ℕ)
          → WellFormed q
          → 0 < n
          → n ≤ length a
          → collect rounds q (drop n a ++ b)
            ≡ go_on_with (collect first q (drop n a)) (λ q'. collect second q' b))
      → found (go_on r (then_read b)) (λ q n. collect rounds q (drop n (a ++ b)))
        ≡ go_on_with (found r (λ q n. collect first q (drop n a))) (λ q. collect second q b)
  found-go_on (ok (true, q, n)) (w, _, some_read, inside) rest =
      ap (λ l. with_message q.p_buf (collect rounds q l)) (drop-append_le n a b (omega arith))
      ∙ ap (with_message q.p_buf) (rest q n w some_read (omega arith))
      ∙ with_message-go_on q.p_buf (collect first q (drop n a)) (λ q'. collect second q' b)
  found-go_on (ok (false, q, n)) (w, ready, all_read) rest =
      found-behind rounds second a b q n enough given w (omega arith) enough'
      ∙ sym (prepend-nil (collect second q b))
  found-go_on (fault e) ends rest = refl

pub collect-append :
    (rounds first second : ℕ) (p : DmPacket) (a b : List ℕ)
    → WellFormed p
    → length (a ++ b) ≤ rounds
    → length a ≤ first
    → length b ≤ second
    → collect rounds p (a ++ b) ≡ go_on_with (collect first p a) (λ q. collect second q b)
unfolding collect
collect-append rounds first second p [] b w e e1 e2 =
    collect-same rounds second p b w e e2
    ∙ sym (prepend-nil (collect second p b))
    ∙ ap (λ r. go_on_with r (λ q. collect second q b)) (sym (collect-nil first p))
collect-append zero first second p (x ∷ a) b w e e1 e2 = absurd (omega arith)
collect-append (suc rounds) zero second p (x ∷ a) b w e e1 e2 = absurd (omega arith)
collect-append (suc rounds) (suc first) second p (x ∷ a) b w e e1 e2 =
    ap (λ r. found r (λ q n. collect rounds q (drop n (x ∷ (a ++ b)))))
      (dm_packet_read-append p (x ∷ a) b w (inr (omega arith)))
    ∙ found-go_on rounds first second (x ∷ a) b e (omega arith) e2 (dm_packet_read p (x ∷ a))
        (dm_packet_read-Ends p (x ∷ a) w (inr (omega arith)))
        (λ q n wq some_read inside.
          collect-append rounds first second q (drop n (x ∷ a)) b wq
            (omega (
              arith,
              length-append (drop n (x ∷ a)) b,
              length-append (x ∷ a) b,
              length-drop n (x ∷ a),
            ))
            (omega (arith, length-drop n (x ∷ a))) e2)
