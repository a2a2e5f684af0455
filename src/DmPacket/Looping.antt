-- ===== src/DmPacket/Looping.antt =====
-- The loop of `DmPacketRead`, in examples/dm_packet.cpp, on two pieces of a stream.
use light_server.Base.{
  ℕ, zero, suc, ◌+◌, ◌≤◌, ◌<◌, ◌≡◌, refl, inl, inr, Bool, true, false, List, [], ◌∷◌, ◌++◌, length,
  drop, arith, length-drop, length-append, drop_all, leb, Bool-cases, drop-append_ge,
  drop-append_le, sym, ap, subst, ◌∙◌, append-nil,
}
use light_server.Machine.{Fault, Result, ok, fault}
use light_server.DmPacket.{DmPacket, Round, more, complete, undefined, read_round, read_loop}
use light_server.DmPacket.Splitting.{shift}
use light_server.DmPacket.Splitting.Branches.{need, read_round-enough, read_round-split}
use light_server.DmPacket.Shape.{WellFormed, Ready}
use light_server.DmPacket.Rounds.{Advances, read_round-Advances}

abbrev pub Outcome : Type 0
Outcome = Result (Bool × DmPacket × ℕ)

-- Where a call took all its bytes and says false, the next one goes on.
abbrev pub go_on : Outcome → (DmPacket → ℕ → Outcome) → Outcome
go_on (ok (true, q, n)) next = ok (true, q, n)
go_on (ok (false, q, n)) next = next q n
go_on (fault e) next = fault e

-- A call behind `n` bytes that were counted before.
abbrev pub behind : ℕ → Outcome → Outcome
behind n (ok (b, q, m)) = ok (b, q, n + m)
behind n (fault e) = fault e

-- What the rest of the loop makes of a round.
abbrev pub follow : ℕ → List ℕ → ℕ → Round → Outcome
follow rounds rx done undefined = fault Fault.undefined_behaviour
follow rounds rx done (complete q n) = ok (true, q, done + n)
follow rounds rx done (more q n) = read_loop rounds q (drop n rx) n (done + n)

pub read_loop-follow :
    (rounds : ℕ) (p : DmPacket) (x : ℕ) (rx : List ℕ) (len done : ℕ)
    → read_loop (suc rounds) p (x ∷ rx) len done
      ≡ follow rounds (x ∷ rx) done (read_round p (x ∷ rx) len)
unfolding read_loop
read_loop-follow rounds p x rx len done = refl

-- Only a round that gives up a whole message looks at the count of the round before.
read_round-len :
    (p : DmPacket) (rx : List ℕ) (len len' : ℕ)
    → Ready p
    → read_round p rx len ≡ read_round p rx len'
unfolding read_round
read_round-len p rx len len' (inl early) = ground arith
read_round-len p rx len len' (inr left) = ground arith

-- The loop does not depend on how many rounds are left, if they are enough.
module _ (rounds rounds' : ℕ) (rx : List ℕ) (done : ℕ) where
  follow-same :
      (r : Round)
      → Advances rx r
      → ((q : DmPacket) (n len' : ℕ)
          → WellFormed q
          → Ready q
          → 0 < n
          → n ≤ length rx
          → read_loop rounds q (drop n rx) n (done + n)
            ≡ read_loop rounds' q (drop n rx) n (done + n))
      → follow rounds rx done r ≡ follow rounds' rx done r
  follow-same undefined h rest = refl
  follow-same (complete q n) h rest = refl
  follow-same (more q n) (w, ready, some_read, inside) rest = rest q n n w ready some_read inside

pub read_loop-same :
    (rounds rounds' : ℕ) (p : DmPacket) (rx : List ℕ) (len len' done : ℕ)
    → WellFormed p
    → Ready p
    → length rx ≤ rounds
    → length rx ≤ rounds'
    → read_loop rounds p rx len done ≡ read_loop rounds' p rx len' done
unfolding read_loop
read_loop-same rounds rounds' p [] len len' done w ready e e' = refl
read_loop-same zero rounds' p (x ∷ rx) len len' done w ready e e' = absurd (omega arith)
read_loop-same (suc rounds) zero p (x ∷ rx) len len' done w ready e e' = absurd (omega arith)
read_loop-same (suc rounds) (suc rounds') p (x ∷ rx) len len' done w ready e e' =
    read_loop-follow rounds p x rx len done
    ∙ follow-same rounds rounds' (x ∷ rx) done (read_round p (x ∷ rx) len)
        (read_round-Advances p (x ∷ rx) len w ready (omega arith))
        (λ q n len'' wq rq some_read inside.
          read_loop-same rounds rounds' q (drop n (x ∷ rx)) n n (done + n) wq rq
            (omega (arith, length-drop n (x ∷ rx))) (omega (arith, length-drop n (x ∷ rx))))
    ∙ ap (λ r. follow rounds' (x ∷ rx) done r) (read_round-len p (x ∷ rx) len len' ready)
    ∙ sym (read_loop-follow rounds' p x rx len' done)

module _ (rounds rounds' : ℕ) (a b : List ℕ) (done : ℕ) (enough : length b ≤ suc rounds)
    (enough' : length b ≤ suc rounds') where
  -- A round on both pieces that goes on in the second one.
  follow-shift :
      (r : Round)
      → Advances b r
      → follow rounds (a ++ b) done (shift (length a) r) ≡ follow rounds' b (done + length a) r
  follow-shift undefined h = refl
  follow-shift (complete q n) h =
      let e : done + (length a + n) ≡ done + length a + n = omega arith in
      ap (λ (m : ℕ). ok (true, q, m)) e
  follow-shift (more q n) (w, ready, some_read, inside) =
      let e : done + (length a + n) ≡ done + length a + n = omega arith in
      ap (λ l. read_loop rounds q l (length a + n) (done + (length a + n))) (drop-append_ge n a b)
      ∙ ap (λ m. read_loop rounds q (drop n b) (length a + n) m) e
      ∙ read_loop-same rounds rounds' q (drop n b) (length a + n) n (done + length a + n) w ready
          (omega (arith, length-drop n b)) (omega (arith, length-drop n b))

read_loop-nil :
    (rounds : ℕ) (p : DmPacket) (len done : ℕ)
    → read_loop rounds p [] len done ≡ ok (false, p, done)
unfolding read_loop
read_loop-nil zero p len done = refl
read_loop-nil (suc rounds) p len done = refl

-- Nothing stands behind the first piece.
go_on-nil : (rounds : ℕ) (r : Outcome) → go_on r (λ q n. read_loop rounds q [] 0 n) ≡ r
unfolding read_loop
go_on-nil rounds (ok (true, q, n)) = refl
go_on-nil rounds (ok (false, q, n)) = refl
go_on-nil rounds (fault e) = refl

module _ (a b : List ℕ) (done rounds' : ℕ) (next : DmPacket → ℕ → Outcome) where
  -- A round that stays in the first piece.
  follow-go_on :
      (rounds : ℕ) (r : Round)
      → Advances a r
      → ((q : DmPacket) (n : ℕ)
          → WellFormed q
          → Ready q
          → 0 < n
          → n ≤ length a
          → read_loop rounds q (drop n a ++ b) n (done + n)
            ≡ go_on (read_loop rounds' q (drop n a) n (done + n)) next)
      → follow rounds (a ++ b) done r ≡ go_on (follow rounds' a done r) next
  follow-go_on rounds undefined h rest = refl
  follow-go_on rounds (complete q n) h rest = refl
  follow-go_on rounds (more q n) (w, ready, some_read, inside) rest =
      ap (λ l. read_loop rounds q l n (done + n)) (drop-append_le n a b inside)
      ∙ rest q n w ready some_read inside

follow_all :
    (rounds : ℕ) (a : List ℕ) (done : ℕ) (q : DmPacket)
    → follow rounds a done (more q (length a)) ≡ ok (false, q, done + length a)
unfolding read_loop
follow_all zero a done q = rw (drop_all (length a) a (omega arith)) refl
follow_all (suc rounds) a done q = rw (drop_all (length a) a (omega arith)) refl

-- A round that takes all of the first piece and waits for more.
follow-short :
    (rounds rounds' : ℕ) (p : DmPacket) (a : List ℕ) (y : ℕ) (b : List ℕ) (len done : ℕ)
    → WellFormed p
    → Ready p
    → 0 < length a
    → length a < need p
    → length (y ∷ b) ≤ suc rounds
    → follow rounds (a ++ (y ∷ b)) done (read_round p (a ++ (y ∷ b)) len)
      ≡ go_on
          (follow rounds' a done (read_round p a len))
          (λ q n. read_loop (length (y ∷ b)) q (y ∷ b) 0 n)
follow-short rounds rounds' p a y b len done w ready some_given short enough =
    let (q, first, both) = read_round-split p a (y ∷ b) len w ready short in
    let (wq, rq, _, _) : Advances a (more q (length a)) =
      subst (Advances a) first (read_round-Advances p a len w ready some_given) in
    ap (λ r. follow rounds (a ++ (y ∷ b)) done r) (both 0)
    ∙ follow-shift rounds (length b) a (y ∷ b) done enough (omega arith) (read_round q (y ∷ b) 0)
        (read_round-Advances q (y ∷ b) 0 wq rq (omega arith))
    ∙ sym (read_loop-follow (length b) q y b 0 (done + length a))
    ∙ sym (
        ap (λ r. go_on r (λ q n. read_loop (length (y ∷ b)) q (y ∷ b) 0 n))
          (ap (λ r. follow rounds' a done r) first ∙ follow_all rounds' a done q))

pub read_loop-append :
    (rounds rounds' : ℕ) (p : DmPacket) (a b : List ℕ) (len done : ℕ)
    → WellFormed p
    → Ready p
    → length (a ++ b) ≤ rounds
    → length a ≤ rounds'
    → read_loop rounds p (a ++ b) len done
      ≡ go_on (read_loop rounds' p a len done) (λ q n. read_loop (length b) q b 0 n)
read_loop-append rounds rounds' p [] b len done w ready e e' =
    read_loop-same rounds (length b) p b len 0 done w ready e (omega arith)
    ∙ ap (λ r. go_on r (λ q n. read_loop (length b) q b 0 n))
        (sym (read_loop-nil rounds' p len done))
read_loop-append zero rounds' p (x ∷ a) b len done w ready e e' = absurd (omega arith)
read_loop-append (suc rounds) zero p (x ∷ a) b len done w ready e e' = absurd (omega arith)
read_loop-append (suc rounds) (suc rounds') p (x ∷ a) [] len done w ready e e' =
    ap (λ l. read_loop (suc rounds) p l len done) (append-nil (x ∷ a))
    ∙ read_loop-same (suc rounds) (suc rounds') p (x ∷ a) len len done w ready
        (omega (arith, length-append a [])) e'
    ∙ sym (go_on-nil 0 (read_loop (suc rounds') p (x ∷ a) len done))
read_loop-append (suc rounds) (suc rounds') p (x ∷ a) (y ∷ b) len done w ready e e' =
    let next : DmPacket → ℕ → Outcome = λ q n. read_loop (length (y ∷ b)) q (y ∷ b) 0 n in
    let size = length-append a (y ∷ b) in
    read_loop-follow rounds p x (a ++ (y ∷ b)) len done
    ∙ elim (Bool-cases (leb (need p) (length (x ∷ a)))) [
      | inl enough ↦
          ap (λ r. follow rounds (x ∷ (a ++ (y ∷ b))) done r)
            (read_round-enough p (x ∷ a) (y ∷ b) len (ground arith))
          ∙ follow-go_on (x ∷ a) (y ∷ b) done rounds' next rounds (read_round p (x ∷ a) len)
              (read_round-Advances p (x ∷ a) len w ready (omega arith))
              (λ q n wq rq some_read inside.
                read_loop-append rounds rounds' q (drop n (x ∷ a)) (y ∷ b) n (done + n) wq rq
                  (omega (
                    arith,
                    length-append (drop n (x ∷ a)) (y ∷ b),
                    length-append (x ∷ a) (y ∷ b),
                    length-drop n (x ∷ a),
                  ))
                  (omega (arith, length-drop n (x ∷ a))))
      | inr short ↦
          follow-short rounds rounds' p (x ∷ a) y b len done w ready (omega arith) (ground arith)
            (omega arith)
    ]
    ∙ ap (λ r. go_on r next) (sym (read_loop-follow rounds' p x a len done))

pub read_loop-behind :
    (n rounds : ℕ) (p : DmPacket) (rx : List ℕ) (len done : ℕ)
    → read_loop rounds p rx len (n + done) ≡ behind n (read_loop rounds p rx len done)
unfolding read_loop
read_loop-behind n rounds p [] len done =
    read_loop-nil rounds p len (n + done) ∙ sym (ap (behind n) (read_loop-nil rounds p len done))
read_loop-behind n zero p (x ∷ rx) len done = refl
read_loop-behind n (suc rounds) p (x ∷ rx) len done =
    read_loop-follow rounds p x rx len (n + done)
    ∙ follow-behind (read_round p (x ∷ rx) len)
        (λ q m. read_loop-behind n rounds q (drop m (x ∷ rx)) m (done + m))
    ∙ sym (ap (behind n) (read_loop-follow rounds p x rx len done))
  where
    follow-behind :
        (r : Round)
        → ((q : DmPacket) (m : ℕ)
            → read_loop rounds q (drop m (x ∷ rx)) m (n + (done + m))
              ≡ behind n (read_loop rounds q (drop m (x ∷ rx)) m (done + m)))
        → follow rounds (x ∷ rx) (n + done) r ≡ behind n (follow rounds (x ∷ rx) done r)
    follow-behind undefined rest = refl
    follow-behind (complete q m) rest =
        let e : n + done + m ≡ n + (done + m) = omega arith in ap (λ (i : ℕ). ok (true, q, i)) e
    follow-behind (more q m) rest =
        let e : n + done + m ≡ n + (done + m) = omega arith in
        ap (λ i. read_loop rounds q (drop m (x ∷ rx)) m i) e ∙ rest q m
