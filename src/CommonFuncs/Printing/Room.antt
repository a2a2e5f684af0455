-- ===== src/CommonFuncs/Printing/Room.antt =====
-- What `snprintf` leaves of a buffer, one call after another. utilities/common_funcs.h.
use light_server.Base.{
  ℕ, zero, suc, ◌+◌, ◌-◌, ◌≤◌, ◌<◌, ◌≡◌, refl, sym, ap, subst, ◌∙◌, inl, inr, Bool, true, false,
  Option, some, List, [], ◌∷◌, ◌++◌, append-nil, append_assoc, min, ltb, leb, if◌then◌else◌, length,
  take, drop, arith, length-append, length-take, Bool-cases, take_all,
}
use light_server.Common.Memory.{
  splice, write_at-splice, length-write_at, take-splice, drop-splice, take_front,
}
use light_server.CommonFuncs.Printing.{Output, stored, snprintf_at, print_text, and_print, ◌>>=◌}

-- A text of `n` characters has room in `room` bytes, with a NUL, or there is nothing to print.
abbrev pub has_room : ℕ → ℕ → Bool
has_room n room = leb n (room - 1)

-- What printing `text` comes to: nothing outside of the room changes, and what has room is there.
pub record Prints (o : Output) (text : List ℕ) (r : Option (Bool × Output)) : Type 0 where
  pub after : Output
  pub runs : r ≡ some (has_room (length text) o.room, after)
  pub same_size : length after.buf ≡ length o.buf
  pub outside : drop (o.at + o.room) after.buf ≡ drop (o.at + o.room) o.buf
  pub written :
      has_room (length text) o.room ≡ true
      → (after.at ≡ o.at + length text)
        × (after.room ≡ o.room - length text)
        × (take (o.at + length text) after.buf ≡ take o.at o.buf ++ text)

-- The room is inside of the buffer.
abbrev pub Inside : Output → Type 0
Inside o = o.at + o.room ≤ length o.buf

length-stored : (room : ℕ) (text : List ℕ) → length (stored room text) ≡ min room (length text + 1)
length-stored zero text = omega arith
length-stored (suc n) text = omega (arith, length-append (take n text) (0 ∷ []), length-take n text)

stored_all : (room : ℕ) (text : List ℕ) → length text < room → stored room text ≡ text ++ (0 ∷ [])
stored_all zero text h = absurd (omega arith)
stored_all (suc n) text h = ap (λ l. l ++ (0 ∷ [])) (take_all n text (omega arith))

-- What `snprintf` leaves of the buffer.
abbrev pub put : Output → List ℕ → List ℕ
put o text = splice o.buf o.at (stored o.room text)

module _ (o : Output) (text : List ℕ) (inside : Inside o) where
  fits_in : o.at + length (stored o.room text) ≤ o.at + o.room
  fits_in = omega (arith, length-stored o.room text)

  pub snprintf_runs : snprintf_at o text ≡ some (record o { buf = put o text })
  snprintf_runs =
      ap (λ w. w >>= λ b. some (record o { buf = b }))
        (write_at-splice o.buf o.at (stored o.room text) (omega (arith, fits_in)))

  pub length-put : length (put o text) ≡ length o.buf
  length-put = length-write_at o.buf o.at (stored o.room text) (omega (arith, fits_in))

  pub drop-put : drop (o.at + o.room) (put o text) ≡ drop (o.at + o.room) o.buf
  drop-put =
      drop-splice o.buf o.at (stored o.room text) (o.at + o.room) fits_in (omega (arith, fits_in))

  pub take-put :
      take (o.at + length (stored o.room text)) (put o text) ≡ take o.at o.buf ++ stored o.room text
  take-put = take-splice o.buf o.at (stored o.room text) (omega (arith, fits_in))

  take-put_text :
      length text < o.room → take (o.at + length text) (put o text) ≡ take o.at o.buf ++ text
  take-put_text h =
      let t = take o.at o.buf in
      let z : List ℕ = 0 ∷ [] in
      let rest = drop (o.at + length (text ++ z)) o.buf in
      ap (λ st. take (o.at + length text) (splice o.buf o.at st)) (stored_all o.room text h)
      ∙ ap (λ l. take (o.at + length text) (t ++ l)) (append_assoc text z rest)
      ∙ ap (take (o.at + length text)) (sym (append_assoc t text (z ++ rest)))
      ∙ take_front (o.at + length text) (t ++ text) (z ++ rest)
          (omega (arith, length-append t text, length-take o.at o.buf))

  rest_of : Output → Option (Bool × Output)
  rest_of o' = some (
      if ltb (length text) o.room
      then (true, record o' { at = o.at + length text; room = o.room - length text })
      else (false, o'))

  pub print_text-Prints : 0 < length text → Prints o text (print_text text o)
  unfolding rest_of
  print_text-Prints given = elim (Bool-cases (ltb (length text) o.room)) [
    | inl fits ↦
        let enough : has_room (length text) o.room ≡ true = ground arith in
        record {
          after = record o {
            buf = put o text;
            at = o.at + length text;
            room = o.room - length text;
          };
          runs = ap (λ w. w >>= rest_of) snprintf_runs ∙ rw (fits, enough) refl;
          same_size = length-put;
          outside = drop-put;
          written = λ h. (refl, refl, take-put_text (ground arith));
        }
    | inr short ↦
        let enough : has_room (length text) o.room ≡ false = ground arith in
        record {
          after = record o { buf = put o text };
          runs = ap (λ w. w >>= rest_of) snprintf_runs ∙ rw (short, enough) refl;
          same_size = length-put;
          outside = drop-put;
          written = λ h. absurd (ground arith);
        }
  ]

pub Prints-nothing : (o : Output) → Prints o [] (some (true, o))
Prints-nothing o =
    let same : o.at + 0 ≡ o.at = omega arith in
    record {
      after = o;
      runs = ap (λ b. some (b, o)) (ground arith);
      same_size = refl;
      outside = refl;
      written = λ h. (omega arith, omega arith, ap (λ n. take n o.buf) same ∙ sym (append-nil _));
    }

pub Prints-and :
    (o : Output) (a b : List ℕ) (r : Option (Bool × Output))
    (next : Output → Option (Bool × Output))
    → Inside o
    → Prints o a r
    → ((o' : Output) → Inside o' → Prints o' b (next o'))
    → Prints o (a ++ b) (and_print r next)
Prints-and o a b r next inside p later = elim (Bool-cases (has_room (length a) o.room)) [
  | inl fits ↦
      let (at, room, text) = p.written fits in
      let small : length a ≤ o.room = ground arith in
      let q = later p.after (omega (arith, p.same_size)) in
      let both : has_room (length b) p.after.room ≡ has_room (length (a ++ b)) o.room =
        ground (arith, length-append a b) in
      let end : p.after.at + p.after.room ≡ o.at + o.room = omega arith in
      record {
        after = q.after;
        runs =
            ap (λ r. and_print r next) (p.runs ∙ ap (λ c. some (c, p.after)) fits)
            ∙ q.runs
            ∙ ap (λ c. some (c, q.after)) both;
        same_size = q.same_size ∙ p.same_size;
        outside = subst (λ n. drop n q.after.buf ≡ drop n p.after.buf) end q.outside ∙ p.outside;
        written = λ h.
            let (at', room', text') = q.written (both ∙ h) in
            (
              omega (arith, length-append a b),
              omega (arith, length-append a b),
              ap (λ n. take n q.after.buf) (omega (arith, length-append a b))
                  ∙ text'
                  ∙ ap (λ l. l ++ b) (ap (λ n. take n p.after.buf) at ∙ text)
                  ∙ append_assoc (take o.at o.buf) a b,
            );
      }
  | inr short ↦ record {
    after = p.after;
    runs =
        ap (λ r. and_print r next) (p.runs ∙ ap (λ c. some (c, p.after)) short)
        ∙ ap (λ c. some (c, p.after)) (ground (arith, length-append a b));
    same_size = p.same_size;
    outside = p.outside;
    written = λ h. absurd (ground (arith, length-append a b));
  }
]
