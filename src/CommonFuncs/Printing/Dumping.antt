-- ===== src/CommonFuncs/Printing/Dumping.antt =====
-- What `SnprintIntBuffer` of utilities/common_funcs.h prints, and when it says that the buffer is too
-- small.
use light_server.Base.{
  ℕ, zero, suc, ◌+◌, ◌-◌, ◌*◌, ◌%◌, ◌^◌, ◌≤◌, ◌<◌, ◌≡◌, refl, sym, ap, subst, ◌∙◌, ◌⊎◌, inl, inr,
  Bool, true, false, Option, some, List, [], ◌∷◌, ◌++◌, leb, ◌==◌, if◌then◌else◌, length, take,
  drop, arith, length-append, Bool-cases,
}
use light_server.Common.{minus_one}
use light_server.Common.Memory.{le32}
use light_server.CommonFuncs.Printing.{
  Output, stored, print_text, line_end, head_text, word_text, print_word, print_words, finish,
  snprint_int_buffer, ◌>>=◌,
}
use light_server.CommonFuncs.Printing.Room.{
  has_room, Prints, Inside, put, snprintf_runs, length-put, drop-put, take-put, print_text-Prints,
  Prints-nothing, Prints-and,
}

-- The text of the words: each as "%08x ", eight on a line, the lines headed by the number of their first
-- word.
abbrev word_value : List ℕ → ℕ → ℕ
word_value src i = le32 (take 4 (drop (4 * i) src))

abbrev if_first : ℕ → List ℕ → List ℕ
if_first i text = if i % 8 == 0 then text else []

abbrev if_last : ℕ → List ℕ → List ℕ
if_last i text = if i % 8 == 7 then text else []

abbrev pub words_text : List ℕ → ℕ → ℕ → ℕ → List ℕ
words_text src base zero i = []
words_text src base (suc words) i =
    (if_first i (head_text base i) ++ (word_text (word_value src i) ++ if_last i line_end))
    ++ words_text src base words (i + 1)

Prints-if :
    (o : Output) (c : Bool) (text : List ℕ)
    → Inside o
    → 0 < length text
    → Prints o (if c then text else []) (if c then print_text text o else some (true, o))
Prints-if o true text inside given = print_text-Prints o text inside given
Prints-if o false text inside given = Prints-nothing o

some_text : (a : List ℕ) (c : ℕ) → 0 < length (a ++ (c ∷ []))
some_text a c = omega (arith, length-append a (c ∷ []))

print_word-Prints :
    (src : List ℕ) (base i : ℕ) (o : Output)
    → Inside o
    → 4 * i + 4 ≤ length src
    → Prints o
        (if_first i (head_text base i) ++ (word_text (word_value src i) ++ if_last i line_end))
        (print_word src base i o)
unfolding print_word
print_word-Prints src base i o inside there =
    let there' : leb (4 * i + 4) (length src) ≡ true = ground arith in
    Prints-and o _ _ _ _ inside
      (Prints-if o (i % 8 == 0) (head_text base i) inside (some_text _ b':'))
      (λ o' inside'. rw there' (
        Prints-and o' _ _ _ _ inside'
          (print_text-Prints o' (word_text (word_value src i)) inside' (some_text _ b' '))
          (λ o'' inside''. Prints-if o'' (i % 8 == 7) line_end inside'' (omega arith))))

print_words-Prints :
    (src : List ℕ) (base words i : ℕ) (o : Output)
    → Inside o
    → 4 * (i + words) ≤ length src
    → Prints o (words_text src base words i) (print_words src base words i o)
unfolding print_words
print_words-Prints src base zero i o inside there = Prints-nothing o
print_words-Prints src base (suc words) i o inside there =
    Prints-and o _ _ (print_word src base i o) _ inside
      (print_word-Prints src base i o inside (omega arith))
      (λ o' inside'. print_words-Prints src base words (i + 1) o' inside' (omega arith))

-- The result and the buffer, where `text` and a line end are printed: nothing behind the size changes.
-- Where the text has room, the result is its length and that of the line end, and the buffer has the
-- text and what has room of the line end; where it has not, the result is -1.
abbrev pub Dumped : List ℕ → ℕ → List ℕ → Option (ℕ × List ℕ) → Type 0
Dumped wr_buf max_size text end =
    let last = stored (max_size - length text) line_end in
    (r : ℕ) × (buf : List ℕ) × (end ≡ some (r, buf))
    × (length buf ≡ length wr_buf)
    × (drop max_size buf ≡ drop max_size wr_buf)
    × (((has_room (length text) max_size ≡ true)
          × (r ≡ length text + 2)
          × (take (length text + length last) buf ≡ text ++ last))
        ⊎ ((has_room (length text) max_size ≡ false) × (r ≡ minus_one)))

module _ (wr_buf : List ℕ) (max_size : ℕ) (text : List ℕ) (enough : max_size ≤ length wr_buf)
    (runs : Option (Bool × Output))
    (p : Prints (record { buf = wr_buf; at = 0; room = max_size }) text runs) where
  untouched : drop max_size p.after.buf ≡ drop max_size wr_buf
  untouched =
      let none_before : 0 + max_size ≡ max_size = omega arith in
      subst (λ n. drop n p.after.buf ≡ drop n wr_buf) none_before p.outside

  too_small : has_room (length text) max_size ≡ false → Dumped wr_buf max_size text (finish runs)
  too_small short = (
    minus_one,
    p.after.buf,
    ap finish (p.runs ∙ ap (λ c. some (c, p.after)) short),
    p.same_size,
    untouched,
    inr (short, refl),
  )

  printed_whole : has_room (length text) max_size ≡ true → Dumped wr_buf max_size text (finish runs)
  printed_whole fits =
      let (at, left, printed) = p.written fits in
      let at' : p.after.at ≡ length text = omega arith in
      let small : length text ≤ max_size = ground arith in
      let inside : Inside p.after = omega (arith, p.same_size) in
      let end : p.after.at + p.after.room ≡ max_size = omega arith in
      let tail : stored p.after.room line_end ≡ stored (max_size - length text) line_end =
        ap (λ n. stored n line_end) left in
      let buf = put p.after line_end in
      let text_end : take p.after.at p.after.buf ≡ text =
        ap (λ n. take n p.after.buf) at ∙ printed in
      (
        p.after.at + length line_end,
        buf,
        ap finish (p.runs ∙ ap (λ c. some (c, p.after)) fits)
            ∙ ap (λ w. w >>= λ o'. some (p.after.at + length line_end, o'.buf))
                (snprintf_runs p.after line_end inside),
        length-put p.after line_end inside ∙ p.same_size,
        subst (λ n. drop n buf ≡ drop n p.after.buf) end (drop-put p.after line_end inside)
            ∙ untouched,
        inl (
          fits,
          omega arith,
          ap (λ st. take (length text + length st) buf) (sym tail)
              ∙ ap (λ n. take (n + length (stored p.after.room line_end)) buf) (sym at')
              ∙ take-put p.after line_end inside
              ∙ ap (λ l. l ++ stored p.after.room line_end) text_end
              ∙ ap (λ st. text ++ st) tail,
        ),
      )

-- `SnprintIntBuffer` for a size below 2 ^ 31 that the buffer has, and a source that has the words,
-- returns, and changes nothing behind the size. Where the text of the words has room, it returns the
-- length of that text and of a line end, and has stored the text and what has room of the line end;
-- where it has not, it returns -1.
pub snprint_int_buffer-Dumped :
    (wr_buf : List ℕ) (max_size : ℕ) (src : List ℕ) (len base : ℕ)
    → max_size < 2 ^ 31
    → max_size ≤ length wr_buf
    → 4 * len ≤ length src
    → Dumped wr_buf max_size
        (words_text src base len 0)
        (snprint_int_buffer wr_buf max_size src len base)
unfolding snprint_int_buffer
snprint_int_buffer-Dumped wr_buf max_size src len base is_int enough there =
    let o : Output = record { buf = wr_buf; at = 0; room = max_size } in
    let text = words_text src base len 0 in
    let p = print_words-Prints src base len 0 o (omega arith) (omega arith) in
    elim (Bool-cases (has_room (length text) max_size)) [
      | inl fits ↦ printed_whole wr_buf max_size text enough _ p fits
      | inr short ↦ too_small wr_buf max_size text enough _ p short
    ]
