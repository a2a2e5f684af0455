-- ===== src/CommonFuncs/Printing.antt =====
-- `Uint32ToString` and `SnprintIntBuffer` of utilities/common_funcs.h, which print numbers into a buffer.
pub mod Room
pub mod Dumping
use light_server.Base.{
  ℕ, zero, suc, ◌+◌, ◌-◌, ◌*◌, ◌/◌, ◌%◌, Bool, true, false, Option, none, some, List, [], ◌∷◌, ◌++◌,
  min, ltb, leb, ◌==◌, if◌then◌else◌, length, take, drop,
}
use light_server.Common.{int_mod, minus_one}
use light_server.Common.Memory.{le32, slice, write_at}

infixl 5 ◌>>=◌
abbrev pub ◌>>=◌ {ℓ κ} : {A : Type ℓ} {B : Type κ} → Option A → (A → Option B) → Option B
none >>= f = none
some a >>= f = f a

-- The buffer that is written, where the next character goes, and the room that is left, the NUL
-- included.
pub record Output : Type 0 where
  pub buf : List ℕ
  pub at : ℕ
  pub room : ℕ

-- What `snprintf` stores of a text for a buffer of `n` bytes.
abbrev pub stored : ℕ → List ℕ → List ℕ
stored zero text = []
stored (suc n) text = take n text ++ (0 ∷ [])

-- `snprintf(p_out, n, ...)`; its result is the length of the whole text.
abbrev pub snprintf_at : Output → List ℕ → Option Output
snprintf_at o text = do b ← write_at o.buf o.at (stored o.room text); some (record o { buf = b })

-- One `snprintf` with the test of its result: whether all of the text was there room for.
abbrev pub print_text : List ℕ → Output → Option (Bool × Output)
print_text text o = do
  o' ← snprintf_at o text
  some (
      if ltb (length text) o.room
      then (true, record o' { at = o.at + length text; room = o.room - length text })
      else (false, o'))

-- The rest of a round is left out where a text did not fit.
abbrev pub and_print :
    Option (Bool × Output) → (Output → Option (Bool × Output)) → Option (Bool × Output)
and_print none next = none
and_print (some (true, o)) next = next o
and_print (some (false, o)) next = some (false, o)

-- The digits of "%x" and of "%d" for one byte.
abbrev pub hex_digit : ℕ → ℕ
hex_digit d = if ltb d 10 then b'0' + d else b'a' + (d - 10)

abbrev pub hex_digits : ℕ → ℕ → List ℕ
hex_digits zero v = []
hex_digits (suc n) v = hex_digits n (v / 16) ++ (hex_digit (v % 16) ∷ [])

-- "%08x" of a `uint32_t`
unfoldable pub hex_word : ℕ → List ℕ
hex_word v = hex_digits 8 v

abbrev pub line_end : List ℕ
line_end = 13 ∷ 10 ∷ []

abbrev pub head_text : ℕ → ℕ → List ℕ
head_text base i = hex_word ((i + base) % int_mod) ++ (b':' ∷ [])

abbrev pub word_text : ℕ → List ℕ
word_text v = hex_word v ++ (b' ' ∷ [])

-- The word at `p_word`: past the end of the source it is undefined.
abbrev pub word_at : List ℕ → ℕ → Option ℕ
word_at src i = do bytes ← slice src (4 * i) 4; some (le32 bytes)

-- One round of the loop, for the word `i`.
unfoldable pub print_word : List ℕ → ℕ → ℕ → Output → Option (Bool × Output)
print_word src base i o =
    and_print (if i % 8 == 0 then print_text (head_text base i) o else some (true, o)) λ o'. do
      v ← word_at src i
      and_print (print_text (word_text v) o')
          λ o''. if i % 8 == 7 then print_text line_end o'' else some (true, o'')

-- The loop from `i` on, with so many words left.
unfoldable pub print_words : List ℕ → ℕ → ℕ → ℕ → Output → Option (Bool × Output)
print_words src base zero i o = some (true, o)
print_words src base (suc words) i o =
    and_print (print_word src base i o) (λ o'. print_words src base words (i + 1) o')

-- The last line end is printed without a test.
abbrev pub finish : Option (Bool × Output) → Option (ℕ × List ℕ)
finish none = none
finish (some (false, o)) = some (minus_one, o.buf)
finish (some (true, o)) = do o' ← snprintf_at o line_end; some (o.at + length line_end, o'.buf)

-- `SnprintIntBuffer`: its result, and the buffer, for a size below 2 ^ 31.
unfoldable pub snprint_int_buffer : List ℕ → ℕ → List ℕ → ℕ → ℕ → Option (ℕ × List ℕ)
snprint_int_buffer wr_buf max_size src len_in_words base =
    finish (print_words src base len_in_words 0 (record { buf = wr_buf; at = 0; room = max_size }))

-- `Uint32ToString`: the bytes from the lowest one on, in decimal.
abbrev pub decimal : ℕ → List ℕ
decimal b =
    if ltb b 10
    then (b'0' + b) ∷ []
    else if ltb b 100
    then (b'0' + b / 10) ∷ (b'0' + b % 10) ∷ []
    else (b'0' + b / 100) ∷ (b'0' + b / 10 % 10) ∷ (b'0' + b % 10) ∷ []

unfoldable pub uint32_to_string : ℕ → List ℕ
uint32_to_string v =
    decimal (v % 256)
    ++ (b'.' ∷ decimal (v / 256 % 256)
        ++ (b'.' ∷ decimal (v / 65536 % 256) ++ (b'.' ∷ decimal (v / 16777216 % 256))))
