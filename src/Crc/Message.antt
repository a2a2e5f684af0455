-- ===== src/Crc/Message.antt =====
-- What `CalculateStm32Crc` of utilities/common_funcs.cpp computes of a whole message.
use light_server.Base.{
  ℕ, zero, suc, ◌+◌, ◌*◌, ◌/◌, ◌%◌, ◌^◌, ◌≤◌, ◌<◌, ◌≡◌, refl, ap, ◌∙◌, List, [], ◌∷◌, length, some,
  arith,
}
use light_server.Crc.{crc_byte, crc_word, crc_loop, get_stm32_crc, calculate_stm32_crc}
use light_server.Crc.Division.{divide_byte, divide_byte-fits, crc_byte-divide_byte}

abbrev pub AllBytes : List ℕ → Type 0
AllBytes [] = Unit {0}
AllBytes (b ∷ bs) = (b < 256) × AllBytes bs

-- The register behind a message that is divided bit for bit, its bytes in order.
abbrev pub divide_message : ℕ → List ℕ → ℕ
divide_message crc [] = crc
divide_message crc (b ∷ bs) = divide_message (divide_byte crc b) bs

-- The bytes of `loop` words, each with its last byte first, and the rest as a word that zeros fill.
abbrev pub word_order : ℕ → ℕ → List ℕ → List ℕ
word_order (suc loop) rest (a ∷ b ∷ c ∷ d ∷ p) = d ∷ c ∷ b ∷ a ∷ word_order loop rest p
word_order zero (suc zero) (a ∷ p) = 0 ∷ 0 ∷ 0 ∷ a ∷ []
word_order zero (suc (suc zero)) (a ∷ b ∷ p) = 0 ∷ 0 ∷ b ∷ a ∷ []
word_order zero (suc (suc (suc zero))) (a ∷ b ∷ c ∷ p) = 0 ∷ c ∷ b ∷ a ∷ []
word_order _ _ _ = []

crc_word-divide_message :
    (crc a b c d : ℕ)
    → crc < 2 ^ 32
    → a < 256
    → b < 256
    → c < 256
    → d < 256
    → crc_word crc a b c d ≡ divide_message crc (d ∷ c ∷ b ∷ a ∷ [])
crc_word-divide_message crc a b c d fits fa fb fc fd =
    let one = divide_byte crc d in
    let two = divide_byte one c in
    let three = divide_byte two b in
    ap (λ x. crc_byte (crc_byte (crc_byte x c) b) a) (crc_byte-divide_byte crc d fits fd)
    ∙ ap (λ x. crc_byte (crc_byte x b) a) (crc_byte-divide_byte one c (divide_byte-fits crc d) fc)
    ∙ ap (λ x. crc_byte x a) (crc_byte-divide_byte two b (divide_byte-fits one c) fb)
    ∙ crc_byte-divide_byte three a (divide_byte-fits two b) fa

crc_loop-divide_message :
    (loop rest crc : ℕ) (p : List ℕ)
    → rest < 4
    → 4 * loop + rest ≤ length p
    → AllBytes p
    → crc < 2 ^ 32
    → crc_loop loop rest crc p ≡ some (divide_message crc (word_order loop rest p))
unfolding crc_loop
crc_loop-divide_message zero zero crc p small inside bytes fits = refl
crc_loop-divide_message zero (suc zero) crc (a ∷ p) small inside (fa, bytes) fits =
    ap some (crc_word-divide_message crc a 0 0 0 fits fa (omega arith) (omega arith) (omega arith))
crc_loop-divide_message zero (suc (suc zero)) crc (a ∷ b ∷ p) small inside (fa, (fb, bytes)) fits =
    ap some (crc_word-divide_message crc a b 0 0 fits fa fb (omega arith) (omega arith))
crc_loop-divide_message zero (suc (suc (suc zero))) crc (a ∷ b ∷ c ∷ p) small inside
      (fa, (fb, (fc, bytes))) fits =
    ap some (crc_word-divide_message crc a b c 0 fits fa fb fc (omega arith))
crc_loop-divide_message (suc loop) rest crc (a ∷ b ∷ c ∷ d ∷ p) small inside
      (fa, (fb, (fc, (fd, bytes)))) fits =
    let after = divide_message crc (d ∷ c ∷ b ∷ a ∷ []) in
    ap (λ x. crc_loop loop rest x p) (crc_word-divide_message crc a b c d fits fa fb fc fd)
    ∙ crc_loop-divide_message loop rest after p small (omega arith) bytes (divide_byte-fits _ a)
crc_loop-divide_message _ _ _ _ small inside bytes fits = absurd (omega arith)

-- For a buffer of bytes that holds `len` of them, `CalculateStm32Crc` gives what the division by
-- 0x04C11DB7 leaves, bit for bit from the highest one on, in a register that starts with 0xFFFFFFFF:
-- of the whole words of the buffer in order, each with its last byte first, and then of a word of the
-- one to three bytes that are left, which zeros fill up, if any are left.
pub calculate_stm32_crc-divide_message :
    (bytes : List ℕ) (len : ℕ)
    → len ≤ length bytes
    → AllBytes bytes
    → calculate_stm32_crc bytes len
      ≡ some (divide_message 0xffffffff (word_order (len / 4) (len % 4) bytes))
unfolding calculate_stm32_crc get_stm32_crc
calculate_stm32_crc-divide_message bytes len inside all =
    crc_loop-divide_message (len / 4) (len % 4) 0xffffffff bytes (omega arith) (omega arith) all
      (omega arith)
