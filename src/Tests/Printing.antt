-- ===== src/Tests/Printing.antt =====
-- What the printing helpers of utilities/common_funcs.h make of concrete numbers.
use light_server.Base.{ℕ, zero, suc, ◌≡◌, refl, some, List, [], ◌∷◌, ◌++◌, arith}
use light_server.CommonFuncs.Printing.{
  hex_word, print_word, print_words, snprint_int_buffer, uint32_to_string, line_end,
}
use light_server.CommonFuncs.Printing.Dumping.{Dumped, words_text, snprint_int_buffer-Dumped}

abbrev zeros : ℕ → List ℕ
zeros zero = []
zeros (suc n) = 0 ∷ zeros n

hex_word_test : hex_word 0xdeadbeef ≡ b'd' ∷ b'e' ∷ b'a' ∷ b'd' ∷ b'b' ∷ b'e' ∷ b'e' ∷ b'f' ∷ []
unfolding hex_word
hex_word_test = refl

uint32_to_string_test :
    uint32_to_string 0x0100a8c0
    ≡ b'1' ∷ b'9' ∷ b'2' ∷ b'.' ∷ b'1' ∷ b'6' ∷ b'8' ∷ b'.' ∷ b'0' ∷ b'.' ∷ b'1' ∷ []
unfolding uint32_to_string
uint32_to_string_test = refl

-- One word, "00000010:00000201 " and the line end, in 24 bytes.
snprint_int_buffer_test :
    snprint_int_buffer (zeros 24) 24 (1 ∷ 2 ∷ 0 ∷ 0 ∷ []) 1 16
    ≡ some (20, hex_word 16 ++ (b':' ∷ hex_word 513 ++ (b' ' ∷ line_end ++ zeros 4)))
unfolding snprint_int_buffer print_words print_word hex_word
snprint_int_buffer_test = refl

-- In 20 bytes there is no room for the second character of the line end, and the result is the same.
snprint_int_buffer_cut_test :
    snprint_int_buffer (zeros 20) 20 (1 ∷ 2 ∷ 0 ∷ 0 ∷ []) 1 16
    ≡ some (20, hex_word 16 ++ (b':' ∷ hex_word 513 ++ (b' ' ∷ 13 ∷ zeros 1)))
unfolding snprint_int_buffer print_words print_word hex_word
snprint_int_buffer_cut_test = refl

snprint_int_buffer-Dumped_example :
    Dumped
      (zeros 24)
      24
      (words_text (1 ∷ 2 ∷ 0 ∷ 0 ∷ []) 16 1 0)
      (snprint_int_buffer (zeros 24) 24 (1 ∷ 2 ∷ 0 ∷ 0 ∷ []) 1 16)
snprint_int_buffer-Dumped_example =
    snprint_int_buffer-Dumped (zeros 24) 24 (1 ∷ 2 ∷ 0 ∷ 0 ∷ []) 1 16 (omega arith) (omega arith)
      (omega arith)
