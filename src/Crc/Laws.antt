-- ===== src/Crc/Laws.antt =====
-- Which bytes the CRC of utilities/common_funcs.cpp reads.
use light_server.Base.{
  ℕ, zero, suc, ◌+◌, ◌*◌, ◌/◌, ◌%◌, ◌≤◌, ◌<◌, ◌≡◌, refl, some, List, ◌∷◌, length, arith,
}
use light_server.Crc.{crc_loop, get_stm32_crc, calculate_stm32_crc}

crc_loop-some :
    (loop remain crc : ℕ) (p : List ℕ)
    → remain < 4
    → 4 * loop + remain ≤ length p
    → (c : ℕ) × (crc_loop loop remain crc p ≡ some c)
unfolding crc_loop
crc_loop-some zero zero crc p small fits = (_, refl)
crc_loop-some zero (suc zero) crc (a ∷ p) small fits = (_, refl)
crc_loop-some zero (suc (suc zero)) crc (a ∷ b ∷ p) small fits = (_, refl)
crc_loop-some zero (suc (suc (suc zero))) crc (a ∷ b ∷ c ∷ p) small fits = (_, refl)
crc_loop-some (suc loop) remain crc (a ∷ b ∷ c ∷ d ∷ p) small fits =
    crc_loop-some loop remain _ p small (omega arith)
crc_loop-some _ _ _ _ small fits = absurd (omega arith)

pub calculate_stm32_crc-some :
    (bytes : List ℕ) (len : ℕ)
    → len ≤ length bytes
    → (c : ℕ) × (calculate_stm32_crc bytes len ≡ some c)
unfolding calculate_stm32_crc get_stm32_crc
calculate_stm32_crc-some bytes len h =
    crc_loop-some (len / 4) (len % 4) 0xffffffff bytes (omega arith) (omega arith)
