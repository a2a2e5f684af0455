-- ===== src/Crc/Table.antt =====
-- The table of utilities/common_funcs.cpp, against the division by POLYNOMIAL bit for bit.
use Prim.Native.Nat.{bit_xor}
use light_server.Base.{
  ℕ, zero, suc, ◌+◌, ◌*◌, ◌%◌, ◌^◌, ◌<◌, ◌≡◌, refl, ap, ◌∙◌, List, [], ◌∷◌, leb, if◌then◌else◌,
  get_or, arith,
}
use light_server.Common.{int_mod}
use light_server.Crc.{crc32_table}

-- POLYNOMIAL
abbrev pub polynomial : ℕ
polynomial = 0x04c11db7

-- One step of the division: the word moves up, and what leaves it takes the polynomial off.
abbrev pub divide_bit : ℕ → ℕ
divide_bit crc =
    if leb (2 ^ 31) crc then bit_xor (crc * 2 % int_mod) polynomial else crc * 2 % int_mod

abbrev pub divide_bits : ℕ → ℕ → ℕ
divide_bits zero crc = crc
divide_bits (suc n) crc = divide_bits n (divide_bit crc)

-- What the division leaves of `count` indices in a row.
remainders_from : ℕ → ℕ → List ℕ
remainders_from first zero = []
remainders_from first (suc count) =
    divide_bits 8 (first * 2 ^ 24) ∷ remainders_from (first + 1) count

get_or-remainders_from :
    (count first i : ℕ)
    → i < count
    → get_or (remainders_from first count) i 0 ≡ divide_bits 8 ((first + i) * 2 ^ 24)
unfolding remainders_from
get_or-remainders_from zero first i h = absurd (omega arith)
get_or-remainders_from (suc count) first zero h = ap (λ j. divide_bits 8 (j * 2 ^ 24)) (omega arith)
get_or-remainders_from (suc count) first (suc i) h =
    get_or-remainders_from count (first + 1) i (omega arith)
    ∙ ap (λ j. divide_bits 8 (j * 2 ^ 24)) (omega arith)

crc32_table-remainders_from : crc32_table ≡ remainders_from 0 256
unfolding crc32_table remainders_from
crc32_table-remainders_from = refl

-- Each of the 256 entries of the table is what eight steps of the division by 0x04C11DB7 leave of its
-- index in the highest byte.
pub crc32_table-divide_bits :
    (i : ℕ) → i < 256 → get_or crc32_table i 0 ≡ divide_bits 8 (i * 2 ^ 24)
crc32_table-divide_bits i h =
    ap (λ table. get_or table i 0) crc32_table-remainders_from
    ∙ get_or-remainders_from 256 0 i h
    ∙ ap (λ j. divide_bits 8 (j * 2 ^ 24)) (omega arith)
