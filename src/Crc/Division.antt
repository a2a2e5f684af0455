-- ===== src/Crc/Division.antt =====
-- The CRC of utilities/common_funcs.cpp, byte by byte, as the division by POLYNOMIAL bit for bit.
use Prim.Native.Nat.{bit_xor}
use light_server.Base.{
  ℕ, zero, suc, ◌+◌, ◌*◌, ◌/◌, ◌%◌, ◌^◌, ◌<◌, ◌≡◌, refl, sym, ap, ◌∙◌, leb, Bool-cases, inl, inr,
  get_or, arith,
}
use light_server.Common.{int_mod}
use light_server.Crc.{crc32_table, crc_byte}
use light_server.Crc.Table.{polynomial, divide_bit, divide_bits, crc32_table-divide_bits}
use light_server.Crc.Xor.{xor_fields, xor_assoc, xor_comm, zero_xor, xor_zero}

xor_fits : (x y : ℕ) → x < 2 ^ 32 → y < 2 ^ 32 → bit_xor x y < 2 ^ 32
xor_fits x y fx fy = (xor_fields 32 0 0 x y fx fy).1

-- A number below the top bit stands beside it.
under_top :
    (x l : ℕ) → x < 2 ^ 32 → l < 2 ^ 31 → bit_xor x l ≡ x / 2 ^ 31 * 2 ^ 31 + bit_xor (x % 2 ^ 31) l
under_top x l fx fl =
    let split : x ≡ x / 2 ^ 31 * 2 ^ 31 + x % 2 ^ 31 = omega arith in
    let none_above : l ≡ 0 * 2 ^ 31 + l = omega arith in
    ap (λ y. bit_xor y l) split
    ∙ ap (bit_xor (x / 2 ^ 31 * 2 ^ 31 + x % 2 ^ 31)) none_above
    ∙ (xor_fields 31 (x / 2 ^ 31) 0 (x % 2 ^ 31) l (omega arith) fl).0
    ∙ ap (λ t. t * 2 ^ 31 + bit_xor (x % 2 ^ 31) l) (xor_zero 1 (x / 2 ^ 31) (omega arith))

shift_xor : (m l : ℕ) → bit_xor m l * 2 ≡ bit_xor (m * 2) (l * 2)
shift_xor m l =
    let even : (u : ℕ) → u * 2 ^ 1 + 0 ≡ u * 2 = λ u. omega arith in
    sym (even (bit_xor m l))
    ∙ sym (xor_fields 1 m l 0 0 (omega arith) (omega arith)).0
    ∙ ap (λ u. bit_xor u (l * 2 ^ 1 + 0)) (even m)
    ∙ ap (bit_xor (m * 2)) (even l)

swap_xor :
    (x l p : ℕ)
    → x < 2 ^ 32
    → l < 2 ^ 32
    → p < 2 ^ 32
    → bit_xor (bit_xor x l) p ≡ bit_xor (bit_xor x p) l
swap_xor x l p fx fl fp =
    xor_assoc 32 x l p fx fl fp
    ∙ ap (bit_xor x) (xor_comm 32 l p fl fp)
    ∙ sym (xor_assoc 32 x p l fx fp fl)

-- The word moved up, without the bit that leaves it.
move_up :
    (x l : ℕ)
    → x < 2 ^ 32
    → l < 2 ^ 31
    → bit_xor x l * 2 % int_mod ≡ bit_xor (x * 2 % int_mod) (l * 2)
move_up x l fx fl =
    let low : bit_xor (x % 2 ^ 31) l < 2 ^ 31 =
      (xor_fields 31 0 0 (x % 2 ^ 31) l (omega arith) fl).1 in
    let lower : bit_xor x l * 2 % int_mod ≡ bit_xor (x % 2 ^ 31) l * 2 =
      omega (arith, under_top x l fx fl, low) in
    let word : x % 2 ^ 31 * 2 ≡ x * 2 % int_mod = omega arith in
    lower ∙ shift_xor (x % 2 ^ 31) l ∙ ap (λ u. bit_xor u (l * 2)) word

same_top : (x l : ℕ) → x < 2 ^ 32 → l < 2 ^ 31 → leb (2 ^ 31) (bit_xor x l) ≡ leb (2 ^ 31) x
same_top x l fx fl =
    let low : bit_xor (x % 2 ^ 31) l < 2 ^ 31 =
      (xor_fields 31 0 0 (x % 2 ^ 31) l (omega arith) fl).1 in
    ground (arith, under_top x l fx fl, low)

-- A step of the division takes what stands below the top bit along.
divide_bit-xor :
    (x l : ℕ) → x < 2 ^ 32 → l < 2 ^ 31 → divide_bit (bit_xor x l) ≡ bit_xor (divide_bit x) (l * 2)
divide_bit-xor x l fx fl =
    rw (same_top x l fx fl, move_up x l fx fl)
      (elim (Bool-cases (leb (2 ^ 31) x)) [
        | inl high ↦ rw high (
            swap_xor (x * 2 % int_mod) (l * 2) polynomial (omega arith) (omega arith) (omega arith))
        | inr clear ↦ rw clear refl
      ])

divide_bit-fits : (x : ℕ) → divide_bit x < 2 ^ 32
divide_bit-fits x = elim (Bool-cases (leb (2 ^ 31) x)) [
  | inl high ↦ rw high (xor_fits (x * 2 % int_mod) polynomial (omega arith) (omega arith))
  | inr clear ↦ rw clear (omega arith)
]

-- `l` can be doubled so many times without leaving the word.
abbrev Room : ℕ → ℕ → Type 0
Room zero l = Unit {0}
Room (suc n) l = (l < 2 ^ 31) × Room n (l * 2)

abbrev doubled : ℕ → ℕ → ℕ
doubled zero l = l
doubled (suc n) l = doubled n (l * 2)

divide_bits-xor :
    (n x l : ℕ)
    → x < 2 ^ 32
    → Room n l
    → divide_bits n (bit_xor x l) ≡ bit_xor (divide_bits n x) (doubled n l)
divide_bits-xor zero x l fx room = refl
divide_bits-xor (suc n) x l fx (fl, room) =
    ap (divide_bits n) (divide_bit-xor x l fx fl)
    ∙ divide_bits-xor n (divide_bit x) (l * 2) (divide_bit-fits x) room

-- The register behind one more byte of the message.
abbrev pub divide_byte : ℕ → ℕ → ℕ
divide_byte crc b = divide_bits 8 (bit_xor crc (b * 2 ^ 24))

-- A byte at the top and the lower bits.
beside : (i l : ℕ) → i < 256 → l < 2 ^ 24 → bit_xor (i * 2 ^ 24) l ≡ i * 2 ^ 24 + l
beside i l fi fl =
    let plain : i * 2 ^ 24 ≡ i * 2 ^ 24 + 0 = omega arith in
    let none_above : l ≡ 0 * 2 ^ 24 + l = omega arith in
    ap (λ u. bit_xor u l) plain
    ∙ ap (bit_xor (i * 2 ^ 24 + 0)) none_above
    ∙ (xor_fields 24 i 0 0 l (omega arith) fl).0
    ∙ omega (arith, xor_zero 8 i fi, zero_xor l)

pub divide_byte-fits : (crc b : ℕ) → divide_byte crc b < 2 ^ 32
divide_byte-fits crc b = divide_bit-fits (divide_bits 7 (bit_xor crc (b * 2 ^ 24)))

module _ (crc b : ℕ) (fits : crc < 2 ^ 32) (byte : b < 256) where
  abbrev top : ℕ
  top = bit_xor (crc / 2 ^ 24) b

  abbrev low : ℕ
  low = crc % 2 ^ 24

  top-fits : top < 256
  top-fits = (xor_fields 8 0 0 (crc / 2 ^ 24) b (omega arith) byte).1

  -- The byte meets the highest byte of the register.
  meet : bit_xor crc (b * 2 ^ 24) ≡ bit_xor (top * 2 ^ 24) low
  meet =
      let split : crc ≡ crc / 2 ^ 24 * 2 ^ 24 + low = omega arith in
      let plain : b * 2 ^ 24 ≡ b * 2 ^ 24 + 0 = omega arith in
      ap (λ u. bit_xor u (b * 2 ^ 24)) split
      ∙ ap (bit_xor (crc / 2 ^ 24 * 2 ^ 24 + low)) plain
      ∙ (xor_fields 24 (crc / 2 ^ 24) b low 0 (omega arith) (omega arith)).0
      ∙ ap (λ u. top * 2 ^ 24 + u) (xor_zero 24 low (omega arith))
      ∙ sym (beside top low top-fits (omega arith))

  low-Room : Room 8 low
  low-Room = (
    omega arith,
    (
      omega arith,
      (omega arith, (omega arith, (omega arith, (omega arith, (omega arith, (omega arith, tt)))))),
    ),
  )

  pub crc_byte-divide_byte : crc_byte crc b ≡ divide_byte crc b
  unfolding crc_byte
  crc_byte-divide_byte =
      let index : top % 256 ≡ top = omega (arith, top-fits) in
      let moved : crc * 2 ^ 8 % int_mod ≡ doubled 8 low = omega arith in
      ap (λ i. bit_xor (get_or crc32_table i 0) (crc * 2 ^ 8 % int_mod)) index
      ∙ ap (λ e. bit_xor e (crc * 2 ^ 8 % int_mod)) (crc32_table-divide_bits top top-fits)
      ∙ ap (bit_xor (divide_bits 8 (top * 2 ^ 24))) moved
      ∙ sym (divide_bits-xor 8 (top * 2 ^ 24) low (omega (arith, top-fits)) low-Room)
      ∙ sym (ap (divide_bits 8) meet)
