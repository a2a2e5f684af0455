-- ===== src/CommonFuncs.antt =====
-- The helpers of utilities/common_funcs.h: words out of bytes, and arrays. A `uint8_t` argument is a
-- number below 256.
pub mod Printing
use light_server.Base.{
  ℕ, zero, suc, ◌+◌, ◌*◌, ◌/◌, ◌%◌, ◌^◌, ◌≤◌, ◌<◌, ◌≡◌, refl, ap, ◌∙◌, Option, none, some, List, [],
  ◌∷◌, ◌++◌, length, drop, bit_or, arith,
}
use light_server.Common.{Sockaddr, int_mod}
use light_server.Crc.Xor.{or_fields}

unfoldable make_short : ℕ → ℕ → ℕ
make_short high low = bit_or (high * 2 ^ 8) low % 2 ^ 16

unfoldable pub make_word : ℕ → ℕ → ℕ → ℕ → ℕ
make_word byte3 byte2 byte1 byte0 =
    bit_or (bit_or (bit_or (byte3 * 2 ^ 24) (byte2 * 2 ^ 16)) (byte1 * 2 ^ 8)) byte0 % int_mod

-- The byte that stands at `i` in the memory of a word, on a machine that stores the lowest first.
abbrev byte_of : ℕ → ℕ → ℕ
byte_of x i = x / 2 ^ (8 * i) % 256

unfoldable pub swap_int : ℕ → ℕ
unfolding make_word
swap_int x = make_word (byte_of x 0) (byte_of x 1) (byte_of x 2) (byte_of x 3)

-- `IntArraySet` and `FloatArraySet`: writing past the end of the array is undefined.
unfoldable array_set {ℓ} : {A : Type ℓ} → List A → A → ℕ → Option (List A)
array_set xs c zero = some xs
array_set [] c (suc len) = none
array_set (x ∷ xs) c (suc len) = elim (array_set xs c len) [ none ↦ none | some ys ↦ some (c ∷ ys) ]

unfoldable ip_of_sockaddr : Sockaddr → ℕ
ip_of_sockaddr a = a.ip

unfoldable port_of_sockaddr : Sockaddr → ℕ
port_of_sockaddr a = a.port

abbrev filled : {A : Type 0} → A → ℕ → List A
filled c zero = []
filled c (suc n) = c ∷ filled c n

make_word-sum :
    (a b c d : ℕ)
    → a < 256
    → b < 256
    → c < 256
    → d < 256
    → make_word a b c d ≡ a * 2 ^ 24 + b * 2 ^ 16 + c * 2 ^ 8 + d
unfolding make_word
make_word-sum a b c d fa fb fc fd =
    let first : bit_or (a * 2 ^ 24) (b * 2 ^ 16) ≡ (a * 2 ^ 8 + b) * 2 ^ 16 =
      or_fields 8 24 a (b * 2 ^ 16) fa (omega arith) ∙ omega arith in
    let second : bit_or ((a * 2 ^ 8 + b) * 2 ^ 16) (c * 2 ^ 8)
        ≡ (a * 2 ^ 16 + b * 2 ^ 8 + c) * 2 ^ 8 =
      or_fields 16 16 (a * 2 ^ 8 + b) (c * 2 ^ 8) (omega arith) (omega arith) ∙ omega arith in
    let third = or_fields 24 8 (a * 2 ^ 16 + b * 2 ^ 8 + c) d (omega arith) fd in
    rw (first, second, third) (omega arith)

swap_int-sum :
    (x : ℕ)
    → swap_int x ≡ byte_of x 0 * 2 ^ 24 + byte_of x 1 * 2 ^ 16 + byte_of x 2 * 2 ^ 8 + byte_of x 3
unfolding swap_int
swap_int-sum x =
    make_word-sum (byte_of x 0) (byte_of x 1) (byte_of x 2) (byte_of x 3) (omega arith)
      (omega arith) (omega arith) (omega arith)

-- `SwapInt` turns the four bytes of a word round.
swap_int-make_word :
    (a b c d : ℕ)
    → a < 256
    → b < 256
    → c < 256
    → d < 256
    → swap_int (make_word a b c d) ≡ make_word d c b a
unfolding swap_int
swap_int-make_word a b c d fa fb fc fd =
    let sum = make_word-sum a b c d fa fb fc fd in
    let lowest : byte_of (make_word a b c d) 0 ≡ d = omega (arith, sum) in
    let second : byte_of (make_word a b c d) 1 ≡ c = omega (arith, sum) in
    let third : byte_of (make_word a b c d) 2 ≡ b = omega (arith, sum) in
    let highest : byte_of (make_word a b c d) 3 ≡ a = omega (arith, sum) in
    rw (lowest, second, third, highest) refl

-- For a 32-bit number, `SwapInt` of `SwapInt` gives the number back, and `SwapInt` gives what `MakeWord`
-- makes of its bytes from the lowest one on.
pub swap_int_roundtrip :
    (x : ℕ)
    → x < 2 ^ 32
    → (swap_int (swap_int x) ≡ x)
      × (swap_int x ≡ make_word (x % 256) (x / 2 ^ 8 % 256) (x / 2 ^ 16 % 256) (x / 2 ^ 24))
unfolding swap_int
swap_int_roundtrip x fits =
    let back =
      swap_int-make_word (byte_of x 0) (byte_of x 1) (byte_of x 2) (byte_of x 3) (omega arith)
        (omega arith) (omega arith) (omega arith) in
    let whole : make_word (byte_of x 3) (byte_of x 2) (byte_of x 1) (byte_of x 0) ≡ x =
      make_word-sum (byte_of x 3) (byte_of x 2) (byte_of x 1) (byte_of x 0) (omega arith)
        (omega arith) (omega arith) (omega arith)
      ∙ omega arith in
    let same : x / 1 % 256 ≡ x % 256 = omega arith in
    let top : x / 2 ^ 24 % 256 ≡ x / 2 ^ 24 = omega arith in
    (
      back ∙ whole,
      ap (λ u. make_word u (byte_of x 1) (byte_of x 2) (byte_of x 3)) same
          ∙ ap (make_word (x % 256) (byte_of x 1) (byte_of x 2)) top,
    )

-- Filling an array of at least `len` elements.
array_set-fill :
    {A : Type 0} (xs : List A) (c : A) (len : ℕ)
    → len ≤ length xs
    → array_set xs c len ≡ some (filled c len ++ drop len xs)
unfolding array_set
array_set-fill xs c zero inside = refl
array_set-fill [] c (suc len) inside = absurd (omega arith)
array_set-fill (x ∷ xs) c (suc len) inside = rw (array_set-fill xs c len (omega arith)) refl
