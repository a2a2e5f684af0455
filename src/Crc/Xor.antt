-- ===== src/Crc/Xor.antt =====
-- Exclusive or, digit by digit: what the CRC of utilities/common_funcs.cpp needs of it.
use Prim.Native.Nat.{bit_xor, bit_xor-bitwise, bit_or, bit_or-bitwise, digits, differ, max}
use native.Mathlib.Nat.{pow-suc}
use light_server.Base.{
  ℕ, zero, suc, ◌+◌, ◌*◌, ◌/◌, ◌%◌, ◌^◌, ◌≤◌, ◌<◌, ◌≡◌, refl, sym, ap, ◌∙◌, arith,
}

-- Any fuel is enough that is not below the first number, whatever is made of two digits.
module _ (f : ℕ → ℕ → ℕ) where
  abbrev with_fuel : ℕ → ℕ → ℕ → ℕ
  with_fuel fuel x y = digits (λ d. d) f fuel x y

  any_fuel : (x y fuel other : ℕ) → x ≤ fuel → x ≤ other → with_fuel fuel x y ≡ with_fuel other x y
  any_fuel (suc x) y (suc fuel) (suc other) fits also =
      ap (λ upper. upper * 2 + f (suc x % 2) (y % 2))
        (any_fuel (suc x / 2) (y / 2) fuel other (omega arith) (omega arith))
  any_fuel (suc x) y zero other fits also = absurd (omega arith)
  any_fuel (suc x) y (suc fuel) zero fits also = absurd (omega arith)
  any_fuel zero y zero zero fits also = refl
  any_fuel zero y zero (suc other) fits also = refl
  any_fuel zero y (suc fuel) zero fits also = refl
  any_fuel zero y (suc fuel) (suc other) fits also = refl

-- The lowest digit, and the others.
pub xor_halves : (x y : ℕ) → bit_xor x y ≡ bit_xor (x / 2) (y / 2) * 2 + differ (x % 2) (y % 2)
xor_halves zero y = simp bit_xor-bitwise (omega arith)
xor_halves (suc x) y = simp bit_xor-bitwise (
    ap (λ upper. upper * 2 + differ (suc x % 2) (y % 2))
      (any_fuel differ (suc x / 2) (y / 2) x (suc x / 2) (omega arith) (omega arith)))

-- The same of `|`.
or_halves : (x y : ℕ) → bit_or x y ≡ bit_or (x / 2) (y / 2) * 2 + max (x % 2) (y % 2)
or_halves zero y = simp bit_or-bitwise (omega arith)
or_halves (suc x) y = simp bit_or-bitwise (
    ap (λ upper. upper * 2 + max (suc x % 2) (y % 2))
      (any_fuel max (suc x / 2) (y / 2) x (suc x / 2) (omega arith) (omega arith)))

-- The digits on their own.
differ_small : (a b : ℕ) → a < 2 → b < 2 → differ a b ≡ (a + b) % 2
differ_small zero zero p q = refl
differ_small zero (suc zero) p q = refl
differ_small (suc zero) zero p q = refl
differ_small (suc zero) (suc zero) p q = refl
differ_small zero (suc (suc b)) p q = absurd (omega arith)
differ_small (suc zero) (suc (suc b)) p q = absurd (omega arith)
differ_small (suc (suc a)) b p q = absurd (omega arith)

differ_bits : (x y : ℕ) → differ (x % 2) (y % 2) ≡ (x + y) % 2
differ_bits x y = omega (arith, differ_small (x % 2) (y % 2) (omega arith) (omega arith))

half_fits : (width x : ℕ) → x < 2 ^ suc width → x / 2 < 2 ^ width
half_fits width x fits = omega (arith, pow-suc 2 width)

pub xor_rest : (x y : ℕ) → bit_xor x y / 2 ≡ bit_xor (x / 2) (y / 2)
xor_rest x y = omega (arith, xor_halves x y, differ_bits x y)

pub xor_last : (x y : ℕ) → bit_xor x y % 2 ≡ (x + y) % 2
xor_last x y = omega (arith, xor_halves x y, differ_bits x y)

-- Two numbers of so many bits that agree in the last bit and in the rest are the same.
pub same_bits : (x y : ℕ) → x / 2 ≡ y / 2 → x % 2 ≡ y % 2 → x ≡ y
same_bits x y rest last = omega arith

pub xor_assoc :
    (width x y z : ℕ)
    → x < 2 ^ width
    → y < 2 ^ width
    → z < 2 ^ width
    → bit_xor (bit_xor x y) z ≡ bit_xor x (bit_xor y z)
xor_assoc zero zero zero zero fx fy fz = refl
xor_assoc zero (suc x) y z fx fy fz = absurd (omega arith)
xor_assoc zero x (suc y) z fx fy fz = absurd (omega arith)
xor_assoc zero x y (suc z) fx fy fz = absurd (omega arith)
xor_assoc (suc width) x y z fx fy fz =
    same_bits _ _
      (xor_rest (bit_xor x y) z
        ∙ ap (λ u. bit_xor u (z / 2)) (xor_rest x y)
        ∙ xor_assoc width (x / 2) (y / 2) (z / 2) (half_fits width x fx) (half_fits width y fy)
            (half_fits width z fz)
        ∙ sym (ap (bit_xor (x / 2)) (xor_rest y z))
        ∙ sym (xor_rest x (bit_xor y z)))
      (omega
        (arith, xor_last (bit_xor x y) z, xor_last x y, xor_last x (bit_xor y z), xor_last y z))

pub xor_comm : (width x y : ℕ) → x < 2 ^ width → y < 2 ^ width → bit_xor x y ≡ bit_xor y x
xor_comm zero zero zero fx fy = refl
xor_comm zero (suc x) y fx fy = absurd (omega arith)
xor_comm zero x (suc y) fx fy = absurd (omega arith)
xor_comm (suc width) x y fx fy =
    same_bits _ _
      (xor_rest x y
        ∙ xor_comm width (x / 2) (y / 2) (half_fits width x fx) (half_fits width y fy)
        ∙ sym (xor_rest y x))
      (omega (arith, xor_last x y, xor_last y x))

field_double : (k p : ℕ) → p * 2 ^ suc k ≡ 2 * (p * 2 ^ k)
field_double k p = ap (λ u. p * u) (pow-suc 2 k) ∙ grind arith

half_field : (k p r : ℕ) → (p * 2 ^ suc k + r) / 2 ≡ p * 2 ^ k + r / 2
half_field k p r = omega (arith, field_double k p)

-- The upper parts and the lower `k` bits do not meet.
pub xor_fields :
    (k p q r t : ℕ)
    → r < 2 ^ k
    → t < 2 ^ k
    → (bit_xor (p * 2 ^ k + r) (q * 2 ^ k + t) ≡ bit_xor p q * 2 ^ k + bit_xor r t)
      × (bit_xor r t < 2 ^ k)
xor_fields zero p q zero zero fr ft =
    let whole : (u : ℕ) → u * 1 + 0 ≡ u = λ u. omega arith in
    (
      ap (λ x. bit_xor x (q * 1 + 0)) (whole p)
          ∙ ap (bit_xor p) (whole q)
          ∙ sym (whole (bit_xor p q)),
      omega arith,
    )
xor_fields zero p q (suc r) t fr ft = absurd (omega arith)
xor_fields zero p q r (suc t) fr ft = absurd (omega arith)
xor_fields (suc k) p q r t fr ft =
    let (upper, small) = xor_fields k p q (r / 2) (t / 2) (half_fits k r fr) (half_fits k t ft) in
    let x = p * 2 ^ suc k + r in
    let y = q * 2 ^ suc k + t in
    (
      same_bits _ _
          (xor_rest x y
            ∙ ap (λ u. bit_xor u (y / 2)) (half_field k p r)
            ∙ ap (bit_xor (p * 2 ^ k + r / 2)) (half_field k q t)
            ∙ upper
            ∙ omega (arith, xor_rest r t, half_field k (bit_xor p q) (bit_xor r t)))
          (omega (
            arith,
            xor_last x y,
            xor_last r t,
            field_double k p,
            field_double k q,
            field_double k (bit_xor p q),
          )),
      omega (arith, small, xor_rest r t, pow-suc 2 k),
    )

pub zero_xor : (x : ℕ) → bit_xor 0 x ≡ x
zero_xor x = simp bit_xor-bitwise refl

pub xor_zero : (width x : ℕ) → x < 2 ^ width → bit_xor x 0 ≡ x
xor_zero width x fits = xor_comm width x 0 fits (omega (arith, fits)) ∙ zero_xor x

or_zero : (width x : ℕ) → x < 2 ^ width → bit_or x 0 ≡ x
or_zero zero zero fits = refl
or_zero zero (suc x) fits = absurd (omega arith)
or_zero (suc width) x fits =
    omega (arith, or_halves x 0, or_zero width (x / 2) (half_fits width x fits))

-- A number whose lower `k` bits are clear, and one of `k` bits.
pub or_fields : (width k p r : ℕ) → p < 2 ^ width → r < 2 ^ k → bit_or (p * 2 ^ k) r ≡ p * 2 ^ k + r
or_fields width zero p zero wide fits =
    let whole : p * 2 ^ 0 ≡ p = omega arith in
    ap (λ u. bit_or u 0) whole ∙ or_zero width p wide ∙ omega arith
or_fields width zero p (suc r) wide fits = absurd (omega arith)
or_fields width (suc k) p r wide fits =
    let half : p * 2 ^ suc k / 2 ≡ p * 2 ^ k = omega (arith, field_double k p) in
    omega (
      arith,
      or_halves (p * 2 ^ suc k) r,
      field_double k p,
      ap (λ u. bit_or u (r / 2)) half,
      or_fields width k p (r / 2) wide (half_fits k r fits),
    )
