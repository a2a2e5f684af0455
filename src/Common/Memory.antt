-- ===== src/Common/Memory.antt =====
-- Reading and writing parts of a buffer of bytes, as `memcpy` does.
use light_server.Base.{
  ℕ, ◌+◌, ◌-◌, ◌*◌, ◌≤◌, ◌≡◌, sym, ap, ◌∙◌, Option, none, some, List, [], ◌∷◌, ◌++◌, append_assoc,
  leb, if◌then◌else◌, length, take, drop, arith, length-take, length-drop, length-append,
  take-length_append, drop-length_append, drop-drop,
}

-- `n` bytes from `off` on: past the end it is undefined.
abbrev pub slice : List ℕ → ℕ → ℕ → Option (List ℕ)
slice buf off n = if leb (off + n) (length buf) then some (take n (drop off buf)) else none

-- `memcpy` of `bytes` to `off`
abbrev pub write_at : List ℕ → ℕ → List ℕ → Option (List ℕ)
write_at buf off bytes =
    if leb (off + length bytes) (length buf)
    then some (take off buf ++ (bytes ++ drop (off + length bytes) buf))
    else none

-- A `uint32_t` in memory, lowest byte first.
abbrev pub le32 : List ℕ → ℕ
le32 [] = 0
le32 (b ∷ bs) = b + 256 * le32 bs

pub slice-some :
    (buf : List ℕ) (off n : ℕ)
    → off + n ≤ length buf
    → (r : List ℕ) × (slice buf off n ≡ some r) × (length r ≡ n)
slice-some buf off n h = (
  take n (drop off buf),
  ground arith,
  omega (arith, length-take n (drop off buf), length-drop off buf),
)

pub length-write_at :
    (buf : List ℕ) (off : ℕ) (bytes : List ℕ)
    → off + length bytes ≤ length buf
    → length (take off buf ++ (bytes ++ drop (off + length bytes) buf)) ≡ length buf
length-write_at buf off bytes h = omega (
  arith,
  length-append (take off buf) (bytes ++ drop (off + length bytes) buf),
  length-append bytes (drop (off + length bytes) buf),
  length-take off buf,
  length-drop (off + length bytes) buf,
)

pub write_at-some :
    (buf : List ℕ) (off : ℕ) (bytes : List ℕ)
    → off + length bytes ≤ length buf
    → (r : List ℕ) × (write_at buf off bytes ≡ some r) × (length r ≡ length buf)
write_at-some buf off bytes h = (
  take off buf ++ (bytes ++ drop (off + length bytes) buf),
  ground arith,
  length-write_at buf off bytes h,
)

abbrev pub splice : List ℕ → ℕ → List ℕ → List ℕ
splice buf off bytes = take off buf ++ (bytes ++ drop (off + length bytes) buf)

pub write_at-splice :
    (buf : List ℕ) (off : ℕ) (bytes : List ℕ)
    → off + length bytes ≤ length buf
    → write_at buf off bytes ≡ some (splice buf off bytes)
write_at-splice buf off bytes h = ground arith

pub take_front : (n : ℕ) (xs ys : List ℕ) → n ≡ length xs → take n (xs ++ ys) ≡ xs
take_front n xs ys e = rw e (take-length_append xs ys)

pub drop_front : (n : ℕ) (xs ys : List ℕ) → n ≡ length xs → drop n (xs ++ ys) ≡ ys
drop_front n xs ys e = rw e (drop-length_append xs ys)

-- Two writes, the second one behind the first, are one.
pub splice-splice :
    (buf : List ℕ) (off : ℕ) (a b : List ℕ)
    → off + length a ≤ length buf
    → splice (splice buf off a) (off + length a) b ≡ splice buf off (a ++ b)
splice-splice buf off a b h =
    let t = take off buf in
    let r = drop (off + length a) buf in
    let room : length t ≡ off = omega (arith, length-take off buf) in
    let front : off + length a ≡ length (t ++ a) = omega (arith, length-append t a) in
    let regroup : splice buf off a ≡ (t ++ a) ++ r = sym (append_assoc t a r) in
    let first : take (off + length a) (splice buf off a) ≡ t ++ a =
      rw regroup (take_front (off + length a) (t ++ a) r front) in
    let rest : drop (off + length a + length b) (splice buf off a)
        ≡ drop (off + length (a ++ b)) buf =
      sym (drop-drop (length b) (off + length a) (splice buf off a))
      ∙ ap (λ l. drop (length b) l) (rw regroup (drop_front (off + length a) (t ++ a) r front))
      ∙ drop-drop (length b) (off + length a) buf
      ∙ ap (λ n. drop n buf) (omega (arith, length-append a b)) in
    let d = drop (off + length (a ++ b)) buf in
    ap (λ l. l ++ (b ++ drop (off + length a + length b) (splice buf off a))) first
    ∙ ap (λ l. (t ++ a) ++ (b ++ l)) rest
    ∙ append_assoc t a (b ++ d)
    ∙ ap (λ l. t ++ l) (sym (append_assoc a b d))

pub drop-splice :
    (buf : List ℕ) (off : ℕ) (bytes : List ℕ) (n : ℕ)
    → off + length bytes ≤ n
    → off + length bytes ≤ length buf
    → drop n (splice buf off bytes) ≡ drop n buf
drop-splice buf off bytes n behind inside =
    let front : off + length bytes ≡ length (take off buf ++ bytes) =
      omega (arith, length-append (take off buf) bytes, length-take off buf) in
    let m = n - (off + length bytes) in
    let e : off + length bytes + m ≡ n = omega arith in
    ap (λ i. drop i (splice buf off bytes)) (sym e)
    ∙ sym (drop-drop m (off + length bytes) (splice buf off bytes))
    ∙ ap (drop m) (
        ap (drop (off + length bytes))
          (sym (append_assoc (take off buf) bytes (drop (off + length bytes) buf)))
        ∙ drop_front (off + length bytes) (take off buf ++ bytes) _ front)
    ∙ drop-drop m (off + length bytes) buf
    ∙ ap (λ i. drop i buf) e

pub take-splice :
    (buf : List ℕ) (off : ℕ) (bytes : List ℕ)
    → off + length bytes ≤ length buf
    → take (off + length bytes) (splice buf off bytes) ≡ take off buf ++ bytes
take-splice buf off bytes inside =
    let front : off + length bytes ≡ length (take off buf ++ bytes) =
      omega (arith, length-append (take off buf) bytes, length-take off buf) in
    ap (take (off + length bytes))
      (sym (append_assoc (take off buf) bytes (drop (off + length bytes) buf)))
    ∙ take_front (off + length bytes) (take off buf ++ bytes) _ front
