-- ===== src/Examples/Console/Lines.antt =====
-- What the console reads, line for line.
use light_server.Base.{
  ℕ, zero, suc, ◌-◌, ◌≤◌, ◌<◌, ◌≡◌, refl, ap, ◌∙◌, Bool, true, false, not, some, List, [], ◌∷◌,
  ◌++◌, ◌==◌, if◌then◌else◌, length, take, drop, leb, take_all, arith, Bool-cases, inl, inr,
}
use light_server.DmPacket.{same_bytes}
use light_server.Examples.Console.{
  rc_ok, too_long, newline, fgets, c_string, last, without_last, skip_line, on_stored, get_line,
  Console, quit, answered, terminal_debug, console_thread,
}

-- Bytes of a line: none is a newline or a NUL.
abbrev pub Plain : List ℕ → Type 0
Plain [] = Unit {0}
Plain (c ∷ cs) = ((c == newline) ≡ false) × ((c == 0) ≡ false) × Plain cs

fgets-short :
    (n : ℕ) (line rest : List ℕ)
    → Plain line
    → length line < n
    → fgets n (line ++ (newline ∷ rest)) ≡ (line ++ (newline ∷ []), rest)
fgets-short zero line rest plain short = absurd (omega arith)
fgets-short (suc n) [] rest plain short = refl
fgets-short (suc n) (c ∷ line) rest (brk, nul, plain) short =
    ground (arith, brk, fgets-short n line rest plain (omega arith))

fgets-long :
    (n : ℕ) (line rest : List ℕ)
    → Plain line
    → n ≤ length line
    → fgets n (line ++ (newline ∷ rest)) ≡ (take n line, drop n line ++ (newline ∷ rest))
fgets-long zero line rest plain long = refl
fgets-long (suc n) [] rest plain long = absurd (omega arith)
fgets-long (suc n) (c ∷ line) rest (brk, nul, plain) long =
    ground (arith, brk, fgets-long n line rest plain (omega arith))

c_string-Plain : (cs : List ℕ) → Plain cs → c_string cs ≡ cs
c_string-Plain [] plain = refl
c_string-Plain (c ∷ cs) (brk, nul, plain) = ground (arith, nul, c_string-Plain cs plain)

c_string-line : (cs : List ℕ) → Plain cs → c_string (cs ++ (newline ∷ [])) ≡ cs ++ (newline ∷ [])
c_string-line [] plain = refl
c_string-line (c ∷ cs) (brk, nul, plain) = ground (arith, nul, c_string-line cs plain)

last-line : (cs : List ℕ) → last (cs ++ (newline ∷ [])) ≡ some newline
last-line [] = refl
last-line (c ∷ []) = refl
last-line (c ∷ d ∷ cs) = last-line (d ∷ cs)

without_last-line : (cs : List ℕ) → without_last (cs ++ (newline ∷ [])) ≡ cs
without_last-line [] = refl
without_last-line (c ∷ []) = refl
without_last-line (c ∷ d ∷ cs) = ap (λ ds. c ∷ ds) (without_last-line (d ∷ cs))

last-Plain :
    (c : ℕ) (cs : List ℕ)
    → Plain (c ∷ cs)
    → (d : ℕ) × (last (c ∷ cs) ≡ some d) × ((d == newline) ≡ false)
last-Plain c [] (brk, nul, plain) = (c, refl, brk)
last-Plain c (d ∷ cs) (brk, nul, plain) = last-Plain d cs plain

take-Plain : (n : ℕ) (cs : List ℕ) → Plain cs → Plain (take n cs)
take-Plain zero cs plain = tt
take-Plain (suc n) [] plain = tt
take-Plain (suc n) (c ∷ cs) (brk, nul, plain) = (brk, nul, take-Plain n cs plain)

skip_line-drop :
    (n : ℕ) (cs rest : List ℕ)
    → Plain cs
    → skip_line (drop n cs ++ (newline ∷ rest)) ≡ (not (leb (length cs) n), rest)
unfolding skip_line
skip_line-drop zero [] rest plain = refl
skip_line-drop (suc n) [] rest plain = ground arith
skip_line-drop zero (c ∷ cs) rest (brk, nul, plain) =
    ground (arith, brk, skip_line-drop zero cs rest plain)
skip_line-drop (suc n) (c ∷ cs) rest (brk, nul, plain) =
    ground (arith, skip_line-drop n cs rest plain)

-- A line that fits with its newline.
whole_line :
    (line rest : List ℕ)
    → Plain line
    → on_stored (line ++ (newline ∷ [])) rest ≡ some ((rc_ok, line), rest)
whole_line [] rest plain = refl
whole_line (c ∷ line) rest plain =
    let text : c_string (c ∷ (line ++ (newline ∷ []))) ≡ c ∷ (line ++ (newline ∷ [])) =
      c_string-line (c ∷ line) plain in
    rw text (ground (arith, last-line (c ∷ line), without_last-line (c ∷ line)))

-- A part of a line, without its newline.
part_line :
    (c : ℕ) (cs rest after : List ℕ) (more : Bool)
    → Plain (c ∷ cs)
    → skip_line rest ≡ (more, after)
    → on_stored (c ∷ cs) rest ≡ some ((if more then too_long else rc_ok, c ∷ cs), after)
part_line c cs rest after more plain skipped =
    let (d, at_end, no_break) = last-Plain c cs plain in
    rw (c_string-Plain (c ∷ cs) plain) (ground (arith, at_end, no_break, skipped))

-- `fgets` of at most `n` bytes, and what is made of it.
stored_line :
    (n : ℕ) (line rest : List ℕ)
    → 0 < n
    → Plain line
    → let r = fgets n (line ++ (newline ∷ rest)) in
      on_stored r.0 r.1
      ≡ some ((if leb (length line) n then rc_ok else too_long, take n line), rest)
stored_line zero line rest room plain = absurd (omega arith)
stored_line (suc n) [] rest room plain = ground arith
stored_line (suc n) (c ∷ cs) rest room plain = elim (Bool-cases (leb (length (c ∷ cs)) n)) [
  | inl short ↦
      rw (fgets-short (suc n) (c ∷ cs) rest plain (ground arith))
        (ground (arith, whole_line (c ∷ cs) rest plain, take_all (suc n) (c ∷ cs) (ground arith)))
  | inr long ↦ rw (fgets-long (suc n) (c ∷ cs) rest plain (ground arith)) (
      ground (
        arith,
        part_line c (take n cs) (drop n cs ++ (newline ∷ rest)) rest (not (leb (length cs) n))
            (take-Plain (suc n) (c ∷ cs) plain) (skip_line-drop n cs rest plain.2),
      ))
]

-- `getLine` with a buffer of more than one byte, where the input begins with a line that has no NUL
-- byte and ends with a newline: it takes that line from the input, its newline included, and no more.
-- It reports OK and gives the line where that is shorter than the buffer, and otherwise reports
-- TOO_LONG and gives the part that fits.
pub get_line-Plain :
    (sz : ℕ) (line rest : List ℕ)
    → 1 < sz
    → Plain line
    → get_line sz (line ++ (newline ∷ rest))
      ≡ some ((if leb (length line) (sz - 1) then rc_ok else too_long, take (sz - 1) line), rest)
unfolding get_line
get_line-Plain sz line rest room plain = stored_line (sz - 1) line rest (omega arith) plain

-- Whether a line tells the program to end.
abbrev pub quits : List ℕ → Bool
quits line = same_bytes line quit

quits-short : (line : List ℕ) → quits line ≡ true → length line ≡ 2
quits-short [] e = ground arith
quits-short (a ∷ []) e = ground arith
quits-short (a ∷ b ∷ []) e = refl
quits-short (a ∷ b ∷ c ∷ line) e = ground arith

-- `terminal_debug` takes one line.
terminal_debug-Plain :
    (c : Console) (line rest : List ℕ)
    → c.input ≡ line ++ (newline ∷ rest)
    → Plain line
    → terminal_debug c
      ≡ some (
        not (quits line),
        record c { input = rest; exit_flag = if quits line then 1 else c.exit_flag },
      )
unfolding terminal_debug
terminal_debug-Plain c line rest e plain =
    ap (answered c) (ap (get_line 30) e ∙ get_line-Plain 30 line rest (omega arith) plain)
    ∙ elim (Bool-cases (leb (length line) 29)) [
      | inl short ↦ elim (Bool-cases (quits line)) [
        | inl q ↦ ground (arith, take_all 29 line (ground arith))
        | inr other ↦ ground (arith, take_all 29 line (ground arith))
      ]
      | inr long ↦ ground (arith, quits-short line)
    ]

-- Lines that do not tell the program to end, each with its newline, and what follows them.
abbrev pub Ordinary : List (List ℕ) → Type 0
Ordinary [] = Unit {0}
Ordinary (line ∷ lines) = Plain line × (quits line ≡ false) × Ordinary lines

abbrev pub typed : List (List ℕ) → List ℕ → List ℕ
typed [] rest = rest
typed (line ∷ lines) rest = line ++ (newline ∷ typed lines rest)

abbrev pub count_lines : List (List ℕ) → ℕ
count_lines [] = 0
count_lines (line ∷ lines) = suc (count_lines lines)

-- The thread of the console, while it is to run, on lines without a NUL byte, each ended by a newline,
-- takes line for line, and ends with the first line that is ":q": then the flag that ends the program is set, and the lines behind that one are still to come.
pub console_thread-ends :
    (lines : List (List ℕ)) (c : Console) (rest : List ℕ)
    → (c.thread_run == 0) ≡ false
    → Ordinary lines
    → c.input ≡ typed lines (quit ++ (newline ∷ rest))
    → console_thread (suc (count_lines lines)) c
      ≡ some (true, record c { input = rest; exit_flag = 1 })
unfolding console_thread
console_thread-ends [] c rest on all e =
    ground (arith, terminal_debug-Plain c quit rest e (refl, refl, (refl, refl, tt)))
console_thread-ends (line ∷ lines) c rest on (plain, other, all) e =
    let left = typed lines (quit ++ (newline ∷ rest)) in
    ground (
      arith,
      terminal_debug-Plain c line left e plain,
      console_thread-ends lines (record c { input = left }) rest on all refl,
    )
