-- ===== src/Examples/Console.antt =====
-- The console that ends the program: examples/debug_fun.cpp and
-- examples/console_input_process_thread.cpp. Standard input is the bytes that are still to come.
pub mod Lines
use light_server.Base.{
  ℕ, zero, suc, ◌-◌, ◌≡◌, Bool, true, false, not, Option, none, some, List, [], ◌∷◌, ◌==◌,
  if◌then◌else◌,
}
use light_server.DmPacket.{same_bytes}

-- OK, NO_INPUT and TOO_LONG
abbrev pub rc_ok : ℕ
rc_ok = 0

abbrev pub no_input : ℕ
no_input = 1

abbrev pub too_long : ℕ
too_long = 2

abbrev pub newline : ℕ
newline = 10

-- What `fgets` stores, up to `n` bytes or a newline, and what it leaves.
abbrev pub fgets : ℕ → List ℕ → List ℕ × List ℕ
fgets zero input = ([], input)
fgets (suc n) [] = ([], [])
fgets (suc n) (c ∷ input) =
    let r = fgets n input in if c == newline then (c ∷ [], input) else (c ∷ r.0, r.1)

-- The bytes of a string in front of its NUL.
abbrev pub c_string : List ℕ → List ℕ
c_string [] = []
c_string (c ∷ cs) = let rest = c_string cs in if c == 0 then [] else c ∷ rest

abbrev pub last : List ℕ → Option ℕ
last [] = none
last (c ∷ []) = some c
last (c ∷ d ∷ cs) = last (d ∷ cs)

abbrev pub without_last : List ℕ → List ℕ
without_last [] = []
without_last (c ∷ []) = []
without_last (c ∷ d ∷ cs) = c ∷ without_last (d ∷ cs)

-- The loop over `getchar`: whether there was more of the line, and what is left behind it.
unfoldable pub skip_line : List ℕ → Bool × List ℕ
skip_line [] = (false, [])
skip_line (c ∷ input) =
    let r = skip_line input in if c == newline then (false, input) else (true, r.1)

-- The part of `getLine` behind `fgets`. The last byte of an empty string stands outside of the buffer.
abbrev pub end_line : List ℕ → List ℕ → Option ((ℕ × List ℕ) × List ℕ)
end_line text rest = elim (last text) [
  | none ↦ none
  | some c ↦
      if c == newline
      then some ((rc_ok, without_last text), rest)
      else (let r = skip_line rest in some ((if r.0 then too_long else rc_ok, text), r.1))
]

-- What was stored, if there was any.
abbrev pub on_stored : List ℕ → List ℕ → Option ((ℕ × List ℕ) × List ℕ)
on_stored [] rest = some ((no_input, []), rest)
on_stored (c ∷ cs) rest = end_line (c_string (c ∷ cs)) rest

-- `getLine` with a buffer of `sz` bytes: its result, the string, and the input that is left.
unfoldable pub get_line : ℕ → List ℕ → Option ((ℕ × List ℕ) × List ℕ)
get_line sz input = let r = fgets (sz - 1) input in on_stored r.0 r.1

-- The static variables of the two files, and the input.
pub record Console : Type 0 where
  pub exit_flag : ℕ
  pub thread_run : ℕ
  pub input : List ℕ

-- `CancelThreads`, `CancelConsoleInputProcessThread` and `IsExitFlagSet`
abbrev pub cancel_threads : Console → Console
cancel_threads c = record c { exit_flag = 1 }

abbrev pub cancel_console_thread : Console → Console
cancel_console_thread c = record c { thread_run = 0 }

abbrev pub is_exit_flag_set : Console → Bool
is_exit_flag_set c = not (c.exit_flag == 0)

abbrev pub quit : List ℕ
quit = b':' ∷ b'q' ∷ []

abbrev pub obey : Console → ℕ → List ℕ → Bool × Console
obey c rc text =
    if rc == rc_ok
    then if same_bytes text quit then (false, cancel_threads c) else (true, c)
    else (true, c)

abbrev pub answered : Console → Option ((ℕ × List ℕ) × List ℕ) → Option (Bool × Console)
answered c none = none
answered c (some ((rc, text), rest)) = some (obey (record c { input = rest }) rc text)

-- `terminal_debug`: false where the program is to end.
unfoldable pub terminal_debug : Console → Option (Bool × Console)
terminal_debug c = answered c (get_line 30 c.input)

-- `ConsoleInputProcessThread`, for as many rounds: whether it has ended, and the state.
unfoldable pub console_thread : ℕ → Console → Option (Bool × Console)
console_thread zero c = some (false, c)
console_thread (suc rounds) c =
    if c.thread_run == 0 then some (true, c) else elim (terminal_debug c) [
      | none ↦ none
      | some (true, d) ↦ console_thread rounds d
      | some (false, d) ↦ some (true, d)
    ]
