-- ===== src/Common.antt =====
-- socket_manager/common_definitions.h, and the shapes of the values that the system headers give.
-- A C `int` is its bit pattern, a number below 2 ^ 32: -1 is `minus_one`.
pub mod Memory
use light_server.Base.{ℕ, ◌+◌, ◌-◌, ◌/◌, ◌%◌, ◌^◌, Bool, not, ◌&&◌, ltb, leb, ◌==◌}

abbrev pub int_mod : ℕ
int_mod = 2 ^ 32

abbrev pub minus_one : ℕ
minus_one = 2 ^ 32 - 1

abbrev pub is_negative : ℕ → Bool
is_negative w = leb (2 ^ 31) w

-- `w > 0` for an `int`
abbrev pub is_positive : ℕ → Bool
is_positive w = ltb 0 w && ltb w (2 ^ 31)

-- `a < b` for two values of type `int`
abbrev pub int_lt : ℕ → ℕ → Bool
int_lt a b = ltb ((a + 2 ^ 31) % int_mod) ((b + 2 ^ 31) % int_mod)

-- The conversion of an `int` to `bool` at a `return`.
abbrev pub int_to_bool : ℕ → Bool
int_to_bool w = not (w == 0)

-- INVALID_FD, INVALID_SOCKET, SOCKET_ERROR
abbrev pub invalid_fd : ℕ
invalid_fd = minus_one

abbrev pub invalid_socket : ℕ
invalid_socket = minus_one

abbrev pub socket_error : ℕ
socket_error = minus_one

abbrev pub is_valid_fd : ℕ → Bool
is_valid_fd fd = not (fd == invalid_fd)

abbrev pub is_invalid_fd : ℕ → Bool
is_invalid_fd fd = not (is_valid_fd fd)

-- `w & flag`, for a flag of one bit
abbrev pub has_flag : ℕ → ℕ → Bool
has_flag w flag = (w / flag) % 2 == 1

-- Event masks and error numbers of the system headers.
abbrev pub epollin : ℕ
epollin = 1

abbrev pub epollout : ℕ
epollout = 4

abbrev pub epollerr : ℕ
epollerr = 8

abbrev pub epollhup : ℕ
epollhup = 16

abbrev pub epollet : ℕ
epollet = 2 ^ 31

abbrev pub ewouldblock : ℕ
ewouldblock = 11

abbrev pub einprogress : ℕ
einprogress = 115

-- `sockaddr`, as the program fills and copies it
pub record Sockaddr : Type 0 where
  pub family : ℕ
  pub port : ℕ
  pub ip : ℕ
