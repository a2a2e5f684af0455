-- ===== src/SocketManager/Descriptors.antt =====
-- The descriptors of a `SocketManager`: reset, epoll registration, timers, times.
use light_server.Base.{
  ℕ, ◌+◌, ◌*◌, ◌/◌, ◌%◌, ◌^◌, ◌<◌, ◌≡◌, Bool, true, false, not, Option, none, some, ltb, ◌==◌,
  if◌then◌else◌, bit_or, arith,
}
use light_server.Common.{int_mod, minus_one, is_negative, invalid_fd, is_valid_fd, epollin, epollet}
use light_server.Machine.{
  Pvoid, Call, CtlOp, Kernel, Manager, Timespec, M, ◌>>=◌, ◌>>◌, pure, get_mgr, put_mgr, sys,
}

-- `Reset`
unfoldable pub reset : Manager → Manager
reset m = record m {
  epoll_fd = invalid_fd;
  exit_evt_fd = invalid_fd;
  cmd_evt_fd = invalid_fd;
  timer_evt_fd = invalid_fd;
  work_thread_id = 0;
  max_events = 6;
}

unfoldable pub has_start : Manager → Bool
has_start m = not (m.epoll_fd == invalid_fd)

unfoldable pub has_work_start : Manager → Bool
has_work_start m = ltb 0 m.work_thread_id

unfoldable pub timespec_to_millisecond : Timespec → ℕ
timespec_to_millisecond ts = (ts.tv_sec % 2 ^ 64 * 1000 % 2 ^ 64 + ts.tv_nsec / 1000000) % 2 ^ 64

unfoldable pub millisecond_to_timespec : ℕ → Timespec
millisecond_to_timespec ms = record { tv_sec = ms / 1000; tv_nsec = ms % 1000 * 1000000 }

module _ (k : Kernel) {S : Type 0} where
  unfoldable pub ctl_fd : ℕ → CtlOp → ℕ → Pvoid → M S Bool
  ctl_fd fd op mask pv = do
    m ← get_mgr
    r ← sys k (Call.epoll_ctl op fd mask pv)
    pure (not (r.ret == minus_one))

  abbrev pub add_fd : ℕ → ℕ → Pvoid → M S Bool
  add_fd fd mask pv = ctl_fd fd CtlOp.add mask pv

  abbrev pub delete_fd : ℕ → M S Bool
  delete_fd fd = ctl_fd fd CtlOp.del 0 Pvoid.null

  -- `fcntl` with F_GETFL, then with F_SETFL and O_NONBLOCK (0x800)
  unfoldable pub set_non_blocking : ℕ → M S ℕ
  set_non_blocking sock = do
    opts ← sys k (Call.fcntl_getfl sock)
    if is_negative opts.ret then pure minus_one else (do
      r ← sys k (Call.fcntl_setfl sock (bit_or opts.ret 0x800))
      pure (if is_negative r.ret then minus_one else 0))

  -- `GetTime` and `GetTimeInMillisecond`
  unfoldable pub get_time : M S ℕ
  get_time = do
    r ← sys k Call.clock_gettime
    pure (if r.ret == minus_one then 0 else r.time.tv_sec % int_mod)

  unfoldable pub get_time_in_millisecond : M S ℕ
  unfolding timespec_to_millisecond
  get_time_in_millisecond = do
    r ← sys k Call.clock_gettime
    pure (if r.ret == minus_one then 0 else timespec_to_millisecond r.time)

  -- The part of `CreateTimer` behind the choice of the start time.
  unfoldable pub arm_timer : ℕ → Timespec → M S ℕ
  unfolding millisecond_to_timespec
  arm_timer interval now = do
    t ← sys k Call.timerfd_create
    if t.ret == minus_one then pure minus_one else (do
      r ← sys k (
          Call.timerfd_settime t.ret (record {
            it_value = record { tv_sec = now.tv_sec + 1; tv_nsec = now.tv_nsec };
            it_interval = millisecond_to_timespec interval;
          }))
      pure (if r.ret == minus_one then minus_one else t.ret))

  unfoldable pub create_timer : ℕ → ℕ → M S ℕ
  unfolding millisecond_to_timespec
  create_timer interval start_time =
      if start_time == 0
      then (do
        now ← sys k Call.clock_gettime
        if now.ret == minus_one then pure minus_one else arm_timer interval now.time)
      else arm_timer interval (millisecond_to_timespec start_time)

  -- `ReadTimer`: the number of expirations, if eight bytes came.
  unfoldable pub read_timer : M S (Option ℕ)
  read_timer = do
    m ← get_mgr
    r ← sys k (Call.read m.timer_evt_fd 8)
    pure (if r.ret == 8 then some r.value else none)

  unfoldable pub add_timer : ℕ → M S Bool
  add_timer interval = do
    time_fd ← create_timer interval 0
    added ← add_fd time_fd (epollin + epollet) Pvoid.timer_evt
    if added then (do put_mgr (λ m. record m { timer_evt_fd = time_fd }); pure true) else (do
      sys k (Call.close time_fd)
      put_mgr (λ m. record m { timer_evt_fd = invalid_fd })
      pure false)

  unfoldable pub del_timer : ℕ → M S Bool
  del_timer timer_fd =
      if is_valid_fd timer_fd
      then (do delete_fd timer_fd; sys k (Call.close timer_fd); pure true)
      else pure true

-- A time in milliseconds below 2 ^ 64 comes back from the `timespec` made of it.
pub timespec_roundtrip :
    (ms : ℕ) → ms < 2 ^ 64 → timespec_to_millisecond (millisecond_to_timespec ms) ≡ ms
unfolding timespec_to_millisecond millisecond_to_timespec
timespec_roundtrip ms h = omega arith
