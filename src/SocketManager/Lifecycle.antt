-- ===== src/SocketManager/Lifecycle.antt =====
-- `Start` and `Stop` of a `SocketManager`. socket_manager/socket_manager.cpp.
-- `worker` is what the work thread does while this thread waits for it.
use light_server.Base.{ℕ, ◌+◌, Bool, true, false, List, [], ◌∷◌, ltb, ◌==◌, if◌then◌else◌}
use light_server.Common.{minus_one, is_valid_fd, is_invalid_fd, epollin, epollet}
use light_server.Machine.{Pvoid, Call, Kernel, M, ◌>>=◌, ◌>>◌, pure, get_mgr, put_mgr, sys}
use light_server.SocketManager.Descriptors.{
  reset, has_start, has_work_start, add_fd, delete_fd, add_timer, del_timer,
}
use light_server.SocketManager.Objects.{release_socket_objects}

-- The `break`s of `Start`: the first failure skips the rest.
infixr 35 ◌and_then◌
abbrev pub ◌and_then◌ : {S : Type 0} → M S Bool → M S Bool → M S Bool
m and_then rest = do going ← m; if going then rest else pure false

abbrev pub is_empty {ℓ} : {A : Type ℓ} → List A → Bool
is_empty [] = true
is_empty (x ∷ xs) = false

module _ (k : Kernel) {S : Type 0} where
  abbrev pub open_cmd_evt : M S Bool
  open_cmd_evt = do
    fd ← sys k Call.eventfd
    put_mgr (λ m. record m { cmd_evt_fd = fd.ret })
    if is_invalid_fd fd.ret then pure false else add_fd k fd.ret (epollin + epollet) Pvoid.cmd_evt

  abbrev pub open_exit_evt : M S Bool
  open_exit_evt = do
    fd ← sys k Call.eventfd
    put_mgr (λ m. record m { exit_evt_fd = fd.ret })
    if is_invalid_fd fd.ret then pure false else add_fd k fd.ret (epollin + epollet) Pvoid.exit_evt

  abbrev pub start_timer : ℕ → M S Bool
  start_timer interval = if ltb 0 interval then add_timer k interval else pure true

  -- `StartWorkThread`: the id that `pthread_create` writes is positive.
  unfoldable pub start_work_thread : M S ℕ
  start_work_thread = do
    r ← sys k Call.pthread_create
    if r.ret == 0
        then (do put_mgr (λ m. record m { work_thread_id = r.value }); pure 0)
        else (do put_mgr (λ m. record m { work_thread_id = 0 }); pure minus_one)

  abbrev pub start_thread : M S Bool
  start_thread = do failed ← start_work_thread; pure (failed == 0)

  unfoldable pub stop_work_thread : M S (Unit {0}) → M S ℕ
  stop_work_thread worker = do
    m ← get_mgr
    sys k (Call.eventfd_write m.exit_evt_fd)
    worker
    r ← sys k (Call.pthread_join m.work_thread_id)
    pure r.ret

  unfoldable pub close_evt : ℕ → M S (Unit {0})
  close_evt fd =
      if is_valid_fd fd then (do delete_fd k fd; sys k (Call.close fd); pure tt) else pure tt

  unfoldable pub stop_timer : ℕ → M S Bool
  stop_timer fd = if is_valid_fd fd then del_timer k fd else pure true

  unfoldable pub close_epoll : ℕ → M S (Unit {0})
  close_epoll fd = if is_valid_fd fd then (do sys k (Call.close fd); pure tt) else pure tt

  -- The part of `Stop` behind the test of `HasStart`.
  abbrev pub close_down : M S ℕ
  close_down = do
    put_mgr (λ m. record m { cmd_queue = [] })
    release_socket_objects k
    m ← get_mgr
    close_evt m.cmd_evt_fd
    close_evt m.exit_evt_fd
    stop_timer m.timer_evt_fd
    close_epoll m.epoll_fd
    put_mgr reset
    pure 0

  unfoldable pub stop : M S (Unit {0}) → M S ℕ
  stop worker = do
    m ← get_mgr
    if is_empty m.cmd_queue then pure tt else (do sys k Call.usleep; worker)
    m ← get_mgr
    if has_work_start m then stop_work_thread worker else pure 0
    m ← get_mgr
    if has_start m then close_down else pure minus_one

  -- The calls of `Start` behind `epoll_create1`, in order.
  unfoldable pub all_steps : ℕ → M S Bool
  all_steps interval =
      open_cmd_evt and_then open_exit_evt and_then start_timer interval and_then start_thread

  unfoldable pub start_opened : M S (Unit {0}) → ℕ → M S ℕ
  start_opened worker interval = do
    started ← all_steps interval
    if started then pure 0 else (do stop worker; pure minus_one)

  -- `Start`, of a handler that is not null
  unfoldable pub start : M S (Unit {0}) → ℕ → M S ℕ
  start worker timer_interval = do
    m ← get_mgr
    if has_start m then pure minus_one else (do
      put_mgr (λ m. record m { io_handler = true })
      ep ← sys k Call.epoll_create
      put_mgr (λ m. record m { epoll_fd = ep.ret })
      if is_invalid_fd ep.ret then pure minus_one else start_opened worker timer_interval)
