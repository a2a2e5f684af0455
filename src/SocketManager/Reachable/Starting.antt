-- ===== src/SocketManager/Reachable/Starting.antt =====
-- `Start` keeps a manager well formed. socket_manager/socket_manager.cpp.
use light_server.Base.{ℕ, ◌≡◌, refl, true}
use light_server.Common.{minus_one}
use light_server.Machine.{Pvoid, Call, CtlOp, Kernel, M, put_mgr}
use light_server.SocketManager.Descriptors.{ctl_fd, add_fd, add_timer, create_timer, arm_timer}
use light_server.SocketManager.Lifecycle.{
  open_cmd_evt, open_exit_evt, start_timer, start_work_thread, start_thread, all_steps,
  start_opened, start, stop,
}
use light_server.SocketManager.WellFormed.{is_plain, Keeps, Safe, Keeps-bind}
use light_server.SocketManager.WellFormed.Rules.{Safe-Keeps, Safe-pure, Safe-put_mgr, Keeps-if}
use light_server.SocketManager.WellFormed.Calls.{safe_rules, keeps_rules}
use light_server.SocketManager.WellFormed.Removing.{stop-Keeps}

module _ (k : Kernel) {S : Type 0} where
  epoll_fd-Safe : (fd : ℕ) → Safe {S = S} (put_mgr (λ m. record m { epoll_fd = fd }))
  epoll_fd-Safe fd = Safe-put_mgr _ (λ m. refl)

  cmd_evt_fd-Safe : (fd : ℕ) → Safe {S = S} (put_mgr (λ m. record m { cmd_evt_fd = fd }))
  cmd_evt_fd-Safe fd = Safe-put_mgr _ (λ m. refl)

  exit_evt_fd-Safe : (fd : ℕ) → Safe {S = S} (put_mgr (λ m. record m { exit_evt_fd = fd }))
  exit_evt_fd-Safe fd = Safe-put_mgr _ (λ m. refl)

  timer_evt_fd-Safe : (fd : ℕ) → Safe {S = S} (put_mgr (λ m. record m { timer_evt_fd = fd }))
  timer_evt_fd-Safe fd = Safe-put_mgr _ (λ m. refl)

  thread_id-Safe : (id : ℕ) → Safe {S = S} (put_mgr (λ m. record m { work_thread_id = id }))
  thread_id-Safe id = Safe-put_mgr _ (λ m. refl)

  handler-Safe : Safe {S = S} (put_mgr (λ m. record m { io_handler = true }))
  handler-Safe = Safe-put_mgr _ (λ m. refl)

  add_fd-Safe :
      (fd mask : ℕ) (pv : Pvoid)
      → is_plain (Call.epoll_ctl CtlOp.add fd mask pv) ≡ true
      → Safe {S = S} (add_fd k fd mask pv)
  unfolding ctl_fd
  add_fd-Safe fd mask pv plain = search safe_rules

  open_cmd_evt-Safe : Safe {S = S} (open_cmd_evt k)
  open_cmd_evt-Safe = search (safe_rules, cmd_evt_fd-Safe, add_fd-Safe) depth 12

  open_exit_evt-Safe : Safe {S = S} (open_exit_evt k)
  open_exit_evt-Safe = search (safe_rules, exit_evt_fd-Safe, add_fd-Safe) depth 12

  start_timer-Safe : (interval : ℕ) → Safe {S = S} (start_timer k interval)
  unfolding add_timer create_timer arm_timer
  start_timer-Safe interval = search (safe_rules, timer_evt_fd-Safe, add_fd-Safe) depth 24

  start_thread-Safe : Safe {S = S} (start_thread k)
  unfolding start_work_thread
  start_thread-Safe = search (safe_rules, thread_id-Safe) depth 12

  all_steps-Safe : (interval : ℕ) → Safe {S = S} (all_steps k interval)
  unfolding all_steps
  all_steps-Safe interval =
      search
        (safe_rules, open_cmd_evt-Safe, open_exit_evt-Safe, start_timer-Safe, start_thread-Safe)
        depth 20

  module _ (worker : M S (Unit {0})) (kw : Keeps worker) where
    start_opened-Keeps : (interval : ℕ) → Keeps (start_opened k worker interval)
    unfolding start_opened
    start_opened-Keeps interval =
        Keeps-bind (all_steps k interval) _ (Safe-Keeps (all_steps-Safe interval)) λ started.
          Keeps-if started _ _ (Safe-Keeps (Safe-pure 0)) (
            Keeps-bind (stop k worker) _ (stop-Keeps k worker kw)
              λ _. Safe-Keeps (Safe-pure minus_one))

    pub start-Keeps : (interval : ℕ) → Keeps (start k worker interval)
    unfolding start
    start-Keeps interval =
        search (keeps_rules, handler-Safe, epoll_fd-Safe, start_opened-Keeps) depth 20
