-- ===== src/SocketManager/Events.antt =====
-- The work thread of a `SocketManager`: epoll events, commands, the timer, input and output.
-- socket_manager/socket_manager.cpp.
use light_server.Base.{
  ℕ, zero, suc, Bool, true, false, none, some, List, [], ◌∷◌, take, ◌==◌, if◌then◌else◌,
}
use light_server.Common.{minus_one, epollin, epollout, has_flag}
use light_server.Machine.{
  Pvoid, cmd_evt, exit_evt, timer_evt, object, Call, Fault, Kernel, Command, M, ◌>>=◌, ◌>>◌, pure,
  stop, get_mgr, put_mgr, sys,
}
use light_server.SocketManager.Descriptors.{read_timer}
use light_server.SocketManager.Objects.{
  IoHandler, call_handler, find_socket_object, remove_socket_object,
}

-- `cmd_queue_.pop()`, which is undefined for a queue that is empty
abbrev pub pop_command : {S : Type 0} → M S (Unit {0})
pop_command = do
  m ← get_mgr
  elim m.cmd_queue [
    | [] ↦ stop Fault.undefined_behaviour
    | c ∷ rest ↦ put_mgr (λ m. record m { cmd_queue = rest })
  ]

module _ (k : Kernel) {S : Type 0} (h : IoHandler S) where
  unfoldable pub do_process_io : Pvoid → ℕ → M S Bool
  do_process_io pv events = do
    read_ok ← (if has_flag events epollin then h.on_ready_read pv events else pure true)
    if read_ok
        then (if has_flag events epollout then h.on_ready_write pv events else pure true)
        else pure false

  unfoldable pub process_io : Pvoid → ℕ → M S Bool
  process_io pv events = do
    wanted ← call_handler (h.on_before_process_io pv events)
    if wanted
        then (do rs ← do_process_io pv events; h.on_after_process_io pv events rs; pure rs)
        else pure false

  unfoldable pub execute : Command → M S Bool
  execute (Command.send sock) = do
    p ← find_socket_object sock
    elim p [ none ↦ pure false | some a ↦ process_io (object a) epollout ]
  execute (Command.disconnect sock) = do p ← find_socket_object sock; remove_socket_object k h p
  execute (Command.shutdown_cmd sock) = pure false
  execute (Command.other sock) = pure false

  -- The loop of `ProcessCommand`, with `count` rounds left. A command is popped after its work.
  unfoldable pub run_commands : ℕ → M S (Unit {0})
  run_commands zero = pure tt
  run_commands (suc count) = do
    m ← get_mgr
    elim m.cmd_queue [ [] ↦ pure tt | c ∷ _ ↦ (do execute c; pop_command; run_commands count) ]

  unfoldable pub process_command : ℕ → M S Bool
  process_command events =
      if has_flag events epollin then (do run_commands 20; pure true) else pure false

  unfoldable pub process_timer : ℕ → M S Bool
  process_timer events =
      if has_flag events epollin
      then (do
        expirations ← read_timer k
        elim expirations [
          | none ↦ pure false
          | some n ↦ (do call_handler (h.on_timer n); pure true)
        ])
      else pure false

  -- One event of a batch: what `bRun` is behind it.
  unfoldable pub process_event : Bool → Pvoid → ℕ → M S Bool
  process_event run cmd_evt events = do process_command events; pure run
  process_event run timer_evt events = do process_timer events; pure run
  process_event run exit_evt events = pure false
  process_event run pv events = do process_io pv events; pure run

  unfoldable pub process_batch : Bool → List (Pvoid × ℕ) → M S Bool
  process_batch run [] = pure run
  process_batch run ((pv, events) ∷ rest) = do
    run' ← process_event run pv events
    process_batch run' rest

  -- `DoWork`
  unfoldable pub do_work : ℕ → M S (Unit {0})
  do_work zero = stop Fault.out_of_rounds
  do_work (suc rounds) = do
    r ← sys k Call.epoll_wait
    if r.ret == minus_one then pure tt else (do
      run ← process_batch true (take r.ret r.events)
      elim run [ true ↦ do_work rounds | false ↦ pure tt ])
