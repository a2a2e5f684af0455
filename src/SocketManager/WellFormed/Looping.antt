-- ===== src/SocketManager/WellFormed/Looping.antt =====
-- The event loop keeps a manager well formed, whatever its events and its commands are, for a handler
-- that does.
use light_server.Base.{
  ℕ, zero, suc, refl, Bool, true, false, Option, none, some, List, [], ◌∷◌, take, ◌==◌,
}
use light_server.Common.{epollin, epollout, has_flag, minus_one}
use light_server.Machine.{
  Pvoid, null, object, cmd_evt, exit_evt, timer_evt, listen_sock, Call, Fault, Kernel, Command, M,
  pure, stop, put_mgr, get_mgr, sys, ◌>>◌,
}
use light_server.SocketManager.Descriptors.{read_timer}
use light_server.SocketManager.Objects.{IoHandler, find_socket_object, call_handler}
use light_server.SocketManager.Events.{
  pop_command, do_process_io, process_io, execute, run_commands, process_command, process_timer,
  process_event, process_batch, do_work,
}
use light_server.SocketManager.WellFormed.{Keeps, Safe, Safe-bind, Keeps-bind}
use light_server.SocketManager.WellFormed.Rules.{
  Safe-Keeps, Safe-put_mgr, Safe-pure, Safe-get_mgr, Safe-sys, Safe-stop, Keeps-if,
}
use light_server.SocketManager.WellFormed.Calls.{safe_rules, keeps_rules, find_socket_object-Safe}
use light_server.SocketManager.WellFormed.Removing.{remove_socket_object-Keeps}

-- A handler whose functions keep a state well formed, and that deletes no object when it hears that a
-- connection is gone.
pub record HandlerKeeps {S : Type 0} (h : IoHandler S) : Type 0 where
  pub on_timer : (n : ℕ) → Keeps (h.on_timer n)
  pub on_before_process_io : (pv : Pvoid) (events : ℕ) → Keeps (h.on_before_process_io pv events)
  pub on_after_process_io :
      (pv : Pvoid) (events : ℕ) (rs : Bool) → Keeps (h.on_after_process_io pv events rs)
  pub on_ready_read : (pv : Pvoid) (events : ℕ) → Keeps (h.on_ready_read pv events)
  pub on_ready_write : (pv : Pvoid) (events : ℕ) → Keeps (h.on_ready_write pv events)
  pub on_disconnect : (sock : ℕ) → Safe (h.on_disconnect sock)

read_timer-Safe : {S : Type 0} (k : Kernel) → Safe {S = S} (read_timer k)
unfolding read_timer
read_timer-Safe k = search safe_rules

pop-Safe : {S : Type 0} → Safe {S = S} pop_command
pop-Safe = Safe-bind get_mgr _ Safe-get_mgr λ m. popped m.cmd_queue
  where
    popped :
        {S : Type 0} (q : List Command)
        → Safe {S = S} {A = Unit {0}} (elim q [
          | [] ↦ stop Fault.undefined_behaviour
          | c ∷ rest ↦ put_mgr (λ m. record m { cmd_queue = rest })
        ])
    popped [] = Safe-stop _
    popped (c ∷ rest) = Safe-put_mgr _ (λ m. refl)

module _ (k : Kernel) {S : Type 0} (h : IoHandler S) (kh : HandlerKeeps h) where
  open kh use {
    on_timer, on_before_process_io, on_after_process_io, on_ready_read, on_ready_write,
    on_disconnect,
  }

  do_process_io-Keeps : (pv : Pvoid) (events : ℕ) → Keeps (do_process_io k h pv events)
  unfolding do_process_io
  do_process_io-Keeps pv events = search (keeps_rules, on_ready_read, on_ready_write) depth 16

  pub process_io-Keeps : (pv : Pvoid) (events : ℕ) → Keeps (process_io k h pv events)
  unfolding process_io
  process_io-Keeps pv events =
      search (keeps_rules, on_before_process_io, do_process_io-Keeps, on_after_process_io) depth 16

  send_found :
      (p : Option ℕ)
      → Keeps {S = S} (elim p [ none ↦ pure false | some a ↦ process_io k h (object a) epollout ])
  send_found none = Safe-Keeps (Safe-pure false)
  send_found (some a) = process_io-Keeps (object a) epollout

  execute-Keeps : (c : Command) → Keeps (execute k h c)
  unfolding execute
  execute-Keeps (Command.send sock) =
      Keeps-bind (find_socket_object sock) _ (Safe-Keeps (find_socket_object-Safe k sock))
        λ p. send_found p
  execute-Keeps (Command.disconnect sock) =
      Keeps-bind (find_socket_object sock) _ (Safe-Keeps (find_socket_object-Safe k sock))
        λ p. remove_socket_object-Keeps k h on_disconnect p
  execute-Keeps (Command.shutdown_cmd sock) = Safe-Keeps (Safe-pure false)
  execute-Keeps (Command.other sock) = Safe-Keeps (Safe-pure false)

  commands_in :
      (rest : M S (Unit {0}))
      → Keeps rest
      → (q : List Command)
      → Keeps {S = S} (elim q [ [] ↦ pure tt | c ∷ _ ↦ (do execute k h c; pop_command; rest) ])
  commands_in rest kr [] = Safe-Keeps (Safe-pure tt)
  commands_in rest kr (c ∷ q) =
      Keeps-bind (execute k h c) _ (execute-Keeps c)
        λ _. Keeps-bind pop_command _ (Safe-Keeps pop-Safe) λ _. kr

  run_commands-Keeps : (count : ℕ) → Keeps (run_commands k h count)
  unfolding run_commands
  run_commands-Keeps zero = Safe-Keeps (Safe-pure tt)
  run_commands-Keeps (suc count) =
      let rest = run_commands-Keeps count in
      Keeps-bind get_mgr _ (Safe-Keeps Safe-get_mgr)
        λ m. commands_in (run_commands k h count) rest m.cmd_queue

  process_command-Keeps : (events : ℕ) → Keeps (process_command k h events)
  unfolding process_command
  process_command-Keeps events = search (keeps_rules, run_commands-Keeps)

  timer_read :
      (expirations : Option ℕ)
      → Keeps {S = S} (elim expirations [
        | none ↦ pure false
        | some n ↦ (do call_handler (h.on_timer n); pure true)
      ])
  timer_read none = Safe-Keeps (Safe-pure false)
  timer_read (some n) = search (keeps_rules, on_timer)

  process_timer-Keeps : (events : ℕ) → Keeps (process_timer k h events)
  unfolding process_timer
  process_timer-Keeps events =
      Keeps-if (has_flag events epollin) _ _
        (Keeps-bind (read_timer k) _ (Safe-Keeps (read_timer-Safe k)) timer_read)
        (Safe-Keeps (Safe-pure false))

  pub process_event-Keeps :
      (run : Bool) (pv : Pvoid) (events : ℕ) → Keeps (process_event k h run pv events)
  unfolding process_event
  process_event-Keeps run cmd_evt events = search (keeps_rules, process_command-Keeps)
  process_event-Keeps run timer_evt events = search (keeps_rules, process_timer-Keeps)
  process_event-Keeps run exit_evt events = Safe-Keeps (Safe-pure false)
  process_event-Keeps run null events = search (keeps_rules, process_io-Keeps)
  process_event-Keeps run listen_sock events = search (keeps_rules, process_io-Keeps)
  process_event-Keeps run (object p) events = search (keeps_rules, process_io-Keeps)

  pub process_batch-Keeps :
      (run : Bool) (batch : List (Pvoid × ℕ)) → Keeps (process_batch k h run batch)
  unfolding process_batch
  process_batch-Keeps run [] = Safe-Keeps (Safe-pure run)
  process_batch-Keeps run ((pv, events) ∷ rest) =
      Keeps-bind (process_event k h run pv events) _ (process_event-Keeps run pv events)
        λ run'. process_batch-Keeps run' rest

  go_on :
      (next : M S (Unit {0}))
      → Keeps next
      → (run : Bool) → Keeps {S = S} (elim run [ true ↦ next | false ↦ pure tt ])
  go_on next kn true = kn
  go_on next kn false = Safe-Keeps (Safe-pure tt)

  pub do_work-Keeps : (rounds : ℕ) → Keeps (do_work k h rounds)
  unfolding do_work
  do_work-Keeps zero = Safe-Keeps (Safe-stop Fault.out_of_rounds)
  do_work-Keeps (suc rounds) =
      let next = do_work-Keeps rounds in
      Keeps-bind (sys k Call.epoll_wait) _ (Safe-Keeps (Safe-sys k _ refl)) λ r.
        Keeps-if (r.ret == minus_one) _ _ (Safe-Keeps (Safe-pure tt)) (
          Keeps-bind (process_batch k h true (take r.ret r.events)) _ (process_batch-Keeps true _)
            (go_on (do_work k h rounds) next))
