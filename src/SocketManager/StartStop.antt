-- ===== src/SocketManager/StartStop.antt =====
-- What `Start` and `Stop` leave: the manager, its objects and its descriptors.
use light_server.Base.{
  ℕ, ◌≡◌, refl, sym, ap, ◌⊎◌, inl, inr, Bool, true, false, [], ◌∷◌, ◌==◌, if◌then◌else◌, arith,
  Bool-cases,
}
use light_server.Common.{minus_one, invalid_fd, is_invalid_fd}
use light_server.Machine.{
  Call, Kernel, Manager, Result, ok, fault, State, M, Answer, pure, ◌>>=◌, ◌>>◌, sys,
}
use light_server.SocketManager.Descriptors.{
  reset, has_start, has_work_start, ctl_fd, add_timer, create_timer, arm_timer,
}
use light_server.SocketManager.Lifecycle.{
  start, stop, start_work_thread, open_cmd_evt, open_exit_evt, start_timer, start_thread, all_steps,
  start_opened,
}
use light_server.SocketManager.Releasing.{Releasable, ClosedDown, close_down-ClosedDown}

-- A manager with an open epoll descriptor and nothing else at work.
record Idle (m : Manager) : Type 0 where
  no_objects : m.sock_object_map ≡ []
  no_commands : m.cmd_queue ≡ []
  no_thread : m.work_thread_id ≡ 0
  opened : (m.epoll_fd == invalid_fd) ≡ false

-- A manager that is started and holds nothing.
abbrev pub IsEmptyStart : Manager → Type 0
IsEmptyStart m = (has_start m ≡ true) × (m.sock_object_map ≡ []) × (m.cmd_queue ≡ [])

-- What `Start` leaves: a started manager with result 0, or a reset one with result -1.
abbrev pub Started : {S : Type 0} → Result (ℕ × State S) → Type 0
Started (ok (r, s)) = ((r ≡ 0) × IsEmptyStart s.mgr) ⊎ ((r ≡ minus_one) × (reset s.mgr ≡ s.mgr))
Started (fault e) = ⊥

module _ (k : Kernel) {S : Type 0} where
  -- `Stop` of a started manager, without a work thread and without commands, returns 0 and leaves the
  -- manager reset and without sockets. Every socket object is deleted. It closes exactly the valid
  -- descriptors of the manager itself, and none of a socket.
  pub stop-Stopped :
      (worker : M S (Unit {0})) (s : State S)
      → s.mgr.cmd_queue ≡ []
      → s.mgr.work_thread_id ≡ 0
      → has_start s.mgr ≡ true
      → Releasable s.heap s.mgr.sock_object_map
      → ClosedDown k s (stop k worker s)
  unfolding stop has_work_start has_start
  stop-Stopped worker s no_commands no_thread on r =
      let down = close_down-ClosedDown k s on r in
      record {
        heap = down.heap;
        log = down.log;
        runs = ground (arith, down.runs);
        freed = down.freed;
        closed = down.closed;
      }

  -- The call returns, and leaves the manager so.
  abbrev Fine : {A : Type 0} → Result (A × State S) → Type 0
  Fine (ok (a, s)) = Idle s.mgr
  Fine (fault e) = ⊥

  open_cmd_evt-Fine : (s : State S) → Idle s.mgr → Fine (open_cmd_evt k s)
  unfolding ctl_fd sys
  open_cmd_evt-Fine s i = ground arith

  open_exit_evt-Fine : (s : State S) → Idle s.mgr → Fine (open_exit_evt k s)
  unfolding ctl_fd sys
  open_exit_evt-Fine s i = ground arith

  start_timer-Fine : (interval : ℕ) (s : State S) → Idle s.mgr → Fine (start_timer k interval s)
  unfolding ctl_fd sys add_timer create_timer arm_timer
  start_timer-Fine interval s i = ground arith

  -- All calls of `Start` up to the last: the thread runs, or the manager is still as it was.
  abbrev Outcome : Result (Bool × State S) → Type 0
  Outcome (ok (true, s)) = IsEmptyStart s.mgr
  Outcome (ok (false, s)) = Idle s.mgr
  Outcome (fault e) = ⊥

  start_thread-Outcome : (s : State S) → Idle s.mgr → Outcome (start_thread k s)
  unfolding start_work_thread sys has_start
  start_thread-Outcome s i = ground arith

  then_result :
      (r : Result (Bool × State S)) (rest : M S Bool)
      → Fine r
      → ((s : State S) → Idle s.mgr → Outcome (rest s))
      → Outcome (elim r [ ok (a, s) ↦ (if a then rest else pure false) s | fault e ↦ fault e ])
  then_result (ok (true, s)) rest i go = go s i
  then_result (ok (false, s)) rest i go = i
  then_result (fault e) rest i go = i

  all_steps-Outcome : (interval : ℕ) (s : State S) → Idle s.mgr → Outcome (all_steps k interval s)
  unfolding all_steps
  all_steps-Outcome interval s i = then_result _ _ (open_cmd_evt-Fine s i) λ s₁ i₁.
      then_result _ _ (open_exit_evt-Fine s₁ i₁)
        λ s₂ i₂. then_result _ _ (start_timer-Fine interval s₂ i₂) start_thread-Outcome

  tail_result :
      (worker : M S (Unit {0})) (r : Result (Bool × State S))
      → Outcome r
      → Started (elim r [
        | ok (started, s) ↦ (if started then pure 0 else (stop k worker >> pure minus_one)) s
        | fault e ↦ fault e
      ])
  unfolding reset has_start
  tail_result worker (ok (true, s)) h = inl (refl, h)
  tail_result worker (ok (false, s)) i = rw (stopped.runs, ◌>>=◌) (inr (refl, refl))
    where
      stopped : ClosedDown k s (stop k worker s)
      stopped = stop-Stopped worker s i.no_commands i.no_thread (rw i.opened) (rw i.no_objects tt)
  tail_result worker (fault e) h = h

  start_opened-Started :
      (worker : M S (Unit {0})) (interval : ℕ) (s : State S)
      → Idle s.mgr
      → Started (start_opened k worker interval s)
  unfolding start_opened
  start_opened-Started worker interval s i =
      tail_result worker (all_steps k interval s) (all_steps-Outcome interval s i)

  -- `Start` of a manager that is not started and holds nothing returns, whichever system call fails.
  -- Where it returns 0 the manager is started and holds nothing, and where it returns -1 it is reset.
  pub start-Started :
      (worker : M S (Unit {0})) (interval : ℕ) (s : State S)
      → reset s.mgr ≡ s.mgr
      → s.mgr.sock_object_map ≡ []
      → s.mgr.cmd_queue ≡ []
      → Started (start k worker interval s)
  unfolding start has_start sys reset
  start-Started worker interval s fresh no_objects no_commands =
      elim (Bool-cases (is_invalid_fd ep.ret)) [
        | inl bad ↦ rw (ap (λ m. m.epoll_fd) (sym fresh), bad) (inr (refl, ground arith))
        | inr good ↦
            rw (ap (λ m. m.epoll_fd) (sym fresh), good)
              (start_opened-Started worker interval _ (record {
                no_objects = no_objects;
                no_commands = no_commands;
                no_thread = ap (λ m. m.work_thread_id) (sym fresh);
                opened = ground arith;
              }))
      ]
    where
      ep : Answer
      ep = k.answer (Call.epoll_create ∷ s.trace)
