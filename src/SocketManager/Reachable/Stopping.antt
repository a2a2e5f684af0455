-- ===== src/SocketManager/Reachable/Stopping.antt =====
-- `Stop` in any state that is well formed, with commands and a work thread. socket_manager/
-- socket_manager.cpp.
use light_server.Base.{
  arith, Bool-cases, inl, inr, suc, List, ◌∷◌, ℕ, ◌≡◌, ◌≢◌, refl, sym, subst, Bool, true, false, [],
  if◌then◌else◌,
}
use light_server.Common.{minus_one, epollin}
use light_server.Machine.{
  object, exit_evt, Call, Kernel, Result, ok, fault, State, M, ◌>>=◌, ◌>>◌, pure, sys,
}
use light_server.SocketManager.FdMap
use light_server.SocketManager.Descriptors.{has_start, has_work_start, reset}
use light_server.SocketManager.Objects.{IoHandler}
use light_server.SocketManager.Events.{do_work, process_batch, process_event}
use light_server.SocketManager.Lifecycle.{is_empty, stop, stop_work_thread, close_down}
use light_server.SocketManager.Releasing.{close_down-ClosedDown}
use light_server.SocketManager.WellFormed.{registered, WellFormed, After, Keeps, Keeps-bind}
use light_server.SocketManager.WellFormed.Rules.{Safe-sys, Safe-pure, Safe-Keeps, Keeps-if}
use light_server.SocketManager.WellFormed.Removing.{
  close_down-Keeps, stop_work_thread-Keeps, Backed-Releasable,
}

-- A `Stop` returned `a`, and the manager is stopped: it is reset, has no object in its map, no command in
-- its queue, and no object registered with epoll.
pub record Ends {S A : Type 0} (a : A) (r : Result (A × State S)) : Type 0 where
  pub after : State S
  pub runs : r ≡ ok (a, after)
  pub stopped : has_start after.mgr ≡ false
  pub no_objects : after.mgr.sock_object_map ≡ []
  pub no_commands : after.mgr.cmd_queue ≡ []
  pub none_registered : (fd p : ℕ) → registered after.trace fd ≢ object p

pub Ends-then :
    {S A B : Type 0} (m : M S A) (f : A → M S B) (s : State S) {a : A} {t : State S} {b : B}
    → m s ≡ ok (a, t)
    → Ends b (f a t)
    → Ends b ((m >>= f) s)
Ends-then m f s {a} {t} {b} runs e =
    subst (λ r. Ends b (elim r [ ok (a, t) ↦ f a t | fault e ↦ fault e ])) (sym runs) e

module _ (k : Kernel) {S : Type 0} (worker : M S (Unit {0})) where
  -- What `Stop` waits for: the commands that are queued, and the end of the thread.
  abbrev pub wait_commands : Bool → M S (Unit {0})
  wait_commands idle = if idle then pure tt else (do sys k Call.usleep; worker)

  abbrev pub wait_thread : Bool → M S ℕ
  wait_thread running = if running then stop_work_thread k worker else pure 0

  -- Both waits of a `Stop` in `s` return, and leave `u`.
  pub record Waits (s u : State S) : Type 0 where
    pub between : State S
    pub commands : wait_commands (is_empty s.mgr.cmd_queue) s ≡ ok (tt, between)
    pub result : ℕ
    pub thread : wait_thread (has_work_start between.mgr) between ≡ ok (result, u)

  Waits-WellFormed : (s u : State S) → Keeps worker → Waits s u → WellFormed s → WellFormed u
  Waits-WellFormed s u kw x w =
      subst (After WellFormed) x.thread
        (thread_kept.at x.between (subst (After WellFormed) x.commands (commands_kept.at s w)))
    where
      commands_kept : Keeps (wait_commands (is_empty s.mgr.cmd_queue))
      commands_kept =
          Keeps-if (is_empty s.mgr.cmd_queue) _ _ (Safe-Keeps (Safe-pure tt))
            (Keeps-bind (sys k Call.usleep) _ (Safe-Keeps (Safe-sys k _ refl)) λ r. kw)

      thread_kept : Keeps (wait_thread (has_work_start x.between.mgr))
      thread_kept =
          Keeps-if (has_work_start x.between.mgr) _ _ (stop_work_thread-Keeps k worker kw)
            (Safe-Keeps (Safe-pure 0))

  close_down-Ends : (s : State S) → WellFormed s → has_start s.mgr ≡ true → Ends 0 (close_down k s)
  unfolding reset has_start FdMap.lookup
  close_down-Ends s w on =
      let down = close_down-ClosedDown k s on (Backed-Releasable s.heap _ w.backed) in
      let formed = subst (After WellFormed) down.runs ((close_down-Keeps k).at s w) in
      record {
        after = _;
        runs = down.runs;
        stopped = refl;
        no_objects = refl;
        no_commands = refl;
        none_registered = λ fd p e. cc (formed.enrolled fd p e);
      }

  Ends-if :
      (u : State S)
      → has_start u.mgr ≡ true
      → Ends 0 (close_down k u)
      → Ends 0 ((if has_start u.mgr then close_down k else pure minus_one) u)
  Ends-if u on e = rw on e

  -- `Stop` returns 0 where its waits return with epoll open.
  pub stop-Ends :
      (s u : State S)
      → Keeps worker
      → WellFormed s
      → Waits s u
      → has_start u.mgr ≡ true
      → Ends 0 (stop k worker s)
  unfolding stop
  stop-Ends s u kw w x on = Ends-then (wait_commands (is_empty s.mgr.cmd_queue)) _ s x.commands (
      Ends-then (wait_thread (has_work_start x.between.mgr)) _ x.between x.thread
        (Ends-if u on (close_down-Ends u (Waits-WellFormed s u kw x w) on)))

-- Behind the calls `t`, a write to the eventfd `fd` and then an `epoll_pwait`: that reports the exit
-- event, and no other.
abbrev pub Wakes : Kernel → ℕ → List Call → Type 0
Wakes k fd t =
    ((k.answer (Call.epoll_wait ∷ Call.eventfd_write fd ∷ t)).ret ≡ 1)
    × ((k.answer (Call.epoll_wait ∷ Call.eventfd_write fd ∷ t)).events ≡ (exit_evt, epollin) ∷ [])

module _ (k : Kernel) {S : Type 0} (h : IoHandler S) where
  do_work-exits :
      (rounds : ℕ) (s : State S)
      → ((k.answer (Call.epoll_wait ∷ s.trace)).ret ≡ 1)
        × ((k.answer (Call.epoll_wait ∷ s.trace)).events ≡ (exit_evt, epollin) ∷ [])
      → do_work k h (suc rounds) s ≡ ok (tt, record s { trace = Call.epoll_wait ∷ s.trace })
  unfolding do_work process_batch process_event sys
  do_work-exits rounds s (one, exit) = ground (arith, one, exit)

  -- Without commands, the thread hears of the end in its first round.
  pub exit-Waits :
      (rounds : ℕ) (s : State S)
      → s.mgr.cmd_queue ≡ []
      → Wakes k s.mgr.exit_evt_fd s.trace
      → (u : State S) × Waits k (do_work k h (suc rounds)) s u × (u.mgr ≡ s.mgr)
  unfolding stop_work_thread sys
  exit-Waits rounds s none_queued wakes = elim (Bool-cases (has_work_start s.mgr)) [
    | inl running ↦
        let log = Call.eventfd_write s.mgr.exit_evt_fd ∷ s.trace in
        let joined = Call.pthread_join s.mgr.work_thread_id ∷ Call.epoll_wait ∷ log in
        (
          record s { trace = joined },
          record {
            between = s;
            commands = rw none_queued refl;
            result = (k.answer joined).ret;
            thread = ground (arith, running, do_work-exits rounds (record s { trace = log }) wakes);
          },
          refl,
        )
    | inr idle ↦ (
      s,
      record { between = s; commands = rw none_queued refl; result = 0; thread = rw idle refl },
      refl,
    )
  ]
