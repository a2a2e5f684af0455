-- ===== src/SocketManager/Batch.antt =====
-- The loops of the work thread: the events of one `epoll_pwait`, and the commands of one event.
use light_server.Base.{
  ℕ, zero, suc, ◌≡◌, refl, Bool, true, false, not, ◌&&◌, List, [], ◌∷◌, take, drop, arith,
}
use light_server.Common.{has_flag, epollin}
use light_server.Machine.{
  Pvoid, cmd_evt, exit_evt, timer_evt, Kernel, Command, Result, ok, fault, State,
}
use light_server.SocketManager.Objects.{IoHandler}
use light_server.SocketManager.Events.{
  execute, run_commands, process_command, process_event, process_batch,
}

-- Inversion of two calls in a row that return.
inverse :
    {A B C : Type 0} (r : Result (A × C)) (f : A → C → Result B) {b : B}
    → (elim r [ ok (a, s') ↦ f a s' | fault e ↦ fault e ]) ≡ ok b
    → (x : A × C) × (r ≡ ok x) × (f x.0 x.1 ≡ ok b)
inverse (ok (a, s')) f e = ((a, s'), refl, e)
inverse (fault x) f e = absurd (ground arith)

-- Whether the exit event is among the events.
abbrev pub has_exit : List (Pvoid × ℕ) → Bool
has_exit [] = false
has_exit ((exit_evt, events) ∷ rest) = true
has_exit ((_, events) ∷ rest) = has_exit rest

module _ (k : Kernel) {S : Type 0} (h : IoHandler S) where
  process_event_result :
      (run : Bool) (pv : Pvoid) (events : ℕ) (s : State S) (r : Bool × State S)
      → process_event k h run pv events s ≡ ok r
      → r.0 ≡ (run && not (has_exit ((pv, events) ∷ [])))
  unfolding process_event
  process_event_result run cmd_evt events s r e = ground arith
  process_event_result run exit_evt events s r e = ground arith
  process_event_result run timer_evt events s r e = ground arith
  process_event_result run pv events s r e = ground arith

  -- The result of a batch that is worked through: the thread goes on exactly if it went on before and
  -- no exit event is in the batch, wherever it stands and whatever the other events did.
  pub process_batch_result :
      (events : List (Pvoid × ℕ)) (run : Bool) (s : State S) (r : Bool × State S)
      → process_batch k h run events s ≡ ok r
      → r.0 ≡ (run && not (has_exit events))
  unfolding process_batch
  process_batch_result [] run s r e = ground arith
  process_batch_result ((pv, events) ∷ rest) run s r e =
      let (x, first, others) =
        inverse (process_event k h run pv events s) (λ b s'. process_batch k h b rest s') e in
      joined pv (process_event_result run pv events s x first)
        (process_batch_result rest x.0 x.1 r others)
    where
      joined :
          (pv : Pvoid) {b : Bool}
          → b ≡ (run && not (has_exit ((pv, events) ∷ [])))
          → r.0 ≡ (b && not (has_exit rest))
          → r.0 ≡ (run && not (has_exit ((pv, events) ∷ rest)))
      joined exit_evt p q = ground arith
      joined pv p q = ground arith

  -- The state with its first command popped.
  abbrev pub popped : State S → State S
  popped s = record s { mgr = record (s.mgr) { cmd_queue = drop 1 s.mgr.cmd_queue } }

  -- `u` is what `s` comes to when the commands are executed in order, and each is popped behind its
  -- work.
  abbrev pub Worked : List Command → State S → State S → Type 0
  Worked [] s u = s ≡ u
  Worked (c ∷ cs) s u = (r : Bool × State S) × (execute k h c s ≡ ok r) × Worked cs (popped r.1) u

  module _ (P : State S → Type 0)
      (works : (c : Command) (s : State S)
        → P s
        → (r : Bool × State S) × (execute k h c s ≡ ok r)
          × (r.1.mgr.cmd_queue ≡ s.mgr.cmd_queue)
          × P (popped r.1)) where
    -- The loop of `ProcessCommand` works through as many commands as it has rounds.
    run_commands-Worked :
        (count : ℕ) (s : State S) (q : List Command)
        → s.mgr.cmd_queue ≡ q
        → P s
        → (s' : State S) × (run_commands k h count s ≡ ok (tt, s'))
          × Worked (take count q) s s'
          × (s'.mgr.cmd_queue ≡ drop count q)
    unfolding run_commands
    run_commands-Worked zero s q e inv = (s, refl, refl, e)
    run_commands-Worked (suc count) s [] e inv = (s, ground arith, refl, e)
    run_commands-Worked (suc count) s (c ∷ q) e inv =
        let (r, runs, same, inv') = works c s inv in
        let (s', rest, done, left) = run_commands-Worked count (popped r.1) q (ground arith) inv' in
        (s', ground arith, (r, runs, done), left)

    -- If the commands return and leave the queue alone, one event executes the first 20 of them, in
    -- order, and pops each behind its work, and nothing else happens to the state. The others stay in
    -- the queue.
    pub process_command_limit :
        (events : ℕ) (s : State S)
        → has_flag events epollin ≡ true
        → P s
        → (s' : State S) × (process_command k h events s ≡ ok (true, s'))
          × Worked (take 20 s.mgr.cmd_queue) s s'
          × (s'.mgr.cmd_queue ≡ drop 20 s.mgr.cmd_queue)
    unfolding process_command
    process_command_limit events s on inv =
        let (s', runs, done, left) = run_commands-Worked 20 s s.mgr.cmd_queue refl inv in
        (s', ground arith, done, left)
