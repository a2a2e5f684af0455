-- ===== src/SocketManager/Releasing.antt =====
-- What `ReleaseSocketObjects` and `Stop` delete and close. socket_manager/socket_manager.cpp.
use light_server.Base.{
  ℕ, ◌≡◌, refl, sym, ap, ◌∙◌, append_assoc, true, Option, none, some, List, [], ◌∷◌, ◌++◌,
  if◌then◌else◌, arith,
}
use light_server.Common.{is_valid_fd}
use light_server.SocketObject.{SocketObject}
use light_server.Machine.{
  object, Pvoid, Call, CtlOp, Kernel, Manager, Result, ok, State, update, free, sys,
}
use light_server.SocketManager.FdMap
use light_server.SocketManager.WellFormed.{registered}
use light_server.SocketManager.Descriptors.{reset, has_start, ctl_fd, del_timer}
use light_server.SocketManager.Objects.{release_entries, release_socket_objects}
use light_server.SocketManager.Lifecycle.{close_evt, stop_timer, close_epoll, close_down}

-- The descriptors that were closed, the last one first.
unfoldable pub closes : List Call → List ℕ
closes [] = []
closes (Call.close fd ∷ t) = fd ∷ closes t
closes (_ ∷ t) = closes t

-- The descriptors of the manager itself that are valid, in the order in which they are closed last.
abbrev if_valid : ℕ → List ℕ
if_valid fd = if is_valid_fd fd then fd ∷ [] else []

abbrev others : Manager → List ℕ
others m = if_valid m.timer_evt_fd ++ (if_valid m.exit_evt_fd ++ if_valid m.cmd_evt_fd)

abbrev pub own_descriptors : Manager → List ℕ
own_descriptors m = if_valid m.epoll_fd ++ others m

-- Every entry has a live object of its own.
abbrev pub Releasable : (ℕ → Option SocketObject) → List (ℕ × ℕ) → Type 0
Releasable heap [] = Unit {0}
Releasable heap ((sock, p) ∷ rest) =
    (o : SocketObject) × (heap p ≡ some o) × Releasable (update heap p none) rest

abbrev pub Freed : (ℕ → Option SocketObject) → List (ℕ × ℕ) → Type 0
Freed heap [] = Unit {0}
Freed heap ((sock, p) ∷ rest) = (heap p ≡ none) × Freed heap rest

-- The calls for one descriptor, and for those of a manager.
abbrev closing : ℕ → List Call → List Call
closing fd t =
    if is_valid_fd fd then Call.close fd ∷ Call.epoll_ctl CtlOp.del fd 0 Pvoid.null ∷ t else t

closes-closing : (fd : ℕ) (t : List Call) → closes (closing fd t) ≡ if_valid fd ++ closes t
unfolding closes
closes-closing fd t = ground arith

closes-others :
    (m : Manager) (t : List Call)
    → closes (closing m.timer_evt_fd (closing m.exit_evt_fd (closing m.cmd_evt_fd t)))
      ≡ others m ++ closes t
closes-others m t =
    closes-closing m.timer_evt_fd (closing m.exit_evt_fd (closing m.cmd_evt_fd t))
    ∙ ap (λ l. if_valid m.timer_evt_fd ++ l)
        (closes-closing m.exit_evt_fd (closing m.cmd_evt_fd t)
          ∙ ap (λ l. if_valid m.exit_evt_fd ++ l) (closes-closing m.cmd_evt_fd t)
          ∙ sym (append_assoc (if_valid m.exit_evt_fd) (if_valid m.cmd_evt_fd) (closes t)))
    ∙ sym (
        append_assoc (if_valid m.timer_evt_fd) (if_valid m.exit_evt_fd ++ if_valid m.cmd_evt_fd)
          (closes t))

module _ (k : Kernel) {S : Type 0} where
  pub record Released (m : List (ℕ × ℕ)) (s : State S) : Type 0 where
    pub heap : ℕ → Option SocketObject
    pub log : List Call
    pub runs : release_entries k m s ≡ ok (tt, record s { heap = heap; trace = log })
    pub freed : Freed heap m
    pub kept_free : (p : ℕ) → s.heap p ≡ none → heap p ≡ none
    pub no_close : closes log ≡ closes s.trace
    pub cleared :
        (fd q : ℕ)
        → registered log fd ≡ object q
        → (registered s.trace fd ≡ object q) × (FdMap.lookup fd m ≡ none)

  pub release_entries-Released :
      (m : List (ℕ × ℕ)) (s : State S) → Releasable s.heap m → Released m s
  unfolding release_entries free ctl_fd sys closes FdMap.lookup
  release_entries-Released [] s r = record {
    heap = s.heap;
    log = s.trace;
    runs = refl;
    freed = tt;
    kept_free = λ p e. e;
    no_close = refl;
    cleared = λ fd q e. (e, refl);
  }
  release_entries-Released ((sock, p) ∷ rest) s (o, live, r) =
      let next : State S = record s {
        heap = update s.heap p none;
        trace = Call.epoll_ctl CtlOp.del sock 0 Pvoid.null ∷ s.trace;
      } in
      let after = release_entries-Released rest next r in
      record {
        heap = after.heap;
        log = after.log;
        runs = ground (arith, after.runs);
        freed = (after.kept_free p (ground arith), after.freed);
        kept_free = λ q e. after.kept_free q (ground arith);
        no_close = after.no_close;
        cleared = λ fd q e. ground (arith, after.cleared fd q);
      }

  close_evt_runs :
      (fd : ℕ) (s : State S) → close_evt k fd s ≡ ok (tt, record s { trace = closing fd s.trace })
  unfolding close_evt ctl_fd sys
  close_evt_runs fd s = ground arith

  stop_timer_runs :
      (fd : ℕ) (s : State S)
      → stop_timer k fd s ≡ ok (true, record s { trace = closing fd s.trace })
  unfolding stop_timer del_timer ctl_fd sys
  stop_timer_runs fd s = ground arith

  -- What the part of `Stop` behind its test of `HasStart` leaves.
  pub record ClosedDown (s : State S) (r : Result (ℕ × State S)) : Type 0 where
    pub heap : ℕ → Option SocketObject
    pub log : List Call
    pub runs :
        r
        ≡ ok (
          0,
          record s {
            heap = heap;
            mgr = reset (record (s.mgr) { sock_object_map = []; cmd_queue = [] });
            trace = log;
          },
        )
    pub freed : Freed heap s.mgr.sock_object_map
    pub closed : closes log ≡ own_descriptors s.mgr ++ closes s.trace

  pub close_down-ClosedDown :
      (s : State S)
      → has_start s.mgr ≡ true
      → Releasable s.heap s.mgr.sock_object_map
      → ClosedDown s (close_down k s)
  unfolding release_socket_objects has_start close_epoll sys closes
  close_down-ClosedDown s on r =
      let empty : State S = record s { mgr = record (s.mgr) { cmd_queue = [] } } in
      let rel = release_entries-Released s.mgr.sock_object_map empty r in
      let gone : State S = record s {
        heap = rel.heap;
        mgr = record (s.mgr) { sock_object_map = []; cmd_queue = [] };
        trace = rel.log;
      } in
      let cmd = closing s.mgr.cmd_evt_fd rel.log in
      let exit = closing s.mgr.exit_evt_fd cmd in
      record {
        heap = rel.heap;
        log = Call.close s.mgr.epoll_fd ∷ closing s.mgr.timer_evt_fd exit;
        runs = ground (
          arith,
          rel.runs,
          close_evt_runs s.mgr.cmd_evt_fd gone,
          close_evt_runs s.mgr.exit_evt_fd (record gone { trace = cmd }),
          stop_timer_runs s.mgr.timer_evt_fd (record gone { trace = exit }),
        );
        freed = rel.freed;
        closed = ground (arith, closes-others s.mgr rel.log, rel.no_close);
      }
