-- ===== src/SocketManager/Membership.antt =====
-- Which sockets a `SocketManager` holds: `AddTcpSocket`, `FindSocketObject`, `RemoveSocketObject`.
use light_server.Base.{
  ap, ◌+◌, ◌%◌, ℕ, suc, ◌≡◌, refl, ◌≢◌, true, Option, none, some, List, ◌∷◌, ◌==◌, if◌then◌else◌,
  arith, ==_refl,
}
use light_server.Common.{int_mod, epollin, epollout, epollet, Sockaddr, minus_one, invalid_socket}
use light_server.SocketObject.{
  SocketObject, construct, set_remote_addr, set_connected, set_socket_id, set_valid, set_invalid,
}
use light_server.Machine.{
  CtlOp, Pvoid, object, Call, Kernel, ok, State, M, update, load, store, free, alloc, sys,
}
use light_server.SocketManager.FdMap
use light_server.SocketManager.Descriptors.{get_time, ctl_fd}
use light_server.SocketManager.Objects.{
  IoHandler, find_socket_object, new_socket_object, add_socket_object, remove_socket_object,
}
use light_server.SocketManager.Connect.{add_tcp_socket}

-- The socket is known, under the address `p` of a live and valid object of its own.
pub record Member {S : Type 0} (s : State S) (sock p : ℕ) : Type 0 where
  pub mapped : FdMap.lookup sock s.mgr.sock_object_map ≡ some p
  pub item : SocketObject
  pub live : s.heap p ≡ some item
  pub own : item.socket_id ≡ sock
  pub valid : item.f_valid ≡ true

-- A call that returns and leaves the sockets of the manager alone.
abbrev pub Calm : {S : Type 0} → M S (Unit {0}) → Type 0
Calm {S} call =
    (s : State S)
    → (s' : State S) × (call s ≡ ok (tt, s'))
      × (s'.heap ≡ s.heap)
      × (s'.mgr ≡ s.mgr)
      × (s'.next ≡ s.next)

module _ (k : Kernel) {S : Type 0} (s : State S) (sock : ℕ) (addr : Sockaddr) where
  -- The object that `AddTcpSocket` makes, and the state that it leaves.
  abbrev accepted_object : SocketObject
  accepted_object =
      let r = k.answer (Call.clock_gettime ∷ s.trace) in
      set_valid (
        set_socket_id
          (set_connected (set_remote_addr (construct (k.memory s.next)) addr)
            (if r.ret == minus_one then 0 else r.time.tv_sec % int_mod))
          sock)

  abbrev accepted_state : (ℕ → Option SocketObject) → State S
  accepted_state heap = record s {
    heap = heap;
    next = suc s.next;
    mgr = record (s.mgr) { sock_object_map = FdMap.insert sock s.next s.mgr.sock_object_map };
    trace =
        Call.epoll_ctl CtlOp.add sock (epollin + epollout + epollet) (object s.next)
        ∷ Call.clock_gettime
        ∷ s.trace;
  }

  add_tcp_socket_runs :
      sock ≢ invalid_socket
      → FdMap.lookup sock s.mgr.sock_object_map ≡ none
      → (heap : ℕ → Option SocketObject) × (add_tcp_socket k sock addr s
          ≡ ok (0, accepted_state heap))
        × (heap s.next ≡ some accepted_object)
  unfolding add_tcp_socket new_socket_object add_socket_object find_socket_object load store alloc
      sys get_time ctl_fd
  add_tcp_socket_runs ne new = (
    let n = s.next in
        let first = construct (k.memory n) in
        let second = set_remote_addr first addr in
        let r = k.answer (Call.clock_gettime ∷ s.trace) in
        let third =
          set_connected second (if r.ret == minus_one then 0 else r.time.tv_sec % int_mod) in
        update (update (update (update s.heap n (some first)) n (some second)) n (some third)) n
          (some accepted_object),
    ground arith,
    ground arith,
  )

  -- A new descriptor becomes a member, at a new address, and no other entry of the map changes.
  pub add_tcp_socket-Member :
      sock ≢ invalid_socket
      → FdMap.lookup sock s.mgr.sock_object_map ≡ none
      → (s' : State S) × (add_tcp_socket k sock addr s ≡ ok (0, s'))
        × Member s' sock s.next
        × ((j : ℕ)
            → FdMap.lookup j s'.mgr.sock_object_map
              ≡ (if sock == j then some s.next else FdMap.lookup j s.mgr.sock_object_map))
  unfolding set_valid set_socket_id
  add_tcp_socket-Member ne new =
      let (heap, runs, live) = add_tcp_socket_runs ne new in
      (
        accepted_state heap,
        runs,
        record {
          mapped = rw (FdMap.lookup-insert sock sock s.next _ new, ==_refl sock);
          item = accepted_object;
          live = live;
          own = refl;
          valid = refl;
        },
        λ j. FdMap.lookup-insert sock j s.next _ new,
      )

module _ (k : Kernel) {S : Type 0} (h : IoHandler S) where
  -- The state in which the owner hears of the removal.
  abbrev told : (s : State S) (sock p : ℕ) → Member s sock p → State S
  told s sock p m = record s {
    heap = update s.heap p (some (set_invalid m.item));
    trace = Call.shutdown sock ∷ s.trace;
  }

  removal_runs :
      (s : State S) (sock p : ℕ) (m : Member s sock p)
      → s.mgr.io_handler ≡ true
      → (after : State S) → h.on_disconnect sock (told s sock p m) ≡ ok (tt, after)
      → after.heap p ≡ update s.heap p (some (set_invalid m.item)) p
      → remove_socket_object k h (some p) s
        ≡ ok (
          true,
          record after {
            heap = update after.heap p none;
            mgr = record (after.mgr) {
              sock_object_map = FdMap.erase sock after.mgr.sock_object_map;
            };
            trace = Call.close sock ∷ Call.epoll_ctl CtlOp.del sock 0 Pvoid.null ∷ after.trace;
          },
        )
  unfolding remove_socket_object load store free sys ctl_fd set_invalid
  removal_runs s sock p m on after runs live = ground arith

  -- Removing a member returns true, where the owner's `OnDisconnect` returns and leaves the sockets
  -- alone: the object is deleted, no other entry of the map changes, and the last two calls take the
  -- descriptor out of epoll and then close it.
  pub remove_socket_object-Member :
      (s : State S) (sock p : ℕ)
      → Member s sock p
      → s.mgr.io_handler ≡ true
      → Calm (h.on_disconnect sock)
      → (s' : State S) × (remove_socket_object k h (some p) s ≡ ok (true, s'))
        × (s'.heap p ≡ none)
        × (s'.mgr.io_handler ≡ true)
        × ((j : ℕ)
            → FdMap.lookup j s'.mgr.sock_object_map
              ≡ (if sock == j then none else FdMap.lookup j s.mgr.sock_object_map))
        × ((log : List Call) × (s'.trace
              ≡ Call.close sock ∷ Call.epoll_ctl CtlOp.del sock 0 Pvoid.null ∷ log))
  unfolding remove_socket_object load store free sys ctl_fd set_invalid
  remove_socket_object-Member s sock p m on calm =
      let (after, runs, same_heap, same_mgr, same_next) = calm (told s sock p m) in
      (
        record after {
          heap = update after.heap p none;
          mgr = record (after.mgr) { sock_object_map = FdMap.erase sock after.mgr.sock_object_map };
          trace = Call.close sock ∷ Call.epoll_ctl CtlOp.del sock 0 Pvoid.null ∷ after.trace;
        },
        removal_runs s sock p m on after runs (ap (λ (f : ℕ → Option SocketObject). f p) same_heap),
        ground arith,
        rw same_mgr on,
        λ j. rw same_mgr (FdMap.lookup-erase sock j s.mgr.sock_object_map),
        (after.trace, refl),
      )
