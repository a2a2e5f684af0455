-- ===== src/SocketManager/WellFormed/Adding.antt =====
-- The operations that make a socket object keep a manager well formed: nothing that was live before
-- is touched until the new object is entered into the map.
pub mod Building
use light_server.Base.{
  ℕ, suc, ◌+◌, ◌≡◌, refl, ◌≢◌, sym, ◌∙◌, true, false, Option, none, some, List, [], ◌∷◌,
  if◌then◌else◌, arith, ==_iff, ◌==◌, Bool-cases, inl, inr, Option-cases, subst,
}
use light_server.Common.{Sockaddr, epollin, epollout, epollet, minus_one, invalid_socket, int_lt}
use light_server.SocketObject.{
  SocketObject, construct, set_remote_addr, set_connected, set_socket_id, set_valid,
}
use light_server.Machine.{
  object, Call, CtlOp, Kernel, Result, ok, fault, State, M, update, ◌>>=◌, ◌>>◌, pure, load, store,
  alloc, sys,
}
use light_server.SocketManager.FdMap
use light_server.SocketManager.FdMap.{lookup-insert}
use light_server.SocketManager.Descriptors.{ctl_fd, get_time}
use light_server.SocketManager.Objects.{
  IoHandler, call_handler, find_socket_object, new_socket_object, add_socket_object, enter_object,
}
use light_server.SocketManager.Connect.{
  new_remote, mark_connected, add_tcp_socket, adopt_connected, connect_to_remote, asynch_connect_to,
  adopt_udp, add_udp_socket,
}
use light_server.SocketManager.WellFormed.{
  Owned, Backed, WellFormed, Evolves, After, Safe, Safe-bind, then-Safe,
}
use light_server.SocketManager.WellFormed.Rules.{Backed-mono, Safe-pure, Safe-if, Safe-call_handler}
use light_server.SocketManager.WellFormed.Calls.{safe_rules, set_non_blocking-Safe}
use light_server.SocketManager.WellFormed.Adding.Building.{
  Grown, Builds, Settles, Builds-bind, Settles-bind, Settles-then, Builds-pure, Builds-sys,
  Builds-get_time, Builds-change, Settles-add, Grown-Evolves,
}

-- `new`, whose result stands for the next address, and what is done with the object.
module _ {S B : Type 0} where
  Safe-new :
      (m : M S ℕ) (f : ℕ → M S B)
      → ((s : State S) → WellFormed s → (t : State S) × (m s ≡ ok (s.next, t)) × Grown s t)
      → ((s : State S) → WellFormed s → Settles s (f s.next))
      → Safe (m >>= f)
  Safe-new m f made k = record {
    at = λ s w. let (t, runs, g) = made s w in rw (runs, After) ((k s w).at t g);
  }

module _ (k : Kernel) {S : Type 0} where
  new_socket_object-Grown :
      (s : State S)
      → WellFormed s
      → (t : State S) × (new_socket_object k s ≡ ok (s.next, t)) × Grown s t
  unfolding new_socket_object alloc
  new_socket_object-Grown s w = (
    record s {
      heap = update s.heap s.next (some (construct (k.memory s.next)));
      next = suc s.next;
    },
    refl,
    record {
      same = λ q ne. ground (arith, ==_iff s.next q);
      item = construct (k.memory s.next);
      live = ground arith;
      next_free = refl;
      same_map = refl;
      none_new = λ fd p e. e;
    },
  )

  new_remote-Grown :
      (addr : Sockaddr) (s : State S)
      → WellFormed s
      → (t : State S) × (new_remote k addr s ≡ ok (s.next, t)) × Grown s t
  unfolding load store
  new_remote-Grown addr s w =
      let (t, runs, g) = new_socket_object-Grown s w in
      (
        record t { heap = update t.heap s.next (some (set_remote_addr g.item addr)) },
        ground (arith, runs, g.live),
        record {
          same = λ q ne. ground (arith, g.same q, ==_iff s.next q);
          item = set_remote_addr g.item addr;
          live = ground arith;
          next_free = g.next_free;
          same_map = g.same_map;
          none_new = g.none_new;
        },
      )

  mark_connected-Builds : (s : State S) → Builds s (mark_connected k s.next)
  mark_connected-Builds s =
      Builds-bind s (get_time k) _ (Builds-get_time s k)
        λ now. Builds-change s (λ o. set_connected o now)

  pub add_tcp_socket-Safe : (sock : ℕ) (addr : Sockaddr) → Safe {S = S} (add_tcp_socket k sock addr)
  unfolding add_tcp_socket
  add_tcp_socket-Safe sock addr = Safe-if (sock == invalid_socket) _ _ (Safe-pure minus_one) (
      Safe-new (new_remote k addr) _ (new_remote-Grown addr) λ s w.
        Settles-bind s (mark_connected k s.next) _ (mark_connected-Builds s) λ _.
          Settles-then s (add_socket_object k sock s.next) _ (Settles-add s k sock w)
            λ added. Safe-pure (if added then 0 else minus_one))

  module _ (h : IoHandler S) (told : (sock : ℕ) → Safe (h.on_connect sock)) where
    announce : (sock : ℕ) → Safe (call_handler (h.on_connect sock) >> pure sock)
    announce sock =
        Safe-bind (call_handler (h.on_connect sock)) _ (Safe-call_handler _ (told sock))
          λ _. Safe-pure sock

    adopt_connected-Safe : (sock : ℕ) (addr : Sockaddr) → Safe (adopt_connected k h sock addr)
    adopt_connected-Safe sock addr = Safe-new (new_remote k addr) _ (new_remote-Grown addr) λ s w.
        Settles-bind s (mark_connected k s.next) _ (mark_connected-Builds s) λ _.
          Settles-then s (add_socket_object k sock s.next) _ (Settles-add s k sock w)
            λ _. announce sock

    pub connect_to_remote-Safe : (addr : Sockaddr) → Safe (connect_to_remote k h addr)
    unfolding connect_to_remote
    connect_to_remote-Safe addr =
        search (safe_rules, adopt_connected-Safe, set_non_blocking-Safe) depth 16

    delay_connect-Safe :
        (sock : ℕ) (addr : Sockaddr)
        → Safe {S = S} (new_remote k addr >>= λ p. add_socket_object k sock p >> pure sock)
    delay_connect-Safe sock addr = Safe-new (new_remote k addr) _ (new_remote-Grown addr) λ s w.
        Settles-then s (add_socket_object k sock s.next) _ (Settles-add s k sock w)
          λ _. Safe-pure sock

    pub asynch_connect_to-Safe : (addr : Sockaddr) → Safe (asynch_connect_to k h addr)
    unfolding asynch_connect_to
    asynch_connect_to-Safe addr =
        search (safe_rules, adopt_connected-Safe, delay_connect-Safe, set_non_blocking-Safe) depth
          16

    adopt_udp-Safe : (sock : ℕ) → Safe (adopt_udp k h sock)
    adopt_udp-Safe sock = Safe-new (new_socket_object k) _ new_socket_object-Grown λ s w.
        Settles-bind s (mark_connected k s.next) _ (mark_connected-Builds s) λ _.
          Settles-then s (add_socket_object k sock s.next) _ (Settles-add s k sock w)
            λ _. announce sock

    pub add_udp_socket-Safe : (addr : Sockaddr) → Safe (add_udp_socket k h addr)
    unfolding add_udp_socket
    add_udp_socket-Safe addr = search (safe_rules, adopt_udp-Safe, set_non_blocking-Safe) depth 16
