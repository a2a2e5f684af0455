-- ===== src/Server/Accept.antt =====
-- What a connection that `accept` gives comes to: `HandleAccept` of socket_manager/tcp_server.cpp.
use light_server.Base.{
  ℕ, ◌≡◌, ◌≢◌, true, false, some, none, List, ◌∷◌, ◌==◌, if◌then◌else◌, bit_or, arith,
}
use light_server.Common.{
  Sockaddr, is_negative, invalid_socket, epollerr, epollhup, has_flag, minus_one,
}
use light_server.Machine.{Call, Kernel, ok, fault, State, sys}
use light_server.SocketManager.FdMap
use light_server.SocketManager.Descriptors.{set_non_blocking}
use light_server.SocketManager.Membership.{Member, add_tcp_socket-Member}
use light_server.Server.TcpServer.{TcpServer, Listener, handle_accept}

-- The two calls of `SetNonBlocking`, and what they come to.
module _ (k : Kernel) {S : Type 0} (sock : ℕ) (s : State S) where
  abbrev pub getfl : List Call
  getfl = Call.fcntl_getfl sock ∷ s.trace

  abbrev pub setfl : List Call
  setfl = Call.fcntl_setfl sock (bit_or (k.answer getfl).ret 0x800) ∷ getfl

  pub set_non_blocking_runs :
      is_negative (k.answer getfl).ret ≡ false
      → set_non_blocking k sock s
        ≡ ok (if is_negative (k.answer setfl).ret then minus_one else 0, record s { trace = setfl })
  unfolding set_non_blocking sys
  set_non_blocking_runs good = ground arith

module _ (k : Kernel) {U : Type 0} (s : State (TcpServer U)) where
  -- What `accept` gives next, and the two calls of `SetNonBlocking` behind it.
  abbrev pub accept_call : Call
  accept_call = Call.accept s.app.listen_socket

  abbrev pub new_sock : ℕ
  new_sock = (k.answer (accept_call ∷ s.trace)).ret

  abbrev pub peer : Sockaddr
  peer = (k.answer (accept_call ∷ s.trace)).addr

  abbrev pub at_accept : State (TcpServer U)
  at_accept = record s { trace = accept_call ∷ s.trace }

  abbrev pub accepted : State (TcpServer U)
  accepted = record s { trace = setfl k new_sock at_accept }

  module _ (listener : Listener (TcpServer U)) (events : ℕ)
      (no_err : has_flag events epollerr ≡ false) (no_hup : has_flag events epollhup ≡ false)
      (given : new_sock ≢ invalid_socket) where
    -- `HandleAccept` where `accept` gives a new socket that can be made non-blocking: the socket is a
    -- member, at a new address, no other entry of the map changes, and then the listener hears of
    -- it. The result is true where the listener returns.
    pub handle_accept-Member :
        is_negative (k.answer (getfl k new_sock at_accept)).ret ≡ false
        → is_negative (k.answer (setfl k new_sock at_accept)).ret ≡ false
        → FdMap.lookup new_sock s.mgr.sock_object_map ≡ none
        → (t : State (TcpServer U)) × (handle_accept k listener events s
            ≡ elim (listener.on_connect new_sock t) [
              | ok (_, u) ↦ ok (true, u)
              | fault e ↦ fault e
            ])
          × Member t new_sock s.next
          × ((j : ℕ)
              → FdMap.lookup j t.mgr.sock_object_map
                ≡ (if new_sock == j then some s.next else FdMap.lookup j s.mgr.sock_object_map))
    unfolding handle_accept sys
    handle_accept-Member good_get good_set new =
        let (t, runs, member, others) = add_tcp_socket-Member k accepted new_sock peer given new in
        (
          t,
          ground (arith, set_non_blocking_runs k new_sock at_accept good_get, runs),
          member,
          others,
        )
