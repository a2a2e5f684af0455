-- ===== src/Server/Listening.antt =====
-- What `CreateListenSocket` of socket_manager/tcp_server.cpp leaves behind, whichever call fails.
use light_server.Base.{
  ℕ, ◌≡◌, refl, ◌∙◌, Bool, true, false, List, ◌∷◌, ◌==◌, if◌then◌else◌, arith, Bool-cases, inl, inr,
}
use light_server.Common.{invalid_socket, is_negative}
use light_server.Machine.{Call, Kernel, ok, State, M, ◌>>=◌, pure, sys}
use light_server.SocketManager.Descriptors.{set_non_blocking}
use light_server.SocketManager.Connect.{sock_stream}
use light_server.SocketManager.Releasing.{closes}
use light_server.Server.TcpServer.{TcpServer, Listener, setup_listen, create_listen_socket}

-- `m` returns, makes calls only, and closes no descriptor.
record CallsOnly {S A : Type 0} (m : M S A) : Type 0 where
  at :
      (s : State S)
      → (a : A) × (log : List Call) × (m s ≡ ok (a, record s { trace = log }))
        × (closes log ≡ closes s.trace)

module _ {S A B : Type 0} where
  CallsOnly-bind :
      (m : M S A) (f : A → M S B) → CallsOnly m → ((a : A) → CallsOnly (f a)) → CallsOnly (m >>= f)
  CallsOnly-bind m f km kf = record {
    at = λ s.
        let (a, log, runs, same) = km.at s in
        let (b, log', runs', same') = (kf a).at (record s { trace = log }) in
        (b, log', ground (arith, runs, runs'), same' ∙ same);
  }

module _ {S A : Type 0} where
  CallsOnly-pure : (a : A) → CallsOnly {S = S} (pure a)
  CallsOnly-pure a = record { at = λ s. (a, s.trace, refl, refl) }

  CallsOnly-if :
      (b : Bool) (m n : M S A) → CallsOnly m → CallsOnly n → CallsOnly (if b then m else n)
  CallsOnly-if true m n km kn = km
  CallsOnly-if false m n km kn = kn

module _ (k : Kernel) {U : Type 0} (listener : Listener (TcpServer U)) where
  CallsOnly-sys :
      (c : Call)
      → ((t : List Call) → closes (c ∷ t) ≡ closes t)
      → CallsOnly {S = TcpServer U} (sys k c)
  unfolding sys
  CallsOnly-sys c open_call = record { at = λ s. (_, c ∷ s.trace, refl, open_call s.trace) }

  set_non_blocking-CallsOnly : (sock : ℕ) → CallsOnly {S = TcpServer U} (set_non_blocking k sock)
  unfolding set_non_blocking closes
  set_non_blocking-CallsOnly sock =
      CallsOnly-bind _ _ (CallsOnly-sys (Call.fcntl_getfl sock) (λ t. refl)) λ opts.
        CallsOnly-if (is_negative opts.ret) _ _ (CallsOnly-pure _)
          (CallsOnly-bind _ _ (CallsOnly-sys _ (λ t. refl)) λ r. CallsOnly-pure _)

  setup_listen-CallsOnly :
      (sock ipv4 port backlog : ℕ) → CallsOnly (setup_listen k listener sock ipv4 port backlog)
  unfolding closes
  setup_listen-CallsOnly sock ipv4 port backlog =
      CallsOnly-bind _ _ (CallsOnly-sys (Call.setsockopt sock 2) (λ t. refl)) λ a.
        CallsOnly-if (is_negative a.ret) _ _ (CallsOnly-pure false) (
          CallsOnly-bind _ _ (CallsOnly-sys (Call.setsockopt sock 15) (λ t. refl)) λ b.
            CallsOnly-if (is_negative b.ret) _ _ (CallsOnly-pure false) (
              CallsOnly-bind _ _ (set_non_blocking-CallsOnly sock) λ c.
                CallsOnly-if (is_negative c) _ _ (CallsOnly-pure false) (
                  CallsOnly-bind _ _ (CallsOnly-sys _ (λ t. refl)) λ d.
                    CallsOnly-if (is_negative d.ret) _ _ (CallsOnly-pure false) (
                      CallsOnly-bind _ _ (CallsOnly-sys (Call.listen sock backlog) (λ t. refl))
                        λ e. CallsOnly-pure _))))

  module _ (ipv4 port : ℕ) (s : State (TcpServer U)) where
    -- The socket that is made.
    abbrev pub made_socket : ℕ
    made_socket = (k.answer (Call.socket sock_stream ∷ s.trace)).ret

    abbrev with_socket : State (TcpServer U)
    with_socket = record s {
      app = record (s.app) { listen_socket = made_socket };
      trace = Call.socket sock_stream ∷ s.trace;
    }

    attempt : M (TcpServer U) Bool
    attempt =
        if made_socket == invalid_socket
        then pure false
        else setup_listen k listener made_socket ipv4 port s.app.max_connections_of_listen_socket

    attempt-CallsOnly : CallsOnly attempt
    unfolding attempt
    attempt-CallsOnly =
        CallsOnly-if (made_socket == invalid_socket) _ _ (CallsOnly-pure false)
          (setup_listen-CallsOnly made_socket ipv4 port s.app.max_connections_of_listen_socket)

    -- `CreateListenSocket` returns, whichever system call fails. It changes the listening socket of the
    -- server only, to the socket that was made. Where it returns false, that socket is closed and no
    -- other descriptor is, and where it returns true, none is closed.
    pub create_listen_socket-closes :
        (b : Bool) × (log : List Call) × (create_listen_socket k listener ipv4 port s
          ≡ ok (b, record s { app = record (s.app) { listen_socket = made_socket }; trace = log }))
        × (closes log ≡ (if b then closes s.trace else made_socket ∷ closes s.trace))
    unfolding create_listen_socket sys attempt closes
    create_listen_socket-closes =
        let (b, log, runs, same) = attempt-CallsOnly.at with_socket in
        elim (Bool-cases b) [
          | inl made ↦ (true, log, ground (arith, runs, made), same)
          | inr failed ↦ (
            false,
            Call.close made_socket ∷ log,
            ground (arith, runs, failed),
            ground (arith, same),
          )
        ]
