-- ===== src/Examples/UdpEcho.antt =====
-- The example server over UDP, which sends a datagram back to whom it came from.
-- examples/udp_server_tester.cpp. Of what it prints, only the buffer that is read as a
-- C string is here.
use light_server.Base.{
  ℕ, ◌%◌, ◌≤◌, ◌≡◌, refl, Bool, true, false, ◌||◌, List, length, ◌==◌, if◌then◌else◌, arith,
  Bool-cases, inl, inr, ==_iff,
}
use light_server.Common.{Sockaddr, int_mod}
use light_server.Machine.{Kernel, State, ok, M, ◌>>=◌, ◌>>◌, pure, get_app, put_app}
use light_server.SocketManager.WellFormed.{Safe, WellFormed}
use light_server.SocketManager.WellFormed.Rules.{Safe-Keeps, Safe-pure}
use light_server.SocketManager.WellFormed.Calls.{safe_rules, udp_send-Safe}
use light_server.SocketManager.Reachable.{send_datagram, perform}
use light_server.SocketManager.View.{apply, perform-table}
use light_server.SocketManager.View.Rules.{table}
use light_server.Examples.Text.{has_nul, print_string, print_string-Safe}
use light_server.Server.Base.{set_heartbeat_interval, set_keep_alive_time}
use light_server.Server.UdpServer.{UdpServer, Listener, make_server, handler}
use light_server.Server.UdpServer
use light_server.Server.Calls.{udp_server_send}
use light_server.Server.WellFormed.{UdpListenerKeeps}

-- UDP_SERVER_TEST_PORT_A and UDP_SERVER_TEST_PORT_B
abbrev port_a : ℕ
port_a = 31092

abbrev port_b : ℕ
port_b = 31096

pub record UdpServerTester : Type 0 where
  pub listen_sock_a : ℕ
  pub listen_sock_b : ℕ

-- The constructor leaves the sockets as they are in memory.
unfoldable pub make_udp_tester : UdpServerTester → UdpServer UdpServerTester
unfolding make_server
make_udp_tester memory = make_server memory

module _ (k : Kernel) where
  abbrev Tester : Type 0 → Type 0
  Tester A = M (UdpServer UdpServerTester) A

  unfoldable pub send_to_a : Sockaddr → List ℕ → ℕ → Tester ℕ
  send_to_a to buf nbytes = do app ← get_app; udp_server_send k app.user.listen_sock_a to buf nbytes

  unfoldable pub send_to_b : Sockaddr → List ℕ → ℕ → Tester ℕ
  send_to_b to buf nbytes = do app ← get_app; udp_server_send k app.user.listen_sock_b to buf nbytes

  unfoldable pub do_read : ℕ → List ℕ → ℕ → Sockaddr → Tester (Unit {0})
  do_read sock buf nbytes from = do
    app ← get_app
    if sock == app.user.listen_sock_a
        then (do print_string buf; send_to_a from buf nbytes; pure tt)
        else if sock == app.user.listen_sock_b
        then (do print_string buf; send_to_b from buf nbytes; pure tt)
        else pure tt

  -- The other functions are those of `UdpServerListener`.
  abbrev pub udp_echo : Listener (UdpServer UdpServerTester)
  udp_echo = record {
    on_connect = λ sock. pure tt;
    on_disconnect = λ sock. pure tt;
    do_read = do_read;
  }

  unfoldable pub start_udp_tester : Tester (Unit {0}) → Tester Bool
  start_udp_tester worker = do
    put_app (λ a. record a { base = (set_heartbeat_interval a.base 20).0 })
    put_app (λ a. record a { base = (set_keep_alive_time a.base 60).0 })
    started ← UdpServer.start k udp_echo worker
    if started
        then (do
          sock_a ← UdpServer.add_listen_socket k udp_echo 0 port_a
          put_app (λ a. record a { user = record (a.user) { listen_sock_a = sock_a } })
          sock_b ← UdpServer.add_listen_socket k udp_echo 0 port_b
          put_app (λ a. record a { user = record (a.user) { listen_sock_b = sock_b } })
          pure true)
        else pure false

  unfoldable pub stop_udp_tester : Tester (Unit {0}) → Tester Bool
  stop_udp_tester worker = UdpServer.stop_server k udp_echo worker

  do_read-Safe :
      (sock : ℕ) (buf : List ℕ) (n : ℕ) (from : Sockaddr) → Safe (do_read sock buf n from)
  unfolding do_read send_to_a send_to_b udp_server_send
  do_read-Safe sock buf n from = search (safe_rules, print_string-Safe, udp_send-Safe) depth 20

  pub udp_echo-UdpListenerKeeps : UdpListenerKeeps udp_echo
  udp_echo-UdpListenerKeeps = record {
    on_connect = λ sock. Safe-pure tt;
    on_disconnect = λ sock. Safe-pure tt;
    do_read = λ sock buf n from. Safe-Keeps (do_read-Safe sock buf n from);
  }

  module _ (s : State (UdpServer UdpServerTester)) (w : WellFormed s) (sock : ℕ) (buf : List ℕ)
      (n : ℕ) (from : Sockaddr) (inside : n % int_mod ≤ length buf)
      (terminated : has_nul buf ≡ true) where
    abbrev is_own : Bool
    is_own = (sock == s.app.user.listen_sock_a) || (sock == s.app.user.listen_sock_b)

    -- `DoRead` of `UdpServerTester` in a well-formed state, with a buffer of the length it is told and
    -- a NUL byte in it, where the output of the buffer ends, returns. From one of its two sockets it does to the table of sockets what `UdpSend` to the sender
    -- means on that socket, and from any other it changes nothing.
    pub do_read-table :
        (t : State (UdpServer UdpServerTester)) × (do_read sock buf n from s ≡ ok (tt, t))
        × WellFormed t
        × ((j : ℕ)
            → table t j
              ≡ (if is_own then apply (send_datagram sock from buf n) (table s) j else table s j))
    unfolding print_string do_read send_to_a send_to_b udp_server_send perform
    do_read-table =
        let (t, runs, formed, same) =
          perform-table k (handler k udp_echo) s w (send_datagram sock from buf n) inside in
        elim (Bool-cases (sock == s.app.user.listen_sock_a)) [
          | inl a ↦
              (t, ground (arith, ==_iff sock s.app.user.listen_sock_a, runs), formed, rw a same)
          | inr not_a ↦ elim (Bool-cases (sock == s.app.user.listen_sock_b)) [
            | inl b ↦ (
              t,
              ground (arith, ==_iff sock s.app.user.listen_sock_b, runs),
              formed,
              rw (not_a, b) same,
            )
            | inr not_b ↦ (s, ground arith, w, rw (not_a, not_b) (λ j. refl))
          ]
        ]
