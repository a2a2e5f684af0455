-- ===== src/Server/Heartbeat.antt =====
-- When `OnTimer` of socket_manager/tcp_client.cpp looks for silent connections.
use light_server.Base.{ℕ, ◌+◌, ◌/◌, ◌%◌, ◌^◌, ◌≤◌, ◌<◌, ◌≡◌, true, List, arith}
use light_server.SocketObject.{SocketObject}
use light_server.Machine.{Kernel, ok, State}
use light_server.SocketManager.Descriptors.{has_start}
use light_server.SocketManager.Silence.{
  Loaded, Commanded, disconnects, next_time, AllPast, inactive,
  disconnect_silence_connections-Commanded,
}
use light_server.Server.TcpServer.{Listener}
use light_server.Server.TcpClient.{TcpClient, on_timer}

module _ {U : Type 0} where
  -- The state with the counter of timer events set.
  abbrev pub with_count : ℕ → State (TcpClient U) → State (TcpClient U)
  with_count n s = record s {
    app = record (s.app) { base = record (s.app.base) { timer_event_count = n } };
  }

  -- The number of timer events between two looks at the connections.
  abbrev pub check_period : State (TcpClient U) → ℕ
  check_period s = s.app.base.keep_alive_time_in_seconds / s.app.base.heartbeat_interval_in_seconds

  -- The counter after the events that `OnTimer` is told of.
  abbrev pub next_count : ℕ → State (TcpClient U) → ℕ
  next_count expirations s = (s.app.base.timer_event_count + expirations) % 2 ^ 64

module _ (k : Kernel) {U : Type 0} (listener : Listener (TcpClient U)) (expirations : ℕ)
    (s : State (TcpClient U)) (os : List SocketObject) (on : has_start s.mgr ≡ true)
    (loaded : Loaded s.heap s.mgr.sock_object_map os)
    (heartbeat : 0 < s.app.base.heartbeat_interval_in_seconds)
    (longer : s.app.base.heartbeat_interval_in_seconds < s.app.base.keep_alive_time_in_seconds)
    (short : s.app.base.keep_alive_time_in_seconds < 2 ^ 31)
    (past : AllPast (next_time k (with_count 0 s)) os)
    (early : next_time k (with_count 0 s) < 2 ^ 31) where
  -- `OnTimer` of a client that has started and whose map holds live objects, with a heartbeat interval
  -- of at least a second that is shorter than the keep-alive time, and with that time and the clock
  -- below 2 ^ 31 seconds and no activity later than the clock, returns. Where the events counted make
  -- up the keep-alive time, it counts from 0 again and queues a disconnect for each valid connection
  -- whose last activity is that time or more ago, at 0 for one that has received nothing yet, and for
  -- no other; where they do not, it counts, and does nothing else.
  pub on_timer-Commanded :
      (next_count expirations s < check_period s
        → on_timer k listener expirations s ≡ ok (tt, with_count (next_count expirations s) s))
      × (check_period s ≤ next_count expirations s
          → (s' : State (TcpClient U)) × (on_timer k listener expirations s ≡ ok (tt, s'))
            × Commanded
                (with_count 0 s)
                s'
                (disconnects (inactive (next_time k s) s.app.base.keep_alive_time_in_seconds) os))
  unfolding on_timer
  on_timer-Commanded = (
    λ early. ground arith,
    λ due.
        let (s', runs, c) =
          disconnect_silence_connections-Commanded k s.app.base.keep_alive_time_in_seconds os
            (with_count 0 s) on loaded past early short in
        (s', ground (arith, runs), c),
  )
