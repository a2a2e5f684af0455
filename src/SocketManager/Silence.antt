-- ===== src/SocketManager/Silence.antt =====
-- Whom `DisconnectSilenceConnections` and `CloseAllSocket` of socket_manager/socket_manager.cpp
-- disconnect.
use light_server.Base.{
  ℕ, ◌+◌, ◌%◌, ◌^◌, ◌≤◌, ◌<◌, ◌≡◌, refl, Bool, true, ◌&&◌, some, Option, List, [], ◌∷◌, ◌++◌, ◌==◌,
  leb, if◌then◌else◌, arith, append-nil, append_assoc, Bool-cases, inl, inr, sym, ap, ◌∙◌,
}
use light_server.Common.{Sockaddr, int_mod, minus_one}
use light_server.SocketObject.{SocketObject, construct, set_remote_addr, set_connected}
use light_server.Machine.{Call, Command, Kernel, ok, State, load, sys}
use light_server.SocketManager.Descriptors.{has_start, get_time}
use light_server.SocketManager.Objects.{disconnect, trigger_cmd_event}
use light_server.SocketManager.Traffic.{
  is_silent, disconnect_where, disconnect_silence_connections, close_all_socket,
}

-- `os` are the live objects of the entries of a map, in order.
abbrev pub Loaded : (ℕ → Option SocketObject) → List (ℕ × ℕ) → List SocketObject → Type 0
Loaded heap [] [] = Unit {0}
Loaded heap ((sock, p) ∷ es) (o ∷ os) = (heap p ≡ some o) × Loaded heap es os
Loaded heap _ _ = ⊥

-- The commands that disconnect the valid objects that pass a test.
abbrev pub disconnects : (SocketObject → Bool) → List SocketObject → List Command
disconnects test [] = []
disconnects test (o ∷ os) =
    let rest = disconnects test os in
    if o.f_valid && test o then Command.disconnect o.socket_id ∷ rest else rest

-- The last activity is `period` seconds or more before `now`; that of a connection that has received
-- nothing yet is at 0.
abbrev pub inactive : ℕ → ℕ → SocketObject → Bool
inactive now period o = leb (o.active_time + period) now

-- No last activity is later than `now`.
abbrev pub AllPast : ℕ → List SocketObject → Type 0
AllPast now [] = Unit {0}
AllPast now (o ∷ os) = (o.active_time ≤ now) × AllPast now os

is_silent-inactive :
    (now period : ℕ) (o : SocketObject)
    → o.active_time ≤ now
    → now < 2 ^ 31
    → period < 2 ^ 31
    → is_silent now period o ≡ inactive now period o
is_silent-inactive now period o past early short = ground arith

disconnects-inactive :
    (now period : ℕ) (os : List SocketObject)
    → AllPast now os
    → now < 2 ^ 31
    → period < 2 ^ 31
    → disconnects (is_silent now period) os ≡ disconnects (inactive now period) os
disconnects-inactive now period [] past early short = refl
disconnects-inactive now period (o ∷ os) (before, past) early short =
    rw
      (
        is_silent-inactive now period o before early short,
        disconnects-inactive now period os past early short,
      )
      refl

-- `s'` is `s` with `cmds` at the end of the queue of commands, and system calls made.
pub record Commanded {S : Type 0} (s s' : State S) (cmds : List Command) : Type 0 where
  pub queued : s'.mgr ≡ record (s.mgr) { cmd_queue = s.mgr.cmd_queue ++ cmds }
  pub same_heap : s'.heap ≡ s.heap
  pub same_app : s'.app ≡ s.app

module _ (k : Kernel) {S : Type 0} where
  abbrev with_command : ℕ → State S → State S
  with_command sock s = record s {
    mgr = record (s.mgr) { cmd_queue = s.mgr.cmd_queue ++ (Command.disconnect sock ∷ []) };
    trace =
        if s.mgr.cmd_evt_fd == minus_one
        then s.trace
        else Call.eventfd_write s.mgr.cmd_evt_fd ∷ s.trace;
  }

  disconnect_runs :
      (sock : ℕ) (s : State S)
      → has_start s.mgr ≡ true
      → disconnect k sock s ≡ ok (0, with_command sock s)
  unfolding disconnect trigger_cmd_event sys
  disconnect_runs sock s on = ground arith

  -- The commands behind one that was queued already.
  later-Commanded :
      (sock : ℕ) (cmds : List Command) (s s' : State S)
      → Commanded (with_command sock s) s' cmds
      → Commanded s s' (Command.disconnect sock ∷ cmds)
  later-Commanded sock cmds s s' c = record {
    queued =
        c.queued
        ∙ ap (λ q. record (s.mgr) { cmd_queue = q })
            (append_assoc s.mgr.cmd_queue (Command.disconnect sock ∷ []) cmds);
    same_heap = c.same_heap;
    same_app = c.same_app;
  }

  disconnect_where-Commanded :
      (test : SocketObject → Bool) (es : List (ℕ × ℕ)) (os : List SocketObject) (s : State S)
      → has_start s.mgr ≡ true
      → Loaded s.heap es os
      → (s' : State S) × (disconnect_where k test es s ≡ ok (tt, s'))
        × Commanded s s' (disconnects test os)
  unfolding disconnect_where load has_start
  disconnect_where-Commanded test [] [] s on l = (
    s,
    refl,
    record {
      queued = ap (λ q. record (s.mgr) { cmd_queue = q }) (sym (append-nil s.mgr.cmd_queue));
      same_heap = refl;
      same_app = refl;
    },
  )
  disconnect_where-Commanded test ((sock, p) ∷ es) (o ∷ os) s on (live, l) =
      elim (Bool-cases (o.f_valid && test o)) [
        | inl c ↦
            let (s', runs, cmds) =
              disconnect_where-Commanded test es os (with_command o.socket_id s) on l in
            (
              s',
              ground (arith, live, c, disconnect_runs o.socket_id s on, runs),
              rw c (later-Commanded o.socket_id (disconnects test os) s s' cmds),
            )
        | inr c ↦
            let (s', runs, cmds) = disconnect_where-Commanded test es os s on l in
            (s', ground (arith, live, c, runs), rw c cmds)
      ]
  disconnect_where-Commanded test [] (o ∷ os) s on l = elim l [ ]
  disconnect_where-Commanded test (e ∷ es) [] s on l = elim l [ ]

  -- The time that `GetTime` gives next, in seconds.
  abbrev pub next_time : State S → ℕ
  next_time s =
      let r = k.answer (Call.clock_gettime ∷ s.trace) in
      if r.ret == minus_one then 0 else r.time.tv_sec % int_mod

  -- For a started manager whose map holds live objects, none of them active later than the time that
  -- is read, with that time and the period below 2 ^ 31 seconds, `DisconnectSilenceConnections` returns
  -- true. It puts into the queue of commands, in the order of the map, a disconnect for each object that
  -- is valid and whose last activity is the period or more before that time, and for no other, and it
  -- changes no object. For a connection that has received nothing yet the last activity is at 0.
  pub disconnect_silence_connections-Commanded :
      (period : ℕ) (os : List SocketObject) (s : State S)
      → has_start s.mgr ≡ true
      → Loaded s.heap s.mgr.sock_object_map os
      → AllPast (next_time s) os
      → next_time s < 2 ^ 31
      → period < 2 ^ 31
      → (s' : State S) × (disconnect_silence_connections k period s ≡ ok (true, s'))
        × Commanded s s' (disconnects (inactive (next_time s) period) os)
  unfolding disconnect_silence_connections get_time sys
  disconnect_silence_connections-Commanded period os s on l past early short =
      let t = record s { trace = Call.clock_gettime ∷ s.trace } in
      let (s', runs, c) =
        disconnect_where-Commanded (is_silent (next_time s) period) s.mgr.sock_object_map os t on
          l in
      (
        s',
        ground (arith, runs),
        record {
          queued =
              c.queued
              ∙ ap (λ cmds. record (s.mgr) { cmd_queue = s.mgr.cmd_queue ++ cmds })
                  (disconnects-inactive (next_time s) period os past early short);
          same_heap = c.same_heap;
          same_app = c.same_app;
        },
      )

  -- `CloseAllSocket` of a started manager whose map holds live objects returns true. It puts into the
  -- queue of commands, in the order of the map, a disconnect for each valid object, and it changes no
  -- object.
  pub close_all_socket-Commanded :
      (os : List SocketObject) (s : State S)
      → has_start s.mgr ≡ true
      → Loaded s.heap s.mgr.sock_object_map os
      → (s' : State S) × (close_all_socket k s ≡ ok (true, s'))
        × Commanded s s' (disconnects (λ o. true) os)
  unfolding close_all_socket
  close_all_socket-Commanded os s on l =
      let (s', runs, c) = disconnect_where-Commanded (λ o. true) s.mgr.sock_object_map os s on l in
      (s', ground (arith, runs), c)

-- A connection that is made at the time `now` counts as silent at `now` for each period up to `now`:
-- its constructor sets the time of its last activity to 0, and `SetConnected` leaves it so.
pub fresh_connection_is_silent :
    (memory : SocketObject) (addr : Sockaddr) (now period : ℕ)
    → period ≤ now
    → now < 2 ^ 31
    → is_silent now period (set_connected (set_remote_addr (construct memory) addr) now) ≡ true
unfolding construct set_remote_addr set_connected
fresh_connection_is_silent memory addr now period le small = ground arith
