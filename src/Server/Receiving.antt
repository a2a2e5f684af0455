-- ===== src/Server/Receiving.antt =====
-- What `HandleReceive` of socket_manager/tcp_server.cpp gives to the listener: the bytes that the kernel
-- gave, in order.
use light_server.Base.{
  ℕ, zero, suc, ◌+◌, ◌≤◌, ◌≡◌, refl, sym, ap, ◌∙◌, ◌⊎◌, inl, inr, Bool, true, false, ◌&&◌, ◌||◌,
  some, List, [], ◌∷◌, ◌++◌, take, ltb, ◌==◌, ==_refl, if◌then◌else◌, arith, Bool-cases, append-nil,
  append_assoc, take_all, length-take,
}
use light_server.Common.{minus_one, ewouldblock, is_positive}
use light_server.SocketObject.{SocketObject}
use light_server.Machine.{
  object, Call, Command, Answer, Kernel, ok, State, pure, put_app, update, load, store, sys,
}
use light_server.SocketManager.Descriptors.{has_start, get_time}
use light_server.SocketManager.Objects.{push_command, close_socket, trigger_cmd_event}
use light_server.SocketManager.Silence.{next_time}
use light_server.Server.Base.{rx_size}
use light_server.Server.Input.{Input, max_continue_reads, no_data, receive_loop, receive_all}
use light_server.Server.TcpServer.{TcpServer, Listener, tcp_input, handle_receive}

-- The bytes that a call took from a socket, and all of them since the program began.
abbrev taken : ℕ → Call → Answer → List ℕ
taken sock (Call.read s size) r = if s == sock && is_positive r.ret then take r.ret r.bytes else []
taken sock _ r = []

unfoldable pub incoming : Kernel → ℕ → List Call → List ℕ
incoming k sock [] = []
incoming k sock (c ∷ t) = incoming k sock t ++ taken sock c (k.answer (c ∷ t))

-- From a trace on, at most `n` calls in a row give bytes before one is at the end, would block or fails.
abbrev pub Dries : Kernel → Call → ℕ → List Call → Type 0
Dries k call zero t = ⊥
Dries k call (suc n) t =
    let ret = (k.answer (call ∷ t)).ret in
    (ret ≡ 0) ⊎ (ret ≡ minus_one) ⊎ ((is_positive ret ≡ true) × Dries k call n (call ∷ t))

-- A listener that collects what it is given.
abbrev pub Collector : Type 0
Collector = TcpServer (List ℕ)

abbrev pub collecting : Listener Collector
collecting = record {
  on_connect = λ sock. pure tt;
  on_disconnect = λ sock. pure tt;
  do_read = λ sock buf n. put_app (λ a. record a { user = a.user ++ take n buf });
}

-- The listener has heard what was taken from the socket between two states.
pub record Collected (k : Kernel) (sock : ℕ) (s t : State Collector) : Type 0 where
  pub bytes : List ℕ
  pub heard : t.app.user ≡ s.app.user ++ bytes
  pub came : incoming k sock t.trace ≡ incoming k sock s.trace ++ bytes

module _ (k : Kernel) (sock : ℕ) where
  Collected-silent :
      (s t : State Collector)
      → t.app.user ≡ s.app.user
      → incoming k sock t.trace ≡ incoming k sock s.trace
      → Collected k sock s t
  Collected-silent s t heard came = record {
    bytes = [];
    heard = heard ∙ sym (append-nil _);
    came = came ∙ sym (append-nil _);
  }

  Collected-then :
      (s t u : State Collector) → Collected k sock s t → Collected k sock t u → Collected k sock s u
  Collected-then s t u a b = record {
    bytes = a.bytes ++ b.bytes;
    heard = b.heard ∙ ap (λ x. x ++ b.bytes) a.heard ∙ append_assoc s.app.user a.bytes b.bytes;
    came =
        b.came
        ∙ ap (λ x. x ++ b.bytes) a.came
        ∙ append_assoc (incoming k sock s.trace) a.bytes b.bytes;
  }

  abbrev queued : State Collector → State Collector
  queued s = record s { mgr = push_command (Command.disconnect sock) s.mgr }

  abbrev woken : State Collector → State Collector
  woken s = record s {
    mgr = push_command (Command.disconnect sock) s.mgr;
    trace = Call.eventfd_write s.mgr.cmd_evt_fd ∷ s.trace;
  }

  -- A disconnect is queued, and the loop is woken.
  close_socket-Collected :
      (s : State Collector)
      → (t : State Collector) × (close_socket k sock s ≡ ok (0, t)) × Collected k sock s t
  unfolding close_socket trigger_cmd_event sys incoming
  close_socket-Collected s = elim (Bool-cases (has_start s.mgr)) [
    | inr off ↦ (s, ground (arith, off), Collected-silent s s refl refl)
    | inl on ↦ elim (Bool-cases (s.mgr.cmd_evt_fd == minus_one)) [
      | inl closed ↦ (queued s, ground (arith, on, closed), Collected-silent s _ refl refl)
      | inr open_fd ↦
          (woken s, ground (arith, on, open_fd), Collected-silent s _ refl (append-nil _))
    ]
  ]

  module _ (size : ℕ) where
    abbrev call : Call
    call = Call.read sock size

    abbrev input : Input Collector
    input = tcp_input k collecting sock size

    -- The answer to the next `read`, the state behind it, and the state behind `DoRead`.
    abbrev next : State Collector → Answer
    next s = k.answer (call ∷ s.trace)

    abbrev asked : State Collector → State Collector
    asked s = record s { trace = call ∷ s.trace }

    abbrev told : State Collector → State Collector
    told s = record s {
      app = record (s.app) {
        user = s.app.user ++ take (next s).ret (take (next s).ret (next s).bytes);
      };
      trace = call ∷ s.trace;
    }

    asked-Collected :
        (s : State Collector) → is_positive (next s).ret ≡ false → Collected k sock s (asked s)
    unfolding incoming
    asked-Collected s none_taken =
        Collected-silent s _ refl (rw (==_refl sock, none_taken) (append-nil _))

    told-Collected :
        (s : State Collector) → is_positive (next s).ret ≡ true → Collected k sock s (told s)
    unfolding incoming
    told-Collected s positive = record {
      bytes = take (next s).ret (next s).bytes;
      heard =
          ap (λ b. s.app.user ++ b)
            (take_all (next s).ret (take (next s).ret (next s).bytes)
              (omega (arith, length-take (next s).ret (next s).bytes)));
      came = rw (==_refl sock, positive) refl;
    }

    -- The loop ends without bytes: at the end, where it would block, or where the call fails.
    no_data-Collected :
        (s : State Collector)
        → ((next s).ret ≡ 0) ⊎ ((next s).ret ≡ minus_one)
        → (b : Bool) × (t : State Collector) × (no_data k input sock (next s) (asked s) ≡ ok (b, t))
          × Collected k sock s t
    no_data-Collected s (inl e) =
        let (t, runs, c) = close_socket-Collected (asked s) in
        (
          false,
          t,
          ground (arith, runs),
          Collected-then s (asked s) t (asked-Collected s (rw e refl)) c,
        )
    no_data-Collected s (inr e) = elim (Bool-cases ((next s).errno == ewouldblock)) [
      | inl block ↦ (true, asked s, ground (arith, block), asked-Collected s (rw e refl))
      | inr fail ↦
          let (t, runs, c) = close_socket-Collected (asked s) in
          (
            false,
            t,
            ground (arith, fail, runs),
            Collected-then s (asked s) t (asked-Collected s (rw e refl)) c,
          )
    ]

    always : (i : ℕ) → (ltb i max_continue_reads || true) ≡ true
    always i = ground arith

    -- The loop, as long as the kernel is not dry.
    loop-Collected :
        (n rounds i : ℕ) (s : State Collector)
        → n ≤ rounds
        → Dries k call n s.trace
        → (b : Bool) × (t : State Collector) × (receive_loop k input sock rounds true i s
            ≡ ok (b, t))
          × Collected k sock s t
    unfolding receive_loop sys
    loop-Collected (suc n) (suc rounds) i s enough (inl e) =
        let (b, t, runs, c) = no_data-Collected s (inl e) in
        (b, t, ground (arith, always i, runs), c)
    loop-Collected (suc n) (suc rounds) i s enough (inr (inl e)) =
        let (b, t, runs, c) = no_data-Collected s (inr e) in
        (b, t, ground (arith, always i, runs), c)
    loop-Collected (suc n) (suc rounds) i s enough (inr (inr (positive, later))) =
        let (b, t, runs, c) = loop-Collected n rounds (i + 1) (told s) (omega arith) later in
        (
          b,
          t,
          ground (arith, always i, positive, runs),
          Collected-then s (told s) t (told-Collected s positive) c,
        )
    loop-Collected (suc n) zero i s enough d = absurd (omega arith)
    loop-Collected zero rounds i s enough d = elim d [ ]

module _ (k : Kernel) (s : State Collector) (p : ℕ) (o : SocketObject) (size : ℕ) where
  -- The state in which the loop begins.
  abbrev begins : State Collector
  begins = record s {
    heap = update s.heap p (some (record o { active_time = next_time k s }));
    trace = Call.clock_gettime ∷ s.trace;
  }

  begins-Collected : Collected k o.socket_id s begins
  unfolding incoming
  begins-Collected = Collected-silent k o.socket_id s begins refl (append-nil _)

  -- `HandleReceive` of a server with a listener that collects what it is given, for a live and valid
  -- object and an event that is not 0, returns, if at most so many reads in a row as there are rounds
  -- give bytes before one is at the end, would block or fails. The listener is given exactly the bytes
  -- that the kernel gave for the socket in the meantime, in order.
  pub handle_receive-Collected :
      (flag n : ℕ)
      → s.heap p ≡ some o
      → o.f_valid ≡ true
      → rx_size s.app.base ≡ some size
      → (flag == 0) ≡ false
      → n ≤ k.rounds
      → Dries k (Call.read o.socket_id size) n (Call.clock_gettime ∷ s.trace)
      → (b : Bool) × (t : State Collector) × (handle_receive k collecting (object p) flag s
          ≡ ok (b, t))
        × Collected k o.socket_id s t
  unfolding handle_receive load store get_time sys receive_all
  handle_receive-Collected flag n live valid buffer event enough dries =
      let (b, t, runs, c) = loop-Collected k o.socket_id size n k.rounds 0 begins enough dries in
      (
        b,
        t,
        ground (arith, live, valid, buffer, event, runs, ==_refl p),
        Collected-then k o.socket_id s begins t begins-Collected c,
      )
