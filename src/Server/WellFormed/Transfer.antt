-- ===== src/Server/WellFormed/Transfer.antt =====
-- The loops that receive and send keep a manager well formed.
use light_server.Base.{
  ℕ, zero, suc, ◌+◌, ◌≡◌, refl, Bool, true, false, not, ◌||◌, Option, List, [], ◌∷◌, ◌==◌, ltb,
  if◌then◌else◌, Option-cases, inl, inr,
}
use light_server.Common.{Sockaddr, is_positive, ewouldblock, int_to_bool}
use light_server.MsgPacket.{MsgPacket, size, unsent, reduce}
use light_server.SocketObject.{SocketObject}
use light_server.Machine.{
  Pvoid, null, object, cmd_evt, exit_evt, timer_evt, listen_sock, Fault, Answer, Kernel, M, ◌>>=◌,
  ◌>>◌, pure, defined, get_app, load, sys,
}
use light_server.SocketManager.Objects.{with_valid}
use light_server.SocketManager.Descriptors.{get_time}
use light_server.Server.Input.{Input, max_continue_reads, no_data, receive_loop, receive_all}
use light_server.Server.Output.{
  SendEnd, Offer, offered, send_packet, send_queue, send_all, send_status,
}
use light_server.Server.TcpServer.{touch}
use light_server.SocketManager.WellFormed.{
  is_plain, Keeps, Safe, After, Safe-bind, SafeAt-bind, Keeps-bind,
}
use light_server.SocketManager.WellFormed.Rules.{
  Safe-Keeps, Safe-pure, Safe-stop, Safe-defined, Safe-get_app, Safe-sys, Safe-if,
  SafeAt-store-then, Safe-load, Safe-with_valid, Keeps-if, load_runs, load_fails, same-Evolves,
}
use light_server.SocketManager.WellFormed.Calls.{safe_rules, get_time-Safe, close_socket-Safe}

-- What is counted deletes no object, and the reader keeps the manager well formed.
pub record InputKeeps {S : Type 0} (input : Input S) : Type 0 where
  pub plain : is_plain input.receive ≡ true
  pub within_limit : (r : Answer) → Safe (input.within_limit r)
  pub deliver : (r : Answer) → Keeps (input.deliver r)

offered-plain :
    (offer : Offer) (sock : ℕ) (bytes : List ℕ) (to : Option Sockaddr)
    → is_plain (offered offer sock bytes to) ≡ true
offered-plain Offer.by_write sock bytes to = refl
offered-plain Offer.by_sendto sock bytes to = refl

module _ (k : Kernel) {S : Type 0} where
  touch-Safe : (p now : ℕ) → Safe {S = S} (touch p now)
  touch-Safe p now = Safe-load p _ λ o.
      SafeAt-store-then p o.socket_id (record o { active_time = now }) (pure o) refl (Safe-pure o)

  no_data-Safe : (input : Input S) (sock : ℕ) (r : Answer) → Safe (no_data k input sock r)
  no_data-Safe input sock r = search (safe_rules, close_socket-Safe) depth 12

  module _ (input : Input S) (sock : ℕ) (ki : InputKeeps input) where
    open ki use {plain, within_limit, deliver}

    round-Keeps :
        (next : M S Bool)
        → Keeps next
        → (r : Answer)
        → Keeps {S = S} (
            if is_positive r.ret
            then (do
              go ← input.within_limit r
              if go then (do input.deliver r; next) else pure false)
            else no_data k input sock r)
    round-Keeps next kn r =
        Keeps-if (is_positive r.ret) _ _
          (Keeps-bind (input.within_limit r) _ (Safe-Keeps (within_limit r)) λ go.
            Keeps-if go _ _ (Keeps-bind (input.deliver r) _ (deliver r) (λ _. kn))
              (Safe-Keeps (Safe-pure false)))
          (Safe-Keeps (no_data-Safe input sock r))

    receive_loop-Keeps :
        (rounds : ℕ) (endless : Bool) (i : ℕ) → Keeps (receive_loop k input sock rounds endless i)
    unfolding receive_loop
    receive_loop-Keeps zero endless i = Safe-Keeps (Safe-stop Fault.out_of_rounds)
    receive_loop-Keeps (suc rounds) endless i =
        let next = receive_loop-Keeps rounds endless (i + 1) in
        Keeps-if (ltb i max_continue_reads || endless) _ _
          (Keeps-bind (sys k input.receive) _ (Safe-Keeps (Safe-sys k _ plain))
            (round-Keeps (receive_loop k input sock rounds endless (i + 1)) next))
          (Safe-Keeps (Safe-pure true))

    receive_all-Keeps : (flag : ℕ) → Keeps (receive_all k input sock flag)
    unfolding receive_all
    receive_all-Keeps flag = receive_loop-Keeps k.rounds (not (flag == 0)) 0

  load-Safe : (p : ℕ) → Safe {S = S} (load p)
  load-Safe p = record {
    at = λ s w. elim (Option-cases (s.heap p)) [
      | inl dead ↦ rw (load_fails p s dead, After) tt
      | inr (o, live) ↦
          rw (load_runs p o s live, After) (same-Evolves s s w refl refl refl (λ fd p e. e))
    ];
  }

  Keeps-with_valid :
      {A : Type 0} (pv : Pvoid) (bad : A) (body : ℕ → SocketObject → M S A)
      → ((p : ℕ) (o : SocketObject) → Keeps (body p o))
      → Keeps (with_valid pv bad body)
  Keeps-with_valid null bad body kb = Safe-Keeps (Safe-pure bad)
  Keeps-with_valid (object p) bad body kb =
      Keeps-bind (load p) _ (Safe-Keeps (load-Safe p))
        λ o. Keeps-if o.f_valid _ _ (kb p o) (Safe-Keeps (Safe-pure bad))
  Keeps-with_valid cmd_evt bad body kb = Safe-Keeps (Safe-stop _)
  Keeps-with_valid exit_evt bad body kb = Safe-Keeps (Safe-stop _)
  Keeps-with_valid timer_evt bad body kb = Safe-Keeps (Safe-stop _)
  Keeps-with_valid listen_sock bad body kb = Safe-Keeps (Safe-stop _)

  -- The three functions `HandleReceive` have this form.
  pub receive_with-Keeps :
      (pv : Pvoid) (flag : ℕ) (buffer : S → Option ℕ) (input : ℕ → SocketObject → ℕ → Input S)
      → ((p : ℕ) (o : SocketObject) (size : ℕ) → InputKeeps (input p o size))
      → Keeps (
          with_valid pv false λ p o. do
            app ← get_app
            size ← defined (buffer app)
            now ← get_time k
            touch p now
            receive_all k (input p o size) o.socket_id flag)
  receive_with-Keeps pv flag buffer input ki = Keeps-with_valid pv false _ λ p o.
      Keeps-bind get_app _ (Safe-Keeps Safe-get_app) λ app.
        Keeps-bind (defined (buffer app)) _ (Safe-Keeps (Safe-defined (buffer app))) λ size.
          Keeps-bind (get_time k) _ (Safe-Keeps (get_time-Safe k)) λ now.
            Keeps-bind (touch p now) _ (Safe-Keeps (touch-Safe p now))
              λ _. receive_all-Keeps (input p o size) o.socket_id (ki p o size) flag

  module _ (offer : Offer) (sock : ℕ) where
    next_part-Safe :
        (rounds : ℕ) (p : MsgPacket) (r : Answer)
        → ((p' : MsgPacket) → Safe {S = S} (send_packet k offer sock rounds p'))
        → (took : Bool)
        → Safe {S = S} {A = SendEnd × MsgPacket} (elim took [
          | true ↦ (do p' ← defined (reduce p r.ret); send_packet k offer sock rounds p')
          | false ↦ pure (if r.errno == ewouldblock then SendEnd.blocked else SendEnd.failed, p)
        ])
    next_part-Safe rounds p r more true =
        Safe-bind (defined (reduce p r.ret)) _ (Safe-defined _) more
    next_part-Safe rounds p r more false = Safe-pure _

    send_packet-Safe :
        (rounds : ℕ) (p : MsgPacket) → Safe {S = S} (send_packet k offer sock rounds p)
    unfolding send_packet
    send_packet-Safe zero p = Safe-stop Fault.out_of_rounds
    send_packet-Safe (suc rounds) p =
        let more = send_packet-Safe rounds in
        Safe-bind (defined (size p)) _ (Safe-defined _) λ n. Safe-if (n == 0) _ _ (Safe-pure _) (
          Safe-bind (defined (unsent p)) _ (Safe-defined _) λ bytes.
            Safe-bind (sys k (offered offer sock bytes p.saddr)) _
              (Safe-sys k _ (offered-plain offer sock bytes p.saddr))
              λ r. next_part-Safe rounds p r more (is_positive r.ret))

    next_packet-Safe :
        (rest : List MsgPacket) (p : MsgPacket)
        → Safe {S = S} (send_queue k offer sock rest)
        → (done : SendEnd)
        → Safe {S = S} {A = SendEnd × List MsgPacket} (elim done [
          | SendEnd.drained ↦ send_queue k offer sock rest
          | stopped ↦ pure (stopped, p ∷ rest)
        ])
    next_packet-Safe rest p kr SendEnd.drained = kr
    next_packet-Safe rest p kr SendEnd.blocked = Safe-pure _
    next_packet-Safe rest p kr SendEnd.failed = Safe-pure _

    send_queue-Safe : (q : List MsgPacket) → Safe {S = S} (send_queue k offer sock q)
    unfolding send_queue
    send_queue-Safe [] = Safe-pure _
    send_queue-Safe (p ∷ rest) =
        let kr = send_queue-Safe rest in
        Safe-bind (defined (size p)) _ (Safe-defined _) λ n.
          Safe-bind (send_packet k offer sock (suc n) p) _ (send_packet-Safe (suc n) p)
            λ r. next_packet-Safe rest r.1 kr r.0

  pub send_all-Safe : (offer : Offer) (pv : Pvoid) → Safe {S = S} (send_all k offer pv)
  unfolding send_all
  send_all-Safe offer pv = Safe-with_valid pv _ _ λ p o.
      SafeAt-bind _ _ p o.socket_id (send_queue-Safe offer o.socket_id o.out_packets_queue) λ r.
        SafeAt-store-then p o.socket_id (record o { out_packets_queue = r.1 })
          (pure (int_to_bool (send_status r.0))) refl (Safe-pure _)
