-- ===== src/SocketManager/WellFormed/Removing.antt =====
-- `RemoveSocketObject` and `Stop` keep a manager well formed: what is deleted is no member any more.
use light_server.Base.{
  ap, ◌∙◌, ℕ, ◌≡◌, refl, ◌≢◌, sym, true, false, Option, none, some, List, [], ◌∷◌, arith, ==_iff,
  ◌==◌, Bool-cases, inl, inr, Option-cases, subst,
}
use light_server.SocketObject.{SocketObject, set_invalid}
use light_server.Machine.{
  Pvoid, Call, CtlOp, Kernel, Result, ok, fault, State, M, update, ◌>>=◌, pure, load, store, free,
  sys, put_mgr,
}
use light_server.SocketManager.FdMap
use light_server.SocketManager.FdMap.{lookup-erase}
use light_server.SocketManager.Descriptors.{ctl_fd, delete_fd, reset, del_timer}
use light_server.SocketManager.Objects.{
  IoHandler, call_handler, drop_object, remove_object, remove_socket_object, release_socket_objects,
  is_valid,
}
use light_server.SocketManager.Lifecycle.{
  stop, stop_work_thread, close_evt, stop_timer, close_epoll, close_down,
}
use light_server.SocketManager.Releasing.{Releasable, release_entries-Released}
use light_server.SocketManager.WellFormed.{
  Owned, Backed, WellFormed, Evolves, After, Keeps, Safe, SafeAt, Keeps-bind,
}
use light_server.SocketManager.WellFormed.Rules.{
  Safe-Keeps, Safe-put_mgr, Safe-sys, Safe-pure, Safe-SafeAt, Keeps-if, Safe-call_handler,
  SafeAt-store, load_runs, load_fails,
}
use light_server.SocketManager.WellFormed.Calls.{is_valid-Safe, safe_rules, keeps_rules}

-- `m` keeps the state well formed where the object at `p` is live and has the socket `sock`.
record KeepsAt {S A : Type 0} (p sock : ℕ) (m : M S A) : Type 0 where
  at : (s : State S) → WellFormed s → Owned s.heap p sock → After WellFormed (m s)

module _ {S A B : Type 0} (p sock : ℕ) where
  then-KeepsAt :
      (f : A → M S B) (s : State S)
      → Owned s.heap p sock
      → (r : Result (A × State S)) → After (Evolves s) r
      → ((a : A) → KeepsAt p sock (f a))
      → After WellFormed (elim r [ ok (a, s') ↦ f a s' | fault e ↦ fault e ])
  then-KeepsAt f s own (ok (a, t)) e k = (k a).at t e.formed (e.kept p sock own)
  then-KeepsAt f s own (fault x) e k = tt

  KeepsAt-bind :
      (m : M S A) (f : A → M S B)
      → SafeAt p sock m
      → ((a : A) → KeepsAt p sock (f a))
      → KeepsAt p sock (m >>= f)
  KeepsAt-bind m f k kf = record { at = λ s w own. then-KeepsAt f s own (m s) (k.at s w own) kf }

Keeps-load :
    {S A : Type 0} (p : ℕ) (f : SocketObject → M S A)
    → ((o : SocketObject) → KeepsAt p o.socket_id (f o))
    → Keeps (load p >>= f)
Keeps-load p f k = record {
  at = λ s w. elim (Option-cases (s.heap p)) [
    | inl dead ↦ rw (load_fails p s dead, After) tt
    | inr (o, live) ↦ rw (load_runs p o s live, After) ((k o).at s w (o, live, refl))
  ];
}

other_object :
    (heap : ℕ → Option SocketObject) (p sock q j : ℕ)
    → Owned heap p sock
    → Owned heap q j
    → j ≢ sock
    → Owned (update heap p none) q j
other_object heap p sock q j (o, at_p, mine) (x, at_q, its) ne = elim (Bool-cases (p == q)) [
  | inl e ↦
      let same : x ≡ o = ground (arith, ==_iff p q) in
      absurd (ne (sym its ∙ ap (λ (y : SocketObject). y.socket_id) same ∙ mine))
  | inr e ↦ (x, ground arith, its)
]

-- The entries that stay have other objects than the one that is deleted.
Backed-erase :
    (heap : ℕ → Option SocketObject) (p sock : ℕ) (m : List (ℕ × ℕ))
    → Owned heap p sock
    → Backed heap m
    → Backed (update heap p none) (FdMap.erase sock m)
unfolding FdMap.erase
Backed-erase heap p sock [] own b = tt
Backed-erase heap p sock ((j, q) ∷ m) own (at_q, new, b) = elim (Bool-cases (j == sock)) [
  | inl e ↦ rw e (Backed-erase heap p sock m own b)
  | inr e ↦ rw e (
    other_object heap p sock q j own at_q (λ same. ground (arith, ==_iff j sock)),
    ground (arith, lookup-erase sock j m),
    Backed-erase heap p sock m own b,
  )
]

drop_runs :
    {S : Type 0} (k : Kernel) (sock p : ℕ) (o : SocketObject) (s : State S)
    → s.heap p ≡ some o
    → drop_object k sock p s
      ≡ ok (
        true,
        record s {
          heap = update s.heap p none;
          mgr = record (s.mgr) { sock_object_map = FdMap.erase sock s.mgr.sock_object_map };
          trace = Call.close sock ∷ Call.epoll_ctl CtlOp.del sock 0 Pvoid.null ∷ s.trace;
        },
      )
unfolding ctl_fd sys free
drop_runs k sock p o s live = ground arith

Backed-without :
    (heap : ℕ → Option SocketObject) (p sock : ℕ) (m : List (ℕ × ℕ))
    → Owned heap p sock
    → FdMap.lookup sock m ≡ none
    → Backed heap m
    → Backed (update heap p none) m
unfolding FdMap.lookup
Backed-without heap p sock [] own out b = tt
Backed-without heap p sock ((j, q) ∷ m) own out (at_q, new, b) = (
  other_object heap p sock q j own at_q (λ same. ground (arith, ==_iff j sock)),
  new,
  Backed-without heap p sock m own (ground arith) b,
)

pub Backed-Releasable :
    (heap : ℕ → Option SocketObject) (m : List (ℕ × ℕ)) → Backed heap m → Releasable heap m
Backed-Releasable heap [] b = tt
Backed-Releasable heap ((sock, p) ∷ m) ((o, live, own), new, b) = (
  o,
  live,
  Backed-Releasable (update heap p none) m (Backed-without heap p sock m (o, live, own) new b),
)

module _ (k : Kernel) {S : Type 0} where
  drop-WellFormed :
      (sock p : ℕ) (s : State S)
      → WellFormed s
      → Owned s.heap p sock
      → After WellFormed (drop_object k sock p s)
  drop-WellFormed sock p s w own =
      subst (After WellFormed) (sym (drop_runs k sock p own.0 s own.1)) (record {
        backed = Backed-erase s.heap p sock s.mgr.sock_object_map own w.backed;
        unused = λ q above. ground (arith, w.unused q above);
        enrolled =
            λ fd q e. ground (arith, w.enrolled fd q, lookup-erase sock fd s.mgr.sock_object_map);
      })

  module _ (h : IoHandler S) (told : (sock : ℕ) → Safe (h.on_disconnect sock)) where
    remove_object-Keeps : (p : ℕ) → Keeps (remove_object k h p)
    unfolding set_invalid
    remove_object-Keeps p = Keeps-load p _ λ o.
        KeepsAt-bind p o.socket_id (store p (set_invalid o)) _
          (SafeAt-store p o.socket_id (set_invalid o) refl)
          λ _.
            KeepsAt-bind p o.socket_id (sys k (Call.shutdown o.socket_id)) _
              (Safe-SafeAt p o.socket_id (Safe-sys k _ refl))
              λ _.
                KeepsAt-bind p o.socket_id (call_handler (h.on_disconnect o.socket_id)) _
                  (Safe-SafeAt p o.socket_id (Safe-call_handler _ (told o.socket_id)))
                  λ _. record { at = drop-WellFormed o.socket_id p }

    pub remove_socket_object-Keeps : (p : Option ℕ) → Keeps (remove_socket_object k h p)
    unfolding remove_socket_object
    remove_socket_object-Keeps none = Safe-Keeps (Safe-pure false)
    remove_socket_object-Keeps (some p) =
        Keeps-bind (is_valid (some p)) _ (Safe-Keeps (is_valid-Safe k (some p))) λ v.
          Keeps-if v (remove_object k h p) (pure false) (remove_object-Keeps p)
            (Safe-Keeps (Safe-pure false))

  release_socket_objects-Keeps : Keeps {S = S} (release_socket_objects k)
  unfolding release_socket_objects
  release_socket_objects-Keeps = record {
    at = λ s w.
        let rel =
          release_entries-Released k s.mgr.sock_object_map s
            (Backed-Releasable s.heap s.mgr.sock_object_map w.backed) in
        rw (rel.runs, After)
          (record {
            backed = tt;
            unused = λ p above. rel.kept_free p (w.unused p above);
            enrolled = λ fd p e. ground (arith, rel.cleared fd p, w.enrolled fd p);
          });
  }

  clear_commands : Safe {S = S} (put_mgr (λ m. record m { cmd_queue = [] }))
  clear_commands = Safe-put_mgr _ (λ m. refl)

  reset-Safe : Safe {S = S} (put_mgr reset)
  unfolding reset
  reset-Safe = Safe-put_mgr reset (λ m. refl)

  delete_fd-Safe : (fd : ℕ) → Safe {S = S} (delete_fd k fd)
  unfolding ctl_fd
  delete_fd-Safe fd = search safe_rules

  close_evt-Safe : (fd : ℕ) → Safe {S = S} (close_evt k fd)
  unfolding close_evt
  close_evt-Safe fd = search (safe_rules, delete_fd-Safe)

  stop_timer-Safe : (fd : ℕ) → Safe {S = S} (stop_timer k fd)
  unfolding stop_timer del_timer
  stop_timer-Safe fd = search (safe_rules, delete_fd-Safe)

  close_epoll-Safe : (fd : ℕ) → Safe {S = S} (close_epoll k fd)
  unfolding close_epoll
  close_epoll-Safe fd = search safe_rules

  pub close_down-Keeps : Keeps {S = S} (close_down k)
  close_down-Keeps =
      search
        (
          keeps_rules, clear_commands, release_socket_objects-Keeps, close_evt-Safe,
          stop_timer-Safe, close_epoll-Safe, reset-Safe,
        )
        depth 20

  pub stop_work_thread-Keeps :
      (worker : M S (Unit {0})) → Keeps worker → Keeps (stop_work_thread k worker)
  unfolding stop_work_thread
  stop_work_thread-Keeps worker kw = search keeps_rules depth 12

  pub stop-Keeps : (worker : M S (Unit {0})) → Keeps worker → Keeps (stop k worker)
  unfolding stop
  stop-Keeps worker kw = search (keeps_rules, stop_work_thread-Keeps, close_down-Keeps) depth 20
