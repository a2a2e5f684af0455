-- ===== src/SocketManager/WellFormed/Adding/Building.antt =====
-- Work on an object that stands at a new address, up to its entry into the map.
use light_server.Base.{
  ℕ, suc, ◌+◌, ◌≡◌, refl, ◌≢◌, sym, ◌∙◌, true, false, Option, none, some, List, [], ◌∷◌, arith,
  ==_iff, ◌==◌, Bool-cases, inl, inr, Option-cases, subst,
}
use light_server.Common.{epollin, epollout, epollet, int_lt}
use light_server.SocketObject.{SocketObject, set_socket_id, set_valid}
use light_server.Machine.{
  object, Call, CtlOp, Kernel, Result, ok, fault, State, M, update, ◌>>=◌, pure, load, store, sys,
}
use light_server.SocketManager.FdMap
use light_server.SocketManager.FdMap.{lookup-insert}
use light_server.SocketManager.Descriptors.{ctl_fd, get_time}
use light_server.SocketManager.Objects.{find_socket_object, add_socket_object, enter_object}
use light_server.SocketManager.WellFormed.{
  is_plain, NoneNew, NoneNew-plain, Owned, Backed, WellFormed, Evolves, After, Safe, then-Safe,
}
use light_server.SocketManager.WellFormed.Rules.{Backed-mono}

-- `t` is `s` with one more object, at the address that was next, which the map does not hold.
pub record Grown {S : Type 0} (s t : State S) : Type 0 where
  pub same : (q : ℕ) → q ≢ s.next → t.heap q ≡ s.heap q
  pub item : SocketObject
  pub live : t.heap s.next ≡ some item
  pub next_free : t.next ≡ suc s.next
  pub same_map : t.mgr.sock_object_map ≡ s.mgr.sock_object_map
  pub none_new : NoneNew s.trace t.trace

Backed-insert :
    (heap : ℕ → Option SocketObject) (sock p : ℕ) (m : List (ℕ × ℕ))
    → Owned heap p sock
    → FdMap.lookup sock m ≡ none
    → Backed heap m
    → Backed heap (FdMap.insert sock p m)
unfolding FdMap.insert FdMap.lookup
Backed-insert heap sock p [] own new b = (own, refl, tt)
Backed-insert heap sock p ((j, q) ∷ m) own new (its, once, b) =
    let other : (j == sock) ≡ false = ground arith in
    let later : FdMap.lookup sock m ≡ none = ground arith in
    rw other (elim (Bool-cases (int_lt sock j)) [
      | inl before ↦ rw before (own, new, (its, once, b))
      | inr behind ↦
          rw behind
            (its, ground (arith, lookup-insert sock j p m), Backed-insert heap sock p m own later b)
    ])

-- `m` works on the new object only.
pub record Builds {S A : Type 0} (s : State S) (m : M S A) : Type 0 where
  pub at : (t : State S) → Grown s t → After (Grown s) (m t)

-- From such a state, `m` leads to one that `s` may become.
pub record Settles {S A : Type 0} (s : State S) (m : M S A) : Type 0 where
  pub at : (t : State S) → Grown s t → After (Evolves s) (m t)

module _ {S : Type 0} (s : State S) where
  Owned-below : (p sock : ℕ) → WellFormed s → Owned s.heap p sock → p ≢ s.next
  Owned-below p sock w (o, live, own) e =
      let gone : s.heap p ≡ none = w.unused p (omega (arith, e)) in absurd (ground arith)

  Grown-Owned :
      (t : State S)
      → WellFormed s
      → Grown s t
      → (p sock : ℕ) → Owned s.heap p sock
      → Owned t.heap p sock
  Grown-Owned t w g p sock (o, live, own) =
      (o, g.same p (Owned-below p sock w (o, live, own)) ∙ live, own)

  pub Grown-Evolves : (t : State S) → WellFormed s → Grown s t → Evolves s t
  Grown-Evolves t w g = record {
    formed = record {
      backed =
          rw g.same_map
            (Backed-mono s.heap t.heap s.mgr.sock_object_map (Grown-Owned t w g) w.backed);
      unused = λ p above.
          g.same p (omega (arith, g.next_free)) ∙ w.unused p (omega (arith, g.next_free));
      enrolled = λ fd p e. rw g.same_map (w.enrolled fd p (g.none_new fd p e));
    };
    kept = Grown-Owned t w g;
  }

  -- The new object is entered under a new socket.
  entered-Evolves :
      (t : State S) (sock : ℕ) (o : SocketObject) (mask : ℕ)
      → WellFormed s
      → Grown s t
      → FdMap.lookup sock t.mgr.sock_object_map ≡ none
      → o.socket_id ≡ sock
      → Evolves s (record t {
        heap = update t.heap s.next (some o);
        mgr = record (t.mgr) { sock_object_map = FdMap.insert sock s.next t.mgr.sock_object_map };
        trace = Call.epoll_ctl CtlOp.add sock mask (object s.next) ∷ t.trace;
      })
  entered-Evolves t sock o mask w g new own =
      let grow : (p q : ℕ) → Owned s.heap p q → Owned (update t.heap s.next (some o)) p q =
        λ p q x. entered-Owned p q x in
      record {
        formed = record {
          backed =
              Backed-insert _ sock s.next t.mgr.sock_object_map (o, ground arith, own) new
                (rw g.same_map (Backed-mono s.heap _ s.mgr.sock_object_map grow w.backed));
          unused = λ p above. ground (arith, g.same p, w.unused p, g.next_free);
          enrolled = λ fd p e. ground (
            arith,
            lookup-insert sock fd s.next t.mgr.sock_object_map,
            g.none_new fd p,
            w.enrolled fd p,
            g.same_map,
          );
        };
        kept = grow;
      }
    where
      entered-Owned : (p q : ℕ) → Owned s.heap p q → Owned (update t.heap s.next (some o)) p q
      entered-Owned p q x =
          let ne : p ≢ s.next = Owned-below p q w x in
          let (y, live, its) = Grown-Owned t w g p q x in (y, ground (arith, ==_iff s.next p), its)

module _ {S A B : Type 0} (s : State S) where
  then-Grown :
      (f : A → M S B) (r : Result (A × State S))
      → After (Grown s) r
      → ((a : A) → Builds s (f a))
      → After (Grown s) (elim r [ ok (a, t) ↦ f a t | fault e ↦ fault e ])
  then-Grown f (ok (a, t)) g k = (k a).at t g
  then-Grown f (fault e) g k = tt

  then-Settles :
      (f : A → M S B) (r : Result (A × State S))
      → After (Grown s) r
      → ((a : A) → Settles s (f a))
      → After (Evolves s) (elim r [ ok (a, t) ↦ f a t | fault e ↦ fault e ])
  then-Settles f (ok (a, t)) g k = (k a).at t g
  then-Settles f (fault e) g k = tt

  module _ (m : M S A) (f : A → M S B) where
    pub Builds-bind : Builds s m → ((a : A) → Builds s (f a)) → Builds s (m >>= f)
    Builds-bind k kf = record { at = λ t g. then-Grown f (m t) (k.at t g) kf }

    pub Settles-bind : Builds s m → ((a : A) → Settles s (f a)) → Settles s (m >>= f)
    Settles-bind k kf = record { at = λ t g. then-Settles f (m t) (k.at t g) kf }

    pub Settles-then : Settles s m → ((a : A) → Safe (f a)) → Settles s (m >>= f)
    Settles-then k kf = record { at = λ t g. then-Safe f s (m t) (k.at t g) kf }

module _ {S : Type 0} (s : State S) where
  pub Builds-pure : {A : Type 0} (a : A) → Builds s (pure a)
  Builds-pure a = record { at = λ t g. g }

  pub Builds-sys : (k : Kernel) (c : Call) → is_plain c ≡ true → Builds s (sys k c)
  unfolding sys
  Builds-sys k c plain = record {
    at = λ t g. record {
      same = g.same;
      item = g.item;
      live = g.live;
      next_free = g.next_free;
      same_map = g.same_map;
      none_new = λ fd p e. g.none_new fd p (NoneNew-plain c t.trace plain fd p e);
    };
  }

  pub Builds-get_time : (k : Kernel) → Builds s (get_time k)
  unfolding get_time
  Builds-get_time k = Builds-bind s _ _ (Builds-sys k _ refl) (λ r. Builds-pure _)

  change_runs :
      (f : SocketObject → SocketObject) (p : ℕ) (o : SocketObject) (t : State S)
      → t.heap p ≡ some o
      → (load p >>= λ o. store p (f o)) t
        ≡ ok (tt, record t { heap = update t.heap p (some (f o)) })
  unfolding load store
  change_runs f p o t live = ground arith

  enter_runs :
      (k : Kernel) (sock p : ℕ) (o : SocketObject) (t : State S)
      → t.heap p ≡ some o
      → enter_object k sock p t
        ≡ ok (
          true,
          record t {
            heap = update t.heap p (some (set_valid (set_socket_id o sock)));
            mgr = record (t.mgr) { sock_object_map = FdMap.insert sock p t.mgr.sock_object_map };
            trace =
                Call.epoll_ctl CtlOp.add sock (epollin + epollout + epollet) (object p) ∷ t.trace;
          },
        )
  unfolding load store ctl_fd sys
  enter_runs k sock p o t live = ground arith

  pub Builds-change :
      (g : SocketObject → SocketObject) → Builds s (load s.next >>= λ o. store s.next (g o))
  Builds-change f = record {
    at = λ t g. subst (After (Grown s)) (sym (change_runs f s.next g.item t g.live)) (record {
      same = λ q ne. ground (arith, g.same q, ==_iff s.next q);
      item = f g.item;
      live = ground arith;
      next_free = g.next_free;
      same_map = g.same_map;
      none_new = g.none_new;
    });
  }

  -- `AddSocketObject` of the new object: it is entered, or left alone where the socket is known.
  pub Settles-add :
      (k : Kernel) (sock : ℕ) → WellFormed s → Settles s (add_socket_object k sock s.next)
  unfolding add_socket_object find_socket_object set_socket_id set_valid
  Settles-add k sock w = record {
    at = λ t g. elim (Option-cases (FdMap.lookup sock t.mgr.sock_object_map)) [
      | inl new ↦
          rw (new, After)
            (subst (After (Evolves s)) (sym (enter_runs k sock s.next g.item t g.live))
              (entered-Evolves s t sock (set_valid (set_socket_id g.item sock)) _ w g new refl))
      | inr (p, old) ↦ rw (old, After) (Grown-Evolves s t w g)
    ];
  }
