-- ===== src/SocketManager/WellFormed/Rules.antt =====
-- The rules for the actions of which the code is built: which are safe, and which keep a state well
-- formed.
use light_server.Base.{
  ℕ, ◌≤◌, ◌≡◌, refl, sym, Bool, true, false, Option, none, some, List, [], ◌∷◌, if◌then◌else◌,
  arith, ==_iff, ◌==◌, Bool-cases, inl, inr, Option-cases, subst,
}
use light_server.SocketObject.{SocketObject}
use light_server.Machine.{
  Pvoid, null, object, Call, Fault, Kernel, Manager, Result, ok, fault, State, M, update, ◌>>=◌,
  ◌>>◌, pure, stop, get_mgr, put_mgr, get_app, put_app, defined, load, store, sys,
}
use light_server.SocketManager.Objects.{with_valid, call_handler}
use light_server.SocketManager.WellFormed.{
  is_plain, NoneNew, NoneNew-plain, Owned, Backed, WellFormed, Evolves, After, Keeps, Safe, SafeAt,
  Safe-bind, Keeps-bind, then-Safe,
}

pub Backed-mono :
    (h h' : ℕ → Option SocketObject) (m : List (ℕ × ℕ))
    → ((p sock : ℕ) → Owned h p sock → Owned h' p sock)
    → Backed h m
    → Backed h' m
Backed-mono h h' [] grow b = tt
Backed-mono h h' ((sock, p) ∷ m) grow (o, new, b) = (grow p sock o, new, Backed-mono h h' m grow b)

pub Owned-update :
    (heap : ℕ → Option SocketObject) (p sock : ℕ) (o : SocketObject)
    → Owned heap p sock
    → o.socket_id ≡ sock
    → (q t : ℕ) → Owned heap q t
    → Owned (update heap p (some o)) q t
Owned-update heap p sock o (old, at_p, mine) same q t (x, at_q, own) = elim (Bool-cases (p == q)) [
  | inl e ↦ (o, ground arith, ground (arith, ==_iff p q, at_p, at_q))
  | inr e ↦ (x, ground arith, own)
]

pub update-unused :
    (heap : ℕ → Option SocketObject) (p q : ℕ) (o : SocketObject) (next : ℕ) {sock : ℕ}
    → Owned heap p sock
    → ((q : ℕ) → next ≤ q → heap q ≡ none)
    → next ≤ q
    → update heap p (some o) q ≡ none
update-unused heap p q o next (old, at_p, mine) unused above =
    ground (arith, unused p, unused q, at_p)

module _ {S A : Type 0} {m : M S A} where
  pub Safe-Keeps : Safe m → Keeps m
  Safe-Keeps k = record { at = λ s w. After-formed s (m s) (k.at s w) }
    where
      After-formed :
          (s : State S) (r : Result (A × State S)) → After (Evolves s) r → After WellFormed r
      After-formed s (ok (a, t)) e = e.formed
      After-formed s (fault x) e = tt

  pub Safe-SafeAt : (p sock : ℕ) → Safe m → SafeAt p sock m
  Safe-SafeAt p sock k = record { at = λ s w o. k.at s w }

module _ {S : Type 0} where
  -- A state with the same objects and the same map.
  pub same-Evolves :
      (s t : State S)
      → WellFormed s
      → t.heap ≡ s.heap
      → t.next ≡ s.next
      → t.mgr.sock_object_map ≡ s.mgr.sock_object_map
      → NoneNew s.trace t.trace
      → Evolves s t
  same-Evolves s t w heap next map none_new = record {
    formed = record {
      backed = rw (heap, map) w.backed;
      unused = rw (heap, next) w.unused;
      enrolled = λ fd p e. rw map (w.enrolled fd p (none_new fd p e));
    };
    kept = rw heap (λ p sock o. o);
  }

  pub Safe-pure : {A : Type 0} (a : A) → Safe {S = S} (pure a)
  Safe-pure a = record { at = λ s w. same-Evolves s s w refl refl refl (λ fd p e. e) }

  pub Safe-stop : {A : Type 0} (e : Fault) → Safe {S = S} {A = A} (stop e)
  Safe-stop e = record { at = λ s w. tt }

  pub Safe-get_mgr : Safe {S = S} get_mgr
  Safe-get_mgr = record { at = λ s w. same-Evolves s s w refl refl refl (λ fd p e. e) }

  pub Safe-get_app : Safe {S = S} get_app
  Safe-get_app = record { at = λ s w. same-Evolves s s w refl refl refl (λ fd p e. e) }

  pub Safe-put_app : (f : S → S) → Safe (put_app f)
  Safe-put_app f = record { at = λ s w. same-Evolves s _ w refl refl refl (λ fd p e. e) }

  pub Safe-put_mgr :
      (f : Manager → Manager)
      → ((m : Manager) → (f m).sock_object_map ≡ m.sock_object_map)
      → Safe {S = S} (put_mgr f)
  Safe-put_mgr f same = record {
    at = λ s w. same-Evolves s _ w refl refl (same s.mgr) (λ fd p e. e);
  }

  pub Safe-sys : (k : Kernel) (c : Call) → is_plain c ≡ true → Safe {S = S} (sys k c)
  unfolding sys
  Safe-sys k c plain = record {
    at = λ s w. same-Evolves s _ w refl refl refl (NoneNew-plain c s.trace plain);
  }

  pub Safe-defined : {A : Type 0} (a : Option A) → Safe {S = S} (defined a)
  Safe-defined none = record { at = λ s w. tt }
  Safe-defined (some a) = record { at = λ s w. same-Evolves s s w refl refl refl (λ fd p e. e) }

  pub Safe-if : {A : Type 0} (b : Bool) (m n : M S A) → Safe m → Safe n → Safe (if b then m else n)
  Safe-if true m n km kn = km
  Safe-if false m n km kn = kn

  pub Keeps-if :
      {A : Type 0} (b : Bool) (m n : M S A) → Keeps m → Keeps n → Keeps (if b then m else n)
  Keeps-if true m n km kn = km
  Keeps-if false m n km kn = kn

  pub SafeAt-if :
      {A : Type 0} (p sock : ℕ) (b : Bool) (m n : M S A)
      → SafeAt p sock m
      → SafeAt p sock n
      → SafeAt p sock (if b then m else n)
  SafeAt-if p sock true m n km kn = km
  SafeAt-if p sock false m n km kn = kn

  pub store_runs :
      (p : ℕ) (o old : SocketObject) (s : State S)
      → s.heap p ≡ some old
      → store p o s ≡ ok (tt, record s { heap = update s.heap p (some o) })
  unfolding store
  store_runs p o old s live = ground arith

  pub load_runs :
      (p : ℕ) (o : SocketObject) (s : State S) → s.heap p ≡ some o → load p s ≡ ok (o, s)
  unfolding load
  load_runs p o s live = ground arith

  pub load_fails :
      (p : ℕ) (s : State S) → s.heap p ≡ none → load p s ≡ fault Fault.undefined_behaviour
  unfolding load
  load_fails p s dead = ground arith

  pub store-Evolves :
      (p sock : ℕ) (o : SocketObject) (s : State S)
      → WellFormed s
      → Owned s.heap p sock
      → o.socket_id ≡ sock
      → Evolves s (record s { heap = update s.heap p (some o) })
  store-Evolves p sock o s w own same =
      let grow = Owned-update s.heap p sock o own same in
      record {
        formed = record {
          backed = Backed-mono s.heap _ s.mgr.sock_object_map grow w.backed;
          unused = λ q above. update-unused s.heap p q o s.next own w.unused above;
          enrolled = w.enrolled;
        };
        kept = grow;
      }

  -- An object may be replaced by one with the same socket.
  pub SafeAt-store :
      (p sock : ℕ) (o : SocketObject) → o.socket_id ≡ sock → SafeAt {S = S} p sock (store p o)
  SafeAt-store p sock o same = record {
    at = λ s w own.
        subst (After (Evolves s)) (sym (store_runs p o own.0 s own.1))
          (store-Evolves p sock o s w own same);
  }

  pub Safe-load :
      {A : Type 0} (p : ℕ) (f : SocketObject → M S A)
      → ((o : SocketObject) → SafeAt p o.socket_id (f o))
      → Safe (load p >>= f)
  Safe-load {A} p f k = record {
    at = λ s w. elim (Option-cases (s.heap p)) [
      | inl dead ↦ rw (load_fails p s dead, After) tt
      | inr (o, live) ↦ rw (load_runs p o s live, After) ((k o).at s w (o, live, refl))
    ];
  }

  -- The rest of a block may use that the value is defined.
  pub SafeAt-defined :
      {A B : Type 0} (p sock : ℕ) (x : Option A) (f : A → M S B)
      → ((a : A) → x ≡ some a → SafeAt p sock (f a))
      → SafeAt p sock (defined x >>= f)
  SafeAt-defined p sock none f k = record { at = λ s w o. tt }
  SafeAt-defined p sock (some a) f k = record { at = λ s w o. (k a refl).at s w o }

  pub SafeAt-store-then :
      {B : Type 0} (p sock : ℕ) (o : SocketObject) (m : M S B)
      → o.socket_id ≡ sock
      → Safe m
      → SafeAt p sock (store p o >> m)
  SafeAt-store-then p sock o m same k = record {
    at = λ s w own.
        subst (λ r. After (Evolves s) (elim r [ ok (a, t) ↦ m t | fault e ↦ fault e ]))
          (sym (store_runs p o own.0 s own.1))
          (then-Safe {A = Unit {0}} (λ _. m) s
            (ok (tt, record s { heap = update s.heap p (some o) }))
            (store-Evolves p sock o s w own same) (λ _. k));
  }

  pub Safe-with_valid :
      {A : Type 0} (pv : Pvoid) (bad : A) (body : ℕ → SocketObject → M S A)
      → ((p : ℕ) (o : SocketObject) → SafeAt p o.socket_id (body p o))
      → Safe (with_valid pv bad body)
  Safe-with_valid null bad body k = Safe-pure bad
  Safe-with_valid (object p) bad body k = Safe-load p _ (λ o.
      SafeAt-if p o.socket_id o.f_valid (body p o) (pure bad) (k p o)
        (Safe-SafeAt p o.socket_id (Safe-pure bad)))
  Safe-with_valid _ bad body k = Safe-stop Fault.undefined_behaviour

  pub Keeps-call_handler : {A : Type 0} (call : M S A) → Keeps call → Keeps (call_handler call)
  Keeps-call_handler call k = Keeps-bind get_mgr _ (Safe-Keeps Safe-get_mgr) (λ m.
      Keeps-if m.io_handler call (stop Fault.undefined_behaviour) k (Safe-Keeps (Safe-stop _)))

  pub Safe-call_handler : {A : Type 0} (call : M S A) → Safe call → Safe (call_handler call)
  Safe-call_handler call k =
      Safe-bind get_mgr _ Safe-get_mgr
        (λ m. Safe-if m.io_handler call (stop Fault.undefined_behaviour) k (Safe-stop _))
