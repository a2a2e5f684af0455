-- ===== src/SocketManager/Reachable/Returning.antt =====
-- Which calls return in every state that is well formed: rules for total correctness.
use light_server.Base.{
  ℕ, ◌≡◌, refl, sym, subst, Bool, true, false, Option, none, some, List, [], ◌∷◌, ◌==◌,
  if◌then◌else◌, arith, Option-cases, inl, inr, Bool-cases, ==_iff,
}
use light_server.SocketObject.{SocketObject}
use light_server.Machine.{
  Call, Kernel, Manager, Result, ok, fault, State, M, ◌>>=◌, pure, get_mgr, put_mgr, defined, load,
  store, sys,
}
use light_server.SocketManager.FdMap
use light_server.SocketManager.Objects.{find_socket_object}
use light_server.SocketManager.WellFormed.{is_plain, Owned, Backed, WellFormed, Evolves}
use light_server.SocketManager.WellFormed.Rules.{
  Safe-pure, Safe-get_mgr, Safe-put_mgr, Safe-sys, load_runs, store_runs, store-Evolves,
}

-- Each pair of the list is a socket and the address of a live object of that socket.
abbrev pub AllOwned : (ℕ → Option SocketObject) → List (ℕ × ℕ) → Type 0
AllOwned heap [] = Unit {0}
AllOwned heap ((sock, p) ∷ es) = Owned heap p sock × AllOwned heap es

abbrev pub Returned : {S A : Type 0} → State S → Result (A × State S) → Type 0
Returned {S} {A} s r = (a : A) × (t : State S) × (r ≡ ok (a, t)) × Evolves s t

-- In a well-formed state with these objects `m` returns, keeps the state well formed, and deletes no
-- object.
pub record Total {S A : Type 0} (es : List (ℕ × ℕ)) (m : M S A) : Type 0 where
  pub at : (s : State S) → WellFormed s → AllOwned s.heap es → Returned s (m s)

AllOwned-kept :
    {S : Type 0} (s t : State S) (es : List (ℕ × ℕ))
    → Evolves s t
    → AllOwned s.heap es
    → AllOwned t.heap es
AllOwned-kept s t [] e all = tt
AllOwned-kept s t ((sock, p) ∷ es) e (own, all) = (e.kept p sock own, AllOwned-kept s t es e all)

pub Backed-AllOwned :
    (heap : ℕ → Option SocketObject) (m : List (ℕ × ℕ)) → Backed heap m → AllOwned heap m
Backed-AllOwned heap [] b = tt
Backed-AllOwned heap ((sock, p) ∷ m) (own, new, b) = (own, Backed-AllOwned heap m b)

-- What a map gives is a live object of that socket.
pub Backed-lookup :
    (heap : ℕ → Option SocketObject) (m : List (ℕ × ℕ)) (sock p : ℕ)
    → Backed heap m
    → FdMap.lookup sock m ≡ some p
    → Owned heap p sock
unfolding FdMap.lookup
Backed-lookup heap [] sock p b e = ground arith
Backed-lookup heap ((j, q) ∷ m) sock p ((o, live, own), new, b) e = elim (Bool-cases (j == sock)) [
  | inl same ↦ (o, ground (arith, ==_iff j sock), ground (arith, ==_iff j sock))
  | inr other ↦ Backed-lookup heap m sock p b (ground arith)
]

module _ {S : Type 0} (es : List (ℕ × ℕ)) where
  Returned-bind :
      {A B : Type 0} (f : A → M S B) (s : State S) (r : Result (A × State S))
      → Returned s r
      → ((a : A) (t : State S) → Evolves s t → Returned t (f a t))
      → Returned s (elim r [ ok (a, t) ↦ f a t | fault e ↦ fault e ])
  Returned-bind f s r (a, t, runs, e) next =
      let (b, u, later, e') = next a t e in
      subst (λ r. Returned s (elim r [ ok (a, t) ↦ f a t | fault e ↦ fault e ])) (sym runs)
        (
          b,
          u,
          later,
          record { formed = e'.formed; kept = λ p sock o. e'.kept p sock (e.kept p sock o) },
        )

  pub Total-bind :
      {A B : Type 0} (m : M S A) (f : A → M S B)
      → Total es m
      → ((a : A) → Total es (f a))
      → Total es (m >>= f)
  Total-bind m f km kf = record {
    at = λ s w all.
        Returned-bind f s (m s) (km.at s w all)
          λ a t e. (kf a).at t e.formed (AllOwned-kept s t es e all);
  }

  pub Total-pure : {A : Type 0} (a : A) → Total {S = S} es (pure a)
  Total-pure a = record { at = λ s w all. (a, s, refl, (Safe-pure a).at s w) }

  pub Total-get_mgr : Total {S = S} es get_mgr
  Total-get_mgr = record { at = λ s w all. (s.mgr, s, refl, Safe-get_mgr.at s w) }

  pub Total-put_mgr :
      (f : Manager → Manager)
      → ((m : Manager) → (f m).sock_object_map ≡ m.sock_object_map)
      → Total {S = S} es (put_mgr f)
  Total-put_mgr f same = record { at = λ s w all. (tt, _, refl, (Safe-put_mgr f same).at s w) }

  pub Total-sys : (k : Kernel) (c : Call) → is_plain c ≡ true → Total {S = S} es (sys k c)
  unfolding sys
  Total-sys k c plain = record { at = λ s w all. (_, _, refl, (Safe-sys k c plain).at s w) }

  pub Total-if :
      {A : Type 0} (b : Bool) (m n : M S A)
      → Total es m
      → Total es n
      → Total es (if b then m else n)
  Total-if true m n km kn = km
  Total-if false m n km kn = kn

module _ {S A : Type 0} where
  pub Total-rest : (e : ℕ × ℕ) (es : List (ℕ × ℕ)) (m : M S A) → Total es m → Total (e ∷ es) m
  Total-rest (sock, p) es m k = record { at = λ s w all. k.at s w all.1 }

  pub Total-first :
      (e : ℕ × ℕ) (es : List (ℕ × ℕ)) (m : M S A) → Total (e ∷ []) m → Total (e ∷ es) m
  Total-first (sock, p) es m k = record { at = λ s w all. k.at s w (all.0, tt) }

  pub Total-load :
      (sock p : ℕ) (es : List (ℕ × ℕ)) (f : SocketObject → M S A)
      → ((o : SocketObject) → o.socket_id ≡ sock → Total ((sock, p) ∷ es) (f o))
      → Total ((sock, p) ∷ es) (load p >>= f)
  Total-load sock p es f k = record {
    at = λ s w ((o, live, own), all).
        subst (λ r. Returned s (elim r [ ok (a, t) ↦ f a t | fault e ↦ fault e ]))
          (sym (load_runs p o s live)) ((k o own).at s w ((o, live, own), all));
  }

  pub Total-defined :
      {B : Type 0} (es : List (ℕ × ℕ)) (x : Option B) (f : B → M S A)
      → (b : B) × (x ≡ some b)
      → ((b : B) → x ≡ some b → Total es (f b))
      → Total es (defined x >>= f)
  Total-defined es none f (b, e) k = ground arith
  Total-defined es (some b) f given k = record { at = λ s w all. (k b refl).at s w all }

  -- The socket is looked up: what is found is a live object of it.
  pub Total-find :
      (sock : ℕ) (f : Option ℕ → M S A)
      → Total [] (f none)
      → ((p : ℕ) → Total ((sock, p) ∷ []) (f (some p)))
      → Total [] (find_socket_object sock >>= f)
  unfolding find_socket_object
  Total-find sock f kn ks = record {
    at = λ s w all. elim (Option-cases (FdMap.lookup sock s.mgr.sock_object_map)) [
      | inl out ↦ rw out (kn.at s w tt)
      | inr (p, found) ↦
          rw found
            ((ks p).at s w (Backed-lookup s.heap s.mgr.sock_object_map sock p w.backed found, tt))
    ];
  }

pub Total-store :
    {S : Type 0} (sock p : ℕ) (es : List (ℕ × ℕ)) (o : SocketObject)
    → o.socket_id ≡ sock
    → Total {S = S} ((sock, p) ∷ es) (store p o)
Total-store sock p es o same = record {
  at = λ s w ((old, live, own), all).
      (tt, _, store_runs p o old s live, store-Evolves p sock o s w (old, live, own) same);
}
