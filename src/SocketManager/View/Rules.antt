-- ===== src/SocketManager/View/Rules.antt =====
-- Rules for code that leaves the objects of a manager alone, or changes one of them.
use light_server.Base.{
  ℕ, ◌≡◌, refl, ◌∙◌, Bool, true, false, Option, none, some, ◌==◌, if◌then◌else◌, arith, Bool-cases,
  Option-cases, inl, inr, ==_iff,
}
use light_server.SocketObject.{SocketObject}
use light_server.Machine.{
  Call, Kernel, Manager, Result, ok, fault, State, update, M, ◌>>=◌, ◌>>◌, pure, get_mgr, put_mgr,
  defined, load, store, sys,
}
use light_server.SocketManager.FdMap
use light_server.SocketManager.Objects.{find_socket_object}
use light_server.SocketManager.WellFormed.{WellFormed, After}
use light_server.SocketManager.WellFormed.Rules.{load_runs, load_fails, store_runs}
use light_server.SocketManager.Reachable.Returning.{Backed-lookup}

abbrev pub Table : Type 0
Table = ℕ → Option SocketObject

-- What a state holds for a socket.
unfoldable pub table : {S : Type 0} → State S → Table
table s sock = elim (FdMap.lookup sock s.mgr.sock_object_map) [ none ↦ none | some p ↦ s.heap p ]

-- `f` for the object of `sock`, if it is a valid member.
abbrev pub on_member : ℕ → (SocketObject → SocketObject) → Table → Table
on_member sock f v j =
    if sock == j
    then elim (v j) [ none ↦ none | some o ↦ some (if o.f_valid then f o else o) ]
    else v j

-- The objects and the map are as they were.
pub record Same {S : Type 0} (s t : State S) : Type 0 where
  pub heap : t.heap ≡ s.heap
  pub map : t.mgr.sock_object_map ≡ s.mgr.sock_object_map

pub record Still {S A : Type 0} (m : M S A) : Type 0 where
  pub at : (s : State S) → After (Same s) (m s)

-- `m`, where `o` stands at `p`, leaves `g` there, and everything else as it was.
pub record Placed {S : Type 0} (p : ℕ) (g : SocketObject) (s t : State S) : Type 0 where
  pub heap : (q : ℕ) → t.heap q ≡ (if p == q then some g else s.heap q)
  pub map : t.mgr.sock_object_map ≡ s.mgr.sock_object_map

pub record Changes {S A : Type 0} (p : ℕ) (o g : SocketObject) (m : M S A) : Type 0 where
  pub at : (s : State S) → s.heap p ≡ some o → After (Placed p g s) (m s)

-- `m` does to the table what `f` does.
pub record Becomes {S A : Type 0} (f : Table → Table) (m : M S A) : Type 0 where
  pub at : (s : State S) → WellFormed s → After (λ t. (j : ℕ) → table t j ≡ f (table s) j) (m s)

module _ {S : Type 0} where
  pub After-bind :
      {A B : Type 0} (P Q : State S → Type 0) (f : A → M S B) (r : Result (A × State S))
      → After P r
      → ((a : A) (t : State S) → P t → After Q (f a t))
      → After Q (elim r [ ok (a, t) ↦ f a t | fault e ↦ fault e ])
  After-bind P Q f (ok (a, t)) h k = k a t h
  After-bind P Q f (fault e) h k = tt

  After-mono :
      {A : Type 0} (P Q : State S → Type 0) (r : Result (A × State S))
      → After P r
      → ((t : State S) → P t → Q t)
      → After Q r
  After-mono P Q (ok (a, t)) h k = k t h
  After-mono P Q (fault e) h k = tt

  pub Still-bind :
      {A B : Type 0} (m : M S A) (f : A → M S B)
      → Still m
      → ((a : A) → Still (f a))
      → Still (m >>= f)
  Still-bind m f km kf = record {
    at = λ s. After-bind _ _ f (m s) (km.at s) λ a t same.
        After-mono _ _ (f a t) ((kf a).at t)
          λ u later. record { heap = later.heap ∙ same.heap; map = later.map ∙ same.map };
  }

  pub Still-pure : {A : Type 0} (a : A) → Still {S = S} (pure a)
  Still-pure a = record { at = λ s. record { heap = refl; map = refl } }

  pub Still-get_mgr : Still {S = S} get_mgr
  Still-get_mgr = record { at = λ s. record { heap = refl; map = refl } }

  pub Still-put_mgr :
      (f : Manager → Manager)
      → ((m : Manager) → (f m).sock_object_map ≡ m.sock_object_map)
      → Still {S = S} (put_mgr f)
  Still-put_mgr f same = record { at = λ s. record { heap = refl; map = same s.mgr } }

  pub Still-sys : (k : Kernel) (c : Call) → Still {S = S} (sys k c)
  unfolding sys
  Still-sys k c = record { at = λ s. record { heap = refl; map = refl } }

  pub Still-if :
      {A : Type 0} (b : Bool) (m n : M S A) → Still m → Still n → Still (if b then m else n)
  Still-if true m n km kn = km
  Still-if false m n km kn = kn

  pub Still-load : (p : ℕ) → Still {S = S} (load p)
  Still-load p = record {
    at = λ s. elim (Option-cases (s.heap p)) [
      | inl dead ↦ rw (load_fails p s dead, After) tt
      | inr (o, live) ↦ rw (load_runs p o s live, After) (record { heap = refl; map = refl })
    ];
  }

  pub Changes-load :
      {A : Type 0} (p : ℕ) (o g : SocketObject) (f : SocketObject → M S A)
      → Changes p o g (f o)
      → Changes p o g (load p >>= f)
  Changes-load p o g f k = record { at = λ s live. rw (load_runs p o s live, After) (k.at s live) }

  pub Changes-if :
      {A : Type 0} (p : ℕ) (o g h : SocketObject) (b : Bool) (m n : M S A)
      → Changes p o g m
      → Changes p o h n
      → Changes p o (if b then g else h) (if b then m else n)
  Changes-if p o g h true m n km kn = km
  Changes-if p o g h false m n km kn = kn

  pub Changes-defined :
      {A B : Type 0} (p : ℕ) (o g : SocketObject) (x : Option A) (f : A → M S B)
      → ((a : A) → x ≡ some a → Changes p o g (f a))
      → Changes p o g (defined x >>= f)
  Changes-defined p o g none f k = record { at = λ s live. tt }
  Changes-defined p o g (some a) f k = k a refl

  pub Changes-Still :
      {A : Type 0} (p : ℕ) (o : SocketObject) (m : M S A) → Still m → Changes p o o m
  Changes-Still p o m km = record {
    at = λ s live.
        After-mono _ _ (m s) (km.at s)
          λ t same. record { heap = λ q. ground (arith, same.heap, ==_iff p q); map = same.map };
  }

  pub Changes-store : (p : ℕ) (o g : SocketObject) → Changes {S = S} p o g (store p g)
  Changes-store p o g = record {
    at = λ s live. rw (store_runs p g o s live, After) (record { heap = λ q. refl; map = refl });
  }

  pub Changes-store-then :
      {A : Type 0} (p : ℕ) (o g : SocketObject) (m : M S A)
      → Still m
      → Changes p o g (store p g >> m)
  Changes-store-then p o g m km = record {
    at = λ s live.
        rw (store_runs p g o s live, After)
          (After-mono _ _ (m (record s { heap = update s.heap p (some g) })) (km.at _)
            λ t same. record { heap = λ q. ground (arith, same.heap); map = same.map });
  }

  pub Becomes-Still : {A : Type 0} (m : M S A) → Still m → Becomes (λ v. v) m
  unfolding table
  Becomes-Still m km = record {
    at = λ s w. After-mono _ _ (m s) (km.at s) λ t same j. ground (arith, same.heap, same.map);
  }

  -- What a change of one object is to the table: no other socket has that object.
  changed_table :
      (sock p : ℕ) (g : SocketObject → SocketObject) (o : SocketObject) (s t : State S)
      → WellFormed s
      → FdMap.lookup sock s.mgr.sock_object_map ≡ some p
      → s.heap p ≡ some o
      → Placed p (if o.f_valid then g o else o) s t
      → (j : ℕ) → table t j ≡ on_member sock g (table s) j
  unfolding table
  changed_table sock p g o s t w found live placed j =
      elim (Option-cases (FdMap.lookup j s.mgr.sock_object_map)) [
        | inl out ↦ ground (arith, ==_iff sock j, placed.map, out, found)
        | inr (q, at_q) ↦
            let (y, live_q, own_q) = Backed-lookup s.heap s.mgr.sock_object_map j q w.backed at_q in
            let (x, live_p, own_p) =
              Backed-lookup s.heap s.mgr.sock_object_map sock p w.backed found in
            elim (Bool-cases (p == q)) [
              | inl same ↦ ground (arith, ==_iff p q, ==_iff sock j, placed.map, placed.heap q)
              | inr other ↦ ground (arith, ==_iff p q, ==_iff sock j, placed.map, placed.heap q)
            ]
      ]

  unchanged_table :
      (sock : ℕ) (g : SocketObject → SocketObject) (s t : State S)
      → FdMap.lookup sock s.mgr.sock_object_map ≡ none
      → Same s t
      → (j : ℕ) → table t j ≡ on_member sock g (table s) j
  unfolding table
  unchanged_table sock g s t out same j = ground (arith, ==_iff sock j, same.heap, same.map)

  -- An operation on the object that is found for a socket.
  pub Becomes-find :
      {A : Type 0} (sock : ℕ) (g : SocketObject → SocketObject) (f : Option ℕ → M S A)
      → Still (f none)
      → ((p : ℕ) (o : SocketObject) → Changes p o (if o.f_valid then g o else o) (f (some p)))
      → Becomes (on_member sock g) (find_socket_object sock >>= f)
  unfolding find_socket_object
  Becomes-find sock g f kn ks = record {
    at = λ s w. elim (Option-cases (FdMap.lookup sock s.mgr.sock_object_map)) [
      | inl out ↦
          rw out (After-mono _ _ (f none s) (kn.at s) λ t same. unchanged_table sock g s t out same)
      | inr (p, found) ↦
          let (o, live, own) = Backed-lookup s.heap s.mgr.sock_object_map sock p w.backed found in
          rw found (
            After-mono _ _ (f (some p) s) ((ks p o).at s live)
              λ t placed. changed_table sock p g o s t w found live placed)
    ];
  }
