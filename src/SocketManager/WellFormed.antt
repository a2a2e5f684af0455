-- ===== src/SocketManager/WellFormed.antt =====
-- What holds of the socket map of a `SocketManager` and of the objects on the heap between two steps,
-- and the rules for code that keeps it. socket_manager/socket_manager.cpp.
pub mod Rules
pub mod Calls
pub mod Removing
pub mod Adding
pub mod Looping
use light_server.Base.{
  ℕ, ◌≤◌, ◌<◌, ◌≡◌, refl, ◌≢◌, Bool, true, false, not, ◌==◌, Option, none, some, List, [], ◌∷◌,
  if◌then◌else◌, arith,
}
use light_server.SocketObject.{SocketObject}
use light_server.Machine.{
  Pvoid, null, object, cmd_evt, exit_evt, timer_evt, listen_sock, Call, CtlOp, Fault, Kernel,
  Manager, Result, ok, fault, State, M, update, ◌>>=◌, pure, stop, get_mgr, put_mgr, get_app,
  put_app, defined, load, store, sys,
}
use light_server.SocketManager.FdMap
use light_server.SocketManager.Objects.{with_valid}

-- The object at `p` is live and has the socket `sock`.
abbrev pub Owned : (ℕ → Option SocketObject) → ℕ → ℕ → Type 0
Owned heap p sock = (o : SocketObject) × (heap p ≡ some o) × (o.socket_id ≡ sock)

-- Every entry of a map is a live object of its own socket, and no key stands twice.
abbrev pub Backed : (ℕ → Option SocketObject) → List (ℕ × ℕ) → Type 0
Backed heap [] = Unit {0}
Backed heap ((sock, p) ∷ m) = Owned heap p sock × (FdMap.lookup sock m ≡ none) × Backed heap m

-- What the calls of `epoll_ctl` registered last for a descriptor; null where it was deleted since, or
-- was never added.
abbrev pub registers : CtlOp → Pvoid → Pvoid
registers CtlOp.del pv = null
registers _ pv = pv

abbrev pub registered : List Call → ℕ → Pvoid
registered [] fd = null
registered (Call.epoll_ctl op fd' mask pv ∷ t) fd =
    if fd' == fd then registers op pv else registered t fd
registered (_ ∷ t) fd = registered t fd

-- A call that registers no object.
abbrev pub is_object : Pvoid → Bool
is_object (object p) = true
is_object _ = false

abbrev pub is_plain : Call → Bool
is_plain (Call.epoll_ctl op fd mask pv) = not (is_object (registers op pv))
is_plain _ = true

-- No object is registered in `u` that is not in `t`.
abbrev pub NoneNew : List Call → List Call → Type 0
NoneNew t u = (fd p : ℕ) → registered u fd ≡ object p → registered t fd ≡ object p

pub NoneNew-plain : (c : Call) (t : List Call) → is_plain c ≡ true → NoneNew t (c ∷ t)
NoneNew-plain (Call.epoll_ctl op fd' mask pv) t plain fd p e = ground arith
NoneNew-plain Call.epoll_create t plain fd p e = e
NoneNew-plain _ t plain fd p e = e

-- The manager's map and objects, and what is registered with epoll: an object only under the socket
-- under which the map has it.
pub record WellFormed {S : Type 0} (s : State S) : Type 0 where
  pub backed : Backed s.heap s.mgr.sock_object_map
  pub unused : (p : ℕ) → s.next ≤ p → s.heap p ≡ none
  pub enrolled :
      (fd p : ℕ) → registered s.trace fd ≡ object p → FdMap.lookup fd s.mgr.sock_object_map ≡ some p

-- What a step of the program does to a state: it stays well formed, and each live object stays live
-- and keeps its socket.
pub record Evolves {S : Type 0} (s s' : State S) : Type 0 where
  pub formed : WellFormed s'
  pub kept : (p sock : ℕ) → Owned s.heap p sock → Owned s'.heap p sock

-- What holds of the state behind a run that returns.
abbrev pub After {ℓ} :
    {S : Type 0} {A : Type 0} → (State S → Type ℓ) → Result (A × State S) → Type ℓ
After P (ok (a, s)) = P s
After P (fault e) = Unit

-- `m` keeps the state well formed.
pub record Keeps {S A : Type 0} (m : M S A) : Type 0 where
  pub at : (s : State S) → WellFormed s → After WellFormed (m s)

-- `m` deletes no object, too, and leaves each with its socket.
pub record Safe {S A : Type 0} (m : M S A) : Type 0 where
  pub at : (s : State S) → WellFormed s → After (Evolves s) (m s)

-- The same for code that runs while the object at `p` is live and has the socket `sock`.
pub record SafeAt {S A : Type 0} (p sock : ℕ) (m : M S A) : Type 0 where
  pub at : (s : State S) → WellFormed s → Owned s.heap p sock → After (Evolves s) (m s)

Evolves-refl : {S : Type 0} (s : State S) → WellFormed s → Evolves s s
Evolves-refl s w = record { formed = w; kept = λ p sock h. h }

module _ {S A B : Type 0} (f : A → M S B) where
  then-Keeps :
      (r : Result (A × State S))
      → After WellFormed r
      → ((a : A) → Keeps (f a))
      → After WellFormed (elim r [ ok (a, s') ↦ f a s' | fault e ↦ fault e ])
  then-Keeps (ok (a, s)) w k = (k a).at s w
  then-Keeps (fault e) w k = tt

  weaken :
      (s t : State S)
      → Evolves s t
      → (r : Result (B × State S)) → After (Evolves t) r
      → After (Evolves s) r
  weaken s t e (ok (b, u)) h = record {
    formed = h.formed;
    kept = λ p sock o. h.kept p sock (e.kept p sock o);
  }
  weaken s t e (fault x) h = tt

  pub then-Safe :
      (s : State S) (r : Result (A × State S))
      → After (Evolves s) r
      → ((a : A) → Safe (f a))
      → After (Evolves s) (elim r [ ok (a, s') ↦ f a s' | fault e ↦ fault e ])
  then-Safe s (ok (a, t)) e k = weaken s t e (f a t) ((k a).at t e.formed)
  then-Safe s (fault x) e k = tt

  then-SafeAt :
      (p sock : ℕ) (s : State S)
      → Owned s.heap p sock
      → (r : Result (A × State S)) → After (Evolves s) r
      → ((a : A) → SafeAt p sock (f a))
      → After (Evolves s) (elim r [ ok (a, s') ↦ f a s' | fault e ↦ fault e ])
  then-SafeAt p sock s o (ok (a, t)) e k =
      weaken s t e (f a t) ((k a).at t e.formed (e.kept p sock o))
  then-SafeAt p sock s o (fault x) e k = tt

module _ {S A B : Type 0} (m : M S A) (f : A → M S B) where
  pub Keeps-bind : Keeps m → ((a : A) → Keeps (f a)) → Keeps (m >>= f)
  Keeps-bind k kf = record { at = λ s w. then-Keeps f (m s) (k.at s w) kf }

  pub Safe-bind : Safe m → ((a : A) → Safe (f a)) → Safe (m >>= f)
  Safe-bind k kf = record { at = λ s w. then-Safe f s (m s) (k.at s w) kf }

  pub SafeAt-bind :
      (p sock : ℕ) → Safe m → ((a : A) → SafeAt p sock (f a)) → SafeAt p sock (m >>= f)
  SafeAt-bind p sock k kf = record { at = λ s w o. then-SafeAt f p sock s o (m s) (k.at s w) kf }
