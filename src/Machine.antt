-- ===== src/Machine.antt =====
-- The process that the classes run in: its memory, the system calls that it has made, and the monad
-- of code that may stop. The kernel is a parameter: it answers a call from the calls made so far.
use light_server.Base.{ℕ, suc, Bool, Option, none, some, List, ◌∷◌, ◌==◌, if◌then◌else◌}
use light_server.Common.{Sockaddr}
use light_server.SocketObject.{SocketObject}

-- `void*` as it is registered with epoll: the address of a member, or of a `SocketObject`.
pub data Pvoid : Type 0 where
  null cmd_evt exit_evt timer_evt listen_sock : Pvoid
  object : ℕ → Pvoid

pub record Timespec : Type 0 where
  pub tv_sec : ℕ
  pub tv_nsec : ℕ

pub record Itimerspec : Type 0 where
  pub it_value : Timespec
  pub it_interval : Timespec

pub data CtlOp : Type 0 where
  add mod_fd del : CtlOp

-- The system calls of the program, with the arguments that matter.
pub data Call : Type 0 where
  epoll_create epoll_wait clock_gettime timerfd_create usleep pthread_create : Call
  eventfd : Call
  timerfd_settime : ℕ → Itimerspec → Call
  epoll_ctl : CtlOp → ℕ → ℕ → Pvoid → Call
  eventfd_write pthread_join close shutdown accept fcntl_getfl : ℕ → Call
  fcntl_setfl setsockopt listen read recvfrom : ℕ → ℕ → Call
  getsockopt : ℕ → Call
  socket : ℕ → Call
  connect bind : ℕ → Sockaddr → Call
  write : ℕ → List ℕ → Call
  sendto : ℕ → List ℕ → Option Sockaddr → Call

-- What a call gives back: its value as an `int`, `errno`, and what it wrote through its pointers.
pub record Answer : Type 0 where
  pub ret : ℕ
  pub errno : ℕ
  pub value : ℕ
  pub time : Timespec
  pub bytes : List ℕ
  pub addr : Sockaddr
  pub events : List (Pvoid × ℕ)

-- `rounds` bounds the rounds of a loop that only an answer of the kernel ends.
pub record Kernel : Type 0 where
  pub answer : List Call → Answer
  pub memory : ℕ → SocketObject
  pub rounds : ℕ

pub data Fault : Type 0 where
  undefined_behaviour failed_assertion out_of_rounds : Fault

pub data Result {ℓ} (A : Type ℓ) : Type ℓ where
  ok : A → Result A
  fault : Fault → Result A

pub data Command : Type 0 where
  send disconnect shutdown_cmd other : ℕ → Command

-- `SocketManager`. The map is in key order, and holds the addresses of the socket objects.
pub record Manager : Type 0 where
  pub sock_object_map : List (ℕ × ℕ)
  pub epoll_fd : ℕ
  pub exit_evt_fd : ℕ
  pub cmd_evt_fd : ℕ
  pub timer_evt_fd : ℕ
  pub max_events : ℕ
  pub work_thread_id : ℕ
  pub cmd_queue : List Command
  pub io_handler : Bool

-- The heap gives the live socket objects; `next` and above were never used. `app` is the object
-- that owns the manager. The newest call stands first.
pub record State (S : Type 0) : Type 0 where
  pub heap : ℕ → Option SocketObject
  pub next : ℕ
  pub mgr : Manager
  pub app : S
  pub trace : List Call

abbrev pub M : Type 0 → Type 0 → Type 0
M S A = State S → Result (A × State S)

abbrev pub update : (ℕ → Option SocketObject) → ℕ → Option SocketObject → ℕ → Option SocketObject
update h a v b = if a == b then v else h b

module _ {S : Type 0} where
  infixl 5 ◌>>=◌ ◌>>◌
  abbrev pub ◌>>=◌ : {A B : Type 0} → M S A → (A → M S B) → M S B
  ◌>>=◌ m f s = elim (m s) [ ok (a, s') ↦ f a s' | fault e ↦ fault e ]

  abbrev pub ◌>>◌ : {A B : Type 0} → M S A → M S B → M S B
  m >> k = m >>= λ _. k

  abbrev pub pure : {A : Type 0} → A → M S A
  pure a s = ok (a, s)

  abbrev pub stop : {A : Type 0} → Fault → M S A
  stop e s = fault e

  abbrev pub get_mgr : M S Manager
  get_mgr s = ok (s.mgr, s)

  abbrev pub put_mgr : (Manager → Manager) → M S (Unit {0})
  put_mgr f s = ok (tt, record s { mgr = f s.mgr })

  abbrev pub get_app : M S S
  get_app s = ok (s.app, s)

  abbrev pub put_app : (S → S) → M S (Unit {0})
  put_app f s = ok (tt, record s { app = f s.app })

  -- An expression whose value is undefined where it is `none`.
  abbrev pub defined : {A : Type 0} → Option A → M S A
  defined none s = fault Fault.undefined_behaviour
  defined (some a) s = ok (a, s)

  -- Reading and assigning `*p`: a dangling pointer is undefined behaviour.
  unfoldable pub load : ℕ → M S SocketObject
  load a s = elim (s.heap a) [ none ↦ fault Fault.undefined_behaviour | some o ↦ ok (o, s) ]

  unfoldable pub store : ℕ → SocketObject → M S (Unit {0})
  store a o s = elim (s.heap a) [
    | none ↦ fault Fault.undefined_behaviour
    | some _ ↦ ok (tt, record s { heap = update s.heap a (some o) })
  ]

  -- `delete p`
  unfoldable pub free : ℕ → M S (Unit {0})
  free a s = elim (s.heap a) [
    | none ↦ fault Fault.undefined_behaviour
    | some _ ↦ ok (tt, record s { heap = update s.heap a none })
  ]

  -- `new`: the object stands at an address that was never used.
  unfoldable pub alloc : SocketObject → M S ℕ
  alloc o s = ok (s.next, record s { heap = update s.heap s.next (some o); next = suc s.next })

  module _ (k : Kernel) where
    unfoldable pub sys : Call → M S Answer
    sys c s = let t = c ∷ s.trace in ok (k.answer t, record s { trace = t })
