-- ===== src/SocketManager/Objects.antt =====
-- The socket objects of a `SocketManager`: its map, the objects on the heap, the command queue, and
-- what it calls back. socket_manager/socket_manager.cpp.
use light_server.Base.{
  ℕ, ◌+◌, Bool, true, false, not, Option, none, some, List, [], ◌∷◌, ◌++◌, ◌==◌, if◌then◌else◌,
}
use light_server.Common.{minus_one, epollin, epollout, epollet}
use light_server.SocketObject.{SocketObject, construct, set_socket_id, set_valid, set_invalid}
use light_server.Machine.{
  Pvoid, null, object, Call, Fault, Kernel, Manager, Command, M, ◌>>=◌, ◌>>◌, pure, stop, get_mgr,
  put_mgr, load, store, free, alloc, sys,
}
use light_server.SocketManager.FdMap
use light_server.SocketManager.Descriptors.{has_start, add_fd, delete_fd}

-- `IIOHandler`: what the manager calls. Every function may change the whole state.
pub record IoHandler (S : Type 0) : Type 0 where
  pub on_timer : ℕ → M S (Unit {0})
  pub on_before_process_io : Pvoid → ℕ → M S Bool
  pub on_after_process_io : Pvoid → ℕ → Bool → M S (Unit {0})
  pub on_ready_read : Pvoid → ℕ → M S Bool
  pub on_ready_write : Pvoid → ℕ → M S Bool
  pub on_connect : ℕ → M S (Unit {0})
  pub on_disconnect : ℕ → M S (Unit {0})

-- A call through `io_handler_`, which only `Start` assigns.
abbrev pub call_handler : {S A : Type 0} → M S A → M S A
call_handler call = do m ← get_mgr; if m.io_handler then call else stop Fault.undefined_behaviour

-- `IsValid` of a pointer that may be null
abbrev pub is_valid : {S : Type 0} → Option ℕ → M S Bool
is_valid none = pure false
is_valid (some p) = do o ← load p; pure o.f_valid

-- The cast of a `PVOID` to a `SocketObject*`, and the test of `IsInvalid`: `bad` for a null pointer
-- or an invalid object. The address of something else is undefined behaviour.
abbrev pub with_valid : {S A : Type 0} → Pvoid → A → (ℕ → SocketObject → M S A) → M S A
with_valid null bad body = pure bad
with_valid (object p) bad body = do o ← load p; if o.f_valid then body p o else pure bad
with_valid _ bad body = stop Fault.undefined_behaviour

abbrev pub push_command : Command → Manager → Manager
push_command c m = record m { cmd_queue = m.cmd_queue ++ (c ∷ []) }

unfoldable pub find_socket_object : {S : Type 0} → ℕ → M S (Option ℕ)
find_socket_object sock = do m ← get_mgr; pure (FdMap.lookup sock m.sock_object_map)

module _ (k : Kernel) {S : Type 0} where
  -- `new SocketObject()`
  unfoldable pub new_socket_object : M S ℕ
  new_socket_object s = alloc (construct (k.memory s.next)) s

  unfoldable pub trigger_cmd_event : (ℕ → Command) → ℕ → M S (Unit {0})
  trigger_cmd_event cmd fd = do
    m ← get_mgr
    if has_start m
        then (do
          put_mgr (push_command (cmd fd))
          if not (m.cmd_evt_fd == minus_one)
              then (do sys k (Call.eventfd_write m.cmd_evt_fd); pure tt)
              else pure tt)
        else pure tt

  -- `Disconnect` and `CloseSocket`
  unfoldable pub disconnect : ℕ → M S ℕ
  disconnect sock = do trigger_cmd_event Command.disconnect sock; pure 0

  unfoldable pub close_socket : ℕ → M S ℕ
  close_socket sock = do trigger_cmd_event Command.disconnect sock; pure 0

  -- The object at `p` is entered under `sock`; the result of `AddFD` is ignored.
  abbrev pub enter_object : ℕ → ℕ → M S Bool
  enter_object sock p = do
    o ← load p
    store p (set_valid (set_socket_id o sock))
    put_mgr (λ m. record m { sock_object_map = FdMap.insert sock p m.sock_object_map })
    add_fd k sock (epollin + epollout + epollet) (Pvoid.object p)
    pure true

  unfoldable pub add_socket_object : ℕ → ℕ → M S Bool
  add_socket_object sock p = do
    old ← find_socket_object sock
    elim old [ some _ ↦ pure false | none ↦ enter_object sock p ]

  -- `DeleteFD`, `close`, `delete` and `erase`, which `sock_map_mutex_` guards.
  abbrev pub drop_object : ℕ → ℕ → M S Bool
  drop_object sock p = do
    delete_fd k sock
    sys k (Call.close sock)
    free p
    put_mgr (λ m. record m { sock_object_map = FdMap.erase sock m.sock_object_map })
    pure true

  -- `ReleaseSocketObjects` deletes the objects, and leaves their descriptors open.
  unfoldable pub release_entries : List (ℕ × ℕ) → M S (Unit {0})
  release_entries [] = pure tt
  release_entries ((sock, p) ∷ rest) = do delete_fd k sock; free p; release_entries rest

  unfoldable pub release_socket_objects : M S Bool
  release_socket_objects = do
    m ← get_mgr
    release_entries m.sock_object_map
    put_mgr (λ m. record m { sock_object_map = [] })
    pure true

  module _ (h : IoHandler S) where
    abbrev pub remove_object : ℕ → M S Bool
    remove_object p = do
      o ← load p
      store p (set_invalid o)
      sys k (Call.shutdown o.socket_id)
      call_handler (h.on_disconnect o.socket_id)
      drop_object o.socket_id p

    -- A null or invalid object is refused.
    unfoldable pub remove_socket_object : Option ℕ → M S Bool
    remove_socket_object none = pure false
    remove_socket_object (some p) = do
      valid ← is_valid (some p)
      if valid then remove_object p else pure false
