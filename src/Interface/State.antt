-- ===== src/Interface/State.antt =====
-- The tables of CuteIPCInterfacePrivate, and the functions of src/CuteIPCInterface.cpp that keep them.
-- An object is a number, and 0 the null pointer. A QMultiHash is the list of its entries, the last one
-- inserted first, which is the order of values().
use cute_ipc.Prelude.{ℕ, Bool, false, ◌&&◌, ◌||◌, List, [], ◌∷◌, ◌++◌, Option, ◌==◌, if◌then◌else◌}
use cute_ipc.Prelude.Result.{Result, ok, ◌>>=◌}
use cute_ipc.Prelude.Text.{Text, Bytes, same, before_paren}
use cute_ipc.Qt.{Qt}
use cute_ipc.MetaObjects.{MetaObjects}
use cute_ipc.Message.{Datum, GenericArgument}
use cute_ipc.SignalHandler.{SignalHandler, new_handler, set_signal_parameters_info, relay_slot}
use cute_ipc.ServiceConnection.{fill_arguments}

-- MethodData: an object and the signature of one of its methods.
pub record MethodData : Type 0 where
  pub object : ℕ
  pub method : Text

unfoldable pub same_data : MethodData → MethodData → Bool
same_data a b = (a.object == b.object) && same a.method b.method

-- A queued call of QMetaObject::invokeMethod.
pub record Invocation (V I : Type 0) : Type 0 where
  pub receiver : ℕ
  pub method : Text
  pub arguments : List (GenericArgument V I)

-- `local_server` is empty, and `tcp_address` `none`, until a server was connected to. `requests` are
-- the requests handed to the worker, `invocations` the calls queued for local objects, in order.
pub record Interface (V I : Type 0) : Type 0 where
  pub local_signal_handlers : List (MethodData × SignalHandler)
  pub last_error : Text
  pub local_server : Text
  pub tcp_address : Option (ℕ × ℕ)
  pub connections : List (Text × MethodData)
  pub requests : List Bytes
  pub invocations : List (Invocation V I)

module _ {V I : Type 0} where
  -- _q_setLastError
  unfoldable pub set_last_error : Text → Interface V I → Interface V I
  set_last_error error d = record d { last_error = error }

  -- _q_sendAsynchronousRequest: the worker's sendCallRequest, queued
  unfoldable pub send_asynchronous_request : Bytes → Interface V I → Interface V I
  send_asynchronous_request request d = record d { requests = d.requests ++ request ∷ [] }

  -- registerConnection
  unfoldable pub register_connection : Text → ℕ → Text → Interface V I → Interface V I
  register_connection signal receiver method d = record d {
    connections = (signal, record { object = receiver; method = method }) ∷ d.connections;
  }

-- m_connections.contains(signal)
unfoldable pub has_connection : Text → List (Text × MethodData) → Bool
has_connection signal [] = false
has_connection signal ((s, m) ∷ cs) = same s signal || has_connection signal cs

-- m_connections.values(signal)
unfoldable pub receivers : Text → List (Text × MethodData) → List MethodData
receivers signal [] = []
receivers signal ((s, m) ∷ cs) =
    let rest = receivers signal cs in if same s signal then m ∷ rest else rest

-- m_connections.remove(signal, data)
unfoldable pub remove_connection :
    Text → MethodData → List (Text × MethodData) → List (Text × MethodData)
remove_connection signal m [] = []
remove_connection signal m ((s, n) ∷ cs) =
    let rest = remove_connection signal m cs in
    if same s signal && same_data n m then rest else (s, n) ∷ rest

-- The iterator of _q_removeRemoteConnectionsOfObject.
unfoldable pub remove_object : ℕ → List (Text × MethodData) → List (Text × MethodData)
remove_object object [] = []
remove_object object ((s, m) ∷ cs) =
    let rest = remove_object object cs in if m.object == object then rest else (s, m) ∷ rest

-- The iterator of _q_removeSignalHandlersOfObject.
unfoldable pub remove_handlers_of :
    ℕ → List (MethodData × SignalHandler) → List (MethodData × SignalHandler)
remove_handlers_of object [] = []
remove_handlers_of object ((m, h) ∷ hs) =
    let rest = remove_handlers_of object hs in if m.object == object then rest else (m, h) ∷ rest

-- Whether m_localSignalHandlers.values(data) has a handler of that signature.
unfoldable pub has_handler : MethodData → Text → List (MethodData × SignalHandler) → Bool
has_handler m signature [] = false
has_handler m signature ((n, h) ∷ hs) =
    same_data n m && same h.signature signature || has_handler m signature hs

-- The loop of disconnectSlot and disconnectRemoteMethod: each handler of that signature is deleted.
unfoldable pub delete_handlers :
    MethodData → Text → List (MethodData × SignalHandler) → List (MethodData × SignalHandler)
delete_handlers m signature [] = []
delete_handlers m signature ((n, h) ∷ hs) =
    let rest = delete_handlers m signature hs in
    if same_data n m && same h.signature signature then rest else (n, h) ∷ rest

module _ {V I : Type 0} where
  unfoldable pub remove_remote_connections_of_object : ℕ → Interface V I → Interface V I
  remove_remote_connections_of_object object d = record d {
    connections = remove_object object d.connections;
  }

  unfoldable pub remove_signal_handlers_of_object : ℕ → Interface V I → Interface V I
  remove_signal_handlers_of_object object d = record d {
    local_signal_handlers = remove_handlers_of object d.local_signal_handlers;
  }

module _ {V I W : Type 0} (q : Qt V I) (o : MetaObjects V I W) where
  -- handleLocalSignalRequest
  unfoldable pub handle_local_signal_request : ℕ → Text → Text → Interface V I → Interface V I
  handle_local_signal_request object signal slot d =
      let data' : MethodData = record { object = object; method = signal } in
      let handler = set_signal_parameters_info q o object signal (new_handler slot) in
      if has_handler data' slot d.local_signal_handlers
      then d
      else record d { local_signal_handlers = (data', handler) ∷ d.local_signal_handlers }

  -- The loop of _q_invokeRemoteSignal over the receivers. A null receiver ends it, and invokeMethod
  -- queues no call of a method that it does not find.
  unfoldable pub queue_invocations :
      List MethodData → List (GenericArgument V I) → List (Invocation V I)
  queue_invocations [] arguments = []
  queue_invocations (m ∷ ms) arguments =
      let rest = queue_invocations ms arguments in
      let name = q.to_latin1 (before_paren m.method) in
      let args = fill_arguments arguments in
      if m.object == 0
      then []
      else if o.can_invoke m.object name args
      then record { receiver = m.object; method = name; arguments = args } ∷ rest
      else rest

  -- _q_invokeRemoteSignal
  unfoldable pub invoke_remote_signal :
      Text → List (GenericArgument V I) → Interface V I → Interface V I
  invoke_remote_signal signal arguments d = record d {
    invocations = d.invocations ++ queue_invocations (receivers signal d.connections) arguments;
  }

  -- A local object emits a signal: each handler connected to it captures it, and what it captured
  -- becomes an asynchronous request. `parent` is the interface, the handlers' parent.
  unfoldable pub capture :
      ℕ → MethodData → List (Datum V I) → List (MethodData × SignalHandler) → Result (List Bytes)
  capture parent m values [] = ok []
  capture parent m values ((n, h) ∷ hs) =
      let rest = capture parent m values hs in
      if same_data n m
      then relay_slot q o parent values h
        >>= (λ (h', bytes). rest >>= λ more. ok (more ++ bytes ∷ []))
      else rest

  unfoldable pub local_object_emits :
      ℕ → MethodData → List (Datum V I) → Interface V I → Result (Interface V I)
  local_object_emits parent m values d = capture parent m values d.local_signal_handlers >>= λ bs.
      ok (record d { requests = d.requests ++ bs })
