-- ===== src/Interface/Request.antt =====
-- The requests of src/CuteIPCInterface.cpp. Each synchronous request opens a socket of its own and
-- waits for the answer in an event loop.
use cute_ipc.Prelude.{ℕ, Bool, false, not, List, [], ◌∷◌, Option, none, some, is_nil, if◌then◌else◌}
use cute_ipc.Prelude.Result.{Result, ok, fail, fault}
use cute_ipc.Prelude.Text.{Text, Bytes, text}
use cute_ipc.Qt.{Qt}
use cute_ipc.MetaObjects.{MetaObjects}
use cute_ipc.Message.{
  Datum, GenericArgument, message_call_with_return, message_call_without_return,
  signal_connection_request, slot_connection_request, plain, from_values, from_arguments,
}
use cute_ipc.Marshaller.Write.{marshall_message}
use cute_ipc.InterfaceConnection.{
  InterfaceConnection, Event, Arrival, error_occured, call_finished, socket_disconnected,
  invoke_remote_signal, new_connection, set_returned_object, send_call_request, wait,
}
use cute_ipc.Interface.State.{Interface, set_last_error, send_asynchronous_request}

-- A method of the interface returns, or it waits for an answer that does not come, or its behaviour
-- is undefined.
pub data Outcome (A : Type 0) : Type 0 where
  returned : A → Outcome A
  waiting undefined : Outcome A

infixl 5 ◌>>=◌
abbrev pub ◌>>=◌ : {A B : Type 0} → Outcome A → (A → Outcome B) → Outcome B
returned a >>= f = f a
waiting >>= f = waiting
undefined >>= f = undefined

-- Where a request goes: to a local server or a TCP server.
pub data Server : Type 0 where
  local_server : Text → Server
  tcp_server : ℕ → ℕ → Server

-- What the network does with a request: whether the socket is connected in time, and what
-- arrives on it.
pub record Exchange : Type 0 where
  pub connected : Bool
  pub arrivals : List Arrival

-- The caller's variable after a synchronous request, and the result of the method.
pub record Reply (V I : Type 0) : Type 0 where
  pub interface : Interface V I
  pub success : Bool
  pub stored : Option (Datum V I)

module _ {V I : Type 0} where
  -- errorOccured of the connection is connected to _q_setLastError.
  unfoldable pub report : List (Event V I) → Interface V I → Interface V I
  report [] d = d
  report (error_occured t ∷ es) d = report es (set_last_error t d)
  report (call_finished ∷ es) d = report es d
  report (socket_disconnected ∷ es) d = report es d
  report (invoke_remote_signal t args ∷ es) d = report es d

  abbrev pub failed : Interface V I → Reply V I
  failed d = record { interface = d; success = false; stored = none }

  -- The end of sendSynchronousRequest, after loop.exec().
  unfoldable pub after_loop :
      Interface V I → Result (Option (InterfaceConnection V I)) → Outcome (Reply V I)
  after_loop d (ok (some c)) = returned (record {
    interface = report c.emitted d;
    success = c.last_call_successful;
    stored = c.stored;
  })
  after_loop d (ok none) = waiting
  after_loop d fail = undefined
  after_loop d fault = undefined

  -- The server that sendSynchronousRequest chooses.
  unfoldable pub server_of : Interface V I → Option Server
  server_of d =
      if not (is_nil d.local_server)
      then some (local_server d.local_server)
      else elim d.tcp_address [ none ↦ none | some (host, port) ↦ some (tcp_server host port) ]

abbrev pub connection_failed : Text
connection_failed = text "CuteIPC: Не удалось подключиться к серверу при вызове синхронного метода"

module _ {V I : Type 0} (q : Qt V I) where
  -- Q_ARG(QString, id)
  abbrev pub string_argument : Text → GenericArgument V I
  string_argument t = record { name = text "QString"; value = some (plain (q.string_value t)) }

-- `net` is the network, and `connection_id` the worker's.
module _ {V I W : Type 0} (q : Qt V I) (o : MetaObjects V I W)
    (net : Server → Bytes → Exchange) where
  unfoldable pub send_to : Server → Bytes → Option Text → Interface V I → Outcome (Reply V I)
  unfolding after_loop report
  send_to server request slot d =
      let e = net server request in
      if e.connected
      then after_loop d (
          wait q e.arrivals
            (send_call_request q request (set_returned_object q slot (new_connection q))))
      else returned (failed (set_last_error connection_failed d))

  unfoldable pub send_synchronous_request :
      Bytes → Option Text → Interface V I → Outcome (Reply V I)
  unfolding server_of
  send_synchronous_request request slot d = elim (server_of d) [
    | none ↦ returned (failed d)
    | some server ↦ send_to server request slot d
  ]

  -- A request whose marshalling is undefined is undefined.
  unfoldable pub with_request : Result Bytes → (Bytes → Outcome (Reply V I)) → Outcome (Reply V I)
  with_request (ok request) send = send request
  with_request fail send = undefined
  with_request fault send = undefined

  -- checkRemoteSlotExistance
  unfoldable pub check_remote_slot_existance : Text → Interface V I → Outcome (Reply V I)
  check_remote_slot_existance slot d =
      with_request (marshall_message q (from_values slot_connection_request slot [] []))
        (λ request. send_synchronous_request request none d)

  -- sendRemoteConnectRequest
  unfoldable pub send_remote_connect_request : Text → Text → Interface V I → Outcome (Reply V I)
  send_remote_connect_request connection_id signal d =
      with_request
        (marshall_message q
          (from_values signal_connection_request signal (string_argument q connection_id ∷ []) []))
        (λ request. send_synchronous_request request none d)

  -- sendRemoteDisconnectRequest
  unfoldable pub send_remote_disconnect_request : Text → Text → Interface V I → Outcome (Reply V I)
  send_remote_disconnect_request connection_id signal d =
      with_request
        (marshall_message q (
          from_arguments signal_connection_request signal (string_argument q connection_id ∷ [])
            (text "disconnect")))
        (λ request. send_synchronous_request request none d)

  -- call, with a return argument
  unfoldable pub call :
      Text → Text → List (GenericArgument V I) → Interface V I → Outcome (Reply V I)
  call method ret vals d =
      with_request (marshall_message q (from_values message_call_with_return method vals ret))
        (λ request. send_synchronous_request request (some ret) d)

  -- call, without one
  unfoldable pub call_void : Text → List (GenericArgument V I) → Interface V I → Outcome (Reply V I)
  call_void method vals d =
      with_request (marshall_message q (from_values message_call_with_return method vals []))
        (λ request. send_synchronous_request request none d)

  -- callNoReply
  unfoldable pub call_no_reply :
      Text → List (GenericArgument V I) → Interface V I → Outcome (Interface V I)
  call_no_reply method vals d =
      elim (marshall_message q (from_values message_call_without_return method vals [])) [
        | ok request ↦ returned (send_asynchronous_request request d)
        | fail ↦ undefined
        | fault ↦ undefined
      ]
