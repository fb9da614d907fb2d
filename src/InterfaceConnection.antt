-- ===== src/InterfaceConnection.antt =====
-- src/CuteIPCInterfaceConnection.cpp: what the client does with a message that arrived, and how it
-- sends a request and waits for the answer.
pub mod Answer
pub mod Waiting
use cute_ipc.Prelude.{
  ℕ, Bool, true, false, List, [], ◌∷◌, ◌++◌, Option, none, some, length, if◌then◌else◌, ◌||◌,
}
use cute_ipc.Prelude.Result.{Result, ok, fail, fault, ◌>>=◌}
use cute_ipc.Prelude.Text.{Text, Bytes}
use cute_ipc.Qt.{Qt}
use cute_ipc.Message.{
  Datum, GenericArgument, MessageType, message_call_with_return, message_call_without_return,
  message_response, message_error, signal_connection_request, slot_connection_request,
  message_signal, about_to_close_socket, connection_initialize, other,
}
use cute_ipc.Marshaller.Read.{demarshall_message, demarshall_message_type, demarshall_response}

-- The signals of the connection.
pub data Event (V I : Type 0) : Type 0 where
  call_finished : Event V I
  socket_disconnected : Event V I
  error_occured : Text → Event V I
  invoke_remote_signal : Text → List (GenericArgument V I) → Event V I

-- What a connection learns from its socket: a whole block, a whole block that was at the socket with
-- the block before it, an error with its text, and that the connection is lost.
pub data Arrival : Type 0 where
  block : Bytes → Arrival
  block_with_last : Bytes → Arrival
  socket_error : Text → Arrival
  disconnected : Arrival

-- `returned_object` is the name of the type of the caller's variable, `none` for a null argument, and
-- `stored` is what was written to the variable. `written` are the bytes sent, and `emitted` the
-- signals, both in order. The partial block and its size are in the receiver.
pub record InterfaceConnection (V I : Type 0) : Type 0 where
  pub last_call_successful : Bool
  pub returned_object : Option Text
  pub stored : Option (Datum V I)
  pub written : Bytes
  pub emitted : List (Event V I)

module _ {V I : Type 0} (q : Qt V I) where
  unfoldable pub new_connection : InterfaceConnection V I
  new_connection = record {
    last_call_successful = false;
    returned_object = none;
    stored = none;
    written = [];
    emitted = [];
  }

  unfoldable pub set_returned_object :
      Option Text → InterfaceConnection V I → InterfaceConnection V I
  set_returned_object slot c = record c { returned_object = slot }

  unfoldable pub send_call_request : Bytes → InterfaceConnection V I → InterfaceConnection V I
  send_call_request request c = record c {
    written = c.written ++ (q.put_uint (length request) ++ request);
    last_call_successful = true;
  }

  abbrev pub emit : List (Event V I) → InterfaceConnection V I → InterfaceConnection V I
  emit events c = record c { emitted = c.emitted ++ events }

  -- A response to a call without a variable stores nothing.
  abbrev pub keep_stored : Option (Datum V I) → Option (Datum V I) → Option (Datum V I)
  keep_stored none old = old
  keep_stored (some d) old = some d

  -- The switch of readMessageFromSocket over the type of a whole block, with `emit callFinished`.
  unfoldable pub handle_type :
      MessageType → Bytes → InterfaceConnection V I → Result (InterfaceConnection V I)
  handle_type message_response b c = demarshall_response q b c.returned_object >>= λ (m, d).
      ok (emit (call_finished ∷ []) (record c { stored = keep_stored d c.stored }))
  handle_type message_error b c = demarshall_message q b >>= λ m. ok (
      emit (error_occured m.method ∷ call_finished ∷ [])
        (record c { last_call_successful = false }))
  handle_type about_to_close_socket b c = demarshall_message q b >>= λ m.
      ok (emit (socket_disconnected ∷ []) (record c { last_call_successful = false }))
  handle_type message_signal b c =
      demarshall_message q b >>= λ m. ok (emit (invoke_remote_signal m.method m.arguments ∷ []) c)
  handle_type message_call_with_return b c = ok c
  handle_type message_call_without_return b c = ok c
  handle_type signal_connection_request b c = ok c
  handle_type slot_connection_request b c = ok c
  handle_type connection_initialize b c = ok c
  handle_type (other n) b c = ok c

  unfoldable pub handle_block : Bytes → InterfaceConnection V I → Result (InterfaceConnection V I)
  handle_block b c = handle_type (demarshall_message_type q b) b c

  -- callFinished and socketDisconnected end the event loop of a synchronous request.
  unfoldable pub quits : List (Event V I) → Bool
  quits [] = false
  quits (call_finished ∷ es) = true
  quits (socket_disconnected ∷ es) = true
  quits (error_occured t ∷ es) = quits es
  quits (invoke_remote_signal t args ∷ es) = quits es

  -- errorOccured of the connection, and its signal socketDisconnected, which is the socket's.
  unfoldable pub handle_arrival :
      Arrival → InterfaceConnection V I → Result (InterfaceConnection V I)
  unfolding handle_block
  handle_arrival (block b) c = handle_block b c
  handle_arrival (block_with_last b) c = handle_block b c
  handle_arrival (socket_error t) c = ok (emit (error_occured t ∷ []) c)
  handle_arrival disconnected c = ok (emit (socket_disconnected ∷ []) c)

  -- The loop of readyRead goes on over the blocks that are at the socket, before loop.exec() returns.
  unfoldable pub finish_reading :
      List Arrival → InterfaceConnection V I → Result (InterfaceConnection V I)
  unfolding handle_block
  finish_reading (block_with_last b ∷ arrivals) c = handle_block b c >>= finish_reading arrivals
  finish_reading _ c = ok c

  -- loop.exec() after a request, over what arrives. `none`: it is all handled, and the loop is still
  -- waiting.
  unfoldable pub wait :
      List Arrival → InterfaceConnection V I → Result (Option (InterfaceConnection V I))
  unfolding handle_arrival finish_reading
  wait [] c = ok none
  wait (a ∷ arrivals) c = handle_arrival a c >>= λ c'.
      (if quits c'.emitted
        then finish_reading arrivals c' >>= (λ last. ok (some last))
        else wait arrivals c')
