-- ===== src/Service.antt =====
-- src/CuteIPCService.cpp: the registry of connections and of signal handlers, and what the service
-- does on the requests of its connections. Connections and objects are numbers; the bytes written to
-- the connections' sockets are a log in the order of writing.
pub mod Counts
pub mod Registry
pub mod Steps
pub mod Delivery
pub mod Histories
pub mod Subscriptions
pub mod Closing
pub mod Board
pub mod BoardSteps
pub mod Refinement
use cute_ipc.Prelude.{
  ℕ, zero, suc, ◌+◌, Bool, true, false, not, List, [], ◌∷◌, ◌++◌, Option, none, some, length, ◌==◌,
  if◌then◌else◌,
}
use cute_ipc.Prelude.Result.{Result, ok, fail, fault, ◌>>=◌}
use cute_ipc.Prelude.Text.{Text, Bytes, text, same}
use cute_ipc.Prelude.Hash.{Hash, lookup, contains, insert, remove}
use cute_ipc.Qt.{Qt}
use cute_ipc.MetaObjects.{MetaObjects}
use cute_ipc.Message.{
  Datum, GenericArgument, message_response, message_error, about_to_close_socket, from_values,
}
use cute_ipc.Marshaller.Write.{marshall_message}
use cute_ipc.SignalHandler.{
  SignalHandler, new_handler, add_listener, remove_listener, listener_destroyed,
  set_signal_parameters_info, relay_slot,
}

-- `connections` are the connection objects that exist; `service_object` is the service itself.
-- `handlers` is m_signalHandlers, whose entries exist as long as their handlers.
pub record Service : Type 0 where
  pub service_object : ℕ
  pub subject : Option ℕ
  pub handlers : Hash SignalHandler
  pub long_lived : Hash ℕ
  pub connections : List ℕ
  pub sent : List (ℕ × Bytes)

abbrev pub or_else : Option ℕ → ℕ → ℕ
or_else none d = d
or_else (some a) d = a

-- subject ? subject : q
abbrev pub subject_of : Service → ℕ
subject_of s = or_else s.subject s.service_object

abbrev put_handler : Text → Option SignalHandler → Service → Service
put_handler key none s = record s { handlers = remove key s.handlers }
put_handler key (some h) s = record s { handlers = insert key h s.handlers }

unfoldable pub without : ℕ → List ℕ → List ℕ
without c [] = []
without c (x ∷ xs) = let rest = without c xs in if x == c then rest else x ∷ rest

-- The iterator of _q_connectionDestroyed.
unfoldable pub remove_value : ℕ → Hash ℕ → Hash ℕ
remove_value c [] = []
remove_value c ((k, v) ∷ m) = let rest = remove_value c m in if v == c then rest else (k, v) ∷ rest

-- `destroyed(QObject*)` reaches a handler once for each call of addListener.
unfoldable pub notify_destroyed : ℕ → List ℕ → SignalHandler → Option SignalHandler
notify_destroyed c [] h = some h
notify_destroyed c (w ∷ ws) h =
    let gone = listener_destroyed c h in
    let others = notify_destroyed c ws h in
    if w == c then elim gone [ none ↦ none | some h' ↦ notify_destroyed c ws h' ] else others

-- The connections of a destroyed object are cut.
unfoldable pub drop_connection : ℕ → Hash SignalHandler → Hash SignalHandler
unfolding notify_destroyed
drop_connection c [] = []
drop_connection c ((k, h) ∷ m) =
    let rest = drop_connection c m in
    elim (notify_destroyed c h.wired h) [
      | none ↦ rest
      | some h' ↦ (k, record h' { wired = without c h'.wired }) ∷ rest
    ]

-- The destruction of a connection, with the slots that `destroyed` reaches.
unfoldable pub connection_destroyed : ℕ → Service → Service
connection_destroyed c s = record s {
  handlers = drop_connection c s.handlers;
  long_lived = remove_value c s.long_lived;
  connections = without c s.connections;
}

-- _q_newLocalConnection and _q_newTcpConnection: a connection object that is not there yet.
unfoldable pub new_connection : ℕ → Service → Service
new_connection c s = record s { connections = c ∷ s.connections }

module _ {V I W : Type 0} (q : Qt V I) (o : MetaObjects V I W) where
  -- CuteIPCServiceConnection::sendResponse
  unfoldable pub send_response : ℕ → Bytes → Service → Service
  send_response c response s = record s {
    sent = s.sent ++ (c, q.put_uint (length response) ++ response) ∷ [];
  }

  unfoldable pub send_error_message : ℕ → Text → Service → Result Service
  send_error_message c error s = do
    request ← marshall_message q (from_values message_error error [] [])
    ok (send_response c request s)

  unfoldable pub send_response_message :
      ℕ → Text → List (GenericArgument V I) → Service → Result Service
  send_response_message c method args s = do
    request ← marshall_message q (from_values message_response method args [])
    ok (send_response c request s)

  -- The handler of a signal: the one there is, or a new one for the subject's signal.
  unfoldable pub handler_for : Text → Service → SignalHandler
  handler_for signature s = elim (lookup signature s.handlers) [
    | none ↦ set_signal_parameters_info q o (subject_of s) signature (new_handler signature)
    | some h ↦ h
  ]

  unfoldable pub add_listener_for : Text → ℕ → Service → Service
  add_listener_for signature listener s = record s {
    handlers = insert signature (add_listener listener (handler_for signature s)) s.handlers;
  }

  -- _q_handleSignalRequest
  unfoldable pub handle_signal_request : Text → Text → ℕ → Service → Result Service
  handle_signal_request signature connection_id sender s =
      if not (o.has_signal (subject_of s) (q.to_latin1 signature))
      then send_error_message sender (text "Signal doesn't exist:" ++ signature) s
      else elim (lookup connection_id s.long_lived) [
        | none ↦
            send_error_message sender (text "Connection ID is not registered: " ++ connection_id) s
        | some listener ↦
            send_response_message sender signature [] (add_listener_for signature listener s)
      ]

  unfoldable pub remove_listener_for : Text → Option ℕ → Service → Service
  remove_listener_for signature listener s = elim (lookup signature s.handlers) [
    | none ↦ s
    | some h ↦ put_handler signature (remove_listener listener h) s
  ]

  -- _q_handleSignalDisconnect, with _q_removeSignalHandler where the handler is destroyed
  unfoldable pub handle_signal_disconnect : Text → Text → ℕ → Service → Result Service
  unfolding remove_listener_for
  handle_signal_disconnect signature connection_id sender s =
      send_response_message sender signature []
        (remove_listener_for signature (lookup connection_id s.long_lived) s)

  -- _q_initializeConnection
  unfoldable pub initialize_connection : Text → ℕ → Service → Result Service
  initialize_connection connection_id sender s =
      send_response_message sender (text "connectionInitialize_" ++ connection_id) []
        (record s { long_lived = insert connection_id sender s.long_lived })

  -- signalCaptured(data) reaches sendSignal of each connected listener, in order.
  unfoldable pub send_signal_to : List ℕ → Bytes → Service → Service
  send_signal_to [] data' s = s
  send_signal_to (c ∷ cs) data' s = send_signal_to cs data' (send_response c data' s)

  -- The handler of a signature, if there is one, captures an emission of its signal.
  unfoldable pub handler_captures : Text → List (Datum V I) → Service → Result Service
  handler_captures signature values s = elim (lookup signature s.handlers) [
    | none ↦ ok s
    | some h ↦ relay_slot q o s.service_object values h >>= λ (h', bytes).
        ok (send_signal_to h'.wired bytes (record s { handlers = insert signature h' s.handlers }))
  ]

  -- The signatures whose handlers are connected to a signal of the subject, in the order in which they
  -- were connected: a handler is kept under the text of the request, and connected to the signal of the
  -- normalised one.
  unfoldable pub connected_handlers : Text → Hash SignalHandler → List Text
  connected_handlers signal [] = []
  connected_handlers signal ((key, h) ∷ m) =
      let rest = connected_handlers signal m in
      if same (o.normalized_signature (q.to_latin1 key)) signal then key ∷ rest else rest

  unfoldable pub capture_all : List Text → List (Datum V I) → Service → Result Service
  unfolding handler_captures
  capture_all [] values s = ok s
  capture_all (key ∷ keys) values s = handler_captures key values s >>= capture_all keys values

  -- The subject emits a signal.
  unfoldable pub subject_emits : Text → List (Datum V I) → Service → Result Service
  unfolding connected_handlers capture_all
  subject_emits signature values s =
      capture_all (connected_handlers (o.normalized_signature (q.to_latin1 signature)) s.handlers)
        values s

  -- CuteIPCServiceConnection::sendAboutToQuit; `open` tells the open sockets.
  unfoldable pub send_about_to_quit : (ℕ → Bool) → ℕ → Service → Result Service
  send_about_to_quit open_socket c s = do
    request ← marshall_message q (from_values about_to_close_socket [] [] [])
    ok (if open_socket c then send_response c request s else s)

  -- ~CuteIPCServicePrivate: the loop over the long-lived connections.
  unfoldable pub inform_long_lived : (ℕ → Bool) → Hash ℕ → Service → Result Service
  inform_long_lived open_socket [] s = ok s
  inform_long_lived open_socket ((k, c) ∷ m) s =
      send_about_to_quit open_socket c s >>= inform_long_lived open_socket m
