-- ===== src/Example/Subscribers.antt =====
-- The theorems about subscriptions and connections, at a concrete service and interface.
use cute_ipc.Prelude.{ℕ, ◌<◌, ◌≡◌, refl, List, [], ◌∷◌, ◌++◌, none, some, length, arith}
use cute_ipc.Prelude.Result.{ok}
use cute_ipc.Prelude.Text.{Text, Bytes, text, same}
use cute_ipc.Prelude.Hash.{lookup, insert}
use cute_ipc.Message.{
  Message, plain, message_call_with_return, message_response, message_signal, from_values,
  from_arguments, code,
}
use cute_ipc.Marshaller.Write.{
  marshall_message, marshall_arguments, marshall_argument_to_stream, marshall_plain_to_stream,
  header, or_empty, save_value,
}
use cute_ipc.SignalHandler.{
  SignalHandler, new_handler, add_listener, remove_one, relay_slot, relay_arguments, parameter_info,
  set_signal_parameters_info,
}
use cute_ipc.Service.{
  Service, new_connection, send_response, handler_for, add_listener_for, handle_signal_request,
  handle_signal_disconnect, handler_captures, initialize_connection, send_response_message,
  send_signal_to,
}
use cute_ipc.Service.Counts.{count}
use cute_ipc.Service.Registry.{IsRegistry}
use cute_ipc.Service.Closing.{open_ones, inform_long_lived-sent}
use cute_ipc.Service.{inform_long_lived}
use cute_ipc.Message.{about_to_close_socket}
use cute_ipc.Prelude.{◌==◌, if◌then◌else◌, true, false}
use cute_ipc.Service.Delivery.{deliveries}
use cute_ipc.Service.Histories.{
  new_service, connects, initializes, subscribes, Reachable, start, after, Reachable-IsRegistry,
}
use cute_ipc.Service.Subscriptions.{delivered_to_existing, unsubscribed_still_receives}
use cute_ipc.ServiceConnection.{State, process_call}
use cute_ipc.ServiceConnection.Total.{requests-Answered}
use cute_ipc.ServiceConnection.Answers.{Answered}
use cute_ipc.Example.Types.{Pixel, Value, number, example_qt, example_objects}
use cute_ipc.Example.Calls.{bytes_of, int_argument, connection, service, state}

abbrev pub signal : Text
signal = text "changed(int)"

abbrev pub reply : Bytes
reply = bytes_of (marshall_message example_qt (from_values message_response signal [] []))

abbrev pub signal_bytes : Bytes
signal_bytes =
    bytes_of
      (marshall_message example_qt (from_arguments message_signal signal (int_argument 8 ∷ []) []))

-- A handler to which both connections listen.
abbrev handler : SignalHandler
handler = record {
  signature = signal;
  parameters = some (text "int" ∷ []);
  listeners = 5 ∷ 6 ∷ [];
  wired = 5 ∷ 6 ∷ [];
}

abbrev busy_service : Service
busy_service = record service { handlers = (signal, handler) ∷ [] }

unsubscribed_still_receives_example :
    (s1 : Service) × (s2 : Service) × (handle_signal_disconnect example_qt example_objects signal
        (text "77")
        5
        busy_service
      ≡ ok s1)
    × (handler_captures example_qt example_objects signal (plain (number 8) ∷ []) s1 ≡ ok s2)
    × (s2.sent
        ≡ (busy_service.sent ++ (5, example_qt.put_uint (length reply) ++ reply) ∷ [])
          ++ deliveries example_qt example_objects signal_bytes (5 ∷ 6 ∷ []))
unfolding marshall_message marshall_arguments marshall_argument_to_stream marshall_plain_to_stream
    header or_empty save_value from_values from_arguments code same lookup relay_slot
    relay_arguments parameter_info remove_one
unsubscribed_still_receives_example =
    unsubscribed_still_receives example_qt example_objects signal (text "77") 5 5
      (plain (number 8) ∷ []) busy_service handler (record handler { listeners = 6 ∷ [] }) reply
      signal_bytes refl refl refl refl refl

-- A history: a connection comes and asks for the signal through its id.
abbrev pub connected : Service
connected = new_connection 5 (new_service 1 none)

abbrev pub initialized : Service
initialized =
    send_response example_qt example_objects 5
      (bytes_of (
        marshall_message example_qt
          (from_values message_response (text "connectionInitialize_77") [] [])))
      (record connected { long_lived = (text "77", 5) ∷ [] })

abbrev pub subscribed : Service
subscribed =
    send_response example_qt example_objects 5 reply
      (add_listener_for example_qt example_objects signal 5 initialized)

abbrev pub emitted : Service
emitted = record {
  service_object = 1;
  subject = none;
  handlers =
      (
        signal,
        record {
          signature = signal;
          parameters = some (text "int" ∷ []);
          listeners = 5 ∷ [];
          wired = 5 ∷ [];
        },
      )
      ∷ [];
  long_lived = (text "77", 5) ∷ [];
  connections = 5 ∷ [];
  sent = subscribed.sent ++ (5, example_qt.put_uint (length signal_bytes) ++ signal_bytes) ∷ [];
}

history : Reachable example_qt example_objects 1 none subscribed
unfolding marshall_message marshall_arguments header or_empty from_values code same lookup insert
    new_connection send_response initialize_connection send_response_message handle_signal_request
    add_listener_for handler_for add_listener set_signal_parameters_info new_handler
history =
    after initialized subscribed
      (after connected initialized
        (after (new_service 1 none) connected start (connects 5 (new_service 1 none)))
        (initializes (text "77") 5 connected initialized (omega arith) refl))
      (subscribes signal (text "77") 5 initialized subscribed refl)

Reachable-IsRegistry_example : IsRegistry subscribed
Reachable-IsRegistry_example =
    Reachable-IsRegistry example_qt example_objects 1 none subscribed history

delivered_to_existing_example :
    (bytes : Bytes) × (cs : List ℕ) × (emitted.sent
      ≡ subscribed.sent ++ deliveries example_qt example_objects bytes cs)
    × ((c : ℕ) → 0 < count c cs → 0 < count c subscribed.connections)
unfolding marshall_message marshall_arguments marshall_argument_to_stream marshall_plain_to_stream
    header or_empty save_value from_values from_arguments code same lookup insert relay_slot
    relay_arguments parameter_info handler_for add_listener set_signal_parameters_info new_handler
    handler_captures send_signal_to send_response add_listener_for new_connection
delivered_to_existing_example =
    delivered_to_existing example_qt example_objects 1 none signal (plain (number 8) ∷ [])
      subscribed emitted history refl

-- A call without a return type, and its answer.
abbrev tick : Message Value Pixel
tick = record {
  method = text "tick";
  arguments = [];
  message_type = message_call_with_return;
  return_type = [];
}

abbrev ticked : State ℕ
ticked = record {
  service =
      send_response example_qt example_objects 5
        (bytes_of (marshall_message example_qt (from_values message_response (text "tick") [] [])))
        service;
  world = 4;
}

requests-Answered_example :
    (s' : State ℕ) × (process_call example_qt example_objects connection tick state ≡ ok s')
    × Answered example_qt example_objects 5 service s'.service
requests-Answered_example = requests-Answered example_qt example_objects connection tick state refl

abbrev closing : Bytes
closing = bytes_of (marshall_message example_qt (from_values about_to_close_socket [] [] []))

-- The second of the registered connections has closed its socket.
inform_long_lived-sent_example :
    (s' : Service) × (inform_long_lived example_qt example_objects
        (λ c. if c == 5 then true else false)
        ((text "77", 5) ∷ (text "78", 6) ∷ [])
        service
      ≡ ok s')
    × (s'.sent
        ≡ service.sent
          ++ deliveries example_qt example_objects closing (
              open_ones
                (λ c. if c == 5 then true else false)
                ((text "77", 5) ∷ (text "78", 6) ∷ [])))
unfolding marshall_message marshall_arguments header or_empty from_values code
inform_long_lived-sent_example =
    inform_long_lived-sent example_qt example_objects (λ c. if c == 5 then true else false)
      ((text "77", 5) ∷ (text "78", 6) ∷ []) service closing refl
