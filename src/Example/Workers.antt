-- ===== src/Example/Workers.antt =====
-- The theorems about an interface with its worker, at a concrete client and service.
use cute_ipc.Prelude.{
  ℕ, ◌+◌, ◌≡◌, refl, true, false, List, [], ◌∷◌, ◌++◌, none, some, length, arith,
}
use cute_ipc.Prelude.Result.{ok}
use cute_ipc.Prelude.Text.{Text, Bytes, text, same}
use cute_ipc.Prelude.Hash.{lookup}
use cute_ipc.Message.{
  Message, plain, message_call_with_return, message_response, message_signal, from_values,
  from_arguments, code, message_type_of,
}
use cute_ipc.Marshaller.Write.{
  marshall_message, marshall_arguments, marshall_argument_to_stream, marshall_plain_to_stream,
  header, or_empty, save_value,
}
use cute_ipc.Marshaller.Read.{demarshall_message_type, demarshall_response}
use cute_ipc.Receiver.{idle, read_message_interface, receive_all}
use cute_ipc.SignalHandler.{SignalHandler, relay_arguments, parameter_info}
use cute_ipc.Service.{Service, handler_captures}
use cute_ipc.Service.Delivery.{deliveries}
use cute_ipc.ServiceConnection.{State, process_message}
use cute_ipc.InterfaceConnection.{
  InterfaceConnection, call_finished, block, new_connection, send_call_request, wait, handle_type,
  quits,
}
use cute_ipc.Interface.State
use cute_ipc.Interface.State.{Interface, MethodData, same_data}
use cute_ipc.Interface.Request.{
  returned, waiting, Server, local_server, tcp_server, Exchange, server_of,
}
use cute_ipc.Worker.{
  new_worker, or_replaced, initialize_request, is_disconnected, connection_id, connect_to_server,
}
use cute_ipc.Client.{
  Client, remember, connect_client, disconnect_client, forward_all, client_receives,
}
use cute_ipc.Client.Handshake.{
  connected_is_registered, disconnected_twice, tcp_leaves_requests_local,
}
use cute_ipc.Client.Signals.{signal_travels}
use cute_ipc.Example.Types.{Pixel, Value, number, example_qt, example_objects}
use cute_ipc.Example.Calls.{
  bytes_of, int_argument, connection, service, state, interface, read_values, read_request,
}
use cute_ipc.Example.Waits.{signal, signal_bytes}

-- The text of a number, as one sign.
abbrev sign : ℕ → Text
sign n = (n + 48) ∷ []

abbrev pub registration : Bytes
registration = bytes_of (initialize_request example_qt sign 7)

abbrev registered : Bytes
registered = bytes_of (
    marshall_message example_qt
      (from_values message_response (text "connectionInitialize_" ++ sign 7) [] []))

abbrev fresh_client : Client Value Pixel
fresh_client = record { interface = interface; worker = new_worker }

abbrev accepting : Server → Bytes → Exchange
accepting server request = record { connected = true; arrivals = block registered ∷ [] }

connected_is_registered_example :
    (s' : State ℕ) × (c' : Client Value Pixel) × (process_message example_qt example_objects
        connection registration state
      ≡ ok s')
    × (lookup (sign 7) s'.service.long_lived ≡ some 5)
    × (s'.service.sent
        ≡ state.service.sent ++ (5, example_qt.put_uint (length registered) ++ registered) ∷ [])
    × (connect_client example_qt example_objects sign accepting 7
          (local_server (text "ipc"))
          fresh_client
        ≡ returned (c', true))
    × (connection_id example_qt sign c'.worker ≡ sign 7)
    × (c'.worker.replaced ≡ or_replaced fresh_client.worker.connection fresh_client.worker.replaced)
    × (c'.interface ≡ remember (local_server (text "ipc")) fresh_client.interface)
unfolding marshall_message marshall_arguments marshall_argument_to_stream marshall_plain_to_stream
    header or_empty save_value from_values from_arguments code same initialize_request
connected_is_registered_example =
    connected_is_registered example_qt example_objects sign accepting (local_server (text "ipc"))
      fresh_client connection state 7 registration registered [] refl (λ e. cc) refl (λ e. cc) tt
      refl

-- A client with a connection.
abbrev pub open_connection : InterfaceConnection Value Pixel
open_connection = record {
  last_call_successful = false;
  returned_object = none;
  stored = none;
  written = [];
  emitted = [];
}

abbrev pub client : Client Value Pixel
client = record {
  interface = interface;
  worker = record {
    socket = some (local_server (text "server"));
    connection = some (6, open_connection);
    replaced = [];
  };
}

disconnected_twice_example :
    (c' : Client Value Pixel) × (disconnect_client client ≡ returned c')
    × (c'.interface ≡ interface)
    × (connection_id example_qt sign c'.worker ≡ sign 0)
    × (forward_all example_qt (read_request ∷ []) c'.worker ≡ c'.worker)
    × (disconnect_client c' ≡ waiting)
disconnected_twice_example =
    disconnected_twice example_qt sign client (local_server (text "server")) (read_request ∷ [])
      refl

-- The connection to the TCP server takes the place of the one to the local server.
abbrev over_tcp : Client Value Pixel
over_tcp = record {
  interface = remember (tcp_server 1 4000) interface;
  worker = record {
    socket = some (tcp_server 1 4000);
    connection = some (
      7,
      record {
        last_call_successful = true;
        returned_object = none;
        stored = none;
        written = example_qt.put_uint (length registration) ++ registration;
        emitted = call_finished ∷ [];
      },
    );
    replaced = (6, open_connection) ∷ [];
  };
}

tcp_leaves_requests_local_example :
    server_of over_tcp.interface ≡ some (local_server (text "server"))
unfolding connect_client connect_to_server marshall_message marshall_arguments from_values
    marshall_argument_to_stream same marshall_plain_to_stream wait handle_type
    demarshall_message_type message_type_of code demarshall_response quits send_call_request
    new_connection is_disconnected
tcp_leaves_requests_local_example =
    tcp_leaves_requests_local example_qt example_objects sign accepting 7 1 4000 client over_tcp
      true refl refl

-- The subject's signal has a handler with one connection, and the client a method for it.
abbrev pub handler : SignalHandler
handler = record {
  signature = signal;
  parameters = some (text "int" ∷ []);
  listeners = 5 ∷ [];
  wired = 5 ∷ [];
}

abbrev pub busy_service : Service
busy_service = record service { handlers = (signal, handler) ∷ [] }

abbrev pub listening : Client Value Pixel
listening = record client {
  interface = record interface {
    connections = (signal, record { object = 9; method = text "tick(int)" }) ∷ [];
  };
}

-- The frame comes in two pieces.
abbrev pieces : List Bytes
pieces = (0 ∷ []) ∷ (0 ∷ 0 ∷ length signal_bytes ∷ signal_bytes) ∷ []

signal_travels_example :
    (s' : Service) × (c' : Client Value Pixel) × (handler_captures example_qt example_objects signal
        (plain (number 8) ∷ [])
        busy_service
      ≡ ok s')
    × (s'.sent ≡ busy_service.sent ++ deliveries example_qt example_objects signal_bytes (5 ∷ []))
    × (receive_all (read_message_interface example_qt.stream) (idle []) pieces
        ≡ some (idle [], signal_bytes ∷ []))
    × (client_receives example_qt example_objects (block signal_bytes) listening ≡ ok c')
    × (c'.interface
        ≡ cute_ipc.Interface.State.invoke_remote_signal example_qt example_objects signal
            (int_argument 8 ∷ [])
            listening.interface)
unfolding marshall_message marshall_arguments marshall_argument_to_stream marshall_plain_to_stream
    header or_empty save_value from_values from_arguments code same lookup relay_arguments
    parameter_info
signal_travels_example =
    signal_travels example_qt example_objects signal (plain (number 8) ∷ []) busy_service handler
      (int_argument 8 ∷ []) signal_bytes listening 6 open_connection pieces refl refl refl
      (omega arith) (omega arith) ((ground arith, tt), tt) (omega arith) refl refl

-- The interface has handed a request to the worker.
abbrev read_message : Message Value Pixel
read_message = from_values message_call_with_return (text "read") read_values (text "int")

-- A local signal is connected to the remote slot `tick()`.
abbrev local_signal : MethodData
local_signal = record { object = 9; method = signal }

abbrev local_handler : SignalHandler
local_handler = record {
  signature = text "tick()";
  parameters = some (text "int" ∷ []);
  listeners = [];
  wired = [];
}

abbrev emitting : Interface Value Pixel
emitting = record interface { local_signal_handlers = (local_signal, local_handler) ∷ [] }

abbrev pub tick_bytes : Bytes
tick_bytes = bytes_of (
    marshall_message example_qt
      (from_arguments message_signal (text "tick()") (int_argument 8 ∷ []) []))
