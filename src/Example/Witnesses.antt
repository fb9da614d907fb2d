-- ===== src/Example/Witnesses.antt =====
-- The theorems about calls and messages, at a concrete service and interface.
use cute_ipc.Prelude.{◌≡◌, refl, true, false, List, [], ◌∷◌, none, some, inr, arith}
use cute_ipc.Prelude.Result.{ok, fault}
use cute_ipc.Prelude.Text.{Bytes, text, same}
use cute_ipc.Message.{Message, plain, message_call_with_return, from_values, code}
use cute_ipc.Marshaller.Write.{
  marshall_message, marshall_arguments, marshall_argument_to_stream, marshall_plain_to_stream,
  header, or_empty, save_value,
}
use cute_ipc.Marshaller.Read.{demarshall_message, demarshall_response}
use cute_ipc.Marshaller.RoundTrip.{demarshall_message-marshall_message}
use cute_ipc.Marshaller.Response.{
  bare_response, demarshall_response-marshall_message, demarshall_response_mismatch,
}
use cute_ipc.Receiver.{Receiver, idle, read_message_service, read_message_interface, ready_read}
use cute_ipc.Receiver.Total.{IsReceiver, ready_read_total, ready_read_same}
use cute_ipc.Service.{send_response}
use cute_ipc.ServiceConnection.{process_message}
use cute_ipc.InterfaceConnection.{new_connection, send_call_request}
use cute_ipc.Interface.State.{set_last_error}
use cute_ipc.Interface.Request.{returned, call, server_of, local_server}
use cute_ipc.Remote.Unsent.{unmarshalled_call_waits}
use cute_ipc.Example.Calls.{silent}
use cute_ipc.Interface.Request.{waiting}
use cute_ipc.Receiver.{receive}
use cute_ipc.Message.{GenericArgument}
use cute_ipc.Remote.Caller.{remote_call_succeeds, remote_call_refused}
use cute_ipc.Example.Streams.{example_stream}
use cute_ipc.Example.Types.{Pixel, Value, number, example_qt, example_objects}
use cute_ipc.Example.Calls.{
  int_argument, connection, service, state, interface, read_values, read_request, read_reply,
  lost_request, refusal, answering, read_IsCall, lost_IsCall,
}

remote_call_succeeds_example :
    (process_message example_qt example_objects connection read_request state
      ≡ ok (record {
        service = send_response example_qt example_objects 5 read_reply service;
        world = 3;
      }))
    × (call example_qt example_objects
          (answering read_reply)
          (text "read")
          (text "int")
          read_values
          interface
        ≡ returned
            (record { interface = interface; success = true; stored = some (plain (number 3)) }))
unfolding marshall_message marshall_arguments marshall_argument_to_stream marshall_plain_to_stream
    header or_empty save_value from_values code same server_of
remote_call_succeeds_example =
    remote_call_succeeds example_qt example_objects (answering read_reply) connection state
      interface (local_server (text "server")) (text "read") (text "int") read_values read_request
      read_reply 3 (plain (number 3)) read_IsCall refl tt refl (λ e. cc) refl refl

remote_call_refused_example :
    (process_message example_qt example_objects connection lost_request state
      ≡ ok (record {
        service = send_response example_qt example_objects 5 refusal service;
        world = 3;
      }))
    × (call example_qt example_objects
          (answering refusal)
          (text "lost")
          (text "int")
          read_values
          interface
        ≡ returned (record {
          interface = set_last_error (text "Unsuccessful invoke") interface;
          success = false;
          stored = none;
        }))
unfolding marshall_message marshall_arguments marshall_argument_to_stream marshall_plain_to_stream
    header or_empty save_value from_values code same server_of
remote_call_refused_example =
    remote_call_refused example_qt example_objects (answering refusal) connection state interface
      (local_server (text "server")) (text "lost") (text "int") read_values lost_request refusal
      lost_IsCall refl refl (λ e. cc) refl refl

abbrev read_call : Message Value Pixel
read_call = from_values message_call_with_return (text "read") read_values (text "int")

demarshall_message-marshall_message_example :
    demarshall_message example_qt read_request ≡ ok read_call
demarshall_message-marshall_message_example =
    demarshall_message-marshall_message example_qt read_call read_request read_IsCall.marshalled
      read_IsCall.not_empty read_IsCall.sendable

abbrev blocks : List Bytes
blocks = (8 ∷ 9 ∷ []) ∷ (7 ∷ []) ∷ []

abbrev pieces : List Bytes
pieces = (0 ∷ 0 ∷ []) ∷ (0 ∷ 2 ∷ 8 ∷ []) ∷ (9 ∷ 0 ∷ 0 ∷ 0 ∷ 1 ∷ 7 ∷ []) ∷ []

-- In the middle of a block of three bytes.
abbrev receiver : Receiver
receiver = record { next_block_size = 3; block = 8 ∷ []; incoming = 9 ∷ 7 ∷ 0 ∷ [] }

receiver-IsReceiver : IsReceiver receiver
receiver-IsReceiver = record { shape = inr (omega arith); room = omega arith; size = omega arith }

ready_read_total_example :
    (r' : Receiver) × (ms : List Bytes) × (ready_read (read_message_service example_stream) receiver
      ≡ some (r', ms))
    × IsReceiver r'
ready_read_total_example = ready_read_total example_stream receiver receiver-IsReceiver

ready_read_same_example :
    ready_read (read_message_interface example_stream) receiver
    ≡ ready_read (read_message_service example_stream) receiver
ready_read_same_example = ready_read_same example_stream receiver receiver-IsReceiver

demarshall_response-marshall_message_example :
    demarshall_response example_qt read_reply (some (text "int"))
    ≡ ok (bare_response example_qt (text "read"), some (plain (number 3)))
unfolding marshall_message marshall_arguments marshall_argument_to_stream marshall_plain_to_stream
    header or_empty save_value from_values code same
demarshall_response-marshall_message_example =
    demarshall_response-marshall_message example_qt (text "read") (int_argument 3) read_reply
      (text "int") refl (λ e. cc) (ground arith, tt) refl

-- The caller's variable is a QString, and the value an int.
demarshall_response_mismatch_example :
    demarshall_response example_qt read_reply (some (text "QString")) ≡ fault
unfolding marshall_message marshall_arguments marshall_argument_to_stream marshall_plain_to_stream
    header or_empty save_value from_values code same
demarshall_response_mismatch_example =
    demarshall_response_mismatch example_qt (text "read") (int_argument 3) (number 3) read_reply
      (text "QString") refl (λ e. cc) (ground arith, tt) refl (omega arith)

-- An argument whose type is not registered.
abbrev unknown_values : List (GenericArgument Value Pixel)
unknown_values = record { name = text "Unknown"; value = some (plain (number 4)) } ∷ []

unmarshalled_call_waits_example :
    (receive
        (read_message_service example_stream)
        (idle [])
        (send_call_request example_qt [] (new_connection example_qt)).written
      ≡ some (idle [], []))
    × (call example_qt example_objects silent (text "read") (text "int") unknown_values interface
        ≡ waiting)
unfolding marshall_arguments marshall_argument_to_stream marshall_plain_to_stream from_values same
    new_connection server_of
unmarshalled_call_waits_example =
    unmarshalled_call_waits example_qt example_objects silent (text "read") (text "int")
      unknown_values interface (local_server (text "server")) (new_connection example_qt) refl refl
      refl refl
