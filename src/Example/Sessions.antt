-- ===== src/Example/Sessions.antt =====
-- A connection at work, at a concrete client and service.
use cute_ipc.Prelude.{true, ℕ, ◌≡◌, refl, List, [], ◌∷◌, ◌++◌, none, some, length, drop, arith}
use cute_ipc.Prelude.Text.{Bytes, text, same, before_paren}
use cute_ipc.Message.{
  Message, message_call_without_return, message_signal, from_values, from_arguments, code,
  message_type_of,
}
use cute_ipc.Marshaller.Write.{
  marshall_message, marshall_arguments, marshall_argument_to_stream, marshall_plain_to_stream,
  header, or_empty, save_value,
}
use cute_ipc.Marshaller.Read.{
  load_plain, load_datum, demarshall_argument_from_stream, demarshall_arguments, demarshall_message,
}
use cute_ipc.Receiver.{
  Receiver, idle, fetch_size, read_message, read_message_service, finish_service, add_message,
  ready_read_loop, ready_read, receive,
}
use cute_ipc.ServiceConnection.{
  State, append_empty, fill_arguments, signal_arrived, dispatch, process_call, process_message,
}
use cute_ipc.InterfaceConnection.{InterfaceConnection, call_finished, send_call_request}
use cute_ipc.Worker.{initialize_request, forward_request}
use cute_ipc.Remote.Stream.{Marshalled, process_all}
use cute_ipc.Remote.Session.{
  Session, written_by, calls, Other, changes, posts, takes, arrives, others, Run, at_start,
  and_then, Handled, IsSettled,
}
use cute_ipc.Interface.State.{send_asynchronous_request}
use cute_ipc.Interface.Request.{call_no_reply}
use cute_ipc.Remote.Session.Posted.{Posts, InterfaceAct-Posts}
use cute_ipc.Remote.Session.Order.{processed_in_order, all_processed, piece_handed_on}
use cute_ipc.Example.Types.{Pixel, Value, example_qt, example_objects}
use cute_ipc.Example.Calls.{bytes_of, int_argument, connection, state, interface, silent}
use cute_ipc.Example.Workers.{registration, client, tick_bytes}
use cute_ipc.Client.{Client}

abbrev Meanwhile : State ℕ → State ℕ → Type 0
Meanwhile = Other example_qt example_objects connection

-- A connection after its registration.
abbrev registration_frame : Bytes
registration_frame = example_qt.put_uint (length registration) ++ registration

abbrev registered_connection : InterfaceConnection Value Pixel
registered_connection = record {
  last_call_successful = true;
  returned_object = none;
  stored = none;
  written = registration_frame;
  emitted = call_finished ∷ [];
}

abbrev connected_client : Client Value Pixel
connected_client = record client {
  worker = record client.worker { connection = some (6, registered_connection) };
}

abbrev start : Session Value Pixel ℕ
start = record {
  client = connected_client;
  arrived = registration_frame;
  receiver = idle [];
  state = state;
}

abbrev tick_message : Message Value Pixel
tick_message = from_arguments message_signal (text "tick()") (int_argument 8 ∷ []) []

abbrev tick_frame : Bytes
tick_frame = example_qt.put_uint (length tick_bytes) ++ tick_bytes

-- The interface has handed over a signal, the worker has written it, two bytes of it have arrived, and
-- the application's object has changed.
abbrev posted : Session Value Pixel ℕ
posted = record start {
  client = record connected_client { interface = record interface { requests = tick_bytes ∷ [] } };
}

abbrev taken : Session Value Pixel ℕ
taken = record start {
  client = record {
    interface = interface;
    worker = forward_request example_qt tick_bytes connected_client.worker;
  };
}

abbrev begun : Session Value Pixel ℕ
begun = record taken { arrived = registration_frame ++ 0 ∷ 0 ∷ []; receiver = idle (0 ∷ 0 ∷ []) }

abbrev changed : Session Value Pixel ℕ
changed = record begun { state = record state { world = 20 } }

abbrev finished : Session Value Pixel ℕ
finished = record changed {
  arrived = (registration_frame ++ 0 ∷ 0 ∷ []) ++ drop 2 tick_frame;
  receiver = idle [];
  state = record state { world = 21 };
}

start-IsSettled : IsSettled start 6 registered_connection
start-IsSettled = record {
  no_requests = refl;
  connected = refl;
  all_arrived = refl;
  at_rest = refl;
}

tick-Marshalled : Marshalled example_qt example_objects (tick_message ∷ []) (tick_bytes ∷ [])
unfolding marshall_message marshall_arguments marshall_argument_to_stream marshall_plain_to_stream
    header or_empty save_value from_arguments code same
tick-Marshalled =
    (refl, (tt, ((ground arith, tt), tt), omega arith), (omega arith, omega arith), tt)

changed-Run : Run example_qt example_objects connection Meanwhile start (tick_message ∷ []) changed
unfolding forward_request written_by send_call_request receive ready_read ready_read_loop
    read_message_service read_message process_all add_message marshall_message marshall_arguments
    marshall_argument_to_stream marshall_plain_to_stream header or_empty save_value from_arguments
    code same
changed-Run =
    and_then (tick_message ∷ []) [] begun changed
      (and_then (tick_message ∷ []) [] taken begun
        (and_then (tick_message ∷ []) [] posted taken
          (and_then [] (tick_message ∷ []) start posted at_start (
            posts (tick_message ∷ []) (tick_bytes ∷ []) posted.client.interface start
              tick-Marshalled refl))
          (takes tick_bytes [] posted refl))
        (arrives (0 ∷ 0 ∷ []) (drop 2 tick_frame) begun.receiver [] state taken refl refl refl))
      (others changed.state begun (changes 20 state))

finished-Run :
    Run example_qt example_objects connection Meanwhile start (tick_message ∷ []) finished
unfolding forward_request written_by send_call_request receive ready_read ready_read_loop
    read_message_service read_message fetch_size finish_service process_all add_message
    marshall_message marshall_arguments marshall_argument_to_stream marshall_plain_to_stream header
    or_empty save_value from_arguments code same process_message process_call dispatch
    signal_arrived fill_arguments append_empty before_paren demarshall_message message_type_of
    demarshall_arguments demarshall_argument_from_stream load_datum load_plain initialize_request
    from_values
finished-Run = and_then (tick_message ∷ []) [] changed finished changed-Run (
    arrives (drop 2 tick_frame) [] (idle []) (tick_bytes ∷ []) finished.state changed refl refl
      refl)

processed_in_order_example :
    (handled later : List (Message Value Pixel)) × (tick_message ∷ [] ≡ handled ++ later)
    × Handled example_qt example_objects connection Meanwhile state handled changed.state
processed_in_order_example =
    processed_in_order example_qt example_objects connection Meanwhile start changed
      (tick_message ∷ []) 6 registered_connection start-IsSettled changed-Run

all_processed_example :
    Handled example_qt example_objects connection Meanwhile state (tick_message ∷ []) finished.state
    × (idle [] ≡ idle [])
unfolding forward_request written_by send_call_request marshall_message marshall_arguments
    from_arguments marshall_argument_to_stream same marshall_plain_to_stream initialize_request code
    from_values
all_processed_example =
    all_processed example_qt example_objects connection Meanwhile start finished (tick_message ∷ [])
      6 registered_connection start-IsSettled finished-Run refl refl

piece_handed_on_example :
    (handled next later : List (Message Value Pixel)) × (r : Receiver) × (blocks : List Bytes)
    × (tick_message ∷ [] ≡ handled ++ (next ++ later))
    × Handled example_qt example_objects connection Meanwhile state handled changed.state
    × (receive (read_message_service example_qt.stream) changed.receiver (drop 2 tick_frame)
        ≡ some (r, blocks))
    × Marshalled example_qt example_objects next blocks
unfolding forward_request written_by send_call_request marshall_message marshall_arguments
    from_arguments marshall_argument_to_stream same marshall_plain_to_stream initialize_request code
    from_values
piece_handed_on_example =
    piece_handed_on example_qt example_objects connection Meanwhile start changed
      (tick_message ∷ []) 6 registered_connection (drop 2 tick_frame) [] start-IsSettled changed-Run
      refl

-- A call without an answer.
InterfaceAct-Posts_example :
    (ms : List (Message Value Pixel)) × (bs : List Bytes) × Posts example_qt example_objects
      interface
      (record interface {
        requests =
            bytes_of (
              marshall_message example_qt
                (from_values message_call_without_return (text "tick") (int_argument 8 ∷ []) []))
            ∷ [];
      })
      ms
      bs
unfolding marshall_message marshall_arguments marshall_argument_to_stream marshall_plain_to_stream
    header or_empty save_value from_values code same call_no_reply send_asynchronous_request
InterfaceAct-Posts_example =
    InterfaceAct-Posts example_qt example_objects interface _
      (calls silent (text "tick") (int_argument 8 ∷ []) interface _ refl)
