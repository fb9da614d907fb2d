-- ===== src/Example/Downlinks.antt =====
-- A signal of a concrete service on its way to a concrete client.
use cute_ipc.Prelude.{ℕ, ◌≡◌, refl, List, [], ◌∷◌, ◌++◌, some, length, drop, arith}
use cute_ipc.Prelude.Result.{ok}
use cute_ipc.Prelude.Text.{Text, Bytes, text, same}
use cute_ipc.Prelude.Hash.{lookup, insert}
use cute_ipc.Message.{Message, plain, from_arguments, code, message_type_of}
use cute_ipc.Marshaller.Write.{
  marshall_message, marshall_arguments, marshall_argument_to_stream, marshall_plain_to_stream,
  header, or_empty, save_value,
}
use cute_ipc.Marshaller.Read.{
  load_plain, load_datum, demarshall_argument_from_stream, demarshall_arguments, demarshall_message,
  demarshall_message_type,
}
use cute_ipc.Receiver.{
  idle, fetch_size, read_message, read_message_interface, finish_interface, add_message,
  ready_read_loop, ready_read, receive,
}
use cute_ipc.SignalHandler.{relay_arguments, relay_slot, parameter_info}
use cute_ipc.Service.{send_response, send_signal_to, handler_captures}
use cute_ipc.ServiceConnection.{State}
use cute_ipc.InterfaceConnection.{invoke_remote_signal, handle_type, handle_block, handle_arrival}
use cute_ipc.Interface.State
use cute_ipc.Interface.State.{Interface, set_last_error}
use cute_ipc.Worker.{is_disconnected, worker_receives}
use cute_ipc.Client.{Client, pass_on, client_receives}
use cute_ipc.Remote.Session.{emits}
use cute_ipc.Remote.Downlink.{
  Sending, Downlink, bytes_to, Sends, for_others, receive_blocks, serves, arrives, others, DownRun,
  at_start, and_then, Heard, IsQuiet,
}
use cute_ipc.Remote.Downlink.Sends.{ServiceAct-Sends}
use cute_ipc.Remote.Downlink.Order.{learnt_in_order, all_learnt}
use cute_ipc.Example.Types.{Pixel, Value, number, example_qt, example_objects}
use cute_ipc.Example.Calls.{int_argument, connection}
use cute_ipc.Example.Waits.{signal, signal_message, signal_bytes}
use cute_ipc.Example.Workers.{open_connection, busy_service, listening}

-- The interface's last error may change at any time.
abbrev Meanwhile : Interface Value Pixel → Interface Value Pixel → Type 0
Meanwhile d d' = (t : Text) × (d' ≡ set_last_error t d)

abbrev signal_frame : Bytes
signal_frame = example_qt.put_uint (length signal_bytes) ++ signal_bytes

abbrev busy : State ℕ
busy = record { service = busy_service; world = 3 }

abbrev after_signal : State ℕ
after_signal = record busy { service = record busy_service { sent = (5, signal_frame) ∷ [] } }

abbrev start : Downlink Value Pixel ℕ
start = record { state = busy; arrived = []; receiver = idle []; client = listening }

-- The service has emitted the signal, a byte of it has arrived, and a call has failed.
abbrev served : Downlink Value Pixel ℕ
served = record start { state = after_signal }

abbrev begun : Downlink Value Pixel ℕ
begun = record served { arrived = 0 ∷ []; receiver = idle (0 ∷ []) }

abbrev disturbed : Downlink Value Pixel ℕ
disturbed = record begun {
  client = record listening { interface = set_last_error (text "late") listening.interface };
}

abbrev informed : Client Value Pixel
informed = record {
  interface =
      cute_ipc.Interface.State.invoke_remote_signal example_qt example_objects signal
        (int_argument 8 ∷ []) disturbed.client.interface;
  worker = record listening.worker {
    connection = some (
      6,
      record open_connection { emitted = invoke_remote_signal signal (int_argument 8 ∷ []) ∷ [] },
    );
  };
}

abbrev finished : Downlink Value Pixel ℕ
finished = record disturbed {
  arrived = (0 ∷ []) ++ drop 1 signal_frame;
  receiver = idle [];
  client = informed;
}

abbrev sending : Sending Value Pixel
sending = record { connection = 5; message = signal_message; body = signal_bytes }

start-IsQuiet : IsQuiet connection start 6 open_connection
unfolding bytes_to
start-IsQuiet = record { connected = refl; all_arrived = refl; at_rest = refl }

signal_emitted :
    handler_captures example_qt example_objects signal (plain (number 8) ∷ []) busy_service
    ≡ ok after_signal.service
unfolding marshall_message marshall_arguments marshall_argument_to_stream marshall_plain_to_stream
    header or_empty save_value from_arguments code same lookup insert relay_arguments relay_slot
    parameter_info send_response send_signal_to handler_captures
signal_emitted = refl

disturbed-DownRun :
    DownRun example_qt example_objects connection Meanwhile start (signal_message ∷ []) disturbed
unfolding marshall_message marshall_arguments marshall_argument_to_stream marshall_plain_to_stream
    header or_empty save_value from_arguments code same bytes_to receive ready_read ready_read_loop
    read_message_interface read_message add_message receive_blocks
disturbed-DownRun =
    and_then (signal_message ∷ []) [] begun disturbed
      (and_then (signal_message ∷ []) [] served begun
        (and_then [] (signal_message ∷ []) start served at_start (
          serves (sending ∷ []) after_signal start
            (for_others busy after_signal
              (emits signal (plain (number 8) ∷ []) busy after_signal.service signal_emitted))
            (refl, ((tt, refl), tt))
            (((tt, ((ground arith, tt), tt), omega arith), (omega arith, omega arith)), tt)))
        (arrives (0 ∷ []) (drop 1 signal_frame) begun.receiver [] listening served refl refl refl))
      (others disturbed.client.interface begun (text "late", refl))

finished-DownRun :
    DownRun example_qt example_objects connection Meanwhile start (signal_message ∷ []) finished
unfolding marshall_message marshall_arguments marshall_argument_to_stream marshall_plain_to_stream
    header or_empty save_value from_arguments code same bytes_to receive ready_read ready_read_loop
    read_message_interface read_message fetch_size finish_interface add_message receive_blocks
    client_receives worker_receives handle_arrival handle_block handle_type is_disconnected pass_on
    demarshall_message_type demarshall_message message_type_of demarshall_arguments
    demarshall_argument_from_stream load_datum load_plain
finished-DownRun = and_then (signal_message ∷ []) [] disturbed finished disturbed-DownRun (
    arrives (drop 1 signal_frame) [] (idle []) (signal_bytes ∷ []) informed disturbed refl refl
      refl)

learnt_in_order_example :
    (heard later : List (Message Value Pixel)) × (signal_message ∷ [] ≡ heard ++ later)
    × Heard example_qt example_objects Meanwhile listening.interface heard
        disturbed.client.interface
learnt_in_order_example =
    learnt_in_order example_qt example_objects connection Meanwhile start disturbed
      (signal_message ∷ []) 6 open_connection start-IsQuiet disturbed-DownRun

all_learnt_example :
    Heard example_qt example_objects Meanwhile listening.interface
      (signal_message ∷ [])
      informed.interface
    × (idle [] ≡ idle [])
unfolding marshall_message marshall_arguments marshall_argument_to_stream marshall_plain_to_stream
    from_arguments same bytes_to
all_learnt_example =
    all_learnt example_qt example_objects connection Meanwhile start finished (signal_message ∷ [])
      6 open_connection start-IsQuiet finished-DownRun refl

ServiceAct-Sends_example :
    (sends : List (Sending Value Pixel)) × Sends example_qt example_objects busy after_signal sends
ServiceAct-Sends_example =
    ServiceAct-Sends example_qt example_objects connection busy after_signal (
      for_others busy after_signal
        (emits signal (plain (number 8) ∷ []) busy after_signal.service signal_emitted))
