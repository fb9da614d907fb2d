-- ===== src/Example/Boards.antt =====
-- A service and its board, what a receiver holds, and a message that was read, at concrete inputs.
use cute_ipc.Prelude.{All, ◌+◌, ◌≤◌, ◌≡◌, refl, inl, List, [], ◌∷◌, some, arith}
use cute_ipc.Prelude.Text.{Bytes, text, same}
use cute_ipc.Message.{
  Message, message_call_with_return, message_signal, from_values, from_arguments, code,
  message_type_of,
}
use cute_ipc.Marshaller.Write.{
  marshall_message, marshall_arguments, marshall_argument_to_stream, marshall_plain_to_stream,
  header, or_empty, save_value,
}
use cute_ipc.Marshaller.Read.{
  demarshall_message, demarshall_arguments, demarshall_argument_from_stream, load_datum, load_plain,
}
use cute_ipc.Marshaller.Loaded.{IsTyped}
use cute_ipc.Marshaller.Typed.{IsDefined, demarshall_message-IsTyped}
use cute_ipc.Receiver.{Receiver, idle, read_message_service, receive_all}
use cute_ipc.Receiver.Total.{IsReceiver}
use cute_ipc.Receiver.Bounds.{held, total_size, receive_all_bounded}
use cute_ipc.Service.BoardSteps.{Label, subscribed, silent}
use cute_ipc.Example.Types.{Pixel, Value, example_qt}
use cute_ipc.Example.Streams.{example_stream}
use cute_ipc.Example.Calls.{read_request, int_argument}
use cute_ipc.Example.Subscribers
use cute_ipc.Example.Subscribers.{signal, signal_bytes}

-- A connection came, registered and subscribed.
abbrev labels : List Label
labels = subscribed signal 5 ∷ silent ∷ silent ∷ []

-- Two pieces: a size that is too large for what follows it, and a byte.
receive_all_bounded_example :
    (r' : Receiver) × (ms : List Bytes) × (receive_all
        (read_message_service example_stream)
        (idle [])
        ((0 ∷ 0 ∷ 0 ∷ 200 ∷ []) ∷ (7 ∷ []) ∷ [])
      ≡ some (r', ms))
    × IsReceiver r'
    × (held r' + total_size ms ≤ 5)
receive_all_bounded_example =
    receive_all_bounded example_stream ((0 ∷ 0 ∷ 0 ∷ 200 ∷ []) ∷ (7 ∷ []) ∷ []) (idle [])
      (record { shape = inl (refl, refl); room = omega arith; size = omega arith }) (omega arith)

abbrev read_message : Message Value Pixel
read_message = record {
  method = text "read";
  arguments = int_argument 4 ∷ [];
  message_type = message_call_with_return;
  return_type = text "int";
}

-- The arguments of a request, in a signal.
demarshall_message-IsTyped_example :
    All (IsTyped example_qt) read_message.arguments
    × IsDefined (
        marshall_message example_qt
          (from_arguments message_signal signal read_message.arguments []))
unfolding marshall_message marshall_arguments marshall_argument_to_stream marshall_plain_to_stream
    header or_empty save_value from_values from_arguments code same demarshall_message
    message_type_of demarshall_arguments demarshall_argument_from_stream load_datum load_plain
demarshall_message-IsTyped_example =
    demarshall_message-IsTyped example_qt read_request read_message message_signal signal [] refl
