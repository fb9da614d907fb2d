-- ===== src/Example/Waits.antt =====
-- Calls whose answer is late or does not come, at a concrete interface.
use cute_ipc.Prelude.{◌≡◌, refl, true, [], ◌∷◌, none, some, arith}
use cute_ipc.Prelude.Text.{Text, Bytes, text, same}
use cute_ipc.Message.{Message, plain, message_signal, from_values, from_arguments, code}
use cute_ipc.Marshaller.Write.{
  marshall_message, marshall_arguments, marshall_argument_to_stream, marshall_plain_to_stream,
  header, or_empty, save_value,
}
use cute_ipc.InterfaceConnection.{block, socket_error, disconnected}
use cute_ipc.Interface.State.{set_last_error}
use cute_ipc.Interface.Request.{returned, Server, local_server, Exchange, server_of, call}
use cute_ipc.Remote.Waiting.{answer_ends_the_wait, lost_call_reports_success}
use cute_ipc.Example.Types.{Pixel, Value, number, example_qt, example_objects}
use cute_ipc.Example.Calls.{
  bytes_of, int_argument, interface, read_values, read_request, read_reply,
}

abbrev pub signal : Text
signal = text "changed(int)"

abbrev pub signal_message : Message Value Pixel
signal_message = from_arguments message_signal signal (int_argument 8 ∷ []) []

abbrev pub signal_bytes : Bytes
signal_bytes = bytes_of (marshall_message example_qt signal_message)

-- A signal of the service comes before the answer.
abbrev late : Server → Bytes → Exchange
late server request = record {
  connected = true;
  arrivals = block signal_bytes ∷ block read_reply ∷ disconnected ∷ [];
}

-- A signal of the service comes, and then the connection is lost.
abbrev broken : Server → Bytes → Exchange
broken server request = record {
  connected = true;
  arrivals = block signal_bytes ∷ socket_error (text "closed") ∷ disconnected ∷ [];
}

answer_ends_the_wait_example :
    call example_qt example_objects late (text "read") (text "int") read_values interface
    ≡ returned (record { interface = interface; success = true; stored = some (plain (number 3)) })
unfolding marshall_message marshall_arguments marshall_argument_to_stream marshall_plain_to_stream
    header or_empty save_value from_values from_arguments code same server_of
answer_ends_the_wait_example =
    answer_ends_the_wait example_qt example_objects late interface (local_server (text "server"))
      (text "read") (text "int") read_values read_request read_reply (plain (number 3))
      ((signal_message, signal_bytes) ∷ []) (disconnected ∷ []) refl refl (λ e. cc)
      (ground arith, tt) ((refl, (λ e. cc), (tt, ((ground arith, tt), tt), omega arith), tt), tt) tt
      refl refl

lost_call_reports_success_example :
    call example_qt example_objects broken (text "read") (text "int") read_values interface
    ≡ returned (record {
      interface = set_last_error (text "closed") interface;
      success = true;
      stored = none;
    })
unfolding marshall_message marshall_arguments marshall_argument_to_stream marshall_plain_to_stream
    header or_empty save_value from_values from_arguments code same server_of
lost_call_reports_success_example =
    lost_call_reports_success example_qt example_objects broken interface
      (local_server (text "server")) (text "read") (text "int") read_values read_request
      (text "closed") ((signal_message, signal_bytes) ∷ []) [] refl
      ((refl, (λ e. cc), (tt, ((ground arith, tt), tt), omega arith), tt), tt) tt refl refl
