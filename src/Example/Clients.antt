-- ===== src/Example/Clients.antt =====
-- The theorems about the tables of the interface, at a concrete interface.
use cute_ipc.Prelude.{ℕ, ◌≡◌, ◌≢◌, refl, true, List, [], ◌∷◌, ◌++◌, All, if◌then◌else◌}
use cute_ipc.Prelude.Text.{Text, Bytes, text, same, mid_one}
use cute_ipc.Message.{message_response, from_values, from_arguments, code, message_type_of}
use cute_ipc.Marshaller.Write.{
  marshall_message, marshall_arguments, marshall_argument_to_stream, marshall_plain_to_stream,
  header, or_empty, save_value,
}
use cute_ipc.Marshaller.Read.{demarshall_message_type, demarshall_response, load_if_any}
use cute_ipc.InterfaceConnection.{
  new_connection, set_returned_object, send_call_request, handle_type, handle_block, quits,
  handle_arrival, wait,
}
use cute_ipc.Interface.State.{
  Invocation, Interface, register_connection, has_connection, remove_connection,
  remove_remote_connections_of_object, invoke_remote_signal, same_data,
}
use cute_ipc.Interface.Request.{
  returned, Server, Exchange, report, after_loop, server_of, send_to, send_synchronous_request,
  with_request, send_remote_connect_request, send_remote_disconnect_request,
}
use cute_ipc.Interface.Connect.{
  is_signal_and_method, check_connect_correction, has_method, connect_if_new, remote_connect,
  disconnect_if_last, disconnect_signal,
}
use cute_ipc.Interface.Tables.{destroyed_not_invoked}
use cute_ipc.Interface.Connections.{remote_connect_registers, connected_disconnected_signal}
use cute_ipc.Example.Types.{Pixel, Value, example_qt, example_objects}
use cute_ipc.Example.Calls.{bytes_of, int_argument, interface, answering}

abbrev signal : Text
signal = text "changed(int)"

abbrev slot : Text
slot = text "tick()"

-- The server responds to every request.
abbrev net : Server → Bytes → Exchange
net = answering (bytes_of (marshall_message example_qt (from_values message_response signal [] [])))

-- Object 9 listens to the remote signal.
abbrev listening : Interface Value Pixel
listening = record interface { connections = (signal, record { object = 9; method = slot }) ∷ [] }

connects :
    remote_connect example_qt example_objects net
      (text "77")
      (b'2' ∷ signal)
      9
      (b'1' ∷ slot)
      interface
    ≡ returned (listening, true)
unfolding marshall_message marshall_arguments marshall_argument_to_stream marshall_plain_to_stream
    header or_empty save_value from_values from_arguments code same message_type_of
    demarshall_message_type demarshall_response load_if_any new_connection set_returned_object
    send_call_request handle_type handle_block quits handle_arrival wait report after_loop server_of
    send_to send_synchronous_request with_request send_remote_connect_request remote_connect
    check_connect_correction has_method connect_if_new is_signal_and_method has_connection
    register_connection
connects = refl

disconnects :
    disconnect_signal example_qt example_objects net
      (text "77")
      (b'2' ∷ signal)
      9
      (b'1' ∷ slot)
      listening
    ≡ returned (interface, true)
unfolding marshall_message marshall_arguments marshall_argument_to_stream marshall_plain_to_stream
    header or_empty save_value from_values from_arguments code same message_type_of
    demarshall_message_type demarshall_response load_if_any new_connection set_returned_object
    send_call_request handle_type handle_block quits handle_arrival wait report after_loop server_of
    send_to send_synchronous_request with_request send_remote_disconnect_request disconnect_signal
    disconnect_if_last is_signal_and_method has_connection remove_connection same_data
disconnects = refl

remote_connect_registers_example :
    (listening.connections ≡ (
      if true
      then (mid_one (b'2' ∷ signal), record { object = 9; method = mid_one (b'1' ∷ slot) })
        ∷ interface.connections
      else interface.connections))
    × (true ≡ true → ◌≢◌ {A = ℕ} 9 0)
    × (true ≡ true → is_signal_and_method (b'2' ∷ signal) (b'1' ∷ slot) ≡ true)
    × (listening.local_signal_handlers ≡ interface.local_signal_handlers)
remote_connect_registers_example =
    remote_connect_registers example_qt example_objects net (text "77") (b'2' ∷ signal)
      (b'1' ∷ slot) 9 interface listening true connects

connected_disconnected_signal_example :
    (true ≡ true)
    × (interface.connections
        ≡ remove_connection
            (mid_one (b'2' ∷ signal))
            (record { object = 9; method = mid_one (b'1' ∷ slot) })
            interface.connections)
    × (interface.local_signal_handlers ≡ interface.local_signal_handlers)
connected_disconnected_signal_example =
    connected_disconnected_signal example_qt example_objects net (text "77") (b'2' ∷ signal)
      (b'1' ∷ slot) 9 interface listening interface true connects disconnects

destroyed_not_invoked_example :
    (new : List (Invocation Value Pixel)) × ((invoke_remote_signal example_qt example_objects signal
        (int_argument 8 ∷ [])
        (remove_remote_connections_of_object 9 listening)).invocations
      ≡ [] ++ new)
    × All (λ i. i.receiver ≢ 9) new
destroyed_not_invoked_example =
    destroyed_not_invoked example_qt example_objects 9 signal (int_argument 8 ∷ []) listening
