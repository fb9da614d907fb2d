-- ===== src/Example/Memories.antt =====
-- The memory that messages take, at concrete messages.
use cute_ipc.Prelude.{some, ◌-◌, ◌≡◌, refl, List, [], ◌∷◌, ◌++◌, none, length}
use cute_ipc.Prelude.Int.{pos}
use cute_ipc.Prelude.Result.{ok}
use cute_ipc.Prelude.Text.{Bytes, text, same, before_paren}
use cute_ipc.Message.{Message, message_signal, from_values, from_arguments, code, message_type_of}
use cute_ipc.Marshaller.Write.{
  marshall_message, marshall_arguments, marshall_argument_to_stream, marshall_plain_to_stream,
  header, or_empty, save_value,
}
use cute_ipc.Marshaller.Read.{
  read_bits, load_image, load_plain, load_datum, demarshall_argument_from_stream,
  demarshall_arguments, demarshall_message,
}
use cute_ipc.InterfaceConnection.{invoke_remote_signal, emit, handle_type}
use cute_ipc.Interface.State.{MethodData}
use cute_ipc.Memory.{name_cell, Cell, Heap, image_memory, announced_arguments}
use cute_ipc.ServiceConnection.{
  append_empty, fill_arguments, signal_arrived, dispatch, process_call, process_message,
}
use cute_ipc.Memory.Loading.{IsBits}
use cute_ipc.Memory.Handlers.{process_message_memory, receive_memory}
use cute_ipc.Memory.Freed.{Freed, process_message-Freed, receive_memory-Freed, cut_image_lost}
use cute_ipc.Example.Types.{Pixel, Value, example_qt, example_objects}
use cute_ipc.Example.Calls.{int_argument, connection, state}
use cute_ipc.Example.Waits.{signal, signal_bytes}
use cute_ipc.Example.Workers.{open_connection, tick_bytes}

-- A heap in which something else is live.
abbrev heap : Heap
heap = record { next = 4; live = record { address = 3; kind = name_cell } ∷ [] }

abbrev tick_message : Message Value Pixel
tick_message = from_arguments message_signal (text "tick()") (int_argument 8 ∷ []) []

process_message-Freed_example :
    Freed
      (process_message_memory example_qt example_objects tick_bytes heap)
      heap
      ((announced_arguments example_qt tick_bytes).0 - length tick_message.arguments)
unfolding marshall_message marshall_arguments marshall_argument_to_stream marshall_plain_to_stream
    header or_empty save_value from_values from_arguments code same demarshall_message
    message_type_of demarshall_arguments demarshall_argument_from_stream load_datum load_plain
    process_message process_call dispatch signal_arrived fill_arguments append_empty before_paren
process_message-Freed_example =
    process_message-Freed example_qt example_objects connection state (record state { world = 4 })
      tick_bytes heap tick_message refl refl

abbrev receivers : List MethodData
receivers = record { object = 9; method = signal } ∷ []

receive_memory-Freed_example :
    Freed (receive_memory example_qt message_signal none (some receivers) signal_bytes heap) heap 1
unfolding marshall_message marshall_arguments marshall_argument_to_stream marshall_plain_to_stream
    header or_empty save_value from_values from_arguments code same handle_type demarshall_message
    message_type_of demarshall_arguments demarshall_argument_from_stream load_datum load_plain
receive_memory-Freed_example =
    receive_memory-Freed example_qt message_signal open_connection
      (emit example_qt (invoke_remote_signal signal (int_argument 8 ∷ []) ∷ []) open_connection)
      (some receivers) signal_bytes heap refl tt

-- An image that announces four bytes and has one.
abbrev cut_image : Bytes
cut_image =
    example_qt.put_int (pos 1)
    ++ (example_qt.put_int (pos 1)
        ++ (example_qt.put_int (pos 4)
            ++ (example_qt.put_int (pos 4)
                ++ (example_qt.put_int (pos 1)
                    ++ (example_qt.put_int (pos 1)
                        ++ (example_qt.put_colors [] ++ (example_qt.put_int (pos 4) ++ 9 ∷ [])))))))

cut_image_lost_example :
    (c : Cell) × (h' : Heap) × (image_memory example_qt cut_image heap ≡ ok h')
    × (h'.live ≡ c ∷ heap.live)
    × IsBits c
    × (c.address ≡ 4)
unfolding load_image read_bits
cut_image_lost_example = cut_image_lost example_qt cut_image heap refl
