-- ===== src/Example/Calls.antt =====
-- A concrete service and interface, with messages between them.
use cute_ipc.Prelude.{ℕ, refl, true, List, [], ◌∷◌, none, some, arith}
use cute_ipc.Prelude.Result.{Result, ok, fail, fault}
use cute_ipc.Prelude.Text.{Bytes, text, same}
use cute_ipc.Message.{
  GenericArgument, plain, message_call_with_return, message_error, from_values, code,
}
use cute_ipc.Marshaller.Write.{
  marshall_message, marshall_arguments, marshall_argument_to_stream, marshall_plain_to_stream,
  header, or_empty, save_value,
}
use cute_ipc.Marshaller.Response.{value_response}
use cute_ipc.Service.{Service}
use cute_ipc.ServiceConnection.{ServiceConnection, State}
use cute_ipc.Interface.State.{Interface}
use cute_ipc.InterfaceConnection.{block}
use cute_ipc.Interface.Request.{Server, Exchange}
use cute_ipc.Remote.Call.{IsCall}
use cute_ipc.Example.Types.{Pixel, Value, number, example_qt, example_objects}

abbrev pub bytes_of : Result Bytes → Bytes
bytes_of (ok bs) = bs
bytes_of fail = []
bytes_of fault = []

abbrev pub int_argument : ℕ → GenericArgument Value Pixel
int_argument n = record { name = text "int"; value = some (plain (number n)) }

abbrev pub connection : ServiceConnection
connection = record { id = 5; subject = none }

-- A service with two connections; the first one is registered.
abbrev pub service : Service
service = record {
  service_object = 1;
  subject = none;
  handlers = [];
  long_lived = (text "77", 5) ∷ [];
  connections = 6 ∷ 5 ∷ [];
  sent = [];
}

abbrev pub state : State ℕ
state = record { service = service; world = 3 }

abbrev pub interface : Interface Value Pixel
interface = record {
  local_signal_handlers = [];
  last_error = [];
  local_server = text "server";
  tcp_address = none;
  connections = [];
  requests = [];
  invocations = [];
}

abbrev pub read_values : List (GenericArgument Value Pixel)
read_values = int_argument 4 ∷ []

-- read(4), with an int as its result
abbrev pub read_request : Bytes
read_request = bytes_of (
    marshall_message example_qt
      (from_values message_call_with_return (text "read") read_values (text "int")))

abbrev pub read_reply : Bytes
read_reply =
    bytes_of
      (marshall_message example_qt (value_response example_qt (text "read") (int_argument 3)))

-- A method that the service does not have.
abbrev pub lost_request : Bytes
lost_request = bytes_of (
    marshall_message example_qt
      (from_values message_call_with_return (text "lost") read_values (text "int")))

abbrev pub refusal : Bytes
refusal =
    bytes_of
      (marshall_message example_qt (from_values message_error (text "Unsuccessful invoke") [] []))

-- A network that answers every request with these bytes.
abbrev pub answering : Bytes → Server → Bytes → Exchange
answering reply server request = record { connected = true; arrivals = block reply ∷ [] }

pub read_IsCall :
    IsCall example_qt example_objects
      (from_values message_call_with_return (text "read") read_values (text "int"))
      read_request
unfolding marshall_message marshall_arguments marshall_argument_to_stream marshall_plain_to_stream
    header or_empty save_value from_values code same
read_IsCall = record {
  waits = refl;
  returns = refl;
  latin = ground arith;
  registered = omega arith;
  marshalled = refl;
  not_empty = λ e. cc;
  sendable = (tt, ((ground arith, tt), tt), omega arith);
}

pub lost_IsCall :
    IsCall example_qt example_objects
      (from_values message_call_with_return (text "lost") read_values (text "int"))
      lost_request
unfolding marshall_message marshall_arguments marshall_argument_to_stream marshall_plain_to_stream
    header or_empty save_value from_values code same
lost_IsCall = record {
  waits = refl;
  returns = refl;
  latin = ground arith;
  registered = omega arith;
  marshalled = refl;
  not_empty = λ e. cc;
  sendable = (tt, ((ground arith, tt), tt), omega arith);
}

-- A network on which no answer comes.
abbrev pub silent : Server → Bytes → Exchange
silent server request = record { connected = true; arrivals = [] }
