-- ===== src/Remote/Downlink.antt =====
-- A connection at work in the other direction: the service writes answers and signals to it, their
-- bytes come to the client in pieces, and the interface learns of them (src/CuteIPCService.cpp,
-- src/CuteIPCServiceConnection.cpp, src/CuteIPCInterfaceConnection.cpp, src/CuteIPCInterface.cpp). The
-- steps come in any order. `Meanwhile` is what else may happen at the interface.
pub mod Sends
pub mod Hearing
pub mod Blocks
pub mod Tracking
pub mod Order
use cute_ipc.Prelude.{
  ℕ, ◌≡◌, List, [], ◌∷◌, ◌++◌, Option, none, some, length, All, ◌==◌, if◌then◌else◌,
}
use cute_ipc.Prelude.Result.{Result, ok, fail, fault, ◌>>=◌}
use cute_ipc.Prelude.Text.{Bytes}
use cute_ipc.Qt.{Qt}
use cute_ipc.MetaObjects.{MetaObjects}
use cute_ipc.Message.{Message, MessageType, message_response, message_error, message_signal}
use cute_ipc.Marshaller.Write.{marshall_message}
use cute_ipc.Marshaller.RoundTrip.{IsSendableMessage}
use cute_ipc.Receiver.{Receiver, idle, read_message_interface, receive}
use cute_ipc.Receiver.Pending.{IsBlock}
use cute_ipc.ServiceConnection.{ServiceConnection, State, process_message}
use cute_ipc.InterfaceConnection.{InterfaceConnection, block}
use cute_ipc.Interface.State
use cute_ipc.Interface.State.{Interface, set_last_error}
use cute_ipc.Worker.{forward_request}
use cute_ipc.Client.{Client, client_receives}
use cute_ipc.Remote.Session.{Other}

-- A message that the service writes to a connection, and its bytes.
pub record Sending (V I : Type 0) : Type 0 where
  pub connection : ℕ
  pub message : Message V I
  pub body : Bytes

-- `arrived` are the bytes of the service that came to the client, whose receiver is `receiver`.
pub record Downlink (V I W : Type 0) : Type 0 where
  pub state : State W
  pub arrived : Bytes
  pub receiver : Receiver
  pub client : Client V I

-- What was written to a connection, in a log.
unfoldable pub bytes_to : ℕ → List (ℕ × Bytes) → Bytes
bytes_to c [] = []
bytes_to c ((x, b) ∷ log) = let rest = bytes_to c log in if x == c then b ++ rest else rest

-- What a service writes in a run: responses, errors and signals.
abbrev pub IsForClient : MessageType → Type 0
IsForClient message_response = Unit {0}
IsForClient message_error = Unit {0}
IsForClient message_signal = Unit {0}
IsForClient _ = ⊥

module _ {V I : Type 0} where
  abbrev pub messages_to : ℕ → List (Sending V I) → List (Message V I)
  messages_to c [] = []
  messages_to c (x ∷ sends) =
      let rest = messages_to c sends in if x.connection == c then x.message ∷ rest else rest

module _ {V I W : Type 0} (q : Qt V I) (o : MetaObjects V I W) where
  abbrev pub logged : List (Sending V I) → List (ℕ × Bytes)
  logged [] = []
  logged (x ∷ sends) = (x.connection, q.put_uint (length x.body) ++ x.body) ∷ logged sends

  abbrev pub IsSending : Sending V I → Type 0
  IsSending x = IsForClient x.message.message_type × (marshall_message q x.message ≡ ok x.body)

  -- The limits of the wire.
  abbrev pub IsSmall : Sending V I → Type 0
  IsSmall x = IsSendableMessage x.message × IsBlock x.body

  abbrev pub Sends : State W → State W → List (Sending V I) → Type 0
  Sends s s' sends = (s'.service.sent ≡ s.service.sent ++ logged sends) × All IsSending sends

  -- The service processes a request of the connection, or acts otherwise.
  pub data ServiceAct (sc : ServiceConnection) : State W → State W → Type 0 where
    own : (b : Bytes) (s s' : State W) → process_message q o sc b s ≡ ok s' → ServiceAct sc s s'
    for_others : (s s' : State W) → Other q o sc s s' → ServiceAct sc s s'

  -- The client handles blocks one after the other.
  unfoldable pub receive_blocks : List Bytes → Client V I → Result (Client V I)
  receive_blocks [] c = ok c
  receive_blocks (b ∷ bs) c = client_receives q o (block b) c >>= receive_blocks bs

  -- What a message means for the interface.
  unfoldable pub learn : MessageType → Message V I → Interface V I → Interface V I
  learn message_error m d = set_last_error m.method d
  learn message_signal m d =
      cute_ipc.Interface.State.invoke_remote_signal q o m.method m.arguments d
  learn _ m d = d

module _ {V I W : Type 0} (q : Qt V I) (o : MetaObjects V I W) (sc : ServiceConnection)
    (Meanwhile : Interface V I → Interface V I → Type 0) where
  -- A step, with the messages that the service writes to the connection in it.
  pub data DownStep : Downlink V I W → List (Message V I) → Downlink V I W → Type 0 where
    serves :
        (sends : List (Sending V I)) (s : State W) (x : Downlink V I W)
        → ServiceAct q o sc x.state s
        → Sends q o x.state s sends
        → All (IsSmall q o) sends
        → DownStep x (messages_to sc.id sends) (record x { state = s })
    arrives :
        (piece rest : Bytes) (r : Receiver) (blocks : List Bytes) (c : Client V I)
        (x : Downlink V I W)
        → bytes_to sc.id x.state.service.sent ≡ x.arrived ++ (piece ++ rest)
        → receive (read_message_interface q.stream) x.receiver piece ≡ some (r, blocks)
        → receive_blocks q o blocks x.client ≡ ok c
        → DownStep x [] (record x { arrived = x.arrived ++ piece; receiver = r; client = c })
    forwards :
        (b : Bytes) (x : Downlink V I W)
        → DownStep x []
            (record x { client = record x.client { worker = forward_request q b x.client.worker } })
    others :
        (d : Interface V I) (x : Downlink V I W)
        → Meanwhile x.client.interface d
        → DownStep x [] (record x { client = record x.client { interface = d } })

  -- Any number of steps, with all messages that were written to the connection, in order.
  pub data DownRun (x : Downlink V I W) : List (Message V I) → Downlink V I W → Type 0 where
    at_start : DownRun x [] x
    and_then :
        (sent ms : List (Message V I)) (y z : Downlink V I W)
        → DownRun x sent y
        → DownStep y ms z
        → DownRun x (sent ++ ms) z

module _ {V I W : Type 0} (q : Qt V I) (o : MetaObjects V I W)
    (Meanwhile : Interface V I → Interface V I → Type 0) where
  -- What is asked of the interface: it learns of exactly these messages, each once and in this order.
  pub data Heard (d : Interface V I) : List (Message V I) → Interface V I → Type 0 where
    nothing : Heard d [] d
    hears :
        (ms : List (Message V I)) (m : Message V I) (d' : Interface V I)
        → Heard d ms d'
        → Heard d (ms ++ m ∷ []) (learn q o m.message_type m d')
    meanwhile :
        (ms : List (Message V I)) (d' d'' : Interface V I)
        → Heard d ms d'
        → Meanwhile d' d''
        → Heard d ms d''

module _ {V I W : Type 0} (sc : ServiceConnection) where
  -- The client has a connection, and nothing is on its way.
  pub record IsQuiet (x : Downlink V I W) (address : ℕ) (conn : InterfaceConnection V I)
      : Type 0 where
    pub connected : x.client.worker.connection ≡ some (address, conn)
    pub all_arrived : bytes_to sc.id x.state.service.sent ≡ x.arrived
    pub at_rest : x.receiver ≡ idle []
