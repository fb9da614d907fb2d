-- ===== src/Remote/Session.antt =====
-- A connection at work: an interface hands requests to its worker, the worker sends them, their bytes
-- come to the service in pieces, and the service, which other connections use too, processes them
-- (src/CuteIPCInterface.cpp, src/CuteIPCInterfaceWorker.cpp, src/CuteIPCServiceConnection.cpp,
-- src/CuteIPCService.cpp). The parts run in threads and processes of their own: their steps come in
-- any order. `Meanwhile` is what others may do to the service.
pub mod Sent
pub mod Posted
pub mod Tracking
pub mod Order
use cute_ipc.Prelude.{ℕ, ◌≡◌, ◌≢◌, List, [], ◌∷◌, ◌++◌, Option, none, some}
use cute_ipc.Prelude.Result.{ok}
use cute_ipc.Prelude.Text.{Text, Bytes}
use cute_ipc.Qt.{Qt}
use cute_ipc.MetaObjects.{MetaObjects}
use cute_ipc.Message.{Datum, GenericArgument, Message}
use cute_ipc.Receiver.{Receiver, idle, read_message_service, receive}
use cute_ipc.Service.{Service, connection_destroyed, new_connection, handler_captures}
use cute_ipc.ServiceConnection.{ServiceConnection, State, process_call, process_message}
use cute_ipc.InterfaceConnection.{InterfaceConnection}
use cute_ipc.Interface.State
use cute_ipc.Interface.State.{
  MethodData, Interface, set_last_error, register_connection, remove_remote_connections_of_object,
  remove_signal_handlers_of_object, handle_local_signal_request, local_object_emits,
}
use cute_ipc.Interface.Request.{Server, Exchange, returned, call_no_reply}
use cute_ipc.Worker.{Worker, forward_request}
use cute_ipc.Client.{Client}
use cute_ipc.Remote.Stream.{Marshalled, process_all}

-- `arrived` are the bytes of the client that came to the service, and `receiver` is that of the
-- service's end of the connection.
pub record Session (V I W : Type 0) : Type 0 where
  pub client : Client V I
  pub arrived : Bytes
  pub receiver : Receiver
  pub state : State W

-- What the worker has sent.
unfoldable pub written_by : {V I : Type 0} → Worker V I → Bytes
written_by w = elim w.connection [ none ↦ [] | some (address, conn) ↦ conn.written ]

module _ {V I W : Type 0} (q : Qt V I) (o : MetaObjects V I W) where
  -- What an interface does: the application calls a method without waiting for an answer, and connects
  -- local signals; local objects emit signals and are destroyed; signals and errors come.
  pub data InterfaceAct : Interface V I → Interface V I → Type 0 where
    calls :
        (net : Server → Bytes → Exchange) (method : Text) (values : List (GenericArgument V I))
        (d d' : Interface V I)
        → call_no_reply q o net method values d ≡ returned d'
        → InterfaceAct d d'
    local_signal :
        (parent : ℕ) (m : MethodData) (values : List (Datum V I)) (d d' : Interface V I)
        → local_object_emits q o parent m values d ≡ ok d'
        → InterfaceAct d d'
    connects_local :
        (object : ℕ) (signal slot : Text) (d : Interface V I)
        → InterfaceAct d (handle_local_signal_request q o object signal slot d)
    registers :
        (signal : Text) (receiver : ℕ) (method : Text) (d : Interface V I)
        → InterfaceAct d (register_connection signal receiver method d)
    loses_object :
        (object : ℕ) (d : Interface V I)
        → InterfaceAct d
            (remove_remote_connections_of_object object (remove_signal_handlers_of_object object d))
    remote_signal :
        (signal : Text) (arguments : List (GenericArgument V I)) (d : Interface V I)
        → InterfaceAct d (cute_ipc.Interface.State.invoke_remote_signal q o signal arguments d)
    remote_error : (error : Text) (d : Interface V I) → InterfaceAct d (set_last_error error d)

module _ {V I W : Type 0} (q : Qt V I) (o : MetaObjects V I W) (sc : ServiceConnection) where
  -- What others do at the service: other connections come, send requests and are destroyed, the
  -- handlers capture signals of the subject, and the application's objects change.
  pub data Other : State W → State W → Type 0 where
    requests :
        (c : ServiceConnection) (block : Bytes) (s s' : State W)
        → c.id ≢ sc.id
        → process_message q o c block s ≡ ok s'
        → Other s s'
    connects : (c : ℕ) (s : State W) → Other s (record s { service = new_connection c s.service })
    is_destroyed :
        (c : ℕ) (s : State W)
        → c ≢ sc.id
        → Other s (record s { service = connection_destroyed c s.service })
    emits :
        (signature : Text) (values : List (Datum V I)) (s : State W) (service : Service)
        → handler_captures q o signature values s.service ≡ ok service
        → Other s (record s { service = service })
    changes : (world : W) (s : State W) → Other s (record s { world = world })

module _ {V I W : Type 0} (q : Qt V I) (o : MetaObjects V I W) (sc : ServiceConnection)
    (Meanwhile : State W → State W → Type 0) where
  -- A step, with the messages that the interface hands to its worker in it.
  pub data SessionStep : Session V I W → List (Message V I) → Session V I W → Type 0 where
    -- Whatever the interface does.
    posts :
        (ms : List (Message V I)) (bs : List Bytes) (d : Interface V I) (x : Session V I W)
        → Marshalled q o ms bs
        → d.requests ≡ x.client.interface.requests ++ bs
        → SessionStep x ms (record x { client = record x.client { interface = d } })
    -- The worker gets the oldest of the requests that wait for it.
    takes :
        (b : Bytes) (bs : List Bytes) (x : Session V I W)
        → x.client.interface.requests ≡ b ∷ bs
        → SessionStep x [] (record x {
          client = record {
            interface = record x.client.interface { requests = bs };
            worker = forward_request q b x.client.worker;
          };
        })
    -- Some of the bytes on their way come to the service, which processes the blocks completed.
    arrives :
        (piece rest : Bytes) (r : Receiver) (blocks : List Bytes) (s : State W) (x : Session V I W)
        → written_by x.client.worker ≡ x.arrived ++ (piece ++ rest)
        → receive (read_message_service q.stream) x.receiver piece ≡ some (r, blocks)
        → process_all q o sc blocks x.state ≡ ok s
        → SessionStep x [] (record x { arrived = x.arrived ++ piece; receiver = r; state = s })
    others :
        (s : State W) (x : Session V I W)
        → Meanwhile x.state s
        → SessionStep x [] (record x { state = s })

  -- Any number of steps, with all messages that were handed to the worker, in order.
  pub data Run (x : Session V I W) : List (Message V I) → Session V I W → Type 0 where
    at_start : Run x [] x
    and_then :
        (posted ms : List (Message V I)) (y z : Session V I W)
        → Run x posted y
        → SessionStep y ms z
        → Run x (posted ++ ms) z

  -- What is asked of the service: exactly these messages are processed, each once and in this order,
  -- and what happens meanwhile happens between them.
  pub data Handled (s : State W) : List (Message V I) → State W → Type 0 where
    nothing : Handled s [] s
    handles :
        (ms : List (Message V I)) (m : Message V I) (s' s'' : State W)
        → Handled s ms s'
        → process_call q o sc m s' ≡ ok s''
        → Handled s (ms ++ m ∷ []) s''
    meanwhile :
        (ms : List (Message V I)) (s' s'' : State W)
        → Handled s ms s'
        → Meanwhile s' s''
        → Handled s ms s''

module _ {V I W : Type 0} where
  -- A connection on which nothing is on its way, as after its registration.
  pub record IsSettled (x : Session V I W) (address : ℕ) (conn : InterfaceConnection V I)
      : Type 0 where
    pub no_requests : x.client.interface.requests ≡ []
    pub connected : x.client.worker.connection ≡ some (address, conn)
    pub all_arrived : conn.written ≡ x.arrived
    pub at_rest : x.receiver ≡ idle []
