-- ===== src/Client.antt =====
-- An interface with its worker: the functions of src/CuteIPCInterface.cpp that wait for the worker, and
-- the signals between the two.
pub mod Handshake
pub mod Signals
pub mod Requests
use cute_ipc.Prelude.{ℕ, Bool, true, false, List, [], ◌∷◌, ◌++◌, Option, none, some, if◌then◌else◌}
use cute_ipc.Prelude.Result.{Result, ok, fail, fault}
use cute_ipc.Prelude.Text.{Text, Bytes}
use cute_ipc.Qt.{Qt}
use cute_ipc.MetaObjects.{MetaObjects}
use cute_ipc.InterfaceConnection.{
  Event, Arrival, call_finished, socket_disconnected, error_occured, invoke_remote_signal,
}
use cute_ipc.Interface.State
use cute_ipc.Interface.State.{Interface, set_last_error}
use cute_ipc.Interface.Request.{
  Outcome, returned, waiting, undefined, ◌>>=◌, Server, local_server, tcp_server, Exchange,
}
use cute_ipc.Worker.{
  Worker, Connected, connect_to_server, disconnect_from_server, forward_request, worker_receives,
}

-- The interface with its worker.
pub record Client (V I : Type 0) : Type 0 where
  pub interface : Interface V I
  pub worker : Worker V I

module _ {V I : Type 0} where
  -- m_localServer or m_tcpAddress, set whether or not the connection was made.
  unfoldable pub remember : Server → Interface V I → Interface V I
  remember (local_server name) d = record d { local_server = name }
  remember (tcp_server host port) d = record d { tcp_address = some (host, port) }

  -- disconnectFromServer of the interface waits for disconnectFromServerFinished.
  unfoldable pub disconnect_client : Client V I → Outcome (Client V I)
  disconnect_client c =
      let (w, finished) = disconnect_from_server c.worker in
      if finished then returned (record c { worker = w }) else waiting

module _ {V I : Type 0} (q : Qt V I) where
  unfoldable pub forward_all : List Bytes → Worker V I → Worker V I
  forward_all [] w = w
  forward_all (r ∷ rs) w = forward_all rs (forward_request q r w)

  -- The worker takes the requests that the interface handed to it.
  unfoldable pub take_requests : Client V I → Client V I
  unfolding forward_all
  take_requests c = record {
    interface = record c.interface { requests = [] };
    worker = forward_all c.interface.requests c.worker;
  }

module _ {V I W : Type 0} (q : Qt V I) (o : MetaObjects V I W) where
  -- The signals of the worker are connected to the slots of the interface.
  unfoldable pub pass_on : List (Event V I) → Interface V I → Interface V I
  pass_on [] d = d
  pass_on (error_occured t ∷ es) d = pass_on es (set_last_error t d)
  pass_on (invoke_remote_signal t args ∷ es) d =
      pass_on es (cute_ipc.Interface.State.invoke_remote_signal q o t args d)
  pass_on (call_finished ∷ es) d = pass_on es d
  pass_on (socket_disconnected ∷ es) d = pass_on es d

  abbrev received : Client V I → Result (Worker V I × List (Event V I)) → Result (Client V I)
  received c (ok (w, events)) = ok (record { worker = w; interface = pass_on events c.interface })
  received c fail = fail
  received c fault = fault

  -- What arrives at the long-lived connection, to its end at the interface.
  unfoldable pub client_receives : Arrival → Client V I → Result (Client V I)
  unfolding pass_on
  client_receives a c = received c (worker_receives q a c.worker)

-- `number` is QString::number of an address.
module _ {V I W : Type 0} (q : Qt V I) (o : MetaObjects V I W) (number : ℕ → Text) where
  -- connectToServer of the interface, to a local server or a TCP server
  unfoldable pub connect_client :
      (Server → Bytes → Exchange) → ℕ → Server → Client V I → Outcome (Client V I × Bool)
  unfolding remember pass_on
  connect_client net address server c =
      connect_to_server q number net address server c.worker >>= λ r. returned (
        record {
          worker = r.worker;
          interface = remember server (pass_on q o r.events c.interface);
        },
        r.successful,
      )
