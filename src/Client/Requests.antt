-- ===== src/Client/Requests.antt =====
-- Asynchronous requests on their way from an interface to the service (src/CuteIPCInterface.cpp,
-- src/CuteIPCInterfaceWorker.cpp, src/CuteIPCServiceConnection.cpp).
use cute_ipc.Prelude.{ℕ, ◌≡◌, refl, ap, ◌∙◌, List, [], ◌∷◌, some}
use cute_ipc.Prelude.Text.{Bytes}
use cute_ipc.Qt.{Qt}
use cute_ipc.MetaObjects.{MetaObjects}
use cute_ipc.Message.{Message}
use cute_ipc.Receiver.{idle, read_message_service, receive_all}
use cute_ipc.Receiver.Chunks.{concat}
use cute_ipc.SignalHandler.{SignalHandler}
use cute_ipc.ServiceConnection.{ServiceConnection, State}
use cute_ipc.InterfaceConnection.{InterfaceConnection, send_call_request}
use cute_ipc.Interface.State.{Interface}
use cute_ipc.Worker.{Worker, forward_request}
use cute_ipc.Client.{Client, forward_all, take_requests}
use cute_ipc.Remote.Stream.{send_all, Marshalled, process_all, process_calls, requests_arrive}

module _ {V I : Type 0} (q : Qt V I) where
  forward_all-connected :
      (rs : List Bytes) (w : Worker V I) (address : ℕ) (conn : InterfaceConnection V I)
      → w.connection ≡ some (address, conn)
      → forward_all q rs w ≡ record w { connection = some (address, send_all q rs conn) }
  unfolding forward_all send_all forward_request
  forward_all-connected [] w address conn e = λ i. record w { connection = e i }
  forward_all-connected (r ∷ rs) w address conn e =
      ap (forward_all q rs) (rw (e, forward_request) refl)
      ∙ forward_all-connected rs
          (record w { connection = some (address, send_call_request q r conn) }) address
          (send_call_request q r conn) refl

module _ {V I W : Type 0} (q : Qt V I) (o : MetaObjects V I W) where
  -- A worker with a fresh connection takes the requests that its interface handed to it: their bytes
  -- are written to the connection; if these arrive at the service in pieces of any sizes, its receiver
  -- hands on exactly the blocks, and processing the blocks is processing the messages that they were
  -- marshalled from, in order. The conditions: each message can be marshalled and fits the limits, and
  -- its bytes are 1 to 2 ^ 31 - 1 in number.
  pub posted_requests_arrive :
      (sc : ServiceConnection) (s : State W) (c : Client V I) (ms : List (Message V I))
      (pieces : List Bytes) (address : ℕ) (conn : InterfaceConnection V I)
      → Marshalled q o ms c.interface.requests
      → c.worker.connection ≡ some (address, conn)
      → conn.written ≡ []
      → concat pieces ≡ (send_all q c.interface.requests conn).written
      → ((take_requests q c).interface.requests ≡ [])
        × ((take_requests q c).worker.connection
            ≡ some (address, send_all q c.interface.requests conn))
        × (receive_all (read_message_service q.stream) (idle []) pieces
            ≡ some (idle [], c.interface.requests))
        × (process_all q o sc c.interface.requests s ≡ process_calls q o sc ms s)
  unfolding take_requests
  posted_requests_arrive sc s c ms pieces address conn marshalled connected fresh cut =
      let (received, processed) =
        requests_arrive q o sc conn ms c.interface.requests pieces s marshalled fresh cut in
      (
        refl,
        ap (λ w. w.connection)
            (forward_all-connected q c.interface.requests c.worker address conn connected),
        received,
        processed,
      )
