-- ===== src/Worker.antt =====
-- src/CuteIPCInterfaceWorker.cpp: the object in a thread of its own that keeps the long-lived
-- connection of an interface. The connection is known by its address, a number other than 0.
use cute_ipc.Prelude.{ℕ, Bool, true, false, List, [], ◌∷◌, Option, none, some, if◌then◌else◌}
use cute_ipc.Prelude.Result.{Result, ok, fail, fault, ◌>>=◌}
use cute_ipc.Prelude.Text.{Text, Bytes}
use cute_ipc.Qt.{Qt}
use cute_ipc.Message.{connection_initialize, from_values}
use cute_ipc.Marshaller.Write.{marshall_message}
use cute_ipc.InterfaceConnection.{
  InterfaceConnection, Event, Arrival, socket_disconnected, new_connection, send_call_request,
  handle_arrival, wait,
}
use cute_ipc.Interface.Request.{
  Outcome, returned, waiting, undefined, Server, Exchange, string_argument,
}

-- `socket` is the server that m_socket is connected to, and `connection` is m_connection with its
-- address. `replaced` are connections that a later connection took the place of: they live on.
pub record Worker (V I : Type 0) : Type 0 where
  pub socket : Option Server
  pub connection : Option (ℕ × InterfaceConnection V I)
  pub replaced : List (ℕ × InterfaceConnection V I)

module _ {V I : Type 0} where
  abbrev pub new_worker : Worker V I
  new_worker = record { socket = none; connection = none; replaced = [] }

  abbrev pub address_of : Option (ℕ × InterfaceConnection V I) → ℕ
  address_of none = 0
  address_of (some (address, c)) = address

  -- Whether the socket was disconnected, upon which it and the connection are deleted.
  unfoldable pub is_disconnected : List (Event V I) → Bool
  is_disconnected [] = false
  is_disconnected (socket_disconnected ∷ es) = true
  is_disconnected (_ ∷ es) = is_disconnected es

  abbrev pub or_replaced :
      Option (ℕ × InterfaceConnection V I)
      → List (ℕ × InterfaceConnection V I)
      → List (ℕ × InterfaceConnection V I)
  or_replaced none cs = cs
  or_replaced (some c) cs = c ∷ cs

  -- m_socket and m_connection after the slot that connected them, or gone with the socket.
  unfoldable pub settle : ℕ → Server → InterfaceConnection V I → Worker V I → Worker V I
  settle address server c w =
      if is_disconnected c.emitted
      then record {
        socket = none;
        connection = none;
        replaced = or_replaced w.connection w.replaced;
      }
      else record {
        socket = some server;
        connection = some (address, c);
        replaced = or_replaced w.connection w.replaced;
      }

  -- disconnectFromServer: the worker, and whether disconnectFromServerFinished was emitted.
  unfoldable pub disconnect_from_server : Worker V I → Worker V I × Bool
  disconnect_from_server w = elim w.socket [
    | none ↦ (w, false)
    | some server ↦ (record w { socket = none; connection = none }, true)
  ]

-- What connecting leaves: the worker, `*successful`, and the signals of the connection.
pub record Connected (V I : Type 0) : Type 0 where
  pub worker : Worker V I
  pub successful : Bool
  pub events : List (Event V I)

-- `number` is QString::number of an address.
module _ {V I : Type 0} (q : Qt V I) (number : ℕ → Text) where
  -- connectionId
  unfoldable pub connection_id : Worker V I → Text
  connection_id w = number (address_of w.connection)

  -- The message with the connection's id.
  unfoldable pub initialize_request : ℕ → Result Bytes
  initialize_request address =
      marshall_message q
        (from_values connection_initialize [] (string_argument q (number address) ∷ []) [])

  -- The end of connectToServer, after loop.exec().
  unfoldable pub after_handshake :
      ℕ → Server → Worker V I → Result (Option (InterfaceConnection V I)) → Outcome (Connected V I)
  unfolding settle
  after_handshake address server w (ok (some c)) =
      returned
        (record { worker = settle address server c w; successful = true; events = c.emitted })
  after_handshake address server w (ok none) = waiting
  after_handshake address server w fail = undefined
  after_handshake address server w fault = undefined

  -- connectToServer and connectToTcpServer. `address` is that of the new connection.
  unfoldable pub handshake :
      (Server → Bytes → Exchange) → ℕ → Server → Worker V I → Bytes → Outcome (Connected V I)
  unfolding after_handshake
  handshake net address server w request =
      let e = net server request in
      if e.connected
      then after_handshake address server w
          (wait q e.arrivals (send_call_request q request (new_connection q)))
      else returned (record { worker = w; successful = false; events = [] })

  unfoldable pub connect_to_server :
      (Server → Bytes → Exchange) → ℕ → Server → Worker V I → Outcome (Connected V I)
  unfolding handshake initialize_request
  connect_to_server net address server w = elim (initialize_request address) [
    | ok request ↦ handshake net address server w request
    | fail ↦ undefined
    | fault ↦ undefined
  ]

module _ {V I : Type 0} (q : Qt V I) where
  -- sendCallRequest: without a connection the request is dropped.
  unfoldable pub forward_request : Bytes → Worker V I → Worker V I
  forward_request request w = elim w.connection [
    | none ↦ w
    | some (address, c) ↦ record w { connection = some (address, send_call_request q request c) }
  ]

  -- What arrives at the connection, and the signals that it emits.
  unfoldable pub worker_receives : Arrival → Worker V I → Result (Worker V I × List (Event V I))
  worker_receives a w = elim w.connection [
    | none ↦ ok (w, [])
    | some (address, c) ↦ handle_arrival q a (record c { emitted = [] }) >>= λ c'. ok (
      (if is_disconnected c'.emitted
          then record w { socket = none; connection = none }
          else record w { connection = some (address, c') }),
      c'.emitted,
    )
  ]
