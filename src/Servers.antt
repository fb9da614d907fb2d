-- ===== src/Servers.antt =====
-- src/CuteIPCService.cpp: the servers of a service, QLocalServer and QTcpServer, and the connections
-- that they take. The servers are parameters.
pub mod Listening
pub mod Accepted
use cute_ipc.Prelude.{
  ℕ, ◌≡◌, Bool, true, false, List, [], Option, none, some, is_nil, if◌then◌else◌,
}
use cute_ipc.Prelude.Text.{Text}
use cute_ipc.Service.{Service, new_connection, connection_destroyed}
use cute_ipc.ServiceConnection.{ServiceConnection}

-- QLocalServer and QTcpServer. `N` is the state of both and of the system that they run on; an address
-- is a number. The laws are what Qt documents: a server that listens has the name that it was given,
-- `close` ends listening, and neither server has to do with the other.
pub record Sockets (N : Type 0) : Type 0 where
  pub local_listen : Text → N → N × Bool
  pub remove_server : Text → N → N × Bool
  pub local_close : N → N
  pub local_is_listening : N → Bool
  pub local_name : N → Text
  pub tcp_listen : ℕ → ℕ → N → N × Bool
  pub tcp_close : N → N
  pub tcp_is_listening : N → Bool
  pub tcp_port : N → ℕ
  pub tcp_address : N → ℕ
  pub local_listen-true :
      (name : Text) (n : N)
      → (local_listen name n).1 ≡ true
      → (local_is_listening (local_listen name n).0 ≡ true)
        × (local_name (local_listen name n).0 ≡ name)
  pub local_listen-tcp :
      (name : Text) (n : N) → tcp_is_listening (local_listen name n).0 ≡ tcp_is_listening n
  pub remove_server-tcp :
      (name : Text) (n : N) → tcp_is_listening (remove_server name n).0 ≡ tcp_is_listening n
  pub local_close-listening : (n : N) → local_is_listening (local_close n) ≡ false
  pub local_close-tcp : (n : N) → tcp_is_listening (local_close n) ≡ tcp_is_listening n
  pub tcp_listen-true :
      (address port : ℕ) (n : N)
      → (tcp_listen address port n).1 ≡ true
      → tcp_is_listening (tcp_listen address port n).0 ≡ true
  pub tcp_listen-local :
      (address port : ℕ) (n : N)
      → (local_is_listening (tcp_listen address port n).0 ≡ local_is_listening n)
        × (local_name (tcp_listen address port n).0 ≡ local_name n)
  pub tcp_close-listening : (n : N) → tcp_is_listening (tcp_close n) ≡ false

-- The service with its servers: `has_local` and `has_tcp` tell that m_localServer and m_tcpServer are
-- not null.
pub record Served (N : Type 0) : Type 0 where
  pub service : Service
  pub has_local : Bool
  pub has_tcp : Bool
  pub sockets : N

module _ {N : Type 0} where
  unfoldable pub register_local_server : Served N → Served N
  register_local_server s = record s { has_local = true }

  unfoldable pub register_tcp_server : Served N → Served N
  register_tcp_server s = record s { has_tcp = true }

  abbrev pub set_subject : Option ℕ → Served N → Served N
  set_subject subject s = record s { service = record s.service { subject = subject } }

-- _q_newLocalConnection, _q_newTcpConnection and the constructor of the connection, which is deleted
-- if its socket cannot be opened.
unfoldable pub accept : ℕ → Bool → Service → Service
accept c is_open s =
    let s' = new_connection c s in if is_open then s' else connection_destroyed c s'

-- The connection object, with setSubject.
unfoldable pub accepted_connection : ℕ → Service → ServiceConnection
accepted_connection c s = record { id = c; subject = s.subject }

-- errorOccured of a connection, both overloads, and the disconnection of its socket
unfoldable pub socket_failed : ℕ → Service → Service
socket_failed c s = connection_destroyed c s

module _ {N : Type 0} (n : Sockets N) where
  -- The second part of listen, after the first attempt.
  unfoldable pub listen_again : Text → N × Bool → N × Bool
  listen_again name (m, true) = (m, true)
  listen_again name (m, false) =
      let (removed, ok) = n.remove_server name m in
      if ok then n.local_listen name removed else (removed, false)

  -- listen, with the name that is made up for an empty one
  abbrev pub name_or : Text → Text → Text
  name_or default_name [] = default_name
  name_or default_name name = name

  unfoldable pub listen : Text → Text → Option ℕ → Served N → Served N × Bool
  unfolding register_local_server listen_again
  listen default_name server_name subject s =
      let name = name_or default_name server_name in
      let s' = register_local_server s in
      let (sockets, ok) = listen_again name (n.local_listen name s'.sockets) in
      (set_subject subject (record s' { sockets = sockets }), ok)

  unfoldable pub listen_default : Text → Option ℕ → Served N → Served N × Bool
  unfolding listen
  listen_default default_name subject s = listen default_name [] subject s

  -- listenTcp
  unfoldable pub listen_tcp : ℕ → ℕ → Option ℕ → Served N → Served N × Bool
  unfolding register_tcp_server
  listen_tcp address port subject s =
      let s' = register_tcp_server s in
      let (sockets, ok) = n.tcp_listen address port s'.sockets in
      (set_subject subject (record s' { sockets = sockets }), ok)

  -- With QHostAddress::Any, whose number is `any`, and a port that the system chooses.
  unfoldable pub listen_tcp_default : ℕ → Option ℕ → Served N → Served N × Bool
  unfolding listen_tcp
  listen_tcp_default any subject s = listen_tcp any 0 subject s

  unfoldable pub close : Served N → Served N
  close s =
      if s.has_local
      then record s { sockets = n.local_close s.sockets }
      else if s.has_tcp
      then record s { sockets = n.tcp_close s.sockets }
      else s

  -- serverName, tcpPort and tcpAddress; -1 as a quint16 is 65535, and `none` the null address.
  unfoldable pub server_name : Served N → Text
  server_name s = if s.has_local then n.local_name s.sockets else []

  unfoldable pub tcp_port_of : Served N → ℕ
  tcp_port_of s = if s.has_tcp then n.tcp_port s.sockets else 65535

  unfoldable pub tcp_address_of : Served N → Option ℕ
  tcp_address_of s = if s.has_tcp then some (n.tcp_address s.sockets) else none
