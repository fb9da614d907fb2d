-- ===== src/Example/Listeners.antt =====
-- The theorems about the servers of a service, at servers of which each is a name or a port that is
-- free.
use cute_ipc.Prelude.{
  ℕ, ◌≡◌, refl, Bool, true, false, [], Option, none, some, if◌then◌else◌, Bool-cases, inl, inr,
}
use cute_ipc.Prelude.Text.{Text, text, same}
use cute_ipc.Servers.{Sockets, Served, listen_again, listen, listen_tcp, close}
use cute_ipc.Servers.Listening.{close_leaves_tcp}
use cute_ipc.Example.Calls.{service}

-- What the servers listen to, and a name that a server left behind.
record Network : Type 0 where
  local : Option Text
  port : Option ℕ
  stale : Text

abbrev is_some : {A : Type 0} → Option A → Bool
is_some none = false
is_some (some a) = true

abbrev or_empty_name : Option Text → Text
or_empty_name none = []
or_empty_name (some t) = t

abbrev or_zero : Option ℕ → ℕ
or_zero none = 0
or_zero (some n) = n

-- A name that was left behind is not free.
abbrev take_name : Text → Network → Network × Bool
take_name name n = if same n.stale name then (n, false) else (record n { local = some name }, true)

abbrev free_name : Text → Network → Network × Bool
free_name name n = if same n.stale name then (record n { stale = [] }, true) else (n, false)

abbrev take_port : ℕ → ℕ → Network → Network × Bool
take_port address port n = (record n { port = some port }, true)

taken :
    (name : Text) (n : Network)
    → (take_name name n).1 ≡ true
    → (is_some (take_name name n).0.local ≡ true)
      × (or_empty_name (take_name name n).0.local ≡ name)
taken name n h = elim (Bool-cases (same n.stale name)) [
  | inl e ↦ absurd (cc (rw e at h))
  | inr e ↦ rw e (refl, refl)
]

port_kept : (name : Text) (n : Network) → is_some (take_name name n).0.port ≡ is_some n.port
port_kept name n = elim (Bool-cases (same n.stale name)) [ inl e ↦ rw e refl | inr e ↦ rw e refl ]

port_stays : (name : Text) (n : Network) → is_some (free_name name n).0.port ≡ is_some n.port
port_stays name n = elim (Bool-cases (same n.stale name)) [ inl e ↦ rw e refl | inr e ↦ rw e refl ]

abbrev sockets : Sockets Network
sockets = record {
  local_listen = take_name;
  remove_server = free_name;
  local_close = λ n. record n { local = none };
  local_is_listening = λ n. is_some n.local;
  local_name = λ n. or_empty_name n.local;
  tcp_listen = take_port;
  tcp_close = λ n. record n { port = none };
  tcp_is_listening = λ n. is_some n.port;
  tcp_port = λ n. or_zero n.port;
  tcp_address = λ n. 0;
  local_listen-true = taken;
  local_listen-tcp = port_kept;
  remove_server-tcp = port_stays;
  local_close-listening = λ n. refl;
  local_close-tcp = λ n. refl;
  tcp_listen-true = λ address port n h. refl;
  tcp_listen-local = λ address port n. (refl, refl);
  tcp_close-listening = λ n. refl;
}

-- The name was left behind by a server that crashed.
abbrev served : Served Network
served = record {
  service = service;
  has_local = false;
  has_tcp = false;
  sockets = record { local = none; port = none; stale = text "ipc" };
}

abbrev listening : Served Network
listening = record {
  service = record service { subject = some 4 };
  has_local = true;
  has_tcp = false;
  sockets = record { local = some (text "ipc"); port = none; stale = [] };
}

listens : listen sockets (text "made up") (text "ipc") (some 4) served ≡ (listening, true)
unfolding listen listen_again same
listens = refl

abbrev both : Served Network
both =
    (listen_tcp sockets 0 4000 (some 4)
      (listen sockets (text "made up") (text "ipc") (some 4) served).0).0

close_leaves_tcp_example :
    (sockets.local_is_listening both.sockets ≡ true)
    × (sockets.tcp_is_listening both.sockets ≡ true)
    × (sockets.local_is_listening (close sockets both).sockets ≡ false)
    × (sockets.tcp_is_listening (close sockets both).sockets ≡ true)
unfolding listen_tcp
close_leaves_tcp_example =
    close_leaves_tcp sockets (text "made up") (text "ipc") 0 4000 (some 4) served
      (λ i. (listens i).1) refl
