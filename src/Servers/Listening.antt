-- ===== src/Servers/Listening.antt =====
-- Listening and closing (src/CuteIPCService.cpp).
use cute_ipc.Prelude.{ℕ, ◌≡◌, refl, ◌∙◌, inl, inr, true, false, Option, Bool-cases}
use cute_ipc.Prelude.Text.{Text}
use cute_ipc.Servers.{
  Sockets, Served, register_local_server, register_tcp_server, listen_again, name_or, listen,
  listen_tcp, close, server_name,
}

module _ {N : Type 0} (n : Sockets N) where
  again_true :
      (name : Text) (m : N)
      → (listen_again n name (n.local_listen name m)).1 ≡ true
      → (n.local_is_listening (listen_again n name (n.local_listen name m)).0 ≡ true)
        × (n.local_name (listen_again n name (n.local_listen name m)).0 ≡ name)
  unfolding listen_again
  again_true name m h = elim (Bool-cases (n.local_listen name m).1) [
    | inl e ↦ rw e (n.local_listen-true name m e)
    | inr e ↦ elim (Bool-cases (n.remove_server name (n.local_listen name m).0).1) [
      | inl f ↦ rw (e, f) (n.local_listen-true name _ (rw (e, f) at h))
      | inr f ↦ absurd (cc (rw (e, f) at h))
    ]
  ]

  again_tcp :
      (name : Text) (m : N)
      → n.tcp_is_listening (listen_again n name (n.local_listen name m)).0 ≡ n.tcp_is_listening m
  unfolding listen_again
  again_tcp name m = elim (Bool-cases (n.local_listen name m).1) [
    | inl e ↦ rw e (n.local_listen-tcp name m)
    | inr e ↦ elim (Bool-cases (n.remove_server name (n.local_listen name m).0).1) [
      | inl f ↦
          rw (e, f)
            (n.local_listen-tcp name _ ∙ n.remove_server-tcp name _ ∙ n.local_listen-tcp name m)
      | inr f ↦ rw (e, f) (n.remove_server-tcp name _ ∙ n.local_listen-tcp name m)
    ]
  ]

  -- When `listen` reports success, at the first attempt or after the removal of a server of that name,
  -- the local server listens, and serverName is the name given, or the name made up for an empty one;
  -- the service has the subject given and is otherwise as it was, and the TCP server is left alone.
  pub listen_succeeds :
      (default_name name : Text) (subject : Option ℕ) (s : Served N)
      → (listen n default_name name subject s).1 ≡ true
      → let s' = (listen n default_name name subject s).0 in
        (n.local_is_listening s'.sockets ≡ true)
        × (server_name n s' ≡ name_or n default_name name)
        × (s'.service ≡ record s.service { subject = subject })
        × (n.tcp_is_listening s'.sockets ≡ n.tcp_is_listening s.sockets)
  unfolding listen register_local_server server_name
  listen_succeeds default_name name subject s h =
      let (listening, named) = again_true (name_or n default_name name) s.sockets h in
      (listening, named, refl, again_tcp (name_or n default_name name) s.sockets)

  -- A service listens for local connections and then for TCP connections, both with success. Then both
  -- servers listen; after `close` the local server does not, but the TCP server still does.
  pub close_leaves_tcp :
      (default_name name : Text) (address port : ℕ) (subject : Option ℕ) (s : Served N)
      → (listen n default_name name subject s).1 ≡ true
      → (listen_tcp n address port subject (listen n default_name name subject s).0).1 ≡ true
      → let t = (listen_tcp n address port subject (listen n default_name name subject s).0).0 in
        (n.local_is_listening t.sockets ≡ true)
        × (n.tcp_is_listening t.sockets ≡ true)
        × (n.local_is_listening (close n t).sockets ≡ false)
        × (n.tcp_is_listening (close n t).sockets ≡ true)
  unfolding listen listen_tcp register_local_server register_tcp_server close
  close_leaves_tcp default_name name address port subject s h k =
      let both = n.tcp_listen-local address port _ in
      (
        both.0 ∙ (again_true (name_or n default_name name) s.sockets h).0,
        n.tcp_listen-true address port _ k,
        n.local_close-listening _,
        n.local_close-tcp _ ∙ n.tcp_listen-true address port _ k,
      )
