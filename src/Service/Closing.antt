-- ===== src/Service/Closing.antt =====
-- The end of a service: ~CuteIPCServicePrivate (src/CuteIPCService.cpp) and sendAboutToQuit
-- (src/CuteIPCServiceConnection.cpp).
use cute_ipc.Prelude.{
  ℕ, ◌≡◌, refl, sym, ◌∙◌, inl, inr, Bool, List, [], ◌∷◌, ◌++◌, append_assoc, append-nil, length,
  if◌then◌else◌, Bool-cases,
}
use cute_ipc.Prelude.Result.{ok}
use cute_ipc.Prelude.Text.{Bytes}
use cute_ipc.Prelude.Hash.{Hash}
use cute_ipc.Qt.{Qt}
use cute_ipc.MetaObjects.{MetaObjects}
use cute_ipc.Message.{about_to_close_socket, from_values}
use cute_ipc.Marshaller.Write.{marshall_message}
use cute_ipc.Service.{Service, send_response, send_about_to_quit, inform_long_lived}
use cute_ipc.Service.Delivery.{deliveries}

-- The connections of a table whose sockets are open, in order.
abbrev pub open_ones : (ℕ → Bool) → Hash ℕ → List ℕ
open_ones is_open [] = []
open_ones is_open ((k, c) ∷ m) =
    let rest = open_ones is_open m in if is_open c then c ∷ rest else rest

module _ {V I W : Type 0} (q : Qt V I) (o : MetaObjects V I W) where
  -- The destructor's loop over the long-lived connections ends, and it writes the same message, that
  -- the socket is about to close, once to each of them whose socket is open, and nothing else. The
  -- message can be marshalled.
  pub inform_long_lived-sent :
      (is_open : ℕ → Bool) (m : Hash ℕ) (s : Service) (bytes : Bytes)
      → marshall_message q (from_values about_to_close_socket [] [] []) ≡ ok bytes
      → (s' : Service) × (inform_long_lived q o is_open m s ≡ ok s')
        × (s'.sent ≡ s.sent ++ deliveries q o bytes (open_ones is_open m))
  unfolding inform_long_lived send_about_to_quit send_response
  inform_long_lived-sent is_open [] s bytes h = (s, refl, sym (append-nil s.sent))
  inform_long_lived-sent is_open ((k, c) ∷ m) s bytes h = elim (Bool-cases (is_open c)) [
    | inl e ↦
        let (s', r, sent) =
          inform_long_lived-sent is_open m (send_response q o c bytes s) bytes h in
        (
          s',
          rw (h, inform_long_lived, send_about_to_quit, e) r,
          rw e (
              sent
              ∙ append_assoc s.sent ((c, q.put_uint (length bytes) ++ bytes) ∷ [])
                  (deliveries q o bytes (open_ones is_open m))),
        )
    | inr e ↦
        let (s', r, sent) = inform_long_lived-sent is_open m s bytes h in
        (s', rw (h, inform_long_lived, send_about_to_quit, e) r, rw e sent)
  ]
