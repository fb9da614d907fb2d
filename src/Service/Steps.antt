-- ===== src/Service/Steps.antt =====
-- The registry of src/CuteIPCService.cpp under the requests of connections.
use cute_ipc.Prelude.{
  ℕ, ◌≤◌, ◌<◌, ◌≡◌, subst, inl, inr, List, [], ◌∷◌, Option, none, some, is_nil-append_one, All,
  Bool-cases, Option-cases, arith,
}
use cute_ipc.Prelude.Result.{ok, >>=-eq-ok}
use cute_ipc.Prelude.Text.{Text}
use cute_ipc.Prelude.Hash.{Hash, lookup, insert, All-insert, All-remove, All-lookup}
use cute_ipc.Qt.{Qt}
use cute_ipc.MetaObjects.{MetaObjects}
use cute_ipc.Message.{GenericArgument, message_response, message_error, from_values}
use cute_ipc.Marshaller.Write.{marshall_message}
use cute_ipc.SignalHandler.{
  SignalHandler, new_handler, add_listener, remove_one, remove_listener, set_signal_parameters_info,
}
use cute_ipc.Service.{
  Service, subject_of, new_connection, send_response, send_error_message, send_response_message,
  handler_for, add_listener_for, handle_signal_request, remove_listener_for, initialize_connection,
}
use cute_ipc.Service.Counts.{count, count-append, count-remove_one_le}
use cute_ipc.Service.Registry.{IsHandler, IsRegistry, or_destroyed-some}

-- A handler of the registry is connected to objects that exist.
listens_more :
    (cs : List ℕ) (c : ℕ) (h : SignalHandler)
    → ((x : ℕ) → count x h.listeners ≤ count x h.wired)
    → ((x : ℕ) → 0 < count x h.wired → 0 < count x cs)
    → 0 < count c cs
    → IsHandler cs (add_listener c h)
unfolding add_listener
listens_more cs c h listed exist there = (
  λ x.
      omega (arith, count-append x h.listeners (c ∷ []), count-append x h.wired (c ∷ []), listed x),
  λ x p. ground (arith, count-append x h.wired (c ∷ []), exist x, there),
  is_nil-append_one h.listeners c,
)

listens_less :
    (cs : List ℕ) (l : Option ℕ) (h : SignalHandler) {h' : SignalHandler}
    → remove_listener l h ≡ some h'
    → IsHandler cs h
    → IsHandler cs h'
unfolding remove_listener
listens_less cs none h e p = subst (IsHandler cs) (or_destroyed-some h e).0 p
listens_less cs (some c) h e (listed, exist, left) =
    let (g, n) = or_destroyed-some (record h { listeners = remove_one c h.listeners }) e in
    subst (IsHandler cs) g
      (λ x. omega (arith, listed x, count-remove_one_le x c h.listeners), exist, n)

more_objects :
    (c : ℕ) (cs : List ℕ) (m : Hash SignalHandler)
    → All (λ e. IsHandler cs e.1) m
    → All (λ e. IsHandler (c ∷ cs) e.1) m
more_objects c cs [] p = tt
more_objects c cs (e ∷ m) ((listed, exist, left), ps) =
    ((listed, λ x p. ground (arith, exist x p), left), more_objects c cs m ps)

more_connections :
    (c : ℕ) (cs : List ℕ) (m : Hash ℕ)
    → All (λ e. 0 < count e.1 cs) m
    → All (λ e. 0 < count e.1 (c ∷ cs)) m
more_connections c cs [] p = tt
more_connections c cs ((k, v) ∷ m) (p, ps) = (ground (arith, p), more_connections c cs m ps)

pub new_connection-IsRegistry :
    (c : ℕ) (s : Service) → IsRegistry s → IsRegistry (new_connection c s)
unfolding new_connection
new_connection-IsRegistry c s (hs, ls) =
    (more_objects c s.connections s.handlers hs, more_connections c s.connections s.long_lived ls)

module _ {V I W : Type 0} (q : Qt V I) (o : MetaObjects V I W) where
  -- Writing to a connection leaves the registry alone.
  error_same :
      (c : ℕ) (error : Text) (s s' : Service)
      → send_error_message q o c error s ≡ ok s'
      → IsRegistry s
      → IsRegistry s'
  unfolding send_error_message send_response
  error_same c error s s' e p =
      let (body, e1, e2) =
        >>=-eq-ok (marshall_message q (from_values message_error error [] [])) _ e in
      let same_service : send_response q o c body s ≡ s' = ground arith in
      subst IsRegistry same_service p

  pub response_same :
      (c : ℕ) (method : Text) (args : List (GenericArgument V I)) (s s' : Service)
      → send_response_message q o c method args s ≡ ok s'
      → IsRegistry s
      → IsRegistry s'
  unfolding send_response_message send_response
  response_same c method args s s' e p =
      let (body, e1, e2) =
        >>=-eq-ok (marshall_message q (from_values message_response method args [])) _ e in
      let same_service : send_response q o c body s ≡ s' = ground arith in
      subst IsRegistry same_service p

  handler_for-lists :
      (signature : Text) (s : Service)
      → IsRegistry s
      → ((x : ℕ)
          → count x (handler_for q o signature s).listeners
            ≤ count x (handler_for q o signature s).wired)
        × ((x : ℕ) → 0 < count x (handler_for q o signature s).wired → 0 < count x s.connections)
  unfolding handler_for set_signal_parameters_info new_handler
  handler_for-lists signature s (hs, ls) = elim (Option-cases (lookup signature s.handlers)) [
    | inl e ↦ rw (e, handler_for) (λ x. omega arith, λ x p. absurd (omega (arith, p)))
    | inr (h, e) ↦
        let p = All-lookup (λ k. IsHandler s.connections k.1) signature s.handlers e hs in
        rw (e, handler_for) (p.0, p.1)
  ]

  add_listener_for-IsRegistry :
      (signature : Text) (c : ℕ) (s : Service)
      → 0 < count c s.connections
      → IsRegistry s
      → IsRegistry (add_listener_for q o signature c s)
  unfolding add_listener_for
  add_listener_for-IsRegistry signature c s there (hs, ls) =
      let (listed, exist) = handler_for-lists signature s (hs, ls) in
      (
        All-insert (λ k. IsHandler s.connections k.1) signature
            (add_listener c (handler_for q o signature s)) s.handlers
            (listens_more s.connections c (handler_for q o signature s) listed exist there) hs,
        ls,
      )

  pub handle_signal_request-IsRegistry :
      (signature id : Text) (c : ℕ) (s s' : Service)
      → handle_signal_request q o signature id c s ≡ ok s'
      → IsRegistry s
      → IsRegistry s'
  unfolding handle_signal_request
  handle_signal_request-IsRegistry signature id c s s' h p =
      elim (Bool-cases (o.has_signal (subject_of s) (q.to_latin1 signature))) [
        | inr e ↦ error_same c _ s s' (rw e at h) p
        | inl e ↦ elim (Option-cases (lookup id s.long_lived)) [
          | inl e' ↦ error_same c _ s s' (rw (e, e') at h) p
          | inr (l, e') ↦
              let there = All-lookup (λ k. 0 < count k.1 s.connections) id s.long_lived e' p.1 in
              response_same c signature [] (add_listener_for q o signature l s) s' (rw (e, e') at h)
                (add_listener_for-IsRegistry signature l s there p)
        ]
      ]

  pub remove_listener_for-IsRegistry :
      (signature : Text) (l : Option ℕ) (s : Service)
      → IsRegistry s
      → IsRegistry (remove_listener_for q o signature l s)
  unfolding remove_listener_for
  remove_listener_for-IsRegistry signature l s (hs, ls) =
      elim (Option-cases (lookup signature s.handlers)) [
        | inl e ↦ rw (e, remove_listener_for) (hs, ls)
        | inr (h, e) ↦ elim (Option-cases (remove_listener l h)) [
          | inl gone ↦
              rw (e, remove_listener_for, gone)
                (All-remove (λ k. IsHandler s.connections k.1) signature s.handlers hs, ls)
          | inr (h', there) ↦
              let p = All-lookup (λ k. IsHandler s.connections k.1) signature s.handlers e hs in
              rw (e, remove_listener_for, there)
                (
                  All-insert (λ k. IsHandler s.connections k.1) signature h' s.handlers
                      (listens_less s.connections l h there p) hs,
                  ls,
                )
        ]
      ]

  pub initialize_connection-IsRegistry :
      (id : Text) (c : ℕ) (s s' : Service)
      → initialize_connection q o id c s ≡ ok s'
      → 0 < count c s.connections
      → IsRegistry s
      → IsRegistry s'
  unfolding initialize_connection
  initialize_connection-IsRegistry id c s s' h there (hs, ls) =
      response_same c _ [] (record s { long_lived = insert id c s.long_lived }) s' h
        (hs, All-insert (λ k. 0 < count k.1 s.connections) id c s.long_lived there ls)
