-- ===== src/Service/Histories.antt =====
-- The histories of a service (src/CuteIPCService.cpp): connections come and go, and their requests and
-- the subject's signals arrive in any order.
use cute_ipc.Prelude.{
  ℕ, ◌<◌, ◌≡◌, inl, inr, sym, subst, List, [], Option, some, All, Option-cases, arith,
}
use cute_ipc.Prelude.Result.{ok}
use cute_ipc.Prelude.Text.{Text}
use cute_ipc.Prelude.Hash.{lookup, All-insert, All-lookup}
use cute_ipc.Qt.{Qt}
use cute_ipc.MetaObjects.{MetaObjects}
use cute_ipc.Message.{Datum}
use cute_ipc.Service.{
  Service, connection_destroyed, new_connection, handle_signal_request, remove_listener_for,
  handle_signal_disconnect, initialize_connection, handler_captures,
}
use cute_ipc.SignalHandler.{parameter_info}
use cute_ipc.Service.Counts.{count}
use cute_ipc.Service.Registry.{IsHandler, IsRegistry, connection_destroyed-IsRegistry}
use cute_ipc.Service.Steps.{
  new_connection-IsRegistry, handle_signal_request-IsRegistry, remove_listener_for-IsRegistry,
  response_same, initialize_connection-IsRegistry,
}
use cute_ipc.Service.Delivery.{handler_captures-Emitted}

-- A service before its first connection.
abbrev pub new_service : ℕ → Option ℕ → Service
new_service object subject = record {
  service_object = object;
  subject = subject;
  handlers = [];
  long_lived = [];
  connections = [];
  sent = [];
}

module _ {V I W : Type 0} (q : Qt V I) (o : MetaObjects V I W) where
  -- A request comes from a connection that exists.
  pub data ServiceStep : Service → Service → Type 0 where
    connects : (c : ℕ) (s : Service) → ServiceStep s (new_connection c s)
    is_destroyed : (c : ℕ) (s : Service) → ServiceStep s (connection_destroyed c s)
    initializes :
        (id : Text) (c : ℕ) (s s' : Service)
        → 0 < count c s.connections
        → initialize_connection q o id c s ≡ ok s'
        → ServiceStep s s'
    subscribes :
        (signature id : Text) (c : ℕ) (s s' : Service)
        → handle_signal_request q o signature id c s ≡ ok s'
        → ServiceStep s s'
    unsubscribes :
        (signature id : Text) (c : ℕ) (s s' : Service)
        → handle_signal_disconnect q o signature id c s ≡ ok s'
        → ServiceStep s s'
    emits :
        (signature : Text) (values : List (Datum V I)) (s s' : Service)
        → handler_captures q o signature values s ≡ ok s'
        → ServiceStep s s'

  pub data Reachable (object : ℕ) (subject : Option ℕ) : Service → Type 0 where
    start : Reachable object subject (new_service object subject)
    after :
        (s s' : Service)
        → Reachable object subject s
        → ServiceStep s s'
        → Reachable object subject s'

  handler_captures-IsRegistry :
      (signature : Text) (values : List (Datum V I)) (s s' : Service)
      → handler_captures q o signature values s ≡ ok s'
      → IsRegistry s
      → IsRegistry s'
  unfolding handler_captures
  handler_captures-IsRegistry signature values s s' e (hs, ls) =
      elim (Option-cases (lookup signature s.handlers)) [
        | inl n ↦
            let e' : ok s ≡ ok s' = rw (n, handler_captures) at e in
            let k : s ≡ s' = ground arith in subst IsRegistry k (hs, ls)
        | inr (h, there) ↦
            let (bytes, d, signal) = handler_captures-Emitted q o signature values s s' h there e in
            let p = All-lookup (λ k. IsHandler s.connections k.1) signature s.handlers there hs in
            (
              subst (λ cs. All (λ k. IsHandler cs k.1) s'.handlers) (sym d.connections)
                  (subst (All (λ k. IsHandler s.connections k.1)) (sym d.handlers) (
                    All-insert (λ k. IsHandler s.connections k.1) signature
                      (record h { parameters = some (parameter_info q o s.service_object h) })
                      s.handlers p hs)),
              subst (λ cs. All (λ k. 0 < count k.1 cs) s'.long_lived) (sym d.connections)
                  (subst (All (λ k. 0 < count k.1 s.connections)) (sym d.long_lived) ls),
            )
      ]

  step-IsRegistry : (s s' : Service) → ServiceStep s s' → IsRegistry s → IsRegistry s'
  unfolding handle_signal_disconnect
  step-IsRegistry s s' (connects c t) p = new_connection-IsRegistry c s p
  step-IsRegistry s s' (is_destroyed c t) p = connection_destroyed-IsRegistry c s p
  step-IsRegistry s s' (initializes id c t t' there e) p =
      initialize_connection-IsRegistry q o id c s s' e there p
  step-IsRegistry s s' (subscribes signature id c t t' e) p =
      handle_signal_request-IsRegistry q o signature id c s s' e p
  step-IsRegistry s s' (unsubscribes signature id c t t' e) p =
      response_same q o c signature []
        (remove_listener_for q o signature (lookup id s.long_lived) s) s' e
        (remove_listener_for-IsRegistry q o signature (lookup id s.long_lived) s p)
  step-IsRegistry s s' (emits signature values t t' e) p =
      handler_captures-IsRegistry signature values s s' e p

  -- In every history of a service, in which connections come, send requests and are destroyed
  -- in any order and handlers capture signals of the subject, each signal handler has a
  -- listener, is connected to each of its listeners, and is connected to existing connections
  -- only; the long-lived connections are existing connections.
  pub Reachable-IsRegistry :
      (object : ℕ) (subject : Option ℕ) (s : Service) → Reachable object subject s → IsRegistry s
  Reachable-IsRegistry object subject s start = (tt, tt)
  Reachable-IsRegistry object subject s (after t t' r step) =
      step-IsRegistry t s step (Reachable-IsRegistry object subject t r)
