-- ===== src/Remote/Downlink/Sends.antt =====
-- What an act of the service writes (src/CuteIPCService.cpp, src/CuteIPCServiceConnection.cpp).
use cute_ipc.Prelude.{
  ℕ, ◌≡◌, refl, sym, ap, ◌∙◌, subst, inl, inr, List, [], ◌∷◌, ◌++◌, append-nil, length, All,
  Option-cases, false, arith,
}
use cute_ipc.Prelude.Result.{Result, ok, ◌>>=◌, >>=-eq-ok}
use cute_ipc.Prelude.Text.{Text, Bytes, before_paren}
use cute_ipc.Prelude.Hash.{lookup}
use cute_ipc.Qt.{Qt}
use cute_ipc.MetaObjects.{MetaObjects}
use cute_ipc.Message.{
  Datum, GenericArgument, Message, MessageType, message_call_with_return,
  message_call_without_return, signal_connection_request, slot_connection_request, message_signal,
  connection_initialize, from_arguments,
}
use cute_ipc.Marshaller.Read.{demarshall_message}
use cute_ipc.Marshaller.Write.{marshall_message}
use cute_ipc.Service.{
  Service, connection_destroyed, new_connection, send_error_message, handler_captures,
}
use cute_ipc.Service.Delivery.{deliveries, handler_captures-Emitted}
use cute_ipc.ServiceConnection.{
  ServiceConnection, State, call_plain, signal_arrived, dispatch, process_call, process_message,
}
use cute_ipc.ServiceConnection.Answers.{Answered, send_error_message-Answered, dispatch-Answered}
use cute_ipc.Remote.Session.{requests, connects, is_destroyed, emits, changes}
use cute_ipc.Remote.Downlink.{
  Sending, logged, IsForClient, IsSending, Sends, ServiceAct, own, for_others,
}

module _ {V I W : Type 0} (q : Qt V I) (o : MetaObjects V I W) where
  abbrev SendsSome : State W → State W → Type 0
  SendsSome s s' = (sends : List (Sending V I)) × Sends q o s s' sends

  same-Sends : (s s' : State W) → s'.service.sent ≡ s.service.sent → SendsSome s s'
  same-Sends s s' e = ([], (e ∙ sym (append-nil s.service.sent), tt))

  Answered-Sends : (c : ℕ) (s s' : State W) → Answered q o c s.service s'.service → SendsSome s s'
  Answered-Sends c s s' (m, body, inl kind, e, sent) =
      (record { connection = c; message = m; body = body } ∷ [], (sent, ((rw kind tt, e), tt)))
  Answered-Sends c s s' (m, body, inr kind, e, sent) =
      (record { connection = c; message = m; body = body } ∷ [], (sent, ((rw kind tt, e), tt)))

  -- An answer only if the method could not be invoked.
  refused-Sends :
      (c : ℕ) (s s' : State W) (error : Text)
      → (send_error_message q o c error s.service >>= λ v. ok (record s { service = v })) ≡ ok s'
      → SendsSome s s'
  refused-Sends c s s' error h =
      let (v, e, e') = >>=-eq-ok (send_error_message q o c error s.service) _ h in
      let same : record s { service = v } ≡ s' = ground arith in
      subst (SendsSome s) same (
        Answered-Sends c s (record s { service = v })
          (send_error_message-Answered q o c error s.service v e))

  call_plain-Sends :
      (c : ServiceConnection) (subject : ℕ) (call : Message V I) (args : List (GenericArgument V I))
      (s s' : State W)
      → call_plain q o false c subject call args s ≡ ok s'
      → SendsSome s s'
  unfolding call_plain
  call_plain-Sends c subject call args s s' h =
      elim (Option-cases (o.invoke s.world subject (q.to_latin1 call.method) args)) [
        | inl e ↦ refused-Sends c.id s s' _ (rw (e, call_plain) at h)
        | inr (world, e) ↦
            let same : record s { world = world } ≡ s' = ground (arith, rw (e, call_plain) at h) in
            same-Sends s s' (ap (λ t. t.service.sent) (sym same))
      ]

  signal_arrived-Sends :
      (c : ServiceConnection) (subject : ℕ) (call : Message V I) (args : List (GenericArgument V I))
      (s s' : State W)
      → signal_arrived q o c subject call args s ≡ ok s'
      → SendsSome s s'
  unfolding signal_arrived
  signal_arrived-Sends c subject call args s s' h =
      elim (Option-cases (o.invoke s.world subject (q.to_latin1 (before_paren call.method)) args)) [
        | inl e ↦ refused-Sends c.id s s' _ (rw (e, signal_arrived) at h)
        | inr (world, e) ↦
            let same : record s { world = world } ≡ s' =
              ground (arith, rw (e, signal_arrived) at h) in
            same-Sends s s' (ap (λ t. t.service.sent) (sym same))
      ]

  silent-Sends : (s s' : State W) → ◌≡◌ {A = Result (State W)} (ok s) (ok s') → SendsSome s s'
  silent-Sends s s' h =
      let same : s ≡ s' = ground arith in same-Sends s s' (ap (λ t. t.service.sent) (sym same))

  dispatch-Sends :
      (t : MessageType) (c : ServiceConnection) (subject : ℕ) (call : Message V I)
      (args : List (GenericArgument V I)) (s s' : State W)
      → dispatch q o t c subject call args s ≡ ok s'
      → SendsSome s s'
  unfolding dispatch
  dispatch-Sends message_call_with_return c subject call args s s' h =
      Answered-Sends c.id s s'
        (dispatch-Answered q o message_call_with_return c subject call args s s' tt h)
  dispatch-Sends signal_connection_request c subject call args s s' h =
      Answered-Sends c.id s s'
        (dispatch-Answered q o signal_connection_request c subject call args s s' tt h)
  dispatch-Sends slot_connection_request c subject call args s s' h =
      Answered-Sends c.id s s'
        (dispatch-Answered q o slot_connection_request c subject call args s s' tt h)
  dispatch-Sends connection_initialize c subject call args s s' h =
      Answered-Sends c.id s s'
        (dispatch-Answered q o connection_initialize c subject call args s s' tt h)
  dispatch-Sends message_call_without_return c subject call args s s' h =
      call_plain-Sends c subject call args s s' h
  dispatch-Sends message_signal c subject call args s s' h =
      signal_arrived-Sends c subject call args s s' h
  dispatch-Sends _ c subject call args s s' h = silent-Sends s s' h

  process_message-Sends :
      (c : ServiceConnection) (b : Bytes) (s s' : State W)
      → process_message q o c b s ≡ ok s'
      → SendsSome s s'
  unfolding process_message process_call
  process_message-Sends c b s s' h =
      let (call, e, e') = >>=-eq-ok (demarshall_message q b) _ h in
      dispatch-Sends call.message_type c _ call _ s s' e'

  -- One message for each of the receivers.
  copies : List ℕ → Message V I → Bytes → List (Sending V I)
  copies [] m b = []
  copies (c ∷ cs) m b = record { connection = c; message = m; body = b } ∷ copies cs m b

  logged-copies :
      (cs : List ℕ) (m : Message V I) (b : Bytes) → logged q o (copies cs m b) ≡ deliveries q o b cs
  unfolding copies
  logged-copies [] m b = refl
  logged-copies (c ∷ cs) m b = ap (◌∷◌ (c, q.put_uint (length b) ++ b)) (logged-copies cs m b)

  copies-IsSending :
      (cs : List ℕ) (m : Message V I) (b : Bytes)
      → IsForClient m.message_type
      → marshall_message q m ≡ ok b
      → All (IsSending q o) (copies cs m b)
  unfolding copies
  copies-IsSending [] m b k e = tt
  copies-IsSending (c ∷ cs) m b k e = ((k, e), copies-IsSending cs m b k e)

  handler_captures-Sends :
      (signature : Text) (values : List (Datum V I)) (s : State W) (service : Service)
      → handler_captures q o signature values s.service ≡ ok service
      → SendsSome s (record s { service = service })
  unfolding handler_captures from_arguments
  handler_captures-Sends signature values s service h =
      elim (Option-cases (lookup signature s.service.handlers)) [
        | inl e ↦
            let same : s.service ≡ service = ground (arith, rw (e, handler_captures) at h) in
            same-Sends s (record s { service = service }) (ap (λ v. v.sent) (sym same))
        | inr (handler, e) ↦
            let (bytes, emitted, signal) =
              handler_captures-Emitted q o signature values s.service service handler e h in
            let (types, args, relayed, marshalled) = signal in
            let m : Message V I = from_arguments message_signal handler.signature args [] in
            (
              copies handler.wired m bytes,
              (
                emitted.sent ∙ ap (◌++◌ s.service.sent) (sym (logged-copies handler.wired m bytes)),
                copies-IsSending handler.wired m bytes tt marshalled,
              ),
            )
      ]

  -- Whatever a service does while it runs, processing requests of any connection, taking and losing
  -- connections and emitting signals: what it writes is a sequence of frames, each with a size and the
  -- bytes that a response, an error or a signal was marshalled to.
  pub ServiceAct-Sends :
      (sc : ServiceConnection) (s s' : State W)
      → ServiceAct q o sc s s'
      → (sends : List (Sending V I)) × Sends q o s s' sends
  unfolding new_connection connection_destroyed
  ServiceAct-Sends sc s s' (own b t t' h) = process_message-Sends sc b s s' h
  ServiceAct-Sends sc s s' (for_others t t' (requests c b u u' ne h)) =
      process_message-Sends c b s s' h
  ServiceAct-Sends sc s s' (for_others t t' (connects c u)) = same-Sends s s' refl
  ServiceAct-Sends sc s s' (for_others t t' (is_destroyed c u ne)) = same-Sends s s' refl
  ServiceAct-Sends sc s s' (for_others t t' (emits signature values u v h)) =
      handler_captures-Sends signature values s v h
  ServiceAct-Sends sc s s' (for_others t t' (changes w u)) = same-Sends s s' refl
