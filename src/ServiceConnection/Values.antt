-- ===== src/ServiceConnection/Values.antt =====
-- Calls that expect a value (src/CuteIPCServiceConnection.cpp, src/CuteIPCMarshaller.cpp).
use cute_ipc.Prelude.{
  ℕ, ◌≡◌, refl, sym, subst, inl, inr, List, [], ◌∷◌, some, is_nil, ltb, Bool-cases, Option-cases,
}
use cute_ipc.Prelude.Result.{Result, ok, fail, fault}
use cute_ipc.Prelude.Text.{Text, Bytes}
use cute_ipc.Qt.{Qt}
use cute_ipc.MetaObjects.{MetaObjects}
use cute_ipc.Message.{
  Datum, GenericArgument, Message, message_call_with_return, message_response, from_values,
}
use cute_ipc.Marshaller.Write.{
  marshall_argument_to_stream, marshall_arguments, marshall_message, header, or_empty,
}
use cute_ipc.Marshaller.Typed.{IsDefined, both-IsDefined}
use cute_ipc.Service.{Service, or_else, send_response, send_response_message}
use cute_ipc.ServiceConnection.{
  ServiceConnection, State, fill_arguments, call_returning, dispatch, process_call,
}
use cute_ipc.ServiceConnection.Answers.{Answered, process_call-Answered}
use cute_ipc.ServiceConnection.Total.{Returns, error-Returns, in_state, plain-Returns}

module _ {V I W : Type 0} (q : Qt V I) (o : MetaObjects V I W) where
  -- invokeMethod answers true only if it filled in a value of the type that it was asked for.
  abbrev pub FillsIn : Type 0
  FillsIn =
      (w w' : W) (object : ℕ) (method type : Text) (args : List (GenericArgument V I))
      (d : Datum V I)
      → o.invoke_returning w object method type args ≡ some (w', d)
      → IsDefined (marshall_argument_to_stream q (record { name = type; value = some d }))

  or_empty-Returns :
      (head : Bytes) (body : Result Bytes) → IsDefined body → Returns (or_empty q head body)
  unfolding or_empty
  or_empty-Returns head (ok body) h = (_, refl)
  or_empty-Returns head fail h = (_, refl)
  or_empty-Returns head fault h = absurd h

  value-Returns :
      (c : ℕ) (method type : Text) (d : Datum V I) (s : Service)
      → IsDefined (marshall_argument_to_stream q (record { name = type; value = some d }))
      → Returns (send_response_message q o c method (record { name = type; value = some d } ∷ []) s)
  unfolding send_response_message marshall_message marshall_arguments from_values
  value-Returns c method type d s h =
      let (bytes, e) =
        or_empty-Returns
          (header q
            (from_values message_response method (record { name = type; value = some d } ∷ []) []))
          (marshall_arguments q (record { name = type; value = some d } ∷ []))
          (both-IsDefined q (marshall_argument_to_stream q (record { name = type; value = some d }))
            (ok []) h tt) in
      (send_response q o c bytes s, rw e refl)

  returning-Returns :
      (c : ServiceConnection) (subject : ℕ) (call : Message V I) (args : List (GenericArgument V I))
      (s : State W)
      → FillsIn
      → Returns (call_returning q o c subject call args s)
  unfolding call_returning
  returning-Returns c subject call args s typed =
      let ret_type = q.to_latin1 call.return_type in
      elim (Bool-cases (ltb 0 (q.type_id ret_type))) [
        | inr e ↦ rw (e, call_returning) (in_state q o s (error-Returns q o c.id _ s.service))
        | inl e ↦
            elim (Option-cases
              (o.invoke_returning s.world subject (q.to_latin1 call.method) ret_type args)) [
                | inl e' ↦
                    rw (e, e', call_returning) (in_state q o s (error-Returns q o c.id _ s.service))
                | inr ((world, d), e') ↦
                    rw (e, e', call_returning)
                      (in_state q o (record s { world = world })
                        (value-Returns c.id call.method ret_type d s.service (
                          typed s.world world subject (q.to_latin1 call.method) ret_type args d
                            e')))
              ]
      ]

  -- Every call whose caller waits, with or without a value to return, is answered: the processing
  -- returns, on every branch, and exactly one frame was written, a response or an error, to the
  -- connection that sent the call; it is empty if the value cannot be saved. The condition: a method that was invoked with success filled in a
  -- value of the type that it was asked for.
  pub calls-Answered :
      (c : ServiceConnection) (call : Message V I) (s : State W)
      → FillsIn
      → call.message_type ≡ message_call_with_return
      → (s' : State W) × (process_call q o c call s ≡ ok s')
        × Answered q o c.id s.service s'.service
  unfolding process_call dispatch
  calls-Answered c call s typed waits =
      let args = fill_arguments call.arguments in
      let subject = or_else c.subject s.service.service_object in
      let (s', e) =
        subst (λ t. Returns (dispatch q o t c subject call args s)) (sym waits)
          (elim (Bool-cases (is_nil call.return_type)) [
            | inl no_value ↦ rw no_value (plain-Returns q o c subject call args s)
            | inr a_value ↦ rw a_value (returning-Returns c subject call args s typed)
          ]) in
      (s', e, process_call-Answered q o c call s s' (rw waits tt) e)
