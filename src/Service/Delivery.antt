-- ===== src/Service/Delivery.antt =====
-- The delivery of the subject's signals (src/CuteIPCService.cpp, src/CuteIPCSignalHandler.cpp).
use cute_ipc.Prelude.{
  ℕ, ◌≡◌, sym, ap, ◌∙◌, List, [], ◌∷◌, ◌++◌, append_assoc, append-nil, some, length, arith,
}
use cute_ipc.Prelude.Result.{ok, >>=-eq-ok}
use cute_ipc.Prelude.Text.{Text, Bytes}
use cute_ipc.Prelude.Hash.{lookup, insert}
use cute_ipc.Qt.{Qt}
use cute_ipc.MetaObjects.{MetaObjects}
use cute_ipc.Message.{Datum, GenericArgument, message_signal, from_arguments}
use cute_ipc.Marshaller.Write.{marshall_message}
use cute_ipc.SignalHandler.{SignalHandler, relay_arguments, relay_slot, parameter_info}
use cute_ipc.Service.{Service, send_response, send_signal_to, handler_captures}

module _ {V I W : Type 0} (q : Qt V I) (o : MetaObjects V I W) where
  -- The same bytes, framed, for each of the objects.
  abbrev pub deliveries : Bytes → List ℕ → List (ℕ × Bytes)
  deliveries bytes [] = []
  deliveries bytes (c ∷ cs) = (c, q.put_uint (length bytes) ++ bytes) ∷ deliveries bytes cs

  pub send_signal_to-sent :
      (cs : List ℕ) (bytes : Bytes) (s : Service)
      → (send_signal_to q o cs bytes s) ≡ record s { sent = s.sent ++ deliveries bytes cs }
  unfolding send_signal_to send_response
  send_signal_to-sent [] bytes s = λ i. record s { sent = sym (append-nil s.sent) i }
  send_signal_to-sent (c ∷ cs) bytes s =
      send_signal_to-sent cs bytes (send_response q o c bytes s) ∙ (λ i. record s {
        sent =
            append_assoc s.sent ((c, q.put_uint (length bytes) ++ bytes) ∷ []) (deliveries bytes cs)
              i;
      })

  pub relay_slot-handler :
      (parent : ℕ) (values : List (Datum V I)) (h : SignalHandler) {r : SignalHandler × Bytes}
      → relay_slot q o parent values h ≡ ok r
      → record h { parameters = some (parameter_info q o parent h) } ≡ r.0
  unfolding relay_slot
  relay_slot-handler parent values h {r} e =
      let (args, e1, e2) =
        >>=-eq-ok (relay_arguments q o (parameter_info q o parent h) values) _ e in
      let (bytes, e3, e4) =
        >>=-eq-ok (marshall_message q (from_arguments message_signal h.signature args [])) _ e2 in
      ground arith

  -- The bytes of the signal with these values, with the names of their types.
  abbrev pub IsSignalOf : Text → List (Datum V I) → Bytes → Type 0
  IsSignalOf signature values bytes =
      (types : List Text) × (args : List (GenericArgument V I)) × (relay_arguments q o types values
        ≡ ok args)
      × (marshall_message q (from_arguments message_signal signature args []) ≡ ok bytes)

  pub relay_slot-IsSignalOf :
      (parent : ℕ) (values : List (Datum V I)) (h : SignalHandler) {r : SignalHandler × Bytes}
      → relay_slot q o parent values h ≡ ok r
      → IsSignalOf h.signature values r.1
  unfolding relay_slot
  relay_slot-IsSignalOf parent values h {r} e =
      let (args, e1, e2) =
        >>=-eq-ok (relay_arguments q o (parameter_info q o parent h) values) _ e in
      let (bytes, e3, e4) =
        >>=-eq-ok (marshall_message q (from_arguments message_signal h.signature args [])) _ e2 in
      let same_bytes : bytes ≡ r.1 = ground arith in
      (parameter_info q o parent h, args, e1, e3 ∙ ap ok same_bytes)

  -- What the emission of a signal does to the service.
  pub record Emitted (signature : Text) (h : SignalHandler) (bytes : Bytes) (s s' : Service)
      : Type 0 where
    pub sent : s'.sent ≡ s.sent ++ deliveries bytes h.wired
    pub handlers :
        s'.handlers
        ≡ insert signature
            (record h { parameters = some (parameter_info q o s.service_object h) })
            s.handlers
    pub long_lived : s'.long_lived ≡ s.long_lived
    pub connections : s'.connections ≡ s.connections

  pub handler_captures-Emitted :
      (signature : Text) (values : List (Datum V I)) (s s' : Service) (h : SignalHandler)
      → lookup signature s.handlers ≡ some h
      → handler_captures q o signature values s ≡ ok s'
      → (bytes : Bytes) × Emitted signature h bytes s s' × IsSignalOf h.signature values bytes
  unfolding handler_captures
  handler_captures-Emitted signature values s s' h there e =
      let ((h', bytes), e1, e2) =
        >>=-eq-ok (relay_slot q o s.service_object values h) _
          (rw (there, handler_captures) at e) in
      let k = relay_slot-handler s.service_object values h e1 in
      let end : record s {
        handlers = insert signature h' s.handlers;
        sent = s.sent ++ deliveries bytes h'.wired;
      }
          ≡ s' =
        sym (
          send_signal_to-sent h'.wired bytes
            (record s { handlers = insert signature h' s.handlers }))
        ∙ (cc) in
      (
        bytes,
        record {
          sent = sym (ap (λ x. x.sent) end) ∙ ap (λ x. s.sent ++ deliveries bytes x.wired) (sym k);
          handlers =
              sym (ap (λ x. x.handlers) end) ∙ ap (λ x. insert signature x s.handlers) (sym k);
          long_lived = sym (ap (λ x. x.long_lived) end);
          connections = sym (ap (λ x. x.connections) end);
        },
        relay_slot-IsSignalOf s.service_object values h e1,
      )
