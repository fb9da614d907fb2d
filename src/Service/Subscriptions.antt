-- ===== src/Service/Subscriptions.antt =====
-- Subscriptions to the subject's signals and what they lead to (src/CuteIPCService.cpp,
-- src/CuteIPCSignalHandler.cpp).
use cute_ipc.Prelude.{
  ℕ, ◌<◌, ◌≡◌, refl, sym, ap, ◌∙◌, inl, inr, true, false, List, [], ◌∷◌, ◌++◌, append-nil, Option,
  some, is_nil, length, Option-cases, arith,
}
use cute_ipc.Prelude.Result.{ok}
use cute_ipc.Prelude.Text.{Text, Bytes, same_refl}
use cute_ipc.Prelude.Hash.{lookup, insert, lookup-insert, All-lookup}
use cute_ipc.Qt.{Qt}
use cute_ipc.MetaObjects.{MetaObjects}
use cute_ipc.Message.{Datum, message_response, from_values}
use cute_ipc.Marshaller.Write.{marshall_message}
use cute_ipc.SignalHandler.{
  SignalHandler, add_listener, remove_one, or_destroyed, remove_listener, relay_slot,
}
use cute_ipc.Service.{
  Service, subject_of, send_response, send_response_message, handler_for, add_listener_for,
  handle_signal_request, remove_listener_for, handle_signal_disconnect, send_signal_to,
  handler_captures,
}
use cute_ipc.Service.Counts.{count}
use cute_ipc.Service.Registry.{IsHandler}
use cute_ipc.Service.Delivery.{
  deliveries, send_signal_to-sent, relay_slot-handler, handler_captures-Emitted,
}
use cute_ipc.Service.Histories.{Reachable, Reachable-IsRegistry}

module _ {V I W : Type 0} (q : Qt V I) (o : MetaObjects V I W) where
  -- In every history of a service, a handler's capture of a signal appends the same framed
  -- bytes for a list of connections to what was sent, and each of these connections exists.
  pub delivered_to_existing :
      (object : ℕ) (subject : Option ℕ) (signature : Text) (values : List (Datum V I))
      (s s' : Service)
      → Reachable q o object subject s
      → handler_captures q o signature values s ≡ ok s'
      → (bytes : Bytes) × (cs : List ℕ) × (s'.sent ≡ s.sent ++ deliveries q o bytes cs)
        × ((c : ℕ) → 0 < count c cs → 0 < count c s.connections)
  unfolding handler_captures
  delivered_to_existing object subject signature values s s' r e =
      elim (Option-cases (lookup signature s.handlers)) [
        | inl n ↦
            let e' : ok s ≡ ok s' = rw (n, handler_captures) at e in
            let k : s ≡ s' = ground arith in
            (
              [],
              [],
              sym (ap (λ t. t.sent) k) ∙ sym (append-nil s.sent),
              λ c p. absurd (omega (arith, p)),
            )
        | inr (h, there) ↦
            let (bytes, d, signal) = handler_captures-Emitted q o signature values s s' h there e in
            let p =
              All-lookup (λ k. IsHandler s.connections k.1) signature s.handlers there
                (Reachable-IsRegistry q o object subject s r).0 in
            (bytes, h.wired, d.sent, p.1)
      ]

  pub emits_to_all :
      (signature : Text) (values : List (Datum V I)) (s : Service) (h h' : SignalHandler)
      (bytes : Bytes)
      → lookup signature s.handlers ≡ some h
      → relay_slot q o s.service_object values h ≡ ok (h', bytes)
      → (s' : Service) × (handler_captures q o signature values s ≡ ok s')
        × (s'.sent ≡ s.sent ++ deliveries q o bytes h.wired)
  unfolding handler_captures
  emits_to_all signature values s h h' bytes there relayed =
      let s1 : Service = record s { handlers = insert signature h' s.handlers } in
      let wired : h.wired ≡ h'.wired =
        ap (λ g. g.wired) (relay_slot-handler q o s.service_object values h relayed) in
      (
        send_signal_to q o h'.wired bytes s1,
        rw (there, handler_captures, relayed) refl,
        ap (λ t. t.sent) (send_signal_to-sent q o h'.wired bytes s1)
            ∙ ap (λ w. s.sent ++ deliveries q o bytes w) (sym wired),
      )

  same_key :
      (signature : Text) (h : SignalHandler) (s : Service)
      → lookup signature (insert signature h s.handlers) ≡ some h
  same_key signature h s =
      lookup-insert signature signature h s.handlers ∙ rw (same_refl signature) refl

  -- A registered connection asks for a signal that the subject has: the sender gets the response, and
  -- when the subject emits the signal next, its bytes go to each object that was connected to the
  -- signal before and to the connection, in this order. The response can be marshalled, and so can
  -- the signal.
  pub subscribed_receives :
      (signature id : Text) (sender listener : ℕ) (values : List (Datum V I)) (s : Service)
      (h' : SignalHandler) (reply bytes : Bytes)
      → o.has_signal (subject_of s) (q.to_latin1 signature) ≡ true
      → lookup id s.long_lived ≡ some listener
      → marshall_message q (from_values message_response signature [] []) ≡ ok reply
      → relay_slot q o s.service_object values (add_listener listener (handler_for q o signature s))
        ≡ ok (h', bytes)
      → (s1 : Service) × (s2 : Service) × (handle_signal_request q o signature id sender s ≡ ok s1)
        × (handler_captures q o signature values s1 ≡ ok s2)
        × (s2.sent
            ≡ (s.sent ++ (sender, q.put_uint (length reply) ++ reply) ∷ [])
              ++ deliveries q o bytes ((handler_for q o signature s).wired ++ listener ∷ []))
  unfolding handle_signal_request send_response_message send_response add_listener_for add_listener
  subscribed_receives signature id sender listener values s h' reply bytes has registered marshalled
        relayed =
      let h = add_listener listener (handler_for q o signature s) in
      let s1 = send_response q o sender reply (add_listener_for q o signature listener s) in
      let (s2, emitted, sent) =
        emits_to_all signature values s1 h h' bytes (same_key signature h s) relayed in
      (
        s1,
        s2,
        rw (has, handle_signal_request, registered, send_response_message, marshalled) refl,
        emitted,
        sent,
      )

  -- A registered connection asks to be disconnected from a signal whose handler keeps another
  -- listener: the sender gets the response, but when the handler captures the signal next, its
  -- bytes still go to each object that was connected before, the connection that left included.
  -- The response can be marshalled, and so can the signal.
  pub unsubscribed_still_receives :
      (signature id : Text) (sender listener : ℕ) (values : List (Datum V I)) (s : Service)
      (h h' : SignalHandler) (reply bytes : Bytes)
      → lookup id s.long_lived ≡ some listener
      → lookup signature s.handlers ≡ some h
      → is_nil (remove_one listener h.listeners) ≡ false
      → marshall_message q (from_values message_response signature [] []) ≡ ok reply
      → relay_slot q o s.service_object values
          (record h { listeners = remove_one listener h.listeners })
        ≡ ok (h', bytes)
      → (s1 : Service) × (s2 : Service) × (handle_signal_disconnect q o signature id sender s
          ≡ ok s1)
        × (handler_captures q o signature values s1 ≡ ok s2)
        × (s2.sent
            ≡ (s.sent ++ (sender, q.put_uint (length reply) ++ reply) ∷ [])
              ++ deliveries q o bytes h.wired)
  unfolding handle_signal_disconnect send_response_message send_response remove_listener_for
      remove_listener or_destroyed
  unsubscribed_still_receives signature id sender listener values s h h' reply bytes registered
        there left marshalled relayed =
      let g = record h { listeners = remove_one listener h.listeners } in
      let s0 : Service = record s { handlers = insert signature g s.handlers } in
      let removed : remove_listener_for q o signature (lookup id s.long_lived) s ≡ s0 =
        ap (λ l. remove_listener_for q o signature l s) registered
        ∙ rw (there, remove_listener_for, left) refl in
      let s1 = send_response q o sender reply s0 in
      let (s2, emitted, sent) =
        emits_to_all signature values s1 g h' bytes (same_key signature g s) relayed in
      (
        s1,
        s2,
        ap (send_response_message q o sender signature []) removed
            ∙ rw (marshalled, send_response_message) refl,
        emitted,
        sent,
      )
