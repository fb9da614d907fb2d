-- ===== src/Service/BoardSteps.antt =====
-- The steps of the service (src/CuteIPCService.cpp) on the board of its signals.
use cute_ipc.Prelude.{
  ℕ, ◌≡◌, refl, sym, ap, ◌∙◌, subst, inl, inr, ◌⊎◌, Bool, true, List, [], ◌∷◌, ◌++◌, Option, some,
  is_nil-append_one, Bool-cases, Option-cases, arith,
}
use cute_ipc.Prelude.Result.{ok, >>=-eq-ok}
use cute_ipc.Prelude.Text.{Text, Bytes, same, same→eq}
use cute_ipc.Prelude.Hash.{lookup, insert, lookup-insert}
use cute_ipc.Qt.{Qt}
use cute_ipc.MetaObjects.{MetaObjects}
use cute_ipc.Message.{Datum, message_response, message_error, from_values}
use cute_ipc.Marshaller.Write.{marshall_message}
use cute_ipc.SignalHandler.{
  SignalHandler, new_handler, add_listener, set_signal_parameters_info, parameter_info,
}
use cute_ipc.Service.{
  Service, subject_of, connection_destroyed, new_connection, send_response, send_error_message,
  send_response_message, handler_for, add_listener_for, handle_signal_request,
  initialize_connection, handler_captures,
}
use cute_ipc.Service.Delivery.{deliveries, IsSignalOf, handler_captures-Emitted}
use cute_ipc.Service.Board.{
  insert-IsBoard, IsBoard-lookup, Board, subscribe, strike_out, receivers_of, board_of, IsEntry,
  IsBoard, lookup-drop_connection, drop_connection-IsBoard,
}

-- What a step of the service means for the board.
pub data Label : Type 0 where
  subscribed : Text → ℕ → Label
  lost : ℕ → Label
  silent : Label

abbrev pub board_after : Label → Board → Board
board_after (subscribed signature c) b = subscribe signature c b
board_after (lost c) b = strike_out c b
board_after silent b = b

-- A request for a signal counts if the subject has the signal and the id is registered.
abbrev pub label_of : Bool → Option ℕ → Text → Label
label_of true (some c) signature = subscribed signature c
label_of _ _ signature = silent

module _ {V I W : Type 0} (q : Qt V I) (o : MetaObjects V I W) where
  error_handlers :
      (c : ℕ) (error : Text) (s s' : Service)
      → send_error_message q o c error s ≡ ok s'
      → s'.handlers ≡ s.handlers
  unfolding send_error_message send_response
  error_handlers c error s s' e =
      let (body, e1, e2) =
        >>=-eq-ok (marshall_message q (from_values message_error error [] [])) _ e in
      ground arith

  response_handlers :
      (c : ℕ) (method : Text) (s s' : Service)
      → send_response_message q o c method [] s ≡ ok s'
      → s'.handlers ≡ s.handlers
  unfolding send_response_message send_response
  response_handlers c method s s' e =
      let (body, e1, e2) =
        >>=-eq-ok (marshall_message q (from_values message_response method [] [])) _ e in
      ground arith

  pub data BoardStep : Service → Label → Service → Type 0 where
    subscribes :
        (signature id : Text) (sender : ℕ) (s s' : Service)
        → handle_signal_request q o signature id sender s ≡ ok s'
        → BoardStep s
            (label_of
              (o.has_signal (subject_of s) (q.to_latin1 signature))
              (lookup id s.long_lived)
              signature)
            s'
    loses : (c : ℕ) (s : Service) → BoardStep s (lost c) (connection_destroyed c s)
    connects : (c : ℕ) (s : Service) → BoardStep s silent (new_connection c s)
    initializes :
        (id : Text) (c : ℕ) (s s' : Service)
        → initialize_connection q o id c s ≡ ok s'
        → BoardStep s silent s'
    emits :
        (signature : Text) (values : List (Datum V I)) (s s' : Service)
        → handler_captures q o signature values s ≡ ok s'
        → BoardStep s silent s'

  -- The service's handlers after a step, and the board's view of them.
  abbrev pub Follows : Service → Label → Service → Type 0
  Follows s l s' = IsBoard s'.handlers × ((k : Text) → board_of s' k ≡ board_after l (board_of s) k)

  same_handlers :
      (s s' : Service) → s'.handlers ≡ s.handlers → IsBoard s.handlers → Follows s silent s'
  same_handlers s s' e b = (subst IsBoard (sym e) b, λ k. ap (λ m. receivers_of (lookup k m)) e)

  handler_for-wired :
      (signature : Text) (s : Service)
      → IsBoard s.handlers
      → ((handler_for q o signature s).listeners ≡ (handler_for q o signature s).wired)
        × ((handler_for q o signature s).signature ≡ signature)
        × ((handler_for q o signature s).wired ≡ board_of s signature)
  unfolding handler_for set_signal_parameters_info new_handler
  handler_for-wired signature s b = elim (Option-cases (lookup signature s.handlers)) [
    | inl e ↦ rw (e, handler_for) (refl, refl, refl)
    | inr (h, e) ↦
        let (clean, left, named) = IsBoard-lookup signature s.handlers e b in
        rw (e, handler_for) (clean, named, refl)
  ]

  add_listener_for-Follows :
      (signature : Text) (c : ℕ) (s s' : Service)
      → IsBoard s.handlers
      → s'.handlers ≡ (add_listener_for q o signature c s).handlers
      → Follows s (subscribed signature c) s'
  unfolding add_listener_for add_listener
  add_listener_for-Follows signature c s s' b e =
      let h = handler_for q o signature s in
      let (clean, named, wired) = handler_for-wired signature s b in
      let entered : IsEntry signature (add_listener c h) =
        (ap (λ l. l ++ c ∷ []) clean, is_nil-append_one h.wired c, named) in
      (
        subst IsBoard (sym e) (insert-IsBoard signature (add_listener c h) s.handlers entered b),
        λ k.
            ap (λ m. receivers_of (lookup k m)) e
            ∙ ap receivers_of (lookup-insert signature k (add_listener c h) s.handlers)
            ∙ elim (Bool-cases (same signature k)) [
              | inl t ↦
                  rw t (ap (λ l. l ++ c ∷ []) (wired ∙ ap (board_of s) (same→eq signature k t)))
              | inr t ↦ rw t refl
            ],
      )

  subscribes-Follows :
      (signature id : Text) (c : ℕ) (s s' : Service)
      → IsBoard s.handlers
      → handle_signal_request q o signature id c s ≡ ok s'
      → Follows s
          (label_of
            (o.has_signal (subject_of s) (q.to_latin1 signature))
            (lookup id s.long_lived)
            signature)
          s'
  unfolding handle_signal_request
  subscribes-Follows signature id c s s' b h =
      elim (Bool-cases (o.has_signal (subject_of s) (q.to_latin1 signature))) [
        | inr e ↦ rw e (same_handlers s s' (error_handlers c _ s s' (rw e at h)) b)
        | inl e ↦ elim (Option-cases (lookup id s.long_lived)) [
          | inl e' ↦ rw (e, e') (same_handlers s s' (error_handlers c _ s s' (rw (e, e') at h)) b)
          | inr (l, e') ↦
              rw (e, e')
                (add_listener_for-Follows signature l s s' b (
                  response_handlers c signature (add_listener_for q o signature l s) s'
                    (rw (e, e') at h)))
        ]
      ]

  emits-Follows :
      (signature : Text) (values : List (Datum V I)) (s s' : Service)
      → IsBoard s.handlers
      → handler_captures q o signature values s ≡ ok s'
      → Follows s silent s'
  unfolding handler_captures
  emits-Follows signature values s s' b h = elim (Option-cases (lookup signature s.handlers)) [
    | inl n ↦
        let e : ok s ≡ ok s' = rw (n, handler_captures) at h in
        let same_service : s ≡ s' = ground arith in
        same_handlers s s' (ap (λ x. x.handlers) (sym same_service)) b
    | inr (g, there) ↦
        let (bytes, d, signal) = handler_captures-Emitted q o signature values s s' g there h in
        let g' : SignalHandler = record g {
          parameters = some (parameter_info q o s.service_object g);
        } in
        (
          subst IsBoard (sym d.handlers) (
              insert-IsBoard signature g' s.handlers (IsBoard-lookup signature s.handlers there b)
                b),
          λ k.
              ap (λ m. receivers_of (lookup k m)) d.handlers
              ∙ ap receivers_of (lookup-insert signature k g' s.handlers)
              ∙ elim (Bool-cases (same signature k)) [
                | inl t ↦
                    rw t (ap receivers_of (sym there) ∙ ap (board_of s) (same→eq signature k t))
                | inr t ↦ rw t refl
              ],
        )
  ]

  pub step-Follows :
      (s s' : Service) (l : Label) → IsBoard s.handlers → BoardStep s l s' → Follows s l s'
  unfolding connection_destroyed new_connection initialize_connection
  step-Follows s s' l b (subscribes signature id c t t' h) =
      subscribes-Follows signature id c s s' b h
  step-Follows s s' l b (loses c t) =
      (drop_connection-IsBoard c s.handlers b, λ k. lookup-drop_connection c k s.handlers b)
  step-Follows s s' l b (connects c t) = same_handlers s s' refl b
  step-Follows s s' l b (initializes id c t t' h) =
      same_handlers s s'
        (response_handlers c _ (record s { long_lived = insert id c s.long_lived }) s' h) b
  step-Follows s s' l b (emits signature values t t' h) = emits-Follows signature values s s' b h

  -- The signal goes to the receivers on the board, if there are any.
  abbrev pub Goes : Board → Text → List (Datum V I) → Service → Service → Type 0
  Goes board signature values s s' =
      ((board signature ≡ []) × (s' ≡ s))
      ⊎ ((bytes : Bytes) × IsSignalOf q o signature values bytes
          × (s'.sent ≡ s.sent ++ deliveries q o bytes (board signature)))

  pub handler_captures-Goes :
      (signature : Text) (values : List (Datum V I)) (s s' : Service)
      → IsBoard s.handlers
      → handler_captures q o signature values s ≡ ok s'
      → Goes (board_of s) signature values s s'
  unfolding handler_captures
  handler_captures-Goes signature values s s' b h =
      elim (Option-cases (lookup signature s.handlers)) [
        | inl n ↦
            let e : ok s ≡ ok s' = rw (n, handler_captures) at h in
            let same_service : s ≡ s' = ground arith in inl (ap receivers_of n, sym same_service)
        | inr (g, there) ↦
            let (bytes, d, signal) = handler_captures-Emitted q o signature values s s' g there h in
            let (clean, left, named) = IsBoard-lookup signature s.handlers there b in
            inr (
              bytes,
              subst (λ t. IsSignalOf q o t values bytes) named signal,
              d.sent ∙ ap (λ m. s.sent ++ deliveries q o bytes (receivers_of m)) (sym there),
            )
      ]
