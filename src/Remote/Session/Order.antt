-- ===== src/Remote/Session/Order.antt =====
-- The requests of an interface are processed in the order in which it made them, whatever the order of
-- the steps (src/CuteIPCInterface.cpp, src/CuteIPCInterfaceWorker.cpp,
-- src/CuteIPCServiceConnection.cpp).
use cute_ipc.Prelude.{
  ℕ, ◌≡◌, refl, sym, ap, ◌∙◌, subst, List, [], ◌∷◌, ◌++◌, append_assoc, append-nil, some, arith,
}
use cute_ipc.Prelude.Result.{ok, >>=-eq-ok}
use cute_ipc.Prelude.Text.{Bytes}
use cute_ipc.Qt.{Qt}
use cute_ipc.MetaObjects.{MetaObjects}
use cute_ipc.Message.{Message}
use cute_ipc.Receiver.{Receiver, idle, finish_service, read_message_service, receive}
use cute_ipc.Receiver.Chunks.{Pending-nil, finish_service-IsFinish}
use cute_ipc.Receiver.Pending.{Pending, between}
use cute_ipc.ServiceConnection.{ServiceConnection, State, process_call}
use cute_ipc.InterfaceConnection.{InterfaceConnection}
use cute_ipc.Remote.Stream.{Marshalled, process_calls}
use cute_ipc.Remote.Session.{
  Session, written_by, Run, at_start, and_then, Handled, nothing, handles, meanwhile, IsSettled,
}
use cute_ipc.Remote.Session.Sent.{append-cancel, Marshalled-split}
use cute_ipc.Remote.Session.Tracking.{Tracked, Tracked-Served, step-Tracked}

module _ {V I W : Type 0} (q : Qt V I) (o : MetaObjects V I W) (sc : ServiceConnection)
    (Meanwhile : State W → State W → Type 0) where
  settled-Tracked :
      (x : Session V I W) (address : ℕ) (conn : InterfaceConnection V I)
      → IsSettled x address conn
      → Tracked q o sc Meanwhile x.state [] x
  settled-Tracked x address conn f = record {
    handled = [];
    sent = [];
    waiting = [];
    blocks = [];
    rest = [];
    address = address;
    conn = conn;
    all = refl;
    done = nothing;
    on_the_way = tt;
    at_interface = subst (Marshalled q o []) (sym f.no_requests) tt;
    connected = f.connected;
    cut = f.all_arrived ∙ sym (append-nil x.arrived);
    pending = subst (λ r. Pending q.stream r [] []) (sym f.at_rest) (between refl refl refl);
    drained = λ e. refl;
  }

  Run-Tracked :
      (s : State W) (x y : Session V I W) (posted : List (Message V I))
      → Run q o sc Meanwhile x posted y
      → Tracked q o sc Meanwhile s [] x
      → Tracked q o sc Meanwhile s posted y
  Run-Tracked s x y posted at_start t = t
  Run-Tracked s x y posted (and_then before ms x' y' run step) t =
      step-Tracked q o sc Meanwhile s before ms x' y step (Run-Tracked s x x' before run t)

  process_calls-more :
      (s s' : State W) (ms more : List (Message V I))
      → process_calls q o sc ms s ≡ ok s'
      → process_calls q o sc (ms ++ more) s ≡ process_calls q o sc more s'
  unfolding process_calls
  process_calls-more s s' [] more e =
      let same : s ≡ s' = ground arith in ap (process_calls q o sc more) same
  process_calls-more s s' (m ∷ ms) more e =
      let (t, e1, e2) = >>=-eq-ok (process_call q o sc m s) _ e in
      rw e1 (process_calls-more t s' ms more e2)

  -- Without interference, the processing of messages is a function.
  pub Handled-alone :
      (s s' : State W) (ms : List (Message V I))
      → ((t t' : State W) → Meanwhile t t' → ⊥)
      → Handled q o sc Meanwhile s ms s'
      → process_calls q o sc ms s ≡ ok s'
  unfolding process_calls
  Handled-alone s s' ms alone nothing = refl
  Handled-alone s s' ms alone (handles before m t t' h e) =
      process_calls-more s t before (m ∷ []) (Handled-alone s t before alone h)
      ∙ rw (e, process_calls) refl
  Handled-alone s s' ms alone (meanwhile before t t' h i) = absurd (alone t t' i)

  nothing-Marshalled : (ms : List (Message V I)) → Marshalled q o ms [] → ms ≡ []
  nothing-Marshalled [] h = refl
  nothing-Marshalled (m ∷ ms) h = absurd h

  Tracked-drained :
      (s : State W) (y : Session V I W) (posted : List (Message V I))
      → Tracked q o sc Meanwhile s posted y
      → y.client.interface.requests ≡ []
      → written_by y.client.worker ≡ y.arrived
      → Handled q o sc Meanwhile s posted y.state × (y.receiver ≡ idle [])
  unfolding written_by
  Tracked-drained s y posted t no_requests arrived =
      let nil : t.rest ≡ [] =
        append-cancel y.arrived t.rest []
          (sym t.cut ∙ rw (t.connected, written_by) at arrived ∙ sym (append-nil y.arrived)) in
      let no_blocks = t.drained nil in
      let none_sent =
        nothing-Marshalled t.sent (subst (Marshalled q o t.sent) no_blocks t.on_the_way) in
      let none_waiting =
        nothing-Marshalled t.waiting
          (subst (Marshalled q o t.waiting) no_requests t.at_interface) in
      let all : posted ≡ t.handled =
        t.all ∙ (λ i. t.handled ++ (none_sent i ++ none_waiting i)) ∙ append-nil t.handled in
      (
        subst (λ ms. Handled q o sc Meanwhile s ms y.state) (sym all) t.done,
        Pending-nil q.stream finish_service (finish_service-IsFinish q.stream) y.receiver (
            subst (λ bs. Pending q.stream y.receiver bs []) no_blocks
              (subst (Pending q.stream y.receiver t.blocks) nil t.pending)),
      )

  -- In every run of a connection that is kept, and on which nothing is on its way at first, as
  -- after its registration, at every moment, whatever the order of its steps and whatever
  -- others do to the service meanwhile: the messages that the service has processed since are
  -- the first of those that the interface handed to its worker, each once and in the order in
  -- which they were handed over. The conditions on the steps: what is handed over can be
  -- marshalled, to 1 to 2 ^ 31 - 1 bytes, and read back, and its processing is defined.
  pub processed_in_order :
      (x y : Session V I W) (posted : List (Message V I)) (address : ℕ)
      (conn : InterfaceConnection V I)
      → IsSettled x address conn
      → Run q o sc Meanwhile x posted y
      → (handled later : List (Message V I)) × (posted ≡ handled ++ later)
        × Handled q o sc Meanwhile x.state handled y.state
  processed_in_order x y posted address conn f run =
      let t = Run-Tracked x.state x y posted run (settled-Tracked x address conn f) in
      (t.handled, t.sent ++ t.waiting, t.all, t.done)

  -- When in such a run no request waits for the worker, and all bytes that the worker has written have
  -- arrived, the service has processed all messages that the interface handed over, each once and in
  -- this order, and its receiver keeps nothing.
  pub all_processed :
      (x y : Session V I W) (posted : List (Message V I)) (address : ℕ)
      (conn : InterfaceConnection V I)
      → IsSettled x address conn
      → Run q o sc Meanwhile x posted y
      → y.client.interface.requests ≡ []
      → written_by y.client.worker ≡ y.arrived
      → Handled q o sc Meanwhile x.state posted y.state × (y.receiver ≡ idle [])
  all_processed x y posted address conn f run no_requests arrived =
      let t = Run-Tracked x.state x y posted run (settled-Tracked x address conn f) in
      Tracked-drained x.state y posted t no_requests arrived

  -- At every moment of such a run, when a piece of the bytes on their way comes to the service, its
  -- loop of readyRead ends, and hands on exactly the blocks of the next messages that the service is to
  -- process: none, one or several.
  pub piece_handed_on :
      (x y : Session V I W) (posted : List (Message V I)) (address : ℕ)
      (conn : InterfaceConnection V I) (piece rest : Bytes)
      → IsSettled x address conn
      → Run q o sc Meanwhile x posted y
      → written_by y.client.worker ≡ y.arrived ++ (piece ++ rest)
      → (handled next later : List (Message V I)) × (r : Receiver) × (blocks : List Bytes) × (posted
          ≡ handled ++ (next ++ later))
        × Handled q o sc Meanwhile x.state handled y.state
        × (receive (read_message_service q.stream) y.receiver piece ≡ some (r, blocks))
        × Marshalled q o next blocks
  piece_handed_on x y posted address conn piece rest f run e =
      let t = Run-Tracked x.state x y posted run (settled-Tracked x address conn f) in
      let (r, outs, left, er, split, p, done) =
        Tracked-Served q o sc Meanwhile x.state posted y t piece rest e in
      let (next, later, parts, h, h') =
        Marshalled-split q o t.sent outs left (subst (Marshalled q o t.sent) split t.on_the_way) in
      (
        t.handled,
        next,
        later ++ t.waiting,
        r,
        outs,
        t.all ∙ ap (λ ns. t.handled ++ (ns ++ t.waiting)) parts ∙ simp append_assoc,
        t.done,
        er,
        h,
      )
