-- ===== src/Remote/Session/Tracking.antt =====
-- Where the messages of a connection are, from the interface (src/CuteIPCInterface.cpp) to the service
-- (src/CuteIPCServiceConnection.cpp), through every step.
use cute_ipc.Prelude.{
  ℕ, ◌≡◌, refl, sym, ap, ◌∙◌, subst, List, [], ◌∷◌, ◌++◌, append_assoc, append-nil, some, length,
  arith,
}
use cute_ipc.Prelude.Result.{ok, >>=-eq-ok}
use cute_ipc.Prelude.Text.{Bytes}
use cute_ipc.Qt.{Qt}
use cute_ipc.MetaObjects.{MetaObjects}
use cute_ipc.Message.{Message}
use cute_ipc.Receiver.{Receiver, finish_service, read_message_service, receive}
use cute_ipc.Receiver.Pending.{Pending}
use cute_ipc.Receiver.Chunks.{Served, receive-Served, finish_service-IsFinish}
use cute_ipc.ServiceConnection.{ServiceConnection, State, process_call}
use cute_ipc.InterfaceConnection.{InterfaceConnection, send_call_request}
use cute_ipc.Interface.State.{Interface}
use cute_ipc.Worker.{forward_request}
use cute_ipc.Remote.Stream.{
  Marshalled, Marshalled-IsBlock, process_all, process_calls, process_all-process_calls,
}
use cute_ipc.Remote.Session.Sent.{
  append-cancel, Pending-sent, frame_not_nil, Marshalled-append, Marshalled-split,
}
use cute_ipc.Remote.Session.{
  Session, written_by, SessionStep, posts, takes, arrives, others, Handled, handles, meanwhile,
}

module _ {V I W : Type 0} (q : Qt V I) (o : MetaObjects V I W) (sc : ServiceConnection)
    (Meanwhile : State W → State W → Type 0) where
  Handled-process_calls :
      (s s' s'' : State W) (ms more : List (Message V I))
      → Handled q o sc Meanwhile s ms s'
      → process_calls q o sc more s' ≡ ok s''
      → Handled q o sc Meanwhile s (ms ++ more) s''
  unfolding process_calls
  Handled-process_calls s s' s'' ms [] h e =
      let same : s' ≡ s'' = ground arith in
      subst (λ ns. Handled q o sc Meanwhile s ns s'') (sym (append-nil ms))
        (subst (Handled q o sc Meanwhile s ms) same h)
  Handled-process_calls s s' s'' ms (m ∷ more) h e =
      let (t, e1, e2) = >>=-eq-ok (process_call q o sc m s') _ e in
      subst (λ ns. Handled q o sc Meanwhile s ns s'') (append_assoc ms (m ∷ []) more)
        (Handled-process_calls s t s'' (ms ++ m ∷ []) more (handles ms m s' t h e1) e2)

  -- The messages handed to the worker are those that were processed, those of which bytes are on the
  -- way or at the receiver, and those that wait for the worker.
  pub record Tracked (s : State W) (posted : List (Message V I)) (x : Session V I W) : Type 0 where
    pub handled : List (Message V I)
    pub sent : List (Message V I)
    pub waiting : List (Message V I)
    pub blocks : List Bytes
    pub rest : Bytes
    pub address : ℕ
    pub conn : InterfaceConnection V I
    pub all : posted ≡ handled ++ (sent ++ waiting)
    pub done : Handled q o sc Meanwhile s handled x.state
    pub on_the_way : Marshalled q o sent blocks
    pub at_interface : Marshalled q o waiting x.client.interface.requests
    pub connected : x.client.worker.connection ≡ some (address, conn)
    pub cut : conn.written ≡ x.arrived ++ rest
    pub pending : Pending q.stream x.receiver blocks rest
    pub drained : rest ≡ [] → blocks ≡ []

  posts-Tracked :
      (s : State W) (posted ms : List (Message V I)) (bs : List Bytes) (d : Interface V I)
      (x : Session V I W)
      → Marshalled q o ms bs
      → d.requests ≡ x.client.interface.requests ++ bs
      → Tracked s posted x
      → Tracked s (posted ++ ms) (record x { client = record x.client { interface = d } })
  posts-Tracked s posted ms bs d x h e t = record {
    handled = t.handled;
    sent = t.sent;
    waiting = t.waiting ++ ms;
    blocks = t.blocks;
    rest = t.rest;
    address = t.address;
    conn = t.conn;
    all = ap (λ ns. ns ++ ms) t.all ∙ simp append_assoc;
    done = t.done;
    on_the_way = t.on_the_way;
    at_interface =
        subst (Marshalled q o (t.waiting ++ ms)) (sym e)
          (Marshalled-append q o t.waiting ms x.client.interface.requests bs t.at_interface h);
    connected = t.connected;
    cut = t.cut;
    pending = t.pending;
    drained = t.drained;
  }

  takes-Tracked :
      (s : State W) (posted : List (Message V I)) (b : Bytes) (bs : List Bytes) (x : Session V I W)
      → x.client.interface.requests ≡ b ∷ bs
      → Tracked s posted x
      → Tracked s posted (record x {
        client = record {
          interface = record x.client.interface { requests = bs };
          worker = forward_request q b x.client.worker;
        };
      })
  unfolding forward_request send_call_request
  takes-Tracked s posted b bs x e t =
      let (first, later, split, h, h') =
        Marshalled-split q o t.waiting (b ∷ []) bs
          (subst (Marshalled q o t.waiting) e t.at_interface) in
      record {
        handled = t.handled;
        sent = t.sent ++ first;
        waiting = later;
        blocks = t.blocks ++ b ∷ [];
        rest = t.rest ++ (q.put_uint (length b) ++ b);
        address = t.address;
        conn = send_call_request q b t.conn;
        all =
            t.all
            ∙ ap (λ ns. t.handled ++ (t.sent ++ ns)) split
            ∙ ap (◌++◌ t.handled) (sym (append_assoc t.sent first later));
        done = t.done;
        on_the_way = Marshalled-append q o t.sent first t.blocks (b ∷ []) t.on_the_way h;
        at_interface = h';
        connected = rw (t.connected, forward_request) refl;
        cut =
            ap (λ w. w ++ (q.put_uint (length b) ++ b)) t.cut
            ∙ append_assoc x.arrived t.rest (q.put_uint (length b) ++ b);
        pending = Pending-sent q.stream x.receiver t.blocks b t.rest t.pending;
        drained = λ nil. absurd (frame_not_nil q.stream b t.rest nil);
      }

  -- The rest of the bytes on their way begins with the piece that arrives.
  Tracked-piece :
      (s : State W) (posted : List (Message V I)) (x : Session V I W) (t : Tracked s posted x)
      (piece rest : Bytes)
      → written_by x.client.worker ≡ x.arrived ++ (piece ++ rest)
      → t.rest ≡ piece ++ rest
  unfolding written_by
  Tracked-piece s posted x t piece rest e =
      append-cancel x.arrived t.rest (piece ++ rest) (sym t.cut ∙ rw (t.connected, written_by) at e)

  -- The loop of readyRead ends on every piece.
  pub Tracked-Served :
      (s : State W) (posted : List (Message V I)) (x : Session V I W) (t : Tracked s posted x)
      (piece rest : Bytes)
      → written_by x.client.worker ≡ x.arrived ++ (piece ++ rest)
      → Served q.stream finish_service
          (finish_service-IsFinish q.stream)
          (receive (read_message_service q.stream) x.receiver piece)
          t.blocks
          rest
  unfolding read_message_service
  Tracked-Served s posted x t piece rest e =
      receive-Served q.stream finish_service (finish_service-IsFinish q.stream) x.receiver t.blocks
        piece rest (Marshalled-IsBlock q o t.sent t.blocks t.on_the_way)
        (subst (Pending q.stream x.receiver t.blocks) (Tracked-piece s posted x t piece rest e)
          t.pending)

  arrives-Tracked :
      (s : State W) (posted : List (Message V I)) (piece rest : Bytes) (r : Receiver)
      (blocks : List Bytes) (s' : State W) (x : Session V I W)
      → written_by x.client.worker ≡ x.arrived ++ (piece ++ rest)
      → receive (read_message_service q.stream) x.receiver piece ≡ some (r, blocks)
      → process_all q o sc blocks x.state ≡ ok s'
      → Tracked s posted x
      → Tracked s posted (record x { arrived = x.arrived ++ piece; receiver = r; state = s' })
  arrives-Tracked s posted piece rest r blocks s' x e er ep t =
      let (r', outs, left, er', split, p, done) = Tracked-Served s posted x t piece rest e in
      let same_receiver : r' ≡ r = ground arith in
      let same_blocks : outs ≡ blocks = ground arith in
      let (first, later, parts, h, h') =
        Marshalled-split q o t.sent blocks left (
          subst (Marshalled q o t.sent) (split ∙ ap (λ bs. bs ++ left) same_blocks) t.on_the_way) in
      record {
        handled = t.handled ++ first;
        sent = later;
        waiting = t.waiting;
        blocks = left;
        rest = rest;
        address = t.address;
        conn = t.conn;
        all = t.all ∙ ap (λ ns. t.handled ++ (ns ++ t.waiting)) parts ∙ simp append_assoc;
        done =
            Handled-process_calls s x.state s' t.handled first t.done
              (sym (process_all-process_calls q o sc first blocks x.state h) ∙ ep);
        on_the_way = h';
        at_interface = t.at_interface;
        connected = t.connected;
        cut =
            t.cut
            ∙ ap (◌++◌ x.arrived) (Tracked-piece s posted x t piece rest e)
            ∙ sym (append_assoc x.arrived piece rest);
        pending = subst (λ a. Pending q.stream a left rest) same_receiver p;
        drained = done;
      }

  others-Tracked :
      (s : State W) (posted : List (Message V I)) (s' : State W) (x : Session V I W)
      → Meanwhile x.state s'
      → Tracked s posted x
      → Tracked s posted (record x { state = s' })
  others-Tracked s posted s' x h t = record {
    handled = t.handled;
    sent = t.sent;
    waiting = t.waiting;
    blocks = t.blocks;
    rest = t.rest;
    address = t.address;
    conn = t.conn;
    all = t.all;
    done = meanwhile t.handled x.state s' t.done h;
    on_the_way = t.on_the_way;
    at_interface = t.at_interface;
    connected = t.connected;
    cut = t.cut;
    pending = t.pending;
    drained = t.drained;
  }

  pub step-Tracked :
      (s : State W) (posted ms : List (Message V I)) (x y : Session V I W)
      → SessionStep q o sc Meanwhile x ms y
      → Tracked s posted x
      → Tracked s (posted ++ ms) y
  step-Tracked s posted ms x y (posts ms' bs d x' h e) t = posts-Tracked s posted ms bs d x h e t
  step-Tracked s posted ms x y (takes b bs x' e) t =
      subst (λ ns. Tracked s ns y) (sym (append-nil posted)) (takes-Tracked s posted b bs x e t)
  step-Tracked s posted ms x y (arrives piece rest r blocks s' x' e er ep) t =
      subst (λ ns. Tracked s ns y) (sym (append-nil posted))
        (arrives-Tracked s posted piece rest r blocks s' x e er ep t)
  step-Tracked s posted ms x y (others s' x' h) t =
      subst (λ ns. Tracked s ns y) (sym (append-nil posted)) (others-Tracked s posted s' x h t)
