-- ===== src/Remote/Downlink/Tracking.antt =====
-- Where the messages of a service to a client are, through every step (src/CuteIPCService.cpp,
-- src/CuteIPCInterfaceConnection.cpp).
use cute_ipc.Prelude.{
  ℕ, ◌≡◌, refl, sym, ap, ◌∙◌, subst, List, [], ◌++◌, append_assoc, append-nil, some, All, arith,
}
use cute_ipc.Prelude.Result.{ok}
use cute_ipc.Prelude.Text.{Bytes}
use cute_ipc.Qt.{Qt}
use cute_ipc.MetaObjects.{MetaObjects}
use cute_ipc.Message.{Message}
use cute_ipc.Receiver.{Receiver, finish_interface, read_message_interface, receive}
use cute_ipc.Receiver.Pending.{frames, Pending}
use cute_ipc.Receiver.Chunks.{Served, receive-Served, finish_interface-IsFinish}
use cute_ipc.ServiceConnection.{ServiceConnection, State}
use cute_ipc.InterfaceConnection.{InterfaceConnection, send_call_request}
use cute_ipc.Interface.State.{Interface}
use cute_ipc.Worker.{forward_request}
use cute_ipc.Client.{Client}
use cute_ipc.Remote.Session.Sent.{append-cancel, Pending-append}
use cute_ipc.Remote.Downlink.{
  Sending, Downlink, bytes_to, messages_to, logged, Sends, IsSmall, receive_blocks, DownStep,
  serves, arrives, forwards, others, Heard, meanwhile,
}
use cute_ipc.Remote.Downlink.Hearing.{Written, receive_blocks-Heard}
use cute_ipc.Remote.Downlink.Blocks.{
  bodies_to, bytes_to-append, bytes_to-logged, sends-Written, Written-append, Written-split,
  Written-IsBlock, nothing_sent,
}

module _ {V I W : Type 0} (q : Qt V I) (o : MetaObjects V I W) (sc : ServiceConnection)
    (Meanwhile : Interface V I → Interface V I → Type 0) where
  -- The messages written to the connection are those that the interface learnt of and those of which
  -- bytes are on the way or at the receiver.
  pub record DownTracked (d : Interface V I) (sent : List (Message V I)) (x : Downlink V I W)
      : Type 0 where
    pub heard : List (Message V I)
    pub coming : List (Message V I)
    pub blocks : List Bytes
    pub rest : Bytes
    pub address : ℕ
    pub conn : InterfaceConnection V I
    pub all : sent ≡ heard ++ coming
    pub done : Heard q o Meanwhile d heard x.client.interface
    pub on_the_way : Written q o coming blocks
    pub connected : x.client.worker.connection ≡ some (address, conn)
    pub cut : bytes_to sc.id x.state.service.sent ≡ x.arrived ++ rest
    pub pending : Pending q.stream x.receiver blocks rest
    pub drained : rest ≡ [] → blocks ≡ []

  serves-DownTracked :
      (d : Interface V I) (sent : List (Message V I)) (sends : List (Sending V I)) (s : State W)
      (x : Downlink V I W)
      → Sends q o x.state s sends
      → All (IsSmall q o) sends
      → DownTracked d sent x
      → DownTracked d (sent ++ messages_to sc.id sends) (record x { state = s })
  serves-DownTracked d sent sends s x (log, sending) small t =
      let more = bodies_to sc.id sends in
      record {
        heard = t.heard;
        coming = t.coming ++ messages_to sc.id sends;
        blocks = t.blocks ++ more;
        rest = t.rest ++ frames q.stream more;
        address = t.address;
        conn = t.conn;
        all =
            ap (λ ms. ms ++ messages_to sc.id sends) t.all
            ∙ append_assoc t.heard t.coming (messages_to sc.id sends);
        done = t.done;
        on_the_way =
            Written-append q o t.coming (messages_to sc.id sends) t.blocks more t.on_the_way
              (sends-Written q o sc.id sends sending small);
        connected = t.connected;
        cut =
            ap (bytes_to sc.id) log
            ∙ bytes_to-append sc.id x.state.service.sent (logged q o sends)
            ∙ (λ i. t.cut i ++ bytes_to-logged q o sc.id sends i)
            ∙ append_assoc x.arrived t.rest (frames q.stream more);
        pending = Pending-append q.stream x.receiver t.blocks more t.rest t.pending;
        drained = nothing_sent q o t.blocks more t.rest t.drained;
      }

  -- The loop of readyRead ends on every piece.
  DownTracked-Served :
      (d : Interface V I) (sent : List (Message V I)) (x : Downlink V I W)
      (t : DownTracked d sent x) (piece rest : Bytes)
      → t.rest ≡ piece ++ rest
      → Served q.stream finish_interface
          (finish_interface-IsFinish q.stream)
          (receive (read_message_interface q.stream) x.receiver piece)
          t.blocks
          rest
  unfolding read_message_interface
  DownTracked-Served d sent x t piece rest e =
      receive-Served q.stream finish_interface (finish_interface-IsFinish q.stream) x.receiver
        t.blocks piece rest (Written-IsBlock q o t.coming t.blocks t.on_the_way)
        (subst (Pending q.stream x.receiver t.blocks) e t.pending)

  arrives-DownTracked :
      (d : Interface V I) (sent : List (Message V I)) (piece rest : Bytes) (r : Receiver)
      (blocks : List Bytes) (c : Client V I) (x : Downlink V I W)
      → bytes_to sc.id x.state.service.sent ≡ x.arrived ++ (piece ++ rest)
      → receive (read_message_interface q.stream) x.receiver piece ≡ some (r, blocks)
      → receive_blocks q o blocks x.client ≡ ok c
      → DownTracked d sent x
      → DownTracked d sent (record x { arrived = x.arrived ++ piece; receiver = r; client = c })
  arrives-DownTracked d sent piece rest r blocks c x e er ec t =
      let cut = append-cancel x.arrived t.rest (piece ++ rest) (sym t.cut ∙ e) in
      let (r', outs, left, er', split, p, done) = DownTracked-Served d sent x t piece rest cut in
      let same_receiver : r' ≡ r = ground arith in
      let same_blocks : outs ≡ blocks = ground arith in
      let (first, later, parts, h, h') =
        Written-split q o t.coming blocks left
          (subst (Written q o t.coming) (split ∙ ap (λ bs. bs ++ left) same_blocks) t.on_the_way) in
      let (address, conn, connected, heard) =
        receive_blocks-Heard q o Meanwhile d t.heard first blocks x.client c t.address t.conn h
          t.done t.connected ec in
      record {
        heard = t.heard ++ first;
        coming = later;
        blocks = left;
        rest = rest;
        address = address;
        conn = conn;
        all = t.all ∙ ap (◌++◌ t.heard) parts ∙ sym (append_assoc t.heard first later);
        done = heard;
        on_the_way = h';
        connected = connected;
        cut = e ∙ sym (append_assoc x.arrived piece rest);
        pending = subst (λ a. Pending q.stream a left rest) same_receiver p;
        drained = done;
      }

  -- What the client does otherwise keeps its connection.
  client-DownTracked :
      (d : Interface V I) (sent : List (Message V I)) (c : Client V I) (address : ℕ)
      (conn : InterfaceConnection V I) (x : Downlink V I W) (t : DownTracked d sent x)
      → c.worker.connection ≡ some (address, conn)
      → Heard q o Meanwhile d t.heard c.interface
      → DownTracked d sent (record x { client = c })
  client-DownTracked d sent c address conn x t connected heard = record {
    heard = t.heard;
    coming = t.coming;
    blocks = t.blocks;
    rest = t.rest;
    address = address;
    conn = conn;
    all = t.all;
    done = heard;
    on_the_way = t.on_the_way;
    connected = connected;
    cut = t.cut;
    pending = t.pending;
    drained = t.drained;
  }

  pub step-DownTracked :
      (d : Interface V I) (sent ms : List (Message V I)) (x y : Downlink V I W)
      → DownStep q o sc Meanwhile x ms y
      → DownTracked d sent x
      → DownTracked d (sent ++ ms) y
  unfolding forward_request
  step-DownTracked d sent ms x y (serves sends s x' act log small) t =
      serves-DownTracked d sent sends s x log small t
  step-DownTracked d sent ms x y (arrives piece rest r blocks c x' e er ec) t =
      subst (λ ns. DownTracked d ns y) (sym (append-nil sent))
        (arrives-DownTracked d sent piece rest r blocks c x e er ec t)
  step-DownTracked d sent ms x y (forwards b x') t =
      subst (λ ns. DownTracked d ns y) (sym (append-nil sent))
        (client-DownTracked d sent _ t.address (send_call_request q b t.conn) x t
          (rw (t.connected, forward_request) refl) t.done)
  step-DownTracked d sent ms x y (others d' x' h) t =
      subst (λ ns. DownTracked d ns y) (sym (append-nil sent))
        (client-DownTracked d sent _ t.address t.conn x t t.connected
          (meanwhile t.heard x.client.interface d' t.done h))
