-- ===== src/Remote/Downlink/Order.antt =====
-- An interface learns of the messages of a service in the order in which they were written, whatever
-- the order of the steps (src/CuteIPCService.cpp, src/CuteIPCServiceConnection.cpp,
-- src/CuteIPCInterfaceConnection.cpp, src/CuteIPCInterface.cpp).
use cute_ipc.Prelude.{ℕ, ◌≡◌, refl, sym, ap, ◌∙◌, subst, List, [], ◌++◌, append-nil}
use cute_ipc.Qt.{Qt}
use cute_ipc.MetaObjects.{MetaObjects}
use cute_ipc.Message.{Message}
use cute_ipc.Receiver.{idle, finish_interface}
use cute_ipc.Receiver.Pending.{Pending, between}
use cute_ipc.Receiver.Chunks.{Pending-nil, finish_interface-IsFinish}
use cute_ipc.ServiceConnection.{ServiceConnection}
use cute_ipc.InterfaceConnection.{InterfaceConnection}
use cute_ipc.Interface.State.{Interface}
use cute_ipc.Remote.Session.Sent.{append-cancel}
use cute_ipc.Remote.Downlink.{
  Downlink, bytes_to, DownRun, at_start, and_then, Heard, nothing, IsQuiet,
}
use cute_ipc.Remote.Downlink.Hearing.{Written}
use cute_ipc.Remote.Downlink.Blocks.{Written-nil}
use cute_ipc.Remote.Downlink.Tracking.{DownTracked, step-DownTracked}

module _ {V I W : Type 0} (q : Qt V I) (o : MetaObjects V I W) (sc : ServiceConnection)
    (Meanwhile : Interface V I → Interface V I → Type 0) where
  quiet-DownTracked :
      (x : Downlink V I W) (address : ℕ) (conn : InterfaceConnection V I)
      → IsQuiet sc x address conn
      → DownTracked q o sc Meanwhile x.client.interface [] x
  quiet-DownTracked x address conn f = record {
    heard = [];
    coming = [];
    blocks = [];
    rest = [];
    address = address;
    conn = conn;
    all = refl;
    done = nothing;
    on_the_way = tt;
    connected = f.connected;
    cut = f.all_arrived ∙ sym (append-nil x.arrived);
    pending = subst (λ r. Pending q.stream r [] []) (sym f.at_rest) (between refl refl refl);
    drained = λ e. refl;
  }

  DownRun-DownTracked :
      (d : Interface V I) (x y : Downlink V I W) (sent : List (Message V I))
      → DownRun q o sc Meanwhile x sent y
      → DownTracked q o sc Meanwhile d [] x
      → DownTracked q o sc Meanwhile d sent y
  DownRun-DownTracked d x y sent at_start t = t
  DownRun-DownTracked d x y sent (and_then before ms x' y' run step) t =
      step-DownTracked q o sc Meanwhile d before ms x' y step
        (DownRun-DownTracked d x x' before run t)

  DownTracked-drained :
      (d : Interface V I) (y : Downlink V I W) (sent : List (Message V I))
      → DownTracked q o sc Meanwhile d sent y
      → bytes_to sc.id y.state.service.sent ≡ y.arrived
      → Heard q o Meanwhile d sent y.client.interface × (y.receiver ≡ idle [])
  DownTracked-drained d y sent t arrived =
      let nil : t.rest ≡ [] =
        append-cancel y.arrived t.rest [] (sym t.cut ∙ arrived ∙ sym (append-nil y.arrived)) in
      let no_blocks = t.drained nil in
      let none_coming =
        Written-nil q o t.coming (subst (Written q o t.coming) no_blocks t.on_the_way) in
      let all : sent ≡ t.heard = t.all ∙ ap (◌++◌ t.heard) none_coming ∙ append-nil t.heard in
      (
        subst (λ ms. Heard q o Meanwhile d ms y.client.interface) (sym all) t.done,
        Pending-nil q.stream finish_interface (finish_interface-IsFinish q.stream) y.receiver (
            subst (λ bs. Pending q.stream y.receiver bs []) no_blocks
              (subst (Pending q.stream y.receiver t.blocks) nil t.pending)),
      )

  -- In every run of a connection that is kept, and on which nothing is on its way at first, at every
  -- moment, whatever the order of its steps, whatever requests the service processes meanwhile and
  -- whatever else happens at the interface: the messages that the interface has learnt of (of an error
  -- by its text, of a signal by queued calls of the methods registered for it then that take its
  -- arguments) are the first of
  -- those that the service wrote to the connection, each once and in the order in which they were
  -- written. The conditions on the steps: what the service writes can be read back, and is 1 to
  -- 2 ^ 31 - 1 bytes, and its handling at the client is defined.
  pub learnt_in_order :
      (x y : Downlink V I W) (sent : List (Message V I)) (address : ℕ)
      (conn : InterfaceConnection V I)
      → IsQuiet sc x address conn
      → DownRun q o sc Meanwhile x sent y
      → (heard later : List (Message V I)) × (sent ≡ heard ++ later)
        × Heard q o Meanwhile x.client.interface heard y.client.interface
  learnt_in_order x y sent address conn f run =
      let t =
        DownRun-DownTracked x.client.interface x y sent run (quiet-DownTracked x address conn f) in
      (t.heard, t.coming, t.all, t.done)

  -- When in such a run all bytes that the service wrote to the connection have arrived, the interface
  -- has learnt of all messages that it wrote, each once and in this order, and the receiver keeps
  -- nothing.
  pub all_learnt :
      (x y : Downlink V I W) (sent : List (Message V I)) (address : ℕ)
      (conn : InterfaceConnection V I)
      → IsQuiet sc x address conn
      → DownRun q o sc Meanwhile x sent y
      → bytes_to sc.id y.state.service.sent ≡ y.arrived
      → Heard q o Meanwhile x.client.interface sent y.client.interface × (y.receiver ≡ idle [])
  all_learnt x y sent address conn f run arrived =
      DownTracked-drained x.client.interface y sent
        (DownRun-DownTracked x.client.interface x y sent run (quiet-DownTracked x address conn f))
        arrived
