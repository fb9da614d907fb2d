-- ===== src/Receiver/Chunks.antt =====
-- The bytes of a sequence of messages, cut into pieces, at the receivers of
-- src/CuteIPCServiceConnection.cpp and src/CuteIPCInterfaceConnection.cpp.
use cute_ipc.Prelude.{
  ℕ, zero, suc, ◌<◌, ◌≡◌, refl, sym, ap, ◌∙◌, subst, inl, inr, List, [], ◌∷◌, ◌++◌, append_assoc,
  append-nil, Option, none, some, length, All, Bool-cases, arith,
}
use cute_ipc.Prelude.Text.{Bytes}
use cute_ipc.Qt.{DataStream}
use cute_ipc.Receiver.{
  Receiver, Fetched, idle, read_message, read_message_service, read_message_interface, add_message,
  ready_read_loop, ready_read, receive, receive_all, finish_service, finish_interface,
}
use cute_ipc.Receiver.Pending.{
  IsBlock, frames, Pending, between, within, record_path, frames-eq-nil, with_message, IsFinish,
}
use cute_ipc.Receiver.Step.{read_message-After}

abbrev pub concat : List Bytes → Bytes
concat [] = []
concat (c ∷ cs) = c ++ concat cs

All-left :
    (m : Option Bytes) (left : List Bytes) → All IsBlock (with_message m left) → All IsBlock left
All-left none left h = h
All-left (some b) left h = h.1

All-split : (xs ys : List Bytes) → All IsBlock (xs ++ ys) → All IsBlock ys
All-split [] ys h = h
All-split (x ∷ xs) ys h = All-split xs ys h.1

add_message-some :
    (m : Option Bytes) (left left' outs : List Bytes) (r : Receiver)
    → left ≡ outs ++ left'
    → (outs' : List Bytes) × (add_message m (some (r, outs)) ≡ some (r, outs'))
      × (with_message m left ≡ outs' ++ left')
add_message-some none left left' outs r e = (outs, refl, e)
add_message-some (some b) left left' outs r e = (b ∷ outs, refl, ap (◌∷◌ b) e)

module _ (d : DataStream) (finish : Receiver → Fetched) (is_finish : IsFinish d finish) where
  -- What a number of calls leave: the messages handed on, in order, and the rest still pending.
  abbrev pub Served : Option (Receiver × List Bytes) → List Bytes → Bytes → Type 0
  Served result ms rest =
      (r : Receiver) × (outs left : List Bytes) × (result ≡ some (r, outs))
      × (ms ≡ outs ++ left)
      × Pending d r left rest
      × (rest ≡ [] → left ≡ [])

  add_message-Served :
      (m : Option Bytes) (more : Option (Receiver × List Bytes)) (ms left : List Bytes)
      (rest : Bytes)
      → ms ≡ with_message m left
      → Served more left rest
      → Served (add_message m more) ms rest
  add_message-Served m more ms left rest e (r, outs, left', er, el, p, done) =
      let (outs', eo, em) = add_message-some m left left' outs r el in
      (r, outs', left', ap (add_message m) er ∙ eo, e ∙ em, p, done)

  ready_read_loop-Served :
      (fuel : ℕ) (r : Receiver) (ms : List Bytes) (rest : Bytes)
      → length r.incoming < fuel
      → All IsBlock ms
      → Pending d r ms rest
      → Served (ready_read_loop (read_message d finish) fuel r) ms rest
  unfolding ready_read_loop
  ready_read_loop-Served zero r ms rest lt bs p = absurd (omega arith)
  ready_read_loop-Served (suc fuel) r ms rest lt bs p =
      let f = read_message d finish r in
      let a = read_message-After d finish is_finish r ms rest bs p in
      let bs' = All-left f.message a.left (subst (All IsBlock) a.split bs) in
      elim (Bool-cases f.finished) [
        | inl done ↦ rw done (
            add_message-Served f.message _ ms a.left rest a.split
              (f.receiver, [], a.left, refl, refl, a.pending, a.drained done))
        | inr more ↦ rw more (
            add_message-Served f.message _ ms a.left rest a.split (
              ready_read_loop-Served fuel f.receiver a.left rest (omega (arith, a.smaller more)) bs'
                a.pending))
      ]

  -- More bytes arrive.
  Pending-more :
      (r : Receiver) (ms : List Bytes) (c rest : Bytes)
      → Pending d r ms (c ++ rest)
      → Pending d (record r { incoming = r.incoming ++ c }) ms rest
  Pending-more r ms c rest (between e0 eb e) = between e0 eb (append_assoc r.incoming c rest ∙ e)
  Pending-more r ms c rest (within m ms' e w) = within m ms' e (record {
    size = w.size;
    short = w.short;
    joined = ap (◌++◌ r.block) (append_assoc r.incoming c rest) ∙ w.joined;
  })

  pub receive-Served :
      (r : Receiver) (ms : List Bytes) (c rest : Bytes)
      → All IsBlock ms
      → Pending d r ms (c ++ rest)
      → Served (receive (read_message d finish) r c) ms rest
  unfolding receive ready_read
  receive-Served r ms c rest bs p =
      ready_read_loop-Served (suc (length (r.incoming ++ c)))
        (record r { incoming = r.incoming ++ c }) ms rest (omega arith) bs
        (Pending-more r ms c rest p)

  receive_all_step :
      (r : Receiver) (c : Bytes) (cs : List Bytes) {r' r'' : Receiver} {outs outs' : List Bytes}
      → receive (read_message d finish) r c ≡ some (r', outs)
      → receive_all (read_message d finish) r' cs ≡ some (r'', outs')
      → receive_all (read_message d finish) r (c ∷ cs) ≡ some (r'', outs ++ outs')
  unfolding receive_all
  receive_all_step r c cs e e' = rw (e, e', receive_all)

  receive_all-Served :
      (cs : List Bytes) (r : Receiver) (ms : List Bytes)
      → All IsBlock ms
      → Pending d r ms (concat cs)
      → (concat cs ≡ [] → ms ≡ [])
      → Served (receive_all (read_message d finish) r cs) ms []
  unfolding receive_all
  receive_all-Served [] r ms bs p done = (r, [], ms, refl, refl, p, done)
  receive_all-Served (c ∷ cs) r ms bs p done =
      let (r', outs, left, e, split, p', done') = receive-Served r ms c (concat cs) bs p in
      let (r'', outs', left', e', split', p'', done'') =
        receive_all-Served cs r' left (All-split outs left (subst (All IsBlock) split bs)) p'
          done' in
      (
        r'',
        outs ++ outs',
        left',
        receive_all_step r c cs e e',
        split ∙ ap (◌++◌ outs) split' ∙ sym (append_assoc outs outs' left'),
        p'',
        done'',
      )

  -- At rest nothing is kept.
  pub Pending-nil : (r : Receiver) → Pending d r [] [] → r ≡ idle []
  Pending-nil r (between e0 eb e) = record_path e0 eb (sym (append-nil r.incoming) ∙ e)
  Pending-nil r (within m ms e w) = cc

  receive_all-frames :
      (cs ms : List Bytes)
      → All IsBlock ms
      → concat cs ≡ frames d ms
      → receive_all (read_message d finish) (idle []) cs ≡ some (idle [], ms)
  receive_all-frames cs ms bs e =
      let start : Pending d (idle []) ms (concat cs) = between refl refl e in
      let (r, outs, left, er, split, p, done) =
        receive_all-Served cs (idle []) ms bs start
          (λ g. frames-eq-nil d ms (omega (arith, ap length e, ap length g))) in
      let nothing : left ≡ [] = done refl in
      let at_rest : r ≡ idle [] = Pending-nil r (subst (λ l. Pending d r l []) nothing p) in
      let all_out : outs ≡ ms = sym (append-nil outs) ∙ ap (◌++◌ outs) (sym nothing) ∙ sym split in
      er ∙ ap some (λ i. (at_rest i, all_out i))

pub finish_service-IsFinish : (d : DataStream) → IsFinish d finish_service
unfolding finish_service
finish_service-IsFinish d = record { at_complete = λ r h. rw h; at_part = λ r h g. rw (h, g) }

pub finish_interface-IsFinish : (d : DataStream) → IsFinish d finish_interface
unfolding finish_interface
finish_interface-IsFinish d = record { at_complete = λ r h. rw h; at_part = λ r h g. rw h }

-- The service: messages of 1 to 2 ^ 31 - 1 bytes, each behind its size, arrive in pieces of any
-- sizes. Then exactly these messages are processed, in order, the loop ends after each piece, and
-- nothing is left behind.
pub service_receives-frames :
    (d : DataStream) (cs ms : List Bytes)
    → All IsBlock ms
    → concat cs ≡ frames d ms
    → receive_all (read_message_service d) (idle []) cs ≡ some (idle [], ms)
unfolding read_message_service
service_receives-frames d = receive_all-frames d finish_service (finish_service-IsFinish d)

-- Blocks of 1 to 2 ^ 31 - 1 bytes, each with its size before it, arrive at the interface in pieces of
-- any sizes. Then it hands on exactly the blocks, in order, and is idle after them.
pub interface_receives-frames :
    (d : DataStream) (cs ms : List Bytes)
    → All IsBlock ms
    → concat cs ≡ frames d ms
    → receive_all (read_message_interface d) (idle []) cs ≡ some (idle [], ms)
unfolding read_message_interface
interface_receives-frames d = receive_all-frames d finish_interface (finish_interface-IsFinish d)
