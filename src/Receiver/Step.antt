-- ===== src/Receiver/Step.antt =====
-- One call of readMessageFromSocket (src/CuteIPCServiceConnection.cpp,
-- src/CuteIPCInterfaceConnection.cpp), in every state that a sequence of sent messages can lead to.
use cute_ipc.Prelude.{
  ◌≤◌, ◌<◌, ◌≡◌, refl, sym, ap, subst, ◌∙◌, inl, inr, true, false, ◌&&◌, List, [], ◌∷◌, ◌++◌,
  append_assoc, append-nil, length, length-append, is_nil, All, ltb, ◌==◌, if◌then◌else◌,
  Bool-cases, arith,
}
use native.Mathlib.Decide.{dec_le}
use cute_ipc.Prelude.Text.{Bytes}
use cute_ipc.Qt.{DataStream}
use cute_ipc.Receiver.{Receiver, Fetched, append_block, stop, read_message}
use cute_ipc.Receiver.Split.{split_at}
use cute_ipc.Receiver.Pending.{
  IsBlock, frames, Within, Pending, between, within, After, append_block_whole, append_block_part,
  frames-eq-nil, fetch_size_new, fetch_size_skip, IsFinish,
}

module _ (d : DataStream) where
  is_nil→eq : (xs : Bytes) → is_nil xs ≡ true → xs ≡ []
  is_nil→eq [] h = refl
  is_nil→eq (x ∷ xs) h = cc

  module _ (finish : Receiver → Fetched) (is_finish : IsFinish d finish) where
    finish_whole :
        (r : Receiver) (m ws : Bytes) (ms : List Bytes) (rest : Bytes)
        → IsBlock m
        → ws ++ rest ≡ frames d ms
        → length ws < length r.incoming
        → After d r
            (finish (record { next_block_size = length m; block = m; incoming = ws }))
            (m ∷ ms)
            rest
    finish_whole r m ws ms rest b e lt =
        rw
          (is_finish.at_complete (record { next_block_size = length m; block = m; incoming = ws })
            (ground arith))
          (record {
            left = ms;
            split = refl;
            pending = between refl refl e;
            drained = λ h g. frames-eq-nil d ms (
                omega (
                  arith,
                  ap length e,
                  ap length (is_nil→eq ws h),
                  ap length g,
                  length-append ws rest,
                ));
            smaller = λ _. lt;
          })

    part_drained :
        (r : Receiver) (m tail rest : Bytes)
        → Within d r m tail rest
        → length (r.block ++ r.incoming) < length m
        → rest ≡ []
        → ⊥
    part_drained r m tail rest w lt e = omega (
      arith,
      ap length w.joined,
      ap length e,
      length-append r.block (r.incoming ++ rest),
      length-append r.incoming rest,
      length-append r.block r.incoming,
      length-append m tail,
    )

    finish_part :
        (r : Receiver) (m b : Bytes) (ms : List Bytes) (rest : Bytes)
        → IsBlock m
        → Within d
            (record { next_block_size = length m; block = b; incoming = [] })
            m
            (frames d ms)
            rest
        → After d r
            (finish (record { next_block_size = length m; block = b; incoming = [] }))
            (m ∷ ms)
            rest
    finish_part r m b ms rest bm w =
        let r' : Receiver = record { next_block_size = length m; block = b; incoming = [] } in
        rw (is_finish.at_part r' (ground arith) refl) (record {
          left = m ∷ ms;
          split = refl;
          pending = within m ms refl w;
          drained =
              λ _ g. absurd (part_drained r' m (frames d ms) rest w (rw append-nil w.short) g);
          smaller = λ h. cc;
        })

    -- The second half of the function, inside a message.
    Within-After :
        (r r1 : Receiver) (m : Bytes) (ms : List Bytes) (rest : Bytes)
        → IsBlock m
        → Within d r1 m (frames d ms) rest
        → length r1.incoming ≤ length r.incoming
        → After d r (if is_nil r1.incoming then stop r1 else finish (append_block r1)) (m ∷ ms) rest
    Within-After r r1 m ms rest bm w le = elim (Bool-cases (is_nil r1.incoming)) [
      | inl none_left ↦ rw none_left (record {
        left = m ∷ ms;
        split = refl;
        pending = within m ms refl w;
        drained = λ _ g. absurd (
            part_drained r1 m (frames d ms) rest w
              (omega (
                arith,
                ap length (is_nil→eq r1.incoming none_left),
                length-append r1.block r1.incoming,
                w.short,
              ))
              g);
        smaller = λ h. cc;
      })
      | inr some_left ↦ rw some_left (elim (dec_le (length m) (length (r1.block ++ r1.incoming))) [
        | yes whole ↦
            let (ws, e, p, lt) = append_block_whole d r1 m (frames d ms) rest bm w whole in
            rw e (finish_whole r m ws ms rest bm p (omega arith))
        | no part ↦ rw (append_block_part d r1 m (frames d ms) rest bm w (omega arith)) (
            finish_part r m (r1.block ++ r1.incoming) ms rest bm (record {
              size = refl;
              short = omega arith;
              joined = append_assoc r1.block r1.incoming rest ∙ w.joined;
            }))
      ])
    ]

    header_After :
        (r : Receiver) (m : Bytes) (ms : List Bytes) (rest : Bytes)
        → IsBlock m
        → r.next_block_size ≡ 0
        → r.block ≡ []
        → r.incoming ++ rest ≡ frames d (m ∷ ms)
        → 4 ≤ length r.incoming
        → After d r (read_message d finish r) (m ∷ ms) rest
    unfolding read_message
    header_After r m ms rest bm e0 eb e le =
        let (ws, p, p') =
          split_at r.incoming rest (d.put_uint (length m)) (m ++ frames d ms) e
            (omega (arith, d.length-put_uint (length m))) in
        let test : (r.next_block_size == 0) && ltb (length r.incoming) 4 ≡ false = ground arith in
        let r1 : Receiver = record r { next_block_size = length m; incoming = ws } in
        rw (test, fetch_size_new d r (length m) ws e0 p (omega arith))
          (Within-After r r1 m ms rest bm
            (record { size = refl; short = omega (arith, ap length eb); joined = rw eb p' })
            (omega (arith, ap length p, length-append (d.put_uint (length m)) ws)))

    read_message-between :
        (r : Receiver) (ms : List Bytes) (rest : Bytes)
        → All IsBlock ms
        → r.next_block_size ≡ 0
        → r.block ≡ []
        → r.incoming ++ rest ≡ frames d ms
        → 4 ≤ length r.incoming
        → After d r (read_message d finish r) ms rest
    read_message-between r [] rest bs e0 eb e le =
        absurd (omega (arith, ap length e, length-append r.incoming rest))
    read_message-between r (m ∷ ms) rest bs e0 eb e le = header_After r m ms rest bs.0 e0 eb e le

    read_message_waits :
        (r : Receiver) (ms : List Bytes) (rest : Bytes)
        → r.next_block_size ≡ 0
        → r.block ≡ []
        → r.incoming ++ rest ≡ frames d ms
        → length r.incoming < 4
        → After d r (read_message d finish r) ms rest
    unfolding read_message
    read_message_waits r ms rest e0 eb e lt =
        let test : (r.next_block_size == 0) && ltb (length r.incoming) 4 ≡ true = ground arith in
        rw test (record {
          left = ms;
          split = refl;
          pending = between e0 eb e;
          drained = λ _ g.
              frames-eq-nil d ms
                (omega (arith, ap length e, ap length g, length-append r.incoming rest));
          smaller = λ h. cc;
        })

    read_message-Within :
        (r : Receiver) (m : Bytes) (ms : List Bytes) (rest : Bytes)
        → IsBlock m
        → Within d r m (frames d ms) rest
        → After d r (read_message d finish r) (m ∷ ms) rest
    unfolding read_message
    read_message-Within r m ms rest bm w =
        let test : (r.next_block_size == 0) && ltb (length r.incoming) 4 ≡ false = ground arith in
        rw (test, fetch_size_skip d r (omega (arith, w.size, w.short)))
          (Within-After r r m ms rest bm w (omega arith))

    -- One call, in any state that a sequence of messages can lead to.
    pub read_message-After :
        (r : Receiver) (ms : List Bytes) (rest : Bytes)
        → All IsBlock ms
        → Pending d r ms rest
        → After d r (read_message d finish r) ms rest
    read_message-After r ms rest bs (between e0 eb e) = elim (dec_le 4 (length r.incoming)) [
      | yes le ↦ read_message-between r ms rest bs e0 eb e le
      | no lt ↦ read_message_waits r ms rest e0 eb e (omega arith)
    ]
    read_message-After r ms rest bs (within m ms' e w) =
        subst (λ l. After d r (read_message d finish r) l rest) (sym e)
          (read_message-Within r m ms' rest (subst (All IsBlock) e bs).0 w)
