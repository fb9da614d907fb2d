-- ===== src/Remote/Session/Sent.antt =====
-- Blocks that are sent one after the other, and the messages that they stand for, in
-- src/CuteIPCInterfaceConnection.cpp and src/CuteIPCServiceConnection.cpp.
use cute_ipc.Prelude.{
  ◌≡◌, refl, sym, ap, ◌∙◌, subst, List, [], ◌∷◌, ◌++◌, append_assoc, append-nil, length,
  length-append, arith,
}
use cute_ipc.Prelude.Text.{Bytes}
use cute_ipc.Qt.{Qt, DataStream}
use cute_ipc.MetaObjects.{MetaObjects}
use cute_ipc.Message.{Message}
use cute_ipc.Receiver.{Receiver}
use cute_ipc.Receiver.Pending.{frames, Pending, between, within}
use cute_ipc.Remote.Stream.{Marshalled}

pub append-cancel : (xs ys zs : Bytes) → xs ++ ys ≡ xs ++ zs → ys ≡ zs
append-cancel [] ys zs e = e
append-cancel (x ∷ xs) ys zs e = append-cancel xs ys zs (ground (arith, e))

module _ (d : DataStream) where
  frames-append : (xs ys : List Bytes) → frames d (xs ++ ys) ≡ frames d xs ++ frames d ys
  frames-append [] ys = refl
  frames-append (x ∷ xs) ys =
      ap (λ f. d.put_uint (length x) ++ (x ++ f)) (frames-append xs ys) ∙ simp append_assoc

  -- More blocks are sent.
  pub Pending-append :
      (r : Receiver) (bs more : List Bytes) (rest : Bytes)
      → Pending d r bs rest
      → Pending d r (bs ++ more) (rest ++ frames d more)
  Pending-append r bs more rest (between e0 eb e) = between e0 eb (
      sym (append_assoc r.incoming rest (frames d more))
      ∙ ap (λ f. f ++ frames d more) e
      ∙ sym (frames-append bs more))
  Pending-append r bs more rest (within m bs' e w) =
      within m (bs' ++ more) (ap (λ f. f ++ more) e) (record {
        size = w.size;
        short = w.short;
        joined =
            ap (◌++◌ r.block) (sym (append_assoc r.incoming rest (frames d more)))
            ∙ sym (append_assoc r.block (r.incoming ++ rest) (frames d more))
            ∙ ap (λ f. f ++ frames d more) w.joined
            ∙ append_assoc m (frames d bs') (frames d more)
            ∙ ap (◌++◌ m) (sym (frames-append bs' more));
      })

  pub Pending-sent :
      (r : Receiver) (bs : List Bytes) (b rest : Bytes)
      → Pending d r bs rest
      → Pending d r (bs ++ b ∷ []) (rest ++ (d.put_uint (length b) ++ b))
  Pending-sent r bs b rest p =
      subst (λ f. Pending d r (bs ++ b ∷ []) (rest ++ (d.put_uint (length b) ++ f))) (append-nil b)
        (Pending-append r bs (b ∷ []) rest p)

  pub frame_not_nil : (b rest : Bytes) → rest ++ (d.put_uint (length b) ++ b) ≡ [] → ⊥
  frame_not_nil b rest e = omega (
    arith,
    ap length e,
    length-append rest (d.put_uint (length b) ++ b),
    length-append (d.put_uint (length b)) b,
    d.length-put_uint (length b),
  )

module _ {V I W : Type 0} (q : Qt V I) (o : MetaObjects V I W) where
  pub Marshalled-append :
      (ms ms' : List (Message V I)) (bs bs' : List Bytes)
      → Marshalled q o ms bs
      → Marshalled q o ms' bs'
      → Marshalled q o (ms ++ ms') (bs ++ bs')
  Marshalled-append [] ms' [] bs' h h' = h'
  Marshalled-append [] ms' (b ∷ bs) bs' h h' = absurd h
  Marshalled-append (m ∷ ms) ms' [] bs' h h' = absurd h
  Marshalled-append (m ∷ ms) ms' (b ∷ bs) bs' (e, s, k, rest) h' =
      (e, s, k, Marshalled-append ms ms' bs bs' rest h')

  -- The messages of the first blocks, and of the others.
  pub Marshalled-split :
      (ms : List (Message V I)) (outs left : List Bytes)
      → Marshalled q o ms (outs ++ left)
      → (first later : List (Message V I)) × (ms ≡ first ++ later)
        × Marshalled q o first outs
        × Marshalled q o later left
  Marshalled-split ms [] left h = ([], ms, refl, tt, h)
  Marshalled-split [] (b ∷ outs) left h = absurd h
  Marshalled-split (m ∷ ms) (b ∷ outs) left (e, s, k, rest) =
      let (first, later, split, h, h') = Marshalled-split ms outs left rest in
      (m ∷ first, later, ap (◌∷◌ m) split, (e, s, k, h), h')
