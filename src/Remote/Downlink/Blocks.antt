-- ===== src/Remote/Downlink/Blocks.antt =====
-- The bytes that a service wrote to one connection, as blocks (src/CuteIPCServiceConnection.cpp).
use cute_ipc.Prelude.{
  ℕ, ◌+◌, ◌≡◌, refl, sym, ap, ◌∙◌, inl, inr, List, [], ◌∷◌, ◌++◌, append_assoc, length,
  length-append, All, ◌==◌, if◌then◌else◌, Bool-cases, arith,
}
use cute_ipc.Prelude.Text.{Bytes}
use cute_ipc.Qt.{Qt}
use cute_ipc.MetaObjects.{MetaObjects}
use cute_ipc.Message.{Message}
use cute_ipc.Receiver.Pending.{IsBlock, frames, frames-eq-nil}
use cute_ipc.Remote.Downlink.{Sending, bytes_to, messages_to, logged, IsSending, IsSmall}
use cute_ipc.Remote.Downlink.Hearing.{Written}

abbrev pub bodies_to : {V I : Type 0} → ℕ → List (Sending V I) → List Bytes
bodies_to c [] = []
bodies_to c (x ∷ sends) =
    let rest = bodies_to c sends in if x.connection == c then x.body ∷ rest else rest

pub bytes_to-append :
    (c : ℕ) (xs ys : List (ℕ × Bytes)) → bytes_to c (xs ++ ys) ≡ bytes_to c xs ++ bytes_to c ys
unfolding bytes_to
bytes_to-append c [] ys = refl
bytes_to-append c ((x, b) ∷ xs) ys = elim (Bool-cases (x == c)) [
  | inl e ↦ rw e (ap (◌++◌ b) (bytes_to-append c xs ys) ∙ sym (append_assoc b _ _))
  | inr e ↦ rw e (bytes_to-append c xs ys)
]

length-eq-zero : (xs : Bytes) → length xs ≡ 0 → xs ≡ []
length-eq-zero [] e = refl
length-eq-zero (x ∷ xs) e = absurd (omega (arith, e))

module _ {V I W : Type 0} (q : Qt V I) (o : MetaObjects V I W) where
  pub bytes_to-logged :
      (c : ℕ) (sends : List (Sending V I))
      → bytes_to c (logged q o sends) ≡ frames q.stream (bodies_to c sends)
  unfolding bytes_to
  bytes_to-logged c [] = refl
  bytes_to-logged c (x ∷ sends) = elim (Bool-cases (x.connection == c)) [
    | inl e ↦ rw e (
        append_assoc (q.put_uint (length x.body)) x.body _
        ∙ ap (λ f. q.put_uint (length x.body) ++ (x.body ++ f)) (bytes_to-logged c sends))
    | inr e ↦ rw e (bytes_to-logged c sends)
  ]

  pub sends-Written :
      (c : ℕ) (sends : List (Sending V I))
      → All (IsSending q o) sends
      → All (IsSmall q o) sends
      → Written q o (messages_to c sends) (bodies_to c sends)
  sends-Written c [] h h' = tt
  sends-Written c (x ∷ sends) ((k, e), h) ((s, b), h') = elim (Bool-cases (x.connection == c)) [
    | inl f ↦ rw (f, Written) (k, e, s, b, sends-Written c sends h h')
    | inr f ↦ rw f (sends-Written c sends h h')
  ]

  pub Written-append :
      (ms ms' : List (Message V I)) (bs bs' : List Bytes)
      → Written q o ms bs
      → Written q o ms' bs'
      → Written q o (ms ++ ms') (bs ++ bs')
  Written-append [] ms' [] bs' h h' = h'
  Written-append [] ms' (b ∷ bs) bs' h h' = absurd h
  Written-append (m ∷ ms) ms' [] bs' h h' = absurd h
  Written-append (m ∷ ms) ms' (b ∷ bs) bs' (k, e, s, size, rest) h' =
      (k, e, s, size, Written-append ms ms' bs bs' rest h')

  pub Written-split :
      (ms : List (Message V I)) (outs left : List Bytes)
      → Written q o ms (outs ++ left)
      → (first later : List (Message V I)) × (ms ≡ first ++ later)
        × Written q o first outs
        × Written q o later left
  Written-split ms [] left h = ([], ms, refl, tt, h)
  Written-split [] (b ∷ outs) left h = absurd h
  Written-split (m ∷ ms) (b ∷ outs) left (k, e, s, size, rest) =
      let (first, later, split, h, h') = Written-split ms outs left rest in
      (m ∷ first, later, ap (◌∷◌ m) split, (k, e, s, size, h), h')

  pub Written-IsBlock :
      (ms : List (Message V I)) (bs : List Bytes) → Written q o ms bs → All IsBlock bs
  Written-IsBlock [] [] h = tt
  Written-IsBlock [] (b ∷ bs) h = absurd h
  Written-IsBlock (m ∷ ms) [] h = tt
  Written-IsBlock (m ∷ ms) (b ∷ bs) (k, e, s, size, rest) = (size, Written-IsBlock ms bs rest)

  pub Written-nil : (ms : List (Message V I)) → Written q o ms [] → ms ≡ []
  Written-nil [] h = refl
  Written-nil (m ∷ ms) h = absurd h

  -- Nothing is on its way.
  pub nothing_sent :
      (bs more : List Bytes) (rest : Bytes)
      → (rest ≡ [] → bs ≡ [])
      → rest ++ frames q.stream more ≡ []
      → bs ++ more ≡ []
  nothing_sent bs more rest drained e =
      let short : length rest + length (frames q.stream more) ≡ 0 =
        omega (arith, ap length e, length-append rest (frames q.stream more)) in
      let none_before = drained (length-eq-zero rest (omega (arith, short))) in
      let none_more = frames-eq-nil q.stream more (omega (arith, short)) in
      λ i. none_before i ++ none_more i
